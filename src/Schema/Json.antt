-- ===== src/Schema/Json.antt =====
-- packages/shared/src/schema.ts: JSON values and the limits on their structure. A value is what
-- `JSON.parse` returns, a finite tree; a number is the text that `JSON.stringify` prints for it.
pub mod Measures
pub mod Limits
mod Pushes
mod Rounds
pub mod LimitLaws
mod Tests
use verglos_cli.Prelude.{ℕ, suc, Bool, List, [], ◌∷◌}
use verglos_cli.Text.{Text}

-- An object has its members in the order of `Object.values`.
mutual
  pub data Json : Type 0 where
    json_null : Json
    json_bool : Bool → Json
    json_number : Text → Json
    json_string : Text → Json
    json_array : Items → Json
    json_object : Members → Json

  pub data Items : Type 0 where
    no_items : Items
    item : Json → Items → Items

  pub data Members : Type 0 where
    no_members : Members
    member : Text → Json → Members → Members

abbrev pub count_items : Items → ℕ
count_items no_items = 0
count_items (item v vs) = suc (count_items vs)

abbrev pub count_members : Members → ℕ
count_members no_members = 0
count_members (member k v ms) = suc (count_members ms)

-- An array of strings, and an object with these members in this order.
abbrev pub strings : List Text → Items
strings [] = no_items
strings (t ∷ ts) = item (json_string t) (strings ts)

abbrev pub members : List (Text × Json) → Members
members [] = no_members
members ((k, v) ∷ ms) = member k v (members ms)

pub record JsonParseLimits : Type 0 where
  pub max_bytes : ℕ
  pub max_depth : ℕ
  pub max_nodes : ℕ
  pub max_object_properties : ℕ
  pub max_array_items : ℕ

-- DEFAULT_JSON_PARSE_LIMITS
abbrev pub default_limits : JsonParseLimits
default_limits = record {
  max_bytes = 16777216;
  max_depth = 64;
  max_nodes = 250000;
  max_object_properties = 200000;
  max_array_items = 200000;
}
