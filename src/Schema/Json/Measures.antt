-- ===== src/Schema/Json/Measures.antt =====
-- The size of a JSON value by recursion on it: what the loop over a stack is to find.
use verglos_cli.Prelude.{ℕ, suc, ◌+◌, ◌≤◌}
use verglos_cli.Schema.Json.{
  Json, json_null, json_bool, json_number, json_string, json_array, json_object, Items, no_items,
  item, Members, no_members, member, count_items, count_members,
}

-- The values inside a value, itself included.
abbrev mutual
  pub nodes_in : Json → ℕ
  nodes_in (json_array vs) = suc (nodes_in_items vs)
  nodes_in (json_object ms) = suc (nodes_in_members ms)
  nodes_in _ = 1

  pub nodes_in_items : Items → ℕ
  nodes_in_items no_items = 0
  nodes_in_items (item v vs) = nodes_in v + nodes_in_items vs

  pub nodes_in_members : Members → ℕ
  nodes_in_members no_members = 0
  nodes_in_members (member k v ms) = nodes_in v + nodes_in_members ms

-- The items of all the arrays inside a value.
abbrev mutual
  pub items_in : Json → ℕ
  items_in (json_array vs) = count_items vs + items_in_items vs
  items_in (json_object ms) = items_in_members ms
  items_in _ = 0

  pub items_in_items : Items → ℕ
  items_in_items no_items = 0
  items_in_items (item v vs) = items_in v + items_in_items vs

  pub items_in_members : Members → ℕ
  items_in_members no_members = 0
  items_in_members (member k v ms) = items_in v + items_in_members ms

-- The properties of all the objects inside a value.
abbrev mutual
  pub properties_in : Json → ℕ
  properties_in (json_array vs) = properties_in_items vs
  properties_in (json_object ms) = count_members ms + properties_in_members ms
  properties_in _ = 0

  pub properties_in_items : Items → ℕ
  properties_in_items no_items = 0
  properties_in_items (item v vs) = properties_in v + properties_in_items vs

  pub properties_in_members : Members → ℕ
  properties_in_members no_members = 0
  properties_in_members (member k v ms) = properties_in v + properties_in_members ms

-- No value inside a value, which itself stands at depth `d`, stands deeper than `m`.
abbrev mutual
  pub IsShallow : ℕ → ℕ → Json → Type 0
  IsShallow m d (json_array vs) = (d ≤ m) × AreShallow m (suc d) vs
  IsShallow m d (json_object ms) = (d ≤ m) × HasShallow m (suc d) ms
  IsShallow m d json_null = d ≤ m
  IsShallow m d (json_bool b) = d ≤ m
  IsShallow m d (json_number n) = d ≤ m
  IsShallow m d (json_string s) = d ≤ m

  pub AreShallow : ℕ → ℕ → Items → Type 0
  AreShallow m d no_items = Unit
  AreShallow m d (item v vs) = IsShallow m d v × AreShallow m d vs

  pub HasShallow : ℕ → ℕ → Members → Type 0
  HasShallow m d no_members = Unit
  HasShallow m d (member k v ms) = IsShallow m d v × HasShallow m d ms
