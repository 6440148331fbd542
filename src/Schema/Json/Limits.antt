-- ===== src/Schema/Json/Limits.antt =====
-- packages/shared/src/schema.ts: `enforceStructureLimits`, a loop over a stack of values.
use verglos_cli.Prelude.{ℕ, zero, suc, ◌+◌, List, [], ◌∷◌, ltb, if◌then◌else◌}
use verglos_cli.Schema.Json.{
  Json, json_array, json_object, Items, no_items, item, Members, no_members, member, count_items,
  count_members, JsonParseLimits,
}
use verglos_cli.Schema.Json.Measures.{nodes_in}

pub data LimitError : Type 0 where
  max_depth_exceeded : LimitError
  max_nodes_exceeded : LimitError
  max_object_properties_exceeded : LimitError
  max_array_items_exceeded : LimitError

-- An entry of the stack: a value and its depth.
pub record Entry : Type 0 where
  pub value : Json
  pub depth : ℕ

-- The local variables of the loop; the head of the stack is the last value that was pushed.
pub record Walk : Type 0 where
  pub nodes : ℕ
  pub object_properties : ℕ
  pub array_items : ℕ
  pub stack : List Entry

-- `for (const child of children) stack.push({ value: child, depth })`
abbrev pub push_items : Items → ℕ → List Entry → List Entry
push_items no_items d st = st
push_items (item v vs) d st = push_items vs d (record { value = v; depth = d } ∷ st)

abbrev pub push_members : Members → ℕ → List Entry → List Entry
push_members no_members d st = st
push_members (member k v ms) d st = push_members ms d (record { value = v; depth = d } ∷ st)

-- What one round makes of the loop: an error is thrown, or the walk goes on.
pub data Round : Type 0 where
  throws : LimitError → Round
  walks : Walk → Round

-- The rest of a round, after the value has been counted.
unfoldable pub open_value : JsonParseLimits → Json → ℕ → Walk → Round
open_value l (json_array vs) d w =
    let items = w.array_items + count_items vs in
    if ltb l.max_array_items items
    then throws max_array_items_exceeded
    else walks (record w { array_items = items; stack = push_items vs (suc d) w.stack })
open_value l (json_object ms) d w =
    let properties = w.object_properties + count_members ms in
    if ltb l.max_object_properties properties
    then throws max_object_properties_exceeded
    else walks
        (record w { object_properties = properties; stack = push_members ms (suc d) w.stack })
open_value l _ d w = walks w

unfoldable pub visit : JsonParseLimits → Entry → Walk → Round
visit l e w =
    if ltb l.max_nodes (suc w.nodes)
    then throws max_nodes_exceeded
    else if ltb l.max_depth e.depth
    then throws max_depth_exceeded
    else open_value l e.value e.depth (record w { nodes = suc w.nodes })

pub data Enforced : Type 0 where
  within : Enforced
  exceeded : LimitError → Enforced
  out_of_fuel : Enforced

-- The loop: one unit of fuel for each round.
unfoldable pub enforce : ℕ → JsonParseLimits → Walk → Enforced
enforce zero l w = elim w.stack [ [] ↦ within | e ∷ rest ↦ out_of_fuel ]
enforce (suc n) l w = elim w.stack [
  | [] ↦ within
  | e ∷ rest ↦ elim (visit l e (record w { stack = rest })) [
    | throws x ↦ exceeded x
    | walks next ↦ enforce n l next
  ]
]

abbrev pub start : Json → Walk
start v = record {
  nodes = 0;
  object_properties = 0;
  array_items = 0;
  stack = record { value = v; depth = 0 } ∷ [];
}

-- `enforceStructureLimits`, with a round for each node of the value.
unfoldable pub enforce_structure_limits : JsonParseLimits → Json → Enforced
enforce_structure_limits l v = enforce (nodes_in v) l (start v)
