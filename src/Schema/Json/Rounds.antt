-- ===== src/Schema/Json/Rounds.antt =====
-- One round of the loop of `enforceStructureLimits` (packages/shared/src/schema.ts).
use verglos_cli.Prelude.{
  ℕ, suc, ◌+◌, ◌≤◌, ◌<◌, ◌≡◌, refl, ◌↔◌, inl, inr, ◌∷◌, arith, ltb, Bool-cases, All,
}
use verglos_cli.Schema.Json.{
  Json, json_null, json_bool, json_number, json_string, json_array, json_object, Items, Members,
  count_items, count_members, JsonParseLimits,
}
use verglos_cli.Schema.Json.Measures.{nodes_in, items_in, properties_in, IsShallow}
use verglos_cli.Schema.Json.Limits.{
  max_depth_exceeded, max_nodes_exceeded, max_object_properties_exceeded, max_array_items_exceeded,
  Entry, Walk, Round, throws, walks, open_value, visit, Enforced, within, exceeded, out_of_fuel,
}
use verglos_cli.Schema.Json.Pushes.{
  sum_of, IsShallowEntry, push_items-nodes, push_members-nodes, push_items-items,
  push_members-items, push_items-properties, push_members-properties, push_items-All,
  push_members-All,
}

-- What the counters of a walk come to in the end.
abbrev pub all_nodes : Walk → ℕ
all_nodes w = w.nodes + sum_of nodes_in w.stack

abbrev pub all_items : Walk → ℕ
all_items w = w.array_items + sum_of items_in w.stack

abbrev pub all_properties : Walk → ℕ
all_properties w = w.object_properties + sum_of properties_in w.stack

-- What each result says of the walk that it comes from.
abbrev pub IsVerdict : JsonParseLimits → Walk → Enforced → Type 0
IsVerdict l w within =
    (all_nodes w ≤ l.max_nodes)
    × (all_items w ≤ l.max_array_items)
    × (all_properties w ≤ l.max_object_properties)
    × All (IsShallowEntry l.max_depth) w.stack
IsVerdict l w (exceeded max_nodes_exceeded) = l.max_nodes < all_nodes w
IsVerdict l w (exceeded max_array_items_exceeded) = l.max_array_items < all_items w
IsVerdict l w (exceeded max_object_properties_exceeded) = l.max_object_properties < all_properties w
IsVerdict l w (exceeded max_depth_exceeded) = ¬ All (IsShallowEntry l.max_depth) w.stack
IsVerdict l w out_of_fuel = ⊥

-- No counter has passed its limit yet.
pub record IsBelow (l : JsonParseLimits) (w : Walk) : Type 0 where
  pub nodes : w.nodes ≤ l.max_nodes
  pub items : w.array_items ≤ l.max_array_items
  pub properties : w.object_properties ≤ l.max_object_properties

pub record IsNext (l : JsonParseLimits) (w next : Walk) : Type 0 where
  pub below : IsBelow l next
  pub shorter : suc (sum_of nodes_in next.stack) ≡ sum_of nodes_in w.stack
  pub same_nodes : all_nodes next ≡ all_nodes w
  pub same_items : all_items next ≡ all_items w
  pub same_properties : all_properties next ≡ all_properties w
  pub same_depth :
      All (IsShallowEntry l.max_depth) next.stack ↔ All (IsShallowEntry l.max_depth) w.stack

abbrev pub IsRound : JsonParseLimits → Walk → Round → Type 0
IsRound l w (throws x) = IsVerdict l w (exceeded x)
IsRound l w (walks next) = IsNext l w next

pub next-IsVerdict :
    (l : JsonParseLimits) (w next : Walk) (r : Enforced)
    → IsNext l w next
    → IsVerdict l next r
    → IsVerdict l w r
next-IsVerdict l w next within n h =
    ground (arith, n.same_nodes, n.same_items, n.same_properties, n.same_depth, h)
next-IsVerdict l w next (exceeded max_nodes_exceeded) n h = ground (arith, n.same_nodes, h)
next-IsVerdict l w next (exceeded max_array_items_exceeded) n h = ground (arith, n.same_items, h)
next-IsVerdict l w next (exceeded max_object_properties_exceeded) n h =
    ground (arith, n.same_properties, h)
next-IsVerdict l w next (exceeded max_depth_exceeded) n h = λ a. h (n.same_depth.1 a)
next-IsVerdict l w next out_of_fuel n h = h

module _ (l : JsonParseLimits) where
  -- The walk before a round that has the value on top.
  abbrev pub before : Json → ℕ → Walk → Walk
  before v d w = record w { stack = record { value = v; depth = d } ∷ w.stack }

  abbrev counted : Walk → Walk
  counted w = record w { nodes = suc w.nodes }

  scalar-IsNext :
      (v : Json) (d : ℕ) (w : Walk)
      → IsBelow l (counted w)
      → nodes_in v ≡ 1
      → items_in v ≡ 0
      → properties_in v ≡ 0
      → IsShallow l.max_depth d v
      → IsNext l (before v d w) (counted w)
  scalar-IsNext v d w b n i p h = record {
    below = b;
    shorter = omega (arith, n);
    same_nodes = omega (arith, n);
    same_items = omega (arith, i);
    same_properties = omega (arith, p);
    same_depth = ((λ a. (h, a)), λ a. a.1);
  }

  open_array-IsRound :
      (vs : Items) (d : ℕ) (w : Walk)
      → IsBelow l (counted w)
      → d ≤ l.max_depth
      → IsRound l (before (json_array vs) d w) (open_value l (json_array vs) d (counted w))
  unfolding open_value
  open_array-IsRound vs d w b h =
      elim (Bool-cases (ltb l.max_array_items (w.array_items + count_items vs))) [
        | inl over ↦ rw over (ground (arith, over))
        | inr fine ↦ rw fine (record {
          below = record {
            nodes = b.nodes;
            items = ground (arith, fine);
            properties = b.properties;
          };
          shorter = omega (arith, push_items-nodes vs (suc d) w.stack);
          same_nodes = omega (arith, push_items-nodes vs (suc d) w.stack);
          same_items = omega (arith, push_items-items vs (suc d) w.stack);
          same_properties = omega (arith, push_items-properties vs (suc d) w.stack);
          same_depth = ground (arith, h, push_items-All l.max_depth vs (suc d) w.stack);
        })
      ]

  open_object-IsRound :
      (ms : Members) (d : ℕ) (w : Walk)
      → IsBelow l (counted w)
      → d ≤ l.max_depth
      → IsRound l (before (json_object ms) d w) (open_value l (json_object ms) d (counted w))
  unfolding open_value
  open_object-IsRound ms d w b h =
      elim (Bool-cases (ltb l.max_object_properties (w.object_properties + count_members ms))) [
        | inl over ↦ rw over (ground (arith, over))
        | inr fine ↦ rw fine (record {
          below = record { nodes = b.nodes; items = b.items; properties = ground (arith, fine) };
          shorter = omega (arith, push_members-nodes ms (suc d) w.stack);
          same_nodes = omega (arith, push_members-nodes ms (suc d) w.stack);
          same_items = omega (arith, push_members-items ms (suc d) w.stack);
          same_properties = omega (arith, push_members-properties ms (suc d) w.stack);
          same_depth = ground (arith, h, push_members-All l.max_depth ms (suc d) w.stack);
        })
      ]

  open-IsRound :
      (v : Json) (d : ℕ) (w : Walk)
      → IsBelow l (counted w)
      → d ≤ l.max_depth
      → IsRound l (before v d w) (open_value l v d (counted w))
  unfolding open_value
  open-IsRound (json_array vs) d w b h = open_array-IsRound vs d w b h
  open-IsRound (json_object ms) d w b h = open_object-IsRound ms d w b h
  open-IsRound json_null d w b h = scalar-IsNext json_null d w b refl refl refl h
  open-IsRound (json_bool x) d w b h = scalar-IsNext (json_bool x) d w b refl refl refl h
  open-IsRound (json_number x) d w b h = scalar-IsNext (json_number x) d w b refl refl refl h
  open-IsRound (json_string x) d w b h = scalar-IsNext (json_string x) d w b refl refl refl h

  IsShallow-depth : (m d : ℕ) (v : Json) → IsShallow m d v → d ≤ m
  IsShallow-depth m d (json_array vs) h = h.0
  IsShallow-depth m d (json_object ms) h = h.0
  IsShallow-depth m d json_null h = h
  IsShallow-depth m d (json_bool x) h = h
  IsShallow-depth m d (json_number x) h = h
  IsShallow-depth m d (json_string x) h = h

  pub nodes_in_pos : (v : Json) → 1 ≤ nodes_in v
  nodes_in_pos (json_array vs) = omega arith
  nodes_in_pos (json_object ms) = omega arith
  nodes_in_pos json_null = omega arith
  nodes_in_pos (json_bool x) = omega arith
  nodes_in_pos (json_number x) = omega arith
  nodes_in_pos (json_string x) = omega arith

  pub visit-IsRound :
      (e : Entry) (w : Walk) → IsBelow l w → IsRound l (before e.value e.depth w) (visit l e w)
  unfolding visit
  visit-IsRound e w b = elim (Bool-cases (ltb l.max_nodes (suc w.nodes))) [
    | inl many ↦ rw many (ground (arith, many, nodes_in_pos e.value))
    | inr few ↦ elim (Bool-cases (ltb l.max_depth e.depth)) [
      | inl deep ↦
          rw (few, deep)
            (λ a. ground (arith, deep, IsShallow-depth l.max_depth e.depth e.value a.0))
      | inr flat ↦
          rw (few, flat)
            (open-IsRound e.value e.depth w
              (record { nodes = ground (arith, few); items = b.items; properties = b.properties })
              (ground (arith, flat)))
    ]
  ]
