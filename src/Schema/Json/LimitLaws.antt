-- ===== src/Schema/Json/LimitLaws.antt =====
-- The loop of `enforceStructureLimits` (packages/shared/src/schema.ts) against recursion on the value.
use verglos_cli.Prelude.{ℕ, zero, suc, ◌≤◌, ◌<◌, ◌≡◌, refl, ◌≢◌, ◌↔◌, List, [], ◌∷◌, arith}
use mathlib.Core.Path.{subst}
use verglos_cli.Schema.Json.{Json, JsonParseLimits}
use verglos_cli.Schema.Json.Measures.{nodes_in, items_in, properties_in, IsShallow}
use verglos_cli.Schema.Json.Limits.{
  LimitError, max_depth_exceeded, max_nodes_exceeded, max_object_properties_exceeded,
  max_array_items_exceeded, Entry, Walk, Round, throws, walks, visit, Enforced, within, exceeded,
  out_of_fuel, enforce, start, enforce_structure_limits,
}
use verglos_cli.Schema.Json.Pushes.{sum_of}
use verglos_cli.Schema.Json.Rounds.{
  IsVerdict, IsBelow, IsRound, next-IsVerdict, visit-IsRound, nodes_in_pos,
}

module _ (l : JsonParseLimits) where
  empty-IsVerdict : (w : Walk) → IsBelow l w → IsVerdict l (record w { stack = [] }) within
  empty-IsVerdict w b =
      (omega (arith, b.nodes), omega (arith, b.items), omega (arith, b.properties), tt)

  round-IsVerdict :
      (n : ℕ) (w : Walk) (r : Round)
      → IsRound l w r
      → ((next : Walk)
          → IsBelow l next
          → sum_of nodes_in next.stack ≤ n
          → IsVerdict l next (enforce n l next))
      → sum_of nodes_in w.stack ≤ suc n
      → IsVerdict l w (elim r [ throws x ↦ exceeded x | walks next ↦ enforce n l next ])
  round-IsVerdict n w (throws x) k again h = k
  round-IsVerdict n w (walks next) k again h =
      next-IsVerdict l w next (enforce n l next) k
        (again next k.below (omega (arith, k.shorter, h)))

  -- With a round for each node on the stack the loop ends, and its result is true of the stack.
  enforce-IsVerdict :
      (n : ℕ) (w : Walk) (st : List Entry)
      → IsBelow l w
      → sum_of nodes_in st ≤ n
      → IsVerdict l (record w { stack = st }) (enforce n l (record w { stack = st }))
  unfolding enforce
  enforce-IsVerdict zero w [] b h = empty-IsVerdict w b
  enforce-IsVerdict (suc n) w [] b h = empty-IsVerdict w b
  enforce-IsVerdict zero w (e ∷ rest) b h = omega (arith, h, nodes_in_pos l e.value)
  enforce-IsVerdict (suc n) w (e ∷ rest) b h =
      let here = record w { stack = rest } in
      let below : IsBelow l here = record {
        nodes = b.nodes;
        items = b.items;
        properties = b.properties;
      } in
      round-IsVerdict n (record w { stack = e ∷ rest }) (visit l e here)
        (visit-IsRound l e here below) (λ next b. enforce-IsVerdict n next next.stack b) h

-- What the code promises of a value that passes.
pub record IsWithin (l : JsonParseLimits) (v : Json) : Type 0 where
  pub nodes : nodes_in v ≤ l.max_nodes
  pub depth : IsShallow l.max_depth 0 v
  pub properties : properties_in v ≤ l.max_object_properties
  pub items : items_in v ≤ l.max_array_items

-- What an error claims of the value.
abbrev pub IsExceeded : JsonParseLimits → Json → LimitError → Type 0
IsExceeded l v max_nodes_exceeded = l.max_nodes < nodes_in v
IsExceeded l v max_depth_exceeded = ¬ IsShallow l.max_depth 0 v
IsExceeded l v max_object_properties_exceeded = l.max_object_properties < properties_in v
IsExceeded l v max_array_items_exceeded = l.max_array_items < items_in v

start-IsVerdict :
    (l : JsonParseLimits) (v : Json) → IsVerdict l (start v) (enforce_structure_limits l v)
unfolding enforce_structure_limits
start-IsVerdict l v =
    enforce-IsVerdict l (nodes_in v) (start v) (start v).stack
      (record { nodes = omega arith; items = omega arith; properties = omega arith }) (omega arith)

error-IsExceeded :
    (l : JsonParseLimits) (v : Json) (x : LimitError)
    → IsVerdict l (start v) (exceeded x)
    → IsExceeded l v x
error-IsExceeded l v max_nodes_exceeded h = omega (arith, h)
error-IsExceeded l v max_depth_exceeded h = λ s. h (s, tt)
error-IsExceeded l v max_object_properties_exceeded h = omega (arith, h)
error-IsExceeded l v max_array_items_exceeded h = omega (arith, h)

exceeded_not_within :
    (l : JsonParseLimits) (v : Json) (x : LimitError) → IsExceeded l v x → IsWithin l v → ⊥
exceeded_not_within l v max_nodes_exceeded h w = omega (arith, h, w.nodes)
exceeded_not_within l v max_depth_exceeded h w = h w.depth
exceeded_not_within l v max_object_properties_exceeded h w = omega (arith, h, w.properties)
exceeded_not_within l v max_array_items_exceeded h w = omega (arith, h, w.items)

verdict_means :
    (l : JsonParseLimits) (v : Json) (r : Enforced)
    → IsVerdict l (start v) r
    → ((r ≡ within) ↔ IsWithin l v)
      × ((x : LimitError) → r ≡ exceeded x → IsExceeded l v x)
      × (r ≢ out_of_fuel)
verdict_means l v within (nodes, items, properties, depth) = (
  (
    λ e. record {
      nodes = omega (arith, nodes);
      depth = depth.0;
      properties = omega (arith, properties);
      items = omega (arith, items);
    },
    λ w. refl,
  ),
  λ x e. cc,
  λ e. cc,
)
verdict_means l v (exceeded x) k =
    let true_error = error-IsExceeded l v x k in
    (
      (λ e. cc, λ w. absurd (exceeded_not_within l v x true_error w)),
      λ y e. subst (IsExceeded l v) (same_error x y e) true_error,
      λ e. cc,
    )
  where
    same_error : (x y : LimitError) → exceeded x ≡ exceeded y → x ≡ y
    same_error x y e = cc
verdict_means l v out_of_fuel k = absurd k

-- The loop never runs out of rounds. It lets a value pass exactly where the value's nodes, array
-- items, object properties and depth, counted by recursion on it, are within the limits, and an
-- error that it throws is true: that limit is exceeded.
pub enforce_structure_limits-within_iff :
    (l : JsonParseLimits) (v : Json)
    → ((enforce_structure_limits l v ≡ within) ↔ IsWithin l v)
      × ((x : LimitError) → enforce_structure_limits l v ≡ exceeded x → IsExceeded l v x)
      × (enforce_structure_limits l v ≢ out_of_fuel)
enforce_structure_limits-within_iff l v =
    verdict_means l v (enforce_structure_limits l v) (start-IsVerdict l v)
