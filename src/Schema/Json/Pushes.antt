-- ===== src/Schema/Json/Pushes.antt =====
-- Sums over the stack of `enforceStructureLimits` (packages/shared/src/schema.ts), and pushes on it.
use verglos_cli.Prelude.{ℕ, ◌+◌, ◌≡◌, ◌↔◌, List, [], ◌∷◌, arith, All}
use verglos_cli.Schema.Json.{Json, Items, no_items, item, Members, no_members, member}
use verglos_cli.Schema.Json.Measures.{
  nodes_in, nodes_in_items, nodes_in_members, items_in, items_in_items, items_in_members,
  properties_in, properties_in_items, properties_in_members, IsShallow, AreShallow, HasShallow,
}
use verglos_cli.Schema.Json.Limits.{Entry, push_items, push_members}

abbrev pub sum_of : (Json → ℕ) → List Entry → ℕ
sum_of f [] = 0
sum_of f (e ∷ st) = f e.value + sum_of f st

abbrev pub IsShallowEntry : ℕ → Entry → Type 0
IsShallowEntry m e = IsShallow m e.depth e.value

pub push_items-nodes :
    (vs : Items) (d : ℕ) (st : List Entry)
    → sum_of nodes_in (push_items vs d st) ≡ nodes_in_items vs + sum_of nodes_in st
push_items-nodes no_items d st = omega arith
push_items-nodes (item v vs) d st =
    omega (arith, push_items-nodes vs d (record { value = v; depth = d } ∷ st))

pub push_members-nodes :
    (ms : Members) (d : ℕ) (st : List Entry)
    → sum_of nodes_in (push_members ms d st) ≡ nodes_in_members ms + sum_of nodes_in st
push_members-nodes no_members d st = omega arith
push_members-nodes (member k v ms) d st =
    omega (arith, push_members-nodes ms d (record { value = v; depth = d } ∷ st))

pub push_items-items :
    (vs : Items) (d : ℕ) (st : List Entry)
    → sum_of items_in (push_items vs d st) ≡ items_in_items vs + sum_of items_in st
push_items-items no_items d st = omega arith
push_items-items (item v vs) d st =
    omega (arith, push_items-items vs d (record { value = v; depth = d } ∷ st))

pub push_members-items :
    (ms : Members) (d : ℕ) (st : List Entry)
    → sum_of items_in (push_members ms d st) ≡ items_in_members ms + sum_of items_in st
push_members-items no_members d st = omega arith
push_members-items (member k v ms) d st =
    omega (arith, push_members-items ms d (record { value = v; depth = d } ∷ st))

pub push_items-properties :
    (vs : Items) (d : ℕ) (st : List Entry)
    → sum_of properties_in (push_items vs d st) ≡ properties_in_items vs + sum_of properties_in st
push_items-properties no_items d st = omega arith
push_items-properties (item v vs) d st =
    omega (arith, push_items-properties vs d (record { value = v; depth = d } ∷ st))

pub push_members-properties :
    (ms : Members) (d : ℕ) (st : List Entry)
    → sum_of properties_in (push_members ms d st)
      ≡ properties_in_members ms + sum_of properties_in st
push_members-properties no_members d st = omega arith
push_members-properties (member k v ms) d st =
    omega (arith, push_members-properties ms d (record { value = v; depth = d } ∷ st))

module _ (m : ℕ) where
  pub push_items-All :
      (vs : Items) (d : ℕ) (st : List Entry)
      → All (IsShallowEntry m) (push_items vs d st)
        ↔ (AreShallow m d vs × All (IsShallowEntry m) st)
  push_items-All no_items d st = ground arith
  push_items-All (item v vs) d st =
      ground (arith, push_items-All vs d (record { value = v; depth = d } ∷ st))

  pub push_members-All :
      (ms : Members) (d : ℕ) (st : List Entry)
      → All (IsShallowEntry m) (push_members ms d st)
        ↔ (HasShallow m d ms × All (IsShallowEntry m) st)
  push_members-All no_members d st = ground arith
  push_members-All (member k v ms) d st =
      ground (arith, push_members-All ms d (record { value = v; depth = d } ∷ st))
