-- ===== src/Schema/Canonical/Laws.antt =====
-- Canonical texts (packages/shared/src/schema.ts): where there is one, and the order of members.
use verglos_cli.Prelude.{
  ℕ, suc, ◌≤◌, ◌≡◌, refl, ap, ◌↔◌, ◌⊎◌, inl, inr, Bool, true, false, ◌&&◌, List, [], ◌∷◌, ◌++◌, map,
  arith, Bool-cases, In, All,
}
use verglos_cli.Text.{Text, codes}
use verglos_cli.Text.Sets.{NoRepeat}
use verglos_cli.Text.Sorting.{sort_by, All-sort_by, sort_by-eq}
use verglos_cli.Contracts.{Parsed, ok, invalid, unreadable, ◌>>=◌}
use verglos_cli.Schema.Json.{
  Json, json_null, json_bool, json_number, json_string, json_array, json_object, Items, no_items,
  item, Members, no_members, member,
}
use verglos_cli.Schema.Json.Measures.{IsShallow, AreShallow, HasShallow}
use verglos_cli.Schema.Canonical.{
  CanonicalError, is_high, is_low, valid_unicode, quote_valid, unless_too_deep, MemberText, collect,
  between, member_text, serialize_canonical, serialize_items, serialize_members, canonicalize_json,
}

-- A text of code units outside the surrogates and of pairs of a high and a low surrogate.
pub data IsUnicode : Text → Type 0 where
  empty : IsUnicode []
  unit : {c : ℕ} {s : Text} → is_high c ≡ false → is_low c ≡ false → IsUnicode s → IsUnicode (c ∷ s)
  pair :
      {c d : ℕ} {s : Text}
      → is_high c ≡ true
      → is_low d ≡ true
      → IsUnicode s
      → IsUnicode (c ∷ d ∷ s)

abbrev mutual
  pub HasUnicode : Json → Type 0
  HasUnicode json_null = Unit
  HasUnicode (json_bool b) = Unit
  HasUnicode (json_number n) = Unit
  HasUnicode (json_string s) = IsUnicode s
  HasUnicode (json_array vs) = ItemsHaveUnicode vs
  HasUnicode (json_object ms) = MembersHaveUnicode ms

  pub ItemsHaveUnicode : Items → Type 0
  ItemsHaveUnicode no_items = Unit
  ItemsHaveUnicode (item v vs) = HasUnicode v × ItemsHaveUnicode vs

  pub MembersHaveUnicode : Members → Type 0
  MembersHaveUnicode no_members = Unit
  MembersHaveUnicode (member k v ms) = IsUnicode k × HasUnicode v × MembersHaveUnicode ms

pub valid_unicode-IsUnicode : (s : Text) → valid_unicode s ≡ true → IsUnicode s
valid_unicode-IsUnicode [] h = empty
valid_unicode-IsUnicode (c ∷ []) h = unit (ground (arith, h)) (ground (arith, h)) empty
valid_unicode-IsUnicode (c ∷ d ∷ s) h = elim (Bool-cases (is_high c)) [
  | inl e ↦ pair e (ground (arith, e, h)) (valid_unicode-IsUnicode s (ground (arith, e, h)))
  | inr e ↦ unit e (ground (arith, e, h)) (valid_unicode-IsUnicode (d ∷ s) (ground (arith, e, h)))
]

valid_of : (s : Text) → IsUnicode s → valid_unicode s ≡ true
valid_of [] u = refl
valid_of (c ∷ []) (unit h l u) = ground (arith, h, l)
valid_of (c ∷ d ∷ s) (unit h l u) = ground (arith, h, l, valid_of (d ∷ s) u)
valid_of (c ∷ d ∷ s) (pair h l u) = ground (arith, h, l, valid_of s u)

abbrev pub is_ok : {I A : Type 0} → Parsed I A → Bool
is_ok (ok a) = true
is_ok _ = false

quote_iff : (s : Text) → (is_ok (quote_valid s) ≡ true) ↔ IsUnicode s
quote_iff s = ground (arith, valid_unicode-IsUnicode s, valid_of s)

bind-ok :
    {I A B : Type 0} (m : Parsed I A) (f : A → Parsed I B)
    → ((a : A) → is_ok (f a) ≡ true)
    → is_ok (m >>= f) ≡ is_ok m
bind-ok (ok a) f h = h a
bind-ok (invalid is) f h = refl
bind-ok (unreadable c) f h = refl

bind_bind-ok :
    {I A B C : Type 0} (m : Parsed I A) (n : Parsed I B) (f : A → B → Parsed I C)
    → ((a : A) (b : B) → is_ok (f a b) ≡ true)
    → is_ok (m >>= (λ a. n >>= f a)) ≡ (is_ok m && is_ok n)
bind_bind-ok (ok a) n f h = bind-ok n (f a) (h a)
bind_bind-ok (invalid is) n f h = refl
bind_bind-ok (unreadable c) n f h = refl

collect_iff :
    (ms : List MemberText) → (is_ok (collect ms) ≡ true) ↔ All (λ m. is_ok m.text ≡ true) ms
collect_iff [] = ground arith
collect_iff (m ∷ ms) =
    ground
      (arith, bind_bind-ok m.text (collect ms) (λ t ts. ok (t ∷ ts)) (λ _ _. refl), collect_iff ms)

between-ok : (a b : Text) (r : Parsed CanonicalError (List Text)) → is_ok (between a b r) ≡ is_ok r
between-ok a b r = bind-ok r _ (λ _. refl)

unless_iff :
    (d : ℕ) (r : Parsed CanonicalError Text)
    → (is_ok (unless_too_deep d r) ≡ true) ↔ ((d ≤ 64) × (is_ok r ≡ true))
unless_iff d r = ground arith

mutual
  serialize_iff :
      (v : Json) (d : ℕ)
      → (is_ok (serialize_canonical v d) ≡ true) ↔ (IsShallow 64 d v × HasUnicode v)
  serialize_iff json_null d = ground (arith, unless_iff d)
  serialize_iff (json_bool b) d = ground (arith, unless_iff d)
  serialize_iff (json_number n) d = ground (arith, unless_iff d)
  serialize_iff (json_string s) d = ground (arith, unless_iff d (quote_valid s), quote_iff s)
  serialize_iff (json_array vs) d = ground (
    arith,
    unless_iff d (between (codes "[") (codes "]") (serialize_items vs (suc d))),
    between-ok (codes "[") (codes "]") (serialize_items vs (suc d)),
    items_iff vs (suc d),
  )
  serialize_iff (json_object ms) d =
      let sorted = sort_by MemberText.key (serialize_members ms (suc d)) in
      ground (
        arith,
        unless_iff d (between (codes "{") (codes "}") (collect sorted)),
        between-ok (codes "{") (codes "}") (collect sorted),
        collect_iff sorted,
        All-sort_by MemberText.key (λ m. is_ok m.text ≡ true) (serialize_members ms (suc d)),
        members_iff ms (suc d),
      )

  items_iff :
      (vs : Items) (d : ℕ)
      → (is_ok (serialize_items vs d) ≡ true) ↔ (AreShallow 64 d vs × ItemsHaveUnicode vs)
  items_iff no_items d = ground arith
  items_iff (item v vs) d = ground (
    arith,
    bind_bind-ok (serialize_canonical v d) (serialize_items vs d) (λ t ts. ok (t ∷ ts))
        (λ _ _. refl),
    serialize_iff v d,
    items_iff vs d,
  )

  members_iff :
      (ms : Members) (d : ℕ)
      → All (λ m. is_ok m.text ≡ true) (serialize_members ms d)
        ↔ (HasShallow 64 d ms × MembersHaveUnicode ms)
  members_iff no_members d = ground arith
  members_iff (member k v ms) d = ground (
    arith,
    bind_bind-ok (quote_valid k) (serialize_canonical v d) (λ name t. ok (name ++ (codes ":" ++ t)))
        (λ _ _. refl),
    quote_iff k,
    serialize_iff v d,
    members_iff ms d,
  )

-- A value has a canonical text exactly where none of its values stands deeper than the default limit
-- of 64, and each of its texts and keys is Unicode without an unpaired surrogate.
pub canonicalize_json-ok_iff :
    (v : Json) → (is_ok (canonicalize_json v) ≡ true) ↔ (IsShallow 64 0 v × HasUnicode v)
unfolding canonicalize_json
canonicalize_json-ok_iff v = serialize_iff v 0

abbrev pub HasMember : Text → Json → Members → Type 0
HasMember j u no_members = ⊥
HasMember j u (member k v ms) = ((j ≡ k) × (u ≡ v)) ⊎ HasMember j u ms

abbrev pub keys_of : Members → List Text
keys_of no_members = []
keys_of (member k v ms) = k ∷ keys_of ms

abbrev entry_of : Text → Json → ℕ → MemberText
entry_of k v d = record { key = k; text = member_text k (serialize_canonical v d) }

keys-serialize : (ms : Members) (d : ℕ) → map MemberText.key (serialize_members ms d) ≡ keys_of ms
keys-serialize no_members d = refl
keys-serialize (member k v ms) d = ap (λ l. k ∷ l) (keys-serialize ms d)

member_of_entry :
    (e : MemberText) (ms : Members) (d : ℕ)
    → In e (serialize_members ms d)
    → (k : Text) × (v : Json) × HasMember k v ms × (e ≡ entry_of k v d)
member_of_entry e no_members d m = absurd m
member_of_entry e (member k v ms) d (inl h) = (k, v, inl (refl, refl), h)
member_of_entry e (member k v ms) d (inr m) =
    let (j, u, n, h) = member_of_entry e ms d m in (j, u, inr n, h)

entry_of_member :
    (k : Text) (v : Json) (ms : Members) (d : ℕ)
    → HasMember k v ms
    → In (entry_of k v d) (serialize_members ms d)
entry_of_member j u no_members d m = absurd m
entry_of_member j u (member k v ms) d (inl (a, b)) = inl (rw (a, b) refl)
entry_of_member j u (member k v ms) d (inr m) = inr (entry_of_member j u ms d m)

entries_move :
    (ms ns : Members) (d : ℕ) (e : MemberText)
    → ((k : Text) (v : Json) → HasMember k v ms → HasMember k v ns)
    → In e (serialize_members ms d)
    → In e (serialize_members ns d)
entries_move ms ns d e f m =
    let (k, v, n, h) = member_of_entry e ms d m in rw h (entry_of_member k v ns d (f k v n))

-- The order of an object's members does not matter to its canonical text: two objects that have the
-- same members, each of which has distinct keys, are serialised alike at each depth.
pub serialize_canonical-order_free :
    (ms ns : Members) (d : ℕ)
    → NoRepeat (keys_of ms)
    → NoRepeat (keys_of ns)
    → ((k : Text) (v : Json) → HasMember k v ms ↔ HasMember k v ns)
    → serialize_canonical (json_object ms) d ≡ serialize_canonical (json_object ns) d
serialize_canonical-order_free ms ns d h k same =
    ap (λ l. unless_too_deep d (between (codes "{") (codes "}") (collect l)))
      (sort_by-eq MemberText.key (serialize_members ms (suc d)) (serialize_members ns (suc d))
        (rw (keys-serialize ms (suc d)) h) (rw (keys-serialize ns (suc d)) k)
        (λ e. (
          entries_move ms ns (suc d) e (λ j u. (same j u).0),
          entries_move ns ms (suc d) e (λ j u. (same j u).1),
        )))
