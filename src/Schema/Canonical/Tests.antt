-- ===== src/Schema/Canonical/Tests.antt =====
-- Runs of the canonical serialisation, and its theorems at one.
use verglos_cli.Prelude.{◌≡◌, refl, ◌↔◌, inl, inr, true, [], ◌∷◌}
use verglos_cli.Text.{Text, codes}
use verglos_cli.Contracts.{ok, invalid}
use verglos_cli.Schema.Json.{
  Json, json_bool, json_string, json_array, json_object, no_items, item, Members, no_members,
  member,
}
use verglos_cli.Schema.Json.Measures.{IsShallow}
use verglos_cli.Schema.Canonical.{invalid_unicode, serialize_canonical, canonicalize_json}
use verglos_cli.Schema.Canonical.Laws.{
  HasUnicode, is_ok, canonicalize_json-ok_iff, HasMember, serialize_canonical-order_free,
}

abbrev flags : Json
flags = json_array (item (json_bool true) no_items)

abbrev line : Json
line = json_string (0x61 ∷ 0xa ∷ [])

abbrev b_first : Members
b_first = member (codes "b") flags (member (codes "a") line no_members)

abbrev a_first : Members
a_first = member (codes "a") line (member (codes "b") flags no_members)

sorted_test : canonicalize_json (json_object b_first) ≡ ok (codes "{\"a\":\"a\\n\",\"b\":[true]}")
unfolding canonicalize_json
sorted_test = refl

surrogate_tests :
    (canonicalize_json (json_string (0xd83d ∷ 0x21 ∷ [])) ≡ invalid (invalid_unicode ∷ []))
    × (canonicalize_json (json_string (0xd83d ∷ 0xde00 ∷ []))
        ≡ ok (0x22 ∷ 0xd83d ∷ 0xde00 ∷ 0x22 ∷ []))
unfolding canonicalize_json
surrogate_tests = (refl, refl)

canonicalize_json-ok_iff_example :
    (is_ok (canonicalize_json (json_object b_first)) ≡ true)
    ↔ (IsShallow 64 0 (json_object b_first) × HasUnicode (json_object b_first))
canonicalize_json-ok_iff_example = canonicalize_json-ok_iff (json_object b_first)

swap_members :
    (k j i : Text) (u v w : Json)
    → HasMember k u (member j v (member i w no_members))
    → HasMember k u (member i w (member j v no_members))
swap_members k j i u v w (inl e) = inr (inl e)
swap_members k j i u v w (inr (inl e)) = inl e
swap_members k j i u v w (inr (inr n)) = absurd n

serialize_canonical-order_free_example :
    serialize_canonical (json_object b_first) 3 ≡ serialize_canonical (json_object a_first) 3
serialize_canonical-order_free_example =
    serialize_canonical-order_free b_first a_first 3 (refl, (refl, tt)) (refl, (refl, tt))
      (λ k v. (
        swap_members k (codes "b") (codes "a") v flags line,
        swap_members k (codes "a") (codes "b") v line flags,
      ))
