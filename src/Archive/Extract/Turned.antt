-- ===== src/Archive/Extract/Turned.antt =====
-- A path leaves its directory only if it does with its backslashes turned: the archive check of
-- packages/shared/src/archive-safety.ts reads the second, the extraction the first.
use verglos_cli.Prelude.{
  neither, ℕ, ◌≡◌, refl, sym, ap, ◌∙◌, inl, inr, false, List, [], ◌∷◌, arith, ◌==◌, if◌then◌else◌,
  Bool-cases, any,
}
use verglos_cli.Text.{Text, codes, text_eq}
use verglos_cli.Text.Order.{text_eq_iff}
use verglos_cli.Text.Sets.{has}
use verglos_cli.Schema.Version.{split_on, push_unit}
use verglos_cli.Archive.{with_slashes}

-- How the segments of a path lie in those of the path with its backslashes turned.
pub record Turned (parts turned : List Text) : Type 0 where
  first : Text
  rest : List Text
  first_turned : Text
  rest_turned : List Text
  shape : parts ≡ first ∷ rest
  shape_turned : turned ≡ first_turned ∷ rest_turned
  same : any (λ c. c == b'\\') first ≡ false → first ≡ first_turned
  kept : has (codes "..") rest_turned ≡ false → has (codes "..") rest ≡ false

module _ (parts turned : List Text) (t : Turned parts turned) where
  rest_turned-has : has (codes "..") turned ≡ false → has (codes "..") t.rest_turned ≡ false
  rest_turned-has h =
      (neither (text_eq (codes "..") t.first_turned) (has (codes "..") t.rest_turned)
        (sym (ap (has (codes "..")) t.shape_turned) ∙ h)).1

  pub turned-has : has (codes "..") turned ≡ false → has (codes "..") parts ≡ false
  turned-has h =
      let whole = sym (ap (has (codes "..")) t.shape_turned) ∙ h in
      let rest = t.kept (rest_turned-has h) in
      ap (has (codes "..")) t.shape ∙ elim (Bool-cases (text_eq (codes "..") t.first)) [
        | inr other ↦ rw (other, rest) refl
        | inl up ↦
            let named = (text_eq_iff (codes "..") t.first).0 up in
            let same = t.same (rw (← named) refl) in
            absurd (
              cc (
                (text_eq_iff (codes "..") t.first_turned).1 (named ∙ same),
                (neither (text_eq (codes "..") t.first_turned) (has (codes "..") t.rest_turned)
                    whole).0,
              ))
      ]

  turn_step :
      (d : ℕ)
      → Turned (push_unit (d == b'/') d parts) (
          push_unit
            ((if d == b'\\' then b'/' else d) == b'/')
            (if d == b'\\' then b'/' else d)
            turned)
  turn_step d = elim (Bool-cases (d == b'/')) [
    | inl slash ↦
        let front : (d == b'\\') ≡ false = ground (arith, slash) in
        rw (front, slash)
          (record {
            first = [];
            rest = parts;
            first_turned = [];
            rest_turned = turned;
            shape = refl;
            shape_turned = refl;
            same = λ h. refl;
            kept = turned-has;
          })
    | inr plain ↦ elim (Bool-cases (d == b'\\')) [
      | inl back ↦
          rw (back, plain)
            (record {
              first = d ∷ t.first;
              rest = t.rest;
              first_turned = [];
              rest_turned = turned;
              shape = ap (push_unit false d) t.shape;
              shape_turned = refl;
              same = λ h. absurd (ground (arith, h, back));
              kept = λ h. t.kept (rest_turned-has h);
            })
      | inr other ↦
          rw (other, plain)
            (record {
              first = d ∷ t.first;
              rest = t.rest;
              first_turned = d ∷ t.first_turned;
              rest_turned = t.rest_turned;
              shape = ap (push_unit false d) t.shape;
              shape_turned = ap (push_unit false d) t.shape_turned;
              same = λ h. ap (λ l. d ∷ l) (t.same (ground (arith, h)));
              kept = t.kept;
            })
    ]
  ]

pub turn : (p : Text) → Turned (split_on b'/' p) (split_on b'/' (with_slashes p))
turn [] = record {
  first = [];
  rest = [];
  first_turned = [];
  rest_turned = [];
  shape = refl;
  shape_turned = refl;
  same = λ h. refl;
  kept = λ h. refl;
}
turn (d ∷ p) = turn_step (split_on b'/' p) (split_on b'/' (with_slashes p)) (turn p) d
