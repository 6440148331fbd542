-- ===== src/PolicyEvaluation/Equality.antt =====
-- The tests by which a document is compared with its derived decision
-- (packages/shared/src/policy-evaluation.ts).
use verglos_cli.Prelude.{◌≡◌, refl, ◌↔◌, true, Option, none, some, List, [], ◌∷◌, arith}
use verglos_cli.Text.{Text}
use verglos_cli.Text.Order.{text_eq_iff, text_eq_refl}
use verglos_cli.PolicyEvaluation.{Decision, ReasonCode, EvaluationReason}
use verglos_cli.PolicyEvaluation.Parse.{
  decision_eq, code_rank, same_optional, same_reason, same_reasons,
}

pub eq_of_decision_eq : (a b : Decision) → decision_eq a b ≡ true → a ≡ b
eq_of_decision_eq a b h = ground arith

pub decision_eq_refl : (a : Decision) → decision_eq a a ≡ true
decision_eq_refl a = ground arith

code_rank-inj : (a b : ReasonCode) → code_rank a ≡ code_rank b → a ≡ b
code_rank-inj a b h = ground arith

same_optional_iff : (s t : Option Text) → (same_optional s t ≡ true) ↔ (s ≡ t)
same_optional_iff none none = ((λ e. refl), λ e. refl)
same_optional_iff none (some t) = ((λ e. cc), λ e. cc)
same_optional_iff (some s) none = ((λ e. cc), λ e. cc)
same_optional_iff (some s) (some t) = ground (arith, text_eq_iff s t)

eq_of_same_reason : (r s : EvaluationReason) → same_reason r s ≡ true → r ≡ s
eq_of_same_reason r s h = ground (
  arith,
  code_rank-inj r.code s.code,
  same_optional_iff r.check_id s.check_id,
  text_eq_iff r.detail s.detail,
  text_eq_iff r.owner s.owner,
  text_eq_iff r.next_action s.next_action,
)

same_reason_refl : (r : EvaluationReason) → same_reason r r ≡ true
same_reason_refl r = ground (
  arith,
  same_optional_iff r.check_id r.check_id,
  text_eq_refl r.detail,
  text_eq_refl r.owner,
  text_eq_refl r.next_action,
)

pub eq_of_same_reasons : (rs ss : List EvaluationReason) → same_reasons rs ss ≡ true → rs ≡ ss
eq_of_same_reasons [] [] h = refl
eq_of_same_reasons [] (s ∷ ss) h = cc
eq_of_same_reasons (r ∷ rs) [] h = cc
eq_of_same_reasons (r ∷ rs) (s ∷ ss) h =
    ground (arith, eq_of_same_reason r s, eq_of_same_reasons rs ss)

pub same_reasons_refl : (rs : List EvaluationReason) → same_reasons rs rs ≡ true
same_reasons_refl [] = refl
same_reasons_refl (r ∷ rs) = ground (arith, same_reason_refl r, same_reasons_refl rs)
