-- ===== src/PolicyEvaluation/Reasons.antt =====
-- The reasons of a derived decision: their order, their number and their formats.
use verglos_cli.Prelude.{
  ℕ, suc, ◌≤◌, ◌≡◌, refl, sym, ap, ◌∙◌, ◌≢◌, ◌↔◌, true, Option, none, some, List, [], ◌∷◌, ◌++◌,
  map, arith, length, length-append, In, All, All-append,
}
use mathlib.Core.List.{append_assoc, append-nil}
use verglos_cli.Text.Sorting.{sort_by, All-sort_by, length-sort_by, sort_by-eq}
use verglos_cli.Text.Sets.{NoRepeat}
use verglos_cli.Formats.{stable_id, short_text, long_text}
use verglos_cli.Contracts.{if_present}
use verglos_cli.PolicyEvaluation.{
  MatchStatus, matched, mismatched, unresolved, SubjectMatch, Requirement, required, advisory,
  OnFailure, CheckStatus, satisfied, failed, missing, unsupported, error, PolicyCheck, ReasonCode,
  identity_mismatch, identity_unresolved, required_check_missing, required_check_stale,
  required_check_unsupported, required_check_error, check_failed_block, check_failed_review,
  advisory_check_unavailable, EvaluationReason, PolicyEvaluationInput,
}
use verglos_cli.PolicyEvaluation.Derive.{
  Tally, text_or_empty, check_reason, identity_reason, identity_tally, tally_check, tally_checks,
  derive_decision, reasons_or_satisfied,
}

-- The order in which the checks are recorded does not matter: of two inputs with the same subject
-- match and the same checks, whose ids are unique, the decision, the exit code and the reasons, in
-- their order, are the same.
pub derive-order_free :
    (v w : PolicyEvaluationInput)
    → v.subject_match ≡ w.subject_match
    → ((c : PolicyCheck) → In c v.checks ↔ In c w.checks)
    → NoRepeat (map PolicyCheck.id v.checks)
    → NoRepeat (map PolicyCheck.id w.checks)
    → derive_decision v ≡ derive_decision w
unfolding derive_decision
derive-order_free v w m e h k = rw (m, sort_by-eq PolicyCheck.id v.checks w.checks h k e)

-- A reason whose fields have the formats of EvaluationReasonSchema.
abbrev pub IsWellFormed : EvaluationReason → Type 0
IsWellFormed r =
    (if_present stable_id r.check_id ≡ true)
    × (long_text r.detail ≡ true)
    × (short_text r.owner ≡ true)
    × (long_text r.next_action ≡ true)

-- A check whose fields can stand in a reason.
abbrev pub HasFormats : PolicyCheck → Type 0
HasFormats c =
    (stable_id c.id ≡ true)
    × (long_text c.reason ≡ true)
    × (short_text c.owner ≡ true)
    × (long_text c.next_action ≡ true)

abbrev if_required : Requirement → ReasonCode → ReasonCode
if_required required code = code
if_required advisory code = advisory_check_unavailable

-- Why a check is not simply satisfied.
abbrev pub code_of : PolicyCheck → Option ReasonCode
code_of c = elim c.status [
  | satisfied ↦ none
  | failed ↦ some (elim c.on_failure [
    | OnFailure.block ↦ check_failed_block
    | OnFailure.review ↦ check_failed_review
  ])
  | missing ↦ some (if_required c.requirement required_check_missing)
  | CheckStatus.stale ↦ some (if_required c.requirement required_check_stale)
  | unsupported ↦ some (if_required c.requirement required_check_unsupported)
  | error ↦ some (if_required c.requirement required_check_error)
]

abbrev pub reasons_of : List PolicyCheck → List EvaluationReason
reasons_of [] = []
reasons_of (c ∷ cs) = elim (code_of c) [
  | none ↦ reasons_of cs
  | some code ↦ check_reason code c ∷ reasons_of cs
]

tally_check-reasons :
    (c : PolicyCheck) (cs : List PolicyCheck) (t : Tally)
    → (tally_check c.status c t).reasons ++ reasons_of cs ≡ t.reasons ++ reasons_of (c ∷ cs)
unfolding tally_check
tally_check-reasons c cs t = grind (arith, append_assoc)

tally_checks-reasons :
    (cs : List PolicyCheck) (t : Tally) → (tally_checks cs t).reasons ≡ t.reasons ++ reasons_of cs
unfolding tally_checks
tally_checks-reasons [] t = sym (append-nil t.reasons)
tally_checks-reasons (c ∷ cs) t =
    tally_checks-reasons cs (tally_check c.status c t) ∙ tally_check-reasons c cs t

abbrev pub identity_reasons : SubjectMatch → List EvaluationReason
identity_reasons m = elim m.status [
  | matched ↦ []
  | mismatched ↦ identity_reason identity_mismatch (text_or_empty m.reason) ∷ []
  | unresolved ↦ identity_reason identity_unresolved (text_or_empty m.reason) ∷ []
]

identity_tally-reasons : (m : SubjectMatch) → (identity_tally m).reasons ≡ identity_reasons m
unfolding identity_tally
identity_tally-reasons m = ground arith

abbrev pub expected_reasons : PolicyEvaluationInput → List EvaluationReason
expected_reasons v =
    identity_reasons v.subject_match ++ reasons_of (sort_by PolicyCheck.id v.checks)

-- The reasons are the identity's, then one for each check that is not satisfied, in the order of
-- the check ids; where there is none of either, the one reason is that all is satisfied.
pub derive-reasons :
    (v : PolicyEvaluationInput)
    → (derive_decision v).reasons ≡ reasons_or_satisfied (expected_reasons v)
unfolding derive_decision
derive-reasons v = ap reasons_or_satisfied (
    tally_checks-reasons (sort_by PolicyCheck.id v.checks) (identity_tally v.subject_match)
    ∙ ap (λ rs. rs ++ reasons_of (sort_by PolicyCheck.id v.checks))
        (identity_tally-reasons v.subject_match))

length-reasons_of : (cs : List PolicyCheck) → length (reasons_of cs) ≤ length cs
length-reasons_of [] = omega arith
length-reasons_of (c ∷ cs) = ground (arith, length-reasons_of cs)

reasons_or_satisfied-size :
    (n : ℕ) (rs : List EvaluationReason)
    → length rs ≤ n
    → 1 ≤ n
    → (1 ≤ length (reasons_or_satisfied rs)) × (length (reasons_or_satisfied rs) ≤ n)
reasons_or_satisfied-size n [] h k = omega arith
reasons_or_satisfied-size n (r ∷ rs) h k = omega arith

length-identity_reasons : (m : SubjectMatch) → length (identity_reasons m) ≤ 1
length-identity_reasons m = ground arith

-- There is a reason, and there are at most one more than checks.
pub derive-reasons_size :
    (v : PolicyEvaluationInput)
    → (1 ≤ length (derive_decision v).reasons)
      × (length (derive_decision v).reasons ≤ suc (length v.checks))
derive-reasons_size v = rw (derive-reasons v) (
    reasons_or_satisfied-size (suc (length v.checks)) (expected_reasons v)
      (omega (
        arith,
        length-append (identity_reasons v.subject_match)
            (reasons_of (sort_by PolicyCheck.id v.checks)),
        length-identity_reasons v.subject_match,
        length-reasons_of (sort_by PolicyCheck.id v.checks),
        length-sort_by PolicyCheck.id v.checks,
      ))
      (omega arith))

reasons_of-IsWellFormed :
    (cs : List PolicyCheck) → All HasFormats cs → All IsWellFormed (reasons_of cs)
reasons_of-IsWellFormed [] h = tt
reasons_of-IsWellFormed (c ∷ cs) (h, hs) =
    elim (code_of c)
      as (λ code.
        All IsWellFormed
          (elim code [ none ↦ reasons_of cs | some k ↦ check_reason k c ∷ reasons_of cs ])) [
            | none ↦ reasons_of-IsWellFormed cs hs
            | some k ↦ ((h.0, h.1, h.2, h.3), reasons_of-IsWellFormed cs hs)
          ]

identity_reasons-IsWellFormed :
    (m : SubjectMatch)
    → (m.status ≢ matched → long_text (text_or_empty m.reason) ≡ true)
    → All IsWellFormed (identity_reasons m)
unfolding long_text short_text
identity_reasons-IsWellFormed m h = go m.status h
  where
    go :
        (s : MatchStatus)
        → (s ≢ matched → long_text (text_or_empty m.reason) ≡ true)
        → All IsWellFormed (elim s [
          | matched ↦ []
          | mismatched ↦ identity_reason identity_mismatch (text_or_empty m.reason) ∷ []
          | unresolved ↦ identity_reason identity_unresolved (text_or_empty m.reason) ∷ []
        ])
    go matched k = tt
    go mismatched k = ((refl, k (cc), refl, refl), tt)
    go unresolved k = ((refl, k (cc), refl, refl), tt)

reasons_or_satisfied-IsWellFormed :
    (rs : List EvaluationReason) → All IsWellFormed rs → All IsWellFormed (reasons_or_satisfied rs)
unfolding long_text short_text
reasons_or_satisfied-IsWellFormed [] h = ((refl, refl, refl, refl), tt)
reasons_or_satisfied-IsWellFormed (r ∷ rs) h = h

-- Every derived reason has the formats of the contract, where the checks and the identity's reason
-- have them.
pub derive-reasons_IsWellFormed :
    (v : PolicyEvaluationInput)
    → All HasFormats v.checks
    → (v.subject_match.status ≢ matched → long_text (text_or_empty v.subject_match.reason) ≡ true)
    → All IsWellFormed (derive_decision v).reasons
derive-reasons_IsWellFormed v h k = rw (derive-reasons v) (
    reasons_or_satisfied-IsWellFormed (expected_reasons v) (
      All-append IsWellFormed (identity_reasons v.subject_match)
        (reasons_of (sort_by PolicyCheck.id v.checks))
        (identity_reasons-IsWellFormed v.subject_match k)
        (reasons_of-IsWellFormed (sort_by PolicyCheck.id v.checks)
          ((All-sort_by PolicyCheck.id HasFormats v.checks).1 h))))
