-- ===== src/Hunt/Verdict.antt =====
-- packages/shared/src/hunt-verdict.ts: the verdict of a run.
use verglos_cli.Prelude.{◌≡◌, ◌↔◌, Bool, true, false, not, Option, none, some, arith, if◌then◌else◌}
use verglos_cli.Hunt.{
  HuntVerdict, confirmed, not_reproduced, inconclusive, not_supported, environment_error,
  policy_denied,
}

-- The input of `classifyHuntOutcome`; an absent flag is false.
pub record HuntOutcome : Type 0 where
  pub assertion_matched : Option Bool
  pub supported : Bool
  pub policy_allowed : Bool
  pub has_environment_error : Bool
  pub timed_out : Bool

abbrev pub of_assertion : Option Bool → HuntVerdict
of_assertion none = inconclusive
of_assertion (some true) = confirmed
of_assertion (some false) = not_reproduced

-- `classifyHuntOutcome`
unfoldable pub classify_hunt_outcome : HuntOutcome → HuntVerdict
classify_hunt_outcome o =
    if not o.policy_allowed
    then policy_denied
    else if not o.supported
    then not_supported
    else if o.has_environment_error
    then environment_error
    else if o.timed_out
    then inconclusive
    else of_assertion o.assertion_matched

-- A run is confirmed exactly where it was allowed and supported, had neither an error of its
-- environment nor a timeout, and its assertion matched; it is not reproduced where all of this holds
-- but the match.
pub classify_hunt_outcome-conclusive :
    (o : HuntOutcome) (b : Bool)
    → (classify_hunt_outcome o ≡ of_assertion (some b)) ↔ (
        (o.policy_allowed ≡ true)
        × (o.supported ≡ true)
        × (o.has_environment_error ≡ false)
        × (o.timed_out ≡ false)
        × (o.assertion_matched ≡ some b))
unfolding classify_hunt_outcome
classify_hunt_outcome-conclusive o b = ground arith
