-- ===== src/PrivateRunner/Result.antt =====
-- packages/shared/src/private-runner.ts: the result that leaves a private runner.
use verglos_cli.Prelude.{
  true_of, le_of_ltb, ℕ, ◌≤◌, ◌≡◌, refl, sym, ap, Bool, true, false, not, ◌&&◌, Option, some, arith,
  ltb, leb, if◌then◌else◌,
}
use verglos_cli.Text.{Text, codes}
use verglos_cli.Formats.{is_sha256_ref}
use verglos_cli.Contracts.{Instant, is_some, if_present}
use verglos_cli.PrivateRunner.{runner_id_text}

-- PRIVATE_RUNNER_RESULT_STATES
pub data ResultState : Type 0 where
  completed failed timed_out rejected : ResultState

pub data ResultCoverage : Type 0 where
  complete incomplete unavailable : ResultCoverage

-- PrivateRunnerResultInput, with the fields that are typed as one of a few words.
pub record ResultInput : Type 0 where
  pub job_id : Text
  pub tenant_id : Text
  pub runner_id : Text
  pub state : ResultState
  pub started_at : Text
  pub finished_at : Text
  pub evidence_digest : Option Text
  pub finding_count : ℕ
  pub coverage : ResultCoverage

-- PrivateRunnerResult
pub record RunnerResult : Type 0 where
  pub protocol_version : Text
  pub input : ResultInput

pub data ResultError : Type 0 where
  wrong_identity wrong_timing wrong_count wrong_digest missing_digest : ResultError

pub data Projected : Type 0 where
  projected : RunnerResult → Projected
  refused : ResultError → Projected

abbrev is_completed : ResultState → Bool
is_completed completed = true
is_completed _ = false

-- Both times are read, and the finish is not before the start.
abbrev in_order : Option Instant → Option Instant → Bool
in_order (some start) (some finish) = leb start finish
in_order _ _ = false

-- `projectPrivateRunnerResult`
unfoldable pub project_private_runner_result : (Text → Option Instant) → ResultInput → Projected
project_private_runner_result parse_date i =
    if not (runner_id_text i.job_id && (runner_id_text i.tenant_id && runner_id_text i.runner_id))
    then refused wrong_identity
    else if not (in_order (parse_date i.started_at) (parse_date i.finished_at))
    then refused wrong_timing
    else if ltb 100000 i.finding_count
    then refused wrong_count
    else if not (if_present is_sha256_ref i.evidence_digest)
    then refused wrong_digest
    else if is_completed i.state && not (is_some i.evidence_digest)
    then refused missing_digest
    else projected (record { protocol_version = codes "1.0.0"; input = i })

refused_or :
    (b : Bool) (e : ResultError) (m : Projected) {r : RunnerResult}
    → (if b then refused e else m) ≡ projected r
    → (b ≡ false) × (m ≡ projected r)
refused_or true e m h = cc
refused_or false e m h = (refl, h)

module _ (parse_date : Text → Option Instant) where
  -- A projected result is the input under the protocol's version; its finish is not before its start,
  -- it counts at most 100,000 findings, and it has a digest if it is completed.
  pub project_private_runner_result-bounds :
      (i : ResultInput) (r : RunnerResult)
      → project_private_runner_result parse_date i ≡ projected r
      → (r ≡ record { protocol_version = codes "1.0.0"; input = i })
        × (in_order (parse_date i.started_at) (parse_date i.finished_at) ≡ true)
        × (i.finding_count ≤ 100000)
        × (i.state ≡ completed → is_some i.evidence_digest ≡ true)
  unfolding project_private_runner_result
  project_private_runner_result-bounds i r h =
      let (_, h1) =
        refused_or
          (not
            (runner_id_text i.job_id && (runner_id_text i.tenant_id && runner_id_text i.runner_id)))
          wrong_identity _ h in
      let (time, h2) =
        refused_or (not (in_order (parse_date i.started_at) (parse_date i.finished_at)))
          wrong_timing _ h1 in
      let (count, h3) = refused_or (ltb 100000 i.finding_count) wrong_count _ h2 in
      let (_, h4) =
        refused_or (not (if_present is_sha256_ref i.evidence_digest)) wrong_digest _ h3 in
      let (digest, h5) =
        refused_or (is_completed i.state && not (is_some i.evidence_digest)) missing_digest _ h4 in
      (
        sym (injective h5),
        true_of time,
        le_of_ltb i.finding_count 100000 count,
        λ e. has_digest (ap is_completed e) digest,
      )
    where
      injective : {x y : RunnerResult} → projected x ≡ projected y → x ≡ y
      injective e = cc

      has_digest : {b c : Bool} → b ≡ true → (b && not c) ≡ false → c ≡ true
      has_digest e f = ground (arith, e, f)
