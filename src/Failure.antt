-- ===== src/Failure.antt =====
-- packages/shared/src/failure.ts: the failure documents of the command line.
pub mod Laws
mod Tests
use verglos_cli.Prelude.{ℕ, Bool, true, false, not, ◌&&◌, ◌||◌, Option, List, [], ◌∷◌, ◌++◌, ◌==◌}
use verglos_cli.Text.{Text, codes, starts_with}
use verglos_cli.Formats.{uuid_urn, short_text, long_text, labels}
use verglos_cli.Schema.Version.{split_on, after}
use verglos_cli.Contracts.{
  Instant, if_present, raise, Parsed, ◌>>=◌, accept_if_clean, assert_compatible, is_version,
  reader_version,
}

-- FAILURE_CATEGORIES
pub data FailureCategory : Type 0 where
  usage unsupported incomplete policy_block infrastructure authorization quota integrity internal :
      FailureCategory

-- FAILURE_EXIT_CODES
abbrev pub failure_exit_code : FailureCategory → ℕ
failure_exit_code usage = 2
failure_exit_code unsupported = 78
failure_exit_code incomplete = 3
failure_exit_code policy_block = 1
failure_exit_code infrastructure = 4
failure_exit_code authorization = 4
failure_exit_code quota = 4
failure_exit_code integrity = 70
failure_exit_code internal = 70

-- The text of a category. (`category.replace("-", "-")` changes nothing.)
abbrev pub category_token : FailureCategory → Text
category_token usage = codes "usage"
category_token unsupported = codes "unsupported"
category_token incomplete = codes "incomplete"
category_token policy_block = codes "policy-block"
category_token infrastructure = codes "infrastructure"
category_token authorization = codes "authorization"
category_token quota = codes "quota"
category_token integrity = codes "integrity"
category_token internal = codes "internal"

pub data Retry : Type 0 where
  never safe after_action after_window : Retry

-- FailureBaseSchema; the literal `schemaId` is left out.
pub record FailureDocument : Type 0 where
  pub schema_version : Text
  pub failure_id : Text
  pub category : FailureCategory
  pub code : Text
  pub exit_code : ℕ
  pub retry : Retry
  pub operation : Text
  pub target : Option Text
  pub message : Text
  pub limitation : Text
  pub action : Text
  pub occurred_at : Instant

pub data FailureIssue : Type 0 where
  bad_field : Text → FailureIssue
  wrong_namespace : FailureIssue
  wrong_exit_code : FailureIssue
  usage_needs_correction : FailureIssue
  cannot_retry_blindly : FailureIssue

-- `[a-z0-9]+(?:-[a-z0-9]+)*`
abbrev kebab : Text → Bool
kebab = labels (λ c. c == b'-') true

abbrev two_kebabs : List Text → Bool
two_kebabs (a ∷ b ∷ []) = kebab a && kebab b
two_kebabs _ = false

abbrev code_prefix : Text
code_prefix = codes "verglos.failure."

-- The regular expression of `code`.
unfoldable pub failure_code : Text → Bool
failure_code s = starts_with code_prefix s && two_kebabs (split_on b'.' (after code_prefix s))

-- `verglos.failure.${category}.`
abbrev pub namespace_of : FailureCategory → Text
namespace_of c = code_prefix ++ (category_token c ++ codes ".")

abbrev pub is_exit_code : ℕ → Bool
is_exit_code n = n == 1 || n == 2 || n == 3 || n == 4 || n == 70 || n == 78

abbrev pub is_usage : FailureCategory → Bool
is_usage usage = true
is_usage _ = false

-- ["policy-block", "authorization", "integrity"].includes(category)
abbrev pub bars_blind_retry : FailureCategory → Bool
bars_blind_retry policy_block = true
bars_blind_retry authorization = true
bars_blind_retry integrity = true
bars_blind_retry _ = false

abbrev pub is_safe : Retry → Bool
is_safe safe = true
is_safe _ = false

-- The formats of FailureBaseSchema, and its refinement.
abbrev pub failure_rows : FailureDocument → List (Bool × FailureIssue)
failure_rows f =
    (not (is_version f.schema_version), bad_field (codes "schemaVersion"))
    ∷ (not (uuid_urn f.failure_id), bad_field (codes "failureId"))
    ∷ (not (failure_code f.code), bad_field (codes "code"))
    ∷ (not (is_exit_code f.exit_code), bad_field (codes "exitCode"))
    ∷ (
      not (short_text f.operation && if_present short_text f.target),
      bad_field (codes "operation"),
    )
    ∷ (
      not (long_text f.message && long_text f.limitation && long_text f.action),
      bad_field (codes "message"),
    )
    ∷ (not (starts_with (namespace_of f.category) f.code), wrong_namespace)
    ∷ (not (f.exit_code == failure_exit_code f.category), wrong_exit_code)
    ∷ (is_usage f.category && is_safe f.retry, usage_needs_correction)
    ∷ (bars_blind_retry f.category && is_safe f.retry, cannot_retry_blindly)
    ∷ []

unfoldable pub failure_issues : FailureDocument → List FailureIssue
failure_issues f = raise (failure_rows f)

-- `parseFailure`
unfoldable pub parse_failure : FailureDocument → Parsed FailureIssue FailureDocument
parse_failure f = do
  parsed ← accept_if_clean (failure_issues f) f
  assert_compatible parsed.schema_version parsed

-- The argument of `createFailure`.
pub record FailureInput : Type 0 where
  pub failure_id : Text
  pub category : FailureCategory
  pub code : Text
  pub retry : Retry
  pub operation : Text
  pub target : Option Text
  pub message : Text
  pub limitation : Text
  pub action : Text
  pub occurred_at : Instant

abbrev pub with_exit_code : FailureInput → FailureDocument
with_exit_code i = record {
  schema_version = reader_version;
  failure_id = i.failure_id;
  category = i.category;
  code = i.code;
  exit_code = failure_exit_code i.category;
  retry = i.retry;
  operation = i.operation;
  target = i.target;
  message = i.message;
  limitation = i.limitation;
  action = i.action;
  occurred_at = i.occurred_at;
}

-- `createFailure`
unfoldable pub create_failure : FailureInput → Parsed FailureIssue FailureDocument
create_failure i = parse_failure (with_exit_code i)
