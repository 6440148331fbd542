-- ===== src/PrivateRunner.antt =====
-- packages/shared/src/private-runner.ts: the jobs of a private runner and their admission. The
-- signature check of node:crypto and `Date.parse` are parameters.
pub mod Client
pub mod Laws
pub mod Replay
pub mod Result
mod Tests
use verglos_cli.Prelude.{
  ℕ, zero, suc, ◌+◌, ◌/◌, ◌%◌, Bool, true, false, not, ◌&&◌, ◌||◌, Option, none, some, List, [],
  ◌∷◌, ltb, leb, ◌==◌, if◌then◌else◌, length, any, all,
}
use verglos_cli.Text.{Text, codes, text_eq, starts_with}
use verglos_cli.Text.Sets.{has}
use verglos_cli.Formats.{is_sha256_ref}
use verglos_cli.Contracts.{Instant, Parsed, ok, is_some, is_empty}
use verglos_cli.Schema.Json.{
  Json, json_string, json_number, json_array, json_object, strings, members,
}
use verglos_cli.Schema.Canonical.{CanonicalError, canonicalize_json}
use verglos_cli.Subject.Fields.{is_letter_or_digit, headed}

pub data NetworkMode : Type 0 where
  denied allowlisted : NetworkMode

-- `limits` of PrivateRunnerJob
pub record JobLimits : Type 0 where
  pub timeout_ms : ℕ
  pub output_bytes : ℕ
  pub memory_mb : ℕ
  pub processes : ℕ

-- PrivateRunnerJob; the fields of `network` are two fields.
pub record PrivateRunnerJob : Type 0 where
  pub protocol_version : Text
  pub job_id : Text
  pub tenant_id : Text
  pub runner_id : Text
  pub recipe_id : Text
  pub target_subject_id : Text
  pub target_digest : Text
  pub issued_at : Text
  pub expires_at : Text
  pub nonce : Text
  pub network_mode : NetworkMode
  pub destinations : List Text
  pub limits : JobLimits
  pub signature : Text

pub data AdmissionFailure : Type 0 where
  invalid_job invalid_signature tenant_mismatch runner_mismatch job_expired : AdmissionFailure
  job_not_yet_valid job_replayed target_not_allowlisted : AdmissionFailure
  network_not_bounded limits_out_of_range : AdmissionFailure

-- PrivateRunnerAdmission
pub data Admission : Type 0 where
  admitted : PrivateRunnerJob → Admission
  rejected : AdmissionFailure → Admission

-- ID
unfoldable pub runner_id_text : Text → Bool
runner_id_text =
    headed is_letter_or_digit (λ c. is_letter_or_digit c || any (◌==◌ c) (codes "._:/-")) 255

-- NONCE
unfoldable pub nonce_text : Text → Bool
nonce_text s =
    leb 16 (length s)
    && (leb (length s) 256 && all (λ c. is_letter_or_digit c || (c == b'_' || c == b'-')) s)

-- SIGNATURE: units of base 64, and up to two signs of padding.
abbrev base64_from : ℕ → Text → Bool
base64_from padding [] = leb padding 2
base64_from zero (c ∷ s) =
    let padded = base64_from 1 s in
    let plain = base64_from zero s in
    if c == b'=' then padded else (is_letter_or_digit c || (c == b'+' || c == b'/')) && plain
base64_from (suc n) (c ∷ s) = c == b'=' && base64_from (suc (suc n)) s

unfoldable pub signature_text : Text → Bool
signature_text [] = false
signature_text (c ∷ s) = not (c == b'=') && base64_from zero (c ∷ s)

-- `validLimits`
abbrev pub valid_limits : JobLimits → Bool
valid_limits l =
    (leb 100 l.timeout_ms && leb l.timeout_ms 900000)
    && ((leb 1 l.output_bytes && leb l.output_bytes 1048576)
        && ((leb 1 l.memory_mb && leb l.memory_mb 4096)
            && (leb 1 l.processes && leb l.processes 256)))

-- `new Set(ids).has(id)` where the set may be undefined.
abbrev pub has_in : Option (List Text) → Text → Bool
has_in none id = false
has_in (some ids) id = has id ids

-- A count as `JSON.stringify` prints it. The fuel is enough for each safe integer, which has at
-- most 16 digits.
abbrev digits_of : ℕ → ℕ → Text → Text
digits_of zero n later = later
digits_of (suc fuel) n later =
    let more = digits_of fuel (n / 10) ((b'0' + n % 10) ∷ later) in
    if ltb n 10 then (b'0' + n) ∷ later else more

abbrev count_json : ℕ → Json
count_json n = json_number (digits_of 16 n [])

abbrev mode_text : NetworkMode → Text
mode_text denied = codes "denied"
mode_text allowlisted = codes "allowlisted"

-- `privateRunnerJobSigningBytes`: the job without its signature, as a canonical text.
unfoldable pub signing_text : PrivateRunnerJob → Parsed CanonicalError Text
signing_text j = canonicalize_json (
    json_object (
      members (
        (codes "protocolVersion", json_string j.protocol_version)
        ∷ (codes "jobId", json_string j.job_id)
        ∷ (codes "tenantId", json_string j.tenant_id)
        ∷ (codes "runnerId", json_string j.runner_id)
        ∷ (codes "recipeId", json_string j.recipe_id)
        ∷ (codes "targetSubjectId", json_string j.target_subject_id)
        ∷ (codes "targetDigest", json_string j.target_digest)
        ∷ (codes "issuedAt", json_string j.issued_at)
        ∷ (codes "expiresAt", json_string j.expires_at)
        ∷ (codes "nonce", json_string j.nonce)
        ∷ (
          codes "network",
          json_object (
              members (
                (codes "mode", json_string (mode_text j.network_mode))
                ∷ (codes "destinations", json_array (strings j.destinations))
                ∷ [])),
        )
        ∷ (
          codes "limits",
          json_object (
              members (
                (codes "timeoutMs", count_json j.limits.timeout_ms)
                ∷ (codes "outputBytes", count_json j.limits.output_bytes)
                ∷ (codes "memoryMb", count_json j.limits.memory_mb)
                ∷ (codes "processes", count_json j.limits.processes)
                ∷ [])),
        )
        ∷ [])))

-- The inputs of an admission beside the job.
pub record Admitting : Type 0 where
  pub tenant_id : Text
  pub runner_id : Text
  pub now : Text
  pub replayed_job_ids : Option (List Text)
  pub allowed_targets : List Text
  pub trusted_public_key_pem : Option Text

-- `Date.parse(expires) - Date.parse(issued) <= MAX_JOB_LIFETIME_MS`, false on NaN.
abbrev pub lives_at_most : ℕ → Option Instant → Option Instant → Bool
lives_at_most max (some issued) (some expires) = leb expires (issued + max)
lives_at_most max _ _ = false

-- `issued > now` where `now` is no NaN.
abbrev pub not_yet : Option Instant → Option Instant → Bool
not_yet none issued = true
not_yet (some now) none = false
not_yet (some now) (some issued) = ltb now issued

-- `a <= b`, false on NaN.
abbrev pub at_most : Option Instant → Option Instant → Bool
at_most (some a) (some b) = leb a b
at_most _ _ = false

abbrev pub unbounded_network : NetworkMode → List Text → Bool
unbounded_network denied ds = not (is_empty ds)
unbounded_network allowlisted ds = is_empty ds

-- `Date.parse`, where none is NaN, and the check of an Ed25519 signature over a text, by the key's
-- text and the signature's: false where the key is unreadable or of another type.
module _ (parse_date : Text → Option Instant) (verify : Text → Text → Text → Bool) where
  -- `validShape`
  unfoldable pub valid_shape : PrivateRunnerJob → Bool
  valid_shape j =
      text_eq j.protocol_version (codes "1.0.0")
      && (runner_id_text j.job_id
          && (runner_id_text j.tenant_id
              && (runner_id_text j.runner_id
                  && (runner_id_text j.recipe_id
                      && (runner_id_text j.target_subject_id
                          && (is_sha256_ref j.target_digest
                              && (is_some (parse_date j.issued_at)
                                  && (is_some (parse_date j.expires_at)
                                      && (nonce_text j.nonce
                                          && (lives_at_most 1800000 (parse_date j.issued_at)
                                                (parse_date j.expires_at)
                                              && (leb (length j.destinations) 16
                                                  && (all
                                                        (λ d.
                                                          starts_with (codes "https://") d
                                                          && leb (length d) 512)
                                                        j.destinations
                                                      && (signature_text j.signature
                                                          && valid_limits j.limits)))))))))))))

  abbrev signs : PrivateRunnerJob → Text → Parsed CanonicalError Text → Bool
  signs j key (ok t) = verify key t j.signature
  signs j key _ = false

  -- `verifyPrivateRunnerJobSignature`
  unfoldable pub verify_job_signature : PrivateRunnerJob → Text → Bool
  verify_job_signature j key = valid_shape j && signs j key (signing_text j)

  abbrev untrusted : PrivateRunnerJob → Option Text → Bool
  untrusted j none = false
  untrusted j (some key) = not (verify_job_signature j key)

  -- `admitPrivateRunnerJob`
  unfoldable pub admit_private_runner_job : PrivateRunnerJob → Admitting → Admission
  unfolding valid_shape verify_job_signature
  admit_private_runner_job j i =
      let now = parse_date i.now in
      let issued = parse_date j.issued_at in
      let expires = parse_date j.expires_at in
      if not (valid_shape j)
      then rejected invalid_job
      else if untrusted j i.trusted_public_key_pem
      then rejected invalid_signature
      else if not (text_eq j.tenant_id i.tenant_id)
      then rejected tenant_mismatch
      else if not (text_eq j.runner_id i.runner_id)
      then rejected runner_mismatch
      else if not_yet now issued
      then rejected job_not_yet_valid
      else if at_most expires now || at_most expires issued
      then rejected job_expired
      else if has_in i.replayed_job_ids j.job_id
      then rejected job_replayed
      else if not (has j.target_subject_id i.allowed_targets)
      then rejected target_not_allowlisted
      else if unbounded_network j.network_mode j.destinations
      then rejected network_not_bounded
      else admitted j
