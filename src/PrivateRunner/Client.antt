-- ===== src/PrivateRunner/Client.antt =====
-- packages/cli/src/private-runner-client.ts: `pollPrivateRunnerJob` with its replay cache. The file of
-- the cache is what `JSON.parse` makes of it; that its size does not change while it is read, the
-- file's permissions, and the credentials of the request are left to the environment.
use verglos_cli.Prelude.{
  ℕ, zero, suc, ◌-◌, Bool, not, ◌&&◌, ◌||◌, Option, none, some, List, [], ◌∷◌, ◌++◌, map, ltb, leb,
  if◌then◌else◌, length, any, all,
}
use verglos_cli.Text.{Text, codes}
use verglos_cli.Text.Sets.{has}
use verglos_cli.Contracts.{Instant, is_empty}
use verglos_cli.Schema.Canonical.{byte_length, quote, join_commas}
use verglos_cli.PrivateRunner.{
  PrivateRunnerJob, AdmissionFailure, admitted, rejected, runner_id_text, verify_job_signature,
  admit_private_runner_job,
}

-- ReplayState
pub record ReplayState : Type 0 where
  pub job_ids : List Text
  pub nonces : List Text

abbrev pub no_replay : ReplayState
no_replay = record { job_ids = []; nonces = [] }

-- The file of the replay cache.
pub data ReplayFile : Type 0 where
  absent unreadable_file : ReplayFile
  holds : ReplayState → ReplayFile

-- MAX_REPLAY_ENTRIES
abbrev pub max_replay_entries : ℕ
max_replay_entries = 4096

-- `array.slice(-max)`
abbrev pub drop_front : ℕ → List Text → List Text
drop_front zero ts = ts
drop_front (suc n) [] = []
drop_front (suc n) (t ∷ ts) = drop_front n ts

abbrev pub keep_last : ℕ → List Text → List Text
keep_last max ts = drop_front (length ts - max) ts

-- `rememberReplay`
abbrev pub remember_replay : ReplayState → PrivateRunnerJob → ReplayState
remember_replay s j = record {
  job_ids = keep_last max_replay_entries (s.job_ids ++ j.job_id ∷ []);
  nonces = keep_last max_replay_entries (s.nonces ++ j.nonce ∷ []);
}

abbrev text_array : List Text → Text
text_array ts = codes "[" ++ (join_commas (map quote ts) ++ codes "]")

-- The text that `writeReplay` writes.
abbrev pub replay_text : ReplayState → Text
replay_text s =
    codes "{\"jobIds\":"
    ++ (text_array s.job_ids ++ (codes ",\"nonces\":" ++ (text_array s.nonces ++ codes "}\n")))

-- `parseReplay` of an object with two arrays of strings: the entries must all be identifiers.
abbrev pub parse_replay : ReplayState → Option ReplayState
parse_replay s =
    if (leb (length s.job_ids) max_replay_entries && leb (length s.nonces) max_replay_entries)
      && all runner_id_text (s.job_ids ++ s.nonces)
    then some s
    else none

-- `readReplay`, which bounds the file by MAX_REPLAY_BYTES first; none is an error.
unfoldable pub read_replay : ReplayFile → Option ReplayState
read_replay absent = some no_replay
read_replay unreadable_file = none
read_replay (holds s) = if ltb 262144 (byte_length (replay_text s)) then none else parse_replay s

-- What the request brings back.
pub data Response : Type 0 where
  failed_request too_large not_json http_error no_object no_job : Response
  a_job : PrivateRunnerJob → Response

pub data PollError : Type 0 where
  network response_too_large invalid_json http invalid_input no_runner_credential : PollError

pub data PollDenial : Type 0 where
  invalid_response invalid_signature replayed_local : PollDenial
  not_admitted : AdmissionFailure → PollDenial

-- PrivateRunnerPollResult
pub data PollResult : Type 0 where
  empty : PollResult
  ready : PrivateRunnerJob → PollResult
  denied : PollDenial → PollResult
  poll_error : PollError → PollResult

-- The inputs of a poll: what it is for, the clock, whether there is a credential for it and a
-- trusted origin, the text of the trusted key if its file can be read, the response, and whether the
-- replay cache can be written.
pub record Poll : Type 0 where
  pub tenant_id : Text
  pub runner_id : Text
  pub allowed_targets : List Text
  pub now : Text
  pub has_credential : Bool
  pub has_origin : Bool
  pub trusted_key : Option Text
  pub response : Response
  pub can_write : Bool

-- The first test of `pollPrivateRunnerJob`.
abbrev pub has_wrong_input : Poll → Bool
has_wrong_input p =
    not (runner_id_text p.tenant_id)
    || (not (runner_id_text p.runner_id)
        || (is_empty p.allowed_targets || any (λ t. not (runner_id_text t)) p.allowed_targets))

module _ (parse_date : Text → Option Instant) (verify : Text → Text → Text → Bool) where
  -- The last lines: the job is admitted, the cache is written, and only then the job is ready.
  abbrev pub accept_job :
      Poll → Text → ReplayFile → ReplayState → PrivateRunnerJob → PollResult × ReplayFile
  accept_job p key file replay j =
      elim (admit_private_runner_job parse_date verify j (record {
        tenant_id = p.tenant_id;
        runner_id = p.runner_id;
        now = p.now;
        replayed_job_ids = some replay.job_ids;
        allowed_targets = p.allowed_targets;
        trusted_public_key_pem = some key;
      })) [
        | rejected r ↦ (denied (not_admitted r), file)
        | admitted job ↦
            if p.can_write
            then (ready j, holds (remember_replay replay j))
            else (poll_error invalid_input, file)
      ]

  abbrev pub with_response :
      Poll → Text → ReplayFile → ReplayState → Response → PollResult × ReplayFile
  with_response p key file replay failed_request = (poll_error network, file)
  with_response p key file replay too_large = (poll_error response_too_large, file)
  with_response p key file replay not_json = (poll_error invalid_json, file)
  with_response p key file replay http_error = (poll_error http, file)
  with_response p key file replay no_object = (denied invalid_response, file)
  with_response p key file replay no_job = (empty, file)
  with_response p key file replay (a_job j) =
      if not (verify_job_signature parse_date verify j key)
      then (denied invalid_signature, file)
      else if has j.job_id replay.job_ids || has j.nonce replay.nonces
      then (denied replayed_local, file)
      else accept_job p key file replay j

  abbrev pub with_replay :
      Poll → Option Text → ReplayFile → Option ReplayState → PollResult × ReplayFile
  with_replay p none file replay = (poll_error invalid_input, file)
  with_replay p (some key) file none = (poll_error invalid_input, file)
  with_replay p (some key) file (some replay) = with_response p key file replay p.response

  abbrev pub with_origin : Poll → ReplayFile → PollResult × ReplayFile
  with_origin p file =
      if not p.has_origin
      then (poll_error invalid_input, file)
      else with_replay p p.trusted_key file (read_replay file)

  abbrev pub with_credential : Poll → ReplayFile → PollResult × ReplayFile
  with_credential p file =
      if not p.has_credential then (poll_error no_runner_credential, file) else with_origin p file

  -- `pollPrivateRunnerJob`: the result, and the replay cache that it leaves.
  unfoldable pub poll_private_runner_job : Poll → ReplayFile → PollResult × ReplayFile
  poll_private_runner_job p file =
      if has_wrong_input p then (poll_error invalid_input, file) else with_credential p file
