-- ===== src/PrivateRunner/Replay.antt =====
-- What the replay cache promises over a run of polls (`pollPrivateRunnerJob` of
-- packages/cli/src/private-runner-client.ts).
use verglos_cli.Prelude.{
  neither, ℕ, ◌+◌, ◌-◌, ◌≤◌, ◌≡◌, refl, sym, ap, ◌∙◌, ◌⊎◌, inl, inr, Bool, true, false, not, ◌||◌,
  Option, none, some, List, [], ◌∷◌, ◌++◌, map, arith, if◌then◌else◌, length, length-append, All,
  All-map,
}
use mathlib.Core.Path.{subst}
use verglos_cli.Text.{Text, text_eq}
use verglos_cli.Text.Sets.{has, has-snoc, text_eq_comm, NoRepeat}
use verglos_cli.Contracts.{Instant}
use verglos_cli.PrivateRunner.{
  PrivateRunnerJob, Admission, admitted, rejected, Admitting, verify_job_signature,
  admit_private_runner_job,
}
use verglos_cli.PrivateRunner.Client.{
  ReplayState, no_replay, ReplayFile, absent, holds, max_replay_entries, keep_last, remember_replay,
  read_replay, Response, failed_request, too_large, not_json, http_error, no_object, no_job, a_job,
  PollResult, ready, denied, poll_error, invalid_input, no_runner_credential, not_admitted, Poll,
  accept_job, with_response, with_replay, has_wrong_input, with_origin, with_credential,
  poll_private_runner_job,
}

abbrev pub ready_job : PollResult → List PrivateRunnerJob
ready_job (ready j) = j ∷ []
ready_job _ = []

-- The file holds this memory, or there is none and the memory is empty.
abbrev Tracks : ReplayFile → ReplayState → Type 0
Tracks file s = ((file ≡ absent) × (s ≡ no_replay)) ⊎ (file ≡ holds s)

-- A poll has no job and leaves the file, or its job is new and is remembered.
abbrev IsStep : ReplayFile → ReplayState → PollResult × ReplayFile → Type 0
IsStep file s o =
    ((ready_job o.0 ≡ []) × (o.1 ≡ file))
    ⊎ ((j : PrivateRunnerJob) × (ready_job o.0 ≡ j ∷ [])
        × (o.1 ≡ holds (remember_replay s j))
        × (has j.job_id s.job_ids ≡ false)
        × (has j.nonce s.nonces ≡ false))

IsStep-if :
    (file : ReplayFile) (s : ReplayState) (b : Bool) (x y : PollResult × ReplayFile)
    → (b ≡ true → IsStep file s x)
    → (b ≡ false → IsStep file s y)
    → IsStep file s (if b then x else y)
IsStep-if file s true x y h k = h refl
IsStep-if file s false x y h k = k refl

IsStep-refuse :
    (file : ReplayFile) (s : ReplayState) (b : Bool) (r : PollResult) (y : PollResult × ReplayFile)
    → ready_job r ≡ []
    → IsStep file s y
    → IsStep file s (if b then (r, file) else y)
IsStep-refuse file s true r y h k = inl (h, refl)
IsStep-refuse file s false r y h k = k

keep_all : (max : ℕ) (ts : List Text) → length ts ≤ max → keep_last max ts ≡ ts
keep_all max ts h = rw (zero_of (length ts) max h) refl
  where
    zero_of : (n m : ℕ) → n ≤ m → n - m ≡ 0
    zero_of n m h = omega (arith, h)

read_holds :
    (b c : Bool) (s r : ReplayState)
    → (if b then none else if c then some s else none) ≡ some r
    → r ≡ s
read_holds true c s r h = cc
read_holds false true s r h = cc
read_holds false false s r h = cc

read_replay-Tracks :
    (file : ReplayFile) (s r : ReplayState) → Tracks file s → read_replay file ≡ some r → r ≡ s
unfolding read_replay
read_replay-Tracks file s r (inl (e, n)) h = cc (ap read_replay e, n, h)
read_replay-Tracks file s r (inr e) h = read_holds _ _ s r (ap read_replay (sym e) ∙ h)

module _ (parse_date : Text → Option Instant) (verify : Text → Text → Text → Bool) where
  accept_job-IsStep :
      (p : Poll) (key : Text) (file : ReplayFile) (s : ReplayState) (j : PrivateRunnerJob)
      → has j.job_id s.job_ids ≡ false
      → has j.nonce s.nonces ≡ false
      → IsStep file s (accept_job parse_date verify p key file s j)
  accept_job-IsStep p key file s j id nonce =
      go (admit_private_runner_job parse_date verify j inputs) refl
    where
      inputs : Admitting
      inputs = record {
        tenant_id = p.tenant_id;
        runner_id = p.runner_id;
        now = p.now;
        replayed_job_ids = some s.job_ids;
        allowed_targets = p.allowed_targets;
        trusted_public_key_pem = some key;
      }

      go :
          (a : Admission)
          → admit_private_runner_job parse_date verify j inputs ≡ a
          → IsStep file s (elim a [
            | rejected r ↦ (denied (not_admitted r), file)
            | admitted job ↦
                if p.can_write
                then (ready j, holds (remember_replay s j))
                else (poll_error invalid_input, file)
          ])
      go (rejected r) e = inl (refl, refl)
      go (admitted k) e =
          IsStep-if file s p.can_write _ _ (λ _. inr (j, refl, refl, id, nonce))
            (λ _. inl (refl, refl))

  with_response-IsStep :
      (p : Poll) (key : Text) (file : ReplayFile) (s : ReplayState) (r : Response)
      → IsStep file s (with_response parse_date verify p key file s r)
  with_response-IsStep p key file s failed_request = inl (refl, refl)
  with_response-IsStep p key file s too_large = inl (refl, refl)
  with_response-IsStep p key file s not_json = inl (refl, refl)
  with_response-IsStep p key file s http_error = inl (refl, refl)
  with_response-IsStep p key file s no_object = inl (refl, refl)
  with_response-IsStep p key file s no_job = inl (refl, refl)
  with_response-IsStep p key file s (a_job j) =
      IsStep-if file s (not (verify_job_signature parse_date verify j key)) _ _
        (λ _. inl (refl, refl))
        λ _.
          IsStep-if file s (has j.job_id s.job_ids || has j.nonce s.nonces) _ _
            (λ _. inl (refl, refl))
            λ fresh.
              accept_job-IsStep p key file s j (ground (arith, fresh)) (ground (arith, fresh))

  with_replay-IsStep :
      (p : Poll) (key : Option Text) (file : ReplayFile) (s : ReplayState) (o : Option ReplayState)
      → Tracks file s
      → read_replay file ≡ o
      → IsStep file s (with_replay parse_date verify p key file o)
  with_replay-IsStep p none file s o t e = inl (refl, refl)
  with_replay-IsStep p (some key) file s none t e = inl (refl, refl)
  with_replay-IsStep p (some key) file s (some r) t e =
      subst (λ x. IsStep file s (with_response parse_date verify p key file x p.response))
        (sym (read_replay-Tracks file s r t e)) (with_response-IsStep p key file s p.response)

  poll-IsStep :
      (p : Poll) (file : ReplayFile) (s : ReplayState)
      → Tracks file s
      → IsStep file s (poll_private_runner_job parse_date verify p file)
  unfolding poll_private_runner_job
  poll-IsStep p file s t =
      IsStep-refuse file s (has_wrong_input p) (poll_error invalid_input)
        (with_credential parse_date verify p file) refl
        (IsStep-refuse file s (not p.has_credential) (poll_error no_runner_credential)
          (with_origin parse_date verify p file) refl
          (IsStep-refuse file s (not p.has_origin) (poll_error invalid_input) _ refl
            (with_replay-IsStep p p.trusted_key file s (read_replay file) t refl)))

  -- The jobs that a run of polls makes ready, in their order.
  abbrev pub ready_jobs : ReplayFile → List Poll → List PrivateRunnerJob
  ready_jobs file [] = []
  ready_jobs file (p ∷ ps) =
      ready_job (poll_private_runner_job parse_date verify p file).0
      ++ ready_jobs (poll_private_runner_job parse_date verify p file).1 ps

  -- One of the two names of a job, and the memory of such names.
  module _ (name : PrivateRunnerJob → Text) (memory : ReplayState → List Text)
      (remembers : (s : ReplayState) (j : PrivateRunnerJob)
        → memory (remember_replay s j) ≡ keep_last max_replay_entries (memory s ++ name j ∷ []))
      (refuses : (s : ReplayState) (j : PrivateRunnerJob)
        → has j.job_id s.job_ids ≡ false
        → has j.nonce s.nonces ≡ false
        → has (name j) (memory s) ≡ false) where
    -- The names are new, and none comes twice.
    abbrev AreNew : ReplayState → List PrivateRunnerJob → Type 0
    AreNew s js = All (λ j. has (name j) (memory s) ≡ false) js × NoRepeat (map name js)

    add-AreNew :
        (s : ReplayState) (j : PrivateRunnerJob) (js : List PrivateRunnerJob) (next : ReplayState)
        → memory next ≡ memory s ++ name j ∷ []
        → has (name j) (memory s) ≡ false
        → AreNew next js
        → AreNew s (j ∷ js)
    add-AreNew s j js next e new (fresh, distinct) = (
      (new, All-map (λ k h. (apart k h).0) js fresh),
      (absent_from js (All-map (λ k h. (apart k h).1) js fresh), distinct),
    )
      where
        apart :
            (k : PrivateRunnerJob)
            → has (name k) (memory next) ≡ false
            → (has (name k) (memory s) ≡ false) × (text_eq (name k) (name j) ≡ false)
        apart k h =
            neither (has (name k) (memory s)) (text_eq (name k) (name j))
              (sym (ap (has (name k)) e ∙ has-snoc (name k) (name j) (memory s)) ∙ h)

        absent_from :
            (ks : List PrivateRunnerJob)
            → All (λ k. text_eq (name k) (name j) ≡ false) ks
            → has (name j) (map name ks) ≡ false
        absent_from [] h = refl
        absent_from (k ∷ ks) (h, hs) =
            ground (arith, h, text_eq_comm (name j) (name k), absent_from ks hs)

    run-AreNew :
        (ps : List Poll) (file : ReplayFile) (s : ReplayState)
        → Tracks file s
        → length (memory s) + length ps ≤ max_replay_entries
        → AreNew s (ready_jobs file ps)
    run-AreNew [] file s t h = (tt, tt)
    run-AreNew (p ∷ ps) file s t h = elim (poll-IsStep p file s t) [
      | inl (none_ready, same) ↦ rw (none_ready, same) (run-AreNew ps file s t (omega (arith, h)))
      | inr (j, one_ready, stored, id, nonce) ↦
          let next = remember_replay s j in
          let small : length (memory s ++ name j ∷ []) ≤ max_replay_entries =
            omega (arith, h, length-append (memory s) (name j ∷ [])) in
          let memory_next =
            remembers s j ∙ keep_all max_replay_entries (memory s ++ name j ∷ []) small in
          let room : length (memory next) + length ps ≤ max_replay_entries =
            omega (arith, h, ap length memory_next, length-append (memory s) (name j ∷ [])) in
          let rest = run-AreNew ps (holds next) next (inr refl) room in
          rw (one_ready, stored)
            (add-AreNew s j (ready_jobs (holds next) ps) next memory_next (refuses s j id nonce)
              rest)
    ]

  -- In a run of at most 4,096 polls that begins without a replay cache, whatever the responses, the
  -- clocks, the keys and the failures to write, no job identifier is ready twice, and no nonce.
  pub ready_jobs-NoRepeat :
      (ps : List Poll)
      → length ps ≤ max_replay_entries
      → NoRepeat (map PrivateRunnerJob.job_id (ready_jobs absent ps))
        × NoRepeat (map PrivateRunnerJob.nonce (ready_jobs absent ps))
  ready_jobs-NoRepeat ps h = (
    (run-AreNew PrivateRunnerJob.job_id ReplayState.job_ids (λ s j. refl) (λ s j id nonce. id) ps
        absent no_replay (inl (refl, refl)) (omega (arith, h))).1,
    (run-AreNew PrivateRunnerJob.nonce ReplayState.nonces (λ s j. refl) (λ s j id nonce. nonce) ps
        absent no_replay (inl (refl, refl)) (omega (arith, h))).1,
  )
