-- ===== src/Verification/Checked.antt =====
-- The checks of an attempt (packages/shared/src/verification.ts) read as statements about the run.
use verglos_cli.Prelude.{
  ◌≤◌, ◌≡◌, refl, sym, ◌≢◌, ◌⊎◌, inl, inr, true, false, ◌||◌, Option, none, some, List, [], ◌∷◌,
  arith, ==_iff, Bool-cases, Option-cases, all, All,
}
use mathlib.Core.Path.{subst}
use verglos_cli.Text.{Text, codes}
use verglos_cli.Text.Order.{text_eq_iff}
use verglos_cli.Contracts.{Time, truthy, is_some, is_empty, raise, ok}
use verglos_cli.Contracts.Laws.{
  AtMost, IsRead, IsReadIfPresent, present-AtMost, append-eq-nil, IsClear, raise-eq-nil,
  parse-eq-ok,
}
use verglos_cli.Formats.{ContentDigest}
use verglos_cli.Verification.{
  verified, not_required, approved, Approval, no_isolation, not_started, VerificationLimits,
  ResourceUsage, Output, no_secrets, VerificationAttempt, Url,
}
use verglos_cli.Verification.Validate.{
  is_approved, is_not_required, is_managed, recipe_rows, approval_rows, attempt_field_rows,
  is_origin,
}
use verglos_cli.Verification.Refine.{
  zero_usage, has_output, executed_rows, not_executed_rows, execution_rows, verdict_rows,
  limit_rows, order_rows, refine_attempt, is_safe_network_origin, destination_ok, sandbox_rows,
  attempt_issues, parse_verification_attempt,
}

-- No amount that was used exceeds its limit.
pub record IsWithin (u : ResourceUsage) (l : VerificationLimits) : Type 0 where
  pub duration : u.duration_ms ≤ l.timeout_ms
  pub cpu : u.cpu_ms ≤ l.cpu_ms
  pub memory : u.peak_memory_bytes ≤ l.memory_bytes
  pub disk : u.disk_bytes ≤ l.disk_bytes
  pub processes : u.processes ≤ l.max_processes
  pub output : u.output_bytes ≤ l.max_output_bytes
  pub network : u.network_requests ≤ l.max_network_requests

-- `Date.parse` reads when an attempt started and when it completed.
pub record TimesRead (v : VerificationAttempt) : Type 0 where
  pub start : IsReadIfPresent v.started_at
  pub completion : IsRead v.completed_at

-- The run had what it needs: a start, leave to run, a signed recipe, and an isolated sandbox.
pub record IsAuthorised (v : VerificationAttempt) : Type 0 where
  pub started : (at : Time) × (v.started_at ≡ some at) × AtMost at v.completed_at
  pub leave :
      (v.approval.status ≡ not_required)
      ⊎ ((v.approval.status ≡ approved)
          × (truthy v.approval.actor ≡ true)
          × ((at : Time) × (v.approval.approved_at ≡ some at)))
  pub signature : v.recipe.signature_status ≡ verified
  pub signer : truthy v.recipe.signer ≡ true
  pub trust_policy : (d : ContentDigest) × (v.recipe.trust_policy_digest ≡ some d)
  pub isolated : v.sandbox.isolation ≢ no_isolation
  pub pinned :
      is_managed v.sandbox.isolation ≡ true
      → (d : ContentDigest) × (v.sandbox.runtime_digest ≡ some d)
  pub non_root : v.sandbox.non_root ≡ true
  pub cleaned : v.sandbox.cleanup ≢ not_started

abbrev pub no_usage : ResourceUsage
no_usage = record {
  duration_ms = 0;
  cpu_ms = 0;
  peak_memory_bytes = 0;
  disk_bytes = 0;
  processes = 0;
  output_bytes = 0;
  network_requests = 0;
}

abbrev pub no_output : Output
no_output = record { evidence_digest = none; stdout = none; stderr = none; artifacts = [] }

-- Nothing ran.
pub record IsIdle (v : VerificationAttempt) : Type 0 where
  pub never_started : v.started_at ≡ none
  pub nothing_used : v.usage ≡ no_usage
  pub nothing_written : v.output ≡ no_output
  pub no_cleanup : v.sandbox.cleanup ≡ not_started
  pub no_secret : v.secret_inputs ≡ no_secrets

pub some_of : {A : Type 0} (o : Option A) → is_some o ≡ true → (a : A) × (o ≡ some a)
some_of none h = cc
some_of (some a) h = (a, refl)

none_of : {A : Type 0} (o : Option A) → is_some o ≡ false → o ≡ none
none_of none h = refl
none_of (some a) h = cc

unused : (u : ResourceUsage) → zero_usage u ≡ true → u ≡ no_usage
unused u h = λ i. record {
  duration_ms = (==_iff u.duration_ms 0).0 (ground (arith, h)) i;
  cpu_ms = (==_iff u.cpu_ms 0).0 (ground (arith, h)) i;
  peak_memory_bytes = (==_iff u.peak_memory_bytes 0).0 (ground (arith, h)) i;
  disk_bytes = (==_iff u.disk_bytes 0).0 (ground (arith, h)) i;
  processes = (==_iff u.processes 0).0 (ground (arith, h)) i;
  output_bytes = (==_iff u.output_bytes 0).0 (ground (arith, h)) i;
  network_requests = (==_iff u.network_requests 0).0 (ground (arith, h)) i;
}

nil_of : {A : Type 0} (xs : List A) → is_empty xs ≡ true → xs ≡ []
nil_of [] h = refl
nil_of (x ∷ xs) h = cc

pub nonempty : {A : Type 0} (xs : List A) → is_empty xs ≡ false → xs ≢ []
nonempty [] h e = cc
nonempty (x ∷ xs) h e = cc

unwritten : (o : Output) → has_output o ≡ false → o ≡ no_output
unwritten o h = λ i. record {
  evidence_digest = none_of o.evidence_digest (ground (arith, h)) i;
  stdout = none_of o.stdout (ground (arith, h)) i;
  stderr = none_of o.stderr (ground (arith, h)) i;
  artifacts = nil_of o.artifacts (ground (arith, h)) i;
}

module _ (read_url : Text → Option Url) where
  -- A destination that reads as an HTTPS URL with nothing but its origin.
  pub record IsOrigin (t : Text) : Type 0 where
    pub url : Url
    pub reads : read_url t ≡ some url
    pub secure : url.protocol ≡ codes "https:"
    pub no_username : url.username ≡ []
    pub no_password : url.password ≡ []
    pub no_path : url.pathname ≡ codes "/"
    pub no_query : url.search ≡ []
    pub no_fragment : url.hash ≡ []

  pub record IsChecked (v : VerificationAttempt) : Type 0 where
    pub recipe : IsClear (recipe_rows v.recipe)
    pub approval : IsClear (approval_rows v.approval)
    pub sandbox : IsClear (sandbox_rows read_url v.sandbox)
    pub execution : IsClear (execution_rows v.executed v)
    pub verdict : IsClear (verdict_rows v)
    pub limits : IsClear (limit_rows v.usage v.limits)
    pub order : IsClear (order_rows v)

  issues-IsChecked : (v : VerificationAttempt) → attempt_issues read_url v ≡ [] → IsChecked v
  unfolding attempt_issues refine_attempt
  issues-IsChecked v h =
      let (fields, h1) = append-eq-nil (raise (attempt_field_rows v)) _ h in
      let (recipe, h2) = append-eq-nil (raise (recipe_rows v.recipe)) _ h1 in
      let (approval, h3) = append-eq-nil (raise (approval_rows v.approval)) _ h2 in
      let (sandbox, h4) = append-eq-nil (raise (sandbox_rows read_url v.sandbox)) _ h3 in
      let (execution, h5) = append-eq-nil (raise (execution_rows v.executed v)) _ h4 in
      let (verdict, h6) = append-eq-nil (raise (verdict_rows v)) _ h5 in
      let (limits, order) = append-eq-nil (raise (limit_rows v.usage v.limits)) _ h6 in
      record {
        recipe = raise-eq-nil (recipe_rows v.recipe) recipe;
        approval = raise-eq-nil (approval_rows v.approval) approval;
        sandbox = raise-eq-nil (sandbox_rows read_url v.sandbox) sandbox;
        execution = raise-eq-nil (execution_rows v.executed v) execution;
        verdict = raise-eq-nil (verdict_rows v) verdict;
        limits = raise-eq-nil (limit_rows v.usage v.limits) limits;
        order = raise-eq-nil (order_rows v) order;
      }

  pub parse-IsChecked :
      (v w : VerificationAttempt)
      → parse_verification_attempt read_url v ≡ ok w
      → (w ≡ v) × IsChecked v
  unfolding parse_verification_attempt
  parse-IsChecked v w h =
      let (clean, same, version) =
        parse-eq-ok (λ (p : VerificationAttempt). p.schema_version) (attempt_issues read_url v) v
          h in
      (sym same, issues-IsChecked v clean)

  pub checked-IsWithin : (v : VerificationAttempt) → IsChecked v → IsWithin v.usage v.limits
  checked-IsWithin v c =
      let l = c.limits in
      record {
        duration = ground (arith, l.0);
        cpu = ground (arith, l.1.0);
        memory = ground (arith, l.1.1.0);
        disk = ground (arith, l.1.1.1.0);
        processes = ground (arith, l.1.1.1.1.0);
        output = ground (arith, l.1.1.1.1.1.0);
        network = ground (arith, l.1.1.1.1.1.1.0);
      }

  destination-IsOrigin : (t : Text) → is_safe_network_origin read_url t ≡ true → IsOrigin t
  unfolding is_safe_network_origin
  destination-IsOrigin t h = elim (Option-cases (read_url t)) [
    | inl e ↦ absurd (ground (arith, e, h))
    | inr (u, e) ↦
        let safe : is_origin u ≡ true = ground (arith, e, h) in
        record {
          url = u;
          reads = e;
          secure = (text_eq_iff u.protocol (codes "https:")).0 (ground (arith, safe));
          no_username = nil_of u.username (ground (arith, safe));
          no_password = nil_of u.password (ground (arith, safe));
          no_path = (text_eq_iff u.pathname (codes "/")).0 (ground (arith, safe));
          no_query = nil_of u.search (ground (arith, safe));
          no_fragment = nil_of u.hash (ground (arith, safe));
        }
  ]

  pub all-IsOrigin : (l : List Text) → all (destination_ok read_url) l ≡ true → All IsOrigin l
  all-IsOrigin [] h = tt
  all-IsOrigin (t ∷ l) h =
      (destination-IsOrigin t (ground (arith, h)), all-IsOrigin l (ground (arith, h)))

  leave_of :
      (a : Approval)
      → IsClear (approval_rows a)
      → (is_approved a.status || is_not_required a.status) ≡ true
      → (a.status ≡ not_required)
        ⊎ ((a.status ≡ approved)
            × (truthy a.actor ≡ true)
            × ((at : Time) × (a.approved_at ≡ some at)))
  leave_of a rows h = elim (Bool-cases (is_approved a.status)) [
    | inl e ↦ inr (
      ground (arith, e),
      ground (arith, e, rows.1.0),
      some_of a.approved_at (ground (arith, e, rows.1.0)),
    )
    | inr e ↦ inl (ground (arith, e, h))
  ]

  pub checked-IsAuthorised :
      (v : VerificationAttempt) → IsChecked v → v.executed ≡ true → TimesRead v → IsAuthorised v
  checked-IsAuthorised v c x times =
      let run : IsClear (executed_rows v) =
        subst (λ b. IsClear (execution_rows b v)) x c.execution in
      let (at, began) = some_of v.started_at (ground (arith, run.0)) in
      let signed : v.recipe.signature_status ≡ verified = ground (arith, c.verdict.1.1.1.1.0, x) in
      record {
        started = (
          at,
          began,
          present-AtMost v.completed_at v.started_at times.completion times.start
              (ground (arith, c.order.0)) at began,
        );
        leave = leave_of v.approval c.approval (ground (arith, run.1.0));
        signature = signed;
        signer = ground (arith, c.recipe.1.0, signed);
        trust_policy = some_of v.recipe.trust_policy_digest (ground (arith, c.recipe.1.0, signed));
        isolated = λ e. ground (arith, run.1.1.0, e);
        pinned = λ m. some_of v.sandbox.runtime_digest (ground (arith, run.1.1.1.1.1.0, m));
        non_root = ground (arith, run.1.1.1.0);
        cleaned = λ e. ground (arith, run.1.1.1.1.0, e);
      }

  pub checked-IsIdle : (v : VerificationAttempt) → IsChecked v → v.executed ≡ false → IsIdle v
  checked-IsIdle v c x =
      let idle : IsClear (not_executed_rows v) =
        subst (λ b. IsClear (execution_rows b v)) x c.execution in
      record {
        never_started = none_of v.started_at idle.0;
        nothing_used = unused v.usage (ground (arith, idle.1.0));
        nothing_written = unwritten v.output idle.1.1.0;
        no_cleanup = ground (arith, idle.1.1.1.0);
        no_secret = ground (arith, idle.1.1.1.1.0);
      }
