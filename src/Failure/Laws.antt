-- ===== src/Failure/Laws.antt =====
-- What an accepted failure document says.
use verglos_cli.Prelude.{
  ℕ, zero, suc, ◌+◌, ◌*◌, ◌≡◌, refl, sym, ap, ◌∙◌, ◌↔◌, true, false, ◌&&◌, [], ◌∷◌, ◌++◌, arith,
}
use verglos_cli.Text.{Text, starts_with}
use verglos_cli.Schema.Version.{parse_schema_version, classify_schema_compatibility}
use verglos_cli.Formats.{uuid_urn, short_text, long_text}
use verglos_cli.Contracts.{if_present, ok, assert_compatible, is_version}
use verglos_cli.Contracts.Laws.{IsClear, raise-eq-nil, raise_clear, parse-eq-ok, parse_clean}
use verglos_cli.Failure.{
  FailureCategory, usage, unsupported, incomplete, policy_block, infrastructure, authorization,
  quota, integrity, internal, failure_exit_code, Retry, safe, FailureDocument, failure_code,
  namespace_of, is_exit_code, is_usage, is_safe, bars_blind_retry, failure_rows, failure_issues,
  parse_failure, FailureInput, with_exit_code, create_failure,
}

-- A category whose failures may be retried without another step.
abbrev pub IsRetryable : FailureCategory → Type 0
IsRetryable usage = ⊥
IsRetryable policy_block = ⊥
IsRetryable authorization = ⊥
IsRetryable integrity = ⊥
IsRetryable _ = Unit

failure-eq-ok : (f g : FailureDocument) → parse_failure f ≡ ok g → (failure_issues f ≡ []) × (f ≡ g)
unfolding parse_failure
failure-eq-ok f g h =
    let (clean, same, version) =
      parse-eq-ok (λ (p : FailureDocument). p.schema_version) (failure_issues f) f h in
    (clean, same)

retryable :
    (f : FailureDocument) → IsClear (failure_rows f) → f.retry ≡ safe → IsRetryable f.category
retryable f rows s = ground (arith, s, rows.1.1.1.1.1.1.1.1.0, rows.1.1.1.1.1.1.1.1.1.0)

-- An accepted failure is returned as it is; its exit code is that of its category, its code lies in
-- the category's namespace, and it says that a retry is safe only if it is not a usage, policy,
-- authorization or integrity failure.
pub parse_failure_sound :
    (f g : FailureDocument)
    → parse_failure f ≡ ok g
    → (g ≡ f)
      × (g.exit_code ≡ failure_exit_code g.category)
      × (starts_with (namespace_of g.category) g.code ≡ true)
      × (g.retry ≡ safe → IsRetryable g.category)
unfolding failure_issues
parse_failure_sound f g h =
    let (clean, same) = failure-eq-ok f g h in
    let rows = raise-eq-nil (failure_rows f) clean in
    rw (← same) (
      refl,
      ground (arith, rows.1.1.1.1.1.1.1.0),
      ground (arith, rows.1.1.1.1.1.1.0),
      retryable f rows,
    )

-- The text behind a prefix.
starts_with-append : (p s : Text) → starts_with p s ≡ true → (r : Text) × (s ≡ p ++ r)
starts_with-append [] s h = (s, refl)
starts_with-append (c ∷ p) [] h = cc
starts_with-append (c ∷ p) (d ∷ s) h =
    let (r, e) = starts_with-append p s (ground arith) in (r, ground (arith, e))

abbrev unit_at : ℕ → Text → ℕ
unit_at n [] = 0
unit_at zero (c ∷ s) = c
unit_at (suc n) (c ∷ s) = unit_at n s

-- Four code units that tell the category names apart.
abbrev signature : Text → ℕ
signature s =
    unit_at 16 s + 1000 * unit_at 17 s + 1000000 * unit_at 18 s + 1000000000 * unit_at 20 s

-- No two categories share a namespace.
namespace_of-inj :
    (c d : FailureCategory) (r s : Text) → namespace_of c ++ r ≡ namespace_of d ++ s → c ≡ d
namespace_of-inj usage usage r s e = refl
namespace_of-inj unsupported unsupported r s e = refl
namespace_of-inj incomplete incomplete r s e = refl
namespace_of-inj policy_block policy_block r s e = refl
namespace_of-inj infrastructure infrastructure r s e = refl
namespace_of-inj authorization authorization r s e = refl
namespace_of-inj quota quota r s e = refl
namespace_of-inj integrity integrity r s e = refl
namespace_of-inj internal internal r s e = refl
namespace_of-inj _ _ r s e = absurd (omega (arith, ap signature e))

-- The code of an accepted failure tells its category: two accepted failures with one code have one
-- category, and so one exit code.
pub parse_failure-category :
    (f g : FailureDocument)
    → parse_failure f ≡ ok f
    → parse_failure g ≡ ok g
    → f.code ≡ g.code
    → (f.category ≡ g.category) × (f.exit_code ≡ g.exit_code)
parse_failure-category f g h k e =
    let (_, f_code, f_space, _) = parse_failure_sound f f h in
    let (_, g_code, g_space, _) = parse_failure_sound g g k in
    let (r, p) = starts_with-append (namespace_of f.category) f.code f_space in
    let (s, q) = starts_with-append (namespace_of g.category) g.code g_space in
    let same : f.category ≡ g.category =
      namespace_of-inj f.category g.category r s (sym p ∙ e ∙ q) in
    (same, f_code ∙ ap failure_exit_code same ∙ sym g_code)

-- What a caller of `createFailure` has to provide.
pub record IsProvided (i : FailureInput) : Type 0 where
  pub id : uuid_urn i.failure_id ≡ true
  pub code : failure_code i.code ≡ true
  pub named : (short_text i.operation && if_present short_text i.target) ≡ true
  pub texts : (long_text i.message && long_text i.limitation && long_text i.action) ≡ true
  pub namespace : starts_with (namespace_of i.category) i.code ≡ true
  pub retry : i.retry ≡ safe → IsRetryable i.category

exit_codes_listed : (c : FailureCategory) → is_exit_code (failure_exit_code c) ≡ true
exit_codes_listed c = ground arith

usage_row :
    (c : FailureCategory) (r : Retry)
    → (r ≡ safe → IsRetryable c)
    → (is_usage c && is_safe r) ≡ false
usage_row usage safe h = absurd (h refl)
usage_row usage _ h = refl
usage_row _ r h = refl

blind_row :
    (c : FailureCategory) (r : Retry)
    → (r ≡ safe → IsRetryable c)
    → (bars_blind_retry c && is_safe r) ≡ false
blind_row policy_block safe h = absurd (h refl)
blind_row policy_block _ h = refl
blind_row authorization safe h = absurd (h refl)
blind_row authorization _ h = refl
blind_row integrity safe h = absurd (h refl)
blind_row integrity _ h = refl
blind_row _ r h = refl

provided_rows : (i : FailureInput) → IsProvided i → IsClear (failure_rows (with_exit_code i))
unfolding is_version parse_schema_version
provided_rows i p = (
  refl,
  (
    ground (arith, p.id),
    (
      ground (arith, p.code),
      (
        ground (arith, exit_codes_listed i.category),
        (
          ground (arith, p.named),
          (
            ground (arith, p.texts),
            (
              ground (arith, p.namespace),
              (
                ground arith,
                (usage_row i.category i.retry p.retry, (blind_row i.category i.retry p.retry, tt)),
              ),
            ),
          ),
        ),
      ),
    ),
  ),
)

-- `createFailure` succeeds exactly where the caller has provided well-formed fields, a code in the
-- category's namespace, and no safe retry for a category that bars it; the version and the exit
-- code are filled in and never refused.
pub create_failure-ok_iff :
    (i : FailureInput) → (create_failure i ≡ ok (with_exit_code i)) ↔ IsProvided i
unfolding create_failure parse_failure failure_issues assert_compatible
    classify_schema_compatibility parse_schema_version
create_failure-ok_iff i = (
  (λ h.
      let (clean, same, version) =
        parse-eq-ok (λ (p : FailureDocument). p.schema_version) (failure_issues (with_exit_code i))
          (with_exit_code i) h in
      let rows = raise-eq-nil (failure_rows (with_exit_code i)) clean in
      record {
        id = ground (arith, rows.1.0);
        code = ground (arith, rows.1.1.0);
        named = ground (arith, rows.1.1.1.1.0);
        texts = ground (arith, rows.1.1.1.1.1.0);
        namespace = ground (arith, rows.1.1.1.1.1.1.0);
        retry = retryable (with_exit_code i) rows;
      }),
  λ p.
      parse_clean (λ (q : FailureDocument). q.schema_version) (failure_issues (with_exit_code i))
        (with_exit_code i) (raise_clear (failure_rows (with_exit_code i)) (provided_rows i p)) refl,
)
