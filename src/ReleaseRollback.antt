-- ===== src/ReleaseRollback.antt =====
-- packages/shared/src/release-rollback.ts: whether a release may be rolled back, or a signing
-- identity revoked. The source also guards against values that have not the TypeScript types of its
-- parameters; the model's values have them.
pub mod Laws
mod Tests
use verglos_cli.Prelude.{
  ℕ, zero, suc, Bool, true, false, not, ◌&&◌, ◌||◌, Option, none, some, [], ◌∷◌, reverse, leb, ◌==◌,
  if◌then◌else◌, all,
}
use verglos_cli.Text.{Text, codes, text_eq}
use verglos_cli.Formats.{is_digit, is_lower, in_range, is_sha256_ref}
use verglos_cli.Contracts.{is_empty}

-- RELEASE_ROLLBACK_KINDS
pub data RollbackKind : Type 0 where
  npm_package engine_manifest hunt_feed signing_identity web_deployment : RollbackKind

abbrev kind_rank : RollbackKind → ℕ
kind_rank npm_package = 0
kind_rank engine_manifest = 1
kind_rank hunt_feed = 2
kind_rank signing_identity = 3
kind_rank web_deployment = 4

abbrev pub kind_eq : RollbackKind → RollbackKind → Bool
kind_eq a b = kind_rank a == kind_rank b

-- RELEASE_ROLLBACK_FAILURES
pub data RollbackFailure : Type 0 where
  approval_required : RollbackFailure
  kind_invalid : RollbackFailure
  current_reference_invalid : RollbackFailure
  target_reference_invalid : RollbackFailure
  same_reference : RollbackFailure
  target_not_immutable : RollbackFailure
  history_invalidation_requested : RollbackFailure
  revocation_requires_replacement : RollbackFailure
  revocation_not_applicable : RollbackFailure

pub record ReleaseReference : Type 0 where
  pub kind : RollbackKind
  pub identity : Text
  pub immutable_ref : Text

pub record RollbackRequest : Type 0 where
  pub current : ReleaseReference
  pub target : ReleaseReference
  pub approved : Bool
  pub reason : Text
  pub preserve_historical_records : Bool
  pub replacement_identity : Option ReleaseReference

pub data RollbackAction : Type 0 where
  rollback revoke : RollbackAction

-- What an allowed decision carries; that it preserves history is a constant of its type.
pub record RollbackPlan : Type 0 where
  pub action : RollbackAction
  pub kind : RollbackKind
  pub current : ReleaseReference
  pub target : ReleaseReference
  pub reason : Text

pub data RollbackDecision : Type 0 where
  allowed : RollbackPlan → RollbackDecision
  refused : RollbackFailure → RollbackDecision

-- White space and line ends, as `\s` and `trim` take them.
abbrev pub is_space : ℕ → Bool
is_space c =
    in_range 0x9 0xd c
    || (c == 0x20
        || (c == 0xa0
            || (c == 0x1680
                || (in_range 0x2000 0x200a c
                    || (c == 0x2028
                        || (c == 0x2029
                            || (c == 0x202f || (c == 0x205f || (c == 0x3000 || c == 0xfeff)))))))))

abbrev pub trim_start : Text → Text
trim_start [] = []
trim_start (c ∷ s) = let rest = trim_start s in if is_space c then rest else c ∷ s

abbrev pub trim : Text → Text
trim s = reverse (trim_start (reverse (trim_start s)))

-- The number of code points: a surrogate pair is one.
abbrev code_points_after : Bool → Text → ℕ
code_points_after high [] = 0
code_points_after high (c ∷ s) =
    let rest = code_points_after (in_range 0xd800 0xdbff c) s in
    if high && in_range 0xdc00 0xdfff c then rest else suc rest

abbrev pub code_points : Text → ℕ
code_points = code_points_after false

-- SAFE_TEXT, whose `u` flag makes its bound one of code points.
unfoldable pub safe_line : Text → Bool
safe_line s =
    leb 1 (code_points s) && (leb (code_points s) 512 && all (λ c. not (leb c 0x1f || c == 0x7f)) s)

-- `https:\/\/[^\s#?]+`
abbrev after_prefix : Text → Text → Option Text
after_prefix [] s = some s
after_prefix (p ∷ ps) [] = none
after_prefix (p ∷ ps) (c ∷ s) = let rest = after_prefix ps s in if p == c then rest else none

abbrev is_https : Text → Bool
is_https s = elim (after_prefix (codes "https://") s) [
  | none ↦ false
  | some rest ↦ not (is_empty rest) && all (λ c. not (is_space c || (c == b'#' || c == b'?'))) rest
]

abbrev is_tag_unit : ℕ → Bool
is_tag_unit c = is_digit c || (in_range b'A' b'Z' c || (is_lower c || (c == b'.' || c == b'-')))

-- The rest of `v\d+\.\d+\.\d+(?:-[0-9A-Za-z.-]+)?` where `n` dots are due, and a digit has just been
-- read or not.
abbrev is_tag_rest : ℕ → Bool → Text → Bool
is_tag_rest n digit [] = n == 0 && digit
is_tag_rest zero digit (c ∷ s) =
    let more = is_tag_rest zero true s in
    if is_digit c then more else digit && (c == b'-' && (not (is_empty s) && all is_tag_unit s))
is_tag_rest (suc n) digit (c ∷ s) =
    let more = is_tag_rest (suc n) true s in
    let next = is_tag_rest n false s in if is_digit c then more else digit && (c == b'.' && next)

abbrev is_tag : Text → Bool
is_tag [] = false
is_tag (c ∷ s) = c == b'v' && is_tag_rest 2 false s

-- IMMUTABLE_REF
unfoldable pub is_immutable_ref : Text → Bool
is_immutable_ref s = is_sha256_ref s || (is_https s || is_tag s)

-- `validReference`
abbrev pub valid_reference : ReleaseReference → Bool
valid_reference r = safe_line r.identity && is_immutable_ref r.immutable_ref

abbrev pub same : ReleaseReference → ReleaseReference → Bool
same a b = text_eq a.identity b.identity && text_eq a.immutable_ref b.immutable_ref

abbrev pub plan_of : RollbackAction → RollbackRequest → RollbackPlan
plan_of action i = record {
  action = action;
  kind = i.current.kind;
  current = i.current;
  target = i.target;
  reason = trim i.reason;
}

-- The end of `decideReleaseRollback`: its branch on a signing identity, and what follows that.
abbrev pub decide_revocation : RollbackRequest → Option ReleaseReference → RollbackDecision
decide_revocation i none = refused revocation_requires_replacement
decide_revocation i (some r) =
    if not (kind_eq r.kind signing_identity) || not (valid_reference r)
    then refused revocation_requires_replacement
    else if text_eq r.immutable_ref i.current.immutable_ref
    then refused same_reference
    else allowed (plan_of revoke i)

abbrev pub decide_rollback : RollbackRequest → Option ReleaseReference → RollbackDecision
decide_rollback i none = allowed (plan_of rollback i)
decide_rollback i (some r) = refused revocation_not_applicable

-- `decideReleaseRollback`
unfoldable pub decide_release_rollback : RollbackRequest → RollbackDecision
decide_release_rollback i =
    if not i.approved
    then refused approval_required
    else if not (valid_reference i.current)
    then refused current_reference_invalid
    else if not (valid_reference i.target)
    then refused target_reference_invalid
    else if not (kind_eq i.current.kind i.target.kind)
    then refused kind_invalid
    else if same i.current i.target
    then refused same_reference
    else if not i.preserve_historical_records
    then refused history_invalidation_requested
    else if not (safe_line (trim i.reason))
    then refused target_reference_invalid
    else if kind_eq i.current.kind signing_identity
    then decide_revocation i i.replacement_identity
    else decide_rollback i i.replacement_identity
