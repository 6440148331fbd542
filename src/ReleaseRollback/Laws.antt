-- ===== src/ReleaseRollback/Laws.antt =====
-- Requests that `decideReleaseRollback` (packages/shared/src/release-rollback.ts) allows.
use verglos_cli.Prelude.{
  ◌≡◌, refl, sym, ap, ◌∙◌, ◌≢◌, ◌↔◌, Bool, true, false, Option, none, some, arith, if◌then◌else◌,
}
use verglos_cli.Text.{text_eq}
use verglos_cli.Text.Order.{text_eq_iff}
use verglos_cli.ReleaseRollback.{
  RollbackKind, signing_identity, kind_eq, ReleaseReference, RollbackRequest, RollbackAction,
  rollback, revoke, RollbackPlan, RollbackDecision, allowed, trim, safe_line, valid_reference, same,
  plan_of, decide_revocation, decide_rollback, decide_release_rollback,
}

-- A signing identity is revoked for another one; anything else is rolled back for none.
pub data IsSettled (i : RollbackRequest) : Type 0 where
  replaced :
      i.current.kind ≡ signing_identity
      → (r : ReleaseReference) → i.replacement_identity ≡ some r
      → r.kind ≡ signing_identity
      → valid_reference r ≡ true
      → r.immutable_ref ≢ i.current.immutable_ref
      → IsSettled i
  unreplaced : i.current.kind ≢ signing_identity → i.replacement_identity ≡ none → IsSettled i

pub record IsPermitted (i : RollbackRequest) : Type 0 where
  pub approved : i.approved ≡ true
  pub current : valid_reference i.current ≡ true
  pub target : valid_reference i.target ≡ true
  pub one_kind : i.current.kind ≡ i.target.kind
  pub moves : i.current ≢ i.target
  pub keeps_history : i.preserve_historical_records ≡ true
  pub explained : safe_line (trim i.reason) ≡ true
  pub settled : IsSettled i

abbrev pub action_on : RollbackKind → RollbackAction
action_on signing_identity = revoke
action_on _ = rollback

kind_eq_iff : (a b : RollbackKind) → (kind_eq a b ≡ true) ↔ (a ≡ b)
kind_eq_iff a b = ground arith

same_iff : (a b : ReleaseReference) → a.kind ≡ b.kind → (same a b ≡ true) ↔ (a ≡ b)
same_iff a b k = (
  λ h i. record {
    kind = k i;
    identity = (text_eq_iff a.identity b.identity).0 (ground (arith, h)) i;
    immutable_ref = (text_eq_iff a.immutable_ref b.immutable_ref).0 (ground (arith, h)) i;
  },
  λ e. ground (
    arith,
    (text_eq_iff a.identity b.identity).1 (ap ReleaseReference.identity e),
    (text_eq_iff a.immutable_ref b.immutable_ref).1 (ap ReleaseReference.immutable_ref e),
  ),
)

-- The last branches of the decision.
abbrev settle : RollbackRequest → RollbackDecision
settle i =
    if kind_eq i.current.kind signing_identity
    then decide_revocation i i.replacement_identity
    else decide_rollback i i.replacement_identity

action-kind :
    (k : RollbackKind) → action_on k ≡ (if kind_eq k signing_identity then revoke else rollback)
action-kind k = ground arith

plan_as :
    (i : RollbackRequest) (a : RollbackAction)
    → action_on i.current.kind ≡ a
    → plan_of a i ≡ plan_of (action_on i.current.kind) i
plan_as i a e = ap (λ b. plan_of b i) (sym e)

revocation-allowed :
    (i : RollbackRequest) (p : RollbackPlan) (r : ReleaseReference)
    → decide_revocation i (some r) ≡ allowed p
    → (kind_eq r.kind signing_identity ≡ true)
      × (valid_reference r ≡ true)
      × (text_eq r.immutable_ref i.current.immutable_ref ≡ false)
      × (p ≡ plan_of revoke i)
revocation-allowed i p r h = ground (arith, h)

settle-allowed :
    (i : RollbackRequest) (p : RollbackPlan) (signing : Bool) (o : Option ReleaseReference)
    → kind_eq i.current.kind signing_identity ≡ signing
    → i.replacement_identity ≡ o
    → (if signing then decide_revocation i o else decide_rollback i o) ≡ allowed p
    → IsSettled i × (p ≡ plan_of (action_on i.current.kind) i)
settle-allowed i p true none e o h = cc
settle-allowed i p true (some r) e o h =
    let (kind, valid, differs, plan) = revocation-allowed i p r h in
    (
      replaced ((kind_eq_iff i.current.kind signing_identity).0 e) r o
          ((kind_eq_iff r.kind signing_identity).0 kind) valid
          (λ x. ground (arith, differs, (text_eq_iff r.immutable_ref i.current.immutable_ref).1 x)),
      plan ∙ plan_as i revoke (action-kind i.current.kind ∙ rw e refl),
    )
settle-allowed i p false none e o h = (
  unreplaced (λ k. ground (arith, e, (kind_eq_iff i.current.kind signing_identity).1 k)) o,
  ground (arith, h) ∙ plan_as i rollback (action-kind i.current.kind ∙ rw e refl),
)
settle-allowed i p false (some r) e o h = cc

settle_settled :
    (i : RollbackRequest) → IsSettled i → settle i ≡ allowed (plan_of (action_on i.current.kind) i)
settle_settled i (replaced k r e rk v d) =
    let other : text_eq r.immutable_ref i.current.immutable_ref ≡ false =
      ground (arith, d, text_eq_iff r.immutable_ref i.current.immutable_ref) in
    rw (k, e, rk, v, other) refl
settle_settled i (unreplaced k e) =
    let kept : kind_eq i.current.kind signing_identity ≡ false =
      ground (arith, k, kind_eq_iff i.current.kind signing_identity) in
    rw (e, action-kind i.current.kind, kept) refl

gates :
    (i : RollbackRequest) (p : RollbackPlan)
    → decide_release_rollback i ≡ allowed p
    → (i.approved ≡ true)
      × (valid_reference i.current ≡ true)
      × (valid_reference i.target ≡ true)
      × (kind_eq i.current.kind i.target.kind ≡ true)
      × (same i.current i.target ≡ false)
      × (i.preserve_historical_records ≡ true)
      × (safe_line (trim i.reason) ≡ true)
      × (settle i ≡ allowed p)
unfolding decide_release_rollback
gates i p h = ground (arith, h)

-- A request is allowed exactly where it is permitted (approved, between two valid references of one
-- kind that differ, preserving history, with a reason; for a signing identity with a valid
-- replacement of another reference, and else with none), and then as the plan of the request, which
-- revokes a signing identity and rolls back everything else.
pub decide_release_rollback-allowed_iff :
    (i : RollbackRequest) (p : RollbackPlan)
    → (decide_release_rollback i ≡ allowed p)
      ↔ (IsPermitted i × (p ≡ plan_of (action_on i.current.kind) i))
unfolding decide_release_rollback
decide_release_rollback-allowed_iff i p = (
  λ h.
      let (approved, current, target, kind, moves, kept, told, rest) = gates i p h in
      let (settled, plan) =
        settle-allowed i p (kind_eq i.current.kind signing_identity) i.replacement_identity refl
          refl rest in
      let one_kind = (kind_eq_iff i.current.kind i.target.kind).0 kind in
      (
        record {
          approved = approved;
          current = current;
          target = target;
          one_kind = one_kind;
          moves = λ e. ground (arith, moves, (same_iff i.current i.target one_kind).1 e);
          keeps_history = kept;
          explained = told;
          settled = settled;
        },
        plan,
      ),
  λ (permitted, plan).
      let apart : same i.current i.target ≡ false =
        ground (arith, permitted.moves, same_iff i.current i.target permitted.one_kind) in
      let kind = (kind_eq_iff i.current.kind i.target.kind).1 permitted.one_kind in
      rw
        (
          permitted.approved, permitted.current, permitted.target, kind, apart,
          permitted.keeps_history, permitted.explained, plan,
        )
        (settle_settled i permitted.settled),
)

-- The request that goes back.
abbrev pub undo : RollbackRequest → RollbackRequest
undo i = record i { current = i.target; target = i.current }

-- An allowed request that is not about a signing identity can be undone: the request with its two
-- references swapped is allowed as well, as a rollback.
pub decide_release_rollback-undo :
    (i : RollbackRequest) (p : RollbackPlan)
    → decide_release_rollback i ≡ allowed p
    → i.current.kind ≢ signing_identity
    → decide_release_rollback (undo i) ≡ allowed (plan_of rollback (undo i))
decide_release_rollback-undo i p h other =
    let (permitted, plan) = (decide_release_rollback-allowed_iff i p).0 h in
    let elsewhere : i.target.kind ≢ signing_identity = λ e. other (permitted.one_kind ∙ e) in
    (decide_release_rollback-allowed_iff (undo i) (plan_of rollback (undo i))).1 (
      record {
        approved = permitted.approved;
        current = permitted.target;
        target = permitted.current;
        one_kind = sym permitted.one_kind;
        moves = λ e. permitted.moves (sym e);
        keeps_history = permitted.keeps_history;
        explained = permitted.explained;
        settled = unreplaced elsewhere (unreplaced_of i permitted.settled other);
      },
      plan_as (undo i) rollback (action_on_other i.target.kind elsewhere),
    )
  where
    unreplaced_of :
        (i : RollbackRequest)
        → IsSettled i
        → i.current.kind ≢ signing_identity
        → i.replacement_identity ≡ none
    unreplaced_of i (replaced k r e rk v d) o = absurd (o k)
    unreplaced_of i (unreplaced k e) o = e

    action_on_other : (k : RollbackKind) → k ≢ signing_identity → action_on k ≡ rollback
    action_on_other k o = ground (arith, o)
