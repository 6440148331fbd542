-- ===== src/Approval/Authorize/Usable.antt =====
-- When a receipt is usable (packages/shared/src/approval-receipt.ts).
use verglos_cli.Prelude.{
  ◌≤◌, ◌<◌, ◌≡◌, refl, sym, ap, ◌↔◌, Bool, true, ◌&&◌, Option, none, some, [], arith,
}
use verglos_cli.Text.{Text, text_eq}
use verglos_cli.Text.Order.{text_eq_iff}
use verglos_cli.Contracts.{Instant, Parsed, ok, invalid, unreadable, ◌>>=◌, is_some}
use verglos_cli.Contracts.Laws.{ok_injective}
use verglos_cli.Approval.Results.{accept-bind}
use verglos_cli.Approval.{
  AgentAction, inspect, propose, mutate, install, execute, network, except, sign, publish, upload,
  policy, billing, action_text, parse_agent_action, action_eq, Platform, ApprovalReceipt, approved,
  ApprovalError, receipt_issues, approval_request_digest, before, not_before, is_approved,
  in_window, is_approval_usable,
}

parse-action_text : (a : AgentAction) → parse_agent_action (action_text a) ≡ some a
unfolding parse_agent_action
parse-action_text inspect = refl
parse-action_text propose = refl
parse-action_text mutate = refl
parse-action_text install = refl
parse-action_text execute = refl
parse-action_text network = refl
parse-action_text except = refl
parse-action_text sign = refl
parse-action_text publish = refl
parse-action_text upload = refl
parse-action_text policy = refl
parse-action_text billing = refl

pub action_eq_iff : (a b : AgentAction) → (action_eq a b ≡ true) ↔ (a ≡ b)
unfolding action_eq
action_eq_iff a b = (
  (λ h.
      let same = (text_eq_iff (action_text a) (action_text b)).0 h in
      cc (parse-action_text a, parse-action_text b, ap parse_agent_action same)),
  (λ e. (text_eq_iff (action_text a) (action_text b)).1 (ap action_text e)),
)

-- A receipt is usable at an instant: it is well formed, it approves, its digest is that of its
-- request, and the instant lies between the request and its expiry, and not before the decision.
pub record Usable (p : Platform) (r : ApprovalReceipt) (at : Text) : Type 0 where
  pub well_formed : receipt_issues p r ≡ []
  pub approves : r.decision ≡ approved
  pub same_digest : approval_request_digest p r.request ≡ ok r.request_digest
  pub now : Instant
  pub start : Instant
  pub expiry : Instant
  pub decided : Instant
  pub now_read : p.parse_date at ≡ some now
  pub start_read : p.parse_date r.request.requested_at ≡ some start
  pub expiry_read : p.parse_date r.request.expires_at ≡ some expiry
  pub decided_read : p.parse_date r.decided_at ≡ some decided
  pub after_start : start ≤ now
  pub after_decision : decided ≤ now
  pub before_expiry : now < expiry

-- The tests of the window, on what the four times are read as.
abbrev pub window : (n s e d : Option Instant) → Bool
window n s e d = is_some n && (not_before n s && (before n e && not_before n d))

abbrev Window : (n s e d : Option Instant) → Type 0
Window n s e d =
    (now : Instant) × (start : Instant) × (expiry : Instant) × (decided : Instant) × (n ≡ some now)
    × (s ≡ some start)
    × (e ≡ some expiry)
    × (d ≡ some decided)
    × (start ≤ now)
    × (decided ≤ now)
    × (now < expiry)

window-Window : (n s e d : Option Instant) → window n s e d ≡ true → Window n s e d
window-Window (some n) (some s) (some e) (some d) h =
    (n, s, e, d, refl, refl, refl, refl, ground (arith, h), ground (arith, h), ground (arith, h))
window-Window none s e d h = cc
window-Window (some n) none e d h = cc
window-Window (some n) (some s) none d h = ground (arith, h)
window-Window (some n) (some s) (some e) none h = ground (arith, h)

Window-window : (n s e d : Option Instant) → Window n s e d → window n s e d ≡ true
Window-window n s e d (now, start, expiry, decided, hn, hs, he, hd, a, b, c) =
    rw (hn, hs, he, hd) (ground (arith, a, b, c))

digest-ok :
    (m : Parsed ApprovalError Text) (d : Text) (b : Bool)
    → (m >>= (λ t. ok (text_eq d t && b))) ≡ ok true
    → (m ≡ ok d) × (b ≡ true)
digest-ok (ok t) d b h =
    let both : (text_eq d t && b) ≡ true = ok_injective h in
    (ap (λ x. ok x) (sym ((text_eq_iff d t).0 (ground (arith, both)))), ground (arith, both))
digest-ok (invalid is) d b h = cc
digest-ok (unreadable c) d b h = cc

module _ (p : Platform) (r : ApprovalReceipt) (at : Text) where
  pub is_approval_usable-eq : is_approval_usable p r at ≡ ok true → Usable p r at
  unfolding is_approval_usable
  is_approval_usable-eq h =
      let (clean, rest) = accept-bind (receipt_issues p r) r _ h in
      let yes_approved : is_approved r.decision ≡ true = ground (arith, rest) in
      let (same, inside) =
        digest-ok (approval_request_digest p r.request) r.request_digest (in_window p r at)
          (ground (arith, rest, yes_approved)) in
      let (now, start, expiry, decided, hn, hs, he, hd, a, b, c) =
        window-Window (p.parse_date at) (p.parse_date r.request.requested_at)
          (p.parse_date r.request.expires_at) (p.parse_date r.decided_at) inside in
      record {
        well_formed = clean;
        approves = ground (arith, yes_approved);
        same_digest = same;
        now = now;
        start = start;
        expiry = expiry;
        decided = decided;
        now_read = hn;
        start_read = hs;
        expiry_read = he;
        decided_read = hd;
        after_start = a;
        after_decision = b;
        before_expiry = c;
      }

  pub is_approval_usable-true :
      receipt_issues p r ≡ []
      → r.decision ≡ approved
      → approval_request_digest p r.request ≡ ok r.request_digest
      → in_window p r at ≡ true
      → is_approval_usable p r at ≡ ok true
  unfolding is_approval_usable
  is_approval_usable-true clean approves digest inside =
      let same = (text_eq_iff r.request_digest r.request_digest).1 refl in
      rw (clean, approves, digest, same, inside) refl

  pub Usable-window : Usable p r at → in_window p r at ≡ true
  Usable-window u =
      Window-window (p.parse_date at) (p.parse_date r.request.requested_at)
        (p.parse_date r.request.expires_at) (p.parse_date r.decided_at)
        (
          u.now, u.start, u.expiry, u.decided, u.now_read, u.start_read, u.expiry_read,
          u.decided_read, u.after_start, u.after_decision, u.before_expiry,
        )

  pub is_approval_usable-of : Usable p r at → is_approval_usable p r at ≡ ok true
  is_approval_usable-of u =
      is_approval_usable-true u.well_formed u.approves u.same_digest (Usable-window u)

  -- A receipt is usable at an instant exactly where it is well formed, approves, carries the digest
  -- of its own request, and its times and the instant are read so that the instant is at or after
  -- the request and the decision, and before the expiry.
  pub is_approval_usable-Usable_iff : (is_approval_usable p r at ≡ ok true) ↔ Usable p r at
  is_approval_usable-Usable_iff = (is_approval_usable-eq, is_approval_usable-of)
