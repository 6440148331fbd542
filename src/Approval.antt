-- ===== src/Approval.antt =====
-- packages/shared/src/approval-receipt.ts: the receipts of human approvals. The actions that they
-- approve are those of Approval/Actions.
mod Results
mod Actions
pub mod Authorize
pub mod Tools
pub mod Store
mod Tests
unfoldable pub use Actions.*
use verglos_cli.Prelude.{
  Bool, true, false, not, ◌&&◌, ◌||◌, Option, some, List, [], ◌∷◌, ◌++◌, map, ltb, leb, length, all,
}
use verglos_cli.Text.{Text, codes, text_eq, text_ltb}
use verglos_cli.Text.Sets.{repeats}
use verglos_cli.Formats.{length_in, is_sha256_ref}
use verglos_cli.Contracts.{
  Instant, raise, Parsed, ok, invalid, unreadable, ◌>>=◌, accept_if_clean, is_some,
}
use verglos_cli.Schema.Json.{Json, json_string, json_array, json_object, strings, members}
use verglos_cli.Schema.Canonical.{CanonicalError, canonicalize_json}

-- What the checks take from outside the repository: the formats of the schema library, `Date.parse`
-- (none is NaN), and the hexadecimal SHA-256 digest of a text in UTF-8.
pub record Platform : Type 0 where
  pub is_uuid : Text → Bool
  pub is_url : Text → Bool
  pub is_datetime : Text → Bool
  pub parse_date : Text → Option Instant
  pub sha256_hex : Text → Text

-- ApprovalRequestBaseSchema
pub record ApprovalRequest : Type 0 where
  pub request_id : Text
  pub action : AgentAction
  pub actor : Text
  pub target : Text
  pub files : List Text
  pub network : List Text
  pub policy_effect : Text
  pub requested_at : Text
  pub expires_at : Text

pub data ApprovalDecision : Type 0 where
  approved denied : ApprovalDecision

-- ApprovalReceiptSchema. The fields of the request, which the source spreads, are one field.
pub record ApprovalReceipt : Type 0 where
  pub request : ApprovalRequest
  pub decision : ApprovalDecision
  pub decided_by : Text
  pub decided_at : Text
  pub request_digest : Text

-- What the functions on receipts and on their store throw.
pub data ApprovalError : Type 0 where
  malformed expiry_not_after_request repeated_network decision_outside_window : ApprovalError
  not_canonical : CanonicalError → ApprovalError
  invalid_digest digest_mismatch root_not_directory missing_entry unsafe_entry : ApprovalError
  invalid_json reused_request_id oversized different_content unbounded_file : ApprovalError
  key_mismatch rename_failed : ApprovalError

abbrev pub throw {ℓ} : {A : Type ℓ} → ApprovalError → Parsed ApprovalError A
throw e = invalid (e ∷ [])

-- An error of `canonicalizeJson` that is not caught.
abbrev pub or_throw {ℓ} : {A : Type ℓ} → Parsed CanonicalError A → Parsed ApprovalError A
or_throw (ok a) = ok a
or_throw (invalid is) = invalid (map not_canonical is)
or_throw (unreadable c) = unreadable c

abbrev pub id_text : Text → Bool
id_text = length_in 1 512

abbrev request_members : ApprovalRequest → List (Text × Json)
request_members r =
    (codes "requestId", json_string r.request_id)
    ∷ (codes "action", json_string (action_text r.action))
    ∷ (codes "actor", json_string r.actor)
    ∷ (codes "target", json_string r.target)
    ∷ (codes "files", json_array (strings r.files))
    ∷ (codes "network", json_array (strings r.network))
    ∷ (codes "policyEffect", json_string r.policy_effect)
    ∷ (codes "requestedAt", json_string r.requested_at)
    ∷ (codes "expiresAt", json_string r.expires_at)
    ∷ []

unfoldable pub request_json : ApprovalRequest → Json
request_json r = json_object (members (request_members r))

abbrev pub decision_text : ApprovalDecision → Text
decision_text approved = codes "approved"
decision_text denied = codes "denied"

unfoldable pub receipt_json : ApprovalReceipt → Json
receipt_json r = json_object (
    members (
      request_members r.request
      ++ ((codes "decision", json_string (decision_text r.decision))
          ∷ (codes "decidedBy", json_string r.decided_by)
          ∷ (codes "decidedAt", json_string r.decided_at)
          ∷ (codes "requestDigest", json_string r.request_digest)
          ∷ [])))

-- `at < bound` on `Date.parse` results: false where one of them is NaN.
abbrev pub before : Option Instant → Option Instant → Bool
before (some a) (some b) = ltb a b
before _ _ = false

abbrev pub not_before : Option Instant → Option Instant → Bool
not_before (some a) (some b) = leb b a
not_before _ _ = false

abbrev pub is_approved : ApprovalDecision → Bool
is_approved approved = true
is_approved denied = false

module _ (p : Platform) where
  unfoldable pub is_request_shape : ApprovalRequest → Bool
  is_request_shape r =
      p.is_uuid r.request_id
      && (id_text r.actor
          && (id_text r.target
              && (leb (length r.files) 256
                  && (all id_text r.files
                      && (leb (length r.network) 64
                          && (all (λ u. p.is_url u && leb (length u) 2048) r.network
                              && (id_text r.policy_effect
                                  && (p.is_datetime r.requested_at
                                      && p.is_datetime r.expires_at))))))))

  -- ApprovalRequestSchema. The times are compared as the texts they are.
  unfoldable pub request_issues : ApprovalRequest → List ApprovalError
  unfolding is_request_shape
  request_issues r = raise (
      (not (is_request_shape r), malformed)
      ∷ (not (text_ltb r.requested_at r.expires_at), expiry_not_after_request)
      ∷ (repeats r.network, repeated_network)
      ∷ [])

  abbrev pub parse_approval_request : ApprovalRequest → Parsed ApprovalError ApprovalRequest
  parse_approval_request r = accept_if_clean (request_issues r) r

  -- The refinement of ApprovalReceiptSchema, which does not repeat that of ApprovalRequestSchema.
  abbrev pub receipt_rows : ApprovalReceipt → List (Bool × ApprovalError)
  receipt_rows r =
      (
        not (
            is_request_shape r.request
            && (id_text r.decided_by
                && (p.is_datetime r.decided_at && is_sha256_ref r.request_digest))),
        malformed,
      )
      ∷ (
        text_ltb r.decided_at r.request.requested_at
            || not (text_ltb r.decided_at r.request.expires_at),
        decision_outside_window,
      )
      ∷ []

  unfoldable pub receipt_issues : ApprovalReceipt → List ApprovalError
  receipt_issues r = raise (receipt_rows r)

  abbrev pub parse_approval_receipt : ApprovalReceipt → Parsed ApprovalError ApprovalReceipt
  parse_approval_receipt r = accept_if_clean (receipt_issues r) r

  -- `approvalRequestDigest`
  unfoldable pub approval_request_digest : ApprovalRequest → Parsed ApprovalError Text
  approval_request_digest r = do
    parsed ← parse_approval_request r
    t ← or_throw (canonicalize_json (request_json parsed))
    ok (codes "sha256:" ++ p.sha256_hex t)

  -- `createApprovalReceipt`
  unfoldable pub create_approval_receipt :
      ApprovalRequest → ApprovalDecision → Text → Text → Parsed ApprovalError ApprovalReceipt
  create_approval_receipt request decision decided_by decided_at = do
    parsed ← parse_approval_request request
    digest ← approval_request_digest parsed
    parse_approval_receipt record {
      request = parsed;
      decision = decision;
      decided_by = decided_by;
      decided_at = decided_at;
      request_digest = digest;
    }

  -- The last four conditions of `isApprovalUsable`.
  abbrev pub in_window : ApprovalReceipt → Text → Bool
  in_window r at =
      is_some (p.parse_date at)
      && (not_before (p.parse_date at) (p.parse_date r.request.requested_at)
          && (before (p.parse_date at) (p.parse_date r.request.expires_at)
              && not_before (p.parse_date at) (p.parse_date r.decided_at)))

  -- `isApprovalUsable`. The digest is computed only where the decision approves.
  unfoldable pub is_approval_usable : ApprovalReceipt → Text → Parsed ApprovalError Bool
  is_approval_usable receipt at = do
    parsed ← parse_approval_receipt receipt
    elim (is_approved parsed.decision) [
      | true ↦ do
        digest ← approval_request_digest parsed.request
        ok (text_eq parsed.request_digest digest && in_window parsed at)
      | false ↦ ok false
    ]
