-- ===== src/Approval/Tests.antt =====
-- Receipts at concrete inputs, on a small platform.
use verglos_cli.Prelude.{
  ℕ, zero, suc, ◌+◌, ◌-◌, ◌*◌, ◌%◌, ◌≡◌, refl, ap, ◌≢◌, ◌↔◌, inl, true, false, none, some, [], ◌∷◌,
  ◌++◌, arith, ◌==◌, if◌then◌else◌, length,
}
use verglos_cli.Text.{Text, codes, text_eq, starts_with}
use verglos_cli.Text.Sets.{repeats}
use verglos_cli.Contracts.{Parsed, ok}
use verglos_cli.Formats.{is_digit}
use verglos_cli.Schema.Canonical.{byte_length, canonicalize_json}
use verglos_cli.Approval.{
  mutate, parse_agent_action, action_eq, Platform, ApprovalRequest, ApprovalReceipt, ApprovalError,
  approved, denied, reused_request_id, throw, request_json, receipt_json, is_request_shape,
  request_issues, receipt_issues, approval_request_digest, create_approval_receipt,
  is_approval_usable,
}
use verglos_cli.Approval.Tools.{undefined_tool, unknown_action, mcp_tool_authority}
use verglos_cli.Approval.Authorize.{
  allow, usable, authorize_agent_action, RemediationProposal, can_apply_remediation,
}
use verglos_cli.Approval.Authorize.Usable.{Usable, is_approval_usable-Usable_iff}
use verglos_cli.Approval.Authorize.Laws.{TimesRead, authorize_agent_action-Usable_iff}
use verglos_cli.Approval.Authorize.Remediation.{Covers, can_apply_remediation-Covers_iff}
use verglos_cli.Approval.Store.{
  a_receipt, regular, Named, Root, missing, directory, file_name, renamed, exists_already,
  validate_receipt, receipt_path, receipt_bytes, check_candidates, read_approval_receipt,
  put_approval_receipt,
}
use verglos_cli.Approval.Store.Kept.{IsKept, IsStore}
use verglos_cli.Approval.Store.Invariant.{Reach, here, next, put, Reach-IsStore}
use verglos_cli.Approval.Store.Laws.{put-read, put-reused}

abbrev digits_from : ℕ → Text → ℕ
digits_from n [] = n
digits_from n (c ∷ s) =
    let later = digits_from (10 * n + (c - b'0')) s in
    let same = digits_from n s in if is_digit c then later else same

abbrev sum : Text → ℕ
sum [] = 0
sum (c ∷ s) = c + sum s

abbrev copies : ℕ → ℕ → Text
copies zero c = []
copies (suc n) c = c ∷ copies n c

abbrev small_platform : Platform
small_platform = record {
  is_uuid = λ s. length s == 36;
  is_url = starts_with (codes "https://");
  is_datetime = λ s. length s == 20;
  parse_date = λ s. if length s == 20 then some (digits_from 0 s) else none;
  sha256_hex = λ s. copies 64 (b'0' + sum s % 10);
}

abbrev request_for : Text → ApprovalRequest
request_for target = record {
  request_id = codes "01234567-89ab-4def-8123-456789abcdef";
  action = mutate;
  actor = codes "agent";
  target = target;
  files = codes "src/a.ts" ∷ [];
  network = [];
  policy_effect = codes "none";
  requested_at = codes "2026-01-01T00:00:00Z";
  expires_at = codes "2026-01-02T00:00:00Z";
}

abbrev receipt_for : Text → Text → ApprovalReceipt
receipt_for target digest = record {
  request = request_for target;
  decision = approved;
  decided_by = codes "human";
  decided_at = codes "2026-01-01T01:00:00Z";
  request_digest = codes "sha256:" ++ digest;
}

abbrev noon : Text
noon = codes "2026-01-01T12:00:00Z"

-- To unfold the checks of receipts.
unfoldable approvals : Unit {0}
unfolding approval_request_digest request_issues is_request_shape repeats request_json
    canonicalize_json receipt_issues receipt_json is_approval_usable action_eq parse_agent_action
    authorize_agent_action can_apply_remediation create_approval_receipt validate_receipt
    receipt_path receipt_bytes read_approval_receipt put_approval_receipt mcp_tool_authority
approvals = tt

abbrev first_receipt : ApprovalReceipt
first_receipt = receipt_for (codes "t") (copies 64 b'4')

abbrev wider_receipt : ApprovalReceipt
wider_receipt = receipt_for (codes "u") (copies 64 b'5')

created :
    create_approval_receipt small_platform
      (request_for (codes "t"))
      approved
      (codes "human")
      first_receipt.decided_at
    ≡ ok first_receipt
unfolding approvals
created = refl

usable_now : is_approval_usable small_platform first_receipt noon ≡ ok true
unfolding approvals
usable_now = refl

tools :
    (mcp_tool_authority (codes "verglos_attest") ≢ undefined_tool)
    × (mcp_tool_authority (codes "x") ≡ undefined_tool)
    × (mcp_tool_authority (codes "constructor") ≡ unknown_action)
unfolding approvals
tools = ((λ e. cc), refl, refl)

times_read : TimesRead small_platform first_receipt noon
times_read = record { requested = refl; expires = refl; decided = refl }

is_approval_usable-Usable_iff_example :
    (is_approval_usable small_platform first_receipt noon ≡ ok true)
    ↔ Usable small_platform first_receipt noon
is_approval_usable-Usable_iff_example =
    is_approval_usable-Usable_iff small_platform first_receipt noon

authorize_agent_action-Usable_iff_example :
    (authorize_agent_action small_platform (codes "mutate") (some first_receipt) noon
      ≡ ok (allow usable))
    ↔ ((mutate ≡ mutate)
        × (is_approval_usable small_platform first_receipt noon ≡ ok true)
        × Usable small_platform first_receipt noon)
unfolding approvals
authorize_agent_action-Usable_iff_example =
    authorize_agent_action-Usable_iff small_platform first_receipt noon (codes "mutate") mutate refl
      refl times_read

abbrev small_proposal : RemediationProposal
small_proposal = record {
  target_subject_id = codes "t";
  files = codes "src/a.ts" ∷ [];
  policy_effect = codes "none";
}

can_apply_remediation-Covers_iff_example :
    (can_apply_remediation small_platform small_proposal first_receipt noon ≡ ok true) ↔ (
      Usable small_platform first_receipt noon
      × Covers small_platform small_proposal first_receipt noon)
can_apply_remediation-Covers_iff_example =
    can_apply_remediation-Covers_iff small_platform small_proposal first_receipt noon

-- The store after one put.
abbrev one_file : Root
one_file = (put_approval_receipt small_platform renamed missing first_receipt).1

one_put : Reach small_platform missing one_file
one_put = next here (put renamed missing first_receipt)

Reach-IsStore_example : IsStore small_platform one_file
Reach-IsStore_example = Reach-IsStore small_platform one_file one_put

abbrev text_of : Parsed ApprovalError Text → Text
text_of (ok t) = t
text_of _ = []

abbrev first_bytes : Text
first_bytes = text_of (receipt_bytes first_receipt)

put-read_example :
    ((put_approval_receipt small_platform renamed missing first_receipt).0
      ≡ ok (file_name first_receipt.request_digest))
    × (read_approval_receipt small_platform one_file first_receipt.request_digest
        ≡ ok first_receipt)
    × ((d : Text)
        → text_eq (file_name d) (file_name first_receipt.request_digest) ≡ false
        → read_approval_receipt small_platform one_file d
          ≡ read_approval_receipt small_platform (directory []) d)
unfolding approvals
put-read_example =
    put-read small_platform missing first_receipt first_bytes here refl refl (omega arith)
      (λ e m. absurd m)

digests_differ : first_receipt.request_digest ≢ wider_receipt.request_digest
digests_differ e = cc (ap (λ d. text_eq d first_receipt.request_digest) e)

abbrev first_file : Named
first_file = record {
  name = file_name first_receipt.request_digest;
  entry = regular (byte_length first_bytes) (a_receipt first_receipt);
}

first_kept : IsKept small_platform first_file
unfolding approvals
first_kept = record {
  size = byte_length first_bytes;
  receipt = first_receipt;
  is_file = refl;
  small = omega arith;
  valid = refl;
  named = refl;
}

put-reused_example :
    put_approval_receipt small_platform exists_already one_file wider_receipt
    ≡ (throw reused_request_id, one_file)
unfolding approvals first_kept
put-reused_example =
    put-reused small_platform exists_already one_file wider_receipt first_file one_put refl
      (inl refl) first_kept refl digests_differ

-- A receipt that denies, and one that approves the same request: the digest is that of the request.
abbrev denied_receipt : ApprovalReceipt
denied_receipt = record first_receipt { decision = denied }

-- A put of the second, after one of the first, replaces it.
overwritten :
    read_approval_receipt small_platform
      (put_approval_receipt small_platform renamed
        (put_approval_receipt small_platform renamed missing denied_receipt).1
        first_receipt).1
      first_receipt.request_digest
    ≡ ok first_receipt
unfolding approvals
overwritten = refl

-- Two puts of one request identifier that both read the directory before either renames: both pass
-- the loop, and both files are there.
both_pass :
    (check_candidates small_platform first_receipt [] ≡ ok tt)
    × (check_candidates small_platform wider_receipt [] ≡ ok tt)
both_pass = (refl, refl)
