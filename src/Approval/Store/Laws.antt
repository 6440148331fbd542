-- ===== src/Approval/Store/Laws.antt =====
-- When a put on a store of receipts succeeds, and what it changes
-- (packages/shared/src/approval-store.ts).
use verglos_cli.Prelude.{
  ltb_of_le, ℕ, ◌≤◌, ◌≡◌, refl, sym, ap, ◌∙◌, ◌≢◌, ◌⊎◌, inl, inr, true, false, some, List, [], ◌∷◌,
  arith, ltb, Bool-cases, In, All,
}
use verglos_cli.Text.{Text, text_eq}
use verglos_cli.Text.Order.{text_eq_iff}
use verglos_cli.Contracts.{ok, ◌>>=◌}
use verglos_cli.Contracts.Laws.{raise-eq-nil}
use verglos_cli.Formats.{is_sha256_ref}
use verglos_cli.Schema.Canonical.{byte_length}
use verglos_cli.Approval.{
  Platform, ApprovalReceipt, receipt_issues, receipt_rows, reused_request_id, throw,
}
use verglos_cli.Approval.Store.{
  max_receipt_bytes, a_receipt, Entry, regular, Named, Root, missing, not_directory, directory,
  Outcome, file_name, receipt_path, assert_root, find, replace, RenameOutcome, renamed,
  validate_receipt, check_reuse, check_candidate, check_candidates, receipt_bytes, bounded,
  or_leave, commit, put_approval_receipt, read_approval_receipt,
}
use verglos_cli.Approval.Store.Kept.{validate_receipt-ok, IsKept, IsStore, check_candidate-IsKept}
use verglos_cli.Approval.Store.Invariant.{Reach, Reach-IsStore}

find-replace :
    (name : Text) (entry : Entry) (es : List Named) → find name (replace name entry es) ≡ some entry
find-replace name entry [] = rw ((text_eq_iff name name).1 refl) refl
find-replace name entry (e ∷ es) =
    ground (arith, find-replace name entry es, (text_eq_iff name name).1 refl)

find-replace_other :
    (other name : Text) (entry : Entry) (es : List Named)
    → text_eq other name ≡ false
    → find other (replace name entry es) ≡ find other es
find-replace_other other name entry [] h = rw h refl
find-replace_other other name entry (e ∷ es) h = ground (
  arith,
  find-replace_other other name entry es h,
  h,
  text_eq_iff name e.name,
  text_eq_iff other e.name,
  text_eq_iff other name,
)

receipt_path-of :
    (p : Platform) (r : ApprovalReceipt)
    → receipt_issues p r ≡ []
    → receipt_path r.request_digest ≡ ok (file_name r.request_digest)
unfolding receipt_path receipt_issues
receipt_path-of p r h =
    let rows = raise-eq-nil (receipt_rows p r) h in
    let shape : is_sha256_ref r.request_digest ≡ true = ground (arith, rows.0) in rw shape refl

-- The files that a put finds under a root.
abbrev pub entries : Root → List Named
entries (directory es) = es
entries _ = []

module _ (p : Platform) where
  -- No file of the store has the receipt's request identifier and another digest.
  abbrev pub IsFree : List Named → ApprovalReceipt → Type 0
  IsFree es r =
      (e : Named)
      → In e es
      → (k : IsKept p e) → k.receipt.request.request_id ≡ r.request.request_id
      → k.receipt.request_digest ≡ r.request_digest

  check_reuse-free :
      (r c : ApprovalReceipt)
      → (c.request.request_id ≡ r.request.request_id → c.request_digest ≡ r.request_digest)
      → check_reuse r c ≡ ok tt
  check_reuse-free r c h = ground (
    arith,
    h,
    text_eq_iff c.request.request_id r.request.request_id,
    text_eq_iff c.request_digest r.request_digest,
  )

  check_candidates-free :
      (r : ApprovalReceipt) (es : List Named)
      → All (IsKept p) es
      → IsFree es r
      → check_candidates p r es ≡ ok tt
  check_candidates-free r [] kept free = refl
  check_candidates-free r (e ∷ es) (k, kept) free =
      let first =
        check_candidate-IsKept p r e k ∙ check_reuse-free r k.receipt (free e (inl refl) k) in
      rw first (check_candidates-free r es kept (λ f m. free f (inr m)))

  check_reuse-reused :
      (r c : ApprovalReceipt)
      → c.request.request_id ≡ r.request.request_id
      → c.request_digest ≢ r.request_digest
      → check_reuse r c ≡ throw reused_request_id
  check_reuse-reused r c h d = ground (
    arith,
    h,
    d,
    text_eq_iff c.request.request_id r.request.request_id,
    text_eq_iff c.request_digest r.request_digest,
  )

  check_reuse-cases :
      (r c : ApprovalReceipt)
      → (check_reuse r c ≡ ok tt) ⊎ (check_reuse r c ≡ throw reused_request_id)
  check_reuse-cases r c = ground arith

  -- A file with the receipt's request identifier and another digest stops the loop.
  check_candidates-reused :
      (r : ApprovalReceipt) (es : List Named) (e : Named)
      → All (IsKept p) es
      → In e es
      → (k : IsKept p e) → k.receipt.request.request_id ≡ r.request.request_id
      → k.receipt.request_digest ≢ r.request_digest
      → check_candidates p r es ≡ throw reused_request_id
  check_candidates-reused r [] e kept m k h d = absurd m
  check_candidates-reused r (x ∷ es) e (kx, kept) (inl s) k h d =
      let stop =
        ap (check_candidate p r) (sym s)
        ∙ check_candidate-IsKept p r e k
        ∙ check_reuse-reused r k.receipt h d in
      rw stop refl
  check_candidates-reused r (x ∷ es) e (kx, kept) (inr m) k h d =
      elim (check_reuse-cases r kx.receipt) [
        | inl free ↦
            rw (check_candidate-IsKept p r x kx ∙ free)
              (check_candidates-reused r es e kept m k h d)
        | inr stop ↦ rw (check_candidate-IsKept p r x kx ∙ stop) refl
      ]

  files_of : (root : Root) → IsStore p root → All (IsKept p) (entries root)
  files_of (directory es) s = s.0
  files_of missing s = tt
  files_of not_directory s = absurd s

  opened : (root : Root) → IsStore p root → assert_root true root ≡ ok (entries root)
  opened (directory es) h = refl
  opened missing h = refl
  opened not_directory h = absurd h

  -- A put whose tests pass comes to its rename.
  put_lem :
      (o : RenameOutcome) (root : Root) (r : ApprovalReceipt)
      → IsStore p root
      → validate_receipt p r ≡ ok r
      → put_approval_receipt p o root r
        ≡ or_leave (check_candidates p r (entries root)) (directory (entries root)) λ _.
          or_leave
            (receipt_bytes r >>= bounded)
            (directory (entries root))
            λ bytes. commit p o (entries root) (file_name r.request_digest) r bytes
  unfolding put_approval_receipt
  put_lem o root r s valid =
      let (_, clean, _) = validate_receipt-ok p r r valid in
      rw (valid, receipt_path-of p r clean, opened root s) refl

  put_free :
      (root : Root) (r : ApprovalReceipt) (bytes : Text)
      → IsStore p root
      → validate_receipt p r ≡ ok r
      → receipt_bytes r ≡ ok bytes
      → byte_length bytes ≤ max_receipt_bytes
      → IsFree (entries root) r
      → put_approval_receipt p renamed root r ≡ (
        ok (file_name r.request_digest),
        directory (
            replace
              (file_name r.request_digest)
              (regular (byte_length bytes) (a_receipt r))
              (entries root)),
      )
  put_free root r bytes s valid written fits free =
      let passes = check_candidates-free r (entries root) (files_of root s) free in
      let size = ltb_of_le (byte_length bytes) max_receipt_bytes fits in
      put_lem renamed root r s valid ∙ rw (passes, written, size) refl

  read_replaced :
      (r : ApprovalReceipt) (size : ℕ) (es : List Named)
      → validate_receipt p r ≡ ok r
      → ltb max_receipt_bytes size ≡ false
      → read_approval_receipt p
          (directory (replace (file_name r.request_digest) (regular size (a_receipt r)) es))
          r.request_digest
        ≡ ok r
  unfolding read_approval_receipt
  read_replaced r size es valid small =
      let (_, clean, _) = validate_receipt-ok p r r valid in
      let there = find-replace (file_name r.request_digest) (regular size (a_receipt r)) es in
      let own = (text_eq_iff r.request_digest r.request_digest).1 refl in
      rw (receipt_path-of p r clean, there, small, clean, valid, own) refl

  read_other :
      (d name : Text) (entry : Entry) (es : List Named)
      → text_eq (file_name d) name ≡ false
      → read_approval_receipt p (directory (replace name entry es)) d
        ≡ read_approval_receipt p (directory es) d
  unfolding read_approval_receipt receipt_path
  read_other d name entry es h = elim (Bool-cases (is_sha256_ref d)) [
    | inl e ↦ rw (e, find-replace_other (file_name d) name entry es h) refl
    | inr e ↦ rw e refl
  ]

  -- On a store that puts have made, a valid receipt whose text fits and whose request identifier
  -- has no other digest there is put if the rename succeeds, and from then on a read of its digest
  -- returns it, and a read of a digest with another file name finds what it found in the files.
  pub put-read :
      (root : Root) (r : ApprovalReceipt) (bytes : Text)
      → Reach p missing root
      → validate_receipt p r ≡ ok r
      → receipt_bytes r ≡ ok bytes
      → byte_length bytes ≤ max_receipt_bytes
      → IsFree (entries root) r
      → ((put_approval_receipt p renamed root r).0 ≡ ok (file_name r.request_digest))
        × (read_approval_receipt p (put_approval_receipt p renamed root r).1 r.request_digest
            ≡ ok r)
        × ((d : Text)
            → text_eq (file_name d) (file_name r.request_digest) ≡ false
            → read_approval_receipt p (put_approval_receipt p renamed root r).1 d
              ≡ read_approval_receipt p (directory (entries root)) d)
  put-read root r bytes reach valid written fits free =
      let done = put_free root r bytes (Reach-IsStore p root reach) valid written fits free in
      let size = ltb_of_le (byte_length bytes) max_receipt_bytes fits in
      let entry = regular (byte_length bytes) (a_receipt r) in
      (
        ap (λ (x : Outcome). x.0) done,
        ap (λ (x : Outcome). read_approval_receipt p x.1 r.request_digest) done
            ∙ read_replaced r (byte_length bytes) (entries root) valid size,
        λ d other.
            ap (λ (x : Outcome). read_approval_receipt p x.1 d) done
            ∙ read_other d (file_name r.request_digest) entry (entries root) other,
      )

  -- On a store that puts have made, a put whose request identifier is that of a stored receipt with
  -- another digest is refused as a reuse, however the rename would end, and the files stay as they are.
  pub put-reused :
      (o : RenameOutcome) (root : Root) (r : ApprovalReceipt) (e : Named)
      → Reach p missing root
      → validate_receipt p r ≡ ok r
      → In e (entries root)
      → (k : IsKept p e) → k.receipt.request.request_id ≡ r.request.request_id
      → k.receipt.request_digest ≢ r.request_digest
      → put_approval_receipt p o root r ≡ (throw reused_request_id, root)
  put-reused o root r e reach valid m k h d =
      let s = Reach-IsStore p root reach in
      let stop = check_candidates-reused r (entries root) e (files_of root s) m k h d in
      put_lem o root r s valid ∙ rw stop (same_root root m)
    where
      same_root :
          (root : Root)
          → In e (entries root)
          → ◌≡◌ {A = Outcome}
              (throw reused_request_id, directory (entries root))
              (throw reused_request_id, root)
      same_root (directory es) m = refl
      same_root missing m = absurd m
      same_root not_directory m = absurd m
