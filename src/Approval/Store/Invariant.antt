-- ===== src/Approval/Store/Invariant.antt =====
-- What holds of every approval store that puts have made (packages/shared/src/approval-store.ts).
use verglos_cli.Prelude.{
  le_of_ltb, ℕ, ◌≤◌, ◌≡◌, refl, sym, inl, inr, true, List, [], ◌∷◌, ltb, All, All-of_In, All-In,
}
use mathlib.Core.Path.{subst}
use verglos_cli.Text.{Text}
use verglos_cli.Contracts.{Parsed, ok, invalid, unreadable, ◌>>=◌}
use verglos_cli.Contracts.Laws.{ok_injective}
use verglos_cli.Schema.Canonical.{byte_length}
use verglos_cli.Approval.{Platform, ApprovalReceipt, ApprovalError, oversized}
use verglos_cli.Approval.Results.{bind-eq-ok, throw_or-eq-ok}
use verglos_cli.Approval.Store.{
  max_receipt_bytes, a_receipt, regular, Named, Root, missing, not_directory, directory, file_name,
  receipt_path, assert_root, replace, RenameOutcome, renamed, exists_already, failed,
  validate_receipt, check_candidates, receipt_bytes, bounded, Outcome, commit, or_leave,
  put_approval_receipt,
}
use verglos_cli.Approval.Store.Kept.{
  In-replace, receipt_path-ok, validate_receipt-ok, IsKept, OneDigest, IsStore, receipt_of,
  other_file,
}

module _ (p : Platform) where
  -- Puts on a root that run one after the other, in any order, with any answers of `rename`, where the
  -- other calls on files go through.
  pub data Step : Root → Root → Type 0 where
    put :
        (o : RenameOutcome) (root : Root) (r : ApprovalReceipt)
        → Step root (put_approval_receipt p o root r).1

  pub data Reach (start : Root) : Root → Type 0 where
    here : Reach start start
    next : {a b : Root} → Reach start a → Step a b → Reach start b

  or_leave-keeps :
      {A : Type 0} (Q : Root → Type 0) (m : Parsed ApprovalError A) (root : Root) (f : A → Outcome)
      → Q root
      → ((a : A) → m ≡ ok a → Q (f a).1)
      → Q (or_leave m root f).1
  or_leave-keeps Q (ok a) root f q h = h a refl
  or_leave-keeps Q (invalid is) root f q h = q
  or_leave-keeps Q (unreadable c) root f q h = q

  start-IsStore :
      (root : Root) (es : List Named)
      → IsStore p root
      → assert_root true root ≡ ok es
      → IsStore p (directory es)
  start-IsStore (directory fs) es s h = subst (λ x. IsStore p (directory x)) (ok_injective h) s
  start-IsStore not_directory es s h = absurd s
  start-IsStore missing [] s h = (tt, λ e f m. absurd m)
  start-IsStore missing (e ∷ es) s h = cc

  bounded-ok :
      (r : ApprovalReceipt) (bytes : Text)
      → (receipt_bytes r >>= bounded) ≡ ok bytes
      → byte_length bytes ≤ max_receipt_bytes
  bounded-ok r bytes h =
      let (t, written, fits) = bind-eq-ok (receipt_bytes r) bounded h in
      let (small, same) = throw_or-eq-ok (ltb max_receipt_bytes (byte_length t)) oversized _ fits in
      let eq : t ≡ bytes = ok_injective same in
      subst (λ x. byte_length x ≤ max_receipt_bytes) eq
        (le_of_ltb (byte_length t) max_receipt_bytes small)

  -- A receipt that passes the loop can be added to the files.
  added-IsStore :
      (es : List Named) (size : ℕ) (r : ApprovalReceipt)
      → IsStore p (directory es)
      → size ≤ max_receipt_bytes
      → validate_receipt p r ≡ ok r
      → check_candidates p r es ≡ ok tt
      → IsStore p (directory (replace (file_name r.request_digest) (regular size (a_receipt r)) es))
  added-IsStore es size r (kept, one) small valid passes = (all_kept, all_one)
    where
      name : Text
      name = file_name r.request_digest

      new : Named
      new = record { name = name; entry = regular size (a_receipt r) }

      new_kept : IsKept p new
      new_kept = record {
        size = size;
        receipt = r;
        is_file = refl;
        small = small;
        valid = valid;
        named = refl;
      }

      all_kept : All (IsKept p) (replace name (regular size (a_receipt r)) es)
      all_kept = All-of_In (replace name (regular size (a_receipt r)) es) λ e m.
          elim (In-replace name (regular size (a_receipt r)) es m) [
            | inl s ↦ subst (IsKept p) (sym s) new_kept
            | inr n ↦ All-In (IsKept p) es kept n
          ]

      all_one : OneDigest p (replace name (regular size (a_receipt r)) es)
      all_one e f me mf ke kf h = elim (In-replace name (regular size (a_receipt r)) es me) [
        | inl se ↦
            let re = receipt_of p name size r e se ke in
            elim (In-replace name (regular size (a_receipt r)) es mf) [
              | inl sf ↦ cc (re, receipt_of p name size r f sf kf)
              | inr nf ↦ cc (re, other_file p r es f kf passes nf (cc (re, h)))
            ]
        | inr ne ↦ elim (In-replace name (regular size (a_receipt r)) es mf) [
          | inl sf ↦
              let rf = receipt_of p name size r f sf kf in
              cc (rf, other_file p r es e ke passes ne (cc (rf, h)))
          | inr nf ↦ one e f ne nf ke kf h
        ]
      ]

  commit-IsStore :
      (o : RenameOutcome) (es : List Named) (r : ApprovalReceipt) (bytes : Text)
      → IsStore p (directory es)
      → byte_length bytes ≤ max_receipt_bytes
      → validate_receipt p r ≡ ok r
      → check_candidates p r es ≡ ok tt
      → IsStore p (commit p o es (file_name r.request_digest) r bytes).1
  commit-IsStore renamed es r bytes s small valid passes =
      added-IsStore es (byte_length bytes) r s small valid passes
  commit-IsStore exists_already es r bytes s small valid passes = s
  commit-IsStore failed es r bytes s small valid passes = s

  pub put_approval_receipt-IsStore :
      (o : RenameOutcome) (root : Root) (r : ApprovalReceipt)
      → IsStore p root
      → IsStore p (put_approval_receipt p o root r).1
  unfolding put_approval_receipt
  put_approval_receipt-IsStore o root r s =
      or_leave-keeps (IsStore p) (validate_receipt p r) root _ s λ parsed valid.
        let (same, clean, digest) = validate_receipt-ok p r parsed valid in
        or_leave-keeps (IsStore p) (receipt_path parsed.request_digest) root _ s λ name named.
          or_leave-keeps (IsStore p) (assert_root true root) root _ s λ es opened.
            let store = start-IsStore root es s opened in
            or_leave-keeps (IsStore p) (check_candidates p parsed es) (directory es) _ store
              λ u passes.
                or_leave-keeps (IsStore p) (receipt_bytes parsed >>= bounded) (directory es) _ store
                  λ bytes fits.
                    subst (λ n. IsStore p (commit p o es n parsed bytes).1)
                      (receipt_path-ok parsed.request_digest name named)
                      (commit-IsStore o es parsed bytes store (bounded-ok parsed bytes fits)
                        (subst (λ x. validate_receipt p x ≡ ok parsed) same valid) passes)

  -- Every store that puts have made which ran one after the other (none between the reading of the
  -- directory and the rename of another), in which no call on files failed but `rename`, whatever it
  -- answered, holds valid receipts of bounded size, each under the name of its own digest, and no two
  -- receipts with one request identifier and different digests.
  pub Reach-IsStore : (root : Root) → Reach missing root → IsStore p root
  Reach-IsStore root here = tt
  Reach-IsStore root (next r (put o a c)) = put_approval_receipt-IsStore o a c (Reach-IsStore a r)
