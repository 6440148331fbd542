-- ===== src/Approval/Store/Kept.antt =====
-- The files that an approval store keeps, and what a put makes of them
-- (packages/shared/src/approval-store.ts).
use verglos_cli.Prelude.{
  ℕ, ◌≤◌, ◌≡◌, refl, sym, ap, ◌∙◌, ◌⊎◌, inl, inr, Bool, true, false, not, ◌&&◌, List, [], ◌∷◌, ◌++◌,
  arith, ltb, if◌then◌else◌, In, All,
}
use verglos_cli.Text.{Text, codes, text_eq}
use verglos_cli.Text.Order.{text_eq_iff}
use verglos_cli.Formats.{is_sha256_ref}
use verglos_cli.Contracts.{Parsed, ok, invalid, unreadable, ◌>>=◌}
use verglos_cli.Approval.{
  Platform, ApprovalReceipt, ApprovalError, receipt_issues, digest_mismatch, invalid_digest,
  reused_request_id, approval_request_digest,
}
use verglos_cli.Approval.Results.{accept-bind, bind-eq-ok, or_throw-eq-ok, throw_or-eq-ok}
use verglos_cli.Approval.Store.{
  max_receipt_bytes, a_receipt, Entry, regular, Named, Root, missing, not_directory, directory,
  file_name, drop, ends_with_json, receipt_path, replace, check_digest, validate_receipt,
  check_reuse, check_candidate, check_candidates,
}

pick :
    (b : Bool) (e new x : Named) (es rest : List Named)
    → (In e rest → (e ≡ new) ⊎ In e es)
    → In e (if b then new ∷ es else x ∷ rest)
    → (e ≡ new) ⊎ In e (x ∷ es)
pick true e new x es rest h (inl s) = inl s
pick true e new x es rest h (inr m) = inr (inr m)
pick false e new x es rest h (inl s) = inr (inl s)
pick false e new x es rest h (inr m) = elim (h m) [ inl s ↦ inl s | inr n ↦ inr (inr n) ]

pub In-replace :
    {e : Named} (name : Text) (entry : Entry) (es : List Named)
    → In e (replace name entry es)
    → (e ≡ record { name = name; entry = entry }) ⊎ In e es
In-replace name entry [] (inl h) = inl h
In-replace name entry [] (inr h) = absurd h
In-replace {e} name entry (x ∷ es) h =
    pick (text_eq name x.name) e _ x es (replace name entry es) (In-replace name entry es) h

pub ends_with_json-append : (s : Text) → ends_with_json (s ++ codes ".json") ≡ true
ends_with_json-append [] = refl
ends_with_json-append (c ∷ s) = ground (arith, ends_with_json-append s)

pub receipt_path-ok : (d name : Text) → receipt_path d ≡ ok name → file_name d ≡ name
unfolding receipt_path
receipt_path-ok d name h = (or_throw-eq-ok (is_sha256_ref d) (file_name d) invalid_digest h).1

module _ (p : Platform) where
  check_digest-ok :
      (m : Parsed ApprovalError Text) (r : ApprovalReceipt) {c : ApprovalReceipt}
      → (m >>= check_digest r) ≡ ok c
      → (m ≡ ok r.request_digest) × (r ≡ c)
  check_digest-ok (ok d) r h =
      let (same, returned) = or_throw-eq-ok (text_eq r.request_digest d) r digest_mismatch h in
      (ap (λ x. ok x) (sym ((text_eq_iff r.request_digest d).0 same)), returned)
  check_digest-ok (invalid is) r h = cc
  check_digest-ok (unreadable u) r h = cc

  -- A receipt that is validated is returned as it is, without issues, under its own digest.
  pub validate_receipt-ok :
      (r c : ApprovalReceipt)
      → validate_receipt p r ≡ ok c
      → (r ≡ c)
        × (receipt_issues p r ≡ [])
        × (approval_request_digest p r.request ≡ ok r.request_digest)
  unfolding validate_receipt
  validate_receipt-ok r c h =
      let (clean, rest) = accept-bind (receipt_issues p r) r _ h in
      let (digest, same) = check_digest-ok (approval_request_digest p r.request) r rest in
      (same, clean, digest)

  -- A file of the store: a valid receipt of bounded size under the name of its digest.
  pub record IsKept (e : Named) : Type 0 where
    pub size : ℕ
    pub receipt : ApprovalReceipt
    pub is_file : e.entry ≡ regular size (a_receipt receipt)
    pub small : size ≤ max_receipt_bytes
    pub valid : validate_receipt p receipt ≡ ok receipt
    pub named : e.name ≡ file_name receipt.request_digest

  -- Two receipts with one request identifier have one digest.
  abbrev pub OneDigest : List Named → Type 0
  OneDigest es =
      (e f : Named)
      → In e es
      → In f es
      → (ke : IsKept e) (kf : IsKept f)
      → ke.receipt.request.request_id ≡ kf.receipt.request.request_id
      → ke.receipt.request_digest ≡ kf.receipt.request_digest

  abbrev pub IsStore : Root → Type 0
  IsStore missing = Unit
  IsStore not_directory = ⊥
  IsStore (directory es) = All IsKept es × OneDigest es

  -- What the put makes of a file of the store.
  pub check_candidate-IsKept :
      (r : ApprovalReceipt) (e : Named) (k : IsKept e)
      → check_candidate p r e ≡ check_reuse r k.receipt
  check_candidate-IsKept r e k =
      let (_, clean, _) = validate_receipt-ok k.receipt k.receipt k.valid in
      let ends =
        ap ends_with_json k.named ∙ ends_with_json-append (drop 7 k.receipt.request_digest) in
      let small : ltb max_receipt_bytes k.size ≡ false = ground (arith, k.small) in
      rw (ends, k.is_file, small, clean, k.valid) refl

  check_candidates-In :
      (r : ApprovalReceipt) (es : List Named) (e : Named)
      → check_candidates p r es ≡ ok tt
      → In e es
      → check_candidate p r e ≡ ok tt
  check_candidates-In r [] e h m = absurd m
  check_candidates-In r (x ∷ es) e h (inl s) =
      let (_, first, _) = bind-eq-ok (check_candidate p r x) (λ _. check_candidates p r es) h in
      ap (check_candidate p r) s ∙ first
  check_candidates-In r (x ∷ es) e h (inr m) =
      let (_, _, rest) = bind-eq-ok (check_candidate p r x) (λ _. check_candidates p r es) h in
      check_candidates-In r es e rest m

  check_reuse-same :
      (r c : ApprovalReceipt)
      → check_reuse r c ≡ ok tt
      → c.request.request_id ≡ r.request.request_id
      → c.request_digest ≡ r.request_digest
  check_reuse-same r c h e =
      let (free, _) =
        throw_or-eq-ok
          (text_eq c.request.request_id r.request.request_id
            && not (text_eq c.request_digest r.request_digest))
          reused_request_id _ h in
      let same = (text_eq_iff c.request.request_id r.request.request_id).1 e in
      (text_eq_iff c.request_digest r.request_digest).0 (ground (arith, free, same))

  pub receipt_of :
      (name : Text) (size : ℕ) (r : ApprovalReceipt) (e : Named)
      → e ≡ record { name = name; entry = regular size (a_receipt r) }
      → (k : IsKept e) → k.receipt ≡ r
  receipt_of name size r e s k = entry_injective (sym k.is_file ∙ ap Named.entry s)
    where
      entry_injective :
          {m n : ℕ} {a b : ApprovalReceipt}
          → regular m (a_receipt a) ≡ regular n (a_receipt b)
          → a ≡ b
      entry_injective e = cc

  pub other_file :
      (r : ApprovalReceipt) (es : List Named) (f : Named) (k : IsKept f)
      → check_candidates p r es ≡ ok tt
      → In f es
      → k.receipt.request.request_id ≡ r.request.request_id
      → k.receipt.request_digest ≡ r.request_digest
  other_file r es f k passes m =
      check_reuse-same r k.receipt
        (sym (check_candidate-IsKept r f k) ∙ check_candidates-In r es f passes m)
