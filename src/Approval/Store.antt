-- ===== src/Approval/Store.antt =====
-- packages/shared/src/approval-store.ts: the directory of approval receipts. A file is what `lstat`
-- and `JSON.parse` make of it, and a JSON value that is no receipt is told apart only as such.
-- The temporary file of a put is left out: its name does not end in ".json", so no function reads
-- it, and it is gone when the put returns. What `rename` answers is an argument of the put; that another
-- call on files fails is not modelled. A put is one step: the source reads the directory and renames
-- later without a lock, and puts that run interleaved are not modelled.
pub mod Kept
pub mod Invariant
pub mod Laws
use verglos_cli.Prelude.{
  ℕ, zero, suc, Bool, true, false, not, ◌&&◌, ◌||◌, Option, none, some, List, [], ◌∷◌, ◌++◌, ltb,
  if◌then◌else◌,
}
use verglos_cli.Text.{Text, codes, text_eq}
use verglos_cli.Formats.{is_sha256_ref}
use verglos_cli.Contracts.{Parsed, ok, invalid, unreadable, ◌>>=◌}
use verglos_cli.Schema.Canonical.{byte_length, canonicalize_json}
use verglos_cli.Approval.{
  Platform, ApprovalReceipt, ApprovalError, invalid_digest, digest_mismatch, root_not_directory,
  missing_entry, unsafe_entry, invalid_json, reused_request_id, oversized, different_content,
  unbounded_file, key_mismatch, rename_failed, malformed, throw, or_throw, parse_approval_receipt,
  approval_request_digest, receipt_json,
}

-- MAX_RECEIPT_BYTES
abbrev pub max_receipt_bytes : ℕ
max_receipt_bytes = 262144

pub data Content : Type 0 where
  not_json other_json : Content
  a_receipt : ApprovalReceipt → Content

-- A directory entry: a regular file with its size, or something else.
pub data Entry : Type 0 where
  regular : ℕ → Content → Entry
  special : Entry

pub record Named : Type 0 where
  pub name : Text
  pub entry : Entry

pub data Root : Type 0 where
  missing not_directory : Root
  directory : List Named → Root

-- `text.slice(n)`
abbrev pub drop : ℕ → Text → Text
drop zero s = s
drop (suc n) [] = []
drop (suc n) (c ∷ s) = drop n s

abbrev pub file_name : Text → Text
file_name digest = drop 7 digest ++ codes ".json"

-- `name.endsWith(".json")`
abbrev pub ends_with_json : Text → Bool
ends_with_json [] = false
ends_with_json (c ∷ s) = text_eq (c ∷ s) (codes ".json") || ends_with_json s

-- `receiptPath`, within the root.
unfoldable pub receipt_path : Text → Parsed ApprovalError Text
receipt_path digest = if is_sha256_ref digest then ok (file_name digest) else throw invalid_digest

-- `assertRoot`: with `create`, a missing root becomes an empty directory.
abbrev pub assert_root : Bool → Root → Parsed ApprovalError (List Named)
assert_root create (directory es) = ok es
assert_root create not_directory = throw root_not_directory
assert_root true missing = ok []
assert_root false missing = throw root_not_directory

abbrev pub find : Text → List Named → Option Entry
find name [] = none
find name (e ∷ es) = let rest = find name es in if text_eq name e.name then some e.entry else rest

-- `rename` onto a name: the entry of that name is replaced, or a new one is made.
abbrev pub replace : Text → Entry → List Named → List Named
replace name entry [] = record { name = name; entry = entry } ∷ []
replace name entry (e ∷ es) =
    let rest = replace name entry es in
    if text_eq name e.name then record { name = name; entry = entry } ∷ es else e ∷ rest

-- How `rename` ends.
pub data RenameOutcome : Type 0 where
  renamed exists_already failed : RenameOutcome

abbrev pub check_digest : ApprovalReceipt → Text → Parsed ApprovalError ApprovalReceipt
check_digest r digest = if text_eq r.request_digest digest then ok r else throw digest_mismatch

-- What the put makes of one other file: an error, or nothing.
abbrev pub check_reuse : ApprovalReceipt → ApprovalReceipt → Parsed ApprovalError (Unit {0})
check_reuse parsed candidate =
    if text_eq candidate.request.request_id parsed.request.request_id
      && not (text_eq candidate.request_digest parsed.request_digest)
    then throw reused_request_id
    else ok tt

abbrev pub check_key : Text → ApprovalReceipt → Parsed ApprovalError ApprovalReceipt
check_key digest r = if text_eq r.request_digest digest then ok r else throw key_mismatch

abbrev pub found : Option Entry → Parsed ApprovalError Entry
found none = throw missing_entry
found (some e) = ok e

-- The bytes that a put writes: the canonical text and a line feed.
unfoldable pub receipt_bytes : ApprovalReceipt → Parsed ApprovalError Text
receipt_bytes r = do t ← or_throw (canonicalize_json (receipt_json r)); ok (t ++ codes "\n")

abbrev pub bounded : Text → Parsed ApprovalError Text
bounded bytes = if ltb max_receipt_bytes (byte_length bytes) then throw oversized else ok bytes

abbrev pub same_content : ApprovalReceipt → ApprovalReceipt → Parsed ApprovalError (Unit {0})
same_content existing parsed = do
  a ← or_throw (canonicalize_json (receipt_json existing))
  b ← or_throw (canonicalize_json (receipt_json parsed))
  if text_eq a b then ok tt else throw different_content

-- A result, and the root that the call leaves behind.
abbrev pub Outcome : Type 0
Outcome = Parsed ApprovalError Text × Root

-- An error is returned with the root as it then is.
abbrev pub or_leave {ℓ} : {A : Type ℓ} → Parsed ApprovalError A → Root → (A → Outcome) → Outcome
or_leave (ok a) root f = f a
or_leave (invalid is) root f = (invalid is, root)
or_leave (unreadable c) root f = (unreadable c, root)

module _ (p : Platform) where
  -- `validateReceipt`
  unfoldable pub validate_receipt : ApprovalReceipt → Parsed ApprovalError ApprovalReceipt
  validate_receipt receipt = do
    parsed ← parse_approval_receipt p receipt
    digest ← approval_request_digest p parsed.request
    check_digest parsed digest

  abbrev pub parse_content : Content → Parsed ApprovalError ApprovalReceipt
  parse_content not_json = throw invalid_json
  parse_content other_json = throw malformed
  parse_content (a_receipt r) = do c ← parse_approval_receipt p r; validate_receipt c

  abbrev pub read_bounded : ApprovalError → Entry → Parsed ApprovalError ApprovalReceipt
  read_bounded e special = throw e
  read_bounded e (regular size content) =
      if ltb max_receipt_bytes size then throw e else parse_content content

  abbrev pub check_candidate : ApprovalReceipt → Named → Parsed ApprovalError (Unit {0})
  check_candidate parsed e =
      if not (ends_with_json e.name)
      then ok tt
      else read_bounded unsafe_entry e.entry >>= check_reuse parsed

  -- The loop over the directory.
  abbrev pub check_candidates : ApprovalReceipt → List Named → Parsed ApprovalError (Unit {0})
  check_candidates parsed [] = ok tt
  check_candidates parsed (e ∷ es) = check_candidate parsed e >>= λ _. check_candidates parsed es

  -- `readApprovalReceipt`
  unfoldable pub read_approval_receipt : Root → Text → Parsed ApprovalError ApprovalReceipt
  read_approval_receipt root request_digest = do
    es ← assert_root false root
    name ← receipt_path request_digest
    entry ← found (find name es)
    receipt ← read_bounded unbounded_file entry
    check_key request_digest receipt

  -- The result of a put is the name of the file.
  abbrev pub commit : RenameOutcome → List Named → Text → ApprovalReceipt → Text → Outcome
  commit renamed es name parsed bytes =
      (ok name, directory (replace name (regular (byte_length bytes) (a_receipt parsed)) es))
  commit exists_already es name parsed bytes = (
    read_approval_receipt (directory es) parsed.request_digest
        >>= (λ existing. same_content existing parsed)
        >>= (λ _. ok name),
    directory es,
  )
  commit failed es name parsed bytes = (throw rename_failed, directory es)

  -- `putApprovalReceipt`, with no other put between its reading of the directory and its rename.
  unfoldable pub put_approval_receipt : RenameOutcome → Root → ApprovalReceipt → Outcome
  put_approval_receipt outcome root receipt = or_leave (validate_receipt receipt) root λ parsed.
      or_leave (receipt_path parsed.request_digest) root λ name.
        or_leave (assert_root true root) root λ es.
          or_leave (check_candidates parsed es) (directory es) λ _.
            or_leave (receipt_bytes parsed >>= bounded) (directory es)
              λ bytes. commit outcome es name parsed bytes
