-- ===== src/Subject/Laws.antt =====
-- What `createSubject` makes of an accepted payload (packages/shared/src/subject.ts).
use verglos_cli.Prelude.{
  any-In, leb_of_le, and_true, ℕ, zero, suc, ◌≤◌, ◌≡◌, refl, sym, ap, ◌∙◌, inl, inr, Bool, true,
  not, List, [], ◌∷◌, ◌++◌, arith, leb, ==_iff, length, length-append, In,
}
use mathlib.Core.List.{append_assoc}
use verglos_cli.Text.{Text, codes}
use verglos_cli.Text.Order.{text_eq_iff}
use verglos_cli.Formats.{is_hex, fits, times, literally, subject_kinds, subject_id}
use verglos_cli.Contracts.{
  Parsed, ok, invalid, unreadable, ◌>>=◌, accept_if_clean, assert_compatible, is_version,
  reader_version,
}
use verglos_cli.Contracts.Laws.{append-eq-nil, raise-eq-nil, accept-eq-ok}
use verglos_cli.Schema.Version.{parse_schema_version, classify_schema_compatibility}
use verglos_cli.Schema.Canonical.{canonicalize_json}
use verglos_cli.Subject.{
  SubjectPayload, repository_tree, package_payload, filesystem, sbom, artifact, oci_manifest,
  oci_index, kind_text, Subject,
}
use verglos_cli.Subject.Refine.{
  SubjectIssue, malformed_fields, refine_subject_payload, payload_fields, parse_payload,
}
use verglos_cli.Subject.Identity.{
  subject_identity_projection, subject_urn, create_subject_id, parse_document, parse_subject,
  create_subject,
}
use verglos_cli.Subject.Identity.Texts.{IsTextual, identity_text}

length-times : (n : ℕ) (p : ℕ → Bool) → length (times n p) ≡ n
length-times zero p = refl
length-times (suc n) p = ap suc (length-times n p)

length-fits : (ps : List (ℕ → Bool)) (s : Text) → fits ps s ≡ true → length s ≡ length ps
length-fits [] [] h = refl
length-fits [] (c ∷ s) h = cc
length-fits (p ∷ ps) [] h = cc
length-fits (p ∷ ps) (c ∷ s) h = ap suc (length-fits ps s (ground (arith, h)))

fits-literally :
    (s t : Text) (ps : List (ℕ → Bool))
    → fits ps t ≡ true
    → fits (literally s ++ ps) (s ++ t) ≡ true
fits-literally [] t ps h = h
fits-literally (c ∷ s) t ps h = ground (arith, fits-literally s t ps h, (==_iff c c).1 refl)

fits-urn :
    (u k c h : Text)
    → fits (times 64 is_hex) h ≡ true
    → fits (literally (u ++ (k ++ c)) ++ times 64 is_hex) (u ++ (k ++ (c ++ h))) ≡ true
fits-urn u k c h f =
    let same = append_assoc u (k ++ c) h ∙ ap (λ x. u ++ x) (append_assoc k c h) in
    rw (sym same) (fits-literally (u ++ (k ++ c)) h (times 64 is_hex) f)

kind_lem : (p : SubjectPayload) → (length (kind_text p) ≤ 15) × In (kind_text p) subject_kinds
kind_lem (repository_tree r) = (omega arith, inl refl)
kind_lem (package_payload r) = (omega arith, inr (inl refl))
kind_lem (filesystem r) = (omega arith, inr (inr (inl refl)))
kind_lem (sbom r) = (omega arith, inr (inr (inr (inl refl))))
kind_lem (artifact r) = (omega arith, inr (inr (inr (inr (inl refl)))))
kind_lem (oci_manifest r) = (omega arith, inr (inr (inr (inr (inr (inl refl))))))
kind_lem (oci_index r) = (omega arith, inr (inr (inr (inr (inr (inr (inl refl)))))))

length-urn : (k h : Text) → length k ≤ 15 → length h ≡ 64 → length (subject_urn k h) ≤ 180
length-urn k h a b = omega (arith, a, b, length-append k (codes ":sha256:" ++ h))

-- The identifier of each kind has the format of SubjectIdSchema.
urn-subject_id :
    (p : SubjectPayload) (h : Text)
    → fits (times 64 is_hex) h ≡ true
    → subject_id (subject_urn (kind_text p) h) ≡ true
unfolding subject_id
urn-subject_id p h f =
    let (small, kind) = kind_lem p in
    let size = length-fits (times 64 is_hex) h f ∙ length-times 64 is_hex in
    and_true (leb (length (subject_urn (kind_text p) h)) 180) _
      (leb_of_le (length (subject_urn (kind_text p) h)) 180 (length-urn (kind_text p) h small size))
      (any-In
        (λ x.
          fits
            (literally (codes "urn:verglos:subject:" ++ (x ++ codes ":sha256:")) ++ times 64 is_hex)
            (subject_urn (kind_text p) h))
        subject_kinds (kind_text p) kind
        (fits-urn (codes "urn:verglos:subject:") (kind_text p) (codes ":sha256:") h f))

refined-ok :
    (m : Parsed SubjectIssue (List SubjectIssue)) (rows : List SubjectIssue) (p : SubjectPayload)
    {q : SubjectPayload}
    → (m >>= (λ refined. accept_if_clean (rows ++ refined) p)) ≡ ok q
    → (m ≡ ok []) × (rows ≡ [])
refined-ok (ok is) rows p h =
    let (clean, _) = accept-eq-ok (rows ++ is) p h in
    let (a, b) = append-eq-nil rows is clean in (ap (λ x. ok x) b, a)
refined-ok (invalid is) rows p h = cc
refined-ok (unreadable c) rows p h = cc

module _ (is_ip : Text → ℕ) where
  -- What an accepted payload has passed.
  pub parse_payload-ok :
      (p q : SubjectPayload)
      → parse_payload is_ip p ≡ ok q
      → (refine_subject_payload p ≡ ok []) × (payload_fields is_ip p ≡ true)
  unfolding parse_payload
  parse_payload-ok p q h =
      let (refined, fields) = refined-ok (refine_subject_payload p) _ p h in
      let (invalid_fields, _) =
        raise-eq-nil ((not (payload_fields is_ip p), malformed_fields) ∷ []) fields in
      (refined, ground (arith, invalid_fields))

  module _ (sha256_hex : Text → Text) where
    create_subject_id_lem :
        (p : SubjectPayload) (t : Text)
        → parse_payload is_ip p ≡ ok p
        → canonicalize_json (subject_identity_projection p) ≡ ok t
        → create_subject_id is_ip sha256_hex p ≡ ok (subject_urn (kind_text p) (sha256_hex t))
    unfolding create_subject_id
    create_subject_id_lem p t accepted written = rw (accepted, written) refl

    abbrev made_of : SubjectPayload → Text → Subject
    made_of p h = record {
      schema_version = reader_version;
      subject_id = subject_urn (kind_text p) h;
      payload = p;
    }

    parsed_back :
        (p : SubjectPayload) (h : Text)
        → fits (times 64 is_hex) h ≡ true
        → refine_subject_payload p ≡ ok []
        → payload_fields is_ip p ≡ true
        → create_subject_id is_ip sha256_hex p ≡ ok (subject_urn (kind_text p) h)
        → parse_subject is_ip sha256_hex (made_of p h) ≡ ok (made_of p h)
    unfolding parse_subject parse_document is_version assert_compatible parse_schema_version
        classify_schema_compatibility
    parsed_back p h f refined fields made =
        let own =
          (text_eq_iff (subject_urn (kind_text p) h) (subject_urn (kind_text p) h)).1 refl in
        rw (refined, urn-subject_id p h f, fields, made, own) refl

    created :
        (p : SubjectPayload) (h : Text)
        → parse_payload is_ip p ≡ ok p
        → create_subject_id is_ip sha256_hex p ≡ ok (subject_urn (kind_text p) h)
        → parse_subject is_ip sha256_hex (made_of p h) ≡ ok (made_of p h)
        → create_subject is_ip sha256_hex p ≡ ok (made_of p h)
    unfolding create_subject
    created p h accepted made parsed = rw (accepted, made, parsed) refl

    -- On an accepted payload whose texts are Unicode, and with a hash that prints 64 hexadecimal
    -- digits, `createSubject` returns a subject with this payload, its identifier is the one that
    -- `createSubjectId` derives, and `parseSubject` returns the subject as it is.
    pub create_subject-parse :
        (p : SubjectPayload)
        → ((t : Text) → fits (times 64 is_hex) (sha256_hex t) ≡ true)
        → parse_payload is_ip p ≡ ok p
        → IsTextual p
        → (s : Subject) × (create_subject is_ip sha256_hex p ≡ ok s)
          × (s.payload ≡ p)
          × (create_subject_id is_ip sha256_hex p ≡ ok s.subject_id)
          × (parse_subject is_ip sha256_hex s ≡ ok s)
    create_subject-parse p hash accepted textual =
        let (refined, fields) = parse_payload-ok p p accepted in
        let (t, written) = identity_text is_ip p fields textual in
        let made = create_subject_id_lem p t accepted written in
        let parsed = parsed_back p (sha256_hex t) (hash t) refined fields made in
        (
          made_of p (sha256_hex t),
          created p (sha256_hex t) accepted made parsed,
          refl,
          made,
          parsed,
        )
