-- ===== src/Subject/Identity/Texts.antt =====
-- Where the identity of a subject has a canonical text (`subjectIdentityProjection` of
-- packages/shared/src/subject.ts).
use verglos_cli.Prelude.{
  both, ℕ, ◌≤◌, ◌≡◌, refl, Bool, true, ◌&&◌, Option, none, some, List, [], ◌∷◌, arith, all, All,
}
use verglos_cli.Text.{Text, codes}
use verglos_cli.Formats.{length_in, digest_length, content_digest, ContentDigest}
use verglos_cli.Contracts.{if_present, size_in, Parsed, ok, invalid, unreadable}
use verglos_cli.Schema.Json.{Json, json_string, json_object, strings, members}
use verglos_cli.Schema.Json.Measures.{IsShallow, AreShallow, HasShallow}
use verglos_cli.Schema.Canonical.{CanonicalError, valid_unicode, canonicalize_json}
use verglos_cli.Schema.Canonical.Laws.{
  IsUnicode, HasUnicode, ItemsHaveUnicode, MembersHaveUnicode, valid_unicode-IsUnicode, is_ok,
  canonicalize_json-ok_iff,
}
use verglos_cli.Subject.{
  GitObjectId, OciPlatform, SubjectPayload, repository_tree, package_payload, filesystem, sbom,
  artifact, oci_manifest, oci_index, kind_text,
}
use verglos_cli.Subject.Path.{no_controls}
use verglos_cli.Subject.Fields.{
  git_digits, platform_token, ecosystem_name, bounded_text, git_object_id, oci_platform,
  repository_tree_fields, package_fields, filesystem_fields, sbom_fields, artifact_fields,
  oci_manifest_fields, oci_reference, is_safe_count, oci_index_fields,
}
use verglos_cli.Subject.Registry.{is_registry}
use verglos_cli.Subject.Refine.{
  compact, optional_text, optional_texts, platform_entries, platform_json, payload_fields,
}
use verglos_cli.Subject.Identity.{
  algorithm_text, git_algorithm_text, digest_of, digest_json, git_json, optional_digest,
  identity_entries, subject_identity_projection,
}
use verglos_cli.Subject.Identity.Unicode.{
  literal, hex-IsUnicode, algorithm-IsUnicode, git_algorithm-IsUnicode, format-IsUnicode,
  ecosystem-IsUnicode, platform_token-IsUnicode, bounded_text-IsUnicode,
}

-- A value that can stand at a depth of a canonical text.
abbrev CanStand : ℕ → Json → Type 0
CanStand d v = IsShallow 64 d v × HasUnicode v

abbrev ValueCan : ℕ → Option Json → Type 0
ValueCan d none = Unit
ValueCan d (some v) = CanStand d v

abbrev EntryCan : ℕ → Text × Option Json → Type 0
EntryCan d e = (valid_unicode e.0 ≡ true) × ValueCan d e.1

object-CanStand :
    (d : ℕ) (es : List (Text × Option Json))
    → All (EntryCan d) es
    → HasShallow 64 d (members (compact es)) × MembersHaveUnicode (members (compact es))
object-CanStand d [] h = (tt, tt)
object-CanStand d ((k, none) ∷ es) (_, h) = object-CanStand d es h
object-CanStand d ((k, some v) ∷ es) ((u, (s, w)), h) =
    let (a, b) = object-CanStand d es h in ((s, a), (literal k u, w, b))

strings-CanStand :
    (d : ℕ) (ts : List Text)
    → d ≤ 64
    → All IsUnicode ts
    → AreShallow 64 d (strings ts) × ItemsHaveUnicode (strings ts)
strings-CanStand d [] h u = (tt, tt)
strings-CanStand d (t ∷ ts) h (u, us) = let (a, b) = strings-CanStand d ts h us in ((h, a), (u, b))

digest-CanStand :
    (algorithm value : Text)
    → IsUnicode algorithm
    → IsUnicode value
    → CanStand 1 (digest_of algorithm value)
digest-CanStand a v ua uv = (
  (omega arith, (omega arith, (omega arith, tt))),
  (literal (codes "algorithm") refl, ua, (literal (codes "value") refl, uv, tt)),
)

digest_json-CanStand : (d : ContentDigest) → content_digest d ≡ true → CanStand 1 (digest_json d)
unfolding content_digest
digest_json-CanStand d h =
    digest-CanStand (algorithm_text d.algorithm) d.value (algorithm-IsUnicode d.algorithm)
      (hex-IsUnicode (digest_length d.algorithm) d.value h)

git_json-CanStand : (g : GitObjectId) → git_object_id g ≡ true → CanStand 1 (git_json g)
unfolding git_object_id
git_json-CanStand g h =
    digest-CanStand (git_algorithm_text g.algorithm) g.value (git_algorithm-IsUnicode g.algorithm)
      (hex-IsUnicode (git_digits g.algorithm) g.value h)

optional-ValueCan :
    (d : ℕ) (f : Text → Bool) (o : Option Text)
    → d ≤ 64
    → ((s : Text) → f s ≡ true → IsUnicode s)
    → if_present f o ≡ true
    → ValueCan d (optional_text o)
optional-ValueCan d f none h g p = tt
optional-ValueCan d f (some s) h g p = (h, g s p)

tokens-IsUnicode : (ts : List Text) → all platform_token ts ≡ true → All IsUnicode ts
tokens-IsUnicode [] h = tt
tokens-IsUnicode (t ∷ ts) h =
    let (first, rest) = both (platform_token t) _ h in
    (platform_token-IsUnicode t first, tokens-IsUnicode ts rest)

features-ValueCan :
    (o : Option (List Text))
    → if_present (λ fs. size_in 0 64 fs && all platform_token fs) o ≡ true
    → ValueCan 2 (optional_texts o)
features-ValueCan none h = tt
features-ValueCan (some ts) h =
    let (_, tokens) = both (size_in 0 64 ts) _ h in
    let (a, b) = strings-CanStand 3 ts (omega arith) (tokens-IsUnicode ts tokens) in
    ((omega arith, a), b)

-- A platform whose `osVersion`, the one text without a test of its Unicode, passes it.
platform-CanStand :
    (p : OciPlatform)
    → oci_platform p ≡ true
    → if_present valid_unicode p.os_version ≡ true
    → CanStand 1 (platform_json p)
unfolding oci_platform platform_json
platform-CanStand p h v =
    let (os, h1) = both (platform_token p.os) _ h in
    let (architecture, h2) = both (platform_token p.architecture) _ h1 in
    let (variant, h3) = both (if_present platform_token p.variant) _ h2 in
    let (_, features) =
      both (if_present (λ v. length_in 1 128 v && no_controls v) p.os_version) _ h3 in
    let inner = object-CanStand 2 (platform_entries p) (
      (refl, (omega arith, platform_token-IsUnicode p.os os)),
      (
        (refl, (omega arith, platform_token-IsUnicode p.architecture architecture)),
        (
          (
            refl,
            optional-ValueCan 2 platform_token p.variant (omega arith) platform_token-IsUnicode
                variant,
          ),
          (
            (
              refl,
              optional-ValueCan 2 valid_unicode p.os_version (omega arith) valid_unicode-IsUnicode
                  v,
            ),
            ((refl, features-ValueCan p.os_features features), tt),
          ),
        ),
      ),
    ) in
    ((omega arith, inner.0), inner.1)

-- The kinds, and the one text that the schemas let through although it may not be Unicode.
abbrev pub IsTextual : SubjectPayload → Type 0
IsTextual (oci_manifest r) = if_present valid_unicode r.platform.os_version ≡ true
IsTextual _ = Unit

kind-IsUnicode : (p : SubjectPayload) → valid_unicode (kind_text p) ≡ true
kind-IsUnicode (repository_tree r) = refl
kind-IsUnicode (package_payload r) = refl
kind-IsUnicode (filesystem r) = refl
kind-IsUnicode (sbom r) = refl
kind-IsUnicode (artifact r) = refl
kind-IsUnicode (oci_manifest r) = refl
kind-IsUnicode (oci_index r) = refl

worktree-ValueCan :
    (o : Option ContentDigest) → if_present content_digest o ≡ true → ValueCan 1 (optional_digest o)
worktree-ValueCan none h = tt
worktree-ValueCan (some d) h = digest_json-CanStand d h

module _ (is_ip : Text → ℕ) where
  identity-EntryCan :
      (p : SubjectPayload)
      → payload_fields is_ip p ≡ true
      → IsTextual p
      → All (EntryCan 1) (identity_entries p)
  unfolding payload_fields repository_tree_fields package_fields filesystem_fields sbom_fields
      artifact_fields oci_manifest_fields oci_index_fields
  identity-EntryCan (repository_tree r) h t =
      let (commit, h1) = both (git_object_id r.commit) _ h in
      let (tree, worktree) = both (git_object_id r.tree) _ h1 in
      (
        (refl, (omega arith, literal (codes "git") refl)),
        (
          (refl, git_json-CanStand r.commit commit),
          (
            (refl, git_json-CanStand r.tree tree),
            ((refl, (omega arith, tt)), ((refl, worktree-ValueCan r.worktree_digest worktree), tt)),
          ),
        ),
      )
  identity-EntryCan (package_payload r) h t =
      let (ecosystem, h1) = both (ecosystem_name r.ecosystem) _ h in
      let (name, h2) = both (bounded_text 512 r.name) _ h1 in
      let (version, h3) = both (bounded_text 256 r.version) _ h2 in
      let (digest, _) = both (content_digest r.digest) _ h3 in
      (
        (refl, (omega arith, ecosystem-IsUnicode r.ecosystem ecosystem)),
        (
          (refl, (omega arith, bounded_text-IsUnicode 512 r.name name)),
          (
            (refl, (omega arith, bounded_text-IsUnicode 256 r.version version)),
            ((refl, digest_json-CanStand r.digest digest), tt),
          ),
        ),
      )
  identity-EntryCan (filesystem r) h t =
      let (tree, h1) = both (content_digest r.tree_digest) _ h in
      let (ignored, _) = both (content_digest r.ignore_policy_digest) _ h1 in
      (
        (refl, digest_json-CanStand r.tree_digest tree),
        ((refl, digest_json-CanStand r.ignore_policy_digest ignored), tt),
      )
  identity-EntryCan (sbom r) h t =
      let (digest, _) = both (content_digest r.document_digest) _ h in
      (
        (refl, (omega arith, format-IsUnicode r.format)),
        ((refl, digest_json-CanStand r.document_digest digest), tt),
      )
  identity-EntryCan (artifact r) h t =
      let (digest, _) = both (content_digest r.digest) _ h in
      ((refl, digest_json-CanStand r.digest digest), tt)
  identity-EntryCan (oci_manifest r) h t =
      let (_, h1) = both (oci_reference (is_registry is_ip) r.reference) _ h in
      let (digest, h2) = both (content_digest r.digest) _ h1 in
      let (_, platform) = both (if_present is_safe_count r.size) _ h2 in
      (
        (refl, digest_json-CanStand r.digest digest),
        ((refl, platform-CanStand r.platform platform t), tt),
      )
  identity-EntryCan (oci_index r) h t =
      let (_, h1) = both (oci_reference (is_registry is_ip) r.reference) _ h in
      let (digest, _) = both (content_digest r.digest) _ h1 in
      ((refl, digest_json-CanStand r.digest digest), tt)

  text_of_ok : (m : Parsed CanonicalError Text) → is_ok m ≡ true → (t : Text) × (m ≡ ok t)
  text_of_ok (ok t) h = (t, refl)
  text_of_ok (invalid is) h = cc
  text_of_ok (unreadable c) h = cc

  -- The identity of a payload with valid fields has a canonical text.
  pub identity_text :
      (p : SubjectPayload)
      → payload_fields is_ip p ≡ true
      → IsTextual p
      → (t : Text) × (canonicalize_json (subject_identity_projection p) ≡ ok t)
  unfolding subject_identity_projection
  identity_text p h t =
      let entries = (codes "kind", some (json_string (kind_text p))) ∷ identity_entries p in
      let (a, b) = object-CanStand 1 entries (
        (kind_key, (omega arith, literal (kind_text p) (kind-IsUnicode p))),
        identity-EntryCan p h t,
      ) in
      text_of_ok (canonicalize_json (json_object (members (compact entries)))) (
        (canonicalize_json-ok_iff (json_object (members (compact entries)))).1
          ((omega arith, a), b))
    where
      kind_key : valid_unicode (codes "kind") ≡ true
      kind_key = refl
