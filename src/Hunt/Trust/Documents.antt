-- ===== src/Hunt/Trust/Documents.antt =====
-- packages/shared/src/hunt-recipe-trust.ts: signed feeds of recipes and the trust store, and what
-- their schemas accept.
use verglos_cli.Prelude.{
  ℕ, zero, suc, Bool, false, not, ◌&&◌, ◌||◌, Option, none, some, List, [], ◌∷◌, map, leb, ◌==◌,
  length, any, all,
}
use verglos_cli.Text.{Text, codes, text_eq}
use verglos_cli.Text.Sets.{repeats}
use verglos_cli.Formats.{
  ContentDigest, sha256, algorithm_eq, length_in, stable_id, content_digest, is_sha256_ref,
}
use verglos_cli.Contracts.{Time, no_later, is_empty, size_in}
use verglos_cli.Subject.Path.{no_controls}
use verglos_cli.Subject.Fields.{is_letter_or_digit}
use verglos_cli.Hunt.{Url, HuntRecipe, recipe_issues}

-- LicenseEvidenceSchema
pub record LicenseEvidence : Type 0 where
  pub license_id : Text
  pub source : Text
  pub text_digest : ContentDigest
  pub license_text : Text

-- FeedEntrySchema
pub record FeedEntry : Type 0 where
  pub recipe : HuntRecipe
  pub recipe_digest : Text
  pub license : LicenseEvidence

-- HuntRecipeFeedBaseSchema; the fields of `signature` are fields of the feed.
pub record Feed : Type 0 where
  pub feed_id : Text
  pub origin : Text
  pub issued_at : Time
  pub expires_at : Time
  pub entries : List FeedEntry
  pub revoked_recipe_ids : List Text
  pub key_id : Text
  pub signature_value : Text

pub record TrustKey : Type 0 where
  pub key_id : Text
  pub public_key_pem : Text
  pub not_before : Option Time
  pub expires_at : Option Time

pub record FeedRoot : Type 0 where
  pub feed_id : Text
  pub origin : Text
  pub keys : List TrustKey

-- HuntRecipeTrustStoreSchema
pub record TrustStore : Type 0 where
  pub feeds : List FeedRoot
  pub signed_feeds : List Feed

abbrev safe_id : Text → Bool
safe_id s = length_in 1 512 s && no_controls s

abbrev has_no_credentials : Url → Bool
has_no_credentials u =
    text_eq u.protocol (codes "https:") && (is_empty u.username && is_empty u.password)

abbrev url_passes : (Url → Bool) → Option Url → Bool
url_passes p none = false
url_passes p (some u) = p u

-- `(?:[A-Za-z0-9+/]{4}){21}[A-Za-z0-9+/]{2}==`
abbrev base64_then_padding : ℕ → Text → Bool
base64_then_padding zero s = text_eq s (codes "==")
base64_then_padding (suc n) [] = false
base64_then_padding (suc n) (c ∷ s) =
    (is_letter_or_digit c || (c == b'+' || c == b'/')) && base64_then_padding n s

unfoldable pub feed_signature : Text → Bool
feed_signature s = base64_then_padding 86 s

abbrev never_valid : Option Time → Option Time → Bool
never_valid (some a) (some b) = no_later b a
never_valid _ _ = false

unfoldable pub trust_key : TrustKey → Bool
trust_key k =
    safe_id k.key_id
    && (length_in 64 16384 k.public_key_pem && not (never_valid k.not_before k.expires_at))

module _ (parse_url : Text → Option Url) where
  -- HttpsUrl and Origin
  abbrev https_url : Text → Bool
  https_url s =
      leb (length s) 2048 && url_passes (λ u. has_no_credentials u && is_empty u.hash) (parse_url s)

  abbrev origin_url : Text → Bool
  origin_url s =
      leb (length s) 512
      && url_passes
          (λ u.
            has_no_credentials u
            && (text_eq u.pathname (codes "/") && (is_empty u.search && is_empty u.hash)))
          (parse_url s)

  unfoldable pub license_evidence : LicenseEvidence → Bool
  license_evidence l =
      length_in 1 128 l.license_id
      && (all (λ c. is_letter_or_digit c || any (◌==◌ c) (codes ".+-")) l.license_id
          && (https_url l.source
              && (content_digest l.text_digest
                  && (length_in 1 262144 l.license_text
                      && algorithm_eq l.text_digest.algorithm sha256))))

  abbrev feed_entry : FeedEntry → Bool
  feed_entry e =
      is_empty (recipe_issues parse_url e.recipe)
      && (is_sha256_ref e.recipe_digest && license_evidence e.license)

  unfoldable pub feed_document : Feed → Bool
  feed_document f =
      stable_id f.feed_id
      && (origin_url f.origin
          && (size_in 0 4096 f.entries
              && (all feed_entry f.entries
                  && (size_in 0 4096 f.revoked_recipe_ids
                      && (all stable_id f.revoked_recipe_ids
                          && (safe_id f.key_id
                              && (feed_signature f.signature_value
                                  && (not (no_later f.expires_at f.issued_at)
                                      && (not (repeats (map (λ e. e.recipe.recipe_id) f.entries))
                                          && not (repeats f.revoked_recipe_ids))))))))))

  abbrev pub feed_root : FeedRoot → Bool
  feed_root r =
      stable_id r.feed_id
      && (origin_url r.origin
          && (size_in 1 64 r.keys
              && (all trust_key r.keys && not (repeats (map TrustKey.key_id r.keys)))))

  -- Whether `parseHuntRecipeTrustPolicy` returns the store.
  unfoldable pub trust_policy : TrustStore → Bool
  unfolding feed_document
  trust_policy t =
      size_in 0 128 t.feeds
      && (all feed_root t.feeds
          && (size_in 0 128 t.signed_feeds
              && (all feed_document t.signed_feeds
                  && (not (repeats (map FeedRoot.feed_id t.feeds))
                      && not (repeats (map Feed.feed_id t.signed_feeds))))))
