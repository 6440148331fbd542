-- ===== src/Hunt/Trust.antt =====
-- packages/shared/src/hunt-recipe-trust.ts: `verifyHuntRecipe`, over the feeds and the trust store of
-- Hunt/Trust/Documents. The digests of recipes and feeds and the check of a feed's signature, all of
-- them over node:crypto, are parameters.
mod Documents
pub mod Laws
pub mod Complete
unfoldable pub use Documents.*
use verglos_cli.Prelude.{
  Bool, not, ◌||◌, Option, none, some, List, [], ◌∷◌, ltb, leb, if◌then◌else◌, any, filter,
}
use verglos_cli.Text.{Text, text_eq}
use verglos_cli.Text.Sets.{has}
use verglos_cli.Formats.{sha256, algorithm_eq}
use verglos_cli.Contracts.{Instant, earlier, no_later, is_some, is_empty, is_text, if_present}
use verglos_cli.Hunt.{Url, HuntRecipe, is_verified, recipe_issues}

-- HuntRecipeTrustFailure
pub data TrustFailure : Type 0 where
  unknown_feed feed_origin_mismatch unknown_key key_not_valid invalid_signature : TrustFailure
  feed_not_current recipe_not_found recipe_digest_mismatch recipe_revoked : TrustFailure
  recipe_signer_mismatch recipe_signature_status_invalid license_digest_mismatch : TrustFailure

-- HuntRecipeVerification; `executable` is true where the recipe is trusted.
pub data Verification : Type 0 where
  trusted : Feed → FeedEntry → Text → Verification
  untrusted : TrustFailure → Verification

-- `array.find`
abbrev pub find {ℓ} : {A : Type ℓ} → (A → Bool) → List A → Option A
find p [] = none
find p (x ∷ xs) = let rest = find p xs in if p x then some x else rest

abbrev pub or_else {ℓ} : {A : Type ℓ} → Option A → Option A → Option A
or_else none o = o
or_else (some a) o = some a

-- The test of a key's validity.
abbrev pub is_invalid_at : Instant → TrustKey → Bool
is_invalid_at at k =
    not (if_present (λ start. not (earlier (some at) start)) k.not_before)
    || not (if_present (λ end. not (no_later end (some at))) k.expires_at)

-- `new URL`; the digest of a recipe and of a feed, where none is what `canonicalizeJson` throws; the
-- hexadecimal digest of a text; and `verifyFeedSignature`, of a feed and a key's text.
pub record TrustTools : Type 0 where
  pub parse_url : Text → Option Url
  pub recipe_digest : HuntRecipe → Option Text
  pub feed_digest : Feed → Option Text
  pub sha256_hex : Text → Text
  pub verify_feed : Feed → Text → Bool

module _ (w : TrustTools) where
  abbrev pub has_root : TrustStore → Feed → Bool
  has_root t f = any (λ root. text_eq root.feed_id f.feed_id) t.feeds

  -- The feed that speaks for a recipe: the first trusted one that lists it, or the first trusted one.
  abbrev pub chosen_feed : HuntRecipe → TrustStore → Option Feed
  chosen_feed r t =
      or_else
        (find (has_root t) (
          filter (λ f. any (λ e. text_eq e.recipe.recipe_id r.recipe_id) f.entries) t.signed_feeds))
        (find (has_root t) t.signed_feeds)

  abbrev pub check_entry : HuntRecipe → Feed → Text → FeedEntry → Verification
  check_entry r f digest e =
      if has r.recipe_id f.revoked_recipe_ids
      then untrusted recipe_revoked
      else if not (text_eq e.recipe_digest digest)
      then untrusted recipe_digest_mismatch
      else if not (is_some (w.recipe_digest e.recipe))
      then untrusted invalid_signature
      else if not (is_text (w.recipe_digest e.recipe) e.recipe_digest)
      then untrusted recipe_digest_mismatch
      else if not (is_text r.signer f.key_id)
      then untrusted recipe_signer_mismatch
      else if not (is_verified r.signature_status)
      then untrusted recipe_signature_status_invalid
      else if not (algorithm_eq e.license.text_digest.algorithm sha256)
          || not (text_eq e.license.text_digest.value (w.sha256_hex e.license.license_text))
      then untrusted license_digest_mismatch
      else if not (is_some (w.feed_digest f))
      then untrusted invalid_signature
      else trusted f e digest

  abbrev pub with_entry : HuntRecipe → Feed → Text → Option FeedEntry → Verification
  with_entry r f digest none = untrusted recipe_not_found
  with_entry r f digest (some e) = check_entry r f digest e

  -- An error of the digest is caught.
  abbrev pub with_digest : HuntRecipe → Feed → Option Text → Verification
  with_digest r f none = untrusted invalid_signature
  with_digest r f (some digest) =
      with_entry r f digest (find (λ e. text_eq e.recipe.recipe_id r.recipe_id) f.entries)

  abbrev pub check_key : HuntRecipe → Instant → Feed → TrustKey → Verification
  check_key r at f k =
      if is_invalid_at at k
      then untrusted key_not_valid
      else if earlier (some at) f.issued_at || no_later f.expires_at (some at)
      then untrusted feed_not_current
      else if not (w.verify_feed f k.public_key_pem)
      then untrusted invalid_signature
      else with_digest r f (w.recipe_digest r)

  abbrev pub with_key : HuntRecipe → Instant → Feed → Option TrustKey → Verification
  with_key r at f none = untrusted unknown_key
  with_key r at f (some k) = check_key r at f k

  abbrev pub with_root : HuntRecipe → Instant → Feed → Option FeedRoot → Verification
  with_root r at f none = untrusted unknown_feed
  with_root r at f (some root) =
      if not (text_eq root.origin f.origin)
      then untrusted feed_origin_mismatch
      else with_key r at f (find (λ k. text_eq k.key_id f.key_id) root.keys)

  abbrev pub with_feed : HuntRecipe → TrustStore → Instant → Option Feed → Verification
  with_feed r t at none = untrusted unknown_feed
  with_feed r t at (some f) =
      with_root r at f (find (λ root. text_eq root.feed_id f.feed_id) t.feeds)

  abbrev pub with_instant : HuntRecipe → TrustStore → Option Instant → Verification
  with_instant r t none = untrusted feed_not_current
  with_instant r t (some at) = with_feed r t at (chosen_feed r t)

  -- `verifyHuntRecipe`, at what `Date.parse` reads; a recipe or a store that does not parse is caught.
  unfoldable pub verify_hunt_recipe : HuntRecipe → TrustStore → Option Instant → Verification
  verify_hunt_recipe r t at =
      if not (is_empty (recipe_issues w.parse_url r)) || not (trust_policy w.parse_url t)
      then untrusted invalid_signature
      else with_instant r t at
