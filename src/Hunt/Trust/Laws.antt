-- ===== src/Hunt/Trust/Laws.antt =====
-- What a trusted recipe rests on (`verifyHuntRecipe` of packages/shared/src/hunt-recipe-trust.ts).
use verglos_cli.Prelude.{
  filter-passes, true_of, neither, ◌≡◌, refl, sym, ap, ◌∙◌, ◌⊎◌, inl, inr, Bool, true, false, not,
  ◌||◌, Option, none, some, List, [], ◌∷◌, arith, if◌then◌else◌, In, All, All-In,
}
use mathlib.Core.Path.{subst}
use verglos_cli.Text.{Text, text_eq}
use verglos_cli.Text.Order.{text_eq_iff}
use verglos_cli.Text.Sets.{has}
use verglos_cli.Formats.{Algorithm, sha256, algorithm_eq}
use verglos_cli.Contracts.{Instant, Time, earlier, no_later, if_present, is_some, is_empty, is_text}
use verglos_cli.Contracts.Laws.{
  Before, AtMost, IsRead, IsReadIfPresent, some_injective, present-AtMost, present-Before,
  no_later-eq-false_iff, earlier-eq-false_iff,
}
use verglos_cli.Hunt.{HuntRecipe, is_verified, recipe_issues}
use verglos_cli.Hunt.Trust.{
  FeedEntry, Feed, TrustKey, FeedRoot, TrustStore, TrustFailure, feed_origin_mismatch,
  key_not_valid, invalid_signature, feed_not_current, recipe_digest_mismatch, recipe_revoked,
  recipe_signer_mismatch, recipe_signature_status_invalid, license_digest_mismatch, Verification,
  trusted, untrusted, trust_policy, find, or_else, is_invalid_at, TrustTools, has_root, chosen_feed,
  check_entry, with_entry, with_digest, check_key, with_key, with_root, with_feed, with_instant,
  verify_hunt_recipe,
}

abbrev pub IsTrusted : Verification → Type 0
IsTrusted (trusted f e d) = Unit
IsTrusted (untrusted r) = ⊥

trusts :
    (b : Bool) (r : TrustFailure) (m : Verification)
    → IsTrusted (if b then untrusted r else m)
    → (b ≡ false) × IsTrusted m
trusts true r m h = absurd h
trusts false r m h = (refl, h)

find-some :
    {A : Type 0} (p : A → Bool) (xs : List A) (a : A) → find p xs ≡ some a → In a xs × (p a ≡ true)
find-some p [] a h = cc
find-some p (x ∷ xs) a h = pick (find-some p xs a) (p x) refl h
  where
    pick :
        (find p xs ≡ some a → In a xs × (p a ≡ true))
        → (b : Bool) → p x ≡ b
        → (if b then some x else find p xs) ≡ some a
        → In a (x ∷ xs) × (p a ≡ true)
    pick later true e k =
        let same : x ≡ a = some_injective k in (inl (sym same), subst (λ y. p y ≡ true) same e)
    pick later false e k = let (m, q) = later k in (inr m, q)

is_text-eq : (o : Option Text) (t : Text) → is_text o t ≡ true → o ≡ some t
is_text-eq none t h = cc
is_text-eq (some s) t h = ap (λ x. some x) ((text_eq_iff s t).0 h)

abbrev pub FeedIsRead : Feed → Type 0
FeedIsRead f = IsRead f.issued_at × IsRead f.expires_at

abbrev pub KeyIsRead : TrustKey → Type 0
KeyIsRead k = IsReadIfPresent k.not_before × IsReadIfPresent k.expires_at

-- `Date.parse` reads the timestamps of the store's feeds and keys.
pub record TimesRead (t : TrustStore) : Type 0 where
  pub feeds : All FeedIsRead t.signed_feeds
  pub keys : All (λ root. All KeyIsRead root.keys) t.feeds

module _ (w : TrustTools) (r : HuntRecipe) (t : TrustStore) where
  -- The entry of a feed speaks for the recipe.
  pub record Vouches (f : Feed) (e : FeedEntry) : Type 0 where
    pub listed : In e f.entries
    pub same_recipe : e.recipe.recipe_id ≡ r.recipe_id
    pub not_revoked : has r.recipe_id f.revoked_recipe_ids ≡ false
    pub own_digest : w.recipe_digest r ≡ some e.recipe_digest
    pub entry_digest : w.recipe_digest e.recipe ≡ some e.recipe_digest
    pub signer : r.signer ≡ some f.key_id
    pub status : is_verified r.signature_status ≡ true
    pub license_algorithm : e.license.text_digest.algorithm ≡ sha256
    pub license_digest : e.license.text_digest.value ≡ w.sha256_hex e.license.license_text

  -- A feed of the store is signed by a key of its root, the instant is no earlier than the key's
  -- beginning and the feed's issue, and before the expiry of each, so far as the key has them.
  pub record Stands (at : Instant) (f : Feed) : Type 0 where
    pub root : FeedRoot
    pub key : TrustKey
    pub known_feed : In f t.signed_feeds
    pub known_root : In root t.feeds
    pub same_feed : root.feed_id ≡ f.feed_id
    pub same_origin : root.origin ≡ f.origin
    pub known_key : In key root.keys
    pub same_key : key.key_id ≡ f.key_id
    pub key_begun : (start : Time) → key.not_before ≡ some start → AtMost start (some at)
    pub key_unexpired : (end : Time) → key.expires_at ≡ some end → Before (some at) end
    pub issued : AtMost f.issued_at (some at)
    pub unexpired : Before (some at) f.expires_at
    pub signed : w.verify_feed f key.public_key_pem ≡ true

  abbrev pub Rests : Option Instant → Type 0
  Rests o =
      (at : Instant) × (f : Feed) × (e : FeedEntry) × (o ≡ some at) × Stands at f × Vouches f e

  check_entry-Vouches :
      (f : Feed) (d : Text) (e : FeedEntry)
      → In e f.entries
      → e.recipe.recipe_id ≡ r.recipe_id
      → w.recipe_digest r ≡ some d
      → IsTrusted (check_entry w r f d e)
      → Vouches f e
  check_entry-Vouches f d e m same digest h =
      let (revoked, h1) = trusts (has r.recipe_id f.revoked_recipe_ids) recipe_revoked _ h in
      let (own, h2) = trusts (not (text_eq e.recipe_digest d)) recipe_digest_mismatch _ h1 in
      let (_, h3) = trusts (not (is_some (w.recipe_digest e.recipe))) invalid_signature _ h2 in
      let (entry, h4) =
        trusts (not (is_text (w.recipe_digest e.recipe) e.recipe_digest)) recipe_digest_mismatch _
          h3 in
      let (signer, h5) = trusts (not (is_text r.signer f.key_id)) recipe_signer_mismatch _ h4 in
      let (status, h6) =
        trusts (not (is_verified r.signature_status)) recipe_signature_status_invalid _ h5 in
      let (license, _) =
        trusts
          (not (algorithm_eq e.license.text_digest.algorithm sha256)
            || not (text_eq e.license.text_digest.value (w.sha256_hex e.license.license_text)))
          license_digest_mismatch _ h6 in
      let (algorithm, value) =
        neither (not (algorithm_eq e.license.text_digest.algorithm sha256)) _ license in
      record {
        listed = m;
        same_recipe = same;
        not_revoked = revoked;
        own_digest =
            digest ∙ ap (λ x. some x) (sym ((text_eq_iff e.recipe_digest d).0 (true_of own)));
        entry_digest = is_text-eq (w.recipe_digest e.recipe) e.recipe_digest (true_of entry);
        signer = is_text-eq r.signer f.key_id (true_of signer);
        status = true_of status;
        license_algorithm = algorithm_lem e.license.text_digest.algorithm (true_of algorithm);
        license_digest =
            (text_eq_iff e.license.text_digest.value (w.sha256_hex e.license.license_text)).0
              (true_of value);
      }
    where
      algorithm_lem : (a : Algorithm) → algorithm_eq a sha256 ≡ true → a ≡ sha256
      algorithm_lem a h = ground arith

  with_entry-Vouches :
      (f : Feed) (d : Text) (o : Option FeedEntry)
      → find (λ e. text_eq e.recipe.recipe_id r.recipe_id) f.entries ≡ o
      → w.recipe_digest r ≡ some d
      → IsTrusted (with_entry w r f d o)
      → (e : FeedEntry) × Vouches f e
  with_entry-Vouches f d none h digest k = absurd k
  with_entry-Vouches f d (some e) h digest k =
      let (m, same) = find-some (λ e. text_eq e.recipe.recipe_id r.recipe_id) f.entries e h in
      (
        e,
        check_entry-Vouches f d e m ((text_eq_iff e.recipe.recipe_id r.recipe_id).0 same) digest k,
      )

  with_digest-Vouches :
      (f : Feed) (o : Option Text)
      → w.recipe_digest r ≡ o
      → IsTrusted (with_digest w r f o)
      → (e : FeedEntry) × Vouches f e
  with_digest-Vouches f none h k = absurd k
  with_digest-Vouches f (some d) h k =
      with_entry-Vouches f d (find (λ e. text_eq e.recipe.recipe_id r.recipe_id) f.entries) refl h k

  module _ (at : Instant) (f : Feed) (known : In f t.signed_feeds) (read : TimesRead t) where
    key_times : (root : FeedRoot) (k : TrustKey) → In root t.feeds → In k root.keys → KeyIsRead k
    key_times root k mr mk =
        All-In KeyIsRead root.keys (All-In (λ x. All KeyIsRead x.keys) t.feeds read.keys mr) mk

    check_key-Stands :
        (root : FeedRoot) (k : TrustKey)
        → In root t.feeds
        → root.feed_id ≡ f.feed_id
        → root.origin ≡ f.origin
        → In k root.keys
        → k.key_id ≡ f.key_id
        → IsTrusted (check_key w r at f k)
        → Stands at f × ((e : FeedEntry) × Vouches f e)
    check_key-Stands root k mr same origin mk own h =
        let (valid, h1) = trusts (is_invalid_at at k) key_not_valid _ h in
        let (current, h2) =
          trusts (earlier (some at) f.issued_at || no_later f.expires_at (some at)) feed_not_current
            _ h1 in
        let (signed, h3) = trusts (not (w.verify_feed f k.public_key_pem)) invalid_signature _ h2 in
        let (begun, running) =
          neither (earlier (some at) f.issued_at) (no_later f.expires_at (some at)) current in
        let (start, end) = key_times root k mr mk in
        let (issue, expiry) = All-In FeedIsRead t.signed_feeds read.feeds known in
        let (valid_start, valid_end) =
          neither (not (if_present (λ s. not (earlier (some at) s)) k.not_before)) _ valid in
        (
          record {
            root = root;
            key = k;
            known_feed = known;
            known_root = mr;
            same_feed = same;
            same_origin = origin;
            known_key = mk;
            same_key = own;
            key_begun = present-AtMost (some at) k.not_before refl start (true_of valid_start);
            key_unexpired = present-Before (some at) k.expires_at refl end (true_of valid_end);
            issued = (earlier-eq-false_iff f.issued_at (some at) issue refl).0 begun;
            unexpired = (no_later-eq-false_iff (some at) f.expires_at refl expiry).0 running;
            signed = true_of signed;
          },
          with_digest-Vouches f (w.recipe_digest r) refl h3,
        )

    with_key-Stands :
        (root : FeedRoot) (o : Option TrustKey)
        → find (λ k. text_eq k.key_id f.key_id) root.keys ≡ o
        → In root t.feeds
        → root.feed_id ≡ f.feed_id
        → root.origin ≡ f.origin
        → IsTrusted (with_key w r at f o)
        → Stands at f × ((e : FeedEntry) × Vouches f e)
    with_key-Stands root none e mr same origin h = absurd h
    with_key-Stands root (some k) e mr same origin h =
        let (mk, own) = find-some (λ k. text_eq k.key_id f.key_id) root.keys k e in
        check_key-Stands root k mr same origin mk ((text_eq_iff k.key_id f.key_id).0 own) h

    with_root-Stands :
        (o : Option FeedRoot)
        → find (λ root. text_eq root.feed_id f.feed_id) t.feeds ≡ o
        → IsTrusted (with_root w r at f o)
        → Stands at f × ((e : FeedEntry) × Vouches f e)
    with_root-Stands none e h = absurd h
    with_root-Stands (some root) e h =
        let (mr, same) = find-some (λ root. text_eq root.feed_id f.feed_id) t.feeds root e in
        let (origin, rest) = trusts (not (text_eq root.origin f.origin)) feed_origin_mismatch _ h in
        with_key-Stands root (find (λ k. text_eq k.key_id f.key_id) root.keys) refl mr
          ((text_eq_iff root.feed_id f.feed_id).0 same)
          ((text_eq_iff root.origin f.origin).0 (true_of origin)) rest

  or_else-some : (a b : Option Feed) (f : Feed) → or_else a b ≡ some f → (a ≡ some f) ⊎ (b ≡ some f)
  or_else-some none b f h = inr h
  or_else-some (some a) b f h = inl h

  chosen_feed-In : (f : Feed) → chosen_feed w r t ≡ some f → In f t.signed_feeds
  chosen_feed-In f h = elim (or_else-some _ _ f h) [
    | inl e ↦ (filter-passes _ t.signed_feeds f (find-some (has_root w t) _ f e).0).0
    | inr e ↦ (find-some (has_root w t) t.signed_feeds f e).0
  ]

  with_feed-Rests :
      (at : Instant) (o : Option Feed)
      → chosen_feed w r t ≡ o
      → TimesRead t
      → IsTrusted (with_feed w r t at o)
      → Rests (some at)
  with_feed-Rests at none e read h = absurd h
  with_feed-Rests at (some f) e read h =
      let (stands, (entry, vouches)) =
        with_root-Stands at f (chosen_feed-In f e) read
          (find (λ root. text_eq root.feed_id f.feed_id) t.feeds) refl h in
      (at, f, entry, refl, stands, vouches)

  with_instant-Rests :
      (o : Option Instant) → TimesRead t → IsTrusted (with_instant w r t o) → Rests o
  with_instant-Rests none read h = absurd h
  with_instant-Rests (some at) read h = with_feed-Rests at (chosen_feed w r t) refl read h

  -- A trusted recipe of a store whose timestamps are read is valid, and at an instant that is read, a
  -- feed of the store stands by a valid key of its root and vouches for the recipe.
  pub verify_hunt_recipe-Rests :
      (o : Option Instant)
      → TimesRead t
      → IsTrusted (verify_hunt_recipe w r t o)
      → (recipe_issues w.parse_url r ≡ []) × Rests o
  unfolding verify_hunt_recipe
  verify_hunt_recipe-Rests o read h =
      let (parsed, rest) =
        trusts (not (is_empty (recipe_issues w.parse_url r)) || not (trust_policy w.parse_url t))
          invalid_signature _ h in
      let (clean, _) = neither (not (is_empty (recipe_issues w.parse_url r))) _ parsed in
      (empty_of (recipe_issues w.parse_url r) (true_of clean), with_instant-Rests o read rest)
    where
      empty_of : {A : Type 0} (xs : List A) → is_empty xs ≡ true → xs ≡ []
      empty_of [] e = refl
      empty_of (x ∷ xs) e = cc
