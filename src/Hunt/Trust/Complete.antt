-- ===== src/Hunt/Trust/Complete.antt =====
-- When `verifyHuntRecipe` of packages/shared/src/hunt-recipe-trust.ts trusts a recipe.
use verglos_cli.Prelude.{
  In-map, In-filter_of, filter-passes, all-In, any-In, ◌≡◌, refl, sym, ap, ◌∙◌, ◌≢◌, inl, inr, Bool,
  true, false, not, ◌||◌, Option, none, some, List, [], ◌∷◌, map, arith, if◌then◌else◌, Bool-cases,
  any, all, filter, In,
}
use mathlib.Core.Path.{subst}
use verglos_cli.Text.{Text, text_eq}
use verglos_cli.Text.Order.{text_eq_iff}
use verglos_cli.Text.Sets.{has, has_iff, repeats, NoRepeat, repeats-eq-false_iff}
use verglos_cli.Formats.{sha256, algorithm_eq}
use verglos_cli.Contracts.{Instant, Time, earlier, no_later, if_present, is_some, is_empty, is_text}
use verglos_cli.Contracts.Laws.{AtMost-earlier, Before-no_later}
use verglos_cli.Hunt.{HuntRecipe, recipe_issues}
use verglos_cli.Hunt.Trust.{
  is_invalid_at, FeedEntry, Feed, TrustKey, FeedRoot, TrustStore, Verification, trusted, feed_root,
  feed_document, trust_policy, find, or_else, TrustTools, has_root, chosen_feed, check_entry,
  with_entry, with_digest, with_key, with_root, with_feed, verify_hunt_recipe,
}
use verglos_cli.Hunt.Trust.Laws.{Vouches, Stands}

-- A search finds the one item that passes.
find-only :
    {A : Type 0} (p : A → Bool) (xs : List A) (a : A)
    → ((x : A) → In x xs → p x ≡ true → x ≡ a)
    → In a xs
    → p a ≡ true
    → find p xs ≡ some a
find-only p [] a only m h = absurd m
find-only p (x ∷ xs) a only m h = elim (Bool-cases (p x)) [
  | inl hit ↦ rw hit (ap some (only x (inl refl) hit))
  | inr miss ↦ rw miss (find-only p xs a (λ y n. only y (inr n)) (later m miss) h)
]
  where
    later : In a (x ∷ xs) → p x ≡ false → In a xs
    later (inl e) miss = absurd (cc (miss, h, ap p e))
    later (inr n) miss = n

clash :
    {A : Type 0} (key : A → Text) (x : A) (xs : List A) (a : A)
    → has (key x) (map key xs) ≡ false
    → In a xs
    → key x ≢ key a
clash key x xs a new m e =
    let there =
      (has_iff (key x) (map key xs)).1
        (subst (λ t. In t (map key xs)) (sym e) (In-map key xs a m)) in
    cc (new, there)

-- Where no key occurs twice, two items with one key are one item.
one-with_key :
    {A : Type 0} (key : A → Text) (xs : List A) (a b : A)
    → NoRepeat (map key xs)
    → In a xs
    → In b xs
    → key a ≡ key b
    → a ≡ b
one-with_key key [] a b n ma mb e = absurd ma
one-with_key key (x ∷ xs) a b (new, n) (inl ea) (inl eb) e = ea ∙ sym eb
one-with_key key (x ∷ xs) a b (new, n) (inl ea) (inr mb) e =
    absurd (clash key x xs b new mb (sym (ap key ea) ∙ e))
one-with_key key (x ∷ xs) a b (new, n) (inr ma) (inl eb) e =
    absurd (clash key x xs a new ma (sym (ap key eb) ∙ sym e))
one-with_key key (x ∷ xs) a b (new, n) (inr ma) (inr mb) e = one-with_key key xs a b n ma mb e

module _ (w : TrustTools) (t : TrustStore) where
  -- No two roots, feeds, keys of a root or recipes of a feed have one identifier.
  record Unique : Type 0 where
    roots : NoRepeat (map FeedRoot.feed_id t.feeds)
    feeds : NoRepeat (map Feed.feed_id t.signed_feeds)
    keys : (root : FeedRoot) → In root t.feeds → NoRepeat (map TrustKey.key_id root.keys)
    recipes : (f : Feed) → In f t.signed_feeds → NoRepeat (map (λ e. e.recipe.recipe_id) f.entries)

  differ : (ts : List Text) → not (repeats ts) ≡ true → NoRepeat ts
  differ ts h = (repeats-eq-false_iff ts).0 (ground (arith, h))

  root-NoRepeat :
      (root : FeedRoot)
      → feed_root w.parse_url root ≡ true
      → NoRepeat (map TrustKey.key_id root.keys)
  root-NoRepeat root h = differ (map TrustKey.key_id root.keys) (ground (arith, h))

  feed-NoRepeat :
      (f : Feed)
      → feed_document w.parse_url f ≡ true
      → NoRepeat (map (λ e. e.recipe.recipe_id) f.entries)
  unfolding feed_document
  feed-NoRepeat f h = differ (map (λ e. e.recipe.recipe_id) f.entries) (ground (arith, h))

  policy-Unique : trust_policy w.parse_url t ≡ true → Unique
  unfolding trust_policy
  policy-Unique h =
      let roots_pass : all (feed_root w.parse_url) t.feeds ≡ true = ground (arith, h) in
      let feeds_pass : all (feed_document w.parse_url) t.signed_feeds ≡ true = ground (arith, h) in
      record {
        roots = differ (map FeedRoot.feed_id t.feeds) (ground (arith, h));
        feeds = differ (map Feed.feed_id t.signed_feeds) (ground (arith, h));
        keys =
            λ root m. root-NoRepeat root (all-In (feed_root w.parse_url) t.feeds root roots_pass m);
        recipes = λ f m.
            feed-NoRepeat f (all-In (feed_document w.parse_url) t.signed_feeds f feeds_pass m);
      }

skip :
    (b : Bool) (x y : Verification) {v : Verification}
    → b ≡ false
    → y ≡ v
    → (if b then x else y) ≡ v
skip true x y h e = cc
skip false x y h e = e

text_eq_self : (s : Text) → text_eq s s ≡ true
text_eq_self s = (text_eq_iff s s).1 refl

not-true : {b : Bool} → b ≡ true → not b ≡ false
not-true h = ap not h

is_text_of : {o : Option Text} {s : Text} → o ≡ some s → is_text o s ≡ true
is_text_of {o} {s} h = ap (λ x. is_text x s) h ∙ text_eq_self s

module _ (w : TrustTools) (r : HuntRecipe) (t : TrustStore) where
  abbrev pub lists : Feed → Bool
  lists f = any (λ e. text_eq e.recipe.recipe_id r.recipe_id) f.entries

  module _ (f : Feed) (e : FeedEntry) (v : Vouches w r t f e) where
    entry_trusted :
        is_some (w.feed_digest f) ≡ true
        → check_entry w r f e.recipe_digest e ≡ trusted f e e.recipe_digest
    entry_trusted d = skip _ _ _ v.not_revoked (
        skip _ _ _ (not-true (text_eq_self e.recipe_digest)) (
          skip _ _ _ (not-true (ap is_some v.entry_digest)) (
            skip _ _ _ (not-true (is_text_of v.entry_digest)) (
              skip _ _ _ (not-true (is_text_of v.signer)) (
                skip _ _ _ (not-true v.status)
                  (skip _ _ _ license (skip _ _ _ (not-true d) refl)))))))
      where
        license :
            (not (algorithm_eq e.license.text_digest.algorithm sha256)
              || not (text_eq e.license.text_digest.value (w.sha256_hex e.license.license_text)))
            ≡ false
        license =
            rw
              (
                v.license_algorithm,
                (text_eq_iff e.license.text_digest.value (w.sha256_hex e.license.license_text)).1
                    v.license_digest,
              )
              refl

    chosen_feed-lists :
        (at : Instant)
        → Stands w r t at f
        → ((g : Feed) → In g t.signed_feeds → lists g ≡ true → g ≡ f)
        → chosen_feed w r t ≡ some f
    chosen_feed-lists at s only =
        let listed =
          any-In (λ x. text_eq x.recipe.recipe_id r.recipe_id) f.entries e v.listed
            ((text_eq_iff e.recipe.recipe_id r.recipe_id).1 v.same_recipe) in
        let rooted =
          any-In (λ root. text_eq root.feed_id f.feed_id) t.feeds s.root s.known_root
            ((text_eq_iff s.root.feed_id f.feed_id).1 s.same_feed) in
        let first =
          find-only (has_root w t) (filter lists t.signed_feeds) f
            (λ g m _. let (n, k) = filter-passes lists t.signed_feeds g m in only g n k)
            (In-filter_of lists t.signed_feeds f s.known_feed listed) rooted in
        ap (λ o. or_else o (find (has_root w t) t.signed_feeds)) first

    digest_trusted :
        Unique w t
        → In f t.signed_feeds
        → is_some (w.feed_digest f) ≡ true
        → with_digest w r f (w.recipe_digest r) ≡ trusted f e e.recipe_digest
    digest_trusted u m d =
        let only : (x : FeedEntry)
            → In x f.entries
            → text_eq x.recipe.recipe_id r.recipe_id ≡ true
            → x ≡ e =
          λ x n h.
            one-with_key (λ y. y.recipe.recipe_id) f.entries x e (u.recipes f m) n v.listed
              ((text_eq_iff x.recipe.recipe_id r.recipe_id).0 h ∙ sym v.same_recipe) in
        let entry =
          find-only (λ x. text_eq x.recipe.recipe_id r.recipe_id) f.entries e only v.listed
            ((text_eq_iff e.recipe.recipe_id r.recipe_id).1 v.same_recipe) in
        ap (with_digest w r f) v.own_digest
        ∙ ap (with_entry w r f e.recipe_digest) entry
        ∙ entry_trusted d

    root_trusted :
        (at : Instant)
        → Unique w t
        → Stands w r t at f
        → is_some (w.feed_digest f) ≡ true
        → with_root w r at f (find (λ root. text_eq root.feed_id f.feed_id) t.feeds)
          ≡ trusted f e e.recipe_digest
    root_trusted at u s d =
        let root =
          find-only (λ x. text_eq x.feed_id f.feed_id) t.feeds s.root
            (λ x n h.
              one-with_key FeedRoot.feed_id t.feeds x s.root u.roots n s.known_root
                ((text_eq_iff x.feed_id f.feed_id).0 h ∙ sym s.same_feed))
            s.known_root ((text_eq_iff s.root.feed_id f.feed_id).1 s.same_feed) in
        let key =
          find-only (λ x. text_eq x.key_id f.key_id) s.root.keys s.key
            (λ x n h.
              one-with_key TrustKey.key_id s.root.keys x s.key (u.keys s.root s.known_root) n
                s.known_key ((text_eq_iff x.key_id f.key_id).0 h ∙ sym s.same_key))
            s.known_key ((text_eq_iff s.key.key_id f.key_id).1 s.same_key) in
        ap (with_root w r at f) root
        ∙ skip _ _ _ (not-true ((text_eq_iff s.root.origin f.origin).1 s.same_origin)) (
            ap (with_key w r at f) key
            ∙ skip _ _ _ valid_key (
                skip _ _ _ current
                  (skip _ _ _ (not-true s.signed) (digest_trusted u s.known_feed d))))
      where
        passes_of :
            (q : Time → Bool) (o : Option Time)
            → ((x : Time) → o ≡ some x → q x ≡ true)
            → if_present q o ≡ true
        passes_of q none h = refl
        passes_of q (some x) h = h x refl

        valid_key : is_invalid_at at s.key ≡ false
        valid_key = ground (
          arith,
          passes_of (λ start. not (earlier (some at) start)) s.key.not_before
              (λ x e. ground (arith, AtMost-earlier x (some at) (s.key_begun x e))),
          passes_of (λ end. not (no_later end (some at))) s.key.expires_at
              (λ x e. ground (arith, Before-no_later (some at) x (s.key_unexpired x e))),
        )

        current : (earlier (some at) f.issued_at || no_later f.expires_at (some at)) ≡ false
        current = ground (
          arith,
          AtMost-earlier f.issued_at (some at) s.issued,
          Before-no_later (some at) f.expires_at s.unexpired,
        )

    -- A recipe that a current feed vouches for under a valid key is trusted, and it is this feed that
    -- speaks for it, if the recipe and the store are valid, no other feed lists the recipe, and the feed
    -- has a digest.
    pub verify_hunt_recipe_trusts :
        (at : Instant)
        → Stands w r t at f
        → recipe_issues w.parse_url r ≡ []
        → trust_policy w.parse_url t ≡ true
        → ((g : Feed) → In g t.signed_feeds → lists g ≡ true → g ≡ f)
        → is_some (w.feed_digest f) ≡ true
        → verify_hunt_recipe w r t (some at) ≡ trusted f e e.recipe_digest
    unfolding verify_hunt_recipe
    verify_hunt_recipe_trusts at s valid policy only d =
        skip _ _ _ (parsed (ap is_empty valid) policy) (
          ap (with_feed w r t at) (chosen_feed-lists at s only)
          ∙ root_trusted at (policy-Unique w t policy) s d)
      where
        parsed : {a b : Bool} → a ≡ true → b ≡ true → (not a || not b) ≡ false
        parsed h k = ground (arith, h, k)
