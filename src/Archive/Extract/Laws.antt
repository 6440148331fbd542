-- ===== src/Archive/Extract/Laws.antt =====
-- Where an extraction writes, and what is left of one that fails
-- (packages/shared/src/archive-extractor.ts).
use verglos_cli.Prelude.{
  ℕ, suc, ◌≤◌, ◌≡◌, refl, sym, ◌∙◌, ◌≢◌, ◌⊎◌, inl, inr, Bool, true, false, Option, none, some, List,
  [], ◌∷◌, ◌++◌, map, arith, if◌then◌else◌, Bool-cases, Option-cases, length, All,
}
use mathlib.Core.Path.{subst}
use mathlib.Core.List.{append-nil, append_assoc}
use verglos_cli.Text.{Text}
use verglos_cli.Contracts.{Parsed, ok, invalid, unreadable}
use verglos_cli.Archive.{ArchiveLimits, members_limit, bytes_limit, validate_archive_members}
use verglos_cli.Archive.Laws.{validate_archive_members-IsSafe}
use verglos_cli.Archive.Path.Laws.{IsWithin}
use verglos_cli.Archive.Extract.{
  ArchivePayload, ExtractionError, not_removed, Placed, target_of, prepare, Placement, finished,
  stopped, place, Outcome, removed, write_all, after_preparing, extract_archive_members,
}
use verglos_cli.Archive.Extract.Prepared.{total_bytes, prepare-Prepared}

-- What an extraction leaves at its destination.
pub record Extracted (destination : List Text) (limits : ArchiveLimits) (placed : List Placed)
    : Type 0 where
  pub inside : All (λ x. IsWithin destination (target_of x)) placed
  pub few : length placed ≤ members_limit limits
  pub small : total_bytes placed ≤ bytes_limit limits

place-append :
    (destination : List Text) (go : ℕ → Bool) (n : ℕ) (placed xs ys : List Placed)
    → place destination go n placed xs ≡ finished ys
    → ys ≡ placed ++ xs
place-append destination go n placed [] ys h = cc (h, append-nil placed)
place-append destination go n placed (x ∷ xs) ys h =
    place-append destination go (suc n) (placed ++ x ∷ []) xs ys
      (passed _ (place destination go (suc n) (placed ++ x ∷ []) xs) h)
    ∙ append_assoc placed (x ∷ []) xs
  where
    passed :
        (b : Bool) (o : Placement)
        → (if b then o else stopped placed) ≡ finished ys
        → o ≡ finished ys
    passed true o h = h
    passed false o h = cc

Placement-cases :
    (p : Placement)
    → ((ys : List Placed) × (p ≡ finished ys)) ⊎ ((ys : List Placed) × (p ≡ stopped ys))
Placement-cases (finished ys) = inl (ys, refl)
Placement-cases (stopped ys) = inr (ys, refl)

module _ (clean_up : List Placed → Option (List Placed)) (disk : Option (List Placed))
    (destination : List Text) (limits : ArchiveLimits) where
  -- An extraction has placed everything where nothing stood, or it has left the disk as it was, or its
  -- error is that of the clean-up, and what the clean-up left is there.
  abbrev pub AllOrNothing : Outcome → Type 0
  AllOrNothing out =
      ((out.1 ≡ ok tt)
        × ((disk ≡ none)
            × ((placed : List Placed) × ((out.0 ≡ some placed)
                  × Extracted destination limits placed))))
      ⊎ ((out.1 ≢ ok tt) × (out.0 ≡ disk))
      ⊎ ((out.1 ≡ invalid (not_removed ∷ []))
          × ((disk ≡ none)
              × ((placed : List Placed) × ((left : List Placed) × ((clean_up placed ≡ some left)
                      × (out.0 ≡ some left))))))

removed-AllOrNothing :
    (clean_up : List Placed → Option (List Placed)) (destination : List Text)
    (limits : ArchiveLimits) (ys : List Placed)
    → AllOrNothing clean_up none destination limits (removed (clean_up ys))
removed-AllOrNothing clean_up destination limits ys = elim (Option-cases (clean_up ys)) [
  | inl gone ↦ rw gone (inr (inl ((cc), refl)))
  | inr (left, stays) ↦ rw stays (inr (inr (refl, (refl, (ys, (left, (stays, refl)))))))
]

module _ (go : ℕ → Bool) (clean_up : List Placed → Option (List Placed))
    (disk : Option (List Placed)) (destination : List Text) (limits : ArchiveLimits) where
  abbrev Holds : Outcome → Type 0
  Holds = AllOrNothing clean_up disk destination limits

  write_all-AllOrNothing :
      (xs : List Placed)
      → Extracted destination limits xs
      → Holds (write_all go clean_up destination disk xs)
  write_all-AllOrNothing xs e = elim (Option-cases disk) [
    | inr (old, there) ↦ rw there (inr (inl ((cc), refl)))
    | inl absent ↦ rw absent (elim (Bool-cases (go 0)) [
      | inr refused ↦ rw refused (inr (inl ((cc), refl)))
      | inl made ↦ rw made (elim (Placement-cases (place destination go 1 [] xs)) [
        | inr (ys, lost) ↦ rw lost (removed-AllOrNothing clean_up destination limits ys)
        | inl (ys, found) ↦
            let same = place-append destination go 1 [] xs ys found in
            rw found
              (inl (refl, (refl, (ys, (refl, subst (Extracted destination limits) (sym same) e)))))
      ])
    ])
  ]

  after_preparing-AllOrNothing :
      (m : Parsed ExtractionError (List Placed))
      → ((xs : List Placed) → m ≡ ok xs → Extracted destination limits xs)
      → Holds (after_preparing go clean_up destination disk m)
  after_preparing-AllOrNothing (ok xs) e = write_all-AllOrNothing xs (e xs refl)
  after_preparing-AllOrNothing (invalid is) e = inr (inl ((cc), refl))
  after_preparing-AllOrNothing (unreadable c) e = inr (inl ((cc), refl))

  -- An extraction that succeeds has found nothing at its destination, and has placed files and
  -- directories only at or below it, no more than the limit on members and with no more bytes than
  -- the limit on sizes, whatever the payloads are. One that fails, whichever calls on files do, leaves
  -- what stood at the destination as it was, unless the clean-up fails too: then nothing stood there
  -- before, the error is that of the clean-up, and what the clean-up left is there. The directories
  -- that lead to the destination are not part of this.
  pub extract_archive_members-AllOrNothing :
      (ps : List ArchivePayload)
      → AllOrNothing clean_up disk destination limits
          (extract_archive_members go clean_up disk destination ps limits)
  unfolding extract_archive_members
  extract_archive_members-AllOrNothing ps =
      let ms = map (λ p. p.member) ps in
      elim (Option-cases (validate_archive_members ms limits)) [
        | inr (e, refused) ↦ rw refused (inr (inl ((cc), refl)))
        | inl accepted ↦
            let safe = validate_archive_members-IsSafe ms limits accepted in
            rw accepted (
              after_preparing-AllOrNothing (prepare destination ps) λ xs prepared.
                let (inside, (count, bytes)) =
                  prepare-Prepared destination ps xs safe.inside prepared in
                record {
                  inside = inside;
                  few = ground (arith, count, safe.few);
                  small = omega (arith, bytes, safe.small);
                })
      ]
