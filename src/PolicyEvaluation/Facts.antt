-- ===== src/PolicyEvaluation/Facts.antt =====
-- What one check says for the decision, and what the loop of `deriveDecision` adds up.
use verglos_cli.Prelude.{
  ◌≡◌, refl, sym, ap, ◌∙◌, ◌≢◌, ◌↔◌, ◌⊎◌, inl, inr, Bool, true, false, not, ◌&&◌, ◌||◌, List, [],
  ◌∷◌, arith, Bool-cases, any, In, All,
}
use verglos_cli.PolicyEvaluation.{
  Requirement, required, advisory, OnFailure, CheckStatus, satisfied, failed, PolicyCheck,
}
use verglos_cli.PolicyEvaluation.Derive.{Tally, tally_check, tally_checks}

-- The check has no usable result: it is missing, stale, unsupported or in error.
abbrev pub IsUnavailable : PolicyCheck → Type 0
IsUnavailable c = (c.status ≢ satisfied) × (c.status ≢ failed)

-- What a check does to the decision.
abbrev pub Withholds : PolicyCheck → Type 0
Withholds c = IsUnavailable c × (c.requirement ≡ required)

abbrev pub Blocks : PolicyCheck → Type 0
Blocks c = (c.status ≡ failed) × (c.on_failure ≡ OnFailure.block)

abbrev pub Reviews : PolicyCheck → Type 0
Reviews c =
    ((c.status ≡ failed) × (c.on_failure ≡ OnFailure.review))
    ⊎ (IsUnavailable c × (c.requirement ≡ advisory))

abbrev pub Some : (PolicyCheck → Type 0) → List PolicyCheck → Type 0
Some P cs = (c : PolicyCheck) × In c cs × P c

-- The same as tests.
abbrev pub is_unavailable : CheckStatus → Bool
is_unavailable satisfied = false
is_unavailable failed = false
is_unavailable _ = true

abbrev pub is_failed : CheckStatus → Bool
is_failed failed = true
is_failed _ = false

abbrev pub is_required : Requirement → Bool
is_required required = true
is_required advisory = false

abbrev pub is_block : OnFailure → Bool
is_block OnFailure.block = true
is_block OnFailure.review = false

abbrev pub withholds : PolicyCheck → Bool
withholds c = is_unavailable c.status && is_required c.requirement

abbrev pub blocks : PolicyCheck → Bool
blocks c = is_failed c.status && is_block c.on_failure

abbrev pub reviews : PolicyCheck → Bool
reviews c =
    (is_failed c.status && not (is_block c.on_failure))
    || (is_unavailable c.status && not (is_required c.requirement))

pub withholds_iff : (c : PolicyCheck) → (withholds c ≡ true) ↔ Withholds c
withholds_iff c = ground arith

pub blocks_iff : (c : PolicyCheck) → (blocks c ≡ true) ↔ Blocks c
blocks_iff c = ground arith

pub reviews_iff : (c : PolicyCheck) → (reviews c ≡ true) ↔ Reviews c
reviews_iff c = ground arith

pub satisfied_iff :
    (c : PolicyCheck)
    → (c.status ≡ satisfied) ↔ ((withholds c ≡ false) × (blocks c ≡ false) × (reviews c ≡ false))
satisfied_iff c = ground arith

pub record Flags (t u : Tally) (i b r : Bool) : Type 0 where
  pub incomplete : u.incomplete ≡ (t.incomplete || i)
  pub block : u.block ≡ (t.block || b)
  pub review : u.review ≡ (t.review || r)

pub tally_check-Flags :
    (c : PolicyCheck) (t : Tally)
    → Flags t (tally_check c.status c t) (withholds c) (blocks c) (reviews c)
unfolding tally_check
tally_check-Flags c t = ground arith

pub tally_checks-Flags :
    (cs : List PolicyCheck) (t : Tally)
    → Flags t (tally_checks cs t) (any withholds cs) (any blocks cs) (any reviews cs)
unfolding tally_checks
tally_checks-Flags [] t = ground arith
tally_checks-Flags (c ∷ cs) t =
    ground (arith, tally_check-Flags c t, tally_checks-Flags cs (tally_check c.status c t))

-- A test over the list, against a predicate that it decides.
module _ (p : PolicyCheck → Bool) (P : PolicyCheck → Type 0)
    (p_iff : (c : PolicyCheck) → (p c ≡ true) ↔ P c) where
  pub any-Some : (cs : List PolicyCheck) → any p cs ≡ true → Some P cs
  any-Some [] h = cc
  any-Some (c ∷ cs) h = elim (Bool-cases (p c)) [
    | inl here ↦ (c, inl refl, (p_iff c).0 here)
    | inr not_here ↦ let (d, m, q) = any-Some cs (ground arith) in (d, inr m, q)
  ]

  pub Some-any : (cs : List PolicyCheck) → Some P cs → any p cs ≡ true
  Some-any [] (c, m, q) = absurd m
  Some-any (c ∷ cs) (d, inl e, q) = let here : p c ≡ true = ap p (sym e) ∙ (p_iff d).1 q in rw here
  Some-any (c ∷ cs) (d, inr m, q) = ground (arith, Some-any cs (d, m, q))

  pub any_none : (cs : List PolicyCheck) → any p cs ≡ false → All (λ c. ¬ P c) cs
  any_none [] h = tt
  any_none (c ∷ cs) h = ((λ q. ground (arith, (p_iff c).1 q)), any_none cs (ground arith))

  pub none_any : (cs : List PolicyCheck) → All (λ c. ¬ P c) cs → any p cs ≡ false
  none_any [] h = refl
  none_any (c ∷ cs) (h, hs) = elim (Bool-cases (p c)) [
    | inl here ↦ absurd (h ((p_iff c).0 here))
    | inr not_here ↦ rw not_here (none_any cs hs)
  ]
