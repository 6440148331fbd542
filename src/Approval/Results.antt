-- ===== src/Approval/Results.antt =====
-- What a call that returns has passed (the functions of packages/shared/src/approval-receipt.ts and
-- approval-store.ts throw one error at most).
use verglos_cli.Prelude.{◌≡◌, refl, Bool, true, false, List, [], ◌∷◌, if◌then◌else◌}
use verglos_cli.Contracts.{Parsed, ok, invalid, unreadable, ◌>>=◌, accept_if_clean}
use verglos_cli.Approval.{ApprovalError, throw}

pub accept-bind {ℓ} :
    {I A : Type 0} {B : Type ℓ} (is : List I) (a : A) (f : A → Parsed I B) {b : B}
    → (accept_if_clean is a >>= f) ≡ ok b
    → (is ≡ []) × (f a ≡ ok b)
accept-bind [] a f h = (refl, h)
accept-bind (i ∷ is) a f h = cc

pub bind-eq-ok :
    {A B : Type 0} (m : Parsed ApprovalError A) (f : A → Parsed ApprovalError B) {b : B}
    → (m >>= f) ≡ ok b
    → (a : A) × (m ≡ ok a) × (f a ≡ ok b)
bind-eq-ok (ok a) f h = (a, refl, h)
bind-eq-ok (invalid is) f h = cc
bind-eq-ok (unreadable c) f h = cc

pub or_throw-eq-ok :
    {A : Type 0} (b : Bool) (a : A) (e : ApprovalError) {c : A}
    → (if b then ok a else throw e) ≡ ok c
    → (b ≡ true) × (a ≡ c)
or_throw-eq-ok true a e h = (refl, cc)
or_throw-eq-ok false a e h = cc

pub throw_or-eq-ok :
    {A : Type 0} (b : Bool) (e : ApprovalError) (m : Parsed ApprovalError A) {c : A}
    → (if b then throw e else m) ≡ ok c
    → (b ≡ false) × (m ≡ ok c)
throw_or-eq-ok true e m h = cc
throw_or-eq-ok false e m h = (refl, h)
