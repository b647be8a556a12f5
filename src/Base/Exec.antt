-- ===== src/Base/Exec.antt =====
-- Methods that mutate an object and may raise. What was written before a raise stays written, so
-- the state comes back beside the fault.
use split_inference.Base.Results.{Result, ok, err, Fault}
use mathlib.Core.Path.{◌≡◌, refl}
use mathlib.Core.Bool.{Bool, true, false}

abbrev pub Exec {ℓ} : Type ℓ → Type ℓ → Type ℓ
Exec S A = S → Result A × S

module _ {ℓ} {S A : Type ℓ} where
  abbrev pub pure : A → Exec S A
  pure a s = (ok a, s)

  abbrev pub raise : Fault → Exec S A
  raise e s = (err e, s)

  -- A pure call that may raise.
  abbrev pub lift : Result A → Exec S A
  lift r s = (r, s)

  abbrev pub gets : (S → A) → Exec S A
  gets f s = (ok (f s), s)

module _ {ℓ} {S A B : Type ℓ} where
  abbrev pub continue : Result A → (A → Exec S B) → Exec S B
  continue (ok a) f s = f a s
  continue (err e) f s = (err e, s)

  infixl 5 ◌>>=◌ ◌>>◌
  abbrev pub ◌>>=◌ : Exec S A → (A → Exec S B) → Exec S B
  ◌>>=◌ m f s = let (r, s') = m s in continue r f s'

  abbrev pub ◌>>◌ : Exec S A → Exec S B → Exec S B
  m >> n = m >>= λ _. n

abbrev pub modify : {S : Type 0} → (S → S) → Exec S Unit
modify f s = (ok tt, f s)

-- `if t: m` with nothing to do otherwise.
abbrev pub when : {S : Type 0} → Bool → Exec S Unit → Exec S Unit
when true m s = m s
when false m s = (ok tt, s)

-- What holds of the state before a pure call and after what follows it holds after both.
pub continue_post {ℓ κ} :
    {S A B : Type ℓ} (P : S → Type κ) (r : Result A) (f : A → Exec S B) (s : S)
    → P s
    → ((a : A) → r ≡ ok a → P (f a s).1)
    → P (continue r f s).1
continue_post P (ok a) f s h k = k a refl
continue_post P (err e) f s h k = h

pub when_post {κ} :
    {S : Type 0} (P : S → Type κ) (b : Bool) (m : Exec S Unit) (s : S)
    → P s
    → P (m s).1
    → P (when b m s).1
when_post P true m s h k = k
when_post P false m s h k = h
