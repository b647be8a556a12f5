-- ===== src/Base/Results.antt =====
-- Python's exceptions as values: what a pure function raises is an `err`.
use mathlib.Core.Path.{◌≡◌, refl}
use mathlib.Core.Option.{Option, none, some}

pub data Fault : Type 0 where
  value_error struct_error key_error index_error stop_iteration assertion_error invalid_state :
      Fault
  type_error not_implemented zero_division : Fault

pub data Result {ℓ} (A : Type ℓ) : Type ℓ where
  ok : A → Result A
  err : Fault → Result A

-- A subscript: a missing key or index raises the given fault.
abbrev pub or_raise {κ} : {V : Type κ} → Fault → Option V → Result V
or_raise fault (some v) = ok v
or_raise fault none = err fault

infixl 5 ◌>>=◌
abbrev pub ◌>>=◌ {ℓ κ} : {V : Type ℓ} {W : Type κ} → Result V → (V → Result W) → Result W
err fault >>= next = err fault
ok v >>= next = next v

pub ok-injective {ℓ} : {A : Type ℓ} {a b : A} → ok a ≡ ok b → a ≡ b
ok-injective h = cc

pub err-ne-ok {ℓ} : {A : Type ℓ} {e : Fault} {a : A} → err e ≡ ok a → ⊥
err-ne-ok h = cc

-- Inversion of a chain that succeeded.
pub bind-ok {κ ℓ} :
    {W : Type κ} {V : Type ℓ} (first : Result V) (next : V → Result W) {w : W}
    → (first >>= next) ≡ ok w
    → (v : V) × (first ≡ ok v) × (next v ≡ ok w)
bind-ok (err fault) next h = cc
bind-ok (ok v) next h = (v, refl, h)

pub or_raise-ok {ℓ} :
    {V : Type ℓ} {v : V} (fault : Fault) (o : Option V) → or_raise fault o ≡ ok v → o ≡ some v
or_raise-ok fault none h = cc
or_raise-ok fault (some v) h = cc
