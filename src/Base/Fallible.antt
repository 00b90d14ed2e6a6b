-- ===== src/Base/Fallible.antt =====
-- Rust's `Result`, with `?` as bind.
use mathlib.Core.Option.{Option, none, some}
use mathlib.Core.Path.{◌≡◌, refl, ap}
use mathlib.Core.Logic.{◌⊎◌, inl, inr}

pub data Result (A E : Type 0) : Type 0 where
  ok : A → Result A E
  err : E → Result A E

infixl 5 ◌>>=◌
abbrev pub ◌>>=◌ : {A B E : Type 0} → Result A E → (A → Result B E) → Result B E
ok a >>= f = f a
err e >>= f = err e

-- `r.map_err(f)`.
abbrev pub map_err : {A E E' : Type 0} → (E → E') → Result A E → Result A E'
map_err f (ok a) = ok a
map_err f (err e) = err (f e)

-- `o.ok_or(e)`.
abbrev pub ok_or : {A E : Type 0} → E → Option A → Result A E
ok_or e none = err e
ok_or e (some a) = ok a

pub Result-cases :
    {A E : Type 0} (r : Result A E) → ((a : A) × (r ≡ ok a)) ⊎ ((e : E) × (r ≡ err e))
Result-cases (ok a) = inl (a, refl)
Result-cases (err e) = inr (e, refl)

pub ok_injective : {A E : Type 0} (a a' : A) → ◌≡◌ {A = Result A E} (ok a) (ok a') → a ≡ a'
ok_injective a a' p = ap (λ r. elim r [ ok x ↦ x | err _ ↦ a ]) p
