-- ===== src/Base/Decimal.antt =====
-- Numbers as decimal texts, and a text split at the last separator.
use Prim.Native.Nat.{ℕ, zero, suc, ◌+◌, ◌-◌, ◌*◌, ◌/◌, ◌%◌, ◌^◌, ◌≤◌, ◌<◌}
use mathlib.Core.Path.{◌≡◌, refl, ◌∙◌}
use mathlib.Core.Logic.{◌⊎◌, ◌≢◌, inl, inr}
use mathlib.Core.Bool.{Bool, false, ◌&&◌}
use mathlib.Core.Option.{Option, none, some}
use mathlib.Core.List.{[], ◌∷◌, ◌++◌}
use native.Mathlib.Omega.{arith}
use spatiad.Base.Tests.{ltb, leb, nat_beq, if◌then◌else◌, Bool-cases}
use spatiad.Base.Text.{Text, show, show_digits}

abbrev is_digit : ℕ → Bool
is_digit c = leb b'0' c && leb c b'9'

-- The number that decimal digits go on to, from the number of the digits before them.
unfoldable pub digits_value : ℕ → Text → Option ℕ
digits_value acc [] = some acc
digits_value acc (c ∷ s) =
    let rest = digits_value (acc * 10 + (c - b'0')) s in if is_digit c then rest else none

abbrev below : ℕ → Option ℕ → Option ℕ
below bound none = none
below bound (some n) = if ltb n bound then some n else none

-- Digits that are not empty. A number of 2^64 or more is an overflow.
unfoldable pub parse_digits : Text → Option ℕ
parse_digits [] = none
parse_digits (c ∷ s) = below (2 ^ 64) (digits_value 0 (c ∷ s))

-- `str::parse::<u64>().ok()`: digits after an optional `+`.
unfoldable pub parse_u64 : Text → Option ℕ
parse_u64 [] = none
parse_u64 (c ∷ s) = if nat_beq c b'+' then parse_digits s else parse_digits (c ∷ s)

-- `str::rsplit_once(c)`.
unfoldable pub rsplit_once : ℕ → Text → Option (Text × Text)
rsplit_once separator [] = none
rsplit_once separator (c ∷ s) = elim (rsplit_once separator s) [
  | some (before, after) ↦ some (c ∷ before, after)
  | none ↦ if nat_beq c separator then some ([], s) else none
]

-- No character is the separator.
abbrev pub IsFree : ℕ → Text → Type 0
IsFree separator [] = Unit {0}
IsFree separator (c ∷ s) = (nat_beq c separator ≡ false) × IsFree separator s

rsplit_once-free : (separator : ℕ) (s : Text) → IsFree separator s → rsplit_once separator s ≡ none
unfolding rsplit_once
rsplit_once-free separator [] q = refl
rsplit_once-free separator (c ∷ s) q = ground (arith, rsplit_once-free separator s q.1, q.0)

-- A text joined by the separator splits again, if the last part is free of it.
pub rsplit_once-join :
    (separator : ℕ) (s r : Text)
    → IsFree separator r
    → rsplit_once separator (s ++ (separator ∷ r)) ≡ some (s, r)
unfolding rsplit_once
rsplit_once-join separator [] r q = ground (arith, rsplit_once-free separator r q)
rsplit_once-join separator (c ∷ s) r q = ground (arith, rsplit_once-join separator s r q)

digits_value-show_digits :
    (fuel n : ℕ) (rest : Text)
    → n ≤ fuel
    → digits_value 0 (show_digits fuel n rest) ≡ digits_value n rest
unfolding show_digits digits_value
digits_value-show_digits zero zero rest p = refl
digits_value-show_digits zero (suc n) rest p = elim p [ ]
digits_value-show_digits (suc fuel) n rest p = elim (Bool-cases (nat_beq n 0)) [
  | inl t ↦ ground (arith, t)
  | inr t ↦
      let more =
        digits_value-show_digits fuel (n / 10) ((b'0' + n % 10) ∷ rest) (ground (arith, t)) in
      ground (arith, t, more)
]

digit_lem : (separator n : ℕ) → separator < b'0' ⊎ b'9' < separator → b'0' + n % 10 ≢ separator
digit_lem separator n (inl p) = omega arith
digit_lem separator n (inr p) = omega arith

show_digits-IsFree :
    (separator fuel n : ℕ) (rest : Text)
    → separator < b'0' ⊎ b'9' < separator
    → IsFree separator rest
    → IsFree separator (show_digits fuel n rest)
unfolding show_digits
show_digits-IsFree separator zero n rest o q = q
show_digits-IsFree separator (suc fuel) n rest o q = elim (Bool-cases (nat_beq n 0)) [
  | inl t ↦ rw t q
  | inr t ↦ rw t (
      show_digits-IsFree separator fuel (n / 10) ((b'0' + n % 10) ∷ rest) o
        (ground (arith, digit_lem separator n o), q))
]

pub show-IsFree :
    (separator n : ℕ) → separator < b'0' ⊎ b'9' < separator → IsFree separator (show n)
unfolding show
show-IsFree separator n o = elim (Bool-cases (nat_beq n 0)) [
  | inl t ↦ rw t (ground (arith, digit_lem separator 0 o), tt)
  | inr t ↦ rw t (show_digits-IsFree separator n n [] o tt)
]

parse_u64-plain :
    (s : Text) (n : ℕ)
    → IsFree b'+' s
    → digits_value 0 s ≡ some n
    → n ≢ 0
    → n < 2 ^ 64
    → parse_u64 s ≡ some n
unfolding parse_u64 parse_digits
parse_u64-plain [] n q v p l = unfold digits_value in ground (arith, v)
parse_u64-plain (c ∷ s) n q v p l = ground (arith, q.0, v)

-- What `{}` prints of a 64-bit number, `parse` reads.
pub parse_u64-show : (n : ℕ) → n < 2 ^ 64 → parse_u64 (show n) ≡ some n
unfolding show
parse_u64-show n l = elim (Bool-cases (nat_beq n 0)) [
  | inl t ↦ rw t (unfold parse_u64 parse_digits digits_value in ground (arith, t))
  | inr t ↦ rw t (
      parse_u64-plain (show_digits n n []) n (show_digits-IsFree b'+' n n [] (inl (omega arith)) tt)
        (digits_value-show_digits n n [] (omega arith) ∙ unfold digits_value in refl)
        (ground (arith, t)) l)
]
