-- ===== src/Text/Decimal/RoundTrip.antt =====
-- `strtol` reads back what %u and %d print, and how long that is.
use native.Mathlib.Nat.{pow-suc}
use mathlib.Core.List.{concat-ne-nil}
use nodem_nrf.Base.{
  ℕ, zero, suc, ◌+◌, ◌-◌, ◌*◌, ◌/◌, ◌%◌, ◌^◌, ◌≤◌, ◌<◌, Bool, true, false, [], ◌∷◌, ◌++◌,
  append_assoc, ◌≡◌, ◌≢◌, refl, ap, ◌∙◌, some, arith, ℤ, pos, negsuc, neg, pos_part, neg_part, inl,
  inr, All, All-append, length, length-append, ltb, Bool-cases,
}
use nodem_nrf.Text.{Bytes}
use nodem_nrf.Text.Decimal.{
  is_digit, read_digits, strtol, show_fuel, show, show_int, starts_with_digit, long_max, number,
  signed,
}

-- What follows a number in the formats: nothing, or a byte that is no digit.
abbrev pub Stops : Bytes → Type 0
Stops [] = Unit
Stops (c ∷ s) = is_digit c ≡ false

abbrev pub AllDigits : Bytes → Type 0
AllDigits = All (λ c. is_digit c ≡ true)

read_digits-Stops : (s : Bytes) (n : ℕ) → Stops s → read_digits s n ≡ (n, s)
unfolding read_digits
read_digits-Stops [] n h = refl
read_digits-Stops (c ∷ s) n h = ground arith

read_digits_cons :
    (d : ℕ) (s : Bytes) (n : ℕ)
    → d < 10
    → read_digits ((b'0' + d) ∷ s) n ≡ read_digits s (n * 10 + d)
unfolding read_digits is_digit
read_digits_cons d s n h =
    let e : b'0' + d - b'0' ≡ d = omega arith in
    let t : is_digit (b'0' + d) ≡ true = ground arith in ground (arith, e, t)

read_digits-show_fuel :
    (f n : ℕ) (rest : Bytes) → n < f → read_digits (show_fuel f n ++ rest) 0 ≡ read_digits rest n
unfolding show_fuel
read_digits-show_fuel zero n rest h = absurd (omega arith)
read_digits-show_fuel (suc f) n rest h = elim (Bool-cases (ltb n 10)) [
  | inl small ↦
      rw small (read_digits_cons n rest 0 (ground arith) ∙ ap (read_digits rest) (omega arith))
  | inr large ↦
      rw (large, append_assoc)
        (read_digits-show_fuel f (n / 10) ((b'0' + n % 10) ∷ rest) (ground arith)
          ∙ read_digits_cons (n % 10) rest (n / 10) (omega arith)
          ∙ ap (read_digits rest) (omega arith))
]

show_fuel-AllDigits : (f n : ℕ) → AllDigits (show_fuel f n)
unfolding show_fuel is_digit
show_fuel-AllDigits zero n = tt
show_fuel-AllDigits (suc f) n = elim (Bool-cases (ltb n 10)) [
  | inl small ↦ rw small (ground arith)
  | inr large ↦ rw large (
      All-append _ (show_fuel f (n / 10)) ((b'0' + n % 10) ∷ []) (show_fuel-AllDigits f (n / 10))
        (ground arith))
]

-- A printed number is made of digits.
pub show-AllDigits : (n : ℕ) → AllDigits (show n)
unfolding show
show-AllDigits n = show_fuel-AllDigits (suc n) n

show_fuel-ne-nil : (f n : ℕ) → show_fuel (suc f) n ≢ []
unfolding show_fuel
show_fuel-ne-nil f n = elim (Bool-cases (ltb n 10)) [
  | inl small ↦ rw small (λ e. cc)
  | inr large ↦ rw large (concat-ne-nil (b'0' + n % 10) (show_fuel f (n / 10)))
]

length-show_fuel : (k f n : ℕ) → n < 10 ^ suc k → n < f → length (show_fuel f n) ≤ suc k
unfolding show_fuel
length-show_fuel k zero n h l = absurd (omega arith)
length-show_fuel zero (suc f) n h l = ground arith
length-show_fuel (suc k) (suc f) n h l = elim (Bool-cases (ltb n 10)) [
  | inl small ↦ rw small (omega arith)
  | inr large ↦ rw large (
      omega (
        arith,
        length-append (show_fuel f (n / 10)) ((b'0' + n % 10) ∷ []),
        length-show_fuel k f (n / 10) (omega (arith, pow-suc 10 (suc k))) (ground arith),
      ))
]

-- A number below 10 ^ (k + 1) has at most k + 1 digits.
pub length-show-le : (k n : ℕ) → n < 10 ^ suc k → length (show n) ≤ suc k
unfolding show
length-show-le k n h = length-show_fuel k (suc n) n h (omega arith)

starts-append : (s rest : Bytes) → s ≢ [] → AllDigits s → starts_with_digit (s ++ rest) ≡ true
starts-append [] rest ne h = absurd (ne refl)
starts-append (c ∷ s) rest ne (hc, h) = hc

number-show :
    (minus : Bool) (n : ℕ) (rest : Bytes)
    → Stops rest
    → number minus (show n ++ rest) ≡ some (signed minus n, rest)
unfolding show
number-show minus n rest h =
    let read : read_digits (show n ++ rest) 0 ≡ (n, rest) =
      read_digits-show_fuel (suc n) n rest (omega arith) ∙ read_digits-Stops rest n h in
    let starts = starts-append (show n) rest (show_fuel-ne-nil n n) (show-AllDigits n) in
    rw (read, starts)

-- A text that begins with a digit has no blanks and no sign.
strtol_of_digit : (s : Bytes) → starts_with_digit s ≡ true → strtol s ≡ number false s
unfolding strtol
strtol_of_digit [] h = cc
strtol_of_digit (c ∷ s) h = ground arith

strtol_minus : (s : Bytes) → strtol (b'-' ∷ s) ≡ number true s
unfolding strtol
strtol_minus s = refl

show-starts : (n : ℕ) (rest : Bytes) → starts_with_digit (show n ++ rest) ≡ true
unfolding show
show-starts n rest = starts-append (show n) rest (show_fuel-ne-nil n n) (show-AllDigits n)

-- `strtol` on what %u printed, whatever stands behind it that is no digit.
pub strtol-show :
    (n : ℕ) (rest : Bytes)
    → n ≤ long_max
    → Stops rest
    → strtol (show n ++ rest) ≡ some (pos n, rest)
strtol-show n rest h st =
    strtol_of_digit (show n ++ rest) (show-starts n rest)
    ∙ number-show false n rest st
    ∙ ap (λ k. some (pos k, rest)) (omega arith)

-- The same for %d.
pub strtol-show_int :
    (z : ℤ) (rest : Bytes)
    → pos_part z ≤ long_max
    → neg_part z ≤ 2 ^ 31
    → Stops rest
    → strtol (show_int z ++ rest) ≡ some (z, rest)
unfolding show_int
strtol-show_int (pos n) rest hp hn st = strtol-show n rest hp st
strtol-show_int (negsuc n) rest hp hn st =
    strtol_minus (show (suc n) ++ rest)
    ∙ number-show true (suc n) rest st
    ∙ ap (λ k. some (neg k, rest)) {y = suc n} (omega arith)

-- A printed number is not empty.
pub show-ne-nil : (n : ℕ) → show n ≢ []
unfolding show
show-ne-nil n = show_fuel-ne-nil n n
