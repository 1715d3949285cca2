-- ===== src/Hub75/Digits.antt =====
-- Positions written as a quotient and a remainder.
use nodem_nrf.Base.{
  ℕ, ◌+◌, ◌-◌, ◌*◌, ◌/◌, ◌%◌, ◌^◌, ◌≤◌, ◌<◌, Bool, true, false, ◌≡◌, ◌⊎◌, sym, ap, ◌∙◌, arith,
  if◌then◌else◌,
}
use native.Mathlib.Nat.{mul_assoc, mul_right_comm}

pub div_digits : (q n r : ℕ) → r < n → (q * n + r) / n ≡ q
div_digits q n r h = grind arith

pub mod_digits : (q n r : ℕ) → r < n → (q * n + r) % n ≡ r
mod_digits q n r h = grind arith

pub digits_lem : (x n : ℕ) → 0 < n → (x ≡ x / n * n + x % n) × (x % n < n)
digits_lem x n h = (grind arith, grind arith)

-- One number has one quotient and one remainder.
pub digits_unique :
    (n q r q' r' : ℕ) → r < n → r' < n → q * n + r ≡ q' * n + r' → (q ≡ q') × (r ≡ r')
digits_unique n q r q' r' h h' e = (
  sym (div_digits q n r h) ∙ ap (λ (z : ℕ). z / n) e ∙ div_digits q' n r' h',
  sym (mod_digits q n r h) ∙ ap (λ (z : ℕ). z % n) e ∙ mod_digits q' n r' h',
)

pub digits-lt : (q n r m : ℕ) → q < m → r < n → q * n + r < m * n
digits-lt q n r m h l = grind arith

pub div-lt : (x n m : ℕ) → 0 < n → x < m * n → x / n < m
div-lt x n m h l = grind arith

-- A multiple is its quotient's.
pub div_exact : (x n : ℕ) → 0 < n → x % n ≡ 0 → x ≡ x / n * n
div_exact x n h e = grind arith

-- The place counted from the other end.
abbrev pub mirrored : Bool → ℕ → ℕ → ℕ
mirrored b n i = if b then n - 1 - i else i

pub mirrored-lt : (b : Bool) (n i : ℕ) → i < n → mirrored b n i < n
mirrored-lt true n i h = omega arith
mirrored-lt false n i h = h

pub mirrored_injective :
    (b : Bool) (n i j : ℕ) → i < n → j < n → mirrored b n i ≡ mirrored b n j → i ≡ j
mirrored_injective true n i j h l e = omega arith
mirrored_injective false n i j h l e = e

pub swap_factors : (q n r p : ℕ) → p ≡ q * n → q * r * n ≡ p * r
swap_factors q n r p e = mul_right_comm q r n ∙ ap (λ (z : ℕ). z * r) (sym e)

pub mul-mul : (a b c : ℕ) → a * b * c ≡ a * (b * c)
mul-mul a b c = mul_assoc a b c

pub same_digits : (x y n : ℕ) → 0 < n → x / n ≡ y / n → x % n ≡ y % n → x ≡ y
same_digits x y n h q r =
    omega (arith, (digits_lem x n h).0, (digits_lem y n h).0, ap (λ (z : ℕ). z * n) q, r)

pub le-mul : (m n : ℕ) → 0 < m → n ≤ m * n
le-mul m n h = grind arith

pub sum_cast : (a b c : ℕ) → a + (b + c) < 2 ^ 16 → (a + b + c) % 2 ^ 16 ≡ a + (b + c)
sum_cast a b c h = omega arith

pub mul-pos : (m n : ℕ) → 0 < m → 0 < n → 0 < m * n
mul-pos m n h l = grind arith

-- The same, counted from the end of each stretch of `n`.
pub ends_unique :
    (n a p a' p' : ℕ)
    → p < n
    → p' < n
    → a * n + n - 1 - p ≡ a' * n + n - 1 - p'
    → (a ≡ a') × (p ≡ p')
ends_unique n a p a' p' h h' e =
    let (stretch, place) =
      digits_unique n a (n - 1 - p) a' (n - 1 - p') (omega arith) (omega arith) (omega arith) in
    (stretch, omega (arith, place))

pub end-lt : (a n p m : ℕ) → a < m → p < n → a * n + n - 1 - p < m * n
end-lt a n p m h l =
    let below = digits-lt a n (n - 1 - p) m h (omega (arith, l)) in omega (arith, below, l)

pub shift_two : (q : ℕ) → q < 2 → (q * 3 ≡ 0) ⊎ (q * 3 ≡ 3)
shift_two q h = ground arith

pub div-le_of_le : (x n m : ℕ) → 0 < n → x ≤ m * n → x / n ≤ m
div-le_of_le x n m h l = grind arith
