-- ===== src/Hub75/Render/Brightness.antt =====
-- How long OE lights each bit plane: `oe_set` of hub75_task.c.
use nodem_nrf.Base.{ℕ, suc, ◌+◌, ◌-◌, ◌*◌, ◌/◌, ◌%◌, ◌^◌, ◌≤◌, ◌<◌, ◌≡◌, sym, ap, ◌∙◌, arith}
use native.Mathlib.Nat.{pow-le-pow_right, one-le-pow, pow-suc, mul_assoc, add-mul}
use nodem_nrf.Base.{Bool-cases, ltb, inl, inr}
use nodem_nrf.Hub75.Digits.{digits_lem, div_digits}
use nodem_nrf.Hub75.Render.{hub75_brightness_max, on_ticks_of, plane_ticks}

product_le : (a b m n : ℕ) → a ≤ m → b ≤ n → a * b ≤ m * n
product_le a b m n h l = grind arith

share_le : (t a b : ℕ) → 0 < b → a ≤ b → t * a / b ≤ t
share_le t a b pos h = grind arith

twice_div : (a n : ℕ) → 0 < n → (2 * (a / n) ≤ a * 2 / n) × (a * 2 / n ≤ 2 * (a / n) + 1)
twice_div a n h =
    let (split, small) = digits_lem a n h in
    let q = a / n in
    let r = a % n in
    elim (Bool-cases (ltb (2 * r) n)) [
      | inl fits ↦
          let e : a * 2 ≡ 2 * q * n + 2 * r = omega (arith, split, mul_assoc 2 q n) in
          let same = ap (λ (z : ℕ). z / n) e ∙ div_digits (2 * q) n (2 * r) (ground arith) in
          (omega (arith, same), omega (arith, same))
      | inr carries ↦
          let enough : n ≤ 2 * r = ground arith in
          let e : a * 2 ≡ (2 * q + 1) * n + (2 * r - n) =
            omega (arith, split, enough, add-mul (2 * q) 1 n, mul_assoc 2 q n) in
          let same =
            ap (λ (z : ℕ). z / n) e
            ∙ div_digits (2 * q + 1) n (2 * r - n) (omega (arith, small, enough)) in
          (omega (arith, same), omega (arith, same))
    ]

mul_div : (a n : ℕ) → 0 < n → a * n / n ≡ a
mul_div a n h = grind arith

double :
    (t k n : ℕ)
    → 0 < n
    → (2 * (t * 2 ^ k / n) ≤ t * 2 ^ suc k / n)
      × (t * 2 ^ suc k / n ≤ 2 * (t * 2 ^ k / n) + 1)
      × (t * n / n ≡ t)
double t k n h =
    let e : t * 2 ^ suc k ≡ t * 2 ^ k * 2 =
      ap (λ (z : ℕ). t * z) (pow-suc 2 k) ∙ sym (mul_assoc t (2 ^ k) 2) in
    let (below, above) = twice_div (t * 2 ^ k) n h in (rw e below, rw e above, mul_div t n h)

module _ (len top brightness : ℕ) (len_range : len ≤ 576) (top_range : (0 < top) × (top ≤ 160))
    (bright : brightness ≤ hub75_brightness_max) where
  -- Nothing wraps: the ticks are the share of the row's, rounded to the nearest, and at most all.
  pub on_ticks_lem :
      (on_ticks_of len top brightness ≡ (len * top * brightness + 16383) / hub75_brightness_max)
      × (on_ticks_of len top brightness ≤ len * top)
  unfolding on_ticks_of
  on_ticks_lem =
      let row = product_le len top 576 160 len_range top_range.1 in
      let share = product_le (len * top) brightness 92160 32767 row bright in
      let most = product_le (len * top) brightness (len * top) 32767 (omega arith) bright in
      let whole : len * top % 2 ^ 32 ≡ len * top = omega (arith, row) in
      rw whole (omega (arith, share, most))

  -- Plane `k` gets `2 ^ k` units of which the most significant plane gets the whole brightness.
  module _ (depth : ℕ) (deep : (0 < depth) × (depth ≤ 8)) where
    plane_small : (k : ℕ) → k < depth → on_ticks_of len top brightness * 2 ^ k ≤ 92160 * 128
    plane_small k h =
        let row = product_le len top 576 160 len_range top_range.1 in
        product_le _ _ 92160 128 (omega (arith, on_ticks_lem.1, row))
          (pow-le-pow_right {n = 2} (omega arith) {i = k} {j = 7} (omega (arith, h, deep)))

    pub plane_ticks_lem :
        (k : ℕ)
        → k < depth
        → plane_ticks (on_ticks_of len top brightness) depth k
          ≡ on_ticks_of len top brightness * 2 ^ k / 2 ^ (depth - 1)
    unfolding plane_ticks
    plane_ticks_lem k h = ap (λ (t : ℕ). t / 2 ^ (depth - 1)) (omega (arith, plane_small k h))

    pub plane_ticks-le :
        (k : ℕ)
        → k < depth
        → plane_ticks (on_ticks_of len top brightness) depth k ≤ on_ticks_of len top brightness
    plane_ticks-le k h = rw (plane_ticks_lem k h) (
        share_le (on_ticks_of len top brightness) (2 ^ k) (2 ^ (depth - 1))
          (one-le-pow (depth - 1) 2 (omega arith))
          (pow-le-pow_right {n = 2} (omega arith) {i = k} {j = depth - 1} (omega (arith, h))))

    -- Each bit plane gets twice the light of the one below, to a tick, and the highest the whole
    -- configured share.
    pub plane_ticks_double :
        (k : ℕ)
        → suc k < depth
        → let t = λ (j : ℕ). plane_ticks (on_ticks_of len top brightness) depth j in
          (2 * t k ≤ t (suc k))
          × (t (suc k) ≤ 2 * t k + 1)
          × (t (depth - 1) ≡ on_ticks_of len top brightness)
    plane_ticks_double k h =
        rw
          (
            plane_ticks_lem k (omega (arith, h)),
            plane_ticks_lem (suc k) h,
            plane_ticks_lem (depth - 1) (omega (arith, deep)),
          )
          (double (on_ticks_of len top brightness) k (2 ^ (depth - 1))
            (one-le-pow (depth - 1) 2 (omega arith)))
