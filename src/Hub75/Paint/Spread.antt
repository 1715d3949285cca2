-- ===== src/Hub75/Paint/Spread.antt =====
-- hub75_task.c: how a colour is spread over the bit planes.
use nodem_nrf.Base.{ℕ, zero, suc, ◌+◌, ◌-◌, ◌*◌, ◌/◌, ◌%◌, ◌^◌, ◌≤◌, ◌<◌, ◌≡◌, sym, ap, ◌∙◌, arith}
use nodem_nrf.Hub75.Digits.{digits_lem, mod_digits}
use nodem_nrf.Hub75.Frame.Planes.{plane_of}
use nodem_nrf.Hub75.Paint.{channel_level, plane_bits, spread_planes, spread}

bits-lt : (depth rgb k : ℕ) → plane_bits depth rgb k < 8
bits-lt depth rgb k = omega arith

low_digit : (b r : ℕ) → b < 8 → (b + r * 2 ^ 8) % 8 ≡ b
low_digit b r h = omega arith

high_digits : (b r : ℕ) → b < 8 → (b + r * 2 ^ 8) / 2 ^ 8 ≡ r
high_digits b r h = omega arith

planes_lem :
    (depth rgb n j k : ℕ)
    → k < n
    → plane_of (spread_planes depth rgb n j) k ≡ plane_bits depth rgb (j + k)
unfolding spread_planes
planes_lem depth rgb zero j k h = absurd (omega (arith, h))
planes_lem depth rgb (suc n) j zero h =
    low_digit (plane_bits depth rgb j) (spread_planes depth rgb n (j + 1)) (bits-lt depth rgb j)
    ∙ ap (plane_bits depth rgb) (omega arith)
planes_lem depth rgb (suc n) j (suc k) h =
    ap (λ p. plane_of p k)
      (high_digits (plane_bits depth rgb j) (spread_planes depth rgb n (j + 1))
        (bits-lt depth rgb j))
    ∙ planes_lem depth rgb n (j + 1) k (omega arith)
    ∙ ap (plane_bits depth rgb) (omega arith)

-- What a channel's bits in the planes below `n` weigh, plane `k` giving 2^k units of light.
pub lit_weight : ℕ → ℕ → ℕ → ℕ
lit_weight planes ch zero = 0
lit_weight planes ch (suc n) = lit_weight planes ch n + plane_of planes n / 2 ^ ch % 2 * 2 ^ n

channel_bit :
    (depth rgb k ch : ℕ)
    → ch < 3
    → plane_bits depth rgb k / 2 ^ ch % 2 ≡ channel_level depth rgb ch / 2 ^ k % 2
channel_bit depth rgb k zero h = omega arith
channel_bit depth rgb k (suc zero) h = omega arith
channel_bit depth rgb k (suc (suc zero)) h = omega arith
channel_bit depth rgb k (suc (suc (suc ch))) h = absurd (omega (arith, h))

power_suc : (n : ℕ) → 2 ^ suc n ≡ 2 ^ n * 2
power_suc n = omega arith

power_pos : (n : ℕ) → 0 < 2 ^ n
power_pos zero = omega arith
power_pos (suc n) = omega (arith, power_pos n, power_suc n)

-- The remainder by `m * 2` is that by `m` and one more bit.
bit_step : (x m : ℕ) → 0 < m → x % (m * 2) ≡ x % m + x / m % 2 * m
bit_step x m h =
    let (split, low) = digits_lem x m h in
    let q = x / m in
    let r = x % m in
    let (split', bit) = digits_lem q 2 (omega arith) in
    let whole : x ≡ q / 2 * (m * 2) + (q % 2 * m + r) = grind arith in
    ap (λ (y : ℕ). y % (m * 2)) whole
    ∙ mod_digits (q / 2) (m * 2) (q % 2 * m + r) (grind arith)
    ∙ omega arith

mod_small : (x n : ℕ) → x < n → x % n ≡ x
mod_small x n h = grind arith

next_bit : (x n : ℕ) → x % 2 ^ suc n ≡ x % 2 ^ n + x / 2 ^ n % 2 * 2 ^ n
next_bit x n = ap (λ m. x % m) (power_suc n) ∙ bit_step x (2 ^ n) (power_pos n)

weight_lem :
    (depth rgb ch n : ℕ)
    → ch < 3
    → n ≤ depth
    → lit_weight (spread depth rgb) ch n ≡ channel_level depth rgb ch % 2 ^ n
unfolding spread lit_weight
weight_lem depth rgb ch zero h le = omega arith
weight_lem depth rgb ch (suc n) h le =
    let ih = weight_lem depth rgb ch n h (omega arith) in
    let level = channel_level depth rgb ch in
    ap (λ w. w + plane_of (spread depth rgb) n / 2 ^ ch % 2 * 2 ^ n) ih
    ∙ ap (λ p. level % 2 ^ n + p / 2 ^ ch % 2 * 2 ^ n)
        (planes_lem depth rgb depth 0 n (omega arith))
    ∙ ap (λ k. level % 2 ^ n + plane_bits depth rgb k / 2 ^ ch % 2 * 2 ^ n) (omega arith)
    ∙ ap (λ b. level % 2 ^ n + b * 2 ^ n) (channel_bit depth rgb n ch h)
    ∙ sym (next_bit level n)

share_le : (v top : ℕ) → v < 256 → v * top ≤ 255 * top
share_le v top h = grind arith

level_bounds :
    (v top : ℕ)
    → v < 256
    → let level = (v * top + 127) / 255 in
      (level ≤ top) × (255 * level ≤ v * top + 127) × (v * top ≤ 255 * level + 127)
level_bounds v top h = (omega (arith, share_le v top h), omega arith, omega arith)

-- The bit planes of a spread colour, each weighed with the light it gives, add up to the channel's
-- value on the scale of 2^depth levels, to the nearest: the difference is at most half a level.
pub spread_weight :
    (depth rgb ch : ℕ)
    → ch < 3
    → let level = lit_weight (spread depth rgb) ch depth in
      let v = rgb / 2 ^ (8 * ch) % 2 ^ 8 in
      let top = 2 ^ depth - 1 in
      (level ≤ top) × (255 * level ≤ v * top + 127) × (v * top ≤ 255 * level + 127)
unfolding channel_level
spread_weight depth rgb ch h =
    let v = rgb / 2 ^ (8 * ch) % 2 ^ 8 in
    let bounds = level_bounds v (2 ^ depth - 1) (omega arith) in
    let below : channel_level depth rgb ch < 2 ^ depth = omega (arith, bounds.0, power_pos depth) in
    let level : lit_weight (spread depth rgb) ch depth ≡ channel_level depth rgb ch =
      weight_lem depth rgb ch depth h (omega arith)
      ∙ mod_small (channel_level depth rgb ch) (2 ^ depth) below in
    rw level bounds
