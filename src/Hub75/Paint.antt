-- ===== src/Hub75/Paint.antt =====
-- hub75_task.c: the colours of the matrix, and what an effect makes of its palette.
pub mod Spread
pub mod Effects
use Prim.Native.Nat.{bit_xor}
use nodem_nrf.Base.{
  ℕ, zero, suc, ◌+◌, ◌-◌, ◌*◌, ◌/◌, ◌%◌, ◌^◌, min, List, [], ◌∷◌, ℤ, pos, negsuc, pos_part, neg,
  ◌==◌, if◌then◌else◌, length,
}
use nodem_nrf.Hub75.{Effect, Color}

-- `RGB24`: red in bits 0-7, green in 8-15, blue in 16-23.
abbrev pub rgb24 : ℕ → ℕ → ℕ → ℕ
rgb24 r g b = r + g * 2 ^ 8 + b * 2 ^ 16

unfoldable pub gamma8 : ℕ → ℕ
gamma8 v = (v * v + 254) / 255 % 2 ^ 8

-- The arguments of `gamma8` are cut to a byte.
unfoldable pub color_rgb24 : ℕ → ℕ
color_rgb24 rgb =
    rgb24 (gamma8 (rgb / 2 ^ 16 % 2 ^ 8)) (gamma8 (rgb / 2 ^ 8 % 2 ^ 8)) (gamma8 (rgb % 2 ^ 8))

-- `level[ch]`
unfoldable pub channel_level : ℕ → ℕ → ℕ → ℕ
channel_level depth rgb ch = (rgb / 2 ^ (8 * ch) % 2 ^ 8 * (2 ^ depth - 1) + 127) / 255

-- `bits` of one plane.
abbrev pub plane_bits : ℕ → ℕ → ℕ → ℕ
plane_bits depth rgb k =
    channel_level depth rgb 0 / 2 ^ k % 2
    + channel_level depth rgb 1 / 2 ^ k % 2 * 2
    + channel_level depth rgb 2 / 2 ^ k % 2 * 4

-- The planes from `k` on, `n` of them, a byte each.
unfoldable pub spread_planes : ℕ → ℕ → ℕ → ℕ → ℕ
spread_planes depth rgb zero k = 0
spread_planes depth rgb (suc n) k =
    plane_bits depth rgb k + spread_planes depth rgb n (k + 1) * 2 ^ 8

unfoldable pub spread : ℕ → ℕ → ℕ
spread depth rgb = spread_planes depth rgb depth 0

-- `(uint8_t)` of an `int`.
unfoldable pub u8 : ℤ → ℕ
u8 (pos n) = n % 2 ^ 8
u8 (negsuc n) = 2 ^ 8 - 1 - n % 2 ^ 8

-- `>>` of an `int`, which keeps the sign.
unfoldable pub shift_right : ℤ → ℕ → ℤ
shift_right (pos n) k = pos (n / 2 ^ k)
shift_right (negsuc n) k = negsuc (n / 2 ^ k)

unfoldable pub entry_at : List ℕ → ℕ → ℕ
entry_at [] i = 0
entry_at (x ∷ xs) zero = x
entry_at (x ∷ xs) (suc i) = entry_at xs i

abbrev pub sin_quarter : List ℕ
sin_quarter =
    0 ∷ 3 ∷ 6 ∷ 9 ∷ 12 ∷ 16 ∷ 19 ∷ 22 ∷ 25 ∷ 28 ∷ 31 ∷ 34 ∷ 37 ∷ 40 ∷ 43 ∷ 46 ∷ 49 ∷ 51 ∷ 54 ∷ 57
    ∷ 60 ∷ 63 ∷ 65 ∷ 68 ∷ 71 ∷ 73 ∷ 76 ∷ 78 ∷ 81 ∷ 83 ∷ 85 ∷ 88 ∷ 90 ∷ 92 ∷ 94 ∷ 96 ∷ 98 ∷ 100 ∷ 102
    ∷ 104 ∷ 106 ∷ 107 ∷ 109 ∷ 111 ∷ 112 ∷ 113 ∷ 115 ∷ 116 ∷ 117 ∷ 118 ∷ 120 ∷ 121 ∷ 122 ∷ 122 ∷ 123
    ∷ 124 ∷ 125 ∷ 125 ∷ 126 ∷ 126 ∷ 126 ∷ 127 ∷ 127 ∷ 127 ∷ 127 ∷ []

unfoldable pub sin8 : ℕ → ℤ
sin8 a =
    let i = a % 64 in
    if a / 64 == 0
    then pos (entry_at sin_quarter i)
    else if a / 64 == 1
    then pos (entry_at sin_quarter (64 - i))
    else if a / 64 == 2
    then neg (entry_at sin_quarter i)
    else neg (entry_at sin_quarter (64 - i))

abbrev pub wheel : List ℕ
wheel = 1 ∷ 3 ∷ 2 ∷ 6 ∷ 4 ∷ 5 ∷ []

abbrev pub fire_heat : List ℕ
fire_heat = 0 ∷ 1 ∷ 3 ∷ 7 ∷ []

abbrev pub sparkle_pool : List ℕ
sparkle_pool = 1 ∷ 3 ∷ 2 ∷ 6 ∷ 4 ∷ 5 ∷ 7 ∷ []

unfoldable pub default_palette : Effect → List ℕ
default_palette Effect.fire = fire_heat
default_palette Effect.sparkle = sparkle_pool
default_palette e = wheel

-- The effect's own palette, or the configured one where there is one.
unfoldable pub effect_palette : Color → List ℕ
effect_palette c = if length c.palette == 0 then default_palette c.effect else c.palette

abbrev pub xor_shift : ℕ → ℕ → ℕ
xor_shift h k = bit_xor h (h / 2 ^ k)

unfoldable pub hash3 : ℕ → ℕ → ℕ → ℕ
hash3 x y z =
    let mixed =
      bit_xor (bit_xor (x * 0x9e3779b1 % 2 ^ 32) (y * 0x85ebca77 % 2 ^ 32))
        (z * 0xc2b2ae3d % 2 ^ 32) in
    let once = xor_shift mixed 16 * 0x7feb352d % 2 ^ 32 in
    let twice = xor_shift once 15 * 0x846ca68b % 2 ^ 32 in xor_shift twice 16

-- A channel of `blend`; `c` is a colour of 3 bits.
unfoldable pub blend_channel : ℕ → ℕ → ℕ → ℕ → ℕ → ℕ
blend_channel c_0 c_1 f level ch =
    let a = if c_0 / 2 ^ ch % 2 == 1 then 255 else 0 in
    let b = if c_1 / 2 ^ ch % 2 == 1 then 255 else 0 in
    let v = (a * (256 - f) + b * f) / 2 ^ 8 in gamma8 (v * level / 2 ^ 7 % 2 ^ 8)

unfoldable pub blend : ℕ → ℕ → ℕ → ℕ → ℕ
blend c_0 c_1 f level =
    rgb24 (blend_channel c_0 c_1 f level 0) (blend_channel c_0 c_1 f level 1)
      (blend_channel c_0 c_1 f level 2)

-- On a palette that is not empty.
unfoldable pub pick : List ℕ → ℕ → ℕ
pick pal v =
    let n = length pal in
    let p = v * n in
    let i = p / 2 ^ 8 in blend (entry_at pal i) (entry_at pal ((i + 1) % n)) (p % 2 ^ 8) 128

unfoldable pub pick_ramp : List ℕ → ℕ → ℕ
pick_ramp pal v =
    let n = length pal in
    let p = v * (n - 1) in
    let i = p / 2 ^ 8 in
    if n == 1
    then blend (entry_at pal 0) (entry_at pal 0) 0 128
    else blend (entry_at pal i) (entry_at pal (min (i + 1) (n - 1))) (p % 2 ^ 8) 128

abbrev pub sparkle_steps : ℕ
sparkle_steps = 32

-- The sine of the first half of a circle is not negative.
unfoldable pub sparkle_level : ℕ → ℕ
sparkle_level step = pos_part (sin8 (step * (128 / sparkle_steps))) * 128 / 127 % 2 ^ 8
