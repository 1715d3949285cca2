-- ===== src/NodemConfig/Axis.antt =====
-- Which framebuffer coordinate a driver's pixel reads: `nodem_map_axis`.
use nodem_nrf.Base.{
  ℕ, suc, ◌+◌, ◌-◌, ◌*◌, ◌/◌, ◌^◌, ◌≤◌, ◌<◌, ◌≡◌, ◌↔◌, ap, ◌∙◌, arith, ℤ, pos, negsuc, pos_part,
  neg_part, sub_ℕ, ◌+ℤ◌, ◌≤ℤ◌,
}
use nodem_nrf.NodemConfig.{axis_margin, floor_div, clamp_i16, nodem_map_axis}

div_block : (v r k : ℕ) → r < k → (v * k + r) / k ≡ v
div_block v r k h = grind arith

sub_ℕ_block : (m t : ℕ) → sub_ℕ (m + t) m ≡ pos t
sub_ℕ_block m t = ground arith

-- Framebuffer coordinate `v` covers the `scale` pixels of the driver from `margin + v * scale` on,
-- which read it at `shift + v`, held to the range of `int16_t`.
pub map_axis_block :
    (size fb_size scale v r : ℕ) (shift : ℤ)
    → r < scale
    → nodem_map_axis (axis_margin size fb_size scale + (v * scale + r)) size fb_size scale shift
      ≡ clamp_i16 (shift +ℤ pos v)
unfolding nodem_map_axis floor_div
map_axis_block size fb_size scale v r shift h =
    let m = axis_margin size fb_size scale in
    ap (λ z. clamp_i16 (shift +ℤ floor_div z scale)) (sub_ℕ_block m (v * scale + r))
    ∙ ap (λ q. clamp_i16 (shift +ℤ pos q)) (div_block v r scale h)

-- A coordinate that is in the framebuffer.
abbrev pub IsShown : ℤ → ℕ → Type 0
IsShown v fb_size = (pos 0 ≤ℤ v) × (pos_part v < fb_size + neg_part v)

in_buffer : (x y w h : ℕ) → x < w → y < h → y * w + x < w * h
in_buffer x y w h l u = grind arith

-- A pixel that is in the framebuffer has its bit.
pub in_frame : (x y : ℤ) (w h : ℕ) → IsShown x w → IsShown y h → pos_part y * w + pos_part x < w * h
in_frame (pos x) (pos y) w h (_, l) (_, u) = in_buffer x y w h (omega (arith, l)) (omega (arith, u))
in_frame (pos x) (negsuc y) w h (_, l) (a, u) = ground arith
in_frame (negsuc x) y w h (a, l) u = ground arith

clamp-IsShown :
    (q : ℤ) (fb_size : ℕ)
    → fb_size < 2 ^ 15
    → IsShown (clamp_i16 (pos 0 +ℤ q)) fb_size ↔ IsShown q fb_size
unfolding clamp_i16 ◌+ℤ◌
clamp-IsShown (pos n) fb_size h = (λ s. ground arith, λ s. ground arith)
clamp-IsShown (negsuc n) fb_size h = (λ s. ground arith, λ s. ground arith)

div-lt_iff : (t k n : ℕ) → 0 < k → (t / k < n) ↔ (t < n * k)
div-lt_iff t k n h = (λ l. grind arith, λ l. grind arith)

neg_div-pos : (n k : ℕ) → 0 < k → 0 < (suc n + k - 1) / k
neg_div-pos n k h = grind arith

floor_div-IsShown :
    (d m scale fb_size : ℕ)
    → 0 < scale
    → IsShown (floor_div (sub_ℕ d m) scale) fb_size ↔ ((m ≤ d) × (d < m + fb_size * scale))
unfolding floor_div
floor_div-IsShown d m scale fb_size h =
    let k = div-lt_iff (d - m) scale fb_size h in
    let p = neg_div-pos (m - d - 1) scale h in (λ s. ground arith, λ s. ground arith)

-- With no offset, a driver's pixel shows the framebuffer exactly if it lies in the window of
-- `fb_size * scale` pixels behind the margin. A window that fits has the margin on both sides, but for
-- one pixel more behind it where the rest is odd; one that does not fit has none. The scale is
-- positive and the framebuffer has less than 2^15 pixels.
pub map_axis-IsShown :
    (d size fb_size scale : ℕ)
    → 0 < scale
    → fb_size < 2 ^ 15
    → let m = axis_margin size fb_size scale in
      (IsShown (nodem_map_axis d size fb_size scale (pos 0)) fb_size
        ↔ ((m ≤ d) × (d < m + fb_size * scale)))
      × (fb_size * scale ≤ size
          → (m + fb_size * scale + m ≤ size) × (size ≤ m + fb_size * scale + m + 1))
      × (size ≤ fb_size * scale → m ≡ 0)
unfolding nodem_map_axis axis_margin
map_axis-IsShown d size fb_size scale h small =
    let m = axis_margin size fb_size scale in
    let q = floor_div (sub_ℕ d m) scale in
    let clamped = clamp-IsShown q fb_size small in
    let window = floor_div-IsShown d m scale fb_size h in
    (
      (λ s. window.0 (clamped.0 s), λ s. clamped.1 (window.1 s)),
      λ fits. (omega (arith, fits), omega (arith, fits)),
      λ large. omega (arith, large),
    )
