-- ===== src/Oled/Pixels.antt =====
-- display_task.c: which bit of the framebuffer a pixel of the panel reads.
use nodem_nrf.Base.{
  ℕ, ◌+◌, ◌*◌, ◌<◌, Bool, ◌&&◌, ◌||◌, ◌≡◌, ◌⊎◌, inl, inr, arith, ℤ, pos, negsuc, pos_part, ◌+ℤ◌,
  ◌≤ℤ◌, leb_ℤ, ltb_ℤ, ◌==◌, if◌then◌else◌, Bool-cases,
}
use nodem_nrf.NodemConfig.{Config, nodem_map_axis}
use nodem_nrf.NodemConfig.Axis.{IsShown, in_frame}
use nodem_nrf.Oled.{OledConfig}

unfoldable pub rotation_transposes : ℕ → Bool
rotation_transposes rotation = (rotation == 90) || (rotation == 270)

-- -1 where the coordinate is outside the framebuffer. The products have to fit `int32_t`.
unfoldable pub axis_bit : ℤ → ℕ → ℕ → ℤ
axis_bit v size stride =
    if leb_ℤ (pos 0) v && ltb_ℤ v (pos size) then pos (pos_part v * stride) else negsuc 0

abbrev pub view_w : OledConfig → ℕ
view_w oc = if rotation_transposes oc.rotation then oc.height else oc.width

abbrev pub view_h : OledConfig → ℕ
view_h oc = if rotation_transposes oc.rotation then oc.width else oc.height

-- The framebuffer coordinates that pixel (vx, vy) of the driver's view shows.
abbrev pub fb_x : OledConfig → Config → ℕ → ℤ
fb_x oc nc vx = nodem_map_axis vx (view_w oc) nc.width nc.oled.scale_x nc.oled.x

abbrev pub fb_y : OledConfig → Config → ℕ → ℤ
fb_y oc nc vy = nodem_map_axis vy (view_h oc) nc.height nc.oled.scale_y nc.oled.y

-- The entries of the two tables that `frame_prepare` fills, for column `c` and row `r`.
unfoldable pub col_bit : OledConfig → Config → ℕ → ℤ
col_bit oc nc c =
    if rotation_transposes oc.rotation
    then axis_bit (fb_y oc nc c) nc.height nc.width
    else axis_bit (fb_x oc nc c) nc.width 1

unfoldable pub row_bit : OledConfig → Config → ℕ → ℤ
row_bit oc nc r =
    if rotation_transposes oc.rotation
    then axis_bit (fb_x oc nc r) nc.width 1
    else axis_bit (fb_y oc nc r) nc.height nc.width

-- What `axis_bit` returns for a coordinate inside and outside.
AxisBit : ℤ → ℕ → ℕ → ℤ → Type 0
AxisBit v size stride bit =
    (IsShown v size × (bit ≡ pos (pos_part v * stride))) ⊎ ((¬ (IsShown v size)) × (bit ≡ negsuc 0))

axis_bit_cases : (v : ℤ) (size stride : ℕ) → AxisBit v size stride (axis_bit v size stride)
unfolding AxisBit axis_bit
axis_bit_cases (pos n) size stride = ground arith
axis_bit_cases (negsuc n) size stride = ground arith

-- A bit index for the pixel, or one of the two entries is negative and the pixel is off.
abbrev pub Reads : ℤ → ℤ → ℤ → ℤ → ℕ → ℕ → Type 0
Reads col row x y w h =
    (IsShown x w
      × IsShown y h
      × (pos 0 ≤ℤ col)
      × (pos 0 ≤ℤ row)
      × (col +ℤ row ≡ pos (pos_part y * w + pos_part x))
      × (pos_part y * w + pos_part x < w * h))
    ⊎ (¬ (IsShown x w × IsShown y h) × ((col ≡ negsuc 0) ⊎ (row ≡ negsuc 0)))

axes_read :
    (x y : ℤ) (w h : ℕ) {bit_x bit_y : ℤ}
    → AxisBit x w 1 bit_x
    → AxisBit y h w bit_y
    → Reads bit_x bit_y x y w h
unfolding AxisBit ◌+ℤ◌
axes_read x y w h (inl (in_x, at_x)) (inl (in_y, at_y)) =
    rw (at_x, at_y)
      (inl (in_x, in_y, ground arith, ground arith, ground arith, in_frame x y w h in_x in_y))
axes_read x y w h (inr (off, at)) y_case = inr (λ s. off s.0, inl at)
axes_read x y w h (inl x_case) (inr (off, at)) = inr (λ s. off s.1, inr at)

Reads-swap : (x y : ℤ) (w h : ℕ) {col row : ℤ} → Reads col row x y w h → Reads row col x y w h
unfolding ◌+ℤ◌
Reads-swap x y w h (inl (in_x, in_y, c, r, sum, below)) =
    inl (in_x, in_y, r, c, ground arith, below)
Reads-swap x y w h (inr (off, inl col)) = inr (off, inr col)
Reads-swap x y w h (inr (off, inr row)) = inr (off, inl row)

-- The column and the row of the panel's pixel in the driver's view, where a rotation by a quarter
-- turn swaps them.
abbrev pub view_of : OledConfig → ℕ → ℕ → ℕ × ℕ
view_of oc c r = if rotation_transposes oc.rotation then (r, c) else (c, r)

-- For each pixel of the panel, the entries of its column and its row add up to the bit of the
-- framebuffer's pixel that the mapping gives for its place in the view, which is one of the
-- framebuffer's bits; or the mapping gives a place outside the framebuffer, and one of the two
-- entries is -1.
pub pixel-Reads :
    (oc : OledConfig) (nc : Config) (c r : ℕ)
    → let (vx, vy) = view_of oc c r in
      Reads (col_bit oc nc c) (row_bit oc nc r) (fb_x oc nc vx) (fb_y oc nc vy) nc.width nc.height
unfolding col_bit row_bit
pixel-Reads oc nc c r = elim (Bool-cases (rotation_transposes oc.rotation)) [
  | inl turned ↦ rw turned (
      Reads-swap _ _ nc.width nc.height
        (axes_read _ _ nc.width nc.height (axis_bit_cases _ _ _) (axis_bit_cases _ _ _)))
  | inr upright ↦
      rw upright (axes_read _ _ nc.width nc.height (axis_bit_cases _ _ _) (axis_bit_cases _ _ _))
]
