-- ===== src/Hub75/Parser/Ranges.antt =====
-- The ranges of what `parse_geometry` of hub75_task.c accepts.
use mathlib.Core.Path.{subst}
use Prim.Native.Nat.{bit_and}
use nodem_nrf.Base.{
  >>=-eq-some, none-ne-some, some-inj, ℕ, ◌-◌, ◌*◌, ◌≤◌, ◌<◌, false, not, ◌&&◌, ◌||◌, [], ◌∷◌, ◌≡◌,
  inl, inr, Option, none, some, arith, ℤ, pos, negsuc, leb, ◌==◌, guard, Bool-cases,
}
use nodem_nrf.Hub75.{Color, MatrixConfig}
use nodem_nrf.Hub75.Colors.Bounds.{IsColor, guard-eq-some, parse_num_bounds}
use nodem_nrf.Hub75.Colors.{next_field, parse_num, is_null, is_empty}
use nodem_nrf.Hub75.Parser.{clock_min_khz, clock_max_khz}
use nodem_nrf.Hub75.Render.{hub75_brightness_max}
use nodem_nrf.Hub75.Syntax.{
  Seen, layout_from, parse_layout, count_at, grid_rows, grid_flag, parse_grid, grid_part,
  parse_geometry, max_depth, hub75_max_pixels,
}
use nodem_nrf.Text.{Bytes}
use nodem_nrf.Text.Decimal.{strtol}

-- The ranges of the fields that the geometry and the protocol set.
pub record Ranges (width height grid_x grid_y scan segment clock_khz depth brightness : ℕ)
    (color off_color : Color) : Type 0 where
  pub width_range : (1 ≤ width) × (width ≤ hub75_max_pixels)
  pub height_range : (1 ≤ height) × (height ≤ hub75_max_pixels)
  pub grid_range : (1 ≤ grid_x) × (1 ≤ grid_y) × (grid_x * grid_y ≤ 16)
  pub scan_range : (2 ≤ scan) × (scan ≤ 32) × (bit_and scan (scan - 1) ≡ 0)
  pub segment_range : segment < 256
  pub clock_range : (clock_min_khz ≤ clock_khz) × (clock_khz ≤ clock_max_khz)
  pub depth_range : (1 ≤ depth) × (depth ≤ max_depth)
  pub brightness_range : brightness ≤ hub75_brightness_max
  pub color_range : IsColor color
  pub off_color_range : IsColor off_color

abbrev pub InRange : MatrixConfig → Type 0
InRange c =
    Ranges c.width c.height c.grid_x c.grid_y c.scan c.segment c.clock_khz c.depth c.brightness
      c.color c.off_color

-- `parse_layout` sets the two mirrorings and nothing else.
layout-InRange :
    (s : Bytes) (seen : Seen) (c c' : MatrixConfig)
    → InRange c
    → layout_from s seen c ≡ some c'
    → InRange c'
unfolding layout_from
layout-InRange [] seen c c' v h = subst InRange (some-inj h) v
layout-InRange (l ∷ s) seen c c' v h =
    elim (Bool-cases (((l == b'l') || (l == b'r')) && not seen.have_x)) [
      | inl across ↦ layout-InRange s _ (record c { flip_x = l == b'r' }) c' v (rw across at h)
      | inr not_across ↦ elim (Bool-cases (((l == b't') || (l == b'b')) && not seen.have_y)) [
        | inl down ↦
            layout-InRange s _ (record c { flip_y = l == b'b' }) c' v (rw (not_across, down) at h)
        | inr neither ↦ absurd (none-ne-some (rw (not_across, neither) at h))
      ]
    ]

count_at_bounds :
    (r : Option (ℤ × Bytes)) (n : ℕ) (s : Bytes) → count_at r ≡ some (n, s) → (1 ≤ n) × (n ≤ 16)
unfolding count_at
count_at_bounds none n s h = cc
count_at_bounds (some (pos k, t)) n s h = ground arith
count_at_bounds (some (negsuc k, t)) n s h = ground arith

grid_rows_bounds : (s : Bytes) (n : ℕ) (t : Bytes) → grid_rows s ≡ some (n, t) → 1 ≤ n
unfolding grid_rows
grid_rows_bounds [] n t h = ground arith
grid_rows_bounds (c ∷ s) n t h = elim (Bool-cases (c == b'x')) [
  | inl rows ↦ (count_at_bounds (strtol s) n t (rw rows at h)).0
  | inr one ↦ ground (arith, one)
]

parse_grid-InRange :
    (s : Bytes) (c c' : MatrixConfig) → InRange c → parse_grid s c ≡ some c' → InRange c'
unfolding parse_grid
parse_grid-InRange s c c' v h =
    let ((cols, s₁), p₁, h₁) = >>=-eq-some (count_at (strtol s)) _ h in
    let ((rows, s₂), p₂, h₂) = >>=-eq-some (grid_rows s₁) _ h₁ in
    let (u, p₃, e) = >>=-eq-some (guard (is_empty (grid_flag s₂).1 && leb (cols * rows) 16)) _ h₂ in
    let few = guard-eq-some _ p₃ in
    subst InRange (some-inj e) (record {
      width_range = v.width_range;
      height_range = v.height_range;
      grid_range = (
        (count_at_bounds (strtol s) cols s₁ p₁).0,
        grid_rows_bounds s₁ rows s₂ p₂,
        ground (arith, few),
      );
      scan_range = v.scan_range;
      segment_range = v.segment_range;
      clock_range = v.clock_range;
      depth_range = v.depth_range;
      brightness_range = v.brightness_range;
      color_range = v.color_range;
      off_color_range = v.off_color_range;
    })

grid_part-InRange :
    (s : Bytes) (c c' : MatrixConfig) → InRange c → grid_part s c ≡ some c' → InRange c'
unfolding grid_part
grid_part-InRange [] c c' v h = subst InRange (some-inj h) v
grid_part-InRange (g ∷ s) c c' v h = parse_grid-InRange (g ∷ s) c c' v h

one_panel-InRange :
    (c : MatrixConfig)
    → InRange c
    → InRange (record c { grid_x = 1; grid_y = 1; serpentine = false })
one_panel-InRange c v = record {
  width_range = v.width_range;
  height_range = v.height_range;
  grid_range = omega arith;
  scan_range = v.scan_range;
  segment_range = v.segment_range;
  clock_range = v.clock_range;
  depth_range = v.depth_range;
  brightness_range = v.brightness_range;
  color_range = v.color_range;
  off_color_range = v.off_color_range;
}

size-InRange :
    (c : MatrixConfig) (w h : ℕ)
    → InRange c
    → (1 ≤ w) × (w ≤ hub75_max_pixels)
    → (1 ≤ h) × (h ≤ hub75_max_pixels)
    → InRange (record c { width = w; height = h })
size-InRange c w h v hw hh = record {
  width_range = hw;
  height_range = hh;
  grid_range = v.grid_range;
  scan_range = v.scan_range;
  segment_range = v.segment_range;
  clock_range = v.clock_range;
  depth_range = v.depth_range;
  brightness_range = v.brightness_range;
  color_range = v.color_range;
  off_color_range = v.off_color_range;
}

pub parse_geometry-InRange :
    (s : Bytes) (c c' : MatrixConfig) → InRange c → parse_geometry s c ≡ some c' → InRange c'
unfolding parse_geometry parse_layout
parse_geometry-InRange s c c' v h =
    let ((f₁, s₁), p₁, h₁) = >>=-eq-some (next_field (some s) b':' 16) _ h in
    let (w, pw, h₂) = >>=-eq-some (parse_num f₁ 1 hub75_max_pixels) _ h₁ in
    let ((f₂, s₂), p₂, h₃) = >>=-eq-some (next_field s₁ b':' 16) _ h₂ in
    let (t, pt, h₄) = >>=-eq-some (parse_num f₂ 1 hub75_max_pixels) _ h₃ in
    let ((f₃, s₃), p₃, h₅) = >>=-eq-some (next_field s₂ b':' 16) _ h₄ in
    let (c₁, p₄, h₆) = >>=-eq-some (parse_layout f₃ c) _ h₅ in
    let ((f₄, s₄), p₅, h₇) = >>=-eq-some (next_field s₃ b':' 16) _ h₆ in
    let (u, p₆, h₈) = >>=-eq-some (guard (is_null s₄)) _ h₇ in
    let (c₂, p₇, e) = >>=-eq-some (grid_part f₄ _) _ h₈ in
    let one = one_panel-InRange c₁ (layout-InRange f₃ _ _ c₁ v p₄) in
    subst InRange (some-inj e) (
      size-InRange c₂ w t (grid_part-InRange f₄ _ c₂ one p₇) (parse_num_bounds f₁ _ _ w pw)
        (parse_num_bounds f₂ _ _ t pt))
