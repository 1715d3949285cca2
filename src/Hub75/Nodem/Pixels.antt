-- ===== src/Hub75/Nodem/Pixels.antt =====
-- What a frame shows that `frame_draw_nodem` of hub75_task.c has drawn.
use nodem_nrf.Base.{
  ℕ, zero, suc, ◌+◌, ◌*◌, ◌^◌, ◌<◌, Bool, true, false, ◌≡◌, ◌⊎◌, inl, inr, refl, ap, ◌∙◌, arith,
  Option, none, some, ℤ, pos, negsuc, pos_part, leb_ℤ, ◌==◌, if◌then◌else◌, Bool-cases,
}
use mathlib.Core.Path.{subst}
use nodem_nrf.Hub75.{MatrixConfig, Driver, derive, IsMatrix}
use nodem_nrf.Hub75.Alloc.{Buffers, hub75_alloc}
use nodem_nrf.Hub75.Derived.{blocks_of}
use nodem_nrf.Hub75.Frame.{Memory, draw_row, draw_rows}
use nodem_nrf.Hub75.Frame.Draw.{IsDriven, plane_at}
use nodem_nrf.Hub75.Frame.Planes.{plane_of}
use nodem_nrf.Hub75.Nodem.{
  Submitted, drawable, in_axis, map_col, row_of, bit_read, bit_at, is_lit, color_of, draw_submitted,
  frame_draw_nodem, nodem_hash,
}
use nodem_nrf.Hub75.Shown.{blank, started_active, all_drawn}
use nodem_nrf.NodemConfig.{Config, nodem_map_axis}
use nodem_nrf.NodemConfig.Axis.{IsShown, in_frame}

abbrev pub submitted : Memory → Config → Submitted
submitted fb c = record { fb = fb; config = c }

present-drawable : (s : Submitted) → s.config.hub75.present ≡ true → drawable (some s) ≡ some s
unfolding drawable
present-drawable s h = ap (λ (b : Bool). if b then some s else none) h

-- Row `y` finds `seen y`; all rows use the columns that the first one filled in.
module _ (d : Driver) (on off : ℕ → ℕ → ℕ) (seen : ℕ → Submitted) where
  abbrev first_cols : ℕ → ℤ
  first_cols = map_col (seen 0).config d.active.width

  abbrev pub colors : ℕ → ℕ → ℕ
  colors x y = color_of d on off (seen y) first_cols x y

  row_same :
      (color color' : ℕ → ℕ → ℕ) (y : ℕ)
      → ((x : ℕ) → color x y ≡ color' x y)
      → (n x : ℕ) (f : Memory) → draw_row d color y n x f ≡ draw_row d color' y n x f
  unfolding draw_row
  row_same color color' y e zero x f = refl
  row_same color color' y e (suc n) x f = rw (e x) (row_same color color' y e n (x + 1) _)

  suc-eq : (y : ℕ) → (suc y == 0) ≡ false
  suc-eq y = ground arith

  columns_same :
      (y : ℕ) (cols : ℕ → ℤ)
      → (y ≡ 0) ⊎ (cols ≡ first_cols)
      → (if y == 0 then map_col (seen y).config d.active.width else cols) ≡ first_cols
  columns_same zero cols h = refl
  columns_same (suc y) cols (inl h) = absurd (omega (arith, h))
  columns_same (suc y) cols (inr h) =
      ap (λ (b : Bool). if b then map_col (seen (suc y)).config d.active.width else cols) (suc-eq y)
      ∙ h

  module _ (present : (y : ℕ) → (seen y).config.hub75.present ≡ true) where
    rows_drawn :
        (n y : ℕ) (cols : ℕ → ℤ) (f : Memory)
        → (y ≡ 0) ⊎ (cols ≡ first_cols)
        → draw_submitted d on off (λ y. some (seen y)) n y cols f ≡ (true, draw_rows d colors n y f)
    unfolding draw_submitted draw_rows
    rows_drawn zero y cols f h = refl
    rows_drawn (suc n) y cols f h =
        let row = draw_row d (color_of d on off (seen y) first_cols) y d.active.width 0 f in
        rw (draw_submitted, present-drawable (seen y) (present y), columns_same y cols h)
          (rows_drawn n (y + 1) _ row (inr refl)
            ∙ ap (λ (z : Memory). (true, draw_rows d colors n (y + 1) z))
                (row_same _ colors y (λ x. refl) d.active.width 0 f))

    pub frame_drawn :
        (first : Submitted)
        → first.config.hub75.present ≡ true
        → (cols : ℕ → ℤ) (hash : ℕ) (f : Memory)
        → frame_draw_nodem d on off (some first) (λ y. some (seen y)) cols true hash f
          ≡ (nodem_hash first, (true, draw_rows d colors d.active.height 0 f))
    unfolding frame_draw_nodem
    frame_drawn first there cols hash f =
        rw (frame_draw_nodem, present-drawable first there)
          (ap (λ (r : Bool × Memory). (nodem_hash first, r))
            (rows_drawn d.active.height 0 cols f (inl refl)))

-- The colour of the framebuffer's pixel that is shown, or the off colour where it is none.
abbrev pub Shows : (ℕ → ℕ → ℕ) → (ℕ → ℕ → ℕ) → Memory → Config → ℤ → ℤ → ℕ → ℕ → ℕ → Type 0
Shows on off fb c fx fy x y color =
    (IsShown fx c.width
      × IsShown fy c.height
      × (color ≡ (if bit_at fb (pos_part fy * c.width + pos_part fx) then on x y else off x y))
      × (pos_part fy * c.width + pos_part fx < c.width * c.height))
    ⊎ ((¬ (IsShown fx c.width × IsShown fy c.height)) × (color ≡ off x y))

in_axis_cases :
    (v : ℤ) (size : ℕ)
    → ((in_axis v size ≡ true) × IsShown v size) ⊎ ((in_axis v size ≡ false) × (¬ IsShown v size))
in_axis_cases (pos n) size = ground arith
in_axis_cases (negsuc n) size = ground arith

axis-nonneg : (v : ℤ) (size : ℕ) → in_axis v size ≡ true → leb_ℤ (pos 0) v ≡ true
axis-nonneg (pos n) size h = ground arith
axis-nonneg (negsuc n) size h = ground arith

read_shown :
    (c : Config) (fx fy : ℤ)
    → in_axis fx c.width ≡ true
    → in_axis fy c.height ≡ true
    → bit_read c fx fy ≡ some (pos_part fy * c.width + pos_part fx)
unfolding bit_read
read_shown c fx fy hx hy = rw (hy, axis-nonneg fx c.width hx) refl

read_outside :
    (c : Config) (fx fy : ℤ)
    → (fx ≡ negsuc 0) ⊎ (in_axis fy c.height ≡ false)
    → bit_read c fx fy ≡ none
unfolding bit_read
read_outside c fx fy (inr h) = rw h refl
read_outside c fx fy (inl e) = elim (Bool-cases (in_axis fy c.height)) [
  | inl h ↦ rw (e, h) refl
  | inr h ↦ rw h refl
]

module _ (d : Driver) (on off : ℕ → ℕ → ℕ) (s : Submitted) where
  abbrev painted : ℕ → ℕ → Option ℕ → ℕ
  painted x y bit = if is_lit s.fb bit then on x y else off x y

  color-Shows :
      (x y : ℕ)
      → let c = s.config in
        Shows on off s.fb c
          (nodem_map_axis x d.active.width c.width c.hub75.scale_x c.hub75.x)
          (nodem_map_axis y d.active.height c.height c.hub75.scale_y c.hub75.y)
          x
          y
          (color_of d on off s (map_col c d.active.width) x y)
  unfolding map_col row_of is_lit
  color-Shows x y =
      let c = s.config in
      let fx = nodem_map_axis x d.active.width c.width c.hub75.scale_x c.hub75.x in
      let fy = nodem_map_axis y d.active.height c.height c.hub75.scale_y c.hub75.y in
      elim (in_axis_cases fx c.width) [
        | inl (at_x, in_x) ↦ elim (in_axis_cases fy c.height) [
          | inl (at_y, in_y) ↦ rw at_x (
              inl (
                in_x,
                in_y,
                ap (painted x y) (read_shown c fx fy at_x at_y),
                in_frame fx fy c.width c.height in_x in_y,
              ))
          | inr (at_y, out) ↦
              rw at_x (inr (λ s. out s.1, ap (painted x y) (read_outside c fx fy (inr at_y))))
        ]
        | inr (at_x, out) ↦
            rw at_x (inr (λ s. out s.0, ap (painted x y) (read_outside c (negsuc 0) fy (inl refl))))
      ]

module _ (c : MatrixConfig) (v : IsMatrix c) (few : blocks_of c < 2 ^ 8) where
  -- Let the parser's conditions hold, let a panel have less than 256 blocks of rows, and let
  -- `hub75_alloc` succeed. Drawing by force over a blank frame, where every row finds the same configuration,
  -- which maps the matrix, and a framebuffer of its own time succeeds; then each pixel of a driven
  -- panel has, in every bit plane, the colour or the off colour as the bit of the framebuffer's
  -- pixel that the mapping gives says, which is one of the framebuffer's bits, or the off colour
  -- where the mapping gives none.
  pub drawn-Shows :
      (d : Driver) (b : Buffers)
      → hub75_alloc (derive c) ≡ (d, some b)
      → (on off : ℕ → ℕ → ℕ) (nc : Config) (fb : Memory) (fbs : ℕ → Memory) (cols : ℕ → ℤ)
        (hash x y k : ℕ)
      → nc.hub75.present ≡ true
      → x < c.width
      → y < c.height
      → IsDriven d x y
      → k < d.depth
      → let result =
          (frame_draw_nodem d on off
            (some (submitted fb nc))
            (λ y'. some (submitted (fbs y') nc))
            cols
            true
            hash
            blank).1 in
        let color = color_of d on off (submitted (fbs y) nc) (map_col nc c.width) x y in
        (result.0 ≡ true)
        × (plane_at d result.1 x y k ≡ plane_of color k)
        × Shows on off
            (fbs y)
            nc
            (nodem_map_axis x c.width nc.width nc.hub75.scale_x nc.hub75.x)
            (nodem_map_axis y c.height nc.height nc.hub75.scale_y nc.hub75.y)
            x
            y
            color
  drawn-Shows d b alloc on off nc fb fbs cols hash x y k present hx hy driven hk =
      let active = started_active c v few d b alloc in
      let seen : ℕ → Submitted = λ y'. submitted (fbs y') nc in
      let color = colors d on off seen in
      let drawn =
        frame_drawn d on off seen (λ y. present) (submitted fb nc) present cols hash blank in
      let height = ap (λ (z : MatrixConfig). z.height) active in
      let shown = (all_drawn c v few d b alloc color x y k hx hy driven hk).0 in
      let width = ap (λ (z : MatrixConfig). z.width) active in
      let painted : ℕ → ℕ = λ w. color_of d on off (submitted (fbs y) nc) (map_col nc w) x y in
      let shows : ℕ → ℕ → Type 0 = λ w h.
        Shows on off (fbs y) nc (nodem_map_axis x w nc.width nc.hub75.scale_x nc.hub75.x)
          (nodem_map_axis y h nc.height nc.hub75.scale_y nc.hub75.y) x y (painted w) in
      let bit = color-Shows d on off (submitted (fbs y) nc) x y in
      rw drawn (
        refl,
        ap (λ n. plane_at d (draw_rows d color n 0 blank) x y k) height
            ∙ shown
            ∙ ap (λ w. plane_of (painted w) k) width,
        subst (shows c.width) height (subst (λ w. shows w d.active.height) width bit),
      )
