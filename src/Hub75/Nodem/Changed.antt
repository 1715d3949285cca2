-- ===== src/Hub75/Nodem/Changed.antt =====
-- `frame_draw_nodem` of hub75_task.c when the framebuffer's configuration changes between two rows.
use nodem_nrf.Base.{
  ℕ, zero, suc, ◌+◌, ◌*◌, ◌^◌, ◌≤◌, ◌<◌, true, ◌≡◌, refl, ap, ◌∙◌, arith, some, ℤ, pos,
  if◌then◌else◌,
}
use mathlib.Core.Path.{subst, sym}
use nodem_nrf.Hub75.{MatrixConfig, Driver, derive, IsMatrix}
use nodem_nrf.Hub75.Alloc.{Buffers, hub75_alloc}
use nodem_nrf.Hub75.Derived.{blocks_of}
use nodem_nrf.Hub75.Frame.{draw_rows}
use nodem_nrf.Hub75.Frame.Draw.{IsDriven, plane_at}
use nodem_nrf.Hub75.Frame.Planes.{plane_of}
use nodem_nrf.Hub75.Nodem.{
  Submitted, map_col, row_of, bit_read, bit_at, is_lit, color_of, frame_draw_nodem,
}
use nodem_nrf.Hub75.Nodem.Pixels.{colors, frame_drawn}
use nodem_nrf.Hub75.Shown.{blank, started_active, all_drawn}
use nodem_nrf.NodemConfig.{Config}

last_row_bit : (w last fx : ℕ) → w ≤ fx → w * (last + 1) ≤ last * w + fx
last_row_bit w last fx l = grind arith

read_inside :
    (c : Config) (fx fy : ℕ)
    → fy < c.height
    → bit_read c (pos fx) (pos fy) ≡ some (fy * c.width + fx)
unfolding bit_read
read_inside c fx fy h = ground arith

-- The colour of a pixel whose column and row are mapped by two configurations.
pixel_color :
    (d : Driver) (on off : ℕ → ℕ → ℕ) (old new : Submitted) (x y fx last w h : ℕ)
    → d.active.width ≡ w
    → d.active.height ≡ h
    → map_col old.config w x ≡ pos fx
    → row_of new.config h y ≡ pos last
    → new.config.height ≡ last + 1
    → color_of d on off new (map_col old.config d.active.width) x y
      ≡ (if bit_at new.fb (last * new.config.width + fx) then on x y else off x y)
unfolding is_lit
pixel_color d on off old new x y fx last w h wide tall column row height =
    let read = read_inside new.config fx last (omega (arith, height)) in
    rw (wide, tall, column, row, read) refl

-- What a row finds when the configuration changes right behind the first one.
abbrev pub changed : Submitted → Submitted → ℕ → Submitted
changed old new zero = old
changed old new (suc y) = new

changed-present :
    (old new : Submitted)
    → old.config.hub75.present ≡ true
    → new.config.hub75.present ≡ true
    → (y : ℕ) → (changed old new y).config.hub75.present ≡ true
changed-present old new h h' zero = h
changed-present old new h h' (suc y) = h'

module _ (c : MatrixConfig) (v : IsMatrix c) (few : blocks_of c < 2 ^ 8) where
  -- `frame_draw_nodem` fills `map_cols` at the first row only. Let the parser's conditions hold, let
  -- a panel have less than 256 blocks of rows, let `hub75_alloc` succeed, and let it draw by force
  -- over a blank frame, where the first row finds one framebuffer and the rows behind it find another,
  -- and both map the matrix. Then a pixel of a driven panel below the first row that shows the new
  -- framebuffer's last row, in a column that the old configuration maps to a place not below the new
  -- width, has the colour or the off colour as a bit says that lies behind the new framebuffer's.
  pub bit-outside :
      (d : Driver) (b : Buffers)
      → hub75_alloc (derive c) ≡ (d, some b)
      → (on off : ℕ → ℕ → ℕ) (old new : Submitted) (cols : ℕ → ℤ) (hash x y k fx last : ℕ)
      → old.config.hub75.present ≡ true
      → new.config.hub75.present ≡ true
      → x < c.width
      → y < c.height
      → 0 < y
      → IsDriven d x y
      → k < d.depth
      → map_col old.config c.width x ≡ pos fx
      → new.config.width ≤ fx
      → new.config.height ≡ last + 1
      → row_of new.config c.height y ≡ pos last
      → let result =
          (frame_draw_nodem d on off
            (some old)
            (λ y'. some (changed old new y'))
            cols
            true
            hash
            blank).1 in
        let bit = last * new.config.width + fx in
        (result.0 ≡ true)
        × (plane_at d result.1 x y k ≡ plane_of (if bit_at new.fb bit then on x y else off x y) k)
        × (new.config.width * new.config.height ≤ bit)
  bit-outside d b alloc on off old new cols hash x zero k fx last _ _ _ _ below _ _ _ _ _ _ =
      absurd (omega (arith, below))
  bit-outside d b alloc on off old new cols hash x (suc y) k fx last there there' hx hy below driven
        hk column behind height row =
      let seen = changed old new in
      let color = colors d on off seen in
      let active = started_active c v few d b alloc in
      let drawn =
        frame_drawn d on off seen (changed-present old new there there') old there cols hash
          blank in
      let tall = ap (λ (z : MatrixConfig). z.height) active in
      let wide = ap (λ (z : MatrixConfig). z.width) active in
      let shown = (all_drawn c v few d b alloc color x (suc y) k hx hy driven hk).0 in
      let bit =
        pixel_color d on off old new x (suc y) fx last c.width c.height wide tall column row
          height in
      rw drawn (
        refl,
        ap (λ n. plane_at d (draw_rows d color n 0 blank) x (suc y) k) tall
            ∙ shown
            ∙ ap (λ z. plane_of z k) bit,
        subst (λ n. new.config.width * n ≤ last * new.config.width + fx) (sym height)
            (last_row_bit new.config.width last fx behind),
      )
