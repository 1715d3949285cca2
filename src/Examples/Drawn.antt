-- ===== src/Examples/Drawn.antt =====
-- The framebuffer drawn on the matrix.
use nodem_nrf.Base.{◌+ℤ◌, ℕ, ◌+◌, ◌*◌, ◌≤◌, true, ◌≡◌, refl, some, arith, pos, if◌then◌else◌}
use nodem_nrf.Examples.Matrix.{
  four_panels, four_panels-IsMatrix, two_driven, buffers, two_fit, driven, stripes,
}
use nodem_nrf.Hub75.Frame.{Memory}
use nodem_nrf.Hub75.Frame.Draw.{IsDriven, plane_at}
use nodem_nrf.Hub75.Chain.{chain_build, frame_locate_row, row_pos}
use nodem_nrf.Hub75.Frame.Planes.{plane_of}
use nodem_nrf.Hub75.Nodem.{is_lit, bit_at, map_col, row_of, bit_read, color_of, frame_draw_nodem}
use nodem_nrf.Hub75.Nodem.Pixels.{submitted, Shows, drawn-Shows}
use nodem_nrf.Hub75.Nodem.Changed.{changed, bit-outside}
use nodem_nrf.Hub75.Shown.{blank}
use nodem_nrf.NodemConfig.{Config, Mapping, nodem_map_axis, floor_div, clamp_i16, axis_margin}

abbrev plain : Mapping
plain = record { present = true; x = pos 0; y = pos 0; scale_x = 1; scale_y = 1 }

abbrev whole : Config
whole = record { width = 128; height = 64; bits_per_pixel = 1; oled = plain; hub75 = plain }

abbrev checkered : Memory
checkered i = 0xaa

abbrev unlit : ℕ → ℕ → ℕ
unlit x y = 0

drawn-Shows_example :
    let result =
      (frame_draw_nodem two_driven stripes unlit
        (some (submitted checkered whole))
        (λ y. some (submitted checkered whole))
        (λ x. pos 0)
        true
        0
        blank).1 in
    let color =
      color_of two_driven stripes unlit (submitted checkered whole) (map_col whole 128) 100 9 in
    (result.0 ≡ true)
    × (plane_at two_driven result.1 100 9 1 ≡ plane_of color 1)
    × Shows stripes unlit checkered whole
        (nodem_map_axis 100 128 128 1 (pos 0))
        (nodem_map_axis 9 64 64 1 (pos 0))
        100
        9
        color
drawn-Shows_example =
    drawn-Shows four_panels four_panels-IsMatrix (omega arith) two_driven buffers two_fit stripes
      unlit whole checkered (λ y. checkered) (λ x. pos 0) 0 100 9 1 refl (omega arith) (omega arith)
      driven (omega arith)

-- A pixel of column 100 is lit, in the colour of the stripes.
lit_at_100 :
    color_of two_driven stripes unlit (submitted checkered whole) (map_col whole 128) 100 9 ≡ 109
unfolding map_col row_of bit_read is_lit nodem_map_axis floor_div clamp_i16 axis_margin ◌+ℤ◌
lit_at_100 = refl

-- Before, the framebuffer was wide; now it fills the buffer of 4096 bytes.
abbrev wide : Config
wide = record whole { width = 1024; height = 8; hub75 = record plain { x = pos 900 } }

abbrev full : Config
full = record whole { width = 256; height = 128; hub75 = record plain { y = pos 100 } }

wide_column : map_col wide 128 100 ≡ pos 1000
unfolding map_col nodem_map_axis floor_div clamp_i16 axis_margin ◌+ℤ◌
wide_column = refl

full_row : row_of full 64 27 ≡ pos 127
unfolding row_of nodem_map_axis floor_div clamp_i16 axis_margin ◌+ℤ◌
full_row = refl

-- The pixel (100, 27) is on a driven panel.
IsDriven-27 : IsDriven two_driven 100 27
unfolding row_pos frame_locate_row chain_build
IsDriven-27 = omega arith

bit-outside_example :
    let result =
      (frame_draw_nodem two_driven stripes unlit
        (some (submitted checkered wide))
        (λ y. some (changed (submitted checkered wide) (submitted checkered full) y))
        (λ x. pos 0)
        true
        0
        blank).1 in
    let lit = bit_at checkered (127 * 256 + 1000) in
    (result.0 ≡ true)
    × (plane_at two_driven result.1 100 27 1
        ≡ plane_of (if lit then stripes 100 27 else unlit 100 27) 1)
    × (256 * 128 ≤ 127 * 256 + 1000)
bit-outside_example =
    bit-outside four_panels four_panels-IsMatrix (omega arith) two_driven buffers two_fit stripes
      unlit (submitted checkered wide) (submitted checkered full) (λ x. pos 0) 0 100 27 1 1000 127
      refl refl (omega arith) (omega arith) (omega arith) IsDriven-27 (omega arith) wide_column
      (omega arith) refl full_row
