-- ===== src/Examples/Shifts.antt =====
-- Shifts, interrupts and settings of the matrix.
use nodem_nrf.Base.{◌+◌, ◌-◌, ◌*◌, ◌/◌, ◌%◌, ◌^◌, ◌≤◌, true, false, List, [], ◌∷◌, ◌≡◌, refl, arith}
use nodem_nrf.Examples.Matrix.{four_panels, two_driven}
use nodem_nrf.Hub75.{MatrixConfig, derive}
use nodem_nrf.Hub75.Chain.{frame_locate_row}
use nodem_nrf.Hub75.Colors.{next_field, parse_num, parse_color, parse_rgb, hex_digits}
use nodem_nrf.Hub75.Frame.{Memory}
use nodem_nrf.Hub75.Interrupt.{pair, Meets, Shifter, start_shifting, run_isr, hub75_isr}
use nodem_nrf.Hub75.Interrupt.Overruns.{Keeps, late_run-off}
use nodem_nrf.Hub75.Interrupt.Sync.{InSync, run_isr-InSync, run_frames, shifted_byte}
use nodem_nrf.Hub75.Interrupt.Latches.{isr_latches}
use nodem_nrf.Hub75.Parser.{
  hub75_config_parse, parse_config, parse_protocol, parse_parts, check_config, fits_panels, enabled,
}
use nodem_nrf.Hub75.Parser.Accepted.{IsConfig, parse-IsConfig, parse-IsMatrix}
use nodem_nrf.Hub75.Render.{Oe, Steps, oe_set, render_row}
use nodem_nrf.Hub75.Render.Light.{light, light-oe_set}
use nodem_nrf.Hub75.Render.Steps.{step_of, oe_of, render_row_lem}
use nodem_nrf.Hub75.Shown.{blank}
use nodem_nrf.Hub75.Syntax.{
  parse_geometry, parse_layout, parse_grid, parse_chain, find_preset, find_chip,
}
use nodem_nrf.Hub75.Wrap.{block-outside}
use nodem_nrf.Text.{codes, cut, equal, skip_spaces, trim_end}
use nodem_nrf.Text.Decimal.{strtol}

light-oe_set_example :
    light (oe_set two_driven 32 16384) 2 32 256 ≡ (256 * 32 * 16384 + 16383) / 32767 * 2 ^ 2 / 2 ^ 3
light-oe_set_example =
    light-oe_set two_driven 32 16384 (omega arith) (omega arith) (omega arith) (omega arith) 2
      (omega arith)

-- A quarter of the whole: half of the brightness in the plane below the highest.
half_bright : light (oe_set two_driven 32 16384) 2 32 256 ≡ 2048
half_bright =
    light-oe_set two_driven 32 16384 (omega arith) (omega arith) (omega arith) (omega arith) 2
      (omega arith)

abbrev dim : Oe
dim = record { full_steps = λ k. k; partial = λ k. 7 }

abbrev dark : Steps
dark i = record { a_0 = 0; a_1 = 0; b_0 = 0; b_1 = 0 }

render_row_lem_example :
    render_row two_driven blank dim 32 5 dark 3
    ≡ step_of 32 (blank (5 / 4 * 256 * 4 + 5 % 4 + 3 * 4)) (oe_of dim 0 3)
render_row_lem_example = render_row_lem two_driven blank dim 32 5 3 dark

abbrev lit_frame : Memory
lit_frame i = i % 64

abbrev late_one : Meets
late_one = record { frame = lit_frame; stuck = false; late = true }

abbrev on_time : Meets
on_time = record { frame = blank; stuck = false; late = false }

abbrev met : List Meets
met = on_time ∷ late_one ∷ on_time ∷ []

abbrev started : Shifter
started = start_shifting two_driven dim 32 blank dark dark

run_isr-InSync_example :
    InSync two_driven dim 32
      (run_frames two_driven dim 32 met started (blank, blank))
      (run_isr two_driven dim 32 met started)
run_isr-InSync_example = run_isr-InSync two_driven dim 32 (omega arith) blank dark dark met

isr_latches_example :
    let st = run_isr two_driven dim 32 met started in
    let fs = run_frames two_driven dim 32 met started (blank, blank) in
    let st' = hub75_isr two_driven dim 32 on_time st in
    let plane = st.shift_seq % 4 in
    (pair st.shift_buf st 7
      ≡ step_of 32
          (fs.0 (st'.address * 256 * 4 + plane + 7 * 4))
          (oe_of dim ((plane + 4 - 1) % 4) 7))
    × (pair st'.shift_buf st' 7
        ≡ step_of 32 (shifted_byte two_driven fs.1 st'.shift_seq 7) (oe_of dim plane 7))
isr_latches_example =
    isr_latches two_driven dim 32 blank dark dark met on_time 7 refl (omega arith) (omega arith)
      (omega arith)

abbrev eight : List Meets → List Meets
eight ms =
    late_one ∷ late_one ∷ late_one ∷ late_one ∷ late_one ∷ late_one ∷ late_one ∷ late_one ∷ ms

abbrev thirty_two : List Meets
thirty_two = eight (eight (eight (eight [])))

late_run-off_example :
    let st = run_isr two_driven dim 32 (on_time ∷ []) started in
    Keeps st × ((run_isr two_driven dim 32 thirty_two st).irq_on ≡ false)
late_run-off_example =
    late_run-off two_driven dim 32 blank dark dark (on_time ∷ []) thirty_two (ground arith)
      (omega arith)

four_parsed : hub75_config_parse (codes " 128:64:r:2x2i, 8:f16z , #f, , 512") ≡ enabled four_panels
unfolding hub75_config_parse parse_config parse_geometry parse_layout parse_grid parse_protocol
    parse_parts parse_chain parse_color parse_rgb hex_digits check_config fits_panels next_field
    parse_num find_preset find_chip cut equal skip_spaces trim_end strtol
four_parsed = refl

parse-IsConfig_example : IsConfig four_panels
parse-IsConfig_example =
    parse-IsConfig (codes " 128:64:r:2x2i, 8:f16z , #f, , 512") four_panels four_parsed

-- A column of 1024 pixels with two row addresses.
abbrev tall : MatrixConfig
tall = record four_panels {
  width = 1;
  height = 1024;
  grid_x = 1;
  grid_y = 1;
  serpentine = false;
  scan = 2;
  far_first = false;
  segment = 0;
  zigzag = false;
}

tall_parsed : hub75_config_parse (codes "1:1024:r,2:n:::4,#f,,512") ≡ enabled tall
unfolding hub75_config_parse parse_config parse_geometry parse_layout parse_grid parse_protocol
    parse_parts parse_chain parse_color parse_rgb hex_digits check_config fits_panels next_field
    parse_num find_preset find_chip cut equal skip_spaces trim_end strtol
tall_parsed = refl

block-outside_example :
    (derive tall).row_blocks ≤ (frame_locate_row (derive tall) (256 * 2 - 1)).block
block-outside_example =
    block-outside tall (parse-IsMatrix (codes "1:1024:r,2:n:::4,#f,,512") tall tall_parsed) refl
      (omega arith)
