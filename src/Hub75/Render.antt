-- ===== src/Hub75/Render.antt =====
-- hub75_task.c: the steps of one shift, with the data lines of a row and the OE of the one before.
pub mod Brightness
pub mod Steps
pub mod Light
use nodem_nrf.Base.{ℕ, zero, suc, ◌+◌, ◌-◌, ◌*◌, ◌/◌, ◌%◌, ◌^◌, Bool, ltb, ◌==◌, if◌then◌else◌, min}
use nodem_nrf.Hub75.{Driver}
use nodem_nrf.Hub75.Frame.{Memory}

abbrev pub hub75_brightness_max : ℕ
hub75_brightness_max = 0x7fff

-- Bit 15 set: the period starts high and drops at the compare value, the lower 15 bits.
abbrev pub pwm_low : ℕ
pwm_low = 2 ^ 15

abbrev pub pwm_high : ℕ
pwm_high = 2 ^ 15 + 0x7fff

-- `STEP_WORD`; the halves do not overlap, so the sum is the `|`.
abbrev pub step_word : ℕ → ℕ → ℕ
step_word lo hi = lo + hi * 2 ^ 16

-- Per bit plane.
pub record Oe : Type 0 where
  pub full_steps : ℕ → ℕ
  pub partial : ℕ → ℕ

unfoldable pub on_ticks_of : ℕ → ℕ → ℕ → ℕ
on_ticks_of drive_len pwm_top brightness =
    let row_ticks = (drive_len * pwm_top) % 2 ^ 32 in
    ((row_ticks * brightness) % 2 ^ 32 + hub75_brightness_max / 2) % 2 ^ 32 / hub75_brightness_max

unfoldable pub plane_ticks : ℕ → ℕ → ℕ → ℕ
plane_ticks on_ticks depth k = (on_ticks * 2 ^ k) % 2 ^ 32 / 2 ^ (depth - 1)

unfoldable pub oe_set : Driver → ℕ → ℕ → Oe
oe_set d pwm_top brightness =
    let on_ticks = on_ticks_of d.drive_len pwm_top brightness in
    record {
      full_steps = λ k. (plane_ticks on_ticks d.depth k / pwm_top) % 2 ^ 16;
      partial = λ k.
          let rest = plane_ticks on_ticks d.depth k % pwm_top in
          step_word 0 (if rest == 0 then pwm_high else rest);
    }

-- The four words of a step, of `seq_a` and of `seq_b`.
pub record Step : Type 0 where
  pub a_0 : ℕ
  pub a_1 : ℕ
  pub b_0 : ℕ
  pub b_1 : ℕ

abbrev level : ℕ → ℕ → ℕ
level rgb bit = if rgb / 2 ^ bit % 2 == 1 then pwm_high else pwm_low

-- `lut_px[px]` as `hub75_start` fills it.
unfoldable pub lut_px : ℕ → ℕ → Step
lut_px pwm_top px =
    let t = px % 8 in
    let u = px / 8 % 8 in
    record {
      a_0 = step_word (level t 0) (level t 1);
      a_1 = step_word (level t 2) (pwm_top / 2);
      b_0 = step_word (level u 0) (level u 1);
      b_1 = step_word (level u 2) 0;
    }

abbrev pub Steps : Type 0
Steps = ℕ → Step

abbrev pub set_step : Steps → ℕ → Step → Steps
set_step s i v j = if i == j then v else s j

-- `n` rounds of the loop from step `i` on. The lowest word's high half is empty, so the sum is the
-- `|` with `oe`.
unfoldable pub render_span : Memory → ℕ → ℕ → ℕ → ℕ → ℕ → ℕ → Steps → Steps
render_span frame src stride pwm_top oe zero i s = s
render_span frame src stride pwm_top oe (suc n) i s =
    let l = lut_px pwm_top (frame (src + i * stride)) in
    render_span frame src stride pwm_top oe n (i + 1) (set_step s i (record l { b_1 = l.b_1 + oe }))

-- `render_row` into one pair of step buffers. (The source keeps the row in a `uint8_t`; the callers'
-- `seq` is below the cycle, so it is one of at most 32 row addresses.)
unfoldable pub render_row : Driver → Memory → Oe → ℕ → ℕ → Steps → Steps
render_row d frame o pwm_top seq s =
    let n = d.drive_len in
    let row = seq / d.depth in
    let plane = seq % d.depth in
    let lit_plane = (plane + d.depth - 1) % d.depth in
    let lit = min (o.full_steps lit_plane) n in
    let src = row * n * d.depth + plane in
    let lit_part = render_span frame src d.depth pwm_top (step_word 0 pwm_low) lit 0 s in
    if ltb lit n
    then render_span frame src d.depth pwm_top (step_word 0 pwm_high) (n - (lit + 1)) (lit + 1)
        (render_span frame src d.depth pwm_top (o.partial lit_plane) 1 lit lit_part)
    else lit_part
