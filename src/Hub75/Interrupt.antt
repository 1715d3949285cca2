-- ===== src/Hub75/Interrupt.antt =====
-- hub75_task.c: the interrupt that latches a row, starts the next one and renders the one after.
pub mod Sync
pub mod Latches
pub mod Overruns
use nodem_nrf.Base.{
  ℕ, zero, suc, ◌+◌, ◌-◌, ◌*◌, ◌/◌, ◌%◌, ◌^◌, Bool, true, false, not, List, [], ◌∷◌, ltb, leb,
  if◌then◌else◌,
}
use nodem_nrf.Hub75.{Driver}
use nodem_nrf.Hub75.Alloc.{idle_steps}
use nodem_nrf.Hub75.Frame.{Memory}
use nodem_nrf.Hub75.Render.{Oe, Step, Steps, set_step, step_word, pwm_low, pwm_high, render_row}

-- `hub75_overload`
pub data Overload : Type 0 where
  overload_none overload_overrun overload_stuck : Overload

abbrev pub overrun_limit : ℕ
overrun_limit = 32

-- What the interrupt reads and writes. `shift_buf` is false for the pair 0. `address` is the row
-- address on the pins when LAT was last pulsed, and `irq_on` whether the interrupt is enabled.
pub record Shifter : Type 0 where
  pub shift_seq : ℕ
  pub shift_buf : Bool
  pub pair_0 : Steps
  pub pair_1 : Steps
  pub address : ℕ
  pub overruns : ℕ
  pub irq_on : Bool
  pub overload : Overload

abbrev pub pair : Bool → Shifter → Steps
pair b st = if b then st.pair_1 else st.pair_0

abbrev pub set_pair : Bool → Steps → Shifter → Shifter
set_pair false s st = record st { pair_0 = s }
set_pair true s st = record st { pair_1 = s }

-- An idle step: CLK low and OE high.
abbrev pub idle_step : Step
idle_step = record {
  a_0 = step_word pwm_low pwm_low;
  a_1 = step_word pwm_low pwm_low;
  b_0 = step_word pwm_low pwm_low;
  b_1 = step_word pwm_low pwm_high;
}

-- What an interrupt meets: the frame as drawn by then, whether PWM_B never stops within
-- `STOP_SPIN_LIMIT` checks, and whether the next shift is over before the interrupt returns.
pub record Meets : Type 0 where
  pub frame : Memory
  pub stuck : Bool
  pub late : Bool

unfoldable pub hub75_overload_trip : Overload → Shifter → Shifter
hub75_overload_trip why st = record st { irq_on = false; overload = why }

abbrev pub cycle_of : Driver → ℕ
cycle_of d = (d.scan_rows * d.depth) % 2 ^ 16

module _ (d : Driver) (o : Oe) (pwm_top : ℕ) where
  -- The end of the interrupt.
  unfoldable pub count_overrun : Bool → Shifter → Shifter
  count_overrun true st =
      let st' = record st { overruns = (st.overruns + 1) % 2 ^ 16 } in
      if leb overrun_limit st'.overruns then hub75_overload_trip overload_overrun st' else st'
  count_overrun false st = record st { overruns = 0 }

  -- The other pair is free from here on.
  unfoldable pub next_shift : Memory → Shifter → Shifter
  next_shift frame st =
      let cycle = cycle_of d in
      let seq = (st.shift_seq + 1) % cycle in
      let buf = not st.shift_buf in
      let st' = record st { address = st.shift_seq / d.depth; shift_seq = seq; shift_buf = buf } in
      set_pair (not buf) (render_row d frame o pwm_top ((seq + 1) % cycle) (pair (not buf) st')) st'

  unfoldable pub hub75_isr : Meets → Shifter → Shifter
  hub75_isr m st =
      if m.stuck
      then hub75_overload_trip overload_stuck st
      else count_overrun m.late (next_shift m.frame st)

  -- The interrupts of a run; one that is disabled does not come.
  unfoldable pub run_isr : List Meets → Shifter → Shifter
  run_isr [] st = st
  run_isr (m ∷ ms) st = let more = run_isr ms (hub75_isr m st) in if st.irq_on then more else st

  -- The idle steps behind the data, of what the arena holds.
  unfoldable pub set_idle : Steps → Steps
  set_idle s = set_step (set_step s d.drive_len idle_step) (d.drive_len + 1) idle_step

  -- The step buffers as `hub75_start` leaves them, with the first two rows rendered.
  unfoldable pub start_shifting : Memory → Steps → Steps → Shifter
  start_shifting frame s_0 s_1 = record {
    shift_seq = 0;
    shift_buf = false;
    pair_0 = render_row d frame o pwm_top 0 (set_idle s_0);
    pair_1 = render_row d frame o pwm_top (1 % cycle_of d) (set_idle s_1);
    address = 0;
    overruns = 0;
    irq_on = true;
    overload = overload_none;
  }
