-- ===== src/Hub75/Interrupt/Sync.antt =====
-- Which rows the two pairs of step buffers hold while the panel runs.
use nodem_nrf.Base.{
  ℕ, ◌+◌, ◌-◌, ◌*◌, ◌/◌, ◌%◌, ◌^◌, ◌<◌, Bool, true, false, not, List, [], ◌∷◌, ◌≡◌, ◌∙◌, arith, ltb,
  leb, if◌then◌else◌, Bool-cases, inl, inr,
}
use nodem_nrf.Hub75.{Driver}
use nodem_nrf.Hub75.Digits.{digits_lem}
use nodem_nrf.Hub75.Frame.{Memory}
use nodem_nrf.Hub75.Interrupt.{
  Shifter, Meets, pair, idle_step, overrun_limit, hub75_overload_trip, cycle_of, count_overrun,
  next_shift, hub75_isr, run_isr, set_idle, start_shifting,
}
use nodem_nrf.Hub75.Render.{Oe, Steps, render_row}
use nodem_nrf.Hub75.Render.Steps.{step_of, oe_of, render_row_lem}

-- The byte of the frame for step `j` of shift `seq`: of row `seq / depth` in bit plane `seq % depth`.
abbrev pub shifted_byte : Driver → Memory → ℕ → ℕ → ℕ
shifted_byte d frame seq j =
    frame (seq / d.depth * d.drive_len * d.depth + seq % d.depth + j * d.depth)

-- The plane that is lit during shift `seq`: that of the shift before.
abbrev pub lit_plane : Driver → ℕ → ℕ
lit_plane d seq = (seq % d.depth + d.depth - 1) % d.depth

ltb_self : (n : ℕ) → ltb n n ≡ false
ltb_self n = ground arith

ltb_above : (n : ℕ) → ltb (n + 1) n ≡ false
ltb_above n = ground arith

module _ (d : Driver) (o : Oe) (top : ℕ) where
  -- The steps of shift `seq`, from `frame`, with OE for the shift before; behind them the panel idles.
  pub record Holds (frame : Memory) (seq : ℕ) (s : Steps) : Type 0 where
    pub steps :
        (j : ℕ)
        → j < d.drive_len
        → s j ≡ step_of top (shifted_byte d frame seq j) (oe_of o (lit_plane d seq) j)
    pub idle : (s d.drive_len ≡ idle_step) × (s (d.drive_len + 1) ≡ idle_step)

  -- The pair that is being shifted out holds `shift_seq` of the first frame, the other one the shift
  -- after it of the second.
  pub record InSync (frames : Memory × Memory) (st : Shifter) : Type 0 where
    pub in_cycle : st.shift_seq < cycle_of d
    pub now : Holds frames.0 st.shift_seq (pair st.shift_buf st)
    pub next : Holds frames.1 ((st.shift_seq + 1) % cycle_of d) (pair (not st.shift_buf) st)

  -- The frames that the two pairs are to show after an interrupt, and after those of a run: what was
  -- next is shifted out, and the frame that is met is next; nothing changes where PWM_B is stuck.
  abbrev pub frames_after : Meets → Memory × Memory → Memory × Memory
  frames_after m fs = if m.stuck then fs else (fs.1, m.frame)

  pub run_frames : List Meets → Shifter → Memory × Memory → Memory × Memory
  run_frames [] st fs = fs
  run_frames (m ∷ ms) st fs =
      let more = run_frames ms (hub75_isr d o top m st) (frames_after m fs) in
      if st.irq_on then more else fs

  abbrev Idles : Steps → Type 0
  Idles s = (s d.drive_len ≡ idle_step) × (s (d.drive_len + 1) ≡ idle_step)

  render-Holds :
      (frame : Memory) (seq : ℕ) (s : Steps)
      → Idles s
      → Holds frame seq (render_row d frame o top seq s)
  render-Holds frame seq s idle = record {
    steps = λ j h.
        let inside : ltb j d.drive_len ≡ true = ground arith in
        render_row_lem d frame o top seq j s ∙ rw inside;
    idle = (
      render_row_lem d frame o top seq d.drive_len s ∙ rw (ltb_self d.drive_len) idle.0,
      render_row_lem d frame o top seq (d.drive_len + 1) s ∙ rw (ltb_above d.drive_len) idle.1,
    );
  }

  next-InSync :
      (frame : Memory) (fs : Memory × Memory) (st : Shifter)
      → 0 < cycle_of d
      → InSync fs st
      → InSync (fs.1, frame) (next_shift d o top frame st)
  unfolding next_shift
  next-InSync frame fs st pos ok =
      let seq = (digits_lem (st.shift_seq + 1) (cycle_of d) pos).1 in
      elim (Bool-cases st.shift_buf) [
        | inl at_1 ↦ rw at_1 (record {
          in_cycle = seq;
          now = rw at_1 at ok.next;
          next = render-Holds frame _ _ (rw at_1 at ok.now.idle);
        })
        | inr at_0 ↦ rw at_0 (record {
          in_cycle = seq;
          now = rw at_0 at ok.next;
          next = render-Holds frame _ _ (rw at_0 at ok.now.idle);
        })
      ]

  count-InSync :
      (late : Bool) (fs : Memory × Memory) (st : Shifter)
      → InSync fs st
      → InSync fs (count_overrun d o top late st)
  unfolding count_overrun hub75_overload_trip
  count-InSync true fs st ok = elim (Bool-cases (leb overrun_limit ((st.overruns + 1) % 2 ^ 16))) [
    | inl trips ↦ rw trips (record { in_cycle = ok.in_cycle; now = ok.now; next = ok.next })
    | inr runs ↦ rw runs (record { in_cycle = ok.in_cycle; now = ok.now; next = ok.next })
  ]
  count-InSync false fs st ok = record { in_cycle = ok.in_cycle; now = ok.now; next = ok.next }

  module _ (pos : 0 < cycle_of d) where
    pub isr-InSync :
        (m : Meets) (fs : Memory × Memory) (st : Shifter)
        → InSync fs st
        → InSync (frames_after m fs) (hub75_isr d o top m st)
    unfolding hub75_isr hub75_overload_trip
    isr-InSync m fs st ok = elim (Bool-cases m.stuck) [
      | inl stuck ↦ rw stuck (record { in_cycle = ok.in_cycle; now = ok.now; next = ok.next })
      | inr stopped ↦ rw stopped (count-InSync m.late _ _ (next-InSync m.frame fs st pos ok))
    ]

    run-InSync :
        (ms : List Meets) (fs : Memory × Memory) (st : Shifter)
        → InSync fs st
        → InSync (run_frames ms st fs) (run_isr d o top ms st)
    unfolding run_isr run_frames
    run-InSync [] fs st ok = ok
    run-InSync (m ∷ ms) fs st ok =
        let st' = hub75_isr d o top m st in
        let ih = run-InSync ms (frames_after m fs) st' (isr-InSync m fs st ok) in
        elim st.irq_on
          as (λ b.
            InSync (if b then run_frames ms st' (frames_after m fs) else fs)
              (if b then run_isr d o top ms st' else st)) [ true ↦ ih | false ↦ ok ]

    set_idle-Idles : (s : Steps) → Idles (set_idle d o top s)
    unfolding set_idle
    set_idle-Idles s = ground arith

    start-InSync :
        (frame : Memory) (s_0 s_1 : Steps)
        → InSync (frame, frame) (start_shifting d o top frame s_0 s_1)
    unfolding start_shifting
    start-InSync frame s_0 s_1 = record {
      in_cycle = pos;
      now = render-Holds frame 0 _ (set_idle-Idles s_0);
      next = render-Holds frame _ _ (set_idle-Idles s_1);
    }

    -- Where a cycle has shifts: whatever the interrupts of a run meet, each step of the pair that is
    -- being shifted out is that of the row and the bit plane of `shift_seq`, with OE for the plane of
    -- the shift before it, and each step of the other pair that of the shift that comes next; both
    -- end idle. The bytes are those of the frame that the interrupt met when it rendered the pair.
    pub run_isr-InSync :
        (frame : Memory) (s_0 s_1 : Steps) (ms : List Meets)
        → let st = start_shifting d o top frame s_0 s_1 in
          InSync (run_frames ms st (frame, frame)) (run_isr d o top ms st)
    run_isr-InSync frame s_0 s_1 ms = run-InSync ms _ _ (start-InSync frame s_0 s_1)
