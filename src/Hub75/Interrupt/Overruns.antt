-- ===== src/Hub75/Interrupt/Overruns.antt =====
-- How often the interrupt can fail to keep up before it switches itself off.
use nodem_nrf.Base.{
  ℕ, ◌+◌, ◌%◌, ◌^◌, ◌≤◌, ◌<◌, Bool, true, false, List, [], ◌∷◌, ◌≡◌, ◌⊎◌, refl, ◌∙◌, arith, leb,
  Bool-cases, inl, inr, length,
}
use nodem_nrf.Hub75.{Driver}
use nodem_nrf.Hub75.Interrupt.{
  Shifter, Meets, overload_none, overload_overrun, overload_stuck, overrun_limit,
  hub75_overload_trip, count_overrun, next_shift, hub75_isr, run_isr, start_shifting,
}
use nodem_nrf.Hub75.Render.{Oe, Steps}
use nodem_nrf.Hub75.Frame.{Memory}

-- The interrupts that all end after the next shift is over.
abbrev pub AllLate : List Meets → Type 0
AllLate [] = Unit
AllLate (m ∷ ms) = (m.late ≡ true) × AllLate ms

-- What a run keeps: while the interrupt is on it has not tripped, and has fallen behind fewer than
-- `OVERRUN_LIMIT` times in a row.
abbrev pub Keeps : Shifter → Type 0
Keeps st =
    ((st.irq_on ≡ true) × (st.overruns < overrun_limit) × (st.overload ≡ overload_none))
    ⊎ ((st.irq_on ≡ false) × ((st.overload ≡ overload_overrun) ⊎ (st.overload ≡ overload_stuck)))

module _ (d : Driver) (o : Oe) (top : ℕ) where
  next_keeps :
      (m : Meets) (st : Shifter)
      → let st' = next_shift d o top m.frame st in
        (st'.overruns ≡ st.overruns) × (st'.irq_on ≡ st.irq_on) × (st'.overload ≡ st.overload)
  unfolding next_shift
  next_keeps m st = elim (Bool-cases st.shift_buf) [
    | inl at_1 ↦ rw at_1 (refl, refl, refl)
    | inr at_0 ↦ rw at_0 (refl, refl, refl)
  ]

  count-Keeps :
      (late : Bool) (st : Shifter)
      → Keeps st
      → st.irq_on ≡ true
      → Keeps (count_overrun d o top late st)
  unfolding count_overrun hub75_overload_trip
  count-Keeps true st (inl (on, few, none_yet)) h =
      elim (Bool-cases (leb overrun_limit ((st.overruns + 1) % 2 ^ 16))) [
        | inl trips ↦ rw trips (inr (refl, inl refl))
        | inr runs ↦ rw runs (inl (on, ground arith, none_yet))
      ]
  count-Keeps false st (inl (on, few, none_yet)) h = inl (on, omega arith, none_yet)
  count-Keeps late st (inr (off, why)) h = cc

  next-Keeps : (m : Meets) (st : Shifter) → Keeps st → Keeps (next_shift d o top m.frame st)
  next-Keeps m st keeps = let (overruns, on, why) = next_keeps m st in rw (overruns, on, why) keeps

  isr-Keeps :
      (m : Meets) (st : Shifter) → st.irq_on ≡ true → Keeps st → Keeps (hub75_isr d o top m st)
  unfolding hub75_isr hub75_overload_trip
  isr-Keeps m st on keeps = elim (Bool-cases m.stuck) [
    | inl stuck ↦ rw stuck (inr (refl, inr refl))
    | inr stopped ↦
        rw stopped (count-Keeps m.late _ (next-Keeps m st keeps) ((next_keeps m st).1 ∙ on))
  ]

  off_stays :
      (ms : List Meets) (st : Shifter) → st.irq_on ≡ false → (run_isr d o top ms st).irq_on ≡ false
  unfolding run_isr
  off_stays [] st off = off
  off_stays (m ∷ ms) st off = ground (arith, off)

  -- One more overrun, or the interrupt is off.
  isr_late :
      (m : Meets) (st : Shifter)
      → m.late ≡ true
      → st.overruns < overrun_limit
      → let st' = hub75_isr d o top m st in (st'.irq_on ≡ false) ⊎ (st'.overruns ≡ st.overruns + 1)
  unfolding hub75_isr hub75_overload_trip count_overrun
  isr_late m st late few = elim (Bool-cases m.stuck) [
    | inl stuck ↦ rw stuck (inl refl)
    | inr stopped ↦
        let next = next_shift d o top m.frame st in
        let same = (next_keeps m st).0 in
        elim (Bool-cases (leb overrun_limit ((next.overruns + 1) % 2 ^ 16))) [
          | inl trips ↦ rw (stopped, late, trips) (inl refl)
          | inr runs ↦ rw (stopped, late, runs) (inr (omega (arith, same, few)))
        ]
  ]

  late_from :
      (ms : List Meets) (st : Shifter)
      → AllLate ms
      → Keeps st
      → overrun_limit ≤ st.overruns + length ms
      → (run_isr d o top ms st).irq_on ≡ false
  unfolding run_isr
  late_from [] st late (inl (on, few, none_yet)) many = absurd (omega arith)
  late_from [] st late (inr (off, why)) many = off
  late_from (m ∷ ms) st (late, rest) (inr (off, why)) many = ground (arith, off)
  late_from (m ∷ ms) st (late, rest) (inl (on, few, none_yet)) many =
      let st' = hub75_isr d o top m st in
      let keeps = isr-Keeps m st on (inl (on, few, none_yet)) in
      let after : (run_isr d o top ms st').irq_on ≡ false = elim (isr_late m st late few) [
        | inl off ↦ off_stays ms st' off
        | inr one_more ↦ late_from ms st' rest keeps (omega (arith, one_more, many))
      ] in
      ground (arith, after, on)

  pub run-Keeps : (ms : List Meets) (st : Shifter) → Keeps st → Keeps (run_isr d o top ms st)
  unfolding run_isr
  run-Keeps [] st keeps = keeps
  run-Keeps (m ∷ ms) st (inr (off, why)) = ground (arith, off)
  run-Keeps (m ∷ ms) st (inl (on, few, none_yet)) =
      let ih =
        run-Keeps ms (hub75_isr d o top m st) (isr-Keeps m st on (inl (on, few, none_yet))) in
      let comes : run_isr d o top (m ∷ ms) st ≡ run_isr d o top ms (hub75_isr d o top m st) =
        ground (arith, on) in
      rw comes ih

  start-Keeps : (frame : Memory) (s_0 s_1 : Steps) → Keeps (start_shifting d o top frame s_0 s_1)
  unfolding start_shifting
  start-Keeps frame s_0 s_1 = inl (refl, omega arith, refl)

  -- From any state of a run on, `OVERRUN_LIMIT` interrupts in a row that find the next shift over
  -- already switch the interrupt off; and it is only ever off with
  -- the reason in `hub75_overload`.
  pub late_run-off :
      (frame : Memory) (s_0 s_1 : Steps) (before ms : List Meets)
      → AllLate ms
      → overrun_limit ≤ length ms
      → let st = run_isr d o top before (start_shifting d o top frame s_0 s_1) in
        Keeps st × ((run_isr d o top ms st).irq_on ≡ false)
  late_run-off frame s_0 s_1 before ms late many =
      let keeps = run-Keeps before _ (start-Keeps frame s_0 s_1) in
      (keeps, late_from ms _ late keeps (omega (arith, many)))
