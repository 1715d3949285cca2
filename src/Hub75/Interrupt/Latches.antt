-- ===== src/Hub75/Interrupt/Latches.antt =====
-- Which row an interrupt latches, and which bit plane is lit for it.
use nodem_nrf.Base.{
  ℕ, ◌+◌, ◌-◌, ◌*◌, ◌/◌, ◌%◌, ◌^◌, ◌<◌, Bool, true, false, List, ◌≡◌, refl, sym, ap, ◌∙◌, arith,
  leb, Bool-cases, inl, inr,
}
use nodem_nrf.Hub75.{Driver}
use nodem_nrf.Hub75.Digits.{digits_lem, mul-pos, mul-mul}
use native.Mathlib.Nat.{add-mod-mod, add-mul-mod_self_right}
use nodem_nrf.Hub75.Frame.{Memory}
use nodem_nrf.Hub75.Interrupt.{
  Shifter, Meets, pair, overrun_limit, hub75_overload_trip, cycle_of, count_overrun, next_shift,
  hub75_isr, run_isr, start_shifting,
}
use nodem_nrf.Hub75.Render.{Oe, Steps}
use nodem_nrf.Hub75.Render.Steps.{step_of, oe_of}
use nodem_nrf.Hub75.Interrupt.Sync.{
  shifted_byte, lit_plane, frames_after, run_frames, isr-InSync, run_isr-InSync,
}

prev_mod : (s n : ℕ) → 0 < n → ((s + 1) % n + n - 1) % n ≡ s % n
prev_mod s n h =
    let back : (s + 1) % n + n - 1 ≡ n - 1 + (s + 1) % n = omega (arith, h) in
    let round : n - 1 + (s + 1) ≡ s + 1 * n = omega (arith, h) in
    ap (λ (z : ℕ). z % n) back
    ∙ add-mod-mod (n - 1) (s + 1) n
    ∙ ap (λ (z : ℕ). z % n) round
    ∙ add-mul-mod_self_right s 1 n

mod_mod : (x m n : ℕ) → 0 < m → 0 < n → x % (m * n) % n ≡ x % n
mod_mod x m n hm hn =
    let q = x / (m * n) in
    let split : x ≡ x % (m * n) + q * m * n =
      omega (arith, (digits_lem x (m * n) (mul-pos m n hm hn)).0, mul-mul q m n) in
    sym (ap (λ (z : ℕ). z % n) split ∙ add-mul-mod_self_right (x % (m * n)) (q * m) n)

-- The plane before that of the shift behind `s`.
plane_before :
    (s rows depth : ℕ)
    → (0 < depth) × (0 < rows)
    → rows * depth < 2 ^ 16
    → ((s + 1) % (rows * depth % 2 ^ 16) % depth + depth - 1) % depth ≡ s % depth
plane_before s rows depth pos small =
    let whole : rows * depth % 2 ^ 16 ≡ rows * depth = omega (arith, small) in
    rw (whole, mod_mod (s + 1) rows depth pos.1 pos.0) (prev_mod s depth pos.0)

module _ (d : Driver) (o : Oe) (top : ℕ) where
  next_fields :
      (frame : Memory) (st : Shifter)
      → ((next_shift d o top frame st).address ≡ st.shift_seq / d.depth)
        × ((next_shift d o top frame st).shift_seq ≡ (st.shift_seq + 1) % cycle_of d)
  unfolding next_shift
  next_fields frame st = elim (Bool-cases st.shift_buf) [
    | inl at_1 ↦ rw at_1 (refl, refl)
    | inr at_0 ↦ rw at_0 (refl, refl)
  ]

  count_fields :
      (late : Bool) (st : Shifter)
      → ((count_overrun d o top late st).address ≡ st.address)
        × ((count_overrun d o top late st).shift_seq ≡ st.shift_seq)
  unfolding count_overrun hub75_overload_trip
  count_fields true st = elim (Bool-cases (leb overrun_limit ((st.overruns + 1) % 2 ^ 16))) [
    | inl trips ↦ rw trips (refl, refl)
    | inr runs ↦ rw runs (refl, refl)
  ]
  count_fields false st = (refl, refl)

  isr_fields :
      (m : Meets) (st : Shifter)
      → m.stuck ≡ false
      → ((hub75_isr d o top m st).address ≡ st.shift_seq / d.depth)
        × ((hub75_isr d o top m st).shift_seq ≡ (st.shift_seq + 1) % cycle_of d)
  unfolding hub75_isr
  isr_fields m st stopped =
      let next = next_shift d o top m.frame st in
      let (address, seq) = next_fields m.frame st in
      let (address', seq') = count_fields m.late next in rw stopped (address' ∙ address, seq' ∙ seq)

  -- With 1 to 2^16 - 1 shifts in a cycle, after any run: an interrupt that finds both PWMs stopped
  -- sets the address of the row whose data the steps that have just been shifted out are, and in the
  -- steps that it starts, which are of the other pair's frame, OE is for the bit plane of those data.
  pub isr_latches :
      (frame : Memory) (s_0 s_1 : Steps) (ms : List Meets) (m : Meets) (j : ℕ)
      → m.stuck ≡ false
      → (0 < d.depth) × (0 < d.scan_rows)
      → d.scan_rows * d.depth < 2 ^ 16
      → j < d.drive_len
      → let start = start_shifting d o top frame s_0 s_1 in
        let st = run_isr d o top ms start in
        let fs = run_frames d o top ms start (frame, frame) in
        let st' = hub75_isr d o top m st in
        let plane = st.shift_seq % d.depth in
        (pair st.shift_buf st j
          ≡ step_of top
              (fs.0 (st'.address * d.drive_len * d.depth + plane + j * d.depth))
              (oe_of o ((plane + d.depth - 1) % d.depth) j))
        × (pair st'.shift_buf st' j
            ≡ step_of top (shifted_byte d fs.1 st'.shift_seq j) (oe_of o plane j))
  isr_latches frame s_0 s_1 ms m j stopped pos small hj =
      let start = start_shifting d o top frame s_0 s_1 in
      let st = run_isr d o top ms start in
      let fs = run_frames d o top ms start (frame, frame) in
      let cycle : 0 < cycle_of d = omega (arith, small, mul-pos d.scan_rows d.depth pos.1 pos.0) in
      let sync = run_isr-InSync d o top cycle frame s_0 s_1 ms in
      let sync' = isr-InSync d o top cycle m fs st sync in
      let (address, seq) = isr_fields m st stopped in
      let shown : (frames_after d o top m fs).0 ≡ fs.1 = rw stopped refl in
      let lit =
        ap (λ (z : ℕ). lit_plane d z) seq
        ∙ plane_before st.shift_seq d.scan_rows d.depth pos small in
      let plane = st.shift_seq % d.depth in
      (
        sync.now.steps j hj
            ∙ ap
                (λ (a : ℕ).
                  step_of top (fs.0 (a * d.drive_len * d.depth + plane + j * d.depth))
                    (oe_of o ((plane + d.depth - 1) % d.depth) j))
                (sym address),
        sync'.now.steps j hj
            ∙ ap
                (λ (g : Memory).
                  step_of top (shifted_byte d g (hub75_isr d o top m st).shift_seq j)
                    (oe_of o (lit_plane d (hub75_isr d o top m st).shift_seq) j))
                shown
            ∙ ap
                (λ (k : ℕ).
                  step_of top (shifted_byte d fs.1 (hub75_isr d o top m st).shift_seq j)
                    (oe_of o k j))
                lit,
      )
