-- ===== src/Hub75/Render/Light.antt =====
-- The light that a row gets while the next one is shifted, in ticks of the PWM.
use nodem_nrf.Base.{
  ℕ, zero, suc, ◌+◌, ◌-◌, ◌*◌, ◌/◌, ◌%◌, ◌^◌, ◌≤◌, ◌<◌, true, false, ◌≡◌, inl, inr, sym, ap, ◌∙◌,
  arith, ltb, leb, ◌==◌, ==_iff, if◌then◌else◌, Bool-cases, min,
}
use nodem_nrf.Hub75.{Driver}
use nodem_nrf.Hub75.Digits.{digits_lem, div-le_of_le}
use nodem_nrf.Hub75.Render.{
  hub75_brightness_max, pwm_low, pwm_high, step_word, Oe, on_ticks_of, plane_ticks, oe_set,
}
use nodem_nrf.Hub75.Render.Brightness.{on_ticks_lem, plane_ticks_lem, plane_ticks-le}
use nodem_nrf.Hub75.Render.Steps.{oe_of}

-- How long the PWM holds the pin low in a period of `top` ticks: with bit 15 the period starts high
-- and drops at the compare value, without it starts low and rises there. OE lights while low.
abbrev pub low_ticks : ℕ → ℕ → ℕ
low_ticks top value =
    let compare = value % 2 ^ 15 in
    if value / 2 ^ 15 % 2 == 1 then top - compare else min compare top

-- The high half of a step's word, OE.
abbrev pub oe_value : ℕ → ℕ
oe_value word = word / 2 ^ 16

-- The light over the first `n` steps of a shift.
pub light : Oe → ℕ → ℕ → ℕ → ℕ
light o plane top zero = 0
light o plane top (suc n) = light o plane top n + low_ticks top (oe_value (oe_of o plane n))

partial_value :
    (top rest : ℕ)
    → top ≤ 160
    → rest < top
    → low_ticks top (oe_value (step_word 0 (if rest == 0 then pwm_high else rest))) ≡ rest
partial_value top rest h l = ground arith

-- Up to the step behind the full ones.
whole_ticks :
    (t top n : ℕ)
    → 0 < top
    → t ≤ n * top
    → (if leb n (t / top) then n * top else t / top * top + t % top) ≡ t
whole_ticks t top n h le =
    let (split, small) = digits_lem t top h in
    elim (Bool-cases (leb n (t / top))) [
      | inl all ↦
          let full = div-le_of_le t top n h le in
          let same : n ≡ t / top = ground arith in
          rw all (omega (arith, split, le, ap (λ (z : ℕ). z * top) same))
      | inr some_dark ↦ rw some_dark (sym split)
    ]

module _ (o : Oe) (plane top rest : ℕ) (top_range : top ≤ 160)
    (partial : low_ticks top (oe_value (o.partial plane)) ≡ rest) where
  lit : low_ticks top (oe_value (step_word 0 pwm_low)) ≡ top
  lit = omega arith

  dark : low_ticks top (oe_value (step_word 0 pwm_high)) ≡ 0
  dark = omega arith

  light_lem :
      (n : ℕ)
      → light o plane top n
        ≡ (if leb n (o.full_steps plane) then n * top else o.full_steps plane * top + rest)
  unfolding light
  light_lem zero = ground arith
  light_lem (suc n) = elim (Bool-cases (ltb n (o.full_steps plane))) [
    | inl on ↦
        let before : leb n (o.full_steps plane) ≡ true = ground arith in
        let now : leb (suc n) (o.full_steps plane) ≡ true = ground arith in
        rw (light_lem n, before, now, on, lit) (omega arith)
    | inr off ↦
        let now : leb (suc n) (o.full_steps plane) ≡ false = ground arith in
        elim (Bool-cases (n == o.full_steps plane)) [
          | inl at ↦
              let here = (==_iff n (o.full_steps plane)).0 at in
              let before : leb n (o.full_steps plane) ≡ true = ground arith in
              rw (light_lem n, before, now, off, at, partial)
                (omega (arith, ap (λ (z : ℕ). z * top) here))
          | inr past ↦
              let before : leb n (o.full_steps plane) ≡ false = ground arith in
              rw (light_lem n, before, now, off, past, dark) (omega arith)
        ]
  ]

module _ (d : Driver) (top brightness : ℕ) (len_range : d.drive_len ≤ 576)
    (top_range : (0 < top) × (top ≤ 160)) (bright : brightness ≤ hub75_brightness_max)
    (deep : (0 < d.depth) × (d.depth ≤ 8)) where
  abbrev ticks : ℕ → ℕ
  ticks k = plane_ticks (on_ticks_of d.drive_len top brightness) d.depth k

  partial_lem :
      (k : ℕ) → low_ticks top (oe_value ((oe_set d top brightness).partial k)) ≡ ticks k % top
  unfolding oe_set
  partial_lem k =
      let small = (digits_lem (ticks k) top top_range.0).1 in
      partial_value top (ticks k % top) (omega (arith, top_range)) small

  ticks-le : (k : ℕ) → k < d.depth → ticks k ≤ d.drive_len * top
  ticks-le k h =
      let share =
        plane_ticks-le d.drive_len top brightness len_range top_range bright d.depth deep k h in
      let most = (on_ticks_lem d.drive_len top brightness len_range top_range bright).1 in
      omega (arith, share, most)

  full-le : (k : ℕ) → k < d.depth → ticks k / top ≤ d.drive_len
  full-le k h = div-le_of_le (ticks k) top d.drive_len top_range.0 (ticks-le k h)

  full_lem : (k : ℕ) → k < d.depth → (oe_set d top brightness).full_steps k ≡ ticks k / top
  unfolding oe_set
  full_lem k h = omega (arith, full-le k h, len_range)

  -- With at most 576 steps of at most 160 ticks, 1 to 8 bit planes and a brightness up to the
  -- maximum, OE lights a row, while the next one is shifted, for the share of the row's ticks that
  -- the brightness asks for, rounded, times 2 to the power of the bit plane and divided by that of
  -- the highest plane; the arithmetic does not wrap around.
  pub light-oe_set :
      (k : ℕ)
      → k < d.depth
      → light (oe_set d top brightness) k top d.drive_len
        ≡ (d.drive_len * top * brightness + 16383)
          / hub75_brightness_max
          * 2 ^ k
          / 2 ^ (d.depth - 1)
  light-oe_set k h =
      let o = oe_set d top brightness in
      let full = full_lem k h in
      let value =
        plane_ticks_lem d.drive_len top brightness len_range top_range bright d.depth deep k h in
      let share = (on_ticks_lem d.drive_len top brightness len_range top_range bright).0 in
      light_lem o k top (ticks k % top) top_range.1 (partial_lem k) d.drive_len
      ∙ rw full (whole_ticks (ticks k) top d.drive_len top_range.0 (ticks-le k h))
      ∙ value
      ∙ ap (λ (t : ℕ). t * 2 ^ k / 2 ^ (d.depth - 1)) share
