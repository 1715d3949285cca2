-- ===== src/Hub75/Render/Steps.antt =====
-- What `render_row` of hub75_task.c puts into the step buffers.
use nodem_nrf.Base.{
  ℕ, zero, suc, ◌+◌, ◌-◌, ◌*◌, ◌/◌, ◌%◌, ◌≤◌, ◌<◌, true, false, ◌≡◌, ◌⊎◌, inl, inr, refl, ◌∙◌,
  arith, ltb, ◌==◌, ==_iff, if◌then◌else◌, Bool-cases, min,
}
use nodem_nrf.Hub75.{Driver}
use nodem_nrf.Hub75.Frame.{Memory}
use nodem_nrf.Hub75.Render.{
  pwm_low, pwm_high, step_word, Oe, Step, lut_px, Steps, set_step, render_span, render_row,
}

-- A step with OE: the data lines of a frame byte.
abbrev pub step_of : ℕ → ℕ → ℕ → Step
step_of pwm_top byte oe = let l = lut_px pwm_top byte in record l { b_1 = l.b_1 + oe }

set_step-other : (s : Steps) (i j : ℕ) (v : Step) → (i ≡ j → ⊥) → set_step s i v j ≡ s j
set_step-other s i j v h = ground (arith, h)

set_step-same : (s : Steps) (i : ℕ) (v : Step) → set_step s i v i ≡ v
set_step-same s i v = ground arith

module _ (frame : Memory) (src stride top oe : ℕ) where
  span-outside :
      (n i : ℕ) (s : Steps) (j : ℕ)
      → (j < i) ⊎ (i + n ≤ j)
      → render_span frame src stride top oe n i s j ≡ s j
  unfolding render_span
  span-outside zero i s j h = refl
  span-outside (suc n) i s j h =
      span-outside n (i + 1) _ j (ground arith) ∙ set_step-other s i j _ (λ h'. ground arith)

  span-inside :
      (n i : ℕ) (s : Steps) (j : ℕ)
      → i ≤ j
      → j < i + n
      → render_span frame src stride top oe n i s j ≡ step_of top (frame (src + j * stride)) oe
  unfolding render_span
  span-inside zero i s j from to = absurd (omega arith)
  span-inside (suc n) i s j from to = elim (Bool-cases (i == j)) [
    | inl here ↦
        rw ((==_iff i j).0 here)
          (span-outside n (j + 1) _ j (inl (omega arith)) ∙ set_step-same s j _)
    | inr later ↦ span-inside n (i + 1) _ j (ground arith) (omega (arith, to))
  ]

-- OE of step `j` of `n`, by the ticks of light that the row gets.
abbrev pub oe_of : Oe → ℕ → ℕ → ℕ
oe_of o plane j =
    if ltb j (o.full_steps plane)
    then step_word 0 pwm_low
    else if j == o.full_steps plane
    then o.partial plane
    else step_word 0 pwm_high

-- The three spans one after another, the third from behind the partial step on.
module _ (frame : Memory) (src stride top low partial high lit n j : ℕ) (s : Steps) where
  abbrev lit_part : Steps
  lit_part = render_span frame src stride top low lit 0 s

  abbrev all_parts : Steps
  all_parts =
      render_span frame src stride top high (n - (lit + 1)) (lit + 1)
        (render_span frame src stride top partial 1 lit lit_part)

  parts-lit : j < lit → all_parts j ≡ step_of top (frame (src + j * stride)) low
  parts-lit h =
      span-outside frame src stride top high (n - (lit + 1)) (lit + 1) _ j (inl (omega arith))
      ∙ span-outside frame src stride top partial 1 lit lit_part j (inl h)
      ∙ span-inside frame src stride top low lit 0 s j (omega arith) (omega arith)

  parts-partial : j ≡ lit → all_parts j ≡ step_of top (frame (src + j * stride)) partial
  parts-partial h =
      span-outside frame src stride top high (n - (lit + 1)) (lit + 1) _ j (inl (omega arith))
      ∙ span-inside frame src stride top partial 1 lit lit_part j (omega arith) (omega arith)

  parts-high : lit < j → j < n → all_parts j ≡ step_of top (frame (src + j * stride)) high
  parts-high h l =
      span-inside frame src stride top high (n - (lit + 1)) (lit + 1) _ j (omega arith)
        (omega arith)

  parts-idle : lit < n → n ≤ j → all_parts j ≡ s j
  parts-idle h l =
      span-outside frame src stride top high (n - (lit + 1)) (lit + 1) _ j (inr (omega arith))
      ∙ span-outside frame src stride top partial 1 lit lit_part j (inr (omega arith))
      ∙ span-outside frame src stride top low lit 0 s j (inr (omega arith))

module _ (d : Driver) (frame : Memory) (o : Oe) (top j : ℕ) (s : Steps) (src plane : ℕ) where
  abbrev wanted : Step
  wanted =
      if ltb j d.drive_len then step_of top (frame (src + j * d.depth)) (oe_of o plane j) else s j

  some_lit :
      (lit : ℕ)
      → lit ≡ o.full_steps plane
      → lit < d.drive_len
      → all_parts frame src d.depth top
          (step_word 0 pwm_low)
          (o.partial plane)
          (step_word 0 pwm_high)
          lit
          d.drive_len
          j
          s
          j
        ≡ wanted
  some_lit lit e h = elim (Bool-cases (ltb j lit)) [
    | inl before ↦
        let inside : ltb j d.drive_len ≡ true = ground arith in
        let on : ltb j (o.full_steps plane) ≡ true = ground (arith, e) in
        rw (inside, on) (parts-lit frame src d.depth top _ _ _ lit d.drive_len j s (ground arith))
    | inr behind ↦
        let off : ltb j (o.full_steps plane) ≡ false = ground (arith, e) in
        elim (Bool-cases (j == lit)) [
          | inl at ↦
              let inside : ltb j d.drive_len ≡ true = ground arith in
              let last : (j == o.full_steps plane) ≡ true = ground (arith, e) in
              rw (inside, off, last)
                (parts-partial frame src d.depth top _ _ _ lit d.drive_len j s (ground arith))
          | inr past ↦
              let dark : (j == o.full_steps plane) ≡ false = ground (arith, e) in
              elim (Bool-cases (ltb j d.drive_len)) [
                | inl inside ↦
                    rw (inside, off, dark)
                      (parts-high frame src d.depth top _ _ _ lit d.drive_len j s (ground arith)
                        (ground arith))
                | inr idle ↦
                    rw idle
                      (parts-idle frame src d.depth top _ _ _ lit d.drive_len j s h (ground arith))
              ]
        ]
  ]

  all_lit :
      (lit : ℕ)
      → lit ≡ d.drive_len
      → d.drive_len ≤ o.full_steps plane
      → lit_part frame src d.depth top (step_word 0 pwm_low) 0 0 lit d.drive_len j s j ≡ wanted
  all_lit lit e h = elim (Bool-cases (ltb j d.drive_len)) [
    | inl inside ↦
        let on : ltb j (o.full_steps plane) ≡ true = ground arith in
        rw (inside, on)
          (span-inside frame src d.depth top (step_word 0 pwm_low) lit 0 s j (omega arith)
            (ground arith))
    | inr idle ↦
        rw idle
          (span-outside frame src d.depth top (step_word 0 pwm_low) lit 0 s j (inr (ground arith)))
  ]

-- `render_row` leaves in each data step the data of its frame byte with the OE of its place: lit, the
-- partial step, blanked. The steps behind the data stay as they are.
pub render_row_lem :
    (d : Driver) (frame : Memory) (o : Oe) (top seq j : ℕ) (s : Steps)
    → let byte = frame (seq / d.depth * d.drive_len * d.depth + seq % d.depth + j * d.depth) in
      render_row d frame o top seq s j ≡ (
        if ltb j d.drive_len
        then step_of top byte (oe_of o ((seq % d.depth + d.depth - 1) % d.depth) j)
        else s j)
unfolding render_row
render_row_lem d frame o top seq j s =
    let n = d.drive_len in
    let plane = (seq % d.depth + d.depth - 1) % d.depth in
    let full = o.full_steps plane in
    let lit = min full n in
    let src = seq / d.depth * n * d.depth + seq % d.depth in
    elim (Bool-cases (ltb lit n)) [
      | inl fits ↦ rw fits (some_lit d frame o top j s src plane lit (ground arith) (ground arith))
      | inr whole ↦ rw whole (all_lit d frame o top j s src plane lit (ground arith) (ground arith))
    ]
