-- ===== src/Hub75/Frame/Draw.antt =====
-- What the frame holds for each pixel once it has been drawn.
use nodem_nrf.Base.{
  ℕ, zero, suc, ◌+◌, ◌*◌, ◌≤◌, ◌<◌, false, ◌≡◌, inl, inr, refl, sym, ◌∙◌, arith, leb, Bool-cases,
  ◌==◌, ==_iff,
}
use nodem_nrf.Hub75.{Driver}
use nodem_nrf.Hub75.Chain.{frame_locate_row, row_pos}
use nodem_nrf.Hub75.Chain.Places.{IsDriver}
use nodem_nrf.Hub75.Chain.Rows.{entry_of, locate_injective, shift_cases}
use nodem_nrf.Hub75.Frame.{Memory, frame_row_set, draw_row, draw_rows}
use nodem_nrf.Hub75.Frame.Halves.{half_of}
use nodem_nrf.Hub75.Frame.Planes.{
  IsFrame, plane_of, set_planes-inside, set_planes-IsFrame, set_planes-other,
}

-- The pixel is on a panel that is driven.
abbrev pub IsDriven : Driver → ℕ → ℕ → Type 0
IsDriven d x y = row_pos d (frame_locate_row d y) x < d.drive_len

abbrev pub entry : Driver → ℕ → ℕ → ℕ
entry d x y = entry_of (frame_locate_row d y) (row_pos d (frame_locate_row d y) x)

-- The three bits that the frame has for bit plane `k` of a pixel.
abbrev pub plane_at : Driver → Memory → ℕ → ℕ → ℕ → ℕ
plane_at d f x y k = half_of (frame_locate_row d y).shift (f (entry d x y * d.depth + k))

module _ (d : Driver) (v : IsDriver d) where
  driven_test :
      (x y : ℕ) → IsDriven d x y → leb d.drive_len (row_pos d (frame_locate_row d y) x) ≡ false
  driven_test x y h = ground arith

  row_set-IsFrame :
      (x y planes : ℕ) (f : Memory)
      → IsFrame f
      → IsFrame (frame_row_set d (frame_locate_row d y) x planes f)
  unfolding frame_row_set
  row_set-IsFrame x y planes f ok =
      elim (Bool-cases (leb d.drive_len (row_pos d (frame_locate_row d y) x))) [
        | inl undriven ↦ rw undriven ok
        | inr driven ↦ rw driven (set_planes-IsFrame _ (shift_cases d v y) d.depth _ planes f ok)
      ]

  row_set-same :
      (x y planes : ℕ) (f : Memory) (k : ℕ)
      → IsFrame f
      → IsDriven d x y
      → k < d.depth
      → plane_at d (frame_row_set d (frame_locate_row d y) x planes f) x y k ≡ plane_of planes k
  unfolding frame_row_set
  row_set-same x y planes f k ok driven h =
      rw (driven_test x y driven)
        (set_planes-inside _ (shift_cases d v y) d.depth (entry d x y * d.depth) planes f k _ ok h
          refl).0

  -- Another pixel's bits stay: they are in another entry, or in the other half of the same one.
  row_set-other :
      (x y x' y' planes : ℕ) (f : Memory) (k : ℕ)
      → x < d.active.width
      → y < d.active.height
      → x' < d.active.width
      → y' < d.active.height
      → ((x ≡ x') × (y ≡ y') → ⊥)
      → IsFrame f
      → IsDriven d x y
      → k < d.depth
      → plane_at d (frame_row_set d (frame_locate_row d y') x' planes f) x y k ≡ plane_at d f x y k
  unfolding frame_row_set
  row_set-other x y x' y' planes f k hx hy hx' hy' apart ok driven h =
      elim (Bool-cases (leb d.drive_len (row_pos d (frame_locate_row d y') x'))) [
        | inl undriven ↦ rw undriven
        | inr driven' ↦ rw driven' (
            set_planes-other d.depth (entry d x y) _ (entry d x' y') _ planes f k
              (shift_cases d v y) (shift_cases d v y')
              (λ same half.
                apart
                  (locate_injective d v x y x' y' hx hy hx' hy' driven (ground arith) same half))
              ok h)
      ]

  module _ (color : ℕ → ℕ → ℕ) where
    draw_row-IsFrame : (y n x : ℕ) (f : Memory) → IsFrame f → IsFrame (draw_row d color y n x f)
    unfolding draw_row
    draw_row-IsFrame y zero x f ok = ok
    draw_row-IsFrame y (suc n) x f ok =
        draw_row-IsFrame y n (x + 1) _ (row_set-IsFrame x y (color x y) f ok)

    pub draw_rows-IsFrame : (n y : ℕ) (f : Memory) → IsFrame f → IsFrame (draw_rows d color n y f)
    unfolding draw_rows
    draw_rows-IsFrame zero y f ok = ok
    draw_rows-IsFrame (suc n) y f ok =
        draw_rows-IsFrame n (y + 1) _ (draw_row-IsFrame y d.active.width 0 f ok)

    module _ (a b k : ℕ) (ha : a < d.active.width) (hb : b < d.active.height)
        (driven : IsDriven d a b) (hk : k < d.depth) where
      -- The rest of a row leaves the pixels alone that it has passed, and those of other rows.
      draw_row-kept :
          (y n x : ℕ) (f : Memory)
          → y < d.active.height
          → x + n ≤ d.active.width
          → (b ≡ y → a < x)
          → IsFrame f
          → plane_at d (draw_row d color y n x f) a b k ≡ plane_at d f a b k
      unfolding draw_row
      draw_row-kept y zero x f hy fits passed ok = refl
      draw_row-kept y (suc n) x f hy fits passed ok =
          draw_row-kept y n (x + 1) _ hy (omega (arith, fits)) (λ same. omega (arith, passed same))
            (row_set-IsFrame x y (color x y) f ok)
          ∙ row_set-other a b x y (color x y) f k ha hb (omega (arith, fits)) hy
              (λ same. omega (arith, passed same.1, same.0)) ok driven hk

      draw_row-drawn :
          (n x : ℕ) (f : Memory)
          → x + n ≤ d.active.width
          → x ≤ a
          → a < x + n
          → IsFrame f
          → plane_at d (draw_row d color b n x f) a b k ≡ plane_of (color a b) k
      unfolding draw_row
      draw_row-drawn zero x f fits from to ok = absurd (omega arith)
      draw_row-drawn (suc n) x f fits from to ok =
          let ok' = row_set-IsFrame x b (color x b) f ok in
          elim (Bool-cases (a == x)) [
            | inl here ↦
                let at = (==_iff a x).0 here in
                draw_row-kept b n (x + 1) _ hb (omega (arith, fits)) (λ _. omega (arith, at)) ok'
                ∙ rw (sym at) (row_set-same a b (color a b) f k ok driven hk)
            | inr later ↦
                draw_row-drawn n (x + 1) _ (omega (arith, fits)) (ground arith) (omega (arith, to))
                  ok'
          ]

      draw_rows-kept :
          (n y : ℕ) (f : Memory)
          → y + n ≤ d.active.height
          → b < y
          → IsFrame f
          → plane_at d (draw_rows d color n y f) a b k ≡ plane_at d f a b k
      unfolding draw_rows
      draw_rows-kept zero y f fits passed ok = refl
      draw_rows-kept (suc n) y f fits passed ok =
          draw_rows-kept n (y + 1) _ (omega (arith, fits)) (omega (arith, passed))
            (draw_row-IsFrame y d.active.width 0 f ok)
          ∙ draw_row-kept y d.active.width 0 f (omega (arith, fits)) (omega arith)
              (λ same. omega (arith, same, passed)) ok

      -- A pixel of a driven panel has its colour's bit planes once all rows have been drawn.
      pub draw_rows-drawn :
          (n y : ℕ) (f : Memory)
          → y + n ≤ d.active.height
          → y ≤ b
          → b < y + n
          → IsFrame f
          → plane_at d (draw_rows d color n y f) a b k ≡ plane_of (color a b) k
      unfolding draw_rows
      draw_rows-drawn zero y f fits from to ok = absurd (omega arith)
      draw_rows-drawn (suc n) y f fits from to ok =
          let ok' = draw_row-IsFrame y d.active.width 0 f ok in
          elim (Bool-cases (b == y)) [
            | inl here ↦
                let at = (==_iff b y).0 here in
                draw_rows-kept n (y + 1) _ (omega (arith, fits)) (omega (arith, at)) ok'
                ∙ rw (sym at) (
                    draw_row-drawn d.active.width 0 f (omega arith) (omega arith)
                      (omega (arith, ha)) ok)
            | inr later ↦
                draw_rows-drawn n (y + 1) _ (omega (arith, fits)) (ground arith) (omega (arith, to))
                  ok'
          ]
