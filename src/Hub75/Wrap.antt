-- ===== src/Hub75/Wrap.antt =====
-- `hub75_start` of hub75_task.c with more blocks of rows than `row_blocks` can count.
use nodem_nrf.Base.{ℕ, ◌-◌, ◌*◌, ◌/◌, ◌%◌, ◌^◌, ◌≤◌, ◌<◌, ◌≡◌, refl, ap, ◌∙◌, arith, false}
use nodem_nrf.Hub75.{MatrixConfig, derive, IsMatrix}
use nodem_nrf.Hub75.Chain.{frame_locate_row}
use mathlib.Core.Bool.{Bool, ◌&&◌, true}
use nodem_nrf.Hub75.Digits.{mul-pos}
use nodem_nrf.Hub75.Derived.{blocks_of, row_blocks_lem, panel_h_lem, panel_h_split}

small_div : (y n : ℕ) → y < n → (y / n ≡ 0) × (y % n ≡ y)
small_div y n h = (grind arith, grind arith)

last_div : (b s : ℕ) → 0 < b → 0 < s → (b * s - 1) / s ≡ b - 1
last_div b s hb hs = grind arith

and-false : (b : Bool) → (b && false) ≡ false
and-false true = refl
and-false false = refl

module _ (c : MatrixConfig) (v : IsMatrix c) (upright : c.flip_y ≡ false)
    (many : 2 ^ 8 ≤ blocks_of c) where
  scan_pos : 0 < c.scan
  scan_pos = omega (arith, v.scan_range)

  product_pos : 0 < blocks_of c * c.scan
  product_pos = mul-pos (blocks_of c) c.scan (omega (arith, many)) scan_pos

  -- The last row of the upper half of the first panel.
  abbrev pub last_row : ℕ
  last_row = blocks_of c * c.scan - 1

  last_row-lt : last_row < c.height / c.grid_y
  last_row-lt = omega (arith, panel_h_split c v, product_pos)

  block_lem : (frame_locate_row (derive c) last_row).block ≡ blocks_of c - 1
  unfolding frame_locate_row derive
  block_lem =
      let (first, row) = small_div last_row (c.height / c.grid_y) last_row-lt in
      let half : c.height / c.grid_y / 2 ≡ blocks_of c * c.scan =
        omega (arith, panel_h_split c v) in
      let (_, same) = small_div last_row (blocks_of c * c.scan) (omega (arith, product_pos)) in
      rw (upright, panel_h_lem c v, first, row, and-false c.serpentine)
        (ap (λ (h : ℕ). last_row % h / c.scan) half
          ∙ ap (λ (y : ℕ). y / c.scan) same
          ∙ last_div (blocks_of c) c.scan (omega (arith, many)) scan_pos)

  -- `row_blocks` has 8 bits. A panel with 256 blocks of rows or more, which the parser's conditions
  -- allow, makes `frame_locate_row` point behind the last row of the table that `hub75_alloc` made
  -- room for, where the layout is upright.
  pub block-outside : (derive c).row_blocks ≤ (frame_locate_row (derive c) last_row).block
  block-outside = omega (arith, block_lem, row_blocks_lem c v, many)
