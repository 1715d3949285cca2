-- ===== src/Hub75/Derived.antt =====
-- The geometry that `hub75_start` of hub75_task.c derives from a configuration.
use nodem_nrf.Base.{
  ℕ, ◌*◌, ◌/◌, ◌%◌, ◌^◌, ◌≤◌, ◌<◌, ◌≡◌, inl, inr, sym, ap, ◌∙◌, arith, ◌==◌, if◌then◌else◌, false,
}
use nodem_nrf.Hub75.{MatrixConfig, derive, IsMatrix}
use nodem_nrf.Hub75.Alloc.{drive_len_of}
use nodem_nrf.Hub75.Alloc.Layout.{IsSmall}
use nodem_nrf.Hub75.Chain.{piece_width}
use nodem_nrf.Hub75.Chain.Places.{IsDriver}
use nodem_nrf.Hub75.Digits.{div_exact, le-mul}
use native.Mathlib.Nat.{mul_comm, mul_right_comm}

div-le : (x n : ℕ) → x / n ≤ x
div-le x n = grind arith

-- The blocks of rows of half a panel, before the cast to 8 bits.
abbrev pub blocks_of : MatrixConfig → ℕ
blocks_of c = c.height / c.grid_y / 2 / c.scan

twice : (q s : ℕ) → q * (2 * s) ≡ 2 * (q * s)
twice q s = grind arith

half_twice : (p h : ℕ) → p ≡ 2 * h → p / 2 ≡ h
half_twice p h e = omega (arith, e)

exact_div : (q s : ℕ) → 0 < s → q * s / s ≡ q
exact_div q s h = grind arith

factor_pos : (a b n : ℕ) → n ≡ a * b → 1 ≤ n → 0 < b
factor_pos a b n e h = grind arith

chain_cast : (g w b : ℕ) → g * (w * b) ≤ 8192 → w * g * b % 2 ^ 16 ≡ g * (w * b)
chain_cast g w b h = let same : w * g * b ≡ g * (w * b) = grind arith in omega (arith, same, h)

whole_chain : (g h p b w : ℕ) → w ≡ g * p → g * h * p * b ≡ w * h * b
whole_chain g h p b w e =
    let same : g * h * p ≡ g * p * h = mul_right_comm g h p in
    ap (λ (z : ℕ). z * b) (same ∙ ap (λ (z : ℕ). z * h) (sym e))

self_mod : (n : ℕ) → 0 < n → n % n ≡ 0
self_mod n h = grind arith

left_pos : (a b : ℕ) → 0 < 2 * (a * b) → 0 < a
left_pos a b h = grind arith

regroup : (g w b s : ℕ) → w * (g * (2 * (b * s))) ≡ 2 * (s * (g * (w * b)))
regroup g w b s = grind arith

chain_bound : (g w b s h : ℕ) → h ≡ g * (2 * (b * s)) → 1 ≤ s → w * h ≤ 16384 → g * (w * b) ≤ 8192
chain_bound g w b s h e pos le =
    let pixels = ap (λ (z : ℕ). w * z) e ∙ regroup g w b s in
    omega (arith, pixels, le-mul s (g * (w * b)) pos, le)

module _ (c : MatrixConfig) (v : IsMatrix c) where
  width_le : c.width ≤ 16384
  width_le =
      omega (arith, le-mul c.height c.width v.height_pos, mul_comm c.height c.width, v.pixels)

  height_le : c.height ≤ 16384
  height_le = omega (arith, le-mul c.width c.height v.width_pos, v.pixels)

  panel_w_lem : (c.width / c.grid_x) % 2 ^ 16 ≡ c.width / c.grid_x
  panel_w_lem = omega (arith, div-le c.width c.grid_x, width_le)

  pub panel_h_lem : (c.height / c.grid_y) % 2 ^ 16 ≡ c.height / c.grid_y
  panel_h_lem = omega (arith, div-le c.height c.grid_y, height_le)

  width_split : c.width ≡ c.grid_x * (c.width / c.grid_x)
  width_split =
      div_exact c.width c.grid_x v.columns.0 v.columns.1 ∙ mul_comm (c.width / c.grid_x) c.grid_x

  height_split : c.height ≡ c.grid_y * (c.height / c.grid_y)
  height_split =
      div_exact c.height c.grid_y v.rows.0 v.rows.1 ∙ mul_comm (c.height / c.grid_y) c.grid_y

  abbrev quotient : ℕ
  quotient = c.height / c.grid_y / (2 * c.scan)

  panel_h_twice : c.height / c.grid_y ≡ 2 * (quotient * c.scan)
  panel_h_twice =
      div_exact (c.height / c.grid_y) (2 * c.scan) (omega (arith, v.scan_range)) v.blocks
      ∙ twice quotient c.scan

  blocks_lem : (blocks_of c) ≡ quotient
  blocks_lem =
      ap (λ (h : ℕ). h / c.scan) (half_twice _ _ panel_h_twice)
      ∙ exact_div quotient c.scan (omega (arith, v.scan_range))

  pub panel_h_split : c.height / c.grid_y ≡ 2 * ((blocks_of c) * c.scan)
  panel_h_split = panel_h_twice ∙ ap (λ (q : ℕ). 2 * (q * c.scan)) (sym blocks_lem)

  panel_w_pos : 0 < c.width / c.grid_x
  panel_w_pos = factor_pos c.grid_x (c.width / c.grid_x) c.width width_split v.width_pos

  panel_h_pos : 0 < c.height / c.grid_y
  panel_h_pos = factor_pos c.grid_y (c.height / c.grid_y) c.height height_split v.height_pos

  blocks_pos : 0 < (blocks_of c)
  blocks_pos = left_pos (blocks_of c) c.scan (omega (arith, panel_h_split, panel_h_pos))

  -- The chain has a half of the display's pixels, or fewer.
  chain_le : c.grid_y * (c.width * (blocks_of c)) ≤ 8192
  chain_le =
      chain_bound c.grid_y c.width (blocks_of c) c.scan c.height
        (height_split ∙ ap (λ (p : ℕ). c.grid_y * p) panel_h_split) (omega (arith, v.scan_range))
        v.pixels

  -- Only the casts of `hub75_start` are left to see through.
  pub row_blocks_lem : (derive c).row_blocks ≡ blocks_of c % 2 ^ 8
  unfolding derive
  row_blocks_lem = rw panel_h_lem

  piece_width_lem :
      piece_width (derive c) ≡ (if c.segment == 0 then c.width / c.grid_x else c.segment)
  unfolding derive
  piece_width_lem = rw panel_w_lem

  pieces_lem :
      let w = c.width / c.grid_x in
      let p = if c.segment == 0 then w else c.segment in (0 < p) × (w ≡ w / p * p)
  pieces_lem = elim v.pieces [
    | inl whole ↦ rw whole (panel_w_pos, div_exact _ _ panel_w_pos (self_mod _ panel_w_pos))
    | inr (pos, even) ↦
        let some_piece : (c.segment == 0) ≡ false = ground arith in
        rw some_piece (pos, div_exact _ _ pos even)
  ]

  chain_len_lem : blocks_of c < 2 ^ 8 → (derive c).chain_len ≡ c.grid_y * (c.width * blocks_of c)
  unfolding derive
  chain_len_lem few =
      let blocks : blocks_of c % 2 ^ 8 ≡ blocks_of c = omega (arith, few) in
      rw (panel_h_lem, blocks) (chain_cast c.grid_y c.width (blocks_of c) chain_le)

  -- A configuration that the parser accepts, of fewer than 256 blocks, gives the driver a geometry
  -- in which the panels, the pieces and the blocks come out even.
  pub derive-IsDriver : blocks_of c < 2 ^ 8 → IsDriver (derive c)
  unfolding derive
  derive-IsDriver few =
      let blocks : blocks_of c % 2 ^ 8 ≡ blocks_of c = omega (arith, few) in
      let rows = row_blocks_lem ∙ blocks in
      let pieces = pieces_lem in
      let chain = chain_len_lem few in
      record {
        panel_w_pos = rw panel_w_lem panel_w_pos;
        scan_pos = omega (arith, v.scan_range);
        blocks_pos = rw rows blocks_pos;
        width = rw panel_w_lem width_split;
        height = rw panel_h_lem height_split;
        panel_h = rw (panel_h_lem, blocks) panel_h_split;
        piece_pos = rw piece_width_lem pieces.0;
        pieces = rw (piece_width_lem, panel_w_lem) pieces.1;
        chain = chain ∙ ap (λ (b : ℕ). c.grid_y * (c.width * b)) (sym rows);
        chain_small = omega (arith, chain, chain_le);
        grid_pos = omega (arith, v.rows);
        depth_range = omega (arith, v.depth_range);
      }

  pub derive-IsSmall : blocks_of c < 2 ^ 8 → IsSmall (derive c)
  unfolding derive
  derive-IsSmall few =
      let blocks : blocks_of c % 2 ^ 8 ≡ blocks_of c = omega (arith, few) in
      let one_row = le-mul c.grid_y (c.width * blocks_of c) v.rows.0 in
      let order = mul_comm (blocks_of c) c.width in
      (
        rw (panel_h_lem, blocks) (omega (arith, one_row, order, chain_le)),
        omega (arith, width_le),
        omega (arith, v.scan_range),
        omega (arith, v.depth_range),
      )

  -- All panels together are the whole chain.
  pub full_len :
      blocks_of c < 2 ^ 8 → drive_len_of (derive c) (derive c).total_panels ≡ (derive c).chain_len
  unfolding derive drive_len_of
  full_len few =
      let blocks : blocks_of c % 2 ^ 8 ≡ blocks_of c = omega (arith, few) in
      let panels : c.grid_x * c.grid_y % 2 ^ 8 ≡ c.grid_x * c.grid_y = omega (arith, v.panels) in
      rw (panel_h_lem, panel_w_lem, blocks, panels)
        (ap (λ (z : ℕ). z % 2 ^ 16)
          (whole_chain c.grid_x c.grid_y (c.width / c.grid_x) (blocks_of c) c.width width_split))
