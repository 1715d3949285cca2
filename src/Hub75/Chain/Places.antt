-- ===== src/Hub75/Chain/Places.antt =====
-- `chain_build` of hub75_task.c gives each pixel of a row of panels a place of its own.
use nodem_nrf.Base.{ℕ, ◌+◌, ◌*◌, ◌/◌, ◌%◌, ◌^◌, ◌≤◌, ◌<◌, ◌&&◌, ◌≡◌, sym, ap, ◌∙◌, arith, ◌==◌}
use nodem_nrf.Hub75.{Driver}
use nodem_nrf.Hub75.Chain.{piece_width, chain_build}
use nodem_nrf.Hub75.Digits.{
  digits_lem, digits_unique, digits-lt, div-lt, mirrored, mirrored-lt, mirrored_injective,
  swap_factors, mul-mul, same_digits, le-mul, sum_cast,
}

-- The geometry of a driver: the panels split the display evenly, the pieces a panel's width, and
-- the blocks of rows its height. The chain fits 16 bits.
pub record IsDriver (d : Driver) : Type 0 where
  pub panel_w_pos : 0 < d.panel_w
  pub scan_pos : 0 < d.scan_rows
  pub blocks_pos : 0 < d.row_blocks
  pub width : d.active.width ≡ d.active.grid_x * d.panel_w
  pub height : d.active.height ≡ d.active.grid_y * d.panel_h
  pub panel_h : d.panel_h ≡ 2 * (d.row_blocks * d.scan_rows)
  pub piece_pos : 0 < piece_width d
  pub pieces : d.panel_w ≡ d.panel_w / piece_width d * piece_width d
  pub chain : d.chain_len ≡ d.active.grid_y * (d.active.width * d.row_blocks)
  pub chain_small : d.chain_len ≤ 8192
  pub grid_pos : 0 < d.active.grid_y
  pub depth_range : (0 < d.depth) × (d.depth ≤ 8)

module _ (d : Driver) (v : IsDriver d) where
  -- What `chain_build` works out of a column, before the last sum.
  abbrev pub order_of : ℕ → ℕ
  order_of b = mirrored d.active.far_first d.row_blocks b

  abbrev pub seg_of : ℕ → ℕ → ℕ
  seg_of b x = x % d.panel_w / piece_width d * d.row_blocks + order_of b

  abbrev pub off_of : ℕ → ℕ → ℕ
  off_of b x =
      mirrored (d.active.zigzag && (seg_of b x % 2 == 1)) (piece_width d)
        (x % d.panel_w % piece_width d)

  abbrev pub inner_of : ℕ → ℕ → ℕ
  inner_of b x = seg_of b x * piece_width d + off_of b x

  off-lt : (b x : ℕ) → off_of b x < piece_width d
  off-lt b x = mirrored-lt _ _ _ (digits_lem (x % d.panel_w) (piece_width d) v.piece_pos).1

  seg-lt : (b x : ℕ) → b < d.row_blocks → seg_of b x < d.panel_w / piece_width d * d.row_blocks
  seg-lt b x h =
      let px = (digits_lem x d.panel_w v.panel_w_pos).1 in
      digits-lt _ _ _ _
        (div-lt (x % d.panel_w) (piece_width d) (d.panel_w / piece_width d) v.piece_pos
          (omega (arith, px, v.pieces)))
        (mirrored-lt d.active.far_first d.row_blocks b h)

  inner-lt : (b x : ℕ) → b < d.row_blocks → inner_of b x < d.panel_w * d.row_blocks
  inner-lt b x h =
      let below = digits-lt _ _ _ _ (seg-lt b x h) (off-lt b x) in
      rw (swap_factors _ (piece_width d) d.row_blocks d.panel_w v.pieces) at below

  -- The place along the row of panels, before the cast.
  abbrev pub place_of : ℕ → ℕ → ℕ
  place_of b x = x / d.panel_w * (d.panel_w * d.row_blocks) + inner_of b x

  pub place-lt :
      (b x : ℕ)
      → b < d.row_blocks
      → x < d.active.width
      → place_of b x < d.active.width * d.row_blocks
  place-lt b x h l =
      let panel = div-lt x d.panel_w d.active.grid_x v.panel_w_pos (omega (arith, l, v.width)) in
      let below = digits-lt _ _ _ _ panel (inner-lt b x h) in
      let whole = mul-mul d.active.grid_x d.panel_w d.row_blocks in
      let width = ap (λ (w : ℕ). w * d.row_blocks) v.width in omega (arith, below, whole, width)

  off_injective :
      (b x b' x' : ℕ)
      → seg_of b x ≡ seg_of b' x'
      → off_of b x ≡ off_of b' x'
      → x % d.panel_w % piece_width d ≡ x' % d.panel_w % piece_width d
  off_injective b x b' x' seg off =
      mirrored_injective _ _ _ _ (digits_lem _ _ v.piece_pos).1 (digits_lem _ _ v.piece_pos).1 (
        off
        ∙ ap
            (λ (s : ℕ).
              mirrored (d.active.zigzag && (s % 2 == 1)) (piece_width d)
                (x' % d.panel_w % piece_width d))
            (sym seg))

  pub place_injective :
      (b x b' x' : ℕ)
      → b < d.row_blocks
      → b' < d.row_blocks
      → place_of b x ≡ place_of b' x'
      → (b ≡ b') × (x ≡ x')
  place_injective b x b' x' h h' e =
      let (panel, inner) = digits_unique _ _ _ _ _ (inner-lt b x h) (inner-lt b' x' h') e in
      let (seg, off) = digits_unique _ _ _ _ _ (off-lt b x) (off-lt b' x') inner in
      let (piece, order) =
        digits_unique _ _ _ _ _ (mirrored-lt d.active.far_first d.row_blocks b h)
          (mirrored-lt d.active.far_first d.row_blocks b' h') seg in
      let block = mirrored_injective _ _ _ _ h h' order in
      let rest = off_injective b x b' x' seg off in
      let px = same_digits _ _ _ v.piece_pos piece rest in
      (block, same_digits _ _ _ v.panel_w_pos panel px)

  -- The cast to 16 bits changes no position of the table.
  pub chain_build_lem :
      (b x : ℕ) → b < d.row_blocks → x < d.active.width → chain_build d b x ≡ place_of b x
  unfolding chain_build
  chain_build_lem b x h l =
      let below = place-lt b x h l in
      let few = le-mul d.active.grid_y (d.active.width * d.row_blocks) v.grid_pos in
      let small : place_of b x < 2 ^ 16 = omega (arith, below, few, v.chain, v.chain_small) in
      rw (mul-mul (x / d.panel_w) d.panel_w d.row_blocks) (
        sum_cast (x / d.panel_w * (d.panel_w * d.row_blocks)) (seg_of b x * piece_width d)
          (off_of b x) small)
