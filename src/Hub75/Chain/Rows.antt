-- ===== src/Hub75/Chain/Rows.antt =====
-- Where `frame_locate_row` of hub75_task.c puts a row, and that no two pixels share a place.
use nodem_nrf.Base.{
  ℕ, ◌+◌, ◌-◌, ◌*◌, ◌/◌, ◌%◌, ◌<◌, Bool, ◌&&◌, ◌≡◌, ◌⊎◌, sym, ap, ◌∙◌, arith, ◌==◌,
}
use nodem_nrf.Hub75.{Driver}
use nodem_nrf.Hub75.Chain.{differ, FrameRow, frame_locate_row, row_pos}
use nodem_nrf.Hub75.Chain.Places.{IsDriver, place_of, place-lt, place_injective, chain_build_lem}
use nodem_nrf.Hub75.Digits.{
  digits_lem, digits_unique, digits-lt, div-lt, mirrored, mirrored-lt, mirrored_injective, mul-mul,
  same_digits, mul-pos, ends_unique, end-lt, shift_two,
}

-- The entry of `frame` that a position stands for, without its planes.
abbrev pub entry_of : FrameRow → ℕ → ℕ
entry_of r pos = r.end - pos

module _ (d : Driver) (v : IsDriver d) where
  -- What `frame_locate_row` works out of a row.
  abbrev view_row : ℕ → ℕ
  view_row y = mirrored d.active.flip_y d.active.height y

  abbrev grid_row : ℕ → ℕ
  grid_row y = view_row y / d.panel_h

  abbrev upside_down : ℕ → Bool
  upside_down y = d.active.serpentine && (grid_row y % 2 == 1)

  abbrev panel_row : ℕ → ℕ
  panel_row y = mirrored (upside_down y) d.panel_h (view_row y % d.panel_h)

  abbrev half_row : ℕ → ℕ
  half_row y = panel_row y % (d.panel_h / 2)

  half_lem : d.panel_h / 2 ≡ d.row_blocks * d.scan_rows
  half_lem = omega (arith, v.panel_h)

  half_pos : 0 < d.panel_h / 2
  half_pos = rw half_lem (mul-pos _ _ v.blocks_pos v.scan_pos)

  panel_h_pos : 0 < d.panel_h
  panel_h_pos = omega (arith, half_pos)

  block-lt : (y : ℕ) → half_row y / d.scan_rows < d.row_blocks
  block-lt y =
      div-lt _ _ _ v.scan_pos
        (omega (arith, (digits_lem (panel_row y) (d.panel_h / 2) half_pos).1, half_lem))

  -- The four parts of a row's place tell it apart from every other.
  row_injective :
      (y y' : ℕ)
      → y < d.active.height
      → y' < d.active.height
      → grid_row y ≡ grid_row y'
      → panel_row y / (d.panel_h / 2) ≡ panel_row y' / (d.panel_h / 2)
      → half_row y / d.scan_rows ≡ half_row y' / d.scan_rows
      → half_row y % d.scan_rows ≡ half_row y' % d.scan_rows
      → y ≡ y'
  row_injective y y' h h' grid half block addr =
      let row = same_digits _ _ _ v.scan_pos block addr in
      let py = same_digits _ _ _ half_pos half row in
      let turned =
        ap
          (λ (g : ℕ).
            mirrored (d.active.serpentine && (g % 2 == 1)) d.panel_h (view_row y % d.panel_h))
          (sym grid) in
      let py' =
        mirrored_injective (upside_down y') _ _ _ (digits_lem _ _ panel_h_pos).1
          (digits_lem _ _ panel_h_pos).1 (turned ∙ py) in
      mirrored_injective d.active.flip_y _ _ _ h h' (same_digits _ _ _ panel_h_pos grid py')

  -- The column that the chain table is read at.
  abbrev column : ℕ → ℕ → ℕ
  column y x = mirrored (differ d.active.flip_x (upside_down y)) d.active.width x

  row_pos_lem :
      (x y : ℕ)
      → x < d.active.width
      → row_pos d (frame_locate_row d y) x
        ≡ grid_row y * (d.active.width * d.row_blocks)
          + place_of d v (half_row y / d.scan_rows) (column y x)
  unfolding row_pos frame_locate_row
  row_pos_lem x y h =
      let col = mirrored-lt (differ d.active.flip_x (upside_down y)) d.active.width x h in
      rw (mul-mul (grid_row y) d.active.width d.row_blocks) (
        ap (λ (p : ℕ). grid_row y * (d.active.width * d.row_blocks) + p)
          (chain_build_lem d v (half_row y / d.scan_rows) (column y x) (block-lt y) col))

  -- No two pixels of the display that are driven share an entry of `frame` and a half of it.
  pub locate_injective :
      (x y x' y' : ℕ)
      → x < d.active.width
      → y < d.active.height
      → x' < d.active.width
      → y' < d.active.height
      → row_pos d (frame_locate_row d y) x < d.drive_len
      → row_pos d (frame_locate_row d y') x' < d.drive_len
      → entry_of (frame_locate_row d y) (row_pos d (frame_locate_row d y) x)
        ≡ entry_of (frame_locate_row d y') (row_pos d (frame_locate_row d y') x')
      → (frame_locate_row d y).shift ≡ (frame_locate_row d y').shift
      → (x ≡ x') × (y ≡ y')
  unfolding frame_locate_row
  locate_injective x y x' y' hx hy hx' hy' in_r in_r' entry half =
      let (addr, pos) = ends_unique d.drive_len _ _ _ _ in_r in_r' entry in
      let col = mirrored-lt (differ d.active.flip_x (upside_down y)) d.active.width x hx in
      let col' = mirrored-lt (differ d.active.flip_x (upside_down y')) d.active.width x' hx' in
      let (grid, place) =
        digits_unique _ _ _ _ _ (place-lt d v _ _ (block-lt y) col)
          (place-lt d v _ _ (block-lt y') col')
          (sym (row_pos_lem x y hx) ∙ pos ∙ row_pos_lem x' y' hx') in
      let (block, column_eq) = place_injective d v _ _ _ _ (block-lt y) (block-lt y') place in
      let row = row_injective y y' hy hy' grid (omega (arith, half)) block addr in
      let turned =
        ap (λ (z : ℕ). mirrored (differ d.active.flip_x (upside_down z)) d.active.width x)
          (sym row) in
      (mirrored_injective _ _ _ _ hx hx' (turned ∙ column_eq), row)

  -- A pixel's entry is one of those that `frame` has room for.
  pub entry-lt :
      (x y : ℕ)
      → row_pos d (frame_locate_row d y) x < d.drive_len
      → entry_of (frame_locate_row d y) (row_pos d (frame_locate_row d y) x)
        < d.scan_rows * d.drive_len
  unfolding frame_locate_row
  entry-lt x y h =
      let addr = (digits_lem (half_row y) d.scan_rows v.scan_pos).1 in
      end-lt (half_row y % d.scan_rows) d.drive_len (row_pos d (frame_locate_row d y) x) d.scan_rows
        addr h

  pub shift_cases :
      (y : ℕ) → ((frame_locate_row d y).shift ≡ 0) ⊎ ((frame_locate_row d y).shift ≡ 3)
  unfolding frame_locate_row
  shift_cases y =
      let py =
        mirrored-lt (upside_down y) d.panel_h (view_row y % d.panel_h)
          (digits_lem _ _ panel_h_pos).1 in
      let half =
        div-lt (panel_row y) (d.panel_h / 2) 2 half_pos (omega (arith, py, v.panel_h, half_lem)) in
      shift_two _ half

  -- Every position is one of the chain's.
  pub row_pos-lt :
      (x y : ℕ)
      → x < d.active.width
      → y < d.active.height
      → row_pos d (frame_locate_row d y) x < d.chain_len
  row_pos-lt x y hx hy =
      let turned = mirrored-lt d.active.flip_y d.active.height y hy in
      let grid =
        div-lt (view_row y) d.panel_h d.active.grid_y panel_h_pos
          (omega (arith, turned, v.height)) in
      let col = mirrored-lt (differ d.active.flip_x (upside_down y)) d.active.width x hx in
      let below =
        digits-lt (grid_row y) (d.active.width * d.row_blocks) _ d.active.grid_y grid
          (place-lt d v (half_row y / d.scan_rows) (column y x) (block-lt y) col) in
      rw (row_pos_lem x y hx, v.chain) below
