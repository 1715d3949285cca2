-- ===== src/Hub75/Chain.antt =====
-- The chain that a row address drives, and where a pixel stands on it.
pub mod Places
pub mod Rows
use nodem_nrf.Base.{
  ℕ, ◌+◌, ◌-◌, ◌*◌, ◌/◌, ◌%◌, ◌^◌, Bool, true, false, not, ◌&&◌, ◌==◌, if◌then◌else◌,
}
use nodem_nrf.Hub75.{MatrixConfig, Driver}

abbrev pub differ : Bool → Bool → Bool
differ a b = if a then not b else b

-- `seg_w`
abbrev pub piece_width : Driver → ℕ
piece_width d = if d.active.segment == 0 then d.panel_w else d.active.segment

-- What `chain_build` writes to `chain_pos[b * active.width + x]`.
unfoldable pub chain_build : Driver → ℕ → ℕ → ℕ
chain_build d b x =
    let seg_w = piece_width d in
    let order = if d.active.far_first then d.row_blocks - 1 - b else b in
    let panel = x / d.panel_w in
    let px = x % d.panel_w in
    let seg = px / seg_w * d.row_blocks + order in
    let off = px % seg_w in
    let off' = if d.active.zigzag && (seg % 2 == 1) then seg_w - 1 - off else off in
    (panel * d.panel_w * d.row_blocks + seg * seg_w + off') % 2 ^ 16

-- `pos` points to the table's row for `block`.
pub record FrameRow : Type 0 where
  pub end : ℕ
  pub before : ℕ
  pub block : ℕ
  pub reverse : Bool
  pub shift : ℕ

unfoldable pub frame_locate_row : Driver → ℕ → FrameRow
frame_locate_row d y =
    let y' = if d.active.flip_y then d.active.height - 1 - y else y in
    let grid_row = y' / d.panel_h in
    let py = y' % d.panel_h in
    let upside_down = d.active.serpentine && (grid_row % 2 == 1) in
    let py' = if upside_down then d.panel_h - 1 - py else py in
    let half_rows = d.panel_h / 2 in
    let row = py' % half_rows in
    let addr = row % d.scan_rows in
    record {
      end = addr * d.drive_len + d.drive_len - 1;
      before = grid_row * d.active.width * d.row_blocks;
      block = row / d.scan_rows;
      reverse = differ d.active.flip_x upside_down;
      shift = py' / half_rows * 3;
    }

-- The chain position of the pixel `x` of a row.
unfoldable pub row_pos : Driver → FrameRow → ℕ → ℕ
row_pos d r x = r.before + chain_build d r.block (if r.reverse then d.active.width - 1 - x else x)
