-- ===== src/Hub75/Alloc.antt =====
-- `hub75_alloc` of hub75_task.c: the buffers of a configuration in the arena.
pub mod Layout
use nodem_nrf.Base.{ℕ, zero, suc, ◌+◌, ◌*◌, ◌/◌, ◌%◌, ◌^◌, Option, none, some, ltb, if◌then◌else◌}
use nodem_nrf.Hub75.{Driver}

abbrev pub hub75_arena_size : ℕ
hub75_arena_size = 22 * 1024

abbrev pub idle_steps : ℕ
idle_steps = 2

abbrev pub paint_lut_len : ℕ
paint_lut_len = 256

-- `size_t` has 32 bits.
unfoldable pub align8 : ℕ → ℕ
align8 n = (n + 7) % 2 ^ 32 / 8 * 8

-- The sizes of the elements.
abbrev pub lut_bytes : ℕ
lut_bytes = 2 * (paint_lut_len * 8)

-- Offsets into the arena.
pub record Buffers : Type 0 where
  pub paint_lut_0 : ℕ
  pub paint_lut_1 : ℕ
  pub seq_a_0 : ℕ
  pub seq_b_0 : ℕ
  pub seq_a_1 : ℕ
  pub seq_b_1 : ℕ
  pub chain_pos : ℕ
  pub map_cols : ℕ
  pub frame : ℕ

unfoldable pub pos_bytes : Driver → ℕ
pos_bytes d = align8 (d.row_blocks * d.active.width * 2)

unfoldable pub cols_bytes : Driver → ℕ
cols_bytes d = align8 (d.active.width * 2)

unfoldable pub seq_bytes : ℕ → ℕ
seq_bytes drive_len = align8 ((drive_len + idle_steps) * 8)

unfoldable pub frame_bytes : Driver → ℕ → ℕ
frame_bytes d drive_len = align8 (d.scan_rows * drive_len * d.depth)

unfoldable pub total_bytes : Driver → ℕ → ℕ
total_bytes d drive_len =
    lut_bytes + 4 * seq_bytes drive_len + pos_bytes d + cols_bytes d + frame_bytes d drive_len

unfoldable pub place_buffers : Driver → ℕ → Buffers
place_buffers d drive_len =
    let seqs = lut_bytes in
    let seq = seq_bytes drive_len in
    let pos = seqs + seq + seq + seq + seq in
    record {
      paint_lut_0 = 0;
      paint_lut_1 = lut_bytes / 2;
      seq_a_0 = seqs;
      seq_b_0 = seqs + seq;
      seq_a_1 = seqs + seq + seq;
      seq_b_1 = seqs + seq + seq + seq;
      chain_pos = pos;
      map_cols = pos + pos_bytes d;
      frame = pos + pos_bytes d + cols_bytes d;
    }

unfoldable pub drive_len_of : Driver → ℕ → ℕ
drive_len_of d panels = (panels * d.panel_w * d.row_blocks) % 2 ^ 16

abbrev pub driving : Driver → ℕ → ℕ → Driver
driving d panels len = record d { drive_panels = panels; drive_len = len }

-- The loop from `panels` down; `none` for false, with what it leaves of the two globals.
unfoldable pub try_panels : Driver → ℕ → Driver × Option Buffers
try_panels d zero = (driving d 0 0, none)
try_panels d (suc n) =
    let fewer = try_panels d n in
    let len = drive_len_of d (suc n) in
    if ltb hub75_arena_size (total_bytes d len)
    then fewer
    else (driving d (suc n) len, some (place_buffers d len))

unfoldable pub hub75_alloc : Driver → Driver × Option Buffers
hub75_alloc d = try_panels d d.total_panels
