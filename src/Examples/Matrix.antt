-- ===== src/Examples/Matrix.antt =====
-- Four panels of 64 by 32 pixels, of which the arena has room for two.
use nodem_nrf.Base.{ℕ, ◌+◌, true, false, ◌≡◌, inr, refl, some, arith}
use nodem_nrf.Hub75.{Chip, Driver, MatrixConfig, derive, IsMatrix}
use nodem_nrf.Hub75.Alloc.{
  Buffers, align8, pos_bytes, cols_bytes, seq_bytes, frame_bytes, total_bytes, place_buffers,
  drive_len_of, try_panels, hub75_alloc,
}
use nodem_nrf.Hub75.Alloc.Layout.{IsLaidOut, IsLargest, alloc_lem}
use nodem_nrf.Hub75.Chain.{chain_build, frame_locate_row, row_pos}
use nodem_nrf.Hub75.Colors.{solid_color}
use nodem_nrf.Hub75.Frame.Draw.{IsDriven}

abbrev pub four_panels : MatrixConfig
four_panels = record {
  width = 128;
  height = 64;
  flip_x = true;
  flip_y = false;
  grid_x = 2;
  grid_y = 2;
  serpentine = true;
  scan = 8;
  far_first = true;
  segment = 16;
  zigzag = true;
  clock_khz = 500;
  chip = Chip.shift;
  depth = 4;
  color = solid_color 0xf00000;
  off_color = solid_color 0;
  brightness = 512;
}

pub four_panels-IsMatrix : IsMatrix four_panels
four_panels-IsMatrix = record {
  width_pos = omega arith;
  height_pos = omega arith;
  pixels = omega arith;
  columns = (omega arith, refl);
  rows = (omega arith, refl);
  panels = omega arith;
  scan_range = omega arith;
  blocks = refl;
  pieces = inr (omega arith, refl);
  segment_range = omega arith;
  depth_range = omega arith;
  clock_range = omega arith;
  brightness_range = omega arith;
}

abbrev pub two_driven : Driver
two_driven = record {
  active = four_panels;
  scan_rows = 8;
  row_blocks = 2;
  chain_len = 512;
  panel_w = 64;
  panel_h = 32;
  total_panels = 4;
  drive_panels = 2;
  drive_len = 256;
  depth = 4;
}

abbrev pub buffers : Buffers
buffers = record {
  paint_lut_0 = 0;
  paint_lut_1 = 2048;
  seq_a_0 = 4096;
  seq_b_0 = 6160;
  seq_a_1 = 8224;
  seq_b_1 = 10288;
  chain_pos = 12352;
  map_cols = 12864;
  frame = 13120;
}

pub two_fit : hub75_alloc (derive four_panels) ≡ (two_driven, some buffers)
unfolding hub75_alloc try_panels derive drive_len_of total_bytes seq_bytes pos_bytes cols_bytes
    frame_bytes align8 place_buffers
two_fit = refl

alloc_lem_example : IsLaidOut two_driven buffers × IsLargest (derive four_panels) two_driven
unfolding derive
alloc_lem_example = alloc_lem (derive four_panels) two_driven buffers (omega arith) two_fit

-- The pixel (100, 9) is on one of them.
pub driven : IsDriven two_driven 100 9
unfolding row_pos frame_locate_row chain_build
driven = omega arith

abbrev pub stripes : ℕ → ℕ → ℕ
stripes x y = x + y
