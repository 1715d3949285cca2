-- ===== src/Hub75.antt =====
-- hub75_task.c: the configuration of the LED matrix and what the driver derives from it.
pub mod Digits
pub mod Chain
pub mod Frame
pub mod Alloc
pub mod Derived
pub mod Shown
pub mod Wrap
pub mod Render
pub mod Interrupt
pub mod Nodem
pub mod Paint
pub mod Task
pub mod Colors
pub mod Syntax
pub mod Parser
pub mod Stored
use nodem_nrf.Base.{ℕ, ◌*◌, ◌/◌, ◌%◌, ◌^◌, ◌≤◌, ◌<◌, Bool, List, ◌≡◌, ◌⊎◌}

pub data Chip : Type 0 where
  shift fm6126a : Chip

pub data Effect : Type 0 where
  solid plasma stripes wave scroll cycle fade fire sparkle ripple gradient : Effect

-- `palette` is the first `palette_len` bytes of the array.
pub record Color : Type 0 where
  pub effect : Effect
  pub speed : ℕ
  pub palette : List ℕ
  pub scale : ℕ
  pub rgb : ℕ

pub record MatrixConfig : Type 0 where
  pub width : ℕ
  pub height : ℕ
  pub flip_x : Bool
  pub flip_y : Bool
  pub grid_x : ℕ
  pub grid_y : ℕ
  pub serpentine : Bool
  pub scan : ℕ
  pub far_first : Bool
  pub segment : ℕ
  pub zigzag : Bool
  pub clock_khz : ℕ
  pub chip : Chip
  pub depth : ℕ
  pub color : Color
  pub off_color : Color
  pub brightness : ℕ

-- The driver's globals about the configuration that runs, from `active` to `drive_len`.
pub record Driver : Type 0 where
  pub active : MatrixConfig
  pub scan_rows : ℕ
  pub row_blocks : ℕ
  pub chain_len : ℕ
  pub panel_w : ℕ
  pub panel_h : ℕ
  pub total_panels : ℕ
  pub drive_panels : ℕ
  pub drive_len : ℕ
  pub depth : ℕ

-- What `hub75_start` sets before it calls `hub75_alloc`. The divisors of a configuration that the
-- parser accepts are positive.
unfoldable pub derive : MatrixConfig → Driver
derive c =
    let panel_w = (c.width / c.grid_x) % 2 ^ 16 in
    let panel_h = (c.height / c.grid_y) % 2 ^ 16 in
    let row_blocks = (panel_h / 2 / c.scan) % 2 ^ 8 in
    record {
      active = c;
      scan_rows = c.scan;
      row_blocks = row_blocks;
      chain_len = (c.width * c.grid_y * row_blocks) % 2 ^ 16;
      panel_w = panel_w;
      panel_h = panel_h;
      total_panels = (c.grid_x * c.grid_y) % 2 ^ 8;
      drive_panels = 0;
      drive_len = 0;
      depth = c.depth;
    }

-- What the driver needs of a configuration: an even grid of panels, on each an even number of blocks
-- of rows and of pieces of a row, and the ranges of its numbers.
pub record IsMatrix (c : MatrixConfig) : Type 0 where
  pub width_pos : 1 ≤ c.width
  pub height_pos : 1 ≤ c.height
  pub pixels : c.width * c.height ≤ 16384
  pub columns : (1 ≤ c.grid_x) × (c.width % c.grid_x ≡ 0)
  pub rows : (1 ≤ c.grid_y) × (c.height % c.grid_y ≡ 0)
  pub panels : c.grid_x * c.grid_y ≤ 16
  pub scan_range : (2 ≤ c.scan) × (c.scan ≤ 32)
  pub blocks : (c.height / c.grid_y) % (2 * c.scan) ≡ 0
  pub pieces : (c.segment ≡ 0) ⊎ ((1 ≤ c.segment) × ((c.width / c.grid_x) % c.segment ≡ 0))
  pub segment_range : c.segment < 256
  pub depth_range : (1 ≤ c.depth) × (c.depth ≤ 8)
  pub clock_range : (100 ≤ c.clock_khz) × (c.clock_khz ≤ 1000)
  pub brightness_range : c.brightness ≤ 0x7fff
