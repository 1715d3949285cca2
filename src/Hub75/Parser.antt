-- ===== src/Hub75/Parser.antt =====
-- hub75_task.c: `parse_protocol` and `hub75_config_parse`.
pub mod Ranges
pub mod Protocol
pub mod Accepted
use Prim.Native.Nat.{bit_and}
use nodem_nrf.Base.{
  ℕ, zero, suc, ◌+◌, ◌-◌, ◌*◌, ◌/◌, ◌%◌, ◌^◌, Bool, true, false, not, ◌&&◌, ◌||◌, List, [], ◌∷◌,
  Option, none, some, leb, ltb, ◌==◌, if◌then◌else◌, length, ◌>>=◌, ◌>>◌, guard,
}
use nodem_nrf.Hub75.{Chip, Color, MatrixConfig}
use nodem_nrf.Hub75.Colors.{next_field, parse_num, is_null, is_empty, parse_color, solid_color}
use nodem_nrf.Hub75.Render.{hub75_brightness_max}
use nodem_nrf.Hub75.Syntax.{
  parse_geometry, parse_chain, presets, find_preset, Preset, depth_default, max_depth, chip_names,
  find_chip, hub75_max_pixels,
}
use nodem_nrf.Text.{Bytes, codes, skip_spaces}

abbrev pub clock_min_khz : ℕ
clock_min_khz = 100

abbrev pub clock_max_khz : ℕ
clock_max_khz = 1000

-- The parts of a protocol; an empty one keeps what `c` holds.
unfoldable pub scan_part : Bytes → MatrixConfig → Option MatrixConfig
scan_part [] c = some c
scan_part (f ∷ s) c = do
  v ← parse_num (f ∷ s) 2 32
  guard (bit_and v (v - 1) == 0)
  some (record c { scan = v })

unfoldable pub chain_part : Bytes → MatrixConfig → Option MatrixConfig
chain_part [] c = some c
chain_part (f ∷ s) c = parse_chain (f ∷ s) c

unfoldable pub clock_part : Bytes → MatrixConfig → Option MatrixConfig
clock_part [] c = some c
clock_part (f ∷ s) c = do
  v ← parse_num (f ∷ s) clock_min_khz clock_max_khz
  some (record c { clock_khz = v })

unfoldable pub chip_part : Bytes → MatrixConfig → Option MatrixConfig
chip_part [] c = some c
chip_part (f ∷ s) c = do chip ← find_chip chip_names (f ∷ s); some (record c { chip = chip })

unfoldable pub depth_part : Bytes → MatrixConfig → Option MatrixConfig
depth_part [] c = some c
depth_part (f ∷ s) c = do v ← parse_num (f ∷ s) 1 max_depth; some (record c { depth = v })

unfoldable pub parse_parts : Bytes → MatrixConfig → Option MatrixConfig
unfolding scan_part chain_part clock_part chip_part depth_part
parse_parts s c = do
  (field, rest) ← next_field (some s) b':' 16
  c ← scan_part field c
  (field, rest) ← next_field rest b':' 16
  c ← chain_part field c
  (field, rest) ← next_field rest b':' 16
  c ← clock_part field c
  (field, rest) ← next_field rest b':' 16
  c ← chip_part field c
  (field, rest) ← next_field rest b':' 16
  guard (is_null rest)
  depth_part field c

unfoldable pub preset_or : Option Preset → Option MatrixConfig → MatrixConfig → Option MatrixConfig
preset_or none parts c = parts
preset_or (some p) parts c = some (record c {
  scan = p.scan;
  far_first = p.far_first;
  segment = 0;
  zigzag = false;
  clock_khz = 500;
  chip = Chip.shift;
  depth = depth_default;
})

unfoldable pub parse_protocol : Bytes → MatrixConfig → Option MatrixConfig
unfolding preset_or
parse_protocol s c = preset_or (find_preset presets s) (parse_parts s c) c

abbrev pub hub75_default : MatrixConfig
hub75_default = record {
  width = 64;
  height = 32;
  flip_x = true;
  flip_y = false;
  grid_x = 1;
  grid_y = 1;
  serpentine = false;
  scan = 8;
  far_first = false;
  segment = 0;
  zigzag = false;
  clock_khz = 500;
  chip = Chip.shift;
  depth = depth_default;
  color = solid_color 0xff0000;
  off_color = solid_color 0;
  brightness = 512;
}

unfoldable pub geometry_part : Bytes → MatrixConfig → Option MatrixConfig
geometry_part [] c = some c
geometry_part (f ∷ s) c = parse_geometry (f ∷ s) c

unfoldable pub protocol_part : Bytes → MatrixConfig → Option MatrixConfig
protocol_part [] c = some c
protocol_part (f ∷ s) c = parse_protocol (f ∷ s) c

unfoldable pub color_part : Bytes → Color → Option Color
color_part [] c = some c
color_part (f ∷ s) c = parse_color (f ∷ s)

unfoldable pub brightness_part : Bytes → ℕ → Option ℕ
brightness_part [] b = some b
brightness_part (f ∷ s) b = parse_num (f ∷ s) 0 hub75_brightness_max

-- The panels split the display evenly, the row addresses the panels, the segments their width.
unfoldable pub fits_panels : MatrixConfig → Bool
fits_panels c =
    let panel_w = (c.width / c.grid_x) % 2 ^ 16 in
    let panel_h = (c.height / c.grid_y) % 2 ^ 16 in
    leb (c.width * c.height) hub75_max_pixels
    && ((c.width % c.grid_x == 0)
        && ((c.height % c.grid_y == 0)
            && ((panel_h % (2 * c.scan) == 0) && ((c.segment == 0) || (panel_w % c.segment == 0)))))

unfoldable pub check_config : MatrixConfig → Option MatrixConfig
check_config c = if fits_panels c then some c else none

unfoldable pub parse_config : Bytes → Option MatrixConfig
unfolding geometry_part protocol_part color_part brightness_part
parse_config value = do
  (field, rest) ← next_field (some value) b',' 32
  c ← geometry_part field hub75_default
  (field, rest) ← next_field rest b',' 32
  c ← protocol_part field c
  (field, rest) ← next_field rest b',' 32
  color ← color_part field c.color
  (field, rest) ← next_field rest b',' 32
  off_color ← color_part field c.off_color
  (field, rest) ← next_field rest b',' 32
  brightness ← brightness_part field c.brightness
  guard (is_null rest)
  check_config (record c { color = color; off_color = off_color; brightness = brightness })

-- -EINVAL, 0 and 1.
pub data Parsed : Type 0 where
  malformed disabled : Parsed
  enabled : MatrixConfig → Parsed

unfoldable pub parsed_config : Option MatrixConfig → Parsed
parsed_config none = malformed
parsed_config (some c) = enabled c

unfoldable pub config_from : Bytes → Parsed
unfolding parsed_config
config_from [] = disabled
config_from (c ∷ s) = parsed_config (parse_config (c ∷ s))

unfoldable pub hub75_config_parse : Bytes → Parsed
unfolding config_from parsed_config
hub75_config_parse value = config_from (skip_spaces value)
