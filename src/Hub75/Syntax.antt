-- ===== src/Hub75/Syntax.antt =====
-- hub75_task.c: reading the configuration of the matrix.
use nodem_nrf.Base.{
  ℕ, ◌*◌, Bool, true, false, not, ◌&&◌, ◌||◌, List, [], ◌∷◌, Option, none, some, ℤ, pos, pos_part,
  leb, leb_ℤ, ltb_ℤ, ◌==◌, if◌then◌else◌, ◌>>=◌, ◌>>◌, guard,
}
use nodem_nrf.Hub75.{Chip, MatrixConfig}
use nodem_nrf.Hub75.Colors.{next_field, parse_num, is_null, is_empty}
use nodem_nrf.Text.{Bytes, codes, equal}
use nodem_nrf.Text.Decimal.{strtol}

-- The flags of `parse_layout`.
pub record Seen : Type 0 where
  pub have_x : Bool
  pub have_y : Bool

unfoldable pub layout_from : Bytes → Seen → MatrixConfig → Option MatrixConfig
layout_from [] seen c = some c
layout_from (l ∷ s) seen c =
    let across = layout_from s (record seen { have_x = true }) (record c { flip_x = l == b'r' }) in
    let down = layout_from s (record seen { have_y = true }) (record c { flip_y = l == b'b' }) in
    if ((l == b'l') || (l == b'r')) && not seen.have_x
    then across
    else if ((l == b't') || (l == b'b')) && not seen.have_y
    then down
    else none

unfoldable pub parse_layout : Bytes → MatrixConfig → Option MatrixConfig
unfolding layout_from
parse_layout s c =
    layout_from s (record { have_x = false; have_y = false })
      (record c { flip_x = false; flip_y = false })

-- A number from 1 to 16 and what follows it.
unfoldable pub count_at : Option (ℤ × Bytes) → Option (ℕ × Bytes)
count_at none = none
count_at (some (v, s)) = if leb_ℤ (pos 1) v && leb_ℤ v (pos 16) then some (pos_part v, s) else none

-- "x<rows>", or one row.
unfoldable pub grid_rows : Bytes → Option (ℕ × Bytes)
grid_rows [] = some (1, [])
grid_rows (c ∷ s) = if c == b'x' then count_at (strtol s) else some (1, c ∷ s)

unfoldable pub grid_flag : Bytes → Bool × Bytes
grid_flag [] = (false, [])
grid_flag (c ∷ s) = if c == b'i' then (true, s) else (false, c ∷ s)

unfoldable pub parse_grid : Bytes → MatrixConfig → Option MatrixConfig
unfolding count_at grid_rows grid_flag
parse_grid s c = do
  (cols, s) ← count_at (strtol s)
  (rows, s) ← grid_rows s
  let flag = grid_flag s
  guard (is_empty flag.1 && leb (cols * rows) 16)
  some (record c { grid_x = cols; grid_y = rows; serpentine = flag.0 || c.serpentine })

unfoldable pub grid_part : Bytes → MatrixConfig → Option MatrixConfig
grid_part [] c = some c
grid_part (g ∷ s) c = parse_grid (g ∷ s) c

abbrev pub hub75_max_pixels : ℕ
hub75_max_pixels = 16384

unfoldable pub parse_geometry : Bytes → MatrixConfig → Option MatrixConfig
unfolding grid_part
parse_geometry s c = do
  (field, rest) ← next_field (some s) b':' 16
  width ← parse_num field 1 hub75_max_pixels
  (field, rest) ← next_field rest b':' 16
  height ← parse_num field 1 hub75_max_pixels
  (field, rest) ← next_field rest b':' 16
  c ← parse_layout field c
  (field, rest) ← next_field rest b':' 16
  guard (is_null rest)
  c ← grid_part field (record c { grid_x = 1; grid_y = 1; serpentine = false })
  some (record c { width = width; height = height })

-- A segment from "1" up to `UINT8_MAX`, or none.
unfoldable pub segment_of : Option (ℤ × Bytes) → Option (ℕ × Bytes)
segment_of none = none
segment_of (some (v, s)) = if ltb_ℤ (pos 255) v then none else some (pos_part v, s)

unfoldable pub segment_at : Bytes → Option (ℕ × Bytes)
segment_at [] = some (0, [])
segment_at (c ∷ s) =
    if leb b'1' c && leb c b'9' then segment_of (strtol (c ∷ s)) else some (0, c ∷ s)

unfoldable pub zigzag_at : Bytes → Bool × Bytes
zigzag_at [] = (false, [])
zigzag_at (c ∷ s) = if c == b'z' then (true, s) else (false, c ∷ s)

unfoldable pub parse_chain : Bytes → MatrixConfig → Option MatrixConfig
unfolding segment_of segment_at zigzag_at
parse_chain [] c = none
parse_chain (l ∷ s) c = do
  guard ((l == b'n') || (l == b'f'))
  (segment, s) ← segment_at s
  let zigzag = zigzag_at s
  guard (is_empty zigzag.1)
  some (record c { far_first = l == b'f'; segment = segment; zigzag = zigzag.0 })

pub record Preset : Type 0 where
  pub name : Bytes
  pub scan : ℕ
  pub far_first : Bool

abbrev preset : Bytes → ℕ → Bool → Preset
preset n s f = record { name = n; scan = s; far_first = f }

abbrev pub presets : List Preset
presets =
    preset (codes "4s") 4 false
    ∷ preset (codes "8s") 8 false
    ∷ preset (codes "8sf") 8 true
    ∷ preset (codes "16s") 16 false
    ∷ preset (codes "32s") 32 false
    ∷ []

unfoldable pub find_preset : List Preset → Bytes → Option Preset
find_preset [] s = none
find_preset (p ∷ ps) s = let rest = find_preset ps s in if equal s p.name then some p else rest

abbrev pub depth_default : ℕ
depth_default = 4

abbrev pub max_depth : ℕ
max_depth = 8

pub record ChipName : Type 0 where
  pub name : Bytes
  pub chip : Chip

abbrev chip_entry : Bytes → Chip → ChipName
chip_entry n c = record { name = n; chip = c }

abbrev pub chip_names : List ChipName
chip_names =
    chip_entry (codes "shift") Chip.shift
    ∷ chip_entry (codes "fm6126a") Chip.fm6126a
    ∷ chip_entry (codes "fm6124") Chip.fm6126a
    ∷ chip_entry (codes "icn2038s") Chip.fm6126a
    ∷ []

unfoldable pub find_chip : List ChipName → Bytes → Option Chip
find_chip [] s = none
find_chip (n ∷ ns) s = let rest = find_chip ns s in if equal s n.name then some n.chip else rest
