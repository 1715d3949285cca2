-- ===== src/NodemConfig.antt =====
-- nodem_config.c and nodem_config.h: the framebuffer's shape and its mapping onto the two drivers,
-- as a text in the config store.
pub mod Axis
pub mod Parse
pub mod Fields
pub mod Fuel
pub mod Format
pub mod Entries
pub mod RoundTrip
pub mod Stored
use nodem_nrf.Base.{
  ℕ, ◌+◌, ◌-◌, ◌*◌, ◌/◌, ◌%◌, ◌^◌, Bool, true, false, not, ◌&&◌, [], ◌∷◌, ◌++◌, Option, none, some,
  ℤ, pos, negsuc, pos_part, leb, leb_ℤ, ltb_ℤ, neg, sub_ℕ, ◌+ℤ◌, ltb, ◌==◌, if◌then◌else◌, ◌>>=◌,
  ◌>>◌, guard, length, suc, zero,
}
use nodem_nrf.Base.Errno.{ok, einval, is_ok}
use nodem_nrf.ConfigStore.{Settings, Store, config_get_str, config_set_str}
use nodem_nrf.Text.{Bytes, codes, equal, cut, skip_spaces, trim_end, truncated}
use nodem_nrf.Text.Decimal.{strtol, show, show_int}

pub record Mapping : Type 0 where
  pub present : Bool
  pub x : ℤ
  pub y : ℤ
  pub scale_x : ℕ
  pub scale_y : ℕ

pub record Config : Type 0 where
  pub width : ℕ
  pub height : ℕ
  pub bits_per_pixel : ℕ
  pub oled : Mapping
  pub hub75 : Mapping

abbrev pub nodem_fb_max_size : ℕ
nodem_fb_max_size = 4096

abbrev pub nodem_max_dimension : ℕ
nodem_max_dimension = 1024

abbrev pub nodem_max_scale : ℕ
nodem_max_scale = 16

abbrev pub nodem_key : Bytes
nodem_key = codes "nodem"

abbrev pub nodem_default : Bytes
nodem_default = codes "128:64:1,oled:0:0:1:1"

-- uint32_t arithmetic.
abbrev pub u32 : ℕ → ℕ
u32 n = n % 2 ^ 32

unfoldable pub nodem_config_buffer_len : Config → ℕ
nodem_config_buffer_len c = u32 (u32 (u32 (c.width * c.height) * c.bits_per_pixel) + 7) / 8

abbrev pub int16_min : ℤ
int16_min = negsuc (2 ^ 15 - 1)

abbrev pub int16_max : ℤ
int16_max = pos (2 ^ 15 - 1)

-- `rel / scale` where `rel` is not negative, else `-((-rel + scale - 1) / scale)`.
unfoldable pub floor_div : ℤ → ℕ → ℤ
floor_div (pos r) k = pos (r / k)
floor_div (negsuc n) k = neg ((suc n + k - 1) / k)

-- `CLAMP(v, INT16_MIN, INT16_MAX)`
unfoldable pub clamp_i16 : ℤ → ℤ
clamp_i16 v = if ltb_ℤ v int16_min then int16_min else if ltb_ℤ int16_max v then int16_max else v

-- `MAX((size - fb_size * scale) / 2, 0)`: the truncated subtraction is 0 where the source's quotient
-- is negative or 0.
unfoldable pub axis_margin : ℕ → ℕ → ℕ → ℕ
axis_margin size fb_size scale = (size - fb_size * scale) / 2

-- The callers' sizes and scales are small enough that no `int` overflows.
unfoldable pub nodem_map_axis : ℕ → ℕ → ℕ → ℕ → ℤ → ℤ
nodem_map_axis d size fb_size scale shift =
    clamp_i16 (shift +ℤ floor_div (sub_ℕ d (axis_margin size fb_size scale)) scale)

-- The field and what follows its separator, `none` for NULL; no result for false. (Where the field
-- does not fit the source has moved `*s` too, and each of its callers then returns.)
unfoldable pub next_field : Option Bytes → ℕ → ℕ → Option (Bytes × Option Bytes)
next_field none sep buf_len = none
next_field (some s) sep buf_len =
    let (before, rest) = cut sep s in
    let field = trim_end (skip_spaces before) in
    if leb buf_len (length field) then none else some (field, rest)

abbrev pub is_empty : Bytes → Bool
is_empty [] = true
is_empty (c ∷ s) = false

abbrev pub is_null : Option Bytes → Bool
is_null none = true
is_null (some s) = false

-- `*end != '\0' || v < min || v > max`; where no digit is read `end` is the field itself.
in_range : ℤ → ℤ → Option (ℤ × Bytes) → Option ℤ
in_range lo hi none = none
in_range lo hi (some (v, [])) = if leb_ℤ lo v && leb_ℤ v hi then some v else none
in_range lo hi (some (v, c ∷ s)) = none

unfoldable pub next_num : Option Bytes → ℤ → ℤ → Option (ℤ × Option Bytes)
unfolding in_range
next_num s lo hi = do
  (field, rest) ← next_field s b':' 16
  guard (not (is_empty field))
  v ← in_range lo hi (strtol field)
  some (v, rest)

-- The casts `(uint16_t)`, `(uint8_t)` of what is not negative, and `(int16_t)`.
abbrev pub to_u16 : ℤ → ℕ
to_u16 v = pos_part v % 2 ^ 16

abbrev pub to_u8 : ℤ → ℕ
to_u8 v = pos_part v % 2 ^ 8

abbrev signed16 : ℕ → ℤ
signed16 w = if ltb w (2 ^ 15) then pos w else negsuc (2 ^ 16 - 1 - w)

unfoldable pub to_i16 : ℤ → ℤ
to_i16 (pos n) = signed16 (n % 2 ^ 16)
to_i16 (negsuc n) = signed16 (2 ^ 16 - 1 - n % 2 ^ 16)

abbrev pub unmapped : Mapping
unmapped = record { present = false; x = pos 0; y = pos 0; scale_x = 0; scale_y = 0 }

-- What stands behind the driver's name.
unfoldable pub parse_mapping : Option Bytes → Option Mapping
parse_mapping s = do
  (x, s) ← next_num s int16_min int16_max
  (y, s) ← next_num s int16_min int16_max
  (scale_x, s) ← next_num s (pos 1) (pos nodem_max_scale)
  (scale_y, s) ← next_num s (pos 1) (pos nodem_max_scale)
  guard (is_null s)
  some (record {
    present = true;
    x = to_i16 x;
    y = to_i16 y;
    scale_x = to_u8 scale_x;
    scale_y = to_u8 scale_y;
  })

parse_oled : Option Bytes → Config → Option Config
parse_oled s c = do guard (not c.oled.present); m ← parse_mapping s; some (record c { oled = m })

parse_hub75 : Option Bytes → Config → Option Config
parse_hub75 s c = do guard (not c.hub75.present); m ← parse_mapping s; some (record c { hub75 = m })

parse_driver : Bytes → Option Bytes → Config → Option Config
unfolding parse_oled parse_hub75
parse_driver driver rest c =
    if equal driver (codes "oled")
    then parse_oled rest c
    else if equal driver (codes "hub75")
    then parse_hub75 rest c
    else none

unfoldable pub parse_device : Bytes → Config → Option Config
unfolding parse_driver
parse_device s c = do (driver, rest) ← next_field (some s) b':' 8; parse_driver driver rest c

abbrev pub zero_config : Config
zero_config = record {
  width = 0;
  height = 0;
  bits_per_pixel = 0;
  oled = unmapped;
  hub75 = unmapped;
}

-- The three geometry fields.
unfoldable pub parse_geometry : Bytes → Option Config
parse_geometry entry = do
  (width, geometry) ← next_num (some entry) (pos 1) (pos nodem_max_dimension)
  (height, geometry) ← next_num geometry (pos 1) (pos nodem_max_dimension)
  (bpp, geometry) ← next_num geometry (pos 1) (pos 1)
  guard (is_null geometry)
  let c = record zero_config {
    width = to_u16 width;
    height = to_u16 height;
    bits_per_pixel = to_u8 bpp;
  }
  guard (leb (nodem_config_buffer_len c) nodem_fb_max_size)
  some c

-- `while (s != NULL)`, one round for each field left.
unfoldable pub parse_devices : ℕ → Option Bytes → Config → Option Config
parse_devices fuel none c = some c
parse_devices zero (some s) c = none
parse_devices (suc fuel) (some s) c = do
  (entry, rest) ← next_field (some s) b',' 128
  c' ← (if is_empty entry then some c else parse_device entry c)
  parse_devices fuel rest c'

unfoldable pub parse : Bytes → Option Config
unfolding parse_geometry parse_devices
parse s = do
  (entry, rest) ← next_field (some s) b',' 128
  c ← parse_geometry entry
  parse_devices (length s) rest c

-- What the buffer holds, and the length `n` that `format` keeps.
abbrev pub Out : Type 0
Out = Bytes × ℕ

unfoldable pub mapping_text : Bytes → Mapping → Bytes
mapping_text driver m =
    b','
    ∷ (driver
        ++ b':'
          ∷ (show_int m.x
              ++ b':' ∷ (show_int m.y ++ b':' ∷ (show m.scale_x ++ b':' ∷ show m.scale_y))))

unfoldable pub format_device : ℕ → Out → Bytes → Mapping → Out
format_device buf_len (buf, n) driver m =
    let text = mapping_text driver m in
    if m.present && (ltb 0 n && ltb n buf_len)
    then (buf ++ truncated (buf_len - n) text, n + length text)
    else (buf, n)

unfoldable pub geometry_text : Config → Bytes
geometry_text c = show c.width ++ b':' ∷ (show c.height ++ b':' ∷ show c.bits_per_pixel)

unfoldable pub format : Config → ℕ → Bytes
unfolding format_device
format c buf_len =
    let text = geometry_text c in
    let out = format_device buf_len (truncated buf_len text, length text) (codes "oled") c.oled in
    (format_device buf_len out (codes "hub75") c.hub75).0

or_else : Config → Option Config → Config
or_else out none = out
or_else out (some c) = c

module _ {F : Type 0} (𝓢 : Settings F) where
  -- What `nodem_config_get` does with the value that was read; `out` is what its caller's
  -- configuration held before.
  get_parsed : Store F → Config → Option Config → Config × Store F
  unfolding or_else
  get_parsed s out (some c) = (c, s)
  get_parsed s out none =
      (or_else out (parse nodem_default), (config_set_str 𝓢 s nodem_key nodem_default).1)

  unfoldable pub nodem_config_get : Store F → Config → Config × Store F
  unfolding get_parsed
  nodem_config_get s out = get_parsed s out (parse (config_get_str s.entries nodem_key 128 []))

  set_parsed : Store F → ℕ → Option Config → ℤ × Store F × ℕ
  set_parsed s generation none = (einval, s, generation)
  set_parsed s generation (some c) =
      let (err, s') = config_set_str 𝓢 s nodem_key (format c 128) in
      (err, s', if is_ok err then u32 (generation + 1) else generation)

  -- The error, the store and the generation counter.
  unfoldable pub nodem_config_set : Store F → ℕ → Bytes → ℤ × Store F × ℕ
  unfolding set_parsed
  nodem_config_set s generation value =
      let text = skip_spaces value in
      set_parsed s generation (parse (if is_empty text then nodem_default else text))
