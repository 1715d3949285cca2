-- ===== src/Oled.antt =====
-- display_task.c: the configuration of the OLED panel in the config store.
pub mod Panel
pub mod Stored
pub mod Window
pub mod Pixels
use nodem_nrf.Base.{
  ℕ, zero, suc, ◌+◌, ◌-◌, ◌%◌, ◌^◌, Bool, true, false, not, ◌&&◌, ◌||◌, List, [], ◌∷◌, ◌++◌, Option,
  none, some, ℤ, pos, negsuc, pos_part, ltb, leb, leb_ℤ, ltb_ℤ, ◌==◌, if◌then◌else◌, length, ◌>>=◌,
  ◌>>◌, guard,
}
use nodem_nrf.Base.Errno.{einval, is_ok}
use nodem_nrf.ConfigStore.{Settings, Store, config_get_str, config_set_str}
use nodem_nrf.Text.{Bytes, codes, equal, cut, skip_spaces, trim_end, truncated}
use nodem_nrf.Text.Decimal.{strtol, show}

pub record OledConfig : Type 0 where
  pub width : ℕ
  pub height : ℕ
  pub x : ℕ
  pub y : ℕ
  pub rotation : ℕ

pub record OledSize : Type 0 where
  pub width : ℕ
  pub height : ℕ
  pub offset_x : ℕ
  pub com_pins : ℕ
  pub iref : Bool

abbrev pub oled_size : ℕ → ℕ → ℕ → ℕ → Bool → OledSize
oled_size w h off pins iref = record {
  width = w;
  height = h;
  offset_x = off;
  com_pins = pins;
  iref = iref;
}

abbrev pub oled_sizes : List OledSize
oled_sizes =
    oled_size 128 64 0 0x12 false
    ∷ oled_size 128 32 0 0x02 false
    ∷ oled_size 96 16 0 0x02 false
    ∷ oled_size 72 40 28 0x12 true
    ∷ oled_size 64 48 32 0x12 false
    ∷ oled_size 64 32 32 0x12 false
    ∷ []

unfoldable pub size_find : List OledSize → ℕ → ℕ → Option OledSize
size_find [] width height = none
size_find (o ∷ sizes) width height =
    let rest = size_find sizes width height in
    if o.width == width && o.height == height then some o else rest

unfoldable pub oled_size_find : ℕ → ℕ → Option OledSize
unfolding size_find
oled_size_find width height = size_find oled_sizes width height

-- What stands behind a number and its spaces.
field_end : ℤ → Bytes → Option (ℤ × Option Bytes)
field_end v [] = some (v, none)
field_end v (c ∷ s) = if c == b':' then some (v, some s) else none

-- An advancing text is an optional rest, `none` for NULL.
unfoldable pub next_num_field : Option Bytes → Option (ℤ × Option Bytes)
unfolding field_end
next_num_field none = none
next_num_field (some s) = do (v, end) ← strtol s; field_end v (skip_spaces end)

abbrev pub at_end : Option Bytes → Bool
at_end none = true
at_end (some s) = false

abbrev pub is_found : Option OledSize → Bool
is_found none = false
is_found (some size) = true

unfoldable pub rotation_field : Option Bytes → Option ℤ
rotation_field none = some (pos 0)
rotation_field (some s) = do (v, rest) ← next_num_field (some s); guard (at_end rest); some v

unfoldable pub is_rotation : ℕ → Bool
is_rotation r = (r == 0) || ((r == 90) || ((r == 180) || (r == 270)))

abbrev pub in_bounds : ℤ → ℕ → Bool
in_bounds v size = leb_ℤ (pos 0) v && ltb_ℤ v (pos size)

-- The ranges of the numbers, in which the casts change nothing. A negative rotation is none.
unfoldable pub panel_ok : ℤ → ℤ → ℤ → ℤ → ℤ → Bool
panel_ok width height x y rotation =
    in_bounds width 256
    && (in_bounds height 256
        && (is_found (oled_size_find (pos_part width) (pos_part height))
            && (in_bounds x 128
                && (in_bounds y 64
                    && (leb_ℤ (pos 0) rotation && is_rotation (pos_part rotation))))))

unfoldable pub check_panel : ℤ → ℤ → ℤ → ℤ → ℤ → Option OledConfig
unfolding panel_ok
check_panel width height x y rotation =
    let c : OledConfig = record {
      width = pos_part width;
      height = pos_part height;
      x = pos_part x;
      y = pos_part y;
      rotation = pos_part rotation;
    } in
    if panel_ok width height x y rotation then some c else none

unfoldable pub parse_panel : Option Bytes → Option OledConfig
parse_panel p = do
  (width, p) ← next_num_field p
  (height, p) ← next_num_field p
  (x, p) ← next_num_field p
  (y, p) ← next_num_field p
  rotation ← rotation_field p
  check_panel width height x y rotation

-- -EINVAL, 0 and 1.
pub data Parsed : Type 0 where
  malformed disabled : Parsed
  enabled : OledConfig → Parsed

parsed_panel : Option OledConfig → Parsed
parsed_panel none = malformed
parsed_panel (some c) = enabled c

unfoldable pub oled_config_parse : Bytes → Parsed
unfolding parsed_panel
oled_config_parse s =
    let (proto, rest) = cut b':' (skip_spaces s) in
    if equal (trim_end proto) (codes "ssd1306") then parsed_panel (parse_panel rest) else disabled

unfoldable pub panel_text : OledConfig → Bytes
panel_text c =
    codes "ssd1306"
    ++ b':' ∷ (show c.width ++ b':' ∷ (show c.height ++ b':' ∷ (show c.x ++ b':' ∷ show c.y)))

unfoldable pub oled_config_format : OledConfig → ℕ → Bytes
oled_config_format c buf_len =
    let text = panel_text c in
    let n = length text in
    if not (c.rotation == 0) && (ltb 0 n && ltb n buf_len)
    then truncated buf_len text ++ truncated (buf_len - n) (b':' ∷ show c.rotation)
    else truncated buf_len text

abbrev pub oled_key : Bytes
oled_key = codes "oled"

abbrev pub oled_default : Bytes
oled_default = codes "ssd1306:128:64:0:0"

abbrev pub unset_value : Bytes
unset_value = 1 ∷ []

module _ {F : Type 0} (𝓢 : Settings F) where
  store_oled : Store F → ℕ → Bytes → ℤ × Store F × ℕ
  store_oled s generation value =
      let (err, s') = config_set_str 𝓢 s oled_key value in
      (err, s', if is_ok err then (generation + 1) % 2 ^ 32 else generation)

  set_oled : Store F → ℕ → Bytes → Parsed → ℤ × Store F × ℕ
  unfolding store_oled
  set_oled s generation value malformed = (einval, s, generation)
  set_oled s generation value disabled = store_oled s generation value
  set_oled s generation value (enabled c) = store_oled s generation (oled_config_format c 128)

  -- The error, the store and the generation.
  unfoldable pub display_oled_set : Store F → ℕ → Bytes → ℤ × Store F × ℕ
  unfolding set_oled
  display_oled_set s generation value = set_oled s generation value (oled_config_parse value)

  -- Whether the panel is enabled with what `out` holds, and the store.
  unfoldable pub read_default : Store F → Parsed → Parsed × Store F
  read_default s parsed = (parsed, (config_set_str 𝓢 s oled_key oled_default).1)

  unfoldable pub read_parsed : Store F → Parsed → Parsed × Store F
  unfolding read_default
  read_parsed s malformed = read_default s (oled_config_parse oled_default)
  read_parsed s disabled = (disabled, s)
  read_parsed s (enabled c) = (enabled c, s)

  unfoldable pub oled_config_read : Store F → Parsed × Store F
  unfolding read_parsed
  oled_config_read s =
      let value = config_get_str s.entries oled_key 128 unset_value in
      let fallback = read_default s (oled_config_parse oled_default) in
      let parsed = read_parsed s (oled_config_parse value) in
      if equal value unset_value then fallback else parsed
