-- ===== src/Examples/Nodem.antt =====
-- The framebuffer's configuration, and which of its pixels an axis reads.
use nodem_nrf.Base.{
  ◌+◌, ◌*◌, ◌≤◌, ◌<◌, ◌≡◌, ◌↔◌, true, none, some, pos, negsuc, refl, arith, if◌then◌else◌,
}
use nodem_nrf.Base.Errno.{einval, is_ok}
use nodem_nrf.Examples.Store.{in_ram, boot, free_slot}
use nodem_nrf.NodemConfig.{
  axis_margin, Config, parse, format, nodem_config_get, nodem_config_set, nodem_default, nodem_key,
  nodem_map_axis, u32, zero_config, next_field, next_num, parse_device, parse_mapping, to_i16,
  nodem_config_buffer_len,
}
use nodem_nrf.NodemConfig.Axis.{map_axis-IsShown, IsShown}
use nodem_nrf.NodemConfig.Parse.{IsValid, parse-IsValid}
use nodem_nrf.NodemConfig.RoundTrip.{parse-format}
use nodem_nrf.NodemConfig.Stored.{effective, default_config, parse_default, set_malformed, get-set}
use nodem_nrf.ConfigStore.Table.{entry_str}
use nodem_nrf.Text.{codes, equal, cut, skip_spaces, trim_end}
use nodem_nrf.Text.Decimal.{strtol}

-- A framebuffer on both drivers, with an offset and scaling.
abbrev both : Config
both = record {
  width = 96;
  height = 32;
  bits_per_pixel = 1;
  oled = record { present = true; x = pos 0; y = negsuc 7; scale_x = 1; scale_y = 2 };
  hub75 = record { present = true; x = pos 16; y = pos 0; scale_x = 1; scale_y = 1 };
}

parsed : parse (codes " 96:32 : 1, hub75:16:0:1:1,,oled:0:-8:1:2") ≡ some both
unfolding parse next_field next_num parse_device parse_mapping to_i16 equal cut skip_spaces trim_end
    strtol nodem_config_buffer_len
parsed = refl

parsed_trimmed : parse (effective (codes " 96:32 : 1, hub75:16:0:1:1,,oled:0:-8:1:2")) ≡ some both
unfolding parse next_field next_num parse_device parse_mapping to_i16 equal cut skip_spaces trim_end
    strtol nodem_config_buffer_len
parsed_trimmed = refl

-- A text with a driver that is mapped twice, and one that is too large.
refused :
    (parse (codes "8:8:1,oled:0:0:1:1,oled:0:0:1:1") ≡ none) × (parse (codes "1024:512:1") ≡ none)
unfolding parse next_field next_num parse_device parse_mapping to_i16 equal cut skip_spaces trim_end
    strtol nodem_config_buffer_len
refused = (refl, refl)

parse-IsValid_example : IsValid both
parse-IsValid_example =
    parse-IsValid (codes " 96:32 : 1, hub75:16:0:1:1,,oled:0:-8:1:2") both parsed

parse-format_example : parse (format default_config 128) ≡ some default_config
parse-format_example =
    parse-format default_config (parse-IsValid nodem_default default_config parse_default)

get-set_example :
    let (err, s', generation') =
      nodem_config_set in_ram boot 7 (codes " 96:32 : 1, hub75:16:0:1:1,,oled:0:-8:1:2") in
    (nodem_config_get in_ram s' zero_config ≡ (both, s'))
    × (generation' ≡ (if is_ok err then u32 (7 + 1) else 7))
get-set_example =
    get-set in_ram boot 7 (codes " 96:32 : 1, hub75:16:0:1:1,,oled:0:-8:1:2") zero_config both
      parsed_trimmed (free_slot entry_str nodem_key)

set_malformed_example : nodem_config_set in_ram boot 7 (codes "1024:512:1") ≡ (einval, boot, 7)
set_malformed_example =
    set_malformed in_ram boot 7 (codes "1024:512:1") (unfold skip_spaces in refused.1)

map_axis-IsShown_example :
    (IsShown (nodem_map_axis 31 128 32 2 (pos 0)) 32 ↔ ((32 ≤ 31) × (31 < 32 + 32 * 2)))
    × (32 * 2 ≤ 128 → (32 + 32 * 2 + 32 ≤ 128) × (128 ≤ 32 + 32 * 2 + 32 + 1))
    × (128 ≤ 32 * 2 → axis_margin 128 32 2 ≡ 0)
unfolding axis_margin
map_axis-IsShown_example = map_axis-IsShown 31 128 32 2 (omega arith) (omega arith)
