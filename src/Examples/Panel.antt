-- ===== src/Examples/Panel.antt =====
-- A turned panel of 72 by 40 pixels.
use nodem_nrf.Base.{
  ◌+◌, ◌%◌, ◌^◌, ◌≡◌, negsuc, ◌↔◌, ◌≤◌, ◌<◌, refl, arith, true, pos, ◌+ℤ◌, ◌≤ℤ◌, if◌then◌else◌,
}
use nodem_nrf.Base.Errno.{is_ok}
use nodem_nrf.ConfigStore.Table.{entry_str}
use nodem_nrf.Examples.Store.{in_ram, boot, free_slot}
use nodem_nrf.Oled.{
  OledConfig, OledSize, oled_size, oled_size_find, size_find, next_num_field, rotation_field,
  parse_panel, check_panel, panel_ok, is_rotation, malformed, disabled, enabled, oled_config_parse,
  oled_key, display_oled_set, oled_config_read,
}
use nodem_nrf.Oled.Stored.{read-set_oled}
use nodem_nrf.Oled.Window.{
  Window, window, window_start, window_at, rotation_flips_cols, window_columns,
}
use nodem_nrf.NodemConfig.{Config, zero_config, nodem_map_axis, floor_div, clamp_i16, axis_margin}
use nodem_nrf.Oled.Pixels.{
  col_bit, row_bit, fb_x, fb_y, view_of, axis_bit, rotation_transposes, Reads, pixel-Reads,
}
use nodem_nrf.Text.{codes, equal, cut, skip_spaces, trim_end}
use nodem_nrf.Text.Decimal.{strtol}

abbrev small : OledConfig
small = record { width = 72; height = 40; x = 28; y = 0; rotation = 270 }

small_parsed : oled_config_parse (codes " ssd1306 : 72:40 :28: 0:270 ") ≡ enabled small
unfolding oled_config_parse parse_panel next_num_field rotation_field check_panel panel_ok
    is_rotation oled_size_find size_find equal cut skip_spaces trim_end strtol
small_parsed = refl

-- Another controller disables the panel, and an unknown size is refused.
others :
    (oled_config_parse (codes "none") ≡ disabled)
    × (oled_config_parse (codes "ssd1306:100:64:0:0") ≡ malformed)
unfolding oled_config_parse parse_panel next_num_field rotation_field check_panel panel_ok
    is_rotation oled_size_find size_find equal cut skip_spaces trim_end strtol
others = (refl, refl)

read-set_oled_example :
    let (err, s', generation') =
      display_oled_set in_ram boot 4 (codes " ssd1306 : 72:40 :28: 0:270 ") in
    (oled_config_read in_ram s' ≡ (enabled small, s'))
    × (generation' ≡ (if is_ok err then (4 + 1) % 2 ^ 32 else 4))
read-set_oled_example =
    read-set_oled in_ram boot 4 (codes " ssd1306 : 72:40 :28: 0:270 ") small small_parsed
      (free_slot entry_str oled_key)

-- Turned so that the controller flips the columns: 32 of them fall in front of the RAM.
abbrev turned : OledConfig
turned = record { width = 72; height = 40; x = 60; y = 0; rotation = 90 }

abbrev small_size : OledSize
small_size = oled_size 72 40 28 0x12 true

abbrev left_edge : Window
left_edge = record { col = 0; cols = 40; skip = 32; pages = 5 }

flipped_columns : window small_size turned ≡ left_edge
unfolding window window_at window_start rotation_flips_cols ◌+ℤ◌
flipped_columns = refl

window_columns_example :
    let w = window small_size turned in
    let start = window_start small_size turned in
    (pos w.col ≡ start +ℤ pos w.skip)
    × (((w.skip ≤ 32) × (32 < w.skip + w.cols))
        ↔ ((32 < 72) × (pos 0 ≤ℤ (start +ℤ pos 32)) × ((start +ℤ pos 32) ≤ℤ pos 127)))
window_columns_example =
    window_columns small_size turned 32 (unfold oled_size_find size_find in refl) (omega arith)

-- A framebuffer of 32 by 16 pixels, doubled and centred on the panel.
abbrev doubled : Config
doubled = record zero_config {
  width = 32;
  height = 16;
  oled = record { present = true; x = pos 0; y = pos 0; scale_x = 2; scale_y = 2 };
}

doubled_bits :
    (col_bit turned doubled 30 ≡ pos 160)
    × (row_bit turned doubled 3 ≡ pos 1)
    × (col_bit turned doubled 0 ≡ negsuc 0)
unfolding col_bit row_bit axis_bit rotation_transposes nodem_map_axis floor_div clamp_i16
    axis_margin ◌+ℤ◌
doubled_bits = (refl, refl, refl)

pixel-Reads_example :
    let (vx, vy) = view_of turned 30 3 in
    Reads
      (col_bit turned doubled 30)
      (row_bit turned doubled 3)
      (fb_x turned doubled vx)
      (fb_y turned doubled vy)
      32
      16
pixel-Reads_example = pixel-Reads turned doubled 30 3
