-- ===== src/Oled/Stored.antt =====
-- The panel's configuration in the config store: `display_oled_set` and `oled_config_read`.
use nodem_nrf.Base.{
  ℕ, ◌+◌, ◌%◌, ◌^◌, ◌≤◌, ◌<◌, true, false, ◌≡◌, refl, ◌∙◌, inl, inr, arith, if◌then◌else◌, length,
  length-append, Bool-cases, ◌⊎◌,
}
use nodem_nrf.Base.Errno.{is_ok}
use nodem_nrf.ConfigStore.{Settings, Store, config_get_str, config_set_str}
use nodem_nrf.ConfigStore.Find.{has_room}
use nodem_nrf.ConfigStore.RoundTrip.{too_long, get-set_str}
use nodem_nrf.ConfigStore.Table.{entry_str}
use nodem_nrf.Oled.{
  OledConfig, oled_size_find, size_find, next_num_field, rotation_field, parse_panel, check_panel,
  panel_ok, is_rotation, Parsed, malformed, disabled, enabled, oled_config_parse, panel_text,
  oled_config_format, oled_key, oled_default, unset_value, display_oled_set, oled_config_read,
  read_parsed, read_default,
}
use nodem_nrf.Oled.Panel.{
  IsPanel, format_text, length-panel_text, length-rotation_text, rotation_text, oled_parse-format,
  oled_parse-IsPanel,
}
use nodem_nrf.Text.{Bytes, equal, equal_iff, truncated_fits, cut, skip_spaces, trim_end}
use nodem_nrf.Text.Decimal.{strtol}

abbrev pub default_panel : OledConfig
default_panel = record { width = 128; height = 64; x = 0; y = 0; rotation = 0 }

-- The built-in default is accepted.
parse_default_panel : oled_config_parse oled_default ≡ enabled default_panel
unfolding oled_config_parse parse_panel next_num_field rotation_field check_panel panel_ok
    is_rotation oled_size_find size_find equal cut skip_spaces trim_end strtol
parse_default_panel = refl

length-rotation-le : (c : OledConfig) → IsPanel c → length (rotation_text c.rotation) ≤ 4
unfolding rotation_text
length-rotation-le c v = ground (arith, length-rotation_text c.rotation v.right_angle)

format_fits :
    (c : OledConfig)
    → IsPanel c
    → (too_long oled_key (oled_config_format c 128) ≡ false)
      × (length (oled_config_format c 128) < 128)
format_fits c v =
    let fits : length (oled_config_format c 128) ≤ 26 = rw (format_text c v) (
      omega (
        arith,
        length-append (panel_text c) (rotation_text c.rotation),
        (length-panel_text c v).1,
        length-rotation-le c v,
      )) in
    (ground arith, omega arith)

format_set : (c : OledConfig) → IsPanel c → equal (oled_config_format c 128) unset_value ≡ false
unfolding panel_text equal
format_set c v = rw (format_text c v) refl

abbrev pub IsUsable : Parsed → Type 0
IsUsable p = (p ≡ disabled) ⊎ ((c : OledConfig) × (p ≡ enabled c) × IsPanel c)

module _ {F : Type 0} (𝓢 : Settings F) where
  read_of_stored :
      (s : Store F) (c : OledConfig) (text : Bytes)
      → config_get_str s.entries oled_key 128 unset_value ≡ text
      → equal text unset_value ≡ false
      → oled_config_parse text ≡ enabled c
      → oled_config_read 𝓢 s ≡ (enabled c, s)
  unfolding oled_config_read
  read_of_stored s c text stored is_set parsed = rw (stored, is_set, parsed) refl

  -- An accepted panel is stored so that the next `oled_config_read` gives exactly the configuration
  -- that was parsed and writes nothing, whatever the write to flash returned, where the table has
  -- the entry or a free slot; the generation is bumped exactly if that write succeeded.
  pub read-set_oled :
      (s : Store F) (generation : ℕ) (value : Bytes) (c : OledConfig)
      → oled_config_parse value ≡ enabled c
      → has_room s.entries entry_str oled_key ≡ true
      → let (err, s', generation') = display_oled_set 𝓢 s generation value in
        (oled_config_read 𝓢 s' ≡ (enabled c, s'))
        × (generation' ≡ (if is_ok err then (generation + 1) % 2 ^ 32 else generation))
  unfolding display_oled_set
  read-set_oled s generation value c parsed room =
      let v = oled_parse-IsPanel value c parsed in
      let text = oled_config_format c 128 in
      let (fits, short) = format_fits c v in
      let s' = (config_set_str 𝓢 s oled_key text).1 in
      let read = (get-set_str 𝓢 s oled_key text fits room).0 oled_key 128 unset_value in
      let same = (equal_iff oled_key oled_key).1 refl in
      let stored : config_get_str s'.entries oled_key 128 unset_value ≡ text =
        read ∙ rw same (truncated_fits 128 text short) in
      rw parsed (read_of_stored s' c text stored (format_set c v) (oled_parse-format c v), refl)

  fallback_ok : (s : Store F) → IsUsable (read_default 𝓢 s (oled_config_parse oled_default)).0
  unfolding read_default
  fallback_ok s = inr (
    default_panel,
    parse_default_panel,
    oled_parse-IsPanel oled_default default_panel parse_default_panel,
  )

  parsed_ok :
      (s : Store F) (value : Bytes) (p : Parsed)
      → oled_config_parse value ≡ p
      → IsUsable (read_parsed 𝓢 s p).0
  unfolding read_parsed
  parsed_ok s value malformed h = fallback_ok s
  parsed_ok s value disabled h = inl refl
  parsed_ok s value (enabled c) h = inr (c, refl, oled_parse-IsPanel value c h)

  -- Whatever is stored, `oled_config_read` finds the panel disabled, or one that the driver knows.
  pub oled_read-IsUsable : (s : Store F) → IsUsable (oled_config_read 𝓢 s).0
  unfolding oled_config_read
  oled_read-IsUsable s =
      let value = config_get_str s.entries oled_key 128 unset_value in
      elim (Bool-cases (equal value unset_value)) [
        | inl first_boot ↦ rw first_boot (fallback_ok s)
        | inr there ↦ rw there (parsed_ok s value (oled_config_parse value) refl)
      ]
