-- ===== src/Hub75/Stored/Read.antt =====
-- hub75_task.c: what `hub75_config_read` finds.
use nodem_nrf.Base.{◌≡◌, refl, inl, inr, ◌⊎◌, Bool-cases}
use nodem_nrf.ConfigStore.{Settings, Store, config_get_str}
use nodem_nrf.Hub75.{MatrixConfig}
use nodem_nrf.Hub75.Colors.{next_field, parse_num, parse_color, parse_rgb, hex_digits}
use nodem_nrf.Hub75.Parser.{
  Parsed, malformed, disabled, enabled, hub75_config_parse, hub75_default, parse_config,
  parse_protocol, parse_parts, check_config, fits_panels,
}
use nodem_nrf.Hub75.Parser.Accepted.{IsConfig, parse-IsConfig}
use nodem_nrf.Hub75.Stored.{
  hub75_key, hub75_value_len, unset_value, hub75_default_text, read_default, read_parsed,
  hub75_config_read,
}
use nodem_nrf.Hub75.Syntax.{
  parse_geometry, parse_layout, parse_grid, parse_chain, find_preset, find_chip,
}
use nodem_nrf.Text.{Bytes, equal, cut, skip_spaces, trim_end}
use nodem_nrf.Text.Decimal.{strtol}

-- The text of the default is accepted, and is what `hub75_default` fills in.
parse_default_text : hub75_config_parse hub75_default_text ≡ enabled hub75_default
unfolding hub75_config_parse parse_config parse_geometry parse_layout parse_grid parse_protocol
    parse_parts parse_chain parse_color parse_rgb hex_digits check_config fits_panels next_field
    parse_num find_preset find_chip cut equal skip_spaces trim_end strtol
parse_default_text = refl

abbrev pub IsUsable : Parsed → Type 0
IsUsable p = (p ≡ disabled) ⊎ ((c : MatrixConfig) × (p ≡ enabled c) × IsConfig c)

module _ {F : Type 0} (𝓢 : Settings F) where
  default-IsUsable : (s : Store F) → IsUsable (read_default 𝓢 s).0
  unfolding read_default
  default-IsUsable s = inr (
    hub75_default,
    parse_default_text,
    parse-IsConfig hub75_default_text hub75_default parse_default_text,
  )

  parsed-IsUsable :
      (s : Store F) (value : Bytes) (p : Parsed)
      → hub75_config_parse value ≡ p
      → IsUsable (read_parsed 𝓢 s p).0
  unfolding read_parsed
  parsed-IsUsable s value malformed h = default-IsUsable s
  parsed-IsUsable s value disabled h = inl refl
  parsed-IsUsable s value (enabled c) h = inr (c, refl, parse-IsConfig value c h)

  -- Whatever is stored, `hub75_config_read` finds the matrix disabled, or a configuration that the
  -- parser promises: in the ranges of its numbers and colours, with a number of row addresses that is
  -- a power of two and panels that split the display evenly.
  pub read-IsUsable : (s : Store F) → IsUsable (hub75_config_read 𝓢 s).0
  unfolding hub75_config_read
  read-IsUsable s =
      let value = config_get_str s.entries hub75_key hub75_value_len unset_value in
      elim (Bool-cases (equal value unset_value)) [
        | inl first_boot ↦ rw first_boot (default-IsUsable s)
        | inr there ↦ rw there (parsed-IsUsable s value (hub75_config_parse value) refl)
      ]
