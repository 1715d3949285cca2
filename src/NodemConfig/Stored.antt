-- ===== src/NodemConfig/Stored.antt =====
-- The configuration in the config store: `nodem_config_set` and `nodem_config_get`.
use nodem_nrf.Base.{
  ℕ, ◌+◌, ◌≤◌, ◌<◌, true, false, [], ◌≡◌, refl, ◌∙◌, inl, inr, none, some, arith, pos,
  if◌then◌else◌, Option-cases, length,
}
use nodem_nrf.Base.Errno.{einval, is_ok}
use nodem_nrf.ConfigStore.{Settings, Store, config_get_str, config_set_str}
use nodem_nrf.ConfigStore.Find.{has_room}
use nodem_nrf.ConfigStore.RoundTrip.{too_long, get-set_str}
use nodem_nrf.ConfigStore.Table.{entry_str}
use nodem_nrf.NodemConfig.{
  next_field, next_num, parse_device, parse_mapping, to_i16, nodem_config_buffer_len, Config,
  unmapped, parse, format, nodem_key, nodem_default, nodem_config_get, nodem_config_set, is_empty,
  u32,
}
use nodem_nrf.NodemConfig.Format.{format-config_text, length-config_text}
use nodem_nrf.NodemConfig.Parse.{IsValid, parse-IsValid}
use nodem_nrf.NodemConfig.RoundTrip.{parse-format}
use nodem_nrf.Text.Decimal.{strtol}
use nodem_nrf.Text.{cut, trim_end, Bytes, equal, equal_iff, skip_spaces, truncated_fits}

-- The text that `nodem_config_set` parses.
abbrev pub effective : Bytes → Bytes
effective value = let text = skip_spaces value in if is_empty text then nodem_default else text

abbrev pub default_config : Config
default_config = record {
  width = 128;
  height = 64;
  bits_per_pixel = 1;
  oled = record { present = true; x = pos 0; y = pos 0; scale_x = 1; scale_y = 1 };
  hub75 = unmapped;
}

-- The built-in default is accepted.
pub parse_default : parse nodem_default ≡ some default_config
unfolding parse next_field next_num parse_device parse_mapping to_i16 equal cut skip_spaces trim_end
    strtol nodem_config_buffer_len
parse_default = refl

module _ {F : Type 0} (𝓢 : Settings F) where
  -- A malformed text changes nothing and returns -EINVAL.
  pub set_malformed :
      (s : Store F) (generation : ℕ) (value : Bytes)
      → parse (effective value) ≡ none
      → nodem_config_set 𝓢 s generation value ≡ (einval, s, generation)
  unfolding nodem_config_set
  set_malformed s generation value h = rw h

  short_format :
      (c : Config)
      → IsValid c
      → (too_long nodem_key (format c 128) ≡ false) × (length (format c 128) < 128)
  short_format c v =
      let fits : length (format c 128) ≤ 63 =
        rw (format-config_text c v) (length-config_text c v) in
      (ground arith, omega arith)

  get_of_parsed :
      (s : Store F) (out c : Config)
      → parse (config_get_str s.entries nodem_key 128 []) ≡ some c
      → nodem_config_get 𝓢 s out ≡ (c, s)
  unfolding nodem_config_get
  get_of_parsed s out c h = rw h

  -- An accepted text is stored so that the next `nodem_config_get` returns exactly the
  -- configuration that was parsed and writes nothing, whatever the write to flash returned; the
  -- generation is bumped exactly if that write succeeded.
  pub get-set :
      (s : Store F) (generation : ℕ) (value : Bytes) (out c : Config)
      → parse (effective value) ≡ some c
      → has_room s.entries entry_str nodem_key ≡ true
      → let (err, s', generation') = nodem_config_set 𝓢 s generation value in
        (nodem_config_get 𝓢 s' out ≡ (c, s'))
        × (generation' ≡ (if is_ok err then u32 (generation + 1) else generation))
  unfolding nodem_config_set
  get-set s generation value out c h room =
      let v = parse-IsValid (effective value) c h in
      let (fits, short) = short_format c v in
      let s' = (config_set_str 𝓢 s nodem_key (format c 128)).1 in
      let read = (get-set_str 𝓢 s nodem_key (format c 128) fits room).0 nodem_key 128 [] in
      let same = (equal_iff nodem_key nodem_key).1 refl in
      let stored : config_get_str s'.entries nodem_key 128 [] ≡ format c 128 =
        read ∙ rw same (truncated_fits 128 (format c 128) short) in
      rw h (get_of_parsed s' out c (rw stored (parse-format c v)), refl)

  -- Whatever is stored, `nodem_config_get` returns a configuration within every limit: the stored
  -- one, or the default.
  pub get-IsValid : (s : Store F) (out : Config) → IsValid (nodem_config_get 𝓢 s out).0
  unfolding nodem_config_get
  get-IsValid s out = elim (Option-cases (parse (config_get_str s.entries nodem_key 128 []))) [
    | inl bad ↦ rw bad (rw parse_default (parse-IsValid nodem_default default_config parse_default))
    | inr (c, good) ↦ rw good (parse-IsValid (config_get_str s.entries nodem_key 128 []) c good)
  ]
