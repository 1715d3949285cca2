-- ===== src/Hub75/Stored.antt =====
-- hub75_task.c: the matrix's configuration as a text, and in the config store.
pub mod Read
use nodem_nrf.Base.{
  ℕ, zero, suc, ◌+◌, ◌-◌, ◌*◌, ◌/◌, ◌%◌, ◌^◌, Bool, true, false, not, List, [], ◌∷◌, ◌++◌, Option,
  none, some, ℤ, ltb, ◌==◌, if◌then◌else◌,
}
use nodem_nrf.Base.Errno.{einval, is_ok}
use nodem_nrf.ConfigStore.{Settings, Store, config_get_str, config_set_str}
use nodem_nrf.Hub75.{Chip, Effect, Color, MatrixConfig}
use nodem_nrf.Hub75.Colors.{EffectName, effects, is_empty, palette_letters, scale_default}
use nodem_nrf.Hub75.Paint.{entry_at}
use nodem_nrf.Hub75.Parser.{Parsed, malformed, disabled, enabled, hub75_config_parse}
use nodem_nrf.Hub75.Syntax.{ChipName, chip_names}
use nodem_nrf.Text.{Bytes, codes, equal, truncated}
use nodem_nrf.Text.Decimal.{show}

abbrev pub hub75_key : Bytes
hub75_key = codes "hub75"

abbrev pub hub75_default_text : Bytes
hub75_default_text = codes "64:32:rt:1x1,8:n:500:shift:4,#ff0000,#000000,512"

abbrev pub hub75_value_len : ℕ
hub75_value_len = 128

abbrev pub unset_value : Bytes
unset_value = 1 ∷ []

abbrev pub chip_code : Chip → ℕ
chip_code Chip.shift = 0
chip_code Chip.fm6126a = 1

-- The loop of `chip_name` over `chip_names`.
unfoldable pub name_in : List ChipName → Chip → Bytes
name_in [] chip = codes "?"
name_in (x ∷ xs) chip = if chip_code x.chip == chip_code chip then x.name else name_in xs chip

unfoldable pub chip_name : Chip → Bytes
unfolding name_in
chip_name chip = name_in chip_names chip

-- The numbers of the enum.
abbrev pub effect_code : Effect → ℕ
effect_code Effect.solid = 0
effect_code Effect.plasma = 1
effect_code Effect.stripes = 2
effect_code Effect.wave = 3
effect_code Effect.scroll = 4
effect_code Effect.cycle = 5
effect_code Effect.fade = 6
effect_code Effect.fire = 7
effect_code Effect.sparkle = 8
effect_code Effect.ripple = 9
effect_code Effect.gradient = 10

abbrev pub same_effect : Effect → Effect → Bool
same_effect a b = effect_code a == effect_code b

abbrev hex_char : ℕ → ℕ
hex_char d = if ltb d 10 then b'0' + d else b'a' + (d - 10)

-- `%06x` of a number of 24 bits: the lowest `n` digits.
unfoldable pub hex_text : ℕ → ℕ → Bytes
hex_text zero v = []
hex_text (suc n) v = hex_char (v / 16 ^ n % 16) ∷ hex_text n v

-- The first entry of `effects` with the effect.
unfoldable pub named_effect : List EffectName → Effect → Option EffectName
named_effect [] e = none
named_effect (x ∷ xs) e = if same_effect x.effect e then some x else named_effect xs e

unfoldable pub letters : List ℕ → Bytes
letters [] = []
letters (c ∷ cs) = entry_at palette_letters c ∷ letters cs

-- The parts of an effect, as far as the last one that is not its default.
unfoldable pub effect_text : Bytes → Bytes → Bytes → Bytes → Bytes
effect_text name speed palette scale =
    if not (is_empty scale)
    then name ++ b':' ∷ (speed ++ b':' ∷ (palette ++ b':' ∷ scale))
    else if not (is_empty palette)
    then name ++ b':' ∷ (speed ++ b':' ∷ palette)
    else if not (is_empty speed)
    then name ++ b':' ∷ speed
    else name

unfoldable pub named_text : Option EffectName → Color → Bytes
named_text none c = []
named_text (some x) c =
    effect_text x.name (if c.speed == x.speed then [] else truncated 4 (show c.speed))
      (letters c.palette) (if c.scale == scale_default then [] else truncated 4 (show c.scale))

unfoldable pub format_color : Color → ℕ → Bytes
unfolding named_text effect_text
format_color c buf_len =
    if same_effect c.effect Effect.solid
    then truncated buf_len (b'#' ∷ hex_text 6 c.rgb)
    else truncated buf_len (named_text (named_effect effects c.effect) c)

unfoldable pub chain_text : MatrixConfig → Bytes
chain_text c = truncated 8 (
    (if c.far_first then b'f' else b'n')
    ∷ ((if c.segment == 0 then [] else show c.segment) ++ (if c.zigzag then codes "z" else [])))

unfoldable pub matrix_text : MatrixConfig → Bytes
unfolding chain_text chip_name format_color
matrix_text c =
    show c.width
    ++ b':'
      ∷ (show c.height
          ++ b':'
            ∷ ((if c.flip_x then b'r' else b'l')
                ∷ (if c.flip_y then b'b' else b't')
                ∷ b':'
                ∷ (show c.grid_x
                    ++ b'x'
                      ∷ (show c.grid_y
                          ++ ((if c.serpentine then codes "i" else [])
                              ++ b','
                                ∷ (show c.scan
                                    ++ b':'
                                      ∷ (chain_text c
                                          ++ b':'
                                            ∷ (show c.clock_khz
                                                ++ b':'
                                                  ∷ (chip_name c.chip
                                                      ++ b':'
                                                        ∷ (show c.depth
                                                            ++ b','
                                                            ∷ (format_color c.color 32
                                                            ++ b','
                                                            ∷ (format_color c.off_color 32
                                                            ++ b',' ∷ show c.brightness))))))))))))

unfoldable pub hub75_config_format : MatrixConfig → ℕ → Bytes
unfolding matrix_text
hub75_config_format c buf_len = truncated buf_len (matrix_text c)

module _ {F : Type 0} (𝓢 : Settings F) where
  unfoldable pub store_text : Store F → ℕ → Bytes → ℤ × Store F × ℕ
  store_text s generation value =
      let (err, s') = config_set_str 𝓢 s hub75_key value in
      (err, s', if is_ok err then (generation + 1) % 2 ^ 32 else generation)

  unfoldable pub set_from : Store F → ℕ → Parsed → ℤ × Store F × ℕ
  unfolding store_text hub75_config_format
  set_from s generation malformed = (einval, s, generation)
  set_from s generation disabled = store_text s generation []
  set_from s generation (enabled c) =
      store_text s generation (hub75_config_format c hub75_value_len)

  -- The error, the store and `hub75_generation`.
  unfoldable pub hub75_config_set : Store F → ℕ → Bytes → ℤ × Store F × ℕ
  unfolding set_from
  hub75_config_set s generation value = set_from s generation (hub75_config_parse value)

  unfoldable pub read_default : Store F → Parsed × Store F
  read_default s =
      (hub75_config_parse hub75_default_text, (config_set_str 𝓢 s hub75_key hub75_default_text).1)

  unfoldable pub read_parsed : Store F → Parsed → Parsed × Store F
  unfolding read_default
  read_parsed s malformed = read_default s
  read_parsed s disabled = (disabled, s)
  read_parsed s (enabled c) = (enabled c, s)

  -- Whether the matrix is enabled, with its configuration, and the store.
  unfoldable pub hub75_config_read : Store F → Parsed × Store F
  unfolding read_parsed read_default
  hub75_config_read s =
      let value = config_get_str s.entries hub75_key hub75_value_len unset_value in
      let fallback = read_default s in
      let parsed = read_parsed s (hub75_config_parse value) in
      if equal value unset_value then fallback else parsed
