-- ===== src/NodemConfig/RoundTrip.antt =====
-- `parse` of nodem_config.c reads back what `format` prints.
use nodem_nrf.Base.{
  ℕ, zero, suc, ◌-◌, ◌^◌, ◌%◌, ◌≤◌, ◌<◌, true, false, [], ◌∷◌, ◌++◌, append-nil, ◌≡◌, ◌≢◌, refl,
  sym, ap, ◌∙◌, inl, inr, none, some, arith, leb, Bool-cases, All-map, length, length-append,
}
use nodem_nrf.NodemConfig.{
  Mapping, Config, unmapped, parse_geometry, parse_devices, parse, mapping_text, geometry_text,
  format, nodem_config_buffer_len, nodem_fb_max_size,
}
use nodem_nrf.NodemConfig.Fields.{next_num-show, show-Plain, Follows, after, next_field-append}
use nodem_nrf.NodemConfig.Format.{
  device_text, config_text, format-config_text, length-config_text, length-mapping_text,
}
use nodem_nrf.NodemConfig.Parse.{IsMapping, IsValid, parse-IsValid}
use nodem_nrf.Text.{Bytes, codes}
use nodem_nrf.Text.Decimal.{show}
use nodem_nrf.NodemConfig.Entries.{
  numbers, InField, Plain-InField, colon-InField, InField-append, numbers-InField, entry,
  mapping_text-entry, parse_device-oled, parse_device-hub75, parse_devices-entry,
}

-- The configuration before the loop over the devices.
abbrev bare : Config → Config
bare c = record c { oled = unmapped; hub75 = unmapped }

same_geometry :
    (c : Config)
    → IsValid c
    → record c {
      width = c.width % 2 ^ 16;
      height = c.height % 2 ^ 16;
      bits_per_pixel = c.bits_per_pixel % 2 ^ 8;
      oled = unmapped;
      hub75 = unmapped;
    }
      ≡ bare c
same_geometry c v = ground (arith, v.width_range, v.height_range, v.one_bit)

buffer_len-bare : (c : Config) → nodem_config_buffer_len (bare c) ≡ nodem_config_buffer_len c
unfolding nodem_config_buffer_len
buffer_len-bare c = refl

parse_geometry-text : (c : Config) → IsValid c → parse_geometry (geometry_text c) ≡ some (bare c)
unfolding parse_geometry geometry_text
parse_geometry-text c v =
    let t₂ = b':' ∷ show c.bits_per_pixel in
    let t₁ = b':' ∷ (show c.height ++ t₂) in
    let n₁ =
      next_num-show c.width 1 1024 t₁ (omega (arith, v.width_range)) v.width_range.0 v.width_range.1
        refl in
    let n₂ =
      next_num-show c.height 1 1024 t₂ (omega (arith, v.height_range)) v.height_range.0
        v.height_range.1 refl in
    let n₃ = rw append-nil at (
      next_num-show c.bits_per_pixel 1 1 [] (omega (arith, v.one_bit)) (omega (arith, v.one_bit))
        (omega (arith, v.one_bit)) tt) in
    let fits : leb (nodem_config_buffer_len c) nodem_fb_max_size ≡ true =
      ground (arith, v.buffer_fits) in
    simp (n₁, n₂, n₃, same_geometry c v, buffer_len-bare c, fits)

tail_absent : (driver : Bytes) (m : Mapping) → m.present ≡ false → device_text driver m ≡ []
unfolding device_text
tail_absent driver m h = rw h

tail_present :
    (driver : Bytes) (m : Mapping) → m.present ≡ true → device_text driver m ≡ b',' ∷ entry driver m
unfolding device_text
tail_present driver m h = simp h (mapping_text-entry driver m)

parse_devices_end : (fuel : ℕ) (c : Config) → parse_devices fuel none c ≡ some c
unfolding parse_devices
parse_devices_end zero c = refl
parse_devices_end (suc fuel) c = refl

concat-cons-ne-nil : (s t : Bytes) → s ++ b':' ∷ t ≢ []
concat-cons-ne-nil [] t = λ e. cc
concat-cons-ne-nil (c ∷ s) t = λ e. cc

length-entry :
    (driver : Bytes) (m : Mapping) → length driver ≤ 5 → IsMapping m → length (entry driver m) < 128
length-entry driver m short v =
    omega (arith, length-mapping_text driver m short v, ap length (mapping_text-entry driver m))

Follows-device_text : (driver : Bytes) (m : Mapping) → Follows b',' (device_text driver m)
unfolding device_text mapping_text
Follows-device_text driver m = elim (Bool-cases m.present) [
  | inl present ↦ rw present refl
  | inr absent ↦ rw absent tt
]

entry-InField : (driver : Bytes) (m : Mapping) → InField driver → InField (entry driver m)
unfolding entry
entry-InField driver m h = InField-append driver _ h (colon-InField (numbers m) (numbers-InField m))

entry-ne-nil : (driver : Bytes) (m : Mapping) → entry driver m ≢ []
unfolding entry
entry-ne-nil driver m = concat-cons-ne-nil driver (numbers m)

module _ (c : Config) (v : IsValid c) where
  abbrev hub75_tail : Bytes
  hub75_tail = device_text (codes "hub75") c.hub75

  no_hub75 : c.hub75.present ≡ false → record c { hub75 = unmapped } ≡ c
  no_hub75 absent = ap (λ m. record c { hub75 = m }) (sym (v.hub75_ok.absent absent))

  parse_devices-hub75 :
      (fuel : ℕ)
      → parse_devices (suc fuel) (after hub75_tail) (record c { hub75 = unmapped }) ≡ some c
  parse_devices-hub75 fuel = elim (Bool-cases c.hub75.present) [
    | inr absent ↦
        rw (tail_absent (codes "hub75") c.hub75 absent)
          (unfold parse_devices in ap some (no_hub75 absent))
    | inl present ↦
        let e = entry (codes "hub75") c.hub75 in
        let round =
          parse_devices-entry fuel e [] (record c { hub75 = unmapped }) c
            (entry-InField (codes "hub75") c.hub75 (omega arith))
            (entry-ne-nil (codes "hub75") c.hub75)
            (length-entry (codes "hub75") c.hub75 (omega arith) v.hub75_ok) tt
            (parse_device-hub75 c.hub75 (record c { hub75 = unmapped }) v.hub75_ok present refl) in
        rw (tail_present (codes "hub75") c.hub75 present)
          ((rw append-nil at round) ∙ parse_devices_end fuel c)
  ]

  -- The loop over the devices that were printed.
  parse_devices-text :
      (fuel : ℕ)
      → parse_devices
          (suc (suc fuel))
          (after (device_text (codes "oled") c.oled ++ hub75_tail))
          (bare c)
        ≡ some c
  parse_devices-text fuel = elim (Bool-cases c.oled.present) [
    | inr absent ↦ rw (tail_absent (codes "oled") c.oled absent) (
        ap
          (λ m.
            parse_devices (suc (suc fuel)) (after hub75_tail)
              (record c { oled = m; hub75 = unmapped }))
          (sym (v.oled_ok.absent absent))
        ∙ parse_devices-hub75 (suc fuel))
    | inl present ↦
        let e = entry (codes "oled") c.oled in
        let round =
          parse_devices-entry (suc fuel) e hub75_tail (bare c) (record c { hub75 = unmapped })
            (entry-InField (codes "oled") c.oled (omega arith)) (entry-ne-nil (codes "oled") c.oled)
            (length-entry (codes "oled") c.oled (omega arith) v.oled_ok)
            (Follows-device_text (codes "hub75") c.hub75)
            (parse_device-oled c.oled (bare c) v.oled_ok present refl) in
        rw (tail_present (codes "oled") c.oled present) (round ∙ parse_devices-hub75 fuel)
  ]

geometry-InField : (c : Config) → InField (geometry_text c)
unfolding geometry_text
geometry-InField c =
    let p₃ = Plain-InField (show c.bits_per_pixel) (show-Plain c.bits_per_pixel) in
    let p₂ =
      InField-append (show c.height) _ (Plain-InField _ (show-Plain c.height))
        (colon-InField _ p₃) in
    InField-append (show c.width) _ (Plain-InField _ (show-Plain c.width)) (colon-InField _ p₂)

Follows-devices : (a b : Bytes) → Follows b',' a → Follows b',' b → Follows b',' (a ++ b)
Follows-devices [] b ha hb = hb
Follows-devices (c ∷ a) b ha hb = ha

length-geometry-ge : (c : Config) → 2 ≤ length (geometry_text c)
unfolding geometry_text
length-geometry-ge c = omega (
  arith,
  length-append (show c.width) (b':' ∷ (show c.height ++ b':' ∷ show c.bits_per_pixel)),
  length-append (show c.height) (b':' ∷ show c.bits_per_pixel),
)

parse-config_text : (c : Config) → IsValid c → parse (config_text c) ≡ some c
unfolding parse config_text
parse-config_text c v =
    let g = geometry_text c in
    let oled = device_text (codes "oled") c.oled in
    let hub75 = device_text (codes "hub75") c.hub75 in
    let field = geometry-InField c in
    let comma = All-map _ _ g (λ x p. p.0) field in
    let space = All-map _ _ g (λ x p. p.1) field in
    let total : length (g ++ (oled ++ hub75)) ≤ 63 = length-config_text c v in
    let size = length-append g (oled ++ hub75) in
    let first = next_field-append g (oled ++ hub75) b',' 128 comma space (omega arith) (
      Follows-devices oled hub75 (Follows-device_text (codes "oled") c.oled)
        (Follows-device_text (codes "hub75") c.hub75)) in
    let enough : length (g ++ (oled ++ hub75)) ≡ suc (suc (length (g ++ (oled ++ hub75)) - 2)) =
      omega (arith, length-geometry-ge c) in
    simp (first, parse_geometry-text c v)
      (ap (λ n. parse_devices n (after (oled ++ hub75)) (bare c)) enough
        ∙ parse_devices-text c v (length (g ++ (oled ++ hub75)) - 2))

-- A valid configuration is printed whole in 128 bytes, and parsing the text gives it back.
pub parse-format : (c : Config) → IsValid c → parse (format c 128) ≡ some c
parse-format c v = rw (format-config_text c v) (parse-config_text c v)

-- Formatting what was parsed keeps its meaning: the normalised text parses to the same
-- configuration, for every text that is accepted.
pub parse-format-parse :
    (s : Bytes) (c : Config) → parse s ≡ some c → parse (format c 128) ≡ parse s
parse-format-parse s c h = parse-format c (parse-IsValid s c h) ∙ sym h
