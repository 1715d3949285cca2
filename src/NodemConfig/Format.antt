-- ===== src/NodemConfig/Format.antt =====
-- `format` of nodem_config.c prints a valid configuration whole.
use nodem_nrf.Base.{
  ℕ, ◌+◌, ◌-◌, ◌^◌, ◌≤◌, ◌<◌, true, [], ◌∷◌, ◌++◌, append_assoc, append-nil, ◌≡◌, ap, ◌∙◌, inl, inr,
  arith, ℤ, pos, negsuc, pos_part, neg_part, ◌≤ℤ◌, ltb, if◌then◌else◌, Bool-cases, length,
  length-append,
}
use nodem_nrf.NodemConfig.{
  Mapping, Config, mapping_text, geometry_text, int16_min, int16_max, format_device, format, Out,
}
use nodem_nrf.NodemConfig.Fields.{length-show_int-le}
use nodem_nrf.NodemConfig.Parse.{IsMapping, IsValid}
use nodem_nrf.Text.{Bytes, codes, truncated_fits}
use nodem_nrf.Text.Decimal.{show, show_int}
use nodem_nrf.Text.Decimal.RoundTrip.{length-show-le}

-- What a mapping adds to the text.
unfoldable pub device_text : Bytes → Mapping → Bytes
device_text driver m = if m.present then mapping_text driver m else []

-- The whole text.
unfoldable pub config_text : Config → Bytes
config_text c =
    geometry_text c ++ (device_text (codes "oled") c.oled ++ device_text (codes "hub75") c.hub75)

length-geometry_text : (c : Config) → IsValid c → length (geometry_text c) ≤ 11
unfolding geometry_text
length-geometry_text c v = omega (
  arith,
  length-append (show c.width) (b':' ∷ (show c.height ++ b':' ∷ show c.bits_per_pixel)),
  length-append (show c.height) (b':' ∷ show c.bits_per_pixel),
  length-show-le 3 c.width (omega (arith, v.width_range)),
  length-show-le 3 c.height (omega (arith, v.height_range)),
  length-show-le 0 c.bits_per_pixel (omega (arith, v.one_bit)),
)

pub i16_small :
    (z : ℤ) → (int16_min ≤ℤ z) × (z ≤ℤ int16_max) → (pos_part z < 10 ^ 5) × (neg_part z < 10 ^ 5)
i16_small (pos n) h = omega arith
i16_small (negsuc n) h = omega arith

-- A mapping of a driver whose name has at most five bytes.
pub length-mapping_text :
    (driver : Bytes) (m : Mapping)
    → length driver ≤ 5
    → IsMapping m
    → length (mapping_text driver m) ≤ 26
unfolding mapping_text
length-mapping_text driver m short v =
    let sy = show m.scale_y in
    let sx = show m.scale_x ++ b':' ∷ sy in
    let y = show_int m.y ++ b':' ∷ sx in
    omega (
      arith,
      length-append driver (b':' ∷ (show_int m.x ++ b':' ∷ y)),
      length-append (show_int m.x) (b':' ∷ y),
      length-append (show_int m.y) (b':' ∷ sx),
      length-append (show m.scale_x) (b':' ∷ sy),
      length-show_int-le m.x (i16_small m.x v.x_range).0 (i16_small m.x v.x_range).1,
      length-show_int-le m.y (i16_small m.y v.y_range).0 (i16_small m.y v.y_range).1,
      length-show-le 1 m.scale_x (omega (arith, v.scale_x_range.1)),
      length-show-le 1 m.scale_y (omega (arith, v.scale_y_range.1)),
    )

-- A device that fits is appended whole, and `n` stays the length of the text.
format_device_text :
    (buf driver : Bytes) (m : Mapping) (n : ℕ)
    → 0 < length buf
    → length buf + length (mapping_text driver m) < n
    → let text = buf ++ device_text driver m in
      format_device n (buf, length buf) driver m ≡ (text, length text)
unfolding format_device device_text
format_device_text buf driver m n pos_len fits = elim (Bool-cases m.present) [
  | inr absent ↦ rw (absent, append-nil)
  | inl present ↦
      let text = mapping_text driver m in
      let started : ltb 0 (length buf) ≡ true = ground arith in
      let room : ltb (length buf) n ≡ true = ground arith in
      let whole = truncated_fits (n - length buf) text (omega arith) in
      simp (present, started, room, whole, length-append buf text)
]

geometry_text-pos : (c : Config) → 0 < length (geometry_text c)
unfolding geometry_text
geometry_text-pos c =
    omega
      (arith, length-append (show c.width) (b':' ∷ (show c.height ++ b':' ∷ show c.bits_per_pixel)))

length-device_text :
    (driver : Bytes) (m : Mapping)
    → length driver ≤ 5
    → IsMapping m
    → length (device_text driver m) ≤ 26
unfolding device_text
length-device_text driver m short v = ground (arith, length-mapping_text driver m short v)

-- The text of a valid configuration takes at most 63 bytes.
pub length-config_text : (c : Config) → IsValid c → length (config_text c) ≤ 63
unfolding config_text
length-config_text c v =
    let oled = device_text (codes "oled") c.oled in
    let hub75 = device_text (codes "hub75") c.hub75 in
    omega (
      arith,
      length-append (geometry_text c) (oled ++ hub75),
      length-append oled hub75,
      length-geometry_text c v,
      length-device_text (codes "oled") c.oled (omega arith) v.oled_ok,
      length-device_text (codes "hub75") c.hub75 (omega arith) v.hub75_ok,
    )

-- So the buffer of 128 bytes holds all of it.
pub format-config_text : (c : Config) → IsValid c → format c 128 ≡ config_text c
unfolding format config_text
format-config_text c v =
    let g = geometry_text c in
    let oled = device_text (codes "oled") c.oled in
    let short = length-geometry_text c v in
    let whole = truncated_fits 128 g (omega arith) in
    let first =
      format_device_text g (codes "oled") c.oled 128 (geometry_text-pos c)
        (omega (arith, short, length-mapping_text (codes "oled") c.oled (omega arith) v.oled_ok)) in
    let second =
      format_device_text (g ++ oled) (codes "hub75") c.hub75 128
        (omega (arith, length-append g oled, geometry_text-pos c))
        (omega (
          arith,
          length-append g oled,
          short,
          length-device_text (codes "oled") c.oled (omega arith) v.oled_ok,
          length-mapping_text (codes "hub75") c.hub75 (omega arith) v.hub75_ok,
        )) in
    ap (λ b. (then_hub75 (format_device 128 (b, length g) (codes "oled") c.oled)).0) whole
    ∙ ap (λ o. (then_hub75 o).0) first
    ∙ ap (λ o. o.0) second
    ∙ append_assoc g oled (device_text (codes "hub75") c.hub75)
  where
    then_hub75 : Out → Out
    then_hub75 o = format_device 128 o (codes "hub75") c.hub75
