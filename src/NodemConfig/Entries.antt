-- ===== src/NodemConfig/Entries.antt =====
-- The fields of the devices, which `parse_device` of nodem_config.c reads back.
use nodem_nrf.Base.{
  ℕ, suc, ◌^◌, ◌%◌, ◌≤◌, ◌<◌, true, false, [], ◌∷◌, ◌++◌, append-nil, ◌≡◌, ◌≢◌, refl, some, arith,
  All, All-map, All-append, length,
}
use nodem_nrf.NodemConfig.{
  Mapping, Config, parse_mapping, parse_device, parse_devices, mapping_text, int16_min, int16_max,
}
use nodem_nrf.NodemConfig.Fields.{
  next_num-show, Plain, show-Plain, show_int-Plain, Follows, after, next_field-append,
  next_num-show_int,
}
use nodem_nrf.NodemConfig.Format.{i16_small}
use nodem_nrf.NodemConfig.Parse.{IsMapping, to_i16_id}
use nodem_nrf.Text.{Bytes, codes, equal}
use nodem_nrf.Text.Decimal.{show, show_int}

-- The four numbers of a mapping.
pub numbers : Mapping → Bytes
numbers m =
    show_int m.x ++ b':' ∷ (show_int m.y ++ b':' ∷ (show m.scale_x ++ b':' ∷ show m.scale_y))

rebuilt :
    (m : Mapping)
    → m.present ≡ true
    → m.scale_x ≤ 16
    → m.scale_y ≤ 16
    → record m { present = true; scale_x = m.scale_x % 2 ^ 8; scale_y = m.scale_y % 2 ^ 8 } ≡ m
rebuilt m p hx hy = ground arith

parse_mapping-numbers :
    (m : Mapping) → IsMapping m → m.present ≡ true → parse_mapping (some (numbers m)) ≡ some m
unfolding parse_mapping numbers
parse_mapping-numbers m v present =
    let (x1, x2) = i16_small m.x v.x_range in
    let (y1, y2) = i16_small m.y v.y_range in
    let t₃ = b':' ∷ show m.scale_y in
    let t₂ = b':' ∷ (show m.scale_x ++ t₃) in
    let t₁ = b':' ∷ (show_int m.y ++ t₂) in
    let n₁ = next_num-show_int m.x int16_min int16_max t₁ x1 x2 v.x_range.0 v.x_range.1 refl in
    let n₂ = next_num-show_int m.y int16_min int16_max t₂ y1 y2 v.y_range.0 v.y_range.1 refl in
    let n₃ =
      next_num-show m.scale_x 1 16 t₃ (omega arith) (v.scale_x_range.0 present) v.scale_x_range.1
        refl in
    let n₄ = rw append-nil at (
      next_num-show m.scale_y 1 16 [] (omega arith) (v.scale_y_range.0 present) v.scale_y_range.1
        tt) in
    simp
      (n₁, n₂, n₃, n₄, to_i16_id m.x v.x_range.0 v.x_range.1, to_i16_id m.y v.y_range.0 v.y_range.1)
      (ground (arith, rebuilt m present v.scale_x_range.1 v.scale_y_range.1))

-- The bytes of one device's field.
abbrev pub InField : Bytes → Type 0
InField = All (λ c. (c ≢ b',') × (c ≢ b' ') × (c ≢ 0))

pub Plain-InField : (s : Bytes) → Plain s → InField s
Plain-InField s h = All-map _ _ s (λ c p. (p.1, p.2, p.3)) h

pub colon-InField : (s : Bytes) → InField s → InField (b':' ∷ s)
colon-InField s h = ((omega arith, omega arith, omega arith), h)

pub InField-append : (s t : Bytes) → InField s → InField t → InField (s ++ t)
InField-append s t h k = All-append _ s t h k

pub numbers-InField : (m : Mapping) → InField (numbers m)
unfolding numbers
numbers-InField m =
    let p₄ = Plain-InField (show m.scale_y) (show-Plain m.scale_y) in
    let p₃ =
      InField-append (show m.scale_x) _ (Plain-InField _ (show-Plain m.scale_x))
        (colon-InField _ p₄) in
    let p₂ =
      InField-append (show_int m.y) _ (Plain-InField _ (show_int-Plain m.y)) (colon-InField _ p₃) in
    InField-append (show_int m.x) _ (Plain-InField _ (show_int-Plain m.x)) (colon-InField _ p₂)

-- A device's field.
unfoldable pub entry : Bytes → Mapping → Bytes
entry driver m = driver ++ b':' ∷ numbers m

pub mapping_text-entry :
    (driver : Bytes) (m : Mapping) → mapping_text driver m ≡ b',' ∷ entry driver m
unfolding mapping_text entry numbers
mapping_text-entry driver m = refl

pub parse_device-oled :
    (m : Mapping) (c : Config)
    → IsMapping m
    → m.present ≡ true
    → c.oled.present ≡ false
    → parse_device (entry (codes "oled") m) c ≡ some (record c { oled = m })
unfolding parse_device entry equal
parse_device-oled m c v present free =
    let name =
      next_field-append (codes "oled") (b':' ∷ numbers m) b':' 8 (omega arith) (omega arith)
        (omega arith) refl in
    simp (name, free, parse_mapping-numbers m v present)

pub parse_device-hub75 :
    (m : Mapping) (c : Config)
    → IsMapping m
    → m.present ≡ true
    → c.hub75.present ≡ false
    → parse_device (entry (codes "hub75") m) c ≡ some (record c { hub75 = m })
unfolding parse_device entry equal
parse_device-hub75 m c v present free =
    let name =
      next_field-append (codes "hub75") (b':' ∷ numbers m) b':' 8 (omega arith) (omega arith)
        (omega arith) refl in
    simp (name, free, parse_mapping-numbers m v present)

-- One round of the loop over the devices.
pub parse_devices-entry :
    (fuel : ℕ) (e tail : Bytes) (c c' : Config)
    → InField e
    → e ≢ []
    → length e < 128
    → Follows b',' tail
    → parse_device e c ≡ some c'
    → parse_devices (suc fuel) (some (e ++ tail)) c ≡ parse_devices fuel (after tail) c'
unfolding parse_devices
parse_devices-entry fuel [] tail c c' f ne l h p = absurd (ne refl)
parse_devices-entry fuel (b ∷ e) tail c c' f ne l h p =
    let comma = All-map _ _ (b ∷ e) (λ c p. p.0) f in
    let space = All-map _ _ (b ∷ e) (λ c p. p.1) f in
    simp (next_field-append (b ∷ e) tail b',' 128 comma space l h, p)
