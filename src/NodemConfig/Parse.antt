-- ===== src/NodemConfig/Parse.antt =====
-- What `parse` of nodem_config.c accepts.
use mathlib.Core.Path.{subst}
use nodem_nrf.Base.{
  >>=-eq-some, none-ne-some, some-inj, ℕ, zero, suc, ◌≤◌, Bool, true, false, not, [], ◌∷◌, ◌≡◌,
  refl, inl, inr, Option, none, some, arith, ℤ, pos, negsuc, ◌≤ℤ◌, leb, if◌then◌else◌, guard,
  Bool-cases, length,
}
use nodem_nrf.NodemConfig.{
  Mapping, Config, next_field, next_num, in_range, is_empty, is_null, int16_min, int16_max, to_u16,
  to_u8, to_i16, unmapped, parse_mapping, parse_oled, parse_hub75, parse_driver, parse_device,
  parse_geometry, parse_devices, parse, nodem_config_buffer_len, nodem_fb_max_size,
  nodem_max_dimension, nodem_max_scale,
}
use nodem_nrf.Text.{Bytes, codes, equal}
use nodem_nrf.Text.Decimal.{strtol}

-- A mapping is absent, with all else zero, or has offsets of 16 bits and scales from 1 to 16.
pub record IsMapping (m : Mapping) : Type 0 where
  pub absent : m.present ≡ false → m ≡ unmapped
  pub x_range : (int16_min ≤ℤ m.x) × (m.x ≤ℤ int16_max)
  pub y_range : (int16_min ≤ℤ m.y) × (m.y ≤ℤ int16_max)
  pub scale_x_range : (m.present ≡ true → 1 ≤ m.scale_x) × (m.scale_x ≤ nodem_max_scale)
  pub scale_y_range : (m.present ≡ true → 1 ≤ m.scale_y) × (m.scale_y ≤ nodem_max_scale)

pub record IsValid (c : Config) : Type 0 where
  pub width_range : (1 ≤ c.width) × (c.width ≤ nodem_max_dimension)
  pub height_range : (1 ≤ c.height) × (c.height ≤ nodem_max_dimension)
  pub one_bit : c.bits_per_pixel ≡ 1
  pub buffer_fits : nodem_config_buffer_len c ≤ nodem_fb_max_size
  pub oled_ok : IsMapping c.oled
  pub hub75_ok : IsMapping c.hub75

leb-le : {a b : ℕ} → leb a b ≡ true → a ≤ b
leb-le h = ground arith

guard-eq-some : (b : Bool) {u : Unit {0}} → guard b ≡ some u → b ≡ true
guard-eq-some true h = refl
guard-eq-some false h = cc

in_range_bounds :
    (lo hi : ℤ) (r : Option (ℤ × Bytes)) (v : ℤ) → in_range lo hi r ≡ some v → (lo ≤ℤ v) × (v ≤ℤ hi)
unfolding in_range
in_range_bounds lo hi none v h = cc
in_range_bounds lo hi (some (w, c ∷ s)) v h = cc
in_range_bounds lo hi (some (w, [])) v h = ground arith

-- A number that was read is in its range.
pub next_num_bounds :
    (s : Option Bytes) (lo hi v : ℤ) (rest : Option Bytes)
    → next_num s lo hi ≡ some (v, rest)
    → (lo ≤ℤ v) × (v ≤ℤ hi)
unfolding next_num
next_num_bounds s lo hi v rest h =
    let ((field, rest'), a, h') = >>=-eq-some (next_field s b':' 16) _ h in
    let (u, b, h'') = >>=-eq-some (guard (not (is_empty field))) _ h' in
    let (w, c, d) = >>=-eq-some (in_range lo hi (strtol field)) _ h'' in
    in_range_bounds lo hi (strtol field) v (ground arith)

pub to_i16_id : (v : ℤ) → int16_min ≤ℤ v → v ≤ℤ int16_max → to_i16 v ≡ v
unfolding to_i16
to_i16_id (pos n) lo hi = ground arith
to_i16_id (negsuc n) lo hi = ground arith

mapped-IsMapping :
    (x y a b : ℤ)
    → (int16_min ≤ℤ x) × (x ≤ℤ int16_max)
    → (int16_min ≤ℤ y) × (y ≤ℤ int16_max)
    → (pos 1 ≤ℤ a) × (a ≤ℤ pos nodem_max_scale)
    → (pos 1 ≤ℤ b) × (b ≤ℤ pos nodem_max_scale)
    → IsMapping (record {
      present = true;
      x = to_i16 x;
      y = to_i16 y;
      scale_x = to_u8 a;
      scale_y = to_u8 b;
    })
mapped-IsMapping x y (pos a) (pos b) hx hy ha hb =
    rw (to_i16_id x hx.0 hx.1, to_i16_id y hy.0 hy.1)
      (record {
        absent = λ no. cc;
        x_range = hx;
        y_range = hy;
        scale_x_range = (λ _. omega arith, omega arith);
        scale_y_range = (λ _. omega arith, omega arith);
      })
mapped-IsMapping x y (negsuc a) b hx hy ha hb = absurd (omega arith)
mapped-IsMapping x y (pos a) (negsuc b) hx hy ha hb = absurd (omega arith)

parse_mapping-IsMapping : (s : Option Bytes) (m : Mapping) → parse_mapping s ≡ some m → IsMapping m
unfolding parse_mapping
parse_mapping-IsMapping s m h =
    let ((x, s₁), p₁, h₁) = >>=-eq-some (next_num s int16_min int16_max) _ h in
    let ((y, s₂), p₂, h₂) = >>=-eq-some (next_num s₁ int16_min int16_max) _ h₁ in
    let ((a, s₃), p₃, h₃) = >>=-eq-some (next_num s₂ (pos 1) (pos nodem_max_scale)) _ h₂ in
    let ((b, s₄), p₄, h₄) = >>=-eq-some (next_num s₃ (pos 1) (pos nodem_max_scale)) _ h₃ in
    let (u, p₅, e) = >>=-eq-some (guard (is_null s₄)) _ h₄ in
    subst IsMapping (some-inj e) (
      mapped-IsMapping x y a b (next_num_bounds s _ _ x s₁ p₁) (next_num_bounds s₁ _ _ y s₂ p₂)
        (next_num_bounds s₂ _ _ a s₃ p₃) (next_num_bounds s₃ _ _ b s₄ p₄))

parse_oled-IsValid :
    (s : Option Bytes) (c c' : Config) → IsValid c → parse_oled s c ≡ some c' → IsValid c'
unfolding parse_oled
parse_oled-IsValid s c c' v h =
    let (u, p, h') = >>=-eq-some (guard (not c.oled.present)) _ h in
    let (m, q, e) = >>=-eq-some (parse_mapping s) _ h' in
    subst IsValid (some-inj e) (record {
      width_range = v.width_range;
      height_range = v.height_range;
      one_bit = v.one_bit;
      buffer_fits = unfold nodem_config_buffer_len in v.buffer_fits;
      oled_ok = parse_mapping-IsMapping s m q;
      hub75_ok = v.hub75_ok;
    })

parse_hub75-IsValid :
    (s : Option Bytes) (c c' : Config) → IsValid c → parse_hub75 s c ≡ some c' → IsValid c'
unfolding parse_hub75
parse_hub75-IsValid s c c' v h =
    let (u, p, h') = >>=-eq-some (guard (not c.hub75.present)) _ h in
    let (m, q, e) = >>=-eq-some (parse_mapping s) _ h' in
    subst IsValid (some-inj e) (record {
      width_range = v.width_range;
      height_range = v.height_range;
      one_bit = v.one_bit;
      buffer_fits = unfold nodem_config_buffer_len in v.buffer_fits;
      oled_ok = v.oled_ok;
      hub75_ok = parse_mapping-IsMapping s m q;
    })

parse_driver-IsValid :
    (driver : Bytes) (s : Option Bytes) (c c' : Config)
    → IsValid c
    → parse_driver driver s c ≡ some c'
    → IsValid c'
unfolding parse_driver
parse_driver-IsValid driver s c c' v h = elim (Bool-cases (equal driver (codes "oled"))) [
  | inl is_oled ↦ parse_oled-IsValid s c c' v (rw is_oled at h)
  | inr not_oled ↦ elim (Bool-cases (equal driver (codes "hub75"))) [
    | inl is_hub75 ↦ parse_hub75-IsValid s c c' v (rw (not_oled, is_hub75) at h)
    | inr neither ↦ absurd (none-ne-some (rw (not_oled, neither) at h))
  ]
]

parse_device-IsValid :
    (s : Bytes) (c c' : Config) → IsValid c → parse_device s c ≡ some c' → IsValid c'
unfolding parse_device
parse_device-IsValid s c c' v h =
    let ((driver, rest), p, h') = >>=-eq-some (next_field (some s) b':' 8) _ h in
    parse_driver-IsValid driver rest c c' v h'

parse_entry-IsValid :
    (s : Bytes) (c c' : Config)
    → IsValid c
    → (if is_empty s then some c else parse_device s c) ≡ some c'
    → IsValid c'
parse_entry-IsValid [] c c' v h = subst IsValid (some-inj h) v
parse_entry-IsValid (b ∷ s) c c' v h = parse_device-IsValid (b ∷ s) c c' v h

parse_devices-IsValid :
    (fuel : ℕ) (s : Option Bytes) (c c' : Config)
    → IsValid c
    → parse_devices fuel s c ≡ some c'
    → IsValid c'
unfolding parse_devices
parse_devices-IsValid zero none c c' v h = subst IsValid (some-inj h) v
parse_devices-IsValid (suc fuel) none c c' v h = subst IsValid (some-inj h) v
parse_devices-IsValid zero (some s) c c' v h = absurd (none-ne-some h)
parse_devices-IsValid (suc fuel) (some s) c c' v h =
    let ((entry, rest), p, h₁) = >>=-eq-some (next_field (some s) b',' 128) _ h in
    let (d, q, h₂) = >>=-eq-some (if is_empty entry then some c else parse_device entry c) _ h₁ in
    parse_devices-IsValid fuel rest d c' (parse_entry-IsValid entry c d v q) h₂

unmapped-IsMapping : IsMapping unmapped
unmapped-IsMapping = record {
  absent = λ _. refl;
  x_range = omega arith;
  y_range = omega arith;
  scale_x_range = (λ h. cc, omega arith);
  scale_y_range = (λ h. cc, omega arith);
}

geometry_range :
    (v : ℤ) (n : ℕ) → n ≤ 1024 → (pos 1 ≤ℤ v) × (v ≤ℤ pos n) → (1 ≤ to_u16 v) × (to_u16 v ≤ n)
geometry_range (pos k) n small h = omega arith
geometry_range (negsuc k) n small h = absurd (omega arith)

one_bit_range : (v : ℤ) → (pos 1 ≤ℤ v) × (v ≤ℤ pos 1) → to_u8 v ≡ 1
one_bit_range (pos k) h = omega arith
one_bit_range (negsuc k) h = absurd (omega arith)

parse_geometry-IsValid : (s : Bytes) (c : Config) → parse_geometry s ≡ some c → IsValid c
unfolding parse_geometry
parse_geometry-IsValid s c h =
    let ((w, s₁), p₁, h₁) = >>=-eq-some (next_num (some s) (pos 1) (pos nodem_max_dimension)) _ h in
    let ((t, s₂), p₂, h₂) = >>=-eq-some (next_num s₁ (pos 1) (pos nodem_max_dimension)) _ h₁ in
    let ((b, s₃), p₃, h₃) = >>=-eq-some (next_num s₂ (pos 1) (pos 1)) _ h₂ in
    let (u, p₄, h₄) = >>=-eq-some (guard (is_null s₃)) _ h₃ in
    let (u', p₅, e) =
      >>=-eq-some (guard (leb (nodem_config_buffer_len _) nodem_fb_max_size)) _ h₄ in
    let one = next_num_bounds s₂ (pos 1) (pos 1) b s₃ p₃ in
    subst IsValid (some-inj e) (record {
      width_range =
          geometry_range w nodem_max_dimension (omega arith) (next_num_bounds (some s) _ _ w s₁ p₁);
      height_range =
          geometry_range t nodem_max_dimension (omega arith) (next_num_bounds s₁ _ _ t s₂ p₂);
      one_bit = one_bit_range b one;
      buffer_fits = leb-le (guard-eq-some _ p₅);
      oled_ok = unmapped-IsMapping;
      hub75_ok = unmapped-IsMapping;
    })

-- Whatever text is parsed, an accepted configuration is within every limit of the firmware.
pub parse-IsValid : (s : Bytes) (c : Config) → parse s ≡ some c → IsValid c
unfolding parse
parse-IsValid s c h =
    let ((entry, rest), p, h₁) = >>=-eq-some (next_field (some s) b',' 128) _ h in
    let (d, q, h₂) = >>=-eq-some (parse_geometry entry) _ h₁ in
    parse_devices-IsValid (length s) rest d c (parse_geometry-IsValid entry d q) h₂
