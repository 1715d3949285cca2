-- ===== src/Oled/Panel.antt =====
-- Which panels are accepted, and that they are stored and read back.
use mathlib.Core.Path.{subst}
use nodem_nrf.Base.{
  >>=-eq-some, none-ne-some, some-inj, ==_iff, ℕ, ◌-◌, ◌≤◌, ◌<◌, true, ◌&&◌, [], ◌∷◌, ◌++◌,
  append-nil, append_assoc, ◌≡◌, refl, sym, ap, inl, inr, Option, none, some, arith, ℤ, pos,
  pos_part, ltb, leb_ℤ, ◌==◌, if◌then◌else◌, length, length-append, ◌>>=◌, Bool-cases,
}
use nodem_nrf.Oled.{
  panel_ok, OledConfig, oled_size_find, is_found, is_rotation, in_bounds, check_panel, parse_panel,
  next_num_field, rotation_field, field_end, disabled, enabled, parsed_panel, oled_config_parse,
  panel_text, oled_config_format,
}
use nodem_nrf.Text.{Bytes, codes, equal, cut, skip_spaces, trim_end, truncated_fits}
use nodem_nrf.Text.Decimal.{show, is_digit, long_max}
use nodem_nrf.Text.Decimal.RoundTrip.{strtol-show, length-show-le}

-- A size that the driver knows, an offset within the display RAM, and a right angle.
pub record IsPanel (c : OledConfig) : Type 0 where
  pub known : is_found (oled_size_find c.width c.height) ≡ true
  pub width_range : c.width < 256
  pub height_range : c.height < 256
  pub x_range : c.x < 128
  pub y_range : c.y < 64
  pub right_angle : is_rotation c.rotation ≡ true

field-show :
    (n : ℕ) (t : Bytes)
    → n ≤ long_max
    → next_num_field (some (show n ++ b':' ∷ t)) ≡ some (pos n, some t)
unfolding next_num_field field_end skip_spaces
field-show n t h = simp (strtol-show n (b':' ∷ t) h (unfold is_digit in refl)) refl

last-show : (n : ℕ) → n ≤ long_max → next_num_field (some (show n)) ≡ some (pos n, none)
unfolding next_num_field field_end skip_spaces
last-show n h = simp ((rw append-nil at (strtol-show n [] h tt))) refl

check-panel :
    (c : OledConfig)
    → IsPanel c
    → check_panel (pos c.width) (pos c.height) (pos c.x) (pos c.y) (pos c.rotation) ≡ some c
unfolding check_panel panel_ok
check-panel c v =
    let w : in_bounds (pos c.width) 256 ≡ true = ground (arith, v.width_range) in
    let h : in_bounds (pos c.height) 256 ≡ true = ground (arith, v.height_range) in
    let x : in_bounds (pos c.x) 128 ≡ true = ground (arith, v.x_range) in
    let y : in_bounds (pos c.y) 64 ≡ true = ground (arith, v.y_range) in
    let r : leb_ℤ (pos 0) (pos c.rotation) ≡ true = ground arith in
    simp (w, h, v.known, x, y, r, v.right_angle) refl

rotation_le : (r : ℕ) → is_rotation r ≡ true → r ≤ 270
unfolding is_rotation
rotation_le r h = ground arith

-- What is printed behind the offsets.
unfoldable pub rotation_text : ℕ → Bytes
rotation_text r = if r == 0 then [] else b':' ∷ show r

-- What stands behind the y offset is read as the rotation.
y_and_rotation :
    (y r : ℕ) (f : ℤ → ℤ → Option OledConfig)
    → y < 64
    → r ≤ 270
    → (next_num_field (some (show y ++ rotation_text r)) >>= λ p. rotation_field p.1 >>= f p.0)
      ≡ f (pos y) (pos r)
unfolding rotation_text rotation_field
y_and_rotation y r f hy hr = elim (Bool-cases (r == 0)) [
  | inl zero_deg ↦
      let r0 : r ≡ 0 = (==_iff r 0).0 zero_deg in
      simp (zero_deg, append-nil, last-show y (omega arith)) (ap (λ n. f (pos y) (pos n)) (sym r0))
  | inr turned ↦ simp (turned, field-show y (show r) (omega arith), last-show r (omega arith)) refl
]

pub length-panel_text :
    (c : OledConfig) → IsPanel c → (8 ≤ length (panel_text c)) × (length (panel_text c) ≤ 22)
unfolding panel_text
length-panel_text c v =
    let t₃ = show c.x ++ b':' ∷ show c.y in
    let t₂ = show c.height ++ b':' ∷ t₃ in
    let a = length-append (show c.width) (b':' ∷ t₂) in
    let b = length-append (show c.height) (b':' ∷ t₃) in
    let d = length-append (show c.x) (b':' ∷ show c.y) in
    (
      omega (arith, a),
      omega (
        arith,
        a,
        b,
        d,
        length-show-le 2 c.width (omega (arith, v.width_range)),
        length-show-le 2 c.height (omega (arith, v.height_range)),
        length-show-le 2 c.x (omega (arith, v.x_range)),
        length-show-le 1 c.y (omega (arith, v.y_range)),
      ),
    )

pub length-rotation_text : (r : ℕ) → is_rotation r ≡ true → length (b':' ∷ show r) ≤ 4
length-rotation_text r h = omega (arith, length-show-le 2 r (omega (arith, rotation_le r h)))

-- All of it fits the buffer.
pub format_text :
    (c : OledConfig)
    → IsPanel c
    → oled_config_format c 128 ≡ panel_text c ++ rotation_text c.rotation
unfolding oled_config_format rotation_text
format_text c v =
    let (ge, le) = length-panel_text c v in
    let whole = truncated_fits 128 (panel_text c) (omega arith) in
    elim (Bool-cases (c.rotation == 0)) [
      | inl straight ↦ simp (straight, whole, append-nil) refl
      | inr turned ↦
          let room : (ltb 0 (length (panel_text c)) && ltb (length (panel_text c)) 128) ≡ true =
            ground arith in
          let rest =
            truncated_fits (128 - length (panel_text c)) (b':' ∷ show c.rotation)
              (omega (arith, length-rotation_text c.rotation v.right_angle)) in
          simp (turned, room, whole, rest) refl
    ]

-- The text of a panel is read back as it.
parse_text :
    (c : OledConfig)
    → IsPanel c
    → oled_config_parse (panel_text c ++ rotation_text c.rotation) ≡ enabled c
unfolding oled_config_parse panel_text parse_panel cut skip_spaces trim_end equal parsed_panel
parse_text c v =
    let t₄ = show c.y ++ rotation_text c.rotation in
    let t₃ = show c.x ++ b':' ∷ t₄ in
    let t₂ = show c.height ++ b':' ∷ t₃ in
    simp
      (
        append_assoc,
        field-show c.width t₂ (omega (arith, v.width_range)),
        field-show c.height t₃ (omega (arith, v.height_range)),
        field-show c.x t₄ (omega (arith, v.x_range)),
        y_and_rotation c.y c.rotation (check_panel (pos c.width) (pos c.height) (pos c.x)) v.y_range
            (rotation_le c.rotation v.right_angle),
        check-panel c v,
      )
      refl

-- A panel's configuration is printed whole in 128 bytes, and parsing the text gives it back.
pub oled_parse-format :
    (c : OledConfig) → IsPanel c → oled_config_parse (oled_config_format c 128) ≡ enabled c
oled_parse-format c v = rw (format_text c v) (parse_text c v)

ok-IsPanel :
    (w h x y r : ℤ)
    → panel_ok w h x y r ≡ true
    → IsPanel (record {
      width = pos_part w;
      height = pos_part h;
      x = pos_part x;
      y = pos_part y;
      rotation = pos_part r;
    })
unfolding panel_ok
ok-IsPanel w h x y r good = record {
  known = ground arith;
  width_range = ground arith;
  height_range = ground arith;
  x_range = ground arith;
  y_range = ground arith;
  right_angle = ground arith;
}

check_panel-IsPanel : (w h x y r : ℤ) (c : OledConfig) → check_panel w h x y r ≡ some c → IsPanel c
unfolding check_panel
check_panel-IsPanel w h x y r c e = elim (Bool-cases (panel_ok w h x y r)) [
  | inl good ↦ subst IsPanel (some-inj (rw good at e)) (ok-IsPanel w h x y r good)
  | inr bad ↦ absurd (none-ne-some (rw bad at e))
]

parsed_enabled : (o : Option OledConfig) (c : OledConfig) → parsed_panel o ≡ enabled c → o ≡ some c
unfolding parsed_panel
parsed_enabled none c h = cc
parsed_enabled (some d) c h = cc

parse_panel-IsPanel : (p : Option Bytes) (c : OledConfig) → parse_panel p ≡ some c → IsPanel c
unfolding parse_panel
parse_panel-IsPanel p c e =
    let ((w, p₁), q₁, e₁) = >>=-eq-some (next_num_field p) _ e in
    let ((h, p₂), q₂, e₂) = >>=-eq-some (next_num_field p₁) _ e₁ in
    let ((x, p₃), q₃, e₃) = >>=-eq-some (next_num_field p₂) _ e₂ in
    let ((y, p₄), q₄, e₄) = >>=-eq-some (next_num_field p₃) _ e₃ in
    let (r, q₅, e₅) = >>=-eq-some (rotation_field p₄) _ e₄ in check_panel-IsPanel w h x y r c e₅

disabled-ne-enabled : {c : OledConfig} → disabled ≡ enabled c → ⊥
disabled-ne-enabled h = cc

-- Whatever text is accepted names a panel that the driver knows, within the display RAM.
pub oled_parse-IsPanel : (s : Bytes) (c : OledConfig) → oled_config_parse s ≡ enabled c → IsPanel c
unfolding oled_config_parse
oled_parse-IsPanel s c e =
    let (proto, rest) = cut b':' (skip_spaces s) in
    elim (Bool-cases (equal (trim_end proto) (codes "ssd1306"))) [
      | inl ssd1306 ↦
          parse_panel-IsPanel rest c (parsed_enabled (parse_panel rest) c (rw ssd1306 at e))
      | inr other ↦ absurd (disabled-ne-enabled (rw other at e))
    ]
