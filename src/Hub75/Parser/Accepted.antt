-- ===== src/Hub75/Parser/Accepted.antt =====
-- What `hub75_config_parse` of hub75_task.c accepts.
use mathlib.Core.Path.{subst}
use Prim.Native.Nat.{bit_and}
use nodem_nrf.Base.{
  >>=-eq-some, none-ne-some, some-inj, ℕ, ◌-◌, ◌/◌, ◌%◌, ◌^◌, ◌≤◌, true, not, [], ◌∷◌, ◌≡◌, refl,
  sym, inl, inr, Option, none, some, arith, ◌==◌, ==_iff, guard, Bool-cases,
}
use nodem_nrf.Hub75.{Color, MatrixConfig, IsMatrix}
use nodem_nrf.Hub75.Colors.{next_field, is_null}
use nodem_nrf.Hub75.Colors.Bounds.{IsColor, parse_num_bounds, parse_color-IsColor}
use nodem_nrf.Hub75.Parser.{
  parse_protocol, hub75_default, geometry_part, protocol_part, color_part, brightness_part,
  fits_panels, check_config, parse_config, config_from, parsed_config, hub75_config_parse, enabled,
}
use nodem_nrf.Hub75.Parser.Protocol.{preset_or-InRange}
use nodem_nrf.Hub75.Parser.Ranges.{Ranges, InRange, parse_geometry-InRange}
use nodem_nrf.Hub75.Render.{hub75_brightness_max}
use nodem_nrf.Hub75.Syntax.{presets, find_preset}
use nodem_nrf.Text.{Bytes, skip_spaces}

geometry_part-InRange :
    (s : Bytes) (c c' : MatrixConfig) → InRange c → geometry_part s c ≡ some c' → InRange c'
unfolding geometry_part
geometry_part-InRange [] c c' v h = subst InRange (some-inj h) v
geometry_part-InRange (f ∷ s) c c' v h = parse_geometry-InRange (f ∷ s) c c' v h

protocol_part-InRange :
    (s : Bytes) (c c' : MatrixConfig) → InRange c → protocol_part s c ≡ some c' → InRange c'
unfolding protocol_part parse_protocol
protocol_part-InRange [] c c' v h = subst InRange (some-inj h) v
protocol_part-InRange (f ∷ s) c c' v h =
    preset_or-InRange (find_preset presets (f ∷ s)) (f ∷ s) c c' v refl h

brightness_part_bound :
    (s : Bytes) (b n : ℕ)
    → b ≤ hub75_brightness_max
    → brightness_part s b ≡ some n
    → n ≤ hub75_brightness_max
unfolding brightness_part
brightness_part_bound [] b n v h = ground (arith, v)
brightness_part_bound (f ∷ s) b n v h = (parse_num_bounds (f ∷ s) 0 hub75_brightness_max n h).1

default-InRange : InRange hub75_default
unfolding IsColor
default-InRange = record {
  width_range = omega arith;
  height_range = omega arith;
  grid_range = omega arith;
  scan_range = (omega arith, omega arith, refl);
  segment_range = omega arith;
  clock_range = omega arith;
  depth_range = omega arith;
  brightness_range = omega arith;
  color_range = inl (refl, omega arith);
  off_color_range = inl (refl, omega arith);
}

-- A configuration that the parser accepts, with the tests of its end.
pub record IsAccepted (c : MatrixConfig) : Type 0 where
  pub ranges : InRange c
  pub fits : fits_panels c ≡ true

div-le : (x n : ℕ) → x / n ≤ x
div-le x n = grind arith

pub accepted-IsMatrix : (c : MatrixConfig) → IsAccepted c → IsMatrix c
unfolding fits_panels
accepted-IsMatrix c v =
    let r = v.ranges in
    let f = v.fits in
    let w : (c.width / c.grid_x) % 2 ^ 16 ≡ c.width / c.grid_x =
      omega (arith, div-le c.width c.grid_x, r.width_range) in
    let h : (c.height / c.grid_y) % 2 ^ 16 ≡ c.height / c.grid_y =
      omega (arith, div-le c.height c.grid_y, r.height_range) in
    let tests = rw (w, h) at f in
    record {
      width_pos = r.width_range.0;
      height_pos = r.height_range.0;
      pixels = ground (arith, tests);
      columns = (r.grid_range.0, ground (arith, tests));
      rows = (r.grid_range.1, ground (arith, tests));
      panels = r.grid_range.2;
      scan_range = (r.scan_range.0, r.scan_range.1);
      blocks = ground (arith, tests);
      pieces = elim (Bool-cases (c.segment == 0)) [
        | inl whole ↦ inl ((==_iff c.segment 0).0 whole)
        | inr cut ↦ inr (ground (arith, cut), ground (arith, tests, cut))
      ];
      segment_range = r.segment_range;
      depth_range = r.depth_range;
      clock_range = r.clock_range;
      brightness_range = r.brightness_range;
    }

with_colors :
    (c : MatrixConfig) (x y : Color) (b : ℕ)
    → InRange c
    → IsColor x
    → IsColor y
    → b ≤ hub75_brightness_max
    → Ranges c.width c.height c.grid_x c.grid_y c.scan c.segment c.clock_khz c.depth b x y
with_colors c x y b v vx vy h = record {
  width_range = v.width_range;
  height_range = v.height_range;
  grid_range = v.grid_range;
  scan_range = v.scan_range;
  segment_range = v.segment_range;
  clock_range = v.clock_range;
  depth_range = v.depth_range;
  brightness_range = h;
  color_range = vx;
  off_color_range = vy;
}

check_config-IsAccepted :
    (c c' : MatrixConfig) → InRange c → check_config c ≡ some c' → IsAccepted c'
unfolding check_config
check_config-IsAccepted c c' v h = elim (Bool-cases (fits_panels c)) [
  | inl fits ↦ rw (sym (some-inj (rw fits at h))) (record { ranges = v; fits = fits })
  | inr not ↦ absurd (none-ne-some (rw not at h))
]

color_part-IsColor : (s : Bytes) (c c' : Color) → IsColor c → color_part s c ≡ some c' → IsColor c'
unfolding color_part
color_part-IsColor [] c c' v h = subst IsColor (some-inj h) v
color_part-IsColor (f ∷ s) c c' v h = parse_color-IsColor (f ∷ s) c' h

pub parse_config-IsAccepted :
    (s : Bytes) (c : MatrixConfig) → parse_config s ≡ some c → IsAccepted c
unfolding parse_config
parse_config-IsAccepted s c h =
    let ((f₁, s₁), p₁, h₁) = >>=-eq-some (next_field (some s) b',' 32) _ h in
    let (c₁, q₁, h₂) = >>=-eq-some (geometry_part f₁ hub75_default) _ h₁ in
    let ((f₂, s₂), p₂, h₃) = >>=-eq-some (next_field s₁ b',' 32) _ h₂ in
    let (c₂, q₂, h₄) = >>=-eq-some (protocol_part f₂ c₁) _ h₃ in
    let ((f₃, s₃), p₃, h₅) = >>=-eq-some (next_field s₂ b',' 32) _ h₄ in
    let (x₁, q₃, h₆) = >>=-eq-some (color_part f₃ c₂.color) _ h₅ in
    let ((f₄, s₄), p₄, h₇) = >>=-eq-some (next_field s₃ b',' 32) _ h₆ in
    let (x₂, q₄, h₈) = >>=-eq-some (color_part f₄ c₂.off_color) _ h₇ in
    let ((f₅, s₅), p₅, h₉) = >>=-eq-some (next_field s₄ b',' 32) _ h₈ in
    let (b, q₅, h₁₀) = >>=-eq-some (brightness_part f₅ c₂.brightness) _ h₉ in
    let (u, p₆, h₁₁) = >>=-eq-some (guard (is_null s₅)) _ h₁₀ in
    let v₁ = geometry_part-InRange f₁ hub75_default c₁ default-InRange q₁ in
    let v₂ = protocol_part-InRange f₂ c₁ c₂ v₁ q₂ in
    let vx = color_part-IsColor f₃ c₂.color x₁ v₂.color_range q₃ in
    let vy = color_part-IsColor f₄ c₂.off_color x₂ v₂.off_color_range q₄ in
    let le = brightness_part_bound f₅ c₂.brightness b v₂.brightness_range q₅ in
    check_config-IsAccepted _ c (with_colors c₂ x₁ x₂ b v₂ vx vy le) h₁₁

from_result :
    (s : Bytes) (o : Option MatrixConfig) (c : MatrixConfig)
    → parse_config s ≡ o
    → parsed_config o ≡ enabled c
    → IsAccepted c
unfolding parsed_config
from_result s none c p h = cc
from_result s (some c') c p h =
    let same : c' ≡ c = cc in rw (sym same) (parse_config-IsAccepted s c' p)

from_text : (s : Bytes) (c : MatrixConfig) → config_from s ≡ enabled c → IsAccepted c
unfolding config_from
from_text [] c h = cc
from_text (x ∷ s) c h = from_result (x ∷ s) (parse_config (x ∷ s)) c refl h

-- All that the parser promises of a configuration: the ranges that the matrix needs, a scan that is a
-- power of two, and two colours that can be painted.
pub record IsConfig (c : MatrixConfig) : Type 0 where
  pub matrix : IsMatrix c
  pub scan_power : bit_and c.scan (c.scan - 1) ≡ 0
  pub color_range : IsColor c.color
  pub off_color_range : IsColor c.off_color

parse-IsAccepted : (s : Bytes) (c : MatrixConfig) → hub75_config_parse s ≡ enabled c → IsAccepted c
unfolding hub75_config_parse
parse-IsAccepted s c h = from_text (skip_spaces s) c h

pub parse-IsMatrix : (s : Bytes) (c : MatrixConfig) → hub75_config_parse s ≡ enabled c → IsMatrix c
parse-IsMatrix s c h = accepted-IsMatrix c (parse-IsAccepted s c h)

-- Whatever text is parsed, an accepted configuration is in the ranges of its fields: those of the
-- numbers, a number of row addresses that is a power of two, and two colours that are each one of 24
-- bits or an effect with a speed of 1 to 32 (none for a gradient), a palette of at most 8 of the 8
-- letters and a scale of 1 to 32. The panels split its display evenly, the row addresses the panels'
-- halves and the pieces their rows.
pub parse-IsConfig : (s : Bytes) (c : MatrixConfig) → hub75_config_parse s ≡ enabled c → IsConfig c
parse-IsConfig s c h =
    let v = parse-IsAccepted s c h in
    let (_, _, power) = v.ranges.scan_range in
    record {
      matrix = accepted-IsMatrix c v;
      scan_power = power;
      color_range = v.ranges.color_range;
      off_color_range = v.ranges.off_color_range;
    }
