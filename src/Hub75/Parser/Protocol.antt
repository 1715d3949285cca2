-- ===== src/Hub75/Parser/Protocol.antt =====
-- The ranges of what `parse_protocol` of hub75_task.c accepts.
use mathlib.Core.Path.{subst}
use Prim.Native.Nat.{bit_and}
use nodem_nrf.Base.{
  >>=-eq-some, some-inj, ℕ, ◌-◌, ◌≤◌, ◌<◌, ◌&&◌, ◌||◌, List, [], ◌∷◌, ◌≡◌, sym, inl, inr, Option,
  none, some, arith, ℤ, pos, negsuc, leb, ◌==◌, ==_iff, guard, Bool-cases,
}
use nodem_nrf.Hub75.{MatrixConfig}
use nodem_nrf.Hub75.Colors.{next_field, parse_num, is_null, is_empty}
use nodem_nrf.Hub75.Parser.{
  scan_part, chain_part, clock_part, chip_part, depth_part, parse_parts, preset_or, clock_min_khz,
  clock_max_khz,
}
use nodem_nrf.Hub75.Parser.Ranges.{Ranges, InRange}
use nodem_nrf.Hub75.Colors.Bounds.{guard-eq-some, parse_num_bounds}
use nodem_nrf.Hub75.Syntax.{
  segment_of, segment_at, zigzag_at, parse_chain, presets, find_preset, Preset, depth_default,
  max_depth, chip_names, find_chip,
}
use nodem_nrf.Text.{Bytes, equal}
use nodem_nrf.Text.Decimal.{strtol}

segment_of_bound :
    (r : Option (ℤ × Bytes)) (n : ℕ) (s : Bytes) → segment_of r ≡ some (n, s) → n < 256
unfolding segment_of
segment_of_bound none n s h = cc
segment_of_bound (some (pos k, t)) n s h = ground arith
segment_of_bound (some (negsuc k, t)) n s h = ground arith

segment_at_bound : (s : Bytes) (n : ℕ) (t : Bytes) → segment_at s ≡ some (n, t) → n < 256
unfolding segment_at
segment_at_bound [] n t h = ground arith
segment_at_bound (c ∷ s) n t h = elim (Bool-cases (leb b'1' c && leb c b'9')) [
  | inl digit ↦ segment_of_bound (strtol (c ∷ s)) n t (rw digit at h)
  | inr none_given ↦ ground (arith, none_given)
]

-- What the protocol sets of the ranges.
with_protocol :
    (c : MatrixConfig) (scan segment clock depth : ℕ)
    → InRange c
    → (2 ≤ scan) × (scan ≤ 32) × (bit_and scan (scan - 1) ≡ 0)
    → segment < 256
    → (clock_min_khz ≤ clock) × (clock ≤ clock_max_khz)
    → (1 ≤ depth) × (depth ≤ max_depth)
    → Ranges c.width c.height c.grid_x c.grid_y scan segment clock depth c.brightness c.color
        c.off_color
with_protocol c scan segment clock depth v hs hg hc hd = record {
  width_range = v.width_range;
  height_range = v.height_range;
  grid_range = v.grid_range;
  scan_range = hs;
  segment_range = hg;
  clock_range = hc;
  depth_range = hd;
  brightness_range = v.brightness_range;
  color_range = v.color_range;
  off_color_range = v.off_color_range;
}

parse_chain-InRange :
    (s : Bytes) (c c' : MatrixConfig) → InRange c → parse_chain s c ≡ some c' → InRange c'
unfolding parse_chain
parse_chain-InRange [] c c' v h = cc
parse_chain-InRange (l ∷ s) c c' v h =
    let (u, p, h₁) = >>=-eq-some (guard ((l == b'n') || (l == b'f'))) _ h in
    let ((n, t), q, h₂) = >>=-eq-some (segment_at s) _ h₁ in
    let (u', r, e) = >>=-eq-some (guard (is_empty (zigzag_at t).1)) _ h₂ in
    subst InRange (some-inj e) (
      with_protocol c c.scan n c.clock_khz c.depth v v.scan_range (segment_at_bound s n t q)
        v.clock_range v.depth_range)

scan_part-InRange :
    (s : Bytes) (c c' : MatrixConfig) → InRange c → scan_part s c ≡ some c' → InRange c'
unfolding scan_part
scan_part-InRange [] c c' v h = subst InRange (some-inj h) v
scan_part-InRange (f ∷ s) c c' v h =
    let (n, p, h₁) = >>=-eq-some (parse_num (f ∷ s) 2 32) _ h in
    let (u, q, e) = >>=-eq-some (guard (bit_and n (n - 1) == 0)) _ h₁ in
    let (lo, hi) = parse_num_bounds (f ∷ s) 2 32 n p in
    let power = (==_iff (bit_and n (n - 1)) 0).0 (guard-eq-some _ q) in
    subst InRange (some-inj e) (
      with_protocol c n c.segment c.clock_khz c.depth v (lo, hi, power) v.segment_range
        v.clock_range v.depth_range)

chain_part-InRange :
    (s : Bytes) (c c' : MatrixConfig) → InRange c → chain_part s c ≡ some c' → InRange c'
unfolding chain_part
chain_part-InRange [] c c' v h = subst InRange (some-inj h) v
chain_part-InRange (f ∷ s) c c' v h = parse_chain-InRange (f ∷ s) c c' v h

clock_part-InRange :
    (s : Bytes) (c c' : MatrixConfig) → InRange c → clock_part s c ≡ some c' → InRange c'
unfolding clock_part
clock_part-InRange [] c c' v h = subst InRange (some-inj h) v
clock_part-InRange (f ∷ s) c c' v h =
    let (n, p, e) = >>=-eq-some (parse_num (f ∷ s) clock_min_khz clock_max_khz) _ h in
    subst InRange (some-inj e) (
      with_protocol c c.scan c.segment n c.depth v v.scan_range v.segment_range
        (parse_num_bounds (f ∷ s) _ _ n p) v.depth_range)

chip_part-InRange :
    (s : Bytes) (c c' : MatrixConfig) → InRange c → chip_part s c ≡ some c' → InRange c'
unfolding chip_part
chip_part-InRange [] c c' v h = subst InRange (some-inj h) v
chip_part-InRange (f ∷ s) c c' v h =
    let (n, p, e) = >>=-eq-some (find_chip chip_names (f ∷ s)) _ h in subst InRange (some-inj e) v

depth_part-InRange :
    (s : Bytes) (c c' : MatrixConfig) → InRange c → depth_part s c ≡ some c' → InRange c'
unfolding depth_part
depth_part-InRange [] c c' v h = subst InRange (some-inj h) v
depth_part-InRange (f ∷ s) c c' v h =
    let (n, p, e) = >>=-eq-some (parse_num (f ∷ s) 1 max_depth) _ h in
    subst InRange (some-inj e) (
      with_protocol c c.scan c.segment c.clock_khz n v v.scan_range v.segment_range v.clock_range
        (parse_num_bounds (f ∷ s) _ _ n p))

parse_parts-InRange :
    (s : Bytes) (c c' : MatrixConfig) → InRange c → parse_parts s c ≡ some c' → InRange c'
unfolding parse_parts
parse_parts-InRange s c c' v h =
    let ((f₁, s₁), p₁, h₁) = >>=-eq-some (next_field (some s) b':' 16) _ h in
    let (c₁, q₁, h₂) = >>=-eq-some (scan_part f₁ c) _ h₁ in
    let ((f₂, s₂), p₂, h₃) = >>=-eq-some (next_field s₁ b':' 16) _ h₂ in
    let (c₂, q₂, h₄) = >>=-eq-some (chain_part f₂ c₁) _ h₃ in
    let ((f₃, s₃), p₃, h₅) = >>=-eq-some (next_field s₂ b':' 16) _ h₄ in
    let (c₃, q₃, h₆) = >>=-eq-some (clock_part f₃ c₂) _ h₅ in
    let ((f₄, s₄), p₄, h₇) = >>=-eq-some (next_field s₃ b':' 16) _ h₆ in
    let (c₄, q₄, h₈) = >>=-eq-some (chip_part f₄ c₃) _ h₇ in
    let ((f₅, s₅), p₅, h₉) = >>=-eq-some (next_field s₄ b':' 16) _ h₈ in
    let (u, p₆, h₁₀) = >>=-eq-some (guard (is_null s₅)) _ h₉ in
    let v₁ = scan_part-InRange f₁ c c₁ v q₁ in
    let v₂ = chain_part-InRange f₂ c₁ c₂ v₁ q₂ in
    let v₃ = clock_part-InRange f₃ c₂ c₃ v₂ q₃ in
    depth_part-InRange f₅ c₄ c' (chip_part-InRange f₄ c₃ c₄ v₃ q₄) h₁₀

AllScans : List Preset → Type 0
AllScans [] = Unit
AllScans (p ∷ ps) = ((2 ≤ p.scan) × (p.scan ≤ 32) × (bit_and p.scan (p.scan - 1) ≡ 0)) × AllScans ps

find_preset_scan :
    (ps : List Preset) (s : Bytes) (p : Preset)
    → AllScans ps
    → find_preset ps s ≡ some p
    → (2 ≤ p.scan) × (p.scan ≤ 32) × (bit_and p.scan (p.scan - 1) ≡ 0)
unfolding find_preset AllScans
find_preset_scan [] s p ok h = cc
find_preset_scan (q ∷ ps) s p (ok, rest) h = elim (Bool-cases (equal s q.name)) [
  | inl same ↦ let e = some-inj (rw same at h) in rw (sym e) ok
  | inr other ↦ find_preset_scan ps s p rest (rw other at h)
]

presets_ok : AllScans presets
unfolding AllScans
presets_ok = ground arith

pub preset_or-InRange :
    (o : Option Preset) (s : Bytes) (c c' : MatrixConfig)
    → InRange c
    → find_preset presets s ≡ o
    → preset_or o (parse_parts s c) c ≡ some c'
    → InRange c'
unfolding preset_or
preset_or-InRange none s c c' v found h = parse_parts-InRange s c c' v h
preset_or-InRange (some p) s c c' v found h = subst InRange (some-inj h) (
    with_protocol c p.scan 0 500 depth_default v (find_preset_scan presets s p presets_ok found)
      (omega arith) (omega arith) (omega arith))
