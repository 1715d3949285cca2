-- ===== src/Hub75/Colors/Bounds.antt =====
-- The ranges of what `parse_color` of hub75_task.c accepts.
use mathlib.Core.Path.{subst}
use nodem_nrf.Base.{
  >>=-eq-some, none-ne-some, some-inj, ℕ, zero, suc, ◌+◌, ◌-◌, ◌*◌, ◌^◌, ◌≤◌, ◌<◌, Bool, true,
  false, not, List, [], ◌∷◌, ◌≡◌, refl, ap, inl, inr, ◌⊎◌, Option, none, some, arith, ℤ, pos,
  negsuc, leb, ◌==◌, guard, Bool-cases, length,
}
use nodem_nrf.Hub75.{Effect, Color}
use nodem_nrf.Hub75.Colors.{
  Fields, next_field, is_null, num_in, parse_num, EffectName, effects, find_effect, index_of,
  palette_letters, parse_palette, speed_part, scale_part, parse_effect, hex_digit, hex_digits,
  parse_rgb, parse_color,
}
use nodem_nrf.Text.{Bytes, equal, cut, skip_spaces, trim_end}
use nodem_nrf.Text.Decimal.{strtol}

-- A gradient stands still, the other effects move.
pub SpeedOf : Effect → ℕ → Type 0
SpeedOf Effect.solid n = ⊥
SpeedOf Effect.gradient n = n ≡ 0
SpeedOf e n = (1 ≤ n) × (n ≤ 32)

pub AllBelow : ℕ → List ℕ → Type 0
AllBelow n [] = Unit
AllBelow n (x ∷ xs) = (x < n) × AllBelow n xs

pub record IsEffect (c : Color) : Type 0 where
  pub speed_range : SpeedOf c.effect c.speed
  pub palette_len : length c.palette ≤ 8
  pub palette_range : AllBelow 8 c.palette
  pub scale_range : (1 ≤ c.scale) × (c.scale ≤ 32)

-- A fixed colour of 24 bits, or an effect.
unfoldable pub IsColor : Color → Type 0
IsColor c = ((c.effect ≡ Effect.solid) × (c.rgb < 2 ^ 24)) ⊎ IsEffect c

pub guard-eq-some : (b : Bool) {u : Unit {0}} → guard b ≡ some u → b ≡ true
guard-eq-some true h = refl
guard-eq-some false h = cc

num_in_bounds :
    (lo hi : ℕ) (r : Option (ℤ × Bytes)) (v : ℕ) → num_in lo hi r ≡ some v → (lo ≤ v) × (v ≤ hi)
unfolding num_in
num_in_bounds lo hi none v h = cc
num_in_bounds lo hi (some (pos n, [])) v h = ground arith
num_in_bounds lo hi (some (negsuc n, [])) v h = ground arith
num_in_bounds lo hi (some (w, c ∷ s)) v h = cc

pub parse_num_bounds : (s : Bytes) (lo hi v : ℕ) → parse_num s lo hi ≡ some v → (lo ≤ v) × (v ≤ hi)
unfolding parse_num
parse_num_bounds s lo hi v h = num_in_bounds lo hi (strtol s) v h

-- What one row of the table of effects allows: its own speed, and if it moves, any in the range.
Moves : EffectName → Type 0
Moves e =
    SpeedOf e.effect e.speed × ((v : ℕ) → (¬ (e.speed ≡ 0)) → 1 ≤ v → v ≤ 32 → SpeedOf e.effect v)

AllMove : List EffectName → Type 0
AllMove [] = Unit
AllMove (e ∷ es) = Moves e × AllMove es

effects-AllMove : AllMove effects
unfolding AllMove Moves SpeedOf
effects-AllMove = ground arith

find_effect-Moves :
    (es : List EffectName) (name : Bytes) (e : EffectName)
    → AllMove es
    → find_effect es name ≡ some e
    → Moves e
unfolding find_effect AllMove
find_effect-Moves [] name e ok h = cc
find_effect-Moves (e' ∷ es) name e (ok, rest) h = elim (Bool-cases (equal name e'.name)) [
  | inl same ↦ subst Moves (some-inj (rw same at h)) ok
  | inr other ↦ find_effect-Moves es name e rest (rw other at h)
]

speed_part-SpeedOf :
    (s : Bytes) (e : EffectName) (v : ℕ)
    → Moves e
    → speed_part s e.speed ≡ some v
    → SpeedOf e.effect v
unfolding speed_part Moves
speed_part-SpeedOf [] e v ok h = subst (SpeedOf e.effect) (some-inj h) ok.0
speed_part-SpeedOf (c ∷ s) e v ok h =
    let (u, p, q) = >>=-eq-some (guard (not (e.speed == 0))) _ h in
    let moving = guard-eq-some _ p in
    let (lo, hi) = parse_num_bounds (c ∷ s) _ _ v q in ok.1 v (λ z. ground (arith, moving, z)) lo hi

scale_part_bounds : (s : Bytes) (v : ℕ) → scale_part s ≡ some v → (1 ≤ v) × (v ≤ 32)
unfolding scale_part
scale_part_bounds [] v h = ground arith
scale_part_bounds (c ∷ s) v h = parse_num_bounds (c ∷ s) _ _ v h

next_field-length :
    (s : Fields) (sep n : ℕ) (field : Bytes) (rest : Fields)
    → 0 < n
    → next_field s sep n ≡ some (field, rest)
    → length field < n
unfolding next_field
next_field-length none sep n field rest p h =
    let e : [] ≡ field = ap (λ r. r.0) (some-inj h) in subst (λ (f : Bytes). length f < n) e p
next_field-length (some s) sep n field rest p h =
    let f = trim_end (skip_spaces (cut sep s).0) in
    elim (Bool-cases (leb n (length f))) [
      | inl long ↦ absurd (none-ne-some (rw long at h))
      | inr short ↦
          let e : f ≡ field = ap (λ r. r.0) (some-inj (rw short at h)) in
          subst (λ (f : Bytes). length f < n) e (ground (arith, short))
    ]

index_of_bound : (s : Bytes) (l i : ℕ) → index_of s l ≡ some i → i < length s
unfolding index_of
index_of_bound [] l i h = cc
index_of_bound (c ∷ s) l i h = elim (Bool-cases (c == l)) [
  | inl here ↦ let e : 0 ≡ i = some-inj (rw here at h) in omega (arith, e)
  | inr later ↦
      let (j, p, e) = >>=-eq-some (index_of s l) _ (rw later at h) in
      omega (arith, index_of_bound s l j p, some-inj e)
]

parse_palette_range :
    (s : Bytes) (p : List ℕ) → parse_palette s ≡ some p → (length p ≡ length s) × AllBelow 8 p
unfolding parse_palette AllBelow
parse_palette_range [] p h = subst (λ p. (length p ≡ 0) × AllBelow 8 p) (some-inj h) (refl, tt)
parse_palette_range (l ∷ ls) p h =
    let (i, hi, h₁) = >>=-eq-some (index_of palette_letters l) _ h in
    let (rest, hr, e) = >>=-eq-some (parse_palette ls) _ h₁ in
    let (len, below) = parse_palette_range ls rest hr in
    subst (λ (p : List ℕ). (length p ≡ suc (length ls)) × AllBelow 8 p) (some-inj e)
      (ap suc len, (index_of_bound palette_letters l i hi, below))

parse_effect-IsEffect : (s : Bytes) (c : Color) → parse_effect s ≡ some c → IsEffect c
unfolding parse_effect
parse_effect-IsEffect s c h =
    let ((f₁, s₁), p₁, h₁) = >>=-eq-some (next_field (some s) b':' 12) _ h in
    let ((f₂, s₂), p₂, h₂) = >>=-eq-some (next_field s₁ b':' 4) _ h₁ in
    let ((f₃, s₃), p₃, h₃) = >>=-eq-some (next_field s₂ b':' 9) _ h₂ in
    let ((f₄, s₄), p₄, h₄) = >>=-eq-some (next_field s₃ b':' 4) _ h₃ in
    let (u, p₅, h₅) = >>=-eq-some (guard (is_null s₄)) _ h₄ in
    let (e, p₆, h₆) = >>=-eq-some (find_effect effects f₁) _ h₅ in
    let (v, p₇, h₇) = >>=-eq-some (speed_part f₂ e.speed) _ h₆ in
    let (p, p₈, h₈) = >>=-eq-some (parse_palette f₃) _ h₇ in
    let (z, p₉, last) = >>=-eq-some (scale_part f₄) _ h₈ in
    let (len, below) = parse_palette_range f₃ p p₈ in
    let short = next_field-length s₂ b':' 9 f₃ s₃ (omega arith) p₃ in
    subst IsEffect (some-inj last) (record {
      speed_range =
          speed_part-SpeedOf f₂ e v (find_effect-Moves effects f₁ e effects-AllMove p₆) p₇;
      palette_len = omega (arith, len, short);
      palette_range = below;
      scale_range = scale_part_bounds f₄ z p₉;
    })

hex_digit_bound : (ch d : ℕ) → hex_digit ch ≡ some d → d ≤ 15
unfolding hex_digit
hex_digit_bound ch d h = ground arith

-- A digit in front of those behind it.
digit-bound : (d p v q : ℕ) → d ≤ 15 → v < p → q ≡ 16 * p → d * p + v < q
digit-bound d p v q h k e = grind arith

power_pos : (n : ℕ) → 0 < 2 ^ n
power_pos zero = omega arith
power_pos (suc n) = omega (arith, power_pos n)

-- The place of a digit is worth sixteen of the next one's.
place_step : (n : ℕ) → n ≤ 5 → 2 ^ (24 - 4 * n) ≡ 16 * 2 ^ (20 - 4 * n)
place_step n h =
    let e : 24 - 4 * n ≡ suc (suc (suc (suc (20 - 4 * n)))) = omega (arith, h) in rw e (omega arith)

hex_digits_bound :
    (s : Bytes) (n v : ℕ) → hex_digits s n ≡ some v → length s + n ≤ 6 → v < 2 ^ (24 - 4 * n)
unfolding hex_digits
hex_digits_bound [] n v h le =
    subst (λ (v : ℕ). v < 2 ^ (24 - 4 * n)) (some-inj h) (power_pos (24 - 4 * n))
hex_digits_bound (ch ∷ s) n v h le =
    let (d, hd, h₁) = >>=-eq-some (hex_digit ch) _ h in
    let (rest, hr, e) = >>=-eq-some (hex_digits s (n + 1)) _ h₁ in
    let bound : rest < 2 ^ (20 - 4 * n) =
      let same : 24 - 4 * (n + 1) ≡ 20 - 4 * n = omega arith in
      subst (λ (k : ℕ). rest < 2 ^ k) same
        (hex_digits_bound s (n + 1) rest hr (omega (arith, le))) in
    subst (λ (v : ℕ). v < 2 ^ (24 - 4 * n)) (some-inj e)
      (digit-bound d (2 ^ (20 - 4 * n)) rest _ (hex_digit_bound ch d hd) bound
        (place_step n (omega (arith, le))))

parse_rgb-IsColor : (s : Bytes) (c : Color) → parse_rgb s ≡ some c → IsColor c
unfolding parse_rgb IsColor
parse_rgb-IsColor s c h =
    let (u, p, h₁) = >>=-eq-some (guard (leb (length s) 6)) _ h in
    let few = guard-eq-some _ p in
    let (v, q, e) = >>=-eq-some (hex_digits s 0) _ h₁ in
    let small = hex_digits_bound s 0 v q (ground (arith, few)) in
    subst IsColor (some-inj e) (inl (refl, small))

-- Every colour that is accepted is in the ranges of its fields.
pub parse_color-IsColor : (s : Bytes) (c : Color) → parse_color s ≡ some c → IsColor c
unfolding parse_color IsColor
parse_color-IsColor [] c h = inr (parse_effect-IsEffect [] c h)
parse_color-IsColor (x ∷ s) c h = elim (Bool-cases (x == b'#')) [
  | inl fixed ↦ parse_rgb-IsColor s c (rw fixed at h)
  | inr effect ↦ inr (parse_effect-IsEffect (x ∷ s) c (rw effect at h))
]
