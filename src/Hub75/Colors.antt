-- ===== src/Hub75/Colors.antt =====
-- hub75_task.c: fields, numbers and colours.
pub mod Bounds
use nodem_nrf.Base.{
  ℕ, ◌+◌, ◌-◌, ◌*◌, ◌^◌, Bool, true, false, not, ◌&&◌, List, [], ◌∷◌, Option, none, some, ℤ, pos,
  pos_part, leb, leb_ℤ, ◌==◌, if◌then◌else◌, length, ◌>>=◌, ◌>>◌, guard,
}
use nodem_nrf.Hub75.{Effect, Color}
use nodem_nrf.Text.{Bytes, codes, equal, cut, skip_spaces, trim_end}
use nodem_nrf.Text.Decimal.{strtol}

-- The rest that is left to read, `none` for NULL.
abbrev pub Fields : Type 0
Fields = Option Bytes

-- The field and the rest; no result for false. (The callers return where the source has moved `*s`
-- and the field does not fit.)
unfoldable pub next_field : Fields → ℕ → ℕ → Option (Bytes × Fields)
next_field none sep out_len = some ([], none)
next_field (some s) sep out_len =
    let (before, rest) = cut sep s in
    let field = trim_end (skip_spaces before) in
    if leb out_len (length field) then none else some (field, rest)

abbrev pub is_empty : Bytes → Bool
is_empty [] = true
is_empty (c ∷ s) = false

abbrev pub is_null : Fields → Bool
is_null none = true
is_null (some s) = false

unfoldable pub num_in : ℕ → ℕ → Option (ℤ × Bytes) → Option ℕ
num_in lo hi none = none
num_in lo hi (some (v, s)) =
    if is_empty s && (leb_ℤ (pos lo) v && leb_ℤ v (pos hi)) then some (pos_part v) else none

-- The bounds are not negative.
unfoldable pub parse_num : Bytes → ℕ → ℕ → Option ℕ
unfolding num_in
parse_num s lo hi = num_in lo hi (strtol s)

abbrev pub effect_speed_max : ℕ
effect_speed_max = 32

abbrev pub palette_max : ℕ
palette_max = 8

abbrev pub scale_max : ℕ
scale_max = 32

abbrev pub scale_default : ℕ
scale_default = 8

abbrev pub palette_letters : Bytes
palette_letters = codes "krgybmcw"

pub record EffectName : Type 0 where
  pub name : Bytes
  pub effect : Effect
  pub speed : ℕ

abbrev pub effect_name : Bytes → Effect → ℕ → EffectName
effect_name n e s = record { name = n; effect = e; speed = s }

abbrev pub effects : List EffectName
effects =
    effect_name (codes "plasma") Effect.plasma 2
    ∷ effect_name (codes "rainbow") Effect.plasma 2
    ∷ effect_name (codes "stripes") Effect.stripes 4
    ∷ effect_name (codes "wave") Effect.wave 4
    ∷ effect_name (codes "scroll") Effect.scroll 3
    ∷ effect_name (codes "cycle") Effect.cycle 3
    ∷ effect_name (codes "fade") Effect.fade 2
    ∷ effect_name (codes "fire") Effect.fire 4
    ∷ effect_name (codes "sparkle") Effect.sparkle 4
    ∷ effect_name (codes "ripple") Effect.ripple 4
    ∷ effect_name (codes "gradient") Effect.gradient 0
    ∷ []

unfoldable pub find_effect : List EffectName → Bytes → Option EffectName
find_effect [] name = none
find_effect (e ∷ es) name =
    let rest = find_effect es name in if equal name e.name then some e else rest

-- `strchr` and the difference of the pointers.
unfoldable pub index_of : Bytes → ℕ → Option ℕ
index_of [] l = none
index_of (c ∷ s) l =
    let rest = index_of s l >>= (λ i. some (i + 1)) in if c == l then some 0 else rest

unfoldable pub parse_palette : Bytes → Option (List ℕ)
unfolding index_of
parse_palette [] = some []
parse_palette (l ∷ ls) = do
  at ← index_of palette_letters l
  rest ← parse_palette ls
  some (at ∷ rest)

-- An empty part keeps its default.
unfoldable pub speed_part : Bytes → ℕ → Option ℕ
speed_part [] speed = some speed
speed_part (c ∷ s) speed = do guard (not (speed == 0)); parse_num (c ∷ s) 1 effect_speed_max

unfoldable pub scale_part : Bytes → Option ℕ
scale_part [] = some scale_default
scale_part (c ∷ s) = parse_num (c ∷ s) 1 scale_max

unfoldable pub parse_effect : Bytes → Option Color
parse_effect s = do
  (name, rest) ← next_field (some s) b':' 12
  (speed, rest) ← next_field rest b':' 4
  (palette, rest) ← next_field rest b':' (palette_max + 1)
  (scale, rest) ← next_field rest b':' 4
  guard (is_null rest)
  e ← find_effect effects name
  v ← speed_part speed e.speed
  p ← parse_palette palette
  z ← scale_part scale
  some (record { effect = e.effect; speed = v; palette = p; scale = z; rgb = 0 })

unfoldable pub hex_digit : ℕ → Option ℕ
hex_digit ch =
    if leb b'0' ch && leb ch b'9'
    then some (ch - b'0')
    else if leb b'a' ch && leb ch b'f'
    then some (ch - b'a' + 10)
    else if leb b'A' ch && leb ch b'F'
    then some (ch - b'A' + 10)
    else none

-- `v |= d << (20 - 4 * n)`, of digits that stand in different bits, so the sum is the `|`.
unfoldable pub hex_digits : Bytes → ℕ → Option ℕ
unfolding hex_digit
hex_digits [] n = some 0
hex_digits (ch ∷ s) n = do
  d ← hex_digit ch
  rest ← hex_digits s (n + 1)
  some (d * 2 ^ (20 - 4 * n) + rest)

-- A fixed colour; the fields of the effects are zero.
abbrev pub solid_color : ℕ → Color
solid_color v = record { effect = Effect.solid; speed = 0; palette = []; scale = 0; rgb = v }

unfoldable pub parse_rgb : Bytes → Option Color
parse_rgb s = do guard (leb (length s) 6); v ← hex_digits s 0; some (solid_color v)

unfoldable pub parse_color : Bytes → Option Color
parse_color [] = parse_effect []
parse_color (c ∷ s) = if c == b'#' then parse_rgb s else parse_effect (c ∷ s)
