-- ===== src/Hub75/Nodem.antt =====
-- `frame_draw_nodem` of hub75_task.c: the framebuffer, through the mapping, into the frame.
pub mod Pixels
pub mod Changed
use Prim.Native.Nat.{bit_xor}
use nodem_nrf.Base.{
  ℕ, zero, suc, ◌+◌, ◌-◌, ◌*◌, ◌/◌, ◌%◌, ◌^◌, Bool, true, false, not, ◌&&◌, ◌||◌, List, [], ◌∷◌,
  Option, none, some, ℤ, pos, negsuc, pos_part, leb_ℤ, ltb_ℤ, ◌==◌, if◌then◌else◌,
}
use nodem_nrf.Hub75.{Driver}
use nodem_nrf.Hub75.Frame.{Memory, draw_row, draw_rows}
use nodem_nrf.NodemConfig.{Config, nodem_map_axis, nodem_config_buffer_len}

-- `nodem_fb`, as the bytes by their index, and `nodem`.
pub record Submitted : Type 0 where
  pub fb : Memory
  pub config : Config

-- What there is to draw under the lock: nothing where `nodem_fb` is NULL or the mapping is absent.
unfoldable pub drawable : Option Submitted → Option Submitted
drawable none = none
drawable (some s) = if s.config.hub75.present then some s else none

-- A step of FNV-1a.
unfoldable pub fnv : ℕ → ℕ → ℕ
fnv h v = bit_xor h v * 16777619 % 2 ^ 32

unfoldable pub hash_bytes : Memory → ℕ → ℕ → ℕ → ℕ
hash_bytes fb zero i h = h
hash_bytes fb (suc n) i h = hash_bytes fb n (i + 1) (fnv h (fb i))

-- `(uint32_t)` of an `int32_t`.
unfoldable pub u32_of : ℤ → ℕ
u32_of (pos n) = n
u32_of (negsuc n) = 2 ^ 32 - 1 - n

unfoldable pub hash_numbers : List ℤ → ℕ → ℕ
hash_numbers [] h = h
hash_numbers (v ∷ vs) h = hash_numbers vs (fnv h (u32_of v))

unfoldable pub nodem_hash : Submitted → ℕ
unfolding nodem_config_buffer_len
nodem_hash s =
    let c = s.config in
    let m = c.hub75 in
    hash_numbers (pos c.width ∷ pos c.height ∷ m.x ∷ m.y ∷ pos m.scale_x ∷ pos m.scale_y ∷ [])
      (hash_bytes s.fb (nodem_config_buffer_len c) 0 2166136261)

abbrev pub in_axis : ℤ → ℕ → Bool
in_axis v size = leb_ℤ (pos 0) v && ltb_ℤ v (pos size)

-- `map_cols[x]` on a display of `w` columns.
unfoldable pub map_col : Config → ℕ → ℕ → ℤ
map_col c w x =
    let fx = nodem_map_axis x w c.width c.hub75.scale_x c.hub75.x in
    if in_axis fx c.width then fx else negsuc 0

unfoldable pub row_of : Config → ℕ → ℕ → ℤ
row_of c h y = nodem_map_axis y h c.height c.hub75.scale_y c.hub75.y

-- The bit of the framebuffer that is read for a pixel, from the entry of its column and the
-- framebuffer's row of its row.
unfoldable pub bit_read : Config → ℤ → ℤ → Option ℕ
bit_read c fx fy =
    if in_axis fy c.height && leb_ℤ (pos 0) fx
    then some (pos_part fy * c.width + pos_part fx)
    else none

-- `fb[bit >> 3] & (0x80 >> (bit & 7))`
abbrev pub bit_at : Memory → ℕ → Bool
bit_at fb bit = fb (bit / 8) / 2 ^ (7 - bit % 8) % 2 == 1

unfoldable pub is_lit : Memory → Option ℕ → Bool
is_lit fb none = false
is_lit fb (some bit) = bit_at fb bit

module _ (d : Driver) (on off : ℕ → ℕ → ℕ) where
  -- The colour of a pixel, the columns being mapped by `cols`.
  abbrev pub color_of : Submitted → (ℕ → ℤ) → ℕ → ℕ → ℕ
  color_of s cols x y =
      if is_lit s.fb (bit_read s.config (cols x) (row_of s.config d.active.height y))
      then on x y
      else off x y

  -- The loop over the rows from row `y` on, where row `y` finds `sees y` under the lock; the result,
  -- and the frame. `map_cols` is filled at the first row.
  unfoldable pub draw_submitted : (ℕ → Option Submitted) → ℕ → ℕ → (ℕ → ℤ) → Memory → Bool × Memory
  draw_submitted sees zero y cols f = (true, f)
  draw_submitted sees (suc n) y cols f = elim (drawable (sees y)) [
    | none ↦ (false, f)
    | some s ↦
        let cols' : ℕ → ℤ = if y == 0 then map_col s.config d.active.width else cols in
        draw_submitted sees n (y + 1) cols' (draw_row d (color_of s cols') y d.active.width 0 f)
  ]

  -- `drawn_hash`, the result and the frame, with what the first lock finds and what each row does.
  unfoldable pub frame_draw_nodem :
      Option Submitted → (ℕ → Option Submitted) → (ℕ → ℤ) → Bool → ℕ → Memory → ℕ × (Bool × Memory)
  frame_draw_nodem first sees cols force drawn_hash f = elim (drawable first) [
    | none ↦ (drawn_hash, (false, f))
    | some s ↦
        let hash = nodem_hash s in
        if not force && (hash == drawn_hash)
        then (drawn_hash, (true, f))
        else (hash, draw_submitted sees d.active.height 0 cols f)
  ]

  -- The edge that is drawn without a framebuffer: every other pixel of it is lit.
  unfoldable pub fallback_color : ℕ → ℕ → ℕ → ℕ
  fallback_color phase x y =
      let w = d.active.width in
      let h = d.active.height in
      let edge = (x == 0) || ((y == 0) || ((x == w - 1) || (y == h - 1))) in
      if edge && ((x + y + phase) % 2 == 0) then on x y else off x y

  unfoldable pub frame_draw_fallback : ℕ → Memory → Memory
  unfolding fallback_color
  frame_draw_fallback phase f = draw_rows d (fallback_color phase) d.active.height 0 f
