-- ===== src/Hub75/Paint/Effects/Tables.antt =====
-- hub75_task.c: what of its table an effect reads.
use nodem_nrf.Base.{
  ℕ, ◌+◌, ◌*◌, ◌/◌, ◌%◌, ◌^◌, ◌≤◌, ◌<◌, min, true, List, ◌≡◌, ◌⊎◌, inl, inr, refl, arith, Option,
  none, some, ℤ, pos, negsuc, ◌==◌, length, Bool-cases,
}
use nodem_nrf.Hub75.{Effect, Color}
use mathlib.Core.Path.{subst}
use nodem_nrf.Hub75.Alloc.{paint_lut_len}
use nodem_nrf.Hub75.Paint.{spread, u8, default_palette, effect_palette}
use nodem_nrf.Hub75.Paint.Effects.{
  Paint, filled, table_len, table_color, uniform_color, is_uniform, paint_of, zoomed, paint_row,
  plasma_index, ripple_index, fire_index, sparkle_index, index_for, effect_index, looked_up,
  paint_at,
}

u8-lt : (v : ℤ) → u8 v < 256
unfolding u8
u8-lt (pos n) = omega arith
u8-lt (negsuc n) = omega arith

default-pos : (e : Effect) → 0 < length (default_palette e)
unfolding default_palette
default-pos e = elim e as (λ k. 0 < length (default_palette k)) [
  | Effect.fire ↦ omega arith
  | Effect.sparkle ↦ omega arith
  | _ ↦ omega arith
]

palette-pos : (c : Color) → 0 < length (effect_palette c)
unfolding effect_palette
palette-pos c = elim (Bool-cases (length c.palette == 0)) [
  | inl empty ↦ rw empty (default-pos c.effect)
  | inr given ↦ rw given (ground arith)
]

share-lt : (r n : ℕ) → r < 256 → 0 < n → r * n / 256 < n
share-lt r n h l = grind arith

slot-lt : (i n s : ℕ) → i < n → i * 32 + s % 32 < n * 32
slot-lt i n s h = omega (arith, h)

min_heat : (n : ℕ) → min n 255 < 256
min_heat n = omega arith

-- The index of a table, if any, is below `n`.
abbrev Within : ℕ → Option ℕ → Type 0
Within n none = Unit
Within n (some i) = i < n

index-Within :
    (e : Effect) (p : Paint) (width height x sx : ℕ)
    → 0 < length p.pal
    → Within (table_len e p.pal) (index_for e p width height x sx)
unfolding table_len index_for plasma_index ripple_index fire_index sparkle_index
index-Within Effect.solid p width height x sx h = tt
index-Within Effect.cycle p width height x sx h = tt
index-Within Effect.fade p width height x sx h = tt
index-Within Effect.sparkle p width height x sx h =
    slot-lt _ (length p.pal) _ (share-lt _ (length p.pal) (omega arith) h)
index-Within Effect.plasma p width height x sx h = u8-lt _
index-Within Effect.stripes p width height x sx h = u8-lt _
index-Within Effect.wave p width height x sx h = u8-lt _
index-Within Effect.scroll p width height x sx h = u8-lt _
index-Within Effect.fire p width height x sx h = min_heat _
index-Within Effect.ripple p width height x sx h = u8-lt _
index-Within Effect.gradient p width height x sx h = u8-lt _

filled-lt : (n : ℕ) (value old : ℕ → ℕ) (i : ℕ) → i < n → filled n value old i ≡ value i
filled-lt n value old i h = ground arith

no_index :
    (e : Effect) (p : Paint) (width height x sx : ℕ)
    → index_for e p width height x sx ≡ none
    → is_uniform e ≡ true
unfolding index_for
no_index Effect.solid p width height x sx h = refl
no_index Effect.cycle p width height x sx h = refl
no_index Effect.fade p width height x sx h = refl
no_index Effect.sparkle p width height x sx h = cc
no_index Effect.plasma p width height x sx h = cc
no_index Effect.stripes p width height x sx h = cc
no_index Effect.wave p width height x sx h = cc
no_index Effect.scroll p width height x sx h = cc
no_index Effect.fire p width height x sx h = cc
no_index Effect.ripple p width height x sx h = cc
no_index Effect.gradient p width height x sx h = cc

table_len-le : (e : Effect) (pal : List ℕ) → length pal ≤ 8 → table_len e pal ≤ 256
unfolding table_len
table_len-le e pal h = elim e as (λ k. table_len k pal ≤ 256) [
  | Effect.sparkle ↦ omega (arith, h)
  | Effect.solid ↦ omega arith
  | Effect.cycle ↦ omega arith
  | Effect.fade ↦ omega arith
  | _ ↦ omega arith
]

module _ (depth fx_frame : ℕ) (old : ℕ → ℕ) (c : Color) where
  abbrev paint : ℕ → ℕ → Paint
  paint height y = paint_row (paint_of depth fx_frame old c) height y

  looked_up_lem :
      (width height x y : ℕ) (o : Option ℕ)
      → effect_index (paint height y) width height x ≡ o
      → ((i : ℕ) × (i < table_len c.effect (effect_palette c))
          × (looked_up (paint height y) o
              ≡ spread depth (table_color c.effect (effect_palette c) i)))
        ⊎ (looked_up (paint height y) o
            ≡ spread depth
                (uniform_color c (effect_palette c) (fx_frame * c.speed % 2 ^ 32 % 2 ^ 8)))
  unfolding looked_up paint_row paint_of effect_index
  looked_up_lem width height x y none h =
      let flat = no_index c.effect (paint height y) width height x (zoomed (paint height y) x) h in
      inr (rw flat refl)
  looked_up_lem width height x y (some i) h =
      let inside : Within (table_len c.effect (effect_palette c)) (some i) =
        subst (Within (table_len c.effect (effect_palette c))) h (
          index-Within c.effect (paint height y) width height x (zoomed (paint height y) x)
            (palette-pos c)) in
      inl (
        i,
        inside,
        filled-lt _ (λ z. spread depth (table_color c.effect (effect_palette c) z)) old i inside,
      )

  -- Every pixel of a display has a colour that `paint_of` has made for this frame, the uniform one or
  -- an entry that it has written to the table, whatever the table held before; the entries lie within
  -- the table for a palette of at most 8 colours.
  pub painted :
      (width height x y : ℕ)
      → length (effect_palette c) ≤ 8
      → let color = paint_at (paint_row (paint_of depth fx_frame old c) height y) width height x in
        let len = table_len c.effect (effect_palette c) in
        (len ≤ paint_lut_len)
        × (((i : ℕ) × (i < len)
              × (color ≡ spread depth (table_color c.effect (effect_palette c) i)))
            ⊎ (color
                ≡ spread depth
                    (uniform_color c (effect_palette c) (fx_frame * c.speed % 2 ^ 32 % 2 ^ 8))))
  unfolding paint_at
  painted width height x y few =
      (table_len-le c.effect (effect_palette c) few, looked_up_lem width height x y _ refl)
