-- ===== src/Hub75/Paint/Effects.antt =====
-- hub75_task.c: `paint_of`, `paint_row` and `effect_at`, the colour of a pixel in a frame of an effect.
pub mod Tables
use nodem_nrf.Base.{
  ℕ, zero, suc, ◌+◌, ◌-◌, ◌*◌, ◌/◌, ◌%◌, ◌^◌, min, max, Bool, true, false, List, Option, none, some,
  ℤ, pos, negsuc, pos_part, sub_ℕ, ◌+ℤ◌, leb_ℤ, ltb, leb, ◌==◌, if◌then◌else◌, length,
}
use nodem_nrf.Hub75.{Effect, Color}
use nodem_nrf.Hub75.Colors.{scale_default}
use nodem_nrf.Hub75.Paint.{
  color_rgb24, spread, u8, shift_right, entry_at, sin8, effect_palette, hash3, blend, pick,
  pick_ramp, sparkle_steps, sparkle_level,
}

-- `pal` has the first `n` entries of the array, `lut` those of `paint_luts[slot]` by their index.
pub record Paint : Type 0 where
  pub effect : Effect
  pub uniform : ℕ
  pub lut : ℕ → ℕ
  pub t : ℕ
  pub pal : List ℕ
  pub zoom : ℕ
  pub sy : ℕ
  pub row : ℤ

-- A table whose first `n` entries are written.
abbrev pub filled : ℕ → (ℕ → ℕ) → (ℕ → ℕ) → ℕ → ℕ
filled n value old i = if ltb i n then value i else old i

unfoldable pub fade_color : List ℕ → ℕ → ℕ
fade_color pal ph =
    let p = ph * length pal in
    let c = entry_at pal (p / 2 ^ 8 % 2 ^ 8) in
    blend c c 0 (pos_part (sin8 (p % 2 ^ 8 / 2)) * 128 / 127 % 2 ^ 8)

-- Entry `i` of the table of "sparkle": colour i / 32 at level i % 32.
unfoldable pub sparkle_color : List ℕ → ℕ → ℕ
sparkle_color pal i =
    let c = entry_at pal (i / sparkle_steps) in blend c c 0 (sparkle_level (i % sparkle_steps))

-- How many entries of the table the effect writes, and their colours.
unfoldable pub table_len : Effect → List ℕ → ℕ
table_len Effect.solid pal = 0
table_len Effect.cycle pal = 0
table_len Effect.fade pal = 0
table_len Effect.sparkle pal = length pal * sparkle_steps
table_len e pal = 256

unfoldable pub table_color : Effect → List ℕ → ℕ → ℕ
table_color Effect.sparkle pal i = sparkle_color pal i
table_color Effect.fire pal i = pick_ramp pal i
table_color e pal i = pick pal i

unfoldable pub uniform_color : Color → List ℕ → ℕ → ℕ
uniform_color c pal ph = elim c.effect [
  | Effect.solid ↦ color_rgb24 c.rgb
  | Effect.cycle ↦ pick pal ph
  | Effect.fade ↦ fade_color pal ph
  | _ ↦ 0
]

abbrev pub is_uniform : Effect → Bool
is_uniform Effect.solid = true
is_uniform Effect.cycle = true
is_uniform Effect.fade = true
is_uniform e = false

-- For `fx_frame` and the running depth, on the table `old`.
unfoldable pub paint_of : ℕ → ℕ → (ℕ → ℕ) → Color → Paint
paint_of depth fx_frame old c =
    let pal = effect_palette c in
    let t = fx_frame * c.speed % 2 ^ 32 in
    record {
      effect = c.effect;
      uniform = if is_uniform c.effect then spread depth (uniform_color c pal (t % 2 ^ 8)) else 0;
      lut = filled (table_len c.effect pal) (λ i. spread depth (table_color c.effect pal i)) old;
      t = t;
      pal = pal;
      zoom = if c.scale == 0 then 256 else scale_default * 2 ^ 8 / c.scale;
      sy = 0;
      row = pos 0;
    }

abbrev pub phase : Paint → ℕ
phase p = p.t % 2 ^ 8

abbrev pub zoomed : Paint → ℕ → ℕ
zoomed p v = v * p.zoom / 2 ^ 8

-- `abs(a - b)`
abbrev pub distance : ℕ → ℕ → ℕ
distance a b = (a - b) + (b - a)

unfoldable pub row_term : Paint → ℕ → ℕ → ℤ
row_term p height y = elim p.effect [
  | Effect.plasma ↦ sin8 (u8 (sub_ℕ (zoomed p y * 7) (2 * phase p)))
  | Effect.fire ↦ pos (height - 1 - y)
  | Effect.ripple ↦ pos (zoomed p (distance y (height / 2)))
  | _ ↦ pos 0
]

unfoldable pub paint_row : Paint → ℕ → ℕ → Paint
paint_row p height y = record p { sy = zoomed p y; row = row_term p height y }

-- `CLAMP(heat, 0, 255)`
abbrev pub clamp_heat : ℤ → ℕ
clamp_heat heat = min (pos_part heat) 255

unfoldable pub plasma_index : Paint → ℕ → ℕ
plasma_index p sx =
    let ph = phase p in
    let v = (sin8 (u8 (pos (sx * 5 + ph))) +ℤ p.row) +ℤ sin8 (u8 (pos ((sx + p.sy) * 4 + ph))) in
    u8 (shift_right v 1 +ℤ pos ph)

unfoldable pub ripple_index : Paint → ℕ → ℕ → ℕ
ripple_index p width x =
    let dx = zoomed p (distance x (width / 2)) in
    let dy = pos_part p.row in
    let d = max dx dy + min dx dy * 3 / 8 in u8 (sub_ℕ (d * 12) (phase p))

unfoldable pub fire_index : Paint → ℕ → ℕ → ℕ → ℕ
fire_index p height x sx =
    let up = pos_part p.row in
    let rise = p.t / 4 in
    let cell = hash3 (sx / 2) ((zoomed p up + rise) % 2 ^ 32 / 2) 0 % 2 ^ 8 in
    let flicker = sub_ℕ (hash3 x up p.t % 2 ^ 6) 32 in
    let glow = if ltb up 2 then 80 else 0 in
    clamp_heat ((pos (cell * (height - up) / height) +ℤ flicker) +ℤ pos glow)

unfoldable pub sparkle_index : Paint → ℕ → ℕ
sparkle_index p sx =
    let seed = hash3 sx p.sy 1 in
    let local = (p.t + seed % 2 ^ 8) % 2 ^ 32 in
    let r = hash3 sx p.sy (local / sparkle_steps + 2) in
    let i = r / 2 ^ 8 % 2 ^ 8 * length p.pal / 2 ^ 8 in i * sparkle_steps + local % sparkle_steps

-- The entry of the table for pixel x of the row, which is pattern coordinate `sx`; `none` for
-- `uniform`.
unfoldable pub index_for : Effect → Paint → ℕ → ℕ → ℕ → ℕ → Option ℕ
index_for Effect.plasma p width height x sx = some (plasma_index p sx)
index_for Effect.stripes p width height x sx = some (u8 (sub_ℕ ((sx + p.sy) * 8) (phase p)))
index_for Effect.wave p width height x sx =
    some (u8 (pos (p.sy * 8) +ℤ shift_right (sin8 (u8 (pos (sx * 8 + phase p)))) 2))
index_for Effect.scroll p width height x sx = some (u8 (sub_ℕ (sx * 4) (phase p)))
index_for Effect.gradient p width height x sx = some (u8 (pos ((sx + p.sy) * 4)))
index_for Effect.ripple p width height x sx = some (ripple_index p width x)
index_for Effect.fire p width height x sx = some (fire_index p height x sx)
index_for Effect.sparkle p width height x sx = some (sparkle_index p sx)
index_for e p width height x sx = none

unfoldable pub effect_index : Paint → ℕ → ℕ → ℕ → Option ℕ
effect_index p width height x = index_for p.effect p width height x (zoomed p x)

unfoldable pub looked_up : Paint → Option ℕ → ℕ
looked_up p none = p.uniform
looked_up p (some i) = p.lut i

-- `paint_at`, which is `effect_at` for an effect.
unfoldable pub paint_at : Paint → ℕ → ℕ → ℕ → ℕ
paint_at p width height x = looked_up p (effect_index p width height x)
