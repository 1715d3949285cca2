-- ===== src/Examples/Colors.antt =====
-- Colours and effects of the matrix.
use nodem_nrf.Base.{ℕ, ◌+◌, ◌*◌, ◌%◌, ◌^◌, ◌≤◌, ◌<◌, [], ◌∷◌, ◌≡◌, ◌⊎◌, arith}
use nodem_nrf.Hub75.{Effect, Color}
use nodem_nrf.Hub75.Alloc.{paint_lut_len}
use nodem_nrf.Hub75.Paint.{spread, effect_palette}
use nodem_nrf.Hub75.Paint.Spread.{lit_weight, spread_weight}
use nodem_nrf.Hub75.Paint.Effects.{
  table_len, table_color, uniform_color, paint_of, paint_row, paint_at,
}
use nodem_nrf.Hub75.Paint.Effects.Tables.{painted}

spread_weight_example :
    (lit_weight (spread 4 0xff8010) 1 4 ≤ 15)
    × (255 * lit_weight (spread 4 0xff8010) 1 4 ≤ 128 * 15 + 127)
    × (128 * 15 ≤ 255 * lit_weight (spread 4 0xff8010) 1 4 + 127)
spread_weight_example = spread_weight 4 0xff8010 1 (omega arith)

abbrev twinkle : Color
twinkle = record { effect = Effect.sparkle; speed = 4; palette = 4 ∷ 6 ∷ []; scale = 8; rgb = 0 }

painted_example :
    let color = paint_at (paint_row (paint_of 4 7 (λ i. 99) twinkle) 32 9) 64 32 20 in
    let len = table_len Effect.sparkle (effect_palette twinkle) in
    (len ≤ paint_lut_len)
    × (((i : ℕ) × (i < len)
          × (color ≡ spread 4 (table_color Effect.sparkle (effect_palette twinkle) i)))
        ⊎ (color
            ≡ spread 4 (uniform_color twinkle (effect_palette twinkle) (7 * 4 % 2 ^ 32 % 2 ^ 8))))
unfolding effect_palette
painted_example = painted 4 7 (λ i. 99) twinkle 64 32 20 9 (omega arith)
