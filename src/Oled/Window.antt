-- ===== src/Oled/Window.antt =====
-- display_task.c: the columns of the display RAM that the panel's frame is written to.
use nodem_nrf.Base.{
  ℕ, ◌+◌, ◌%◌, ◌/◌, ◌^◌, ◌≤◌, ◌<◌, Bool, ◌||◌, ◌&&◌, List, [], ◌∷◌, inl, inr, sym, Bool-cases,
  some-inj, ◌≡◌, ◌↔◌, some, arith, ℤ, pos, negsuc, pos_part, neg_part, sub_ℕ, ◌+ℤ◌, ◌≤ℤ◌, ltb_ℤ,
  ◌==◌, if◌then◌else◌,
}
use nodem_nrf.Oled.{OledConfig, OledSize, oled_size_find, size_find, oled_sizes}

abbrev pub ssd1306_ram_cols : ℕ
ssd1306_ram_cols = 128

unfoldable pub rotation_flips_cols : ℕ → Bool
rotation_flips_cols rotation = (rotation == 90) || (rotation == 180)

-- What `display_task` keeps of the window, each a `uint8_t`.
pub record Window : Type 0 where
  pub col : ℕ
  pub cols : ℕ
  pub skip : ℕ
  pub pages : ℕ

-- a - b
abbrev pub sub_ℤ : ℤ → ℤ → ℤ
sub_ℤ a b = sub_ℕ (pos_part a + neg_part b) (pos_part b + neg_part a)

abbrev pub min_ℤ : ℤ → ℤ → ℤ
min_ℤ a b = if ltb_ℤ a b then a else b

-- `start`, which is mirrored where the controller flips the columns.
unfoldable pub window_start : OledSize → OledConfig → ℤ
window_start size c =
    let start = size.offset_x + c.x in
    if rotation_flips_cols c.rotation
    then sub_ℤ (sub_ℤ (pos ssd1306_ram_cols) (pos start)) (pos c.width)
    else pos start

-- The window for a `start`; a maximum with 0 is the positive part.
unfoldable pub window_at : ℤ → OledConfig → Window
window_at start c =
    let skip = neg_part start % 2 ^ 8 in
    let visible = min_ℤ (pos c.width) (sub_ℤ (pos ssd1306_ram_cols) start) in
    record {
      col = pos_part (start +ℤ pos skip) % 2 ^ 8;
      cols = pos_part (sub_ℤ visible (pos skip)) % 2 ^ 8;
      skip = skip;
      pages = (c.height / 8) % 2 ^ 8;
    }

unfoldable pub window : OledSize → OledConfig → Window
window size c = window_at (window_start size c) c

-- What the sizes of the driver have in common.
AllFit : List OledSize → Type 0
AllFit [] = Unit
AllFit (o ∷ sizes) = (o.offset_x ≤ 32) × (o.width ≤ 128) × AllFit sizes

found_fits :
    (sizes : List OledSize) (w h : ℕ) (size : OledSize)
    → AllFit sizes
    → size_find sizes w h ≡ some size
    → (size.offset_x ≤ 32) × (w ≤ 128)
unfolding size_find AllFit
found_fits [] w h size fit found = cc
found_fits (o ∷ sizes) w h size (off, width, fit) found =
    elim (Bool-cases (o.width == w && o.height == h)) [
      | inl same ↦
          let w_eq : o.width ≡ w = ground arith in
          let o_eq : o ≡ size = some-inj (rw same at found) in
          (rw (sym o_eq) off, rw (sym w_eq) width)
      | inr other ↦ found_fits sizes w h size fit (rw other at found)
    ]

found_small :
    (w h : ℕ) (size : OledSize) → oled_size_find w h ≡ some size → (size.offset_x ≤ 32) × (w ≤ 128)
unfolding oled_size_find AllFit
found_small w h size found = found_fits oled_sizes w h size (ground arith) found

-- Neither end is out of the range of the casts.
start_range :
    (size : OledSize) (c : OledConfig)
    → size.offset_x ≤ 32
    → c.width ≤ 128
    → c.x < 128
    → (neg_part (window_start size c) < 256) × (pos_part (window_start size c) < 256)
unfolding window_start rotation_flips_cols
start_range size c off w x = (ground arith, ground arith)

window_at_lem :
    (start : ℤ) (c : OledConfig) (i : ℕ)
    → neg_part start < 256
    → pos_part start < 256
    → c.width ≤ 128
    → let w = window_at start c in
      (pos w.col ≡ start +ℤ pos w.skip)
      × (((w.skip ≤ i) × (i < w.skip + w.cols))
          ↔ ((i < c.width) × (pos 0 ≤ℤ (start +ℤ pos i)) × ((start +ℤ pos i) ≤ℤ pos 127)))
unfolding window_at ◌+ℤ◌
window_at_lem (pos n) c i l u w = (ground arith, (λ s. ground arith, λ s. ground arith))
window_at_lem (negsuc n) c i l u w = (ground arith, (λ s. ground arith, λ s. ground arith))

-- The window holds exactly the columns of the panel's frame that lie in the display RAM, from the
-- column `start` on, and its first column is where the first of them belongs. The size is the one
-- that the driver has for the panel, and the offset is in the range that the parser accepts.
pub window_columns :
    (size : OledSize) (c : OledConfig) (i : ℕ)
    → oled_size_find c.width c.height ≡ some size
    → c.x < 128
    → let w = window size c in
      let start = window_start size c in
      (pos w.col ≡ start +ℤ pos w.skip)
      × (((w.skip ≤ i) × (i < w.skip + w.cols))
          ↔ ((i < c.width) × (pos 0 ≤ℤ (start +ℤ pos i)) × ((start +ℤ pos i) ≤ℤ pos 127)))
unfolding window
window_columns size c i found x =
    let (off, w) = found_small c.width c.height size found in
    let (l, u) = start_range size c off w x in window_at_lem (window_start size c) c i l u w
