-- ===== src/Hub75/Frame.antt =====
-- The frame that the interrupt reads, and how a pixel is written to it.
pub mod Halves
pub mod Planes
pub mod Draw
use Prim.Native.Nat.{bit_and, bit_or}
use nodem_nrf.Base.{ℕ, zero, suc, ◌+◌, ◌-◌, ◌*◌, ◌/◌, ◌%◌, ◌^◌, ◌<◌, leb, ◌==◌, if◌then◌else◌}
use nodem_nrf.Hub75.{Driver}
use nodem_nrf.Hub75.Chain.{FrameRow, frame_locate_row, row_pos}

-- The bytes of `frame` by their index.
abbrev pub Memory : Type 0
Memory = ℕ → ℕ

abbrev pub write : Memory → ℕ → ℕ → Memory
write f i v j = if i == j then v else f j

-- `(e[k] & keep) | ((planes & 0x07) << r->shift)` with its `keep`.
unfoldable pub set_half : ℕ → ℕ → ℕ → ℕ
set_half shift byte planes = bit_or (bit_and byte (255 - 7 * 2 ^ shift)) (planes % 8 * 2 ^ shift)

-- The rounds of the loop over the bit planes from `e` on.
unfoldable pub set_planes : ℕ → ℕ → ℕ → ℕ → Memory → Memory
set_planes zero e shift planes f = f
set_planes (suc n) e shift planes f =
    set_planes n (e + 1) shift (planes / 2 ^ 8) (write f e (set_half shift (f e) planes))

unfoldable pub frame_row_set : Driver → FrameRow → ℕ → ℕ → Memory → Memory
frame_row_set d r x planes f =
    let pos = row_pos d r x in
    if leb d.drive_len pos then f else set_planes d.depth ((r.end - pos) * d.depth) r.shift planes f

-- The loop over the columns of one row, and the loop over the rows, of a frame whose pixels have
-- the colours `color`.
unfoldable pub draw_row : Driver → (ℕ → ℕ → ℕ) → ℕ → ℕ → ℕ → Memory → Memory
draw_row d color y zero x f = f
draw_row d color y (suc n) x f =
    draw_row d color y n (x + 1) (frame_row_set d (frame_locate_row d y) x (color x y) f)

unfoldable pub draw_rows : Driver → (ℕ → ℕ → ℕ) → ℕ → ℕ → Memory → Memory
draw_rows d color zero y f = f
draw_rows d color (suc n) y f = draw_rows d color n (y + 1) (draw_row d color y d.active.width 0 f)
