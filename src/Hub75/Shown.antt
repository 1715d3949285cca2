-- ===== src/Hub75/Shown.antt =====
-- From an accepted configuration of hub75_task.c to what its frame shows.
use nodem_nrf.Base.{ℕ, ◌+◌, ◌*◌, ◌^◌, ◌<◌, ◌≡◌, sym, ap, ◌∙◌, arith, some}
use nodem_nrf.Hub75.{MatrixConfig, Driver, derive, IsMatrix}
use nodem_nrf.Hub75.Alloc.{Buffers, driving, hub75_alloc, drive_len_of}
use nodem_nrf.Hub75.Alloc.Layout.{IsLaidOut, IsLargest, alloc_lem}
use nodem_nrf.Hub75.Chain.Places.{IsDriver}
use nodem_nrf.Hub75.Chain.Rows.{entry-lt, row_pos-lt}
use nodem_nrf.Hub75.Derived.{blocks_of, derive-IsDriver, derive-IsSmall, full_len}
use nodem_nrf.Hub75.Digits.{digits-lt}
use nodem_nrf.Hub75.Frame.{Memory, draw_rows}
use nodem_nrf.Hub75.Frame.Draw.{IsDriven, entry, plane_at, draw_rows-drawn, draw_rows-IsFrame}
use nodem_nrf.Hub75.Frame.Planes.{IsFrame, plane_of}

-- `memset(frame, 0, frame_bytes)`
abbrev pub blank : Memory
blank i = 0

driving-IsDriver : (d : Driver) (panels len : ℕ) → IsDriver d → IsDriver (driving d panels len)
driving-IsDriver d panels len v = record {
  panel_w_pos = v.panel_w_pos;
  scan_pos = v.scan_pos;
  blocks_pos = v.blocks_pos;
  width = v.width;
  height = v.height;
  panel_h = v.panel_h;
  piece_pos = v.piece_pos;
  pieces = v.pieces;
  chain = v.chain;
  chain_small = v.chain_small;
  grid_pos = v.grid_pos;
  depth_range = v.depth_range;
}

module _ (c : MatrixConfig) (v : IsMatrix c) (few : blocks_of c < 2 ^ 8) where
  module _ (d : Driver) (b : Buffers) (alloc : hub75_alloc (derive c) ≡ (d, some b)) where
    started : IsLaidOut d b × IsLargest (derive c) d
    started = alloc_lem (derive c) d b (derive-IsSmall c v few) alloc

    started-IsDriver : IsDriver d
    started-IsDriver =
        rw started.1.same
          (driving-IsDriver (derive c) d.drive_panels d.drive_len (derive-IsDriver c v few))

    pub started_active : d.active ≡ c
    unfolding derive
    started_active = ap (λ (z : Driver). z.active) started.1.same

    -- Let the parser's conditions hold, let a panel have less than 256 blocks of rows, and let
    -- `hub75_alloc` succeed. In a frame that has been drawn over a blank one, each pixel of the panels that
    -- are driven has the bits of its own colour in every bit plane, whatever the layout, the grid,
    -- the chain and the scan; they lie within the buffer for the frame, and every byte of it is an
    -- index into `lut_px`.
    pub all_drawn :
        (color : ℕ → ℕ → ℕ) (x y k : ℕ)
        → x < c.width
        → y < c.height
        → IsDriven d x y
        → k < d.depth
        → let f = draw_rows d color c.height 0 blank in
          (plane_at d f x y k ≡ plane_of (color x y) k)
          × (entry d x y * d.depth + k < d.scan_rows * d.drive_len * d.depth)
          × IsFrame f
    all_drawn color x y k hx hy driven hk =
        let height = ap (λ (z : MatrixConfig). z.height) started_active in
        let width = ap (λ (z : MatrixConfig). z.width) started_active in
        let inside = entry-lt d started-IsDriver x y driven in
        let ok : IsFrame blank = λ i. omega arith in
        rw (← height) (
          draw_rows-drawn d started-IsDriver color x y k (omega (arith, width, hx))
              (omega (arith, height, hy)) driven hk d.active.height 0 blank (omega arith)
              (omega arith) (omega (arith, height, hy)) ok,
          digits-lt (entry d x y) d.depth k (d.scan_rows * d.drive_len) inside hk,
          draw_rows-IsFrame d started-IsDriver color d.active.height 0 blank ok,
        )

    -- Every pixel of the display is on a driven panel where all panels are driven.
    pub all-IsDriven :
        (x y : ℕ) → x < c.width → y < c.height → d.drive_panels ≡ d.total_panels → IsDriven d x y
    all-IsDriven x y hx hy all =
        let chain : d.chain_len ≡ (derive c).chain_len =
          ap (λ (z : Driver). z.chain_len) started.1.same in
        let total : d.total_panels ≡ (derive c).total_panels =
          ap (λ (z : Driver). z.total_panels) started.1.same in
        let len =
          started.1.len
          ∙ ap (drive_len_of (derive c)) (all ∙ total)
          ∙ full_len c v few
          ∙ sym chain in
        let height = ap (λ (z : MatrixConfig). z.height) started_active in
        let width = ap (λ (z : MatrixConfig). z.width) started_active in
        let on_chain =
          row_pos-lt d started-IsDriver x y (omega (arith, width, hx))
            (omega (arith, height, hy)) in
        omega (arith, on_chain, len)
