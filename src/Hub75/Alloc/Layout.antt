-- ===== src/Hub75/Alloc/Layout.antt =====
-- The buffers that `hub75_alloc` of hub75_task.c lays out, and how many panels it drives.
use nodem_nrf.Base.{
  ℕ, zero, suc, ◌+◌, ◌*◌, ◌%◌, ◌^◌, ◌≤◌, ◌<◌, ◌≡◌, inl, inr, refl, arith, Option, none, some, ltb,
  Bool-cases, ◌==◌, ==_iff, some-inj, ap, sym,
}
use nodem_nrf.Hub75.{Driver}
use nodem_nrf.Hub75.Alloc.{
  hub75_arena_size, idle_steps, paint_lut_len, align8, Buffers, pos_bytes, cols_bytes, seq_bytes,
  frame_bytes, total_bytes, place_buffers, drive_len_of, driving, try_panels, hub75_alloc,
}

-- The buffers follow one another in the arena, each aligned and as long as its elements need.
pub record IsLaidOut (d : Driver) (b : Buffers) : Type 0 where
  pub luts :
      (b.paint_lut_0 + paint_lut_len * 8 ≤ b.paint_lut_1)
      × (b.paint_lut_1 + paint_lut_len * 8 ≤ b.seq_a_0)
  pub seq_0 :
      (b.seq_a_0 + (d.drive_len + idle_steps) * 8 ≤ b.seq_b_0)
      × (b.seq_b_0 + (d.drive_len + idle_steps) * 8 ≤ b.seq_a_1)
  pub seq_1 :
      (b.seq_a_1 + (d.drive_len + idle_steps) * 8 ≤ b.seq_b_1)
      × (b.seq_b_1 + (d.drive_len + idle_steps) * 8 ≤ b.chain_pos)
  pub chain : b.chain_pos + d.row_blocks * d.active.width * 2 ≤ b.map_cols
  pub columns : b.map_cols + d.active.width * 2 ≤ b.frame
  pub frame : b.frame + d.scan_rows * d.drive_len * d.depth ≤ hub75_arena_size
  pub aligned :
      (b.seq_a_0 % 8 ≡ 0)
      × (b.seq_b_0 % 8 ≡ 0)
      × (b.seq_a_1 % 8 ≡ 0)
      × (b.seq_b_1 % 8 ≡ 0)
      × (b.chain_pos % 8 ≡ 0)
      × (b.map_cols % 8 ≡ 0)

le_mul_right : (a b n : ℕ) → a ≤ b → a * n ≤ b * n
le_mul_right a b n h = grind arith

le_mul_left : (n a b : ℕ) → a ≤ b → n * a ≤ n * b
le_mul_left n a b h = grind arith

align8_lem : (n : ℕ) → n < 2 ^ 31 → (n ≤ align8 n) × (align8 n % 8 ≡ 0)
unfolding align8
align8_lem n h = omega arith

frame_small : (s l c : ℕ) → s ≤ 32 → l < 2 ^ 16 → c ≤ 8 → s * l * c < 2 ^ 31
frame_small s l c hs hl hc =
    let rows = le_mul_right s 32 l hs in
    let planes = le_mul_left (s * l) c 8 hc in omega (arith, rows, planes, hl)

-- The number of panels driven is the largest whose buffers fit.
pub record IsLargest (d d' : Driver) : Type 0 where
  pub some_panels : (0 < d'.drive_panels) × (d'.drive_panels ≤ d.total_panels)
  pub len : d'.drive_len ≡ drive_len_of d d'.drive_panels
  pub same : d' ≡ driving d d'.drive_panels d'.drive_len
  pub more :
      (p : ℕ)
      → d'.drive_panels < p
      → p ≤ d.total_panels
      → hub75_arena_size < total_bytes d (drive_len_of d p)

module _ (d : Driver) where
  -- No size wraps around.
  abbrev pub IsSmall : Type 0
  IsSmall =
      (d.row_blocks * d.active.width < 2 ^ 20)
      × (d.active.width < 2 ^ 16)
      × (d.scan_rows ≤ 32)
      × (d.depth ≤ 8)

  laid_out :
      (p len : ℕ)
      → IsSmall
      → len < 2 ^ 16
      → total_bytes d len ≤ hub75_arena_size
      → IsLaidOut (driving d p len) (place_buffers d len)
  unfolding place_buffers total_bytes pos_bytes cols_bytes seq_bytes frame_bytes
  laid_out p len small h fits =
      let seq = align8_lem ((len + idle_steps) * 8) (omega (arith, h)) in
      let pos = align8_lem (d.row_blocks * d.active.width * 2) (omega (arith, small)) in
      let cols = align8_lem (d.active.width * 2) (omega (arith, small)) in
      let frame = align8_lem (d.scan_rows * len * d.depth) (frame_small _ _ _ small.2 h small.3) in
      omega (arith, seq, pos, cols, frame, fits)

  drive_len-lt : (p : ℕ) → drive_len_of d p < 2 ^ 16
  unfolding drive_len_of
  drive_len-lt p = omega arith

  -- None of the numbers of panels above `n` fits.
  abbrev NoneAbove : ℕ → Type 0
  NoneAbove n =
      (p : ℕ) → n < p → p ≤ d.total_panels → hub75_arena_size < total_bytes d (drive_len_of d p)

  next_above :
      (n : ℕ)
      → NoneAbove (suc n)
      → hub75_arena_size < total_bytes d (drive_len_of d (suc n))
      → NoneAbove n
  next_above n above here p h le = elim (Bool-cases (p == suc n)) [
    | inl same ↦ rw ((==_iff p (suc n)).0 same) here
    | inr other ↦ above p (ground arith) le
  ]

  try_lem :
      (n : ℕ) (d' : Driver) (b : Buffers)
      → IsSmall
      → n ≤ d.total_panels
      → NoneAbove n
      → try_panels d n ≡ (d', some b)
      → IsLaidOut d' b × IsLargest d d'
  unfolding try_panels
  try_lem zero d' b small le above h = cc (ap (λ (r : Driver × Option Buffers). r.1) h)
  try_lem (suc n) d' b small le above h =
      elim (Bool-cases (ltb hub75_arena_size (total_bytes d (drive_len_of d (suc n))))) [
        | inl large ↦
            try_lem n d' b small (omega (arith, le)) (next_above n above (ground arith))
              (rw large at h)
        | inr fits ↦
            let found = rw fits at h in
            let driver = ap (λ (r : Driver × Option Buffers). r.0) found in
            let buffers = some-inj (ap (λ (r : Driver × Option Buffers). r.1) found) in
            rw (sym driver, sym buffers)
              (
                laid_out (suc n) _ small (drive_len-lt (suc n)) (ground arith),
                record { some_panels = (omega arith, le); len = refl; same = refl; more = above },
              )
      ]

  -- Where `hub75_alloc` succeeds, no two of the buffers overlap, each is aligned for its elements
  -- and holds as many as the configuration needs, and all end within the arena. The panels driven
  -- are as many as fit. The sizes of the configuration are small enough for the arithmetic.
  pub alloc_lem :
      (d' : Driver) (b : Buffers)
      → IsSmall
      → hub75_alloc d ≡ (d', some b)
      → IsLaidOut d' b × IsLargest d d'
  unfolding hub75_alloc
  alloc_lem d' b small h =
      try_lem d.total_panels d' b small (omega arith) (λ p above le. absurd (omega arith)) h

  fails_lem :
      (n : ℕ) (d' : Driver)
      → NoneAbove n
      → try_panels d n ≡ (d', none)
      → (d'.drive_len ≡ 0) × NoneAbove 0
  unfolding try_panels
  fails_lem zero d' above h =
      let driver = ap (λ (r : Driver × Option Buffers). r.0.drive_len) h in (sym driver, above)
  fails_lem (suc n) d' above h =
      elim (Bool-cases (ltb hub75_arena_size (total_bytes d (drive_len_of d (suc n))))) [
        | inl large ↦ fails_lem n d' (next_above n above (ground arith)) (rw large at h)
        | inr fits ↦ cc (ap (λ (r : Driver × Option Buffers). r.1) (rw fits at h))
      ]

  -- `hub75_alloc` fails only where not even one panel fits, and then nothing is driven.
  pub alloc_fails :
      (d' : Driver)
      → hub75_alloc d ≡ (d', none)
      → 0 < d.total_panels
      → (d'.drive_len ≡ 0) × (hub75_arena_size < total_bytes d (drive_len_of d 1))
  unfolding hub75_alloc
  alloc_fails d' h panels =
      let (len, none_fits) = fails_lem d.total_panels d' (λ p above le. absurd (omega arith)) h in
      (len, none_fits 1 (omega arith) (omega (arith, panels)))
