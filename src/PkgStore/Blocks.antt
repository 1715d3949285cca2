-- ===== src/PkgStore/Blocks.antt =====
-- Whole blocks: what is erased covers the package, and what is written is a whole number of blocks.
use native.Mathlib.Nat.{add-zero, mul-mod_left}
use nodem_nrf.Base.{
  ℕ, ◌+◌, ◌-◌, ◌*◌, ◌/◌, ◌%◌, ◌^◌, ◌≤◌, ◌<◌, false, ◌++◌, append-nil, ◌≡◌, refl, sym, ap, ◌⊎◌, inl,
  inr, some, arith, ltb, ◌==◌, Bool-cases, length, length-append, length-replicate, replicate,
  ==_iff,
}
use nodem_nrf.Base.Errno.{is_ok}
use nodem_nrf.PkgStore.{align_up, padded, pkg_store_erase, FlashArea}
use nodem_nrf.Text.{Bytes}

align_up_plain :
    (val align : ℕ)
    → 0 < align
    → val + align ≤ 2 ^ 32
    → align_up val align ≡ (val + (align - 1)) / align * align
unfolding align_up
align_up_plain val align h small = ap (λ n. n / align * align) (omega arith)

-- `align_up` gives the least multiple of the block that holds `val` bytes.
pub align_up_lem :
    (val align : ℕ)
    → 0 < align
    → val + align ≤ 2 ^ 32
    → (val ≤ align_up val align)
      × (align_up val align < val + align)
      × (align_up val align % align ≡ 0)
align_up_lem val align h small =
    rw (align_up_plain val align h small)
      (grind arith, grind arith, mul-mod_left ((val + (align - 1)) / align) align)

-- The bytes handed to the driver are the caller's, and behind them only 0xFF up to a whole number
-- of write blocks, less than one block more.
pub padded_lem :
    (write_block : ℕ) (buf : Bytes)
    → 0 < write_block
    → length buf + write_block ≤ 2 ^ 32
    → (n : ℕ) × (padded write_block buf ≡ buf ++ replicate n 0xff)
      × (n < write_block)
      × ((length buf + n) % write_block ≡ 0)
unfolding padded
padded_lem write_block buf h small =
    let (ge, lt, whole) = align_up_lem (length buf) write_block h small in
    let n = align_up (length buf) write_block - length buf in
    elim (Bool-cases (align_up (length buf) write_block == length buf)) [
      | inl same ↦
          let e = (==_iff (align_up (length buf) write_block) (length buf)).0 same in
          (0, rw same (sym (append-nil buf)), h, rw (add-zero, ← e) whole)
      | inr more ↦
          let e : length buf + n ≡ align_up (length buf) write_block = omega arith in
          (n, rw more refl, omega arith, rw e whole)
    ]

-- The buffer `padded` of `pkg_store_write` has room for 16 bytes more than a chunk: a device whose
-- write block is at most that overruns nothing.
pub length-padded-le :
    (write_block : ℕ) (buf : Bytes)
    → 0 < write_block
    → write_block ≤ 16
    → length buf ≤ 512
    → length (padded write_block buf) ≤ 512 + 16
length-padded-le write_block buf h b l =
    let (n, e, lt, w) = padded_lem write_block buf h (omega arith) in
    omega
      (arith, ap length e, length-append buf (replicate n 0xff), length-replicate {A = ℕ} n 0xff)

-- Where the driver tells a positive page size and `len` and a page are together at most 2^32: an erase that
-- reaches the driver starts at 0, covers `len` bytes in whole pages and stays within the partition;
-- any other call returns an error and changes nothing.
pub erase_covers :
    {D : Type 0} (fa : FlashArea D) (d : D) (len page : ℕ)
    → fa.page_size ≡ some page
    → 0 < page
    → len + page ≤ 2 ^ 32
    → ((is_ok (pkg_store_erase fa d len).0 ≡ false) × ((pkg_store_erase fa d len).1 ≡ d))
      ⊎ ((n : ℕ) × (pkg_store_erase fa d len ≡ fa.erase d 0 n)
          × (len ≤ n)
          × (n ≤ fa.fa_size)
          × (n % page ≡ 0))
unfolding pkg_store_erase
erase_covers fa d len page p h small =
    let (ge, lt, whole) = align_up_lem len page h small in
    elim (Bool-cases (is_ok (fa.open_area d))) [
      | inr failed ↦ inl (rw failed (failed, refl))
      | inl opened ↦ elim (Bool-cases (ltb fa.fa_size (align_up len page))) [
        | inl large ↦ inl (simp (opened, p, large) (refl, refl))
        | inr fits ↦ inr (align_up len page, simp (opened, p, fits), ge, ground arith, whole)
      ]
    ]
