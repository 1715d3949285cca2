-- ===== src/PkgStore.antt =====
-- pkg_store.c: the staging area of a package in raw flash. The flash map and its driver are
-- arguments, a device that each call changes.
pub mod Blocks
use nodem_nrf.Base.{
  ℕ, ◌+◌, ◌-◌, ◌*◌, ◌/◌, ◌^◌, ◌%◌, Bool, true, false, not, List, [], ◌∷◌, ◌++◌, Option, none, some,
  ℤ, pos, leb, ltb, ◌==◌, if◌then◌else◌, length, replicate,
}
use nodem_nrf.Base.Errno.{ok, einval, enospc, is_ok}
use nodem_nrf.Text.{Bytes}

-- The flash area "pkg" on a device `D`: `open` and its error, the size of its pages (`none` where
-- the driver does not tell), the driver's write block, and the two changes with their errors.
pub record FlashArea (D : Type 0) : Type 0 where
  pub open_area : D → ℤ
  pub page_size : Option ℕ
  pub write_block : ℕ
  pub fa_size : ℕ
  pub erase : D → ℕ → ℕ → ℤ × D
  pub write : D → ℕ → Bytes → ℤ × D

abbrev pub pkg_store_max_chunk : ℕ
pkg_store_max_chunk = 512

-- `size_t` has 32 bits. The remainder and the product below cannot wrap.
unfoldable pub align_up : ℕ → ℕ → ℕ
align_up val align = ((val + align + 2 ^ 32 - 1) % 2 ^ 32) / align * align

block_or : Option ℕ → ℕ
block_or none = 4096
block_or (some n) = n

unfoldable pub pkg_store_erase : {D : Type 0} → FlashArea D → D → ℕ → ℤ × D
unfolding block_or
pkg_store_erase fa d len =
    let err = fa.open_area d in
    let erase_len = align_up len (block_or fa.page_size) in
    if not (is_ok err)
    then (err, d)
    else if ltb fa.fa_size erase_len
    then (enospc, d)
    else fa.erase d 0 erase_len

-- What `pkg_store_write` hands to the driver.
unfoldable pub padded : ℕ → Bytes → Bytes
padded write_block buf =
    let aligned_len = align_up (length buf) write_block in
    if aligned_len == length buf then buf else buf ++ replicate (aligned_len - length buf) 0xff

unfoldable pub pkg_store_write : {D : Type 0} → FlashArea D → D → ℕ → Bytes → ℤ × D
pkg_store_write fa d offset buf =
    let err = fa.open_area d in
    if ltb pkg_store_max_chunk (length buf)
    then (einval, d)
    else if not (is_ok err)
    then (err, d)
    else fa.write d offset (padded fa.write_block buf)
