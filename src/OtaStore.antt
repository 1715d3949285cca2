-- ===== src/OtaStore.antt =====
-- ota_store.c: writing a firmware image into MCUboot's secondary slot. The image writer, the flash
-- area and the bootloader's request are arguments, a device that each call changes.
pub mod Upload
use nodem_nrf.Base.{ℕ, Bool, true, false, not, List, [], ◌∷◌, ℤ, ltb, ◌==◌, if◌then◌else◌}
use nodem_nrf.Base.Errno.{ok, einval, eio, enospc, is_ok}
use nodem_nrf.Text.{Bytes}

pub record FlashImg (D : Type 0) : Type 0 where
  pub capacity : ℕ
  pub init : D → ℤ × D
  pub buffered_write : D → Bytes → Bool → ℤ × D
  pub bytes_written : D → ℕ
  pub open_area : D → ℤ
  -- The error of reading the slot's first word, and what was read.
  pub read_magic : D → ℤ × ℕ
  pub request_upgrade : D → ℤ × D

abbrev pub ota_image_magic : ℕ
ota_image_magic = 0x96f3b83d

-- The device with the image context, and `expected_len`.
pub record State (D : Type 0) : Type 0 where
  pub device : D
  pub expected_len : ℕ

module _ {D : Type 0} (f : FlashImg D) where
  unfoldable pub ota_store_start : State D → ℕ → ℤ × State D
  ota_store_start s len =
      let (err, d) = f.init s.device in
      if ltb f.capacity len
      then (enospc, s)
      else if not (is_ok err)
      then (err, record s { device = d })
      else (ok, record { device = d; expected_len = len })

  unfoldable pub ota_store_write : State D → Bytes → ℤ × State D
  ota_store_write s buf =
      let (err, d) = f.buffered_write s.device buf false in (err, record s { device = d })

  -- What `ota_store_finish` does behind the length check.
  check_header : State D → ℤ × State D
  check_header s =
      let open_err = f.open_area s.device in
      let (read_err, magic) = f.read_magic s.device in
      let (err, d) = f.request_upgrade s.device in
      if not (is_ok open_err)
      then (open_err, s)
      else if not (is_ok read_err)
      then (read_err, s)
      else if not (magic == ota_image_magic)
      then (einval, s)
      else (err, record s { device = d })

  unfoldable pub ota_store_finish : State D → ℤ × State D
  unfolding check_header
  ota_store_finish s =
      let (err, d) = f.buffered_write s.device [] true in
      let s' = record s { device = d } in
      if not (is_ok err)
      then (err, s')
      else if not (f.bytes_written d == s.expected_len)
      then (eio, s')
      else check_header s'

  -- A caller that hands over the chunks one by one and stops at the first error.
  unfoldable pub write_all : State D → List Bytes → ℤ × State D
  write_all s [] = (ok, s)
  write_all s (buf ∷ bufs) =
      let (err, s') = ota_store_write s buf in
      let rest = write_all s' bufs in if is_ok err then rest else (err, s')
