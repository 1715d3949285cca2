-- ===== src/OtaStore/Upload.antt =====
-- When an upgrade is requested.
use nodem_nrf.Base.{
  ℕ, ◌+◌, ◌≤◌, Bool, true, false, List, [], ◌∷◌, ◌≡◌, refl, ap, ◌∙◌, ◌⊎◌, inl, inr, arith, ◌==◌,
  Bool-cases, length, ==_iff,
}
use nodem_nrf.Base.Errno.{is_ok}
use nodem_nrf.OtaStore.{
  FlashImg, State, ota_image_magic, ota_store_start, ota_store_write, ota_store_finish, write_all,
}
use nodem_nrf.Text.{Bytes}

false-ne-true : {b : Bool} → b ≡ true → b ≡ false → ⊥
false-ne-true h k = cc

-- The image is complete: the last flush succeeds, what was written then is the announced length, and
-- the slot can be opened and read and begins with MCUboot's magic.
pub record Complete {D : Type 0} (f : FlashImg D) (s : State D) : Type 0 where
  pub flush_ok : is_ok (f.buffered_write s.device [] true).0 ≡ true
  pub length_ok : f.bytes_written (f.buffered_write s.device [] true).1 ≡ s.expected_len
  pub open_ok : is_ok (f.open_area (f.buffered_write s.device [] true).1) ≡ true
  pub read_ok : is_ok (f.read_magic (f.buffered_write s.device [] true).1).0 ≡ true
  pub magic_ok : (f.read_magic (f.buffered_write s.device [] true).1).1 ≡ ota_image_magic

module _ {D : Type 0} (f : FlashImg D) where
  -- Exactly one of two: the image is complete (it is flushed, has the announced length, and its slot
  -- can be opened and read and begins with the magic), and the result is that of the bootloader's
  -- request; or it is not complete, an error is returned and the device is only flushed, so no upgrade
  -- is requested.
  pub finish_cases :
      (s : State D)
      → let flushed = (f.buffered_write s.device [] true).1 in
        let (err, s') = ota_store_finish f s in
        (Complete f s
          × (err ≡ (f.request_upgrade flushed).0)
          × (s'.device ≡ (f.request_upgrade flushed).1))
        ⊎ ((¬ Complete f s) × (is_ok err ≡ false) × (s'.device ≡ flushed))
  unfolding ota_store_finish
  finish_cases s =
      let d = (f.buffered_write s.device [] true).1 in
      elim (Bool-cases (is_ok (f.buffered_write s.device [] true).0)) [
        | inr bad ↦ inr (λ (k : Complete f s). false-ne-true k.flush_ok bad, simp bad, simp bad)
        | inl flushed ↦ elim (Bool-cases (f.bytes_written d == s.expected_len)) [
          | inr short ↦ inr (
            λ (k : Complete f s). false-ne-true ((==_iff _ _).1 k.length_ok) short,
            simp (flushed, short),
            simp (flushed, short),
          )
          | inl whole ↦ elim (Bool-cases (is_ok (f.open_area d))) [
            | inr bad ↦ inr (
              λ (k : Complete f s). false-ne-true k.open_ok bad,
              simp (flushed, whole, bad),
              simp (flushed, whole, bad),
            )
            | inl opened ↦ elim (Bool-cases (is_ok (f.read_magic d).0)) [
              | inr bad ↦ inr (
                λ (k : Complete f s). false-ne-true k.read_ok bad,
                simp (flushed, whole, opened, bad),
                simp (flushed, whole, opened, bad),
              )
              | inl read ↦ elim (Bool-cases ((f.read_magic d).1 == ota_image_magic)) [
                | inr other ↦ inr (
                  λ (k : Complete f s). false-ne-true ((==_iff _ _).1 k.magic_ok) other,
                  simp (flushed, whole, opened, read, other),
                  simp (flushed, whole, opened, read, other),
                )
                | inl magic ↦ inl (
                  record {
                    flush_ok = flushed;
                    length_ok = (==_iff _ _).0 whole;
                    open_ok = opened;
                    read_ok = read;
                    magic_ok = (==_iff _ _).0 magic;
                  },
                  simp (flushed, whole, opened, read, magic),
                  simp (flushed, whole, opened, read, magic),
                )
              ]
            ]
          ]
        ]
      ]

-- What the image writer documents: `bytes_written` are those that have reached the flash, the others
-- that were handed over wait in its buffer, and a flush leaves none there.
pub record Counts {D : Type 0} (f : FlashImg D) (buffered : D → ℕ) : Type 0 where
  pub from_zero :
      (d : D)
      → is_ok (f.init d).0 ≡ true
      → (f.bytes_written (f.init d).1 ≡ 0) × (buffered (f.init d).1 ≡ 0)
  pub counts :
      (d : D) (buf : Bytes) (flush : Bool)
      → is_ok (f.buffered_write d buf flush).0 ≡ true
      → let d' = (f.buffered_write d buf flush).1 in
        f.bytes_written d' + buffered d' ≡ f.bytes_written d + buffered d + length buf
  pub flushes :
      (d : D) (buf : Bytes)
      → is_ok (f.buffered_write d buf true).0 ≡ true
      → buffered (f.buffered_write d buf true).1 ≡ 0

unfoldable pub total : List Bytes → ℕ
total [] = 0
total (buf ∷ bufs) = length buf + total bufs

module _ {D : Type 0} (f : FlashImg D) (buffered : D → ℕ) (c : Counts f buffered) where
  write_all-written :
      (bufs : List Bytes) (s : State D)
      → is_ok (write_all f s bufs).0 ≡ true
      → (f.bytes_written (write_all f s bufs).1.device + buffered (write_all f s bufs).1.device
          ≡ f.bytes_written s.device + buffered s.device + total bufs)
        × ((write_all f s bufs).1.expected_len ≡ s.expected_len)
  unfolding write_all ota_store_write total
  write_all-written [] s h = (omega arith, refl)
  write_all-written (buf ∷ bufs) s h =
      elim (Bool-cases (is_ok (f.buffered_write s.device buf false).0)) [
        | inr bad ↦ absurd (false-ne-true (simp bad at h) refl)
        | inl done ↦
            let s₁ = (ota_store_write f s buf).1 in
            let (written, kept) = write_all-written bufs s₁ (simp done at h) in
            let counted = c.counts s.device buf false done in simp done (omega arith, kept)
      ]

  start-ok :
      (s : State D) (len : ℕ)
      → is_ok (ota_store_start f s len).0 ≡ true
      → (is_ok (f.init s.device).0 ≡ true)
        × (len ≤ f.capacity)
        × ((ota_store_start f s len).1
            ≡ record { device = (f.init s.device).1; expected_len = len })
  unfolding ota_store_start
  start-ok s len h = ground arith

  -- With an image writer that counts what has reached the flash and keeps the rest in a buffer until
  -- it is flushed: an upload that reports success from start to finish handed over exactly the length
  -- that was announced, which fits the slot, all of it has reached the flash, and the slot begins with
  -- MCUboot's magic.
  pub upload_complete :
      (s : State D) (len : ℕ) (bufs : List Bytes)
      → let (start_err, s₁) = ota_store_start f s len in
        let (write_err, s₂) = write_all f s₁ bufs in
        let flushed = (f.buffered_write s₂.device [] true).1 in
        is_ok start_err ≡ true
        → is_ok write_err ≡ true
        → is_ok (ota_store_finish f s₂).0 ≡ true
        → (total bufs ≡ len)
          × (len ≤ f.capacity)
          × (f.bytes_written flushed ≡ len)
          × ((f.read_magic flushed).1 ≡ ota_image_magic)
  upload_complete s len bufs started wrote finished =
      let s₁ = (ota_store_start f s len).1 in
      let s₂ = (write_all f s₁ bufs).1 in
      let (init_ok, fits, e) = start-ok s len started in
      let zero_written = c.from_zero s.device init_ok in
      let (written, kept) = write_all-written bufs s₁ wrote in
      elim (finish_cases f s₂) [
        | inr (_, bad, _) ↦ absurd (false-ne-true finished bad)
        | inl (done, _, _) ↦
            let flush = c.counts s₂.device [] true done.flush_ok in
            let empty = c.flushes s₂.device [] done.flush_ok in
            let announced : s₂.expected_len ≡ len = kept ∙ ap (λ t. t.expected_len) e in
            (
              omega (
                arith,
                done.length_ok,
                announced,
                ap (λ t. f.bytes_written t.device) e,
                ap (λ t. buffered t.device) e,
              ),
              fits,
              done.length_ok ∙ announced,
              done.magic_ok,
            )
      ]
