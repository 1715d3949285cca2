-- ===== src/Examples/Flash.antt =====
-- A flash partition and an image writer that are lists of bytes.
use nodem_nrf.Base.{
  ℕ, ◌+◌, ◌*◌, ◌^◌, ◌≤◌, ◌%◌, ◌≡◌, Bool, true, false, List, [], ◌∷◌, ◌++◌, some, pos, refl, arith,
  ◌⊎◌, length, take, drop, replicate,
}
use nodem_nrf.Base.Errno.{ok, einval, eio, is_ok}
use nodem_nrf.Heartbeat.{Pass, heartbeat_task, ota_confirm_if_due}
use nodem_nrf.Heartbeat.Confirm.{confirmations, heartbeat-confirmations}
use nodem_nrf.OtaStore.{
  FlashImg, State, ota_store_start, ota_store_finish, write_all, ota_image_magic, ota_store_write,
}
use nodem_nrf.OtaStore.Upload.{Complete, Counts, total, finish_cases, upload_complete}
use nodem_nrf.PkgStore.{FlashArea, align_up, padded, pkg_store_erase}
use nodem_nrf.PkgStore.Blocks.{erase_covers}
use nodem_nrf.Text.{Bytes, codes}

abbrev partition : FlashArea Bytes
partition = record {
  open_area = λ d. pos 0;
  page_size = some 4096;
  write_block = 4;
  fa_size = 65536;
  erase = λ d off n. (pos 0, take off d ++ (replicate n 0xff ++ drop (off + n) d));
  write = λ d off buf. (pos 0, take off d ++ (buf ++ drop (off + length buf) d));
}

padded_seven : padded 4 (codes "payload") ≡ codes "payload" ++ 0xff ∷ []
unfolding padded align_up
padded_seven = refl

erase_covers_example :
    ((is_ok (pkg_store_erase partition [] 5000).0 ≡ false)
      × ((pkg_store_erase partition [] 5000).1 ≡ []))
    ⊎ ((n : ℕ) × (pkg_store_erase partition [] 5000 ≡ partition.erase [] 0 n)
        × (5000 ≤ n)
        × (n ≤ 65536)
        × (n % 4096 ≡ 0))
erase_covers_example = erase_covers partition [] 5000 4096 refl (omega arith) (omega arith)

-- The first word of a slot.
abbrev first_word : Bytes → ℕ
first_word (a ∷ b ∷ c ∷ d ∷ _) = a + b * 2 ^ 8 + c * 2 ^ 16 + d * 2 ^ 24
first_word _ = 0

-- The slot's bytes, how many have reached the flash and how many wait in the writer's buffer.
abbrev Slot : Type 0
Slot = Bytes × ℕ × ℕ

-- A writer that keeps what it gets until it is flushed.
abbrev take_bytes : Slot → Bytes → Bool → Slot
take_bytes d buf false = (d.0 ++ buf, d.1, d.2 + length buf)
take_bytes d buf true = (d.0 ++ buf, d.1 + d.2 + length buf, 0)

abbrev writer : FlashImg Slot
writer = record {
  capacity = 1024;
  init = λ d. (pos 0, ([], 0, 0));
  buffered_write = λ d buf flush. (pos 0, take_bytes d buf flush);
  bytes_written = λ d. d.1;
  open_area = λ d. pos 0;
  read_magic = λ d. (pos 0, first_word d.0);
  request_upgrade = λ d. (pos 0, d);
}

take_bytes-counts :
    (d : Slot) (buf : Bytes) (flush : Bool)
    → (take_bytes d buf flush).1 + (take_bytes d buf flush).2 ≡ d.1 + d.2 + length buf
take_bytes-counts d buf false = omega arith
take_bytes-counts d buf true = omega arith

writer-Counts : Counts writer (λ d. d.2)
writer-Counts = record {
  from_zero = λ d h. (refl, refl);
  counts = λ d buf flush h. take_bytes-counts d buf flush;
  flushes = λ d buf h. refl;
}

abbrev empty_slot : State Slot
empty_slot = record { device = ([], 0, 0); expected_len = 0 }

abbrev magic_bytes : Bytes
magic_bytes = 0x3d ∷ 0xb8 ∷ 0xf3 ∷ 0x96 ∷ []

abbrev written : State Slot
written = record { device = (magic_bytes ++ codes "code", 4, 4); expected_len = 8 }

-- A whole image is taken, a short one is not, and neither is one without the magic.
finished :
    ((ota_store_finish writer written).0 ≡ ok)
    × ((ota_store_finish writer (record written { expected_len = 9 })).0 ≡ eio)
    × ((ota_store_finish writer (record written { device = (codes "noimage.", 4, 4) })).0 ≡ einval)
unfolding ota_store_finish
finished = (refl, refl, refl)

finish_cases_example :
    (Complete writer written
      × ((ota_store_finish writer written).0 ≡ pos 0)
      × ((ota_store_finish writer written).1.device ≡ (magic_bytes ++ codes "code", 8, 0)))
    ⊎ ((¬ Complete writer written)
        × (is_ok (ota_store_finish writer written).0 ≡ false)
        × ((ota_store_finish writer written).1.device ≡ (magic_bytes ++ codes "code", 8, 0)))
finish_cases_example = finish_cases writer written

upload_complete_example :
    (4 + (4 + 0) ≡ 8)
    × (8 ≤ 1024)
    × (writer.bytes_written (magic_bytes ++ codes "code", 8, 0) ≡ 8)
    × (first_word (magic_bytes ++ codes "code") ≡ ota_image_magic)
unfolding ota_store_start write_all ota_store_write ota_store_finish total
upload_complete_example =
    upload_complete writer (λ d. d.2) writer-Counts empty_slot 8 (magic_bytes ∷ codes "code" ∷ [])
      refl refl refl

abbrev three_passes : List Pass
three_passes =
    record { uptime = 55000; img_confirmed = false }
    ∷ record { uptime = 60000; img_confirmed = false }
    ∷ record { uptime = 65000; img_confirmed = false }
    ∷ []

confirmed_once : heartbeat_task false three_passes ≡ 60000 ∷ []
unfolding heartbeat_task ota_confirm_if_due
confirmed_once = refl

heartbeat-confirmations_example : heartbeat_task false three_passes ≡ confirmations three_passes
heartbeat-confirmations_example = heartbeat-confirmations three_passes
