-- ===== src/Heartbeat.antt =====
-- heartbeat_task.c: the confirmation of a freshly swapped-in image, once the device has run for a
-- while.
pub mod Confirm
use nodem_nrf.Base.{ℕ, ◌*◌, Bool, true, false, ◌||◌, List, [], ◌∷◌, ltb, if◌then◌else◌}

-- HEARTBEAT_OTA_CONFIRM_SECONDS * MSEC_PER_SEC
abbrev pub ota_confirm_uptime_ms : ℕ
ota_confirm_uptime_ms = 60 * 1000

-- What one pass of the loop sees: `k_uptime_get()` and `boot_is_img_confirmed()`.
pub record Pass : Type 0 where
  pub uptime : ℕ
  pub img_confirmed : Bool

-- The static flag `ota_confirmed` behind the call, and whether `boot_write_img_confirmed` was called
-- (its error is only logged).
unfoldable pub ota_confirm_if_due : Bool → Pass → Bool × Bool
ota_confirm_if_due ota_confirmed p =
    if ota_confirmed || ltb p.uptime ota_confirm_uptime_ms
    then (ota_confirmed, false)
    else if p.img_confirmed
    then (true, false)
    else (true, true)

-- The passes of `heartbeat_task`, with the uptimes at which it wrote.
unfoldable pub heartbeat_task : Bool → List Pass → List ℕ
heartbeat_task ota_confirmed [] = []
heartbeat_task ota_confirmed (p ∷ ps) =
    let (confirmed, wrote) = ota_confirm_if_due ota_confirmed p in
    let rest = heartbeat_task confirmed ps in if wrote then p.uptime ∷ rest else rest
