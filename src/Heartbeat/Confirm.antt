-- ===== src/Heartbeat/Confirm.antt =====
-- The image is confirmed at the first pass that is late enough, if MCUboot has it pending, and never
-- again in the same boot.
use nodem_nrf.Base.{ℕ, true, false, List, [], ◌∷◌, ◌≡◌, refl, arith, leb, if◌then◌else◌}
use nodem_nrf.Heartbeat.{Pass, ota_confirm_uptime_ms, ota_confirm_if_due, heartbeat_task}

-- The specification: look for the first pass at or behind the threshold.
pub confirmations : List Pass → List ℕ
confirmations [] = []
confirmations (p ∷ ps) =
    let later = confirmations ps in
    if leb ota_confirm_uptime_ms p.uptime
    then (if p.img_confirmed then [] else p.uptime ∷ [])
    else later

confirmed_stays : (ps : List Pass) → heartbeat_task true ps ≡ []
unfolding heartbeat_task ota_confirm_if_due
confirmed_stays [] = refl
confirmed_stays (p ∷ ps) = confirmed_stays ps

-- Over any passes, `boot_write_img_confirmed` is called at most once: at the first pass from 60 s of
-- uptime on, exactly if the image is still pending there.
pub heartbeat-confirmations : (ps : List Pass) → heartbeat_task false ps ≡ confirmations ps
unfolding heartbeat_task ota_confirm_if_due confirmations
heartbeat-confirmations [] = refl
heartbeat-confirmations (p ∷ ps) = ground (arith, heartbeat-confirmations ps, confirmed_stays ps)
