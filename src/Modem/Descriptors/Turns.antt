-- ===== src/Modem/Descriptors/Turns.antt =====
-- Which descriptors a whole turn of `modem_task` leaves open, and a run of turns.
use nodem_nrf.Base.{
  Bool, true, false, not, ◌&&◌, List, [], ◌∷◌, ◌≡◌, refl, ◌∙◌, inl, inr, arith, ℤ, Bool-cases,
}
use nodem_nrf.Base.Errno.{ok}
use nodem_nrf.ConfigStore.{Settings, Store}
use nodem_nrf.Modem.{
  Modem, ModemStep, modem_step_init, modem_step_sim, modem_step_pdn, modem_step_tls,
  modem_step_register, modem_step_websocket, Phase, attempting, idling, supervising,
  registration_pending, set_status, step_running,
}
use nodem_nrf.Modem.Register.{reg_name, bad_name, step_register}
use nodem_nrf.Modem.Task.{Turn, arrivals, run_step, take_turn, modem_task, modem_run, modem_start}
use nodem_nrf.Modem.Descriptors.{held, OwnsFds, closes_tls, at_register}
use nodem_nrf.Modem.Descriptors.Rounds.{bad_if_not, supervise-OwnsFds, run-OwnsFds, idle-OwnsFds}

turn-OwnsFds :
    {F : Type 0} (𝓢 : Settings F) (t : Turn F) (m : Modem F)
    → OwnsFds m
    → (phase : Phase) → m.phase ≡ phase
    → (at_register phase m.step && not (closes_tls m)) ≡ false
    → OwnsFds (take_turn 𝓢 t phase m)
unfolding take_turn
turn-OwnsFds 𝓢 t m v attempting p h =
    run-OwnsFds 𝓢 t (record m { g_status = set_status m.g_status m.step step_running ok })
      (record { all_held = v.all_held; valid = v.valid; placed = v.placed }) m.step p refl
      (unfold closes_tls in h)
turn-OwnsFds 𝓢 t m v idling p h = idle-OwnsFds 𝓢 t m v p
turn-OwnsFds 𝓢 t m v (supervising last_ping) p h =
    supervise-OwnsFds 𝓢 m (rw p at v.all_held) (rw p at v.valid) t.ws last_ping

-- Each turn of `modem_task` keeps account of its descriptors: it holds the TLS connection exactly in
-- the steps that use it, with the websocket on top while that is supervised, and nothing else.
-- The condition is that a registration which the turn attempts gets as far as its request: a code
-- is pending and the name is long enough.
pub modem_task-OwnsFds :
    {F : Type 0} (𝓢 : Settings F) (t : Turn F) (m : Modem F)
    → OwnsFds m
    → (at_register m.phase m.step && not (closes_tls (arrivals t m))) ≡ false
    → OwnsFds (modem_task 𝓢 t m)
unfolding modem_task take_turn
modem_task-OwnsFds 𝓢 t m v closes =
    turn-OwnsFds 𝓢 t (arrivals t m)
      (unfold arrivals in record { all_held = v.all_held; valid = v.valid; placed = v.placed })
      (arrivals t m).phase refl (unfold arrivals in closes)

-- The thread starts with no descriptor.
start-OwnsFds : {F : Type 0} (𝓢 : Settings F) (s : Store F) → OwnsFds (modem_start 𝓢 s)
unfolding modem_start
start-OwnsFds 𝓢 s = record { all_held = refl; valid = refl; placed = refl }

-- No turn attempts a registration that it gives up before the request.
unfoldable pub all_close : {F : Type 0} → Settings F → List (Turn F) → Modem F → Bool
unfolding at_register closes_tls
all_close 𝓢 [] m = true
all_close 𝓢 (t ∷ ts) m =
    let rest = all_close 𝓢 ts (modem_task 𝓢 t m) in
    not (at_register m.phase m.step && not (closes_tls (arrivals t m))) && rest

run_from-OwnsFds :
    {F : Type 0} (𝓢 : Settings F) (ts : List (Turn F)) (m : Modem F)
    → OwnsFds m
    → all_close 𝓢 ts m ≡ true
    → OwnsFds (modem_run 𝓢 ts m)
unfolding modem_run all_close
run_from-OwnsFds 𝓢 [] m v h = v
run_from-OwnsFds 𝓢 (t ∷ ts) m v h =
    run_from-OwnsFds 𝓢 ts (modem_task 𝓢 t m) (modem_task-OwnsFds 𝓢 t m v (ground arith))
      (ground arith)

-- From its start on, whatever the modem, the network, the server and the other threads do, the
-- thread holds exactly the descriptors that its step uses, as long as no turn attempts a
-- registration that it gives up before the request.
pub modem_run-OwnsFds :
    {F : Type 0} (𝓢 : Settings F) (ts : List (Turn F)) (s : Store F)
    → all_close 𝓢 ts (modem_start 𝓢 s) ≡ true
    → OwnsFds (modem_run 𝓢 ts (modem_start 𝓢 s))
modem_run-OwnsFds 𝓢 ts s h = run_from-OwnsFds 𝓢 ts (modem_start 𝓢 s) (start-OwnsFds 𝓢 s) h

gives_up :
    {F : Type 0} (𝓢 : Settings F) (t : Turn F) (m : Modem F)
    → closes_tls m ≡ false
    → (step_register 𝓢 t.reg m.g_cloud_host m.store m.g_tls_fd m.fds).2 ≡ m.fds
unfolding step_register closes_tls
gives_up 𝓢 t m h = elim (Bool-cases (registration_pending m.store)) [
  | inr gone ↦ rw gone
  | inl pending ↦ rw (pending, bad_if_not (bad_name (reg_name m.store)) (rw pending at h))
]

leaks_turn :
    {F : Type 0} (𝓢 : Settings F) (t : Turn F) (m : Modem F) (phase : Phase) (step : ModemStep)
    → m.step ≡ step
    → at_register phase step ≡ true
    → closes_tls m ≡ false
    → let m' = take_turn 𝓢 t phase m in
      (m'.fds ≡ m.fds) × (m'.step ≡ modem_step_pdn) × (m'.phase ≡ m.phase)
unfolding take_turn run_step at_register
leaks_turn 𝓢 t m attempting modem_step_register q h k = rw q (gives_up 𝓢 t m k, refl, refl)
leaks_turn 𝓢 t m attempting modem_step_init q h k = cc
leaks_turn 𝓢 t m attempting modem_step_sim q h k = cc
leaks_turn 𝓢 t m attempting modem_step_pdn q h k = cc
leaks_turn 𝓢 t m attempting modem_step_tls q h k = cc
leaks_turn 𝓢 t m attempting modem_step_websocket q h k = cc
leaks_turn 𝓢 t m idling step q h k = cc
leaks_turn 𝓢 t m (supervising n) step q h k = cc

register_held :
    (phase : Phase) (step : ModemStep) (tls ws : ℤ)
    → at_register phase step ≡ true
    → held phase step tls ws ≡ tls ∷ []
unfolding at_register
register_held attempting modem_step_register tls ws h = refl
register_held attempting modem_step_init tls ws h = cc
register_held attempting modem_step_sim tls ws h = cc
register_held attempting modem_step_pdn tls ws h = cc
register_held attempting modem_step_tls tls ws h = cc
register_held attempting modem_step_websocket tls ws h = cc
register_held idling step tls ws h = cc
register_held (supervising n) step tls ws h = cc

-- A turn that attempts a registration and gives it up before its request (the code is gone, or the
-- name is too short) goes back to the step of the data context with the TLS connection still open,
-- although nothing is held there otherwise.
pub register-leaks :
    {F : Type 0} (𝓢 : Settings F) (t : Turn F) (m : Modem F)
    → OwnsFds m
    → at_register m.phase m.step ≡ true
    → closes_tls (arrivals t m) ≡ false
    → let m' = modem_task 𝓢 t m in
      (m'.fds ≡ m.g_tls_fd ∷ []) × (m'.step ≡ modem_step_pdn) × (m'.phase ≡ m.phase)
unfolding modem_task arrivals
register-leaks 𝓢 t m v at_reg up =
    let (e, s, p) = leaks_turn 𝓢 t (arrivals t m) m.phase m.step refl at_reg up in
    (e ∙ v.all_held ∙ register_held m.phase m.step m.g_tls_fd m.g_ws_sock at_reg, s, p)
