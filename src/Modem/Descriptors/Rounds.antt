-- ===== src/Modem/Descriptors/Rounds.antt =====
-- What a round of each of the three loops of `modem_task` does to the descriptors.
use nodem_nrf.Base.{
  ◌*◌, ◌-◌, ℕ, Bool, true, false, not, ◌&&◌, ◌||◌, [], ◌∷◌, ◌≡◌, refl, sym, ap, ◌∙◌, arith, ℤ, pos,
  negsuc, leb, ltb, ltb_ℤ, if◌then◌else◌, length, ◌==◌,
}
use nodem_nrf.Base.Errno.{ok}
use nodem_nrf.ConfigStore.{Settings, failed, got, ReadResult}
use nodem_nrf.Modem.{
  step_index, Modem, ModemStep, modem_step_init, modem_step_sim, modem_step_pdn, modem_step_tls,
  modem_step_register, modem_step_websocket, attempting, idling, registration_pending,
  device_registered, modem_ws_ping_interval_s, set_status, step_pending,
}
use nodem_nrf.Modem.Connect.{is_fd, close}
use nodem_nrf.Modem.Task.{Turn, run_step, idle}
use nodem_nrf.NodemTask.{ring_get}
use nodem_nrf.Modem.Websocket.{modem_ws_recv_buf_size, Round, websocket_supervise, leave, receive}
use nodem_nrf.Modem.Descriptors.{
  held, connected, OwnsFds, close-cons, closes_tls, at_register, init-OwnsFds, sim-OwnsFds,
  pdn-OwnsFds, tls-OwnsFds, register-OwnsFds, websocket-OwnsFds,
}

pub bad_if_not : (b : Bool) → (true && not b) ≡ false → b ≡ true
bad_if_not true h = refl
bad_if_not false h = cc

held-nothing :
    (next : ModemStep) (tls ws : ℤ)
    → connected attempting next ≡ false
    → held attempting next tls ws ≡ []
held-nothing modem_step_init tls ws h = refl
held-nothing modem_step_sim tls ws h = refl
held-nothing modem_step_pdn tls ws h = refl
held-nothing modem_step_tls tls ws h = refl
held-nothing modem_step_register tls ws h = cc
held-nothing modem_step_websocket tls ws h = cc

if-OwnsFds :
    {F : Type 0} (b : Bool) {m m' : Modem F}
    → OwnsFds m
    → OwnsFds m'
    → OwnsFds (if b then m else m')
if-OwnsFds true h h' = h
if-OwnsFds false h h' = h'

leave-OwnsFds :
    {F : Type 0} (next : ModemStep) (m : Modem F)
    → connected attempting next ≡ false
    → m.fds ≡ m.g_ws_sock ∷ m.g_tls_fd ∷ []
    → OwnsFds (leave next m)
unfolding leave
leave-OwnsFds next m h e = record {
  all_held =
      ap (λ fds. close m.g_tls_fd (close m.g_ws_sock fds)) e
      ∙ ap (close m.g_tls_fd) (close-cons m.g_ws_sock (m.g_tls_fd ∷ []))
      ∙ close-cons m.g_tls_fd []
      ∙ sym (held-nothing next (negsuc 0) (negsuc 0) h);
  valid = sym h;
  placed = refl;
}

module _ {F : Type 0} (m : Modem F) (both_held : m.fds ≡ m.g_ws_sock ∷ m.g_tls_fd ∷ [])
    (fd : is_fd m.g_tls_fd ≡ true) where
  receive-OwnsFds : (r : ReadResult) (last_ping : ℕ) → OwnsFds (receive r last_ping m)
  unfolding receive
  receive-OwnsFds (got bytes) last_ping = record { all_held = both_held; valid = fd; placed = refl }
  receive-OwnsFds (failed n) last_ping =
      if-OwnsFds (n == 10) (record { all_held = both_held; valid = fd; placed = refl })
        (leave-OwnsFds modem_step_tls m refl both_held)

module _ {F : Type 0} (𝓢 : Settings F) (m : Modem F)
    (both_held : m.fds ≡ m.g_ws_sock ∷ m.g_tls_fd ∷ []) (fd : is_fd m.g_tls_fd ≡ true) where
  pub supervise-OwnsFds :
      (a : Round) (last_ping : ℕ) → OwnsFds (websocket_supervise 𝓢 a last_ping m)
  unfolding websocket_supervise
  supervise-OwnsFds a last_ping =
      let (interval, store) = modem_ws_ping_interval_s 𝓢 m.store in
      let due = leb (interval * 1000) (a.now - last_ping) in
      let (tx, ring) = ring_get m.ws_tx_ring modem_ws_recv_buf_size in
      let sent = record m { store = store; ws_tx_ring = ring } in
      let down = record m { g_status = set_status m.g_status modem_step_pdn step_pending ok } in
      if-OwnsFds (registration_pending m.store) (leave-OwnsFds modem_step_tls m refl both_held) (
        if-OwnsFds (not m.g_pdn_up) (leave-OwnsFds modem_step_pdn down refl both_held) (
          if-OwnsFds (due && ltb_ℤ a.ping_err (pos 0))
            (leave-OwnsFds modem_step_tls (record m { store = store }) refl both_held)
            (if-OwnsFds (ltb 0 (length tx) && ltb_ℤ a.send_err (pos 0))
              (leave-OwnsFds modem_step_tls sent refl both_held)
              (receive-OwnsFds sent both_held fd a.received
                (if due then a.ping_now else last_ping)))))

at_pdn : (step : ModemStep) → (step_index step == 2) ≡ true → step ≡ modem_step_pdn
at_pdn modem_step_init h = cc
at_pdn modem_step_sim h = cc
at_pdn modem_step_pdn h = refl
at_pdn modem_step_tls h = cc
at_pdn modem_step_register h = cc
at_pdn modem_step_websocket h = cc

module _ {F : Type 0} (𝓢 : Settings F) (t : Turn F) (m : Modem F) (v : OwnsFds m) where
  pub run-OwnsFds :
      (step : ModemStep)
      → m.phase ≡ attempting
      → m.step ≡ step
      → (at_register attempting step && not (closes_tls m)) ≡ false
      → OwnsFds (run_step 𝓢 t step m)
  unfolding at_register
  run-OwnsFds modem_step_init p q h =
      init-OwnsFds 𝓢 t m p (rw (p, q) at v.all_held) (rw (p, q) at v.valid) q
  run-OwnsFds modem_step_sim p q h =
      sim-OwnsFds 𝓢 t m p (rw (p, q) at v.all_held) (rw (p, q) at v.valid) q
  run-OwnsFds modem_step_pdn p q h =
      pdn-OwnsFds 𝓢 t m p (rw (p, q) at v.all_held) (rw (p, q) at v.valid) q
  run-OwnsFds modem_step_tls p q h =
      tls-OwnsFds 𝓢 t m p (rw (p, q) at v.all_held) (rw (p, q) at v.valid) q
  run-OwnsFds modem_step_register p q h =
      register-OwnsFds 𝓢 t m p (rw (p, q) at v.all_held) (rw (p, q) at v.valid) q (ground arith)
  run-OwnsFds modem_step_websocket p q h =
      websocket-OwnsFds 𝓢 t m p (rw (p, q) at v.all_held) (rw (p, q) at v.valid) q

  pub idle-OwnsFds : m.phase ≡ idling → OwnsFds (idle 𝓢 t m)
  unfolding idle
  idle-OwnsFds p =
      let q = at_pdn m.step (rw p at v.placed) in
      let none_held : m.fds ≡ [] = rw p at v.all_held in
      let no_fd : is_fd m.g_tls_fd ≡ false = rw p at v.valid in
      let down = record m {
        g_status = set_status m.g_status modem_step_pdn step_pending ok;
        phase = attempting;
      } in
      if-OwnsFds (not m.g_pdn_up) {m = down}
        (record { all_held = rw q none_held; valid = rw q no_fd; placed = refl })
        (if-OwnsFds (registration_pending m.store || device_registered m.store)
          {m = record m { step = modem_step_tls; phase = attempting }}
          (record { all_held = none_held; valid = no_fd; placed = refl }) v)
