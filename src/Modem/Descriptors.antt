-- ===== src/Modem/Descriptors.antt =====
-- Which descriptors `modem_task` holds, and what each of its steps does to them.
pub mod Rounds
pub mod Turns
use nodem_nrf.Base.{
  ◌*◌, ◌-◌, ℕ, zero, suc, ◌+◌, ◌≤◌, ◌<◌, Bool, true, false, not, ◌&&◌, ◌||◌, List, [], ◌∷◌, ◌≡◌,
  refl, sym, ap, ◌∙◌, inl, inr, Option, none, some, arith, ℤ, pos, negsuc, leb, ltb, leb_ℤ, ltb_ℤ,
  if◌then◌else◌, Bool-cases, Option-cases, pos_part, neg_part, length, ◌==◌,
}
use nodem_nrf.Base.Errno.{ok, is_ok, eio, enotconn}
use nodem_nrf.ConfigStore.{Settings, Store, failed, got, ReadResult}
use nodem_nrf.Modem.{
  step_index, Modem, ModemStep, modem_step_init, modem_step_sim, modem_step_pdn, modem_step_tls,
  modem_step_register, modem_step_websocket, Phase, attempting, idling, supervising,
  registration_pending, device_registered, modem_ws_ping_interval_s, set_status, step_running,
  step_pending, step_ok,
}
use nodem_nrf.Modem.Connect.{
  TlsAnswers, SimAnswers, is_fd, same_fd, close, step_tls_connect, step_sim_check, step_pdn_connect,
}
use nodem_nrf.Modem.Register.{reg_name, bad_name, step_register}
use nodem_nrf.Modem.Task.{
  after_failure, Turn, arrivals, err_of, finish_step, finish_sim, run_step, idle, take_turn,
  modem_task, modem_run, modem_start,
}
use nodem_nrf.NodemTask.{ring_get}
use nodem_nrf.Modem.Websocket.{
  modem_ws_recv_buf_size, id_header, secret_header, WsConnect, Round, step_websocket_connect,
  websocket_supervise, leave, receive,
}

-- What the thread holds: the TLS connection in the steps that use it, and the websocket on top of it
-- while it is supervised; else nothing, and `g_tls_fd` is -1.
abbrev pub held : Phase → ModemStep → ℤ → ℤ → List ℤ
held (supervising last_ping) step tls ws = ws ∷ tls ∷ []
held idling step tls ws = []
held attempting modem_step_register tls ws = tls ∷ []
held attempting modem_step_websocket tls ws = tls ∷ []
held attempting modem_step_init tls ws = []
held attempting modem_step_sim tls ws = []
held attempting modem_step_pdn tls ws = []
held attempting modem_step_tls tls ws = []

abbrev pub connected : Phase → ModemStep → Bool
connected (supervising last_ping) step = true
connected idling step = false
connected attempting modem_step_register = true
connected attempting modem_step_websocket = true
connected attempting modem_step_init = false
connected attempting modem_step_sim = false
connected attempting modem_step_pdn = false
connected attempting modem_step_tls = false

-- It waits for a reason to connect only behind the step of the data context.
abbrev pub placed_at : Phase → ModemStep → Bool
placed_at (supervising last_ping) step = true
placed_at attempting step = true
placed_at idling step = step_index step == step_index modem_step_pdn

pub record OwnsFds {F : Type 0} (m : Modem F) : Type 0 where
  pub all_held : m.fds ≡ held m.phase m.step m.g_tls_fd m.g_ws_sock
  pub valid : is_fd m.g_tls_fd ≡ connected m.phase m.step
  pub placed : placed_at m.phase m.step ≡ true

same_fd_refl : (fd : ℤ) → same_fd fd fd ≡ true
same_fd_refl (pos n) = ground arith
same_fd_refl (negsuc n) = ground arith

pub close-cons : (fd : ℤ) (fds : List ℤ) → close fd (fd ∷ fds) ≡ fds
unfolding close
close-cons fd fds = rw (same_fd_refl fd)

-- A failed attempt to connect leaves the descriptors as they were.
tls_connect_fds :
    (a : TlsAnswers) (fds : List ℤ)
    → let (fd, fds') = step_tls_connect a fds in fds' ≡ (if is_fd fd then fd ∷ fds else fds)
unfolding step_tls_connect
tls_connect_fds a fds = ground (arith, close-cons a.socket_fd fds)

not_ok : (fd : ℤ) → is_fd fd ≡ false → is_ok fd ≡ false
not_ok (pos n) h = ground arith
not_ok (negsuc n) h = refl

-- The connection is closed by the registration where it is made, or given up at the request.
unfoldable pub closes_tls : {F : Type 0} → Modem F → Bool
closes_tls m = registration_pending m.store && not (bad_name (reg_name m.store))

unfoldable pub at_register : Phase → ModemStep → Bool
at_register attempting modem_step_register = true
at_register attempting modem_step_websocket = false
at_register attempting modem_step_init = false
at_register attempting modem_step_sim = false
at_register attempting modem_step_pdn = false
at_register attempting modem_step_tls = false
at_register idling step = false
at_register (supervising last_ping) step = false

module _ {F : Type 0} (𝓢 : Settings F) (t : Turn F) (m : Modem F) (p : m.phase ≡ attempting)
    (none_held : m.fds ≡ []) (no_fd : is_fd m.g_tls_fd ≡ false) where
  pub init-OwnsFds : m.step ≡ modem_step_init → OwnsFds (run_step 𝓢 t modem_step_init m)
  unfolding run_step finish_step
  init-OwnsFds q = elim (Bool-cases (is_ok t.lib_err)) [
    | inl done ↦
        simp done (record { all_held = rw p none_held; valid = rw p no_fd; placed = rw p refl })
    | inr bad ↦
        simp bad
          (record { all_held = rw (p, q) none_held; valid = rw (p, q) no_fd; placed = rw p refl })
  ]

  pub sim-OwnsFds : m.step ≡ modem_step_sim → OwnsFds (run_step 𝓢 t modem_step_sim m)
  unfolding run_step finish_sim finish_step
  sim-OwnsFds q = elim (Option-cases (step_sim_check t.sim)) [
    | inl polling ↦
        simp polling
          (record { all_held = rw (p, q) none_held; valid = rw (p, q) no_fd; placed = rw p refl })
    | inr (err, answered) ↦ elim (Bool-cases (is_ok err)) [
      | inl done ↦
          simp (answered, done)
            (record { all_held = rw p none_held; valid = rw p no_fd; placed = rw p refl })
      | inr bad ↦
          simp (answered, bad)
            (record { all_held = rw (p, q) none_held; valid = rw (p, q) no_fd; placed = rw p refl })
    ]
  ]

  pub pdn-OwnsFds : m.step ≡ modem_step_pdn → OwnsFds (run_step 𝓢 t modem_step_pdn m)
  unfolding run_step finish_step
  pdn-OwnsFds q = elim (Bool-cases (is_ok (step_pdn_connect t.pdn))) [
    | inl done ↦
        simp done
          (record { all_held = none_held; valid = no_fd; placed = ap (λ s. step_index s == 2) q })
    | inr bad ↦
        simp bad
          (record { all_held = rw (p, q) none_held; valid = rw (p, q) no_fd; placed = rw p refl })
  ]

  pub tls-OwnsFds : m.step ≡ modem_step_tls → OwnsFds (run_step 𝓢 t modem_step_tls m)
  unfolding run_step finish_step
  tls-OwnsFds q =
      let fd = (step_tls_connect t.tls m.fds).0 in
      let opened = tls_connect_fds t.tls m.fds in
      elim (Bool-cases (is_fd fd)) [
        | inr bad ↦
            simp (bad, not_ok fd bad)
              (record {
                all_held = rw (p, q) ((rw bad at opened) ∙ none_held);
                valid = rw (p, q) no_fd;
                placed = rw p refl;
              })
        | inl good ↦ elim (Bool-cases (registration_pending m.store)) [
          | inl pending ↦
              simp (good, pending)
                (record {
                  all_held = rw p ((rw good at opened) ∙ ap (◌∷◌ fd) none_held);
                  valid = rw p good;
                  placed = rw p refl;
                })
          | inr live ↦
              simp (good, live)
                (record {
                  all_held = rw p ((rw good at opened) ∙ ap (◌∷◌ fd) none_held);
                  valid = rw p good;
                  placed = rw p refl;
                })
        ]
      ]

module _ {F : Type 0} (𝓢 : Settings F) (t : Turn F) (m : Modem F) (p : m.phase ≡ attempting)
    (tls_held : m.fds ≡ m.g_tls_fd ∷ []) (fd : is_fd m.g_tls_fd ≡ true) where
  pub register-OwnsFds :
      m.step ≡ modem_step_register
      → closes_tls m ≡ true
      → OwnsFds (run_step 𝓢 t modem_step_register m)
  unfolding run_step step_register closes_tls
  register-OwnsFds q closes =
      let pending : registration_pending m.store ≡ true = ground arith in
      let named : bad_name (reg_name m.store) ≡ false = ground arith in
      simp (pending, named, fd)
        (record {
          all_held = rw p (ap (close m.g_tls_fd) tls_held ∙ close-cons m.g_tls_fd []);
          valid = rw p refl;
          placed = rw p refl;
        })

  pub websocket-OwnsFds :
      m.step ≡ modem_step_websocket → OwnsFds (run_step 𝓢 t modem_step_websocket m)
  unfolding run_step step_websocket_connect finish_step
  websocket-OwnsFds q =
      let sock = t.connect m.g_cloud_host (id_header m.store) (secret_header m.store) in
      elim (Bool-cases (is_fd sock)) [
        | inl good ↦
            simp (fd, good)
              (record { all_held = ap (◌∷◌ sock) tls_held; valid = fd; placed = refl })
        | inr bad ↦
            simp (fd, bad, not_ok sock bad)
              (record {
                all_held = rw (p, q) (ap (close m.g_tls_fd) tls_held ∙ close-cons m.g_tls_fd []);
                valid = rw (p, q) refl;
                placed = rw p refl;
              })
      ]
