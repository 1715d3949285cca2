-- ===== src/Modem/Task.antt =====
-- `modem_task` of modem_task.c as a machine whose turns are the rounds of its three loops.
use nodem_nrf.Base.{
  ℕ, false, not, ◌||◌, List, [], ◌∷◌, Option, none, some, ℤ, negsuc, if◌then◌else◌, drop,
}
use nodem_nrf.Base.Errno.{ok, is_ok}
use nodem_nrf.ConfigStore.{Settings, Store}
use nodem_nrf.Modem.{
  Modem, ModemStep, modem_step_init, modem_step_sim, modem_step_pdn, modem_step_tls,
  modem_step_register, modem_step_websocket, Phase, attempting, idling, supervising, step_pending,
  step_running, step_ok, step_error, set_status, PdnEvent, pdn_events, get_cloud_host,
  registration_pending, device_registered, modem_ws_ping_interval_s,
}
use nodem_nrf.Modem.Connect.{
  SimAnswers, PdnAnswers, TlsAnswers, is_fd, step_sim_check, step_pdn_connect, step_tls_connect,
}
use nodem_nrf.Modem.Register.{RegAnswers, step_register}
use nodem_nrf.Modem.Websocket.{WsConnect, Round, step_websocket_connect, websocket_supervise}
use nodem_nrf.NodemTask.{ring_put, modem_ws_ring_size}
use nodem_nrf.Text.{Bytes}

-- What one turn sees. The first four are what the rest of the system did since the turn before: the
-- events on the data contexts, what other threads did to the settings, and what `nodem_task` took
-- from and put into the rings. The others are the answers to the step's calls.
pub record Turn (F : Type 0) : Type 0 where
  pub events : List (ℕ × PdnEvent)
  pub others : Store F → Store F
  pub taken : ℕ
  pub queued : Bytes
  pub lib_err : ℤ
  pub sim : SimAnswers
  pub pdn : PdnAnswers
  pub tls : TlsAnswers
  pub reg : RegAnswers
  pub connect : WsConnect
  pub uptime : ℕ
  pub ws : Round

unfoldable pub arrivals : {F : Type 0} → Turn F → Modem F → Modem F
arrivals t m = record m {
  g_pdn_up = pdn_events t.events m.g_pdn_up;
  store = t.others m.store;
  ws_rx_ring = drop t.taken m.ws_rx_ring;
  ws_tx_ring = ring_put modem_ws_ring_size m.ws_tx_ring t.queued;
}

abbrev pub after_failure : ModemStep → ModemStep
after_failure modem_step_init = modem_step_init
after_failure modem_step_sim = modem_step_sim
after_failure modem_step_pdn = modem_step_pdn
after_failure modem_step_tls = modem_step_tls
after_failure modem_step_register = modem_step_register
after_failure modem_step_websocket = modem_step_tls

-- `fd < 0 ? fd : 0`
abbrev pub err_of : ℤ → ℤ
err_of fd = if is_fd fd then ok else fd

module _ {F : Type 0} where
  -- The end of a step: where it failed, the same step is next, or TLS for the websocket's.
  unfoldable pub finish_step : ℤ → Modem F → (Modem F → Modem F) → Modem F
  finish_step err m next =
      if is_ok err
      then next (record m { g_status = set_status m.g_status m.step step_ok ok })
      else record m {
        g_status = set_status m.g_status m.step step_error err;
        step = after_failure m.step;
      }

  abbrev goto : ModemStep → Modem F → Modem F
  goto step m = record m { step = step }

  -- While the SIM is still polled the thread stays where it is.
  unfoldable pub finish_sim : Option ℤ → Modem F → Modem F
  unfolding finish_step
  finish_sim none m = m
  finish_sim (some err) m = finish_step err m (goto modem_step_pdn)

  module _ (𝓢 : Settings F) (t : Turn F) where
    -- One attempt at a step, which has been set to running.
    unfoldable pub run_step : ModemStep → Modem F → Modem F
    unfolding finish_step finish_sim
    run_step modem_step_init m = finish_step t.lib_err m (goto modem_step_sim)
    run_step modem_step_sim m = finish_sim (step_sim_check t.sim) m
    run_step modem_step_pdn m =
        finish_step (step_pdn_connect t.pdn) m (λ m. record m { phase = idling })
    run_step modem_step_tls m =
        let (fd, fds) = step_tls_connect t.tls m.fds in
        let tried = record m { g_cloud_host = get_cloud_host m.store 128; fds = fds } in
        let next =
          if registration_pending m.store then modem_step_register else modem_step_websocket in
        finish_step (err_of fd) tried (λ m. record m { g_tls_fd = fd; step = next })
    run_step modem_step_register m =
        let (s, fd, fds) = step_register 𝓢 t.reg m.g_cloud_host m.store m.g_tls_fd m.fds in
        let done = set_status m.g_status modem_step_register step_ok ok in
        record m {
          store = s;
          g_tls_fd = fd;
          fds = fds;
          g_status = set_status done modem_step_tls step_pending ok;
          step = modem_step_pdn;
        }
    run_step modem_step_websocket m =
        let (sock, fd, fds) =
          step_websocket_connect t.connect m.g_cloud_host m.store m.g_tls_fd m.fds in
        finish_step (err_of sock) (record m { g_tls_fd = fd; fds = fds })
          (λ m. record m { g_ws_sock = sock; phase = supervising t.uptime })

    -- A round of the loop that waits for a reason to connect.
    unfoldable pub idle : Modem F → Modem F
    idle m =
        if not m.g_pdn_up
        then record m {
          g_status = set_status m.g_status modem_step_pdn step_pending ok;
          phase = attempting;
        }
        else if registration_pending m.store || device_registered m.store
        then record m { step = modem_step_tls; phase = attempting }
        else m

    unfoldable pub take_turn : Phase → Modem F → Modem F
    unfolding run_step idle
    take_turn attempting m =
        run_step m.step (record m { g_status = set_status m.g_status m.step step_running ok })
    take_turn idling m = idle m
    take_turn (supervising last_ping) m = websocket_supervise 𝓢 t.ws last_ping m

    unfoldable pub modem_task : Modem F → Modem F
    unfolding take_turn
    modem_task m = let m' = arrivals t m in take_turn m'.phase m'

  unfoldable pub modem_run : Settings F → List (Turn F) → Modem F → Modem F
  modem_run 𝓢 [] m = m
  modem_run 𝓢 (t ∷ ts) m = modem_run 𝓢 ts (modem_task 𝓢 t m)

  -- The thread at its start, where it has read the ping interval.
  unfoldable pub modem_start : Settings F → Store F → Modem F
  modem_start 𝓢 s = record {
    phase = attempting;
    step = modem_step_init;
    g_status = λ _. record { state = step_pending; err = ok };
    g_tls_fd = negsuc 0;
    g_ws_sock = negsuc 0;
    g_pdn_up = false;
    g_cloud_host = [];
    store = (modem_ws_ping_interval_s 𝓢 s).1;
    ws_rx_ring = [];
    ws_tx_ring = [];
    fds = [];
  }
