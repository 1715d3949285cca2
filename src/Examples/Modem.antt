-- ===== src/Examples/Modem.antt =====
-- A device that connects and registers.
use nodem_nrf.Base.{
  ℕ, zero, suc, ◌+◌, ◌≡◌, true, false, List, [], ◌∷◌, some, pos, negsuc, refl, arith,
}
use nodem_nrf.ConfigStore.{Store, got, config_set_str, config_get_str}
use nodem_nrf.ConfigStore.Lookup.{lookup}
use nodem_nrf.ConfigStore.Find.{has_room, any_free}
use nodem_nrf.ConfigStore.Table.{entry_str, find_entry, scan, holds, claim}
use nodem_nrf.Examples.Store.{in_ram, boot}
use nodem_nrf.Modem.{
  step_pending, pdn_activated, Modem, modem_step_register, modem_step_pdn, attempting,
  registration_pending, device_registered, reg_code,
}
use nodem_nrf.Modem.Connect.{SimAnswers, SimPoll, step_sim_check}
use nodem_nrf.Modem.Credentials.{step_register-consumes, step_register-registers}
use nodem_nrf.Modem.Descriptors.{OwnsFds, closes_tls, at_register}
use nodem_nrf.Modem.Descriptors.Turns.{modem_run-OwnsFds, register-leaks, all_close}
use nodem_nrf.Modem.Register.{
  RegAnswers, Credentials, step_register, register_attempt, register_http_request, register_body,
  register_req, recv_response, response, parse_response, reply_fields, http_status, get_imei,
  leading_digits, reg_name, bad_name,
}
use nodem_nrf.Modem.Reply.{reply_fields-body, recv_response-chunks, chunks, joined}
use nodem_nrf.Modem.Sim.{sim_check_ends, is_done}
use nodem_nrf.Modem.Task.{
  take_turn, run_step, finish_step, Turn, arrivals, modem_task, modem_run, modem_start,
}
use nodem_nrf.Text.{Bytes, codes, equal, cut, until_nul}
use nodem_nrf.Text.Decimal.{strtol, show, is_digit}
use nodem_nrf.Text.Search.{after_first, strip_prefix, until_any}

abbrev Saved : Type 0
Saved = List (Bytes × Bytes)

-- A code and a name are stored.
abbrev with_code : Bytes → Store Saved
with_code name =
    (config_set_str in_ram (config_set_str in_ram boot (codes "reg_code") (codes "A1B2C3")).1
      (codes "device_name") name).1

abbrev reply : Bytes
reply = codes "HTTP/1.1 200 OK\r\nServer: x\r\n\r\n#id,dev-7,s3cret,lamp\r\n"

abbrev no_credentials : Credentials
no_credentials = record { id = []; secret = []; verified_name = [] }

abbrev answers : RegAnswers
answers = record {
  imei_err = pos 0;
  imei_resp = codes "352656100000001\r\nOK\r\n";
  send_req = pos 123;
  send_body = pos 34;
  errno = 0;
  recvs = got reply ∷ [];
  unset = no_credentials;
}

abbrev cloud : Bytes
cloud = codes "example.org"

attempt :
    register_attempt answers cloud (codes "A1B2C3") (codes "lamp")
    ≡ (pos 0, record { id = codes "dev-7"; secret = codes "s3cret"; verified_name = codes "lamp" })
unfolding register_attempt get_imei leading_digits register_http_request register_body register_req
    recv_response parse_response http_status reply_fields strtol strip_prefix after_first until_any
    cut until_nul show is_digit
attempt = refl

code_and_name :
    (reg_code (with_code (codes "lamp")) ≡ codes "A1B2C3")
    × (reg_name (with_code (codes "lamp")) ≡ codes "lamp")
unfolding reg_code reg_name config_get_str config_set_str find_entry scan holds claim equal
code_and_name = (refl, refl)

pending_now : registration_pending (with_code (codes "lamp")) ≡ true
unfolding registration_pending equal
pending_now = rw (code_and_name.0) refl

named_now : bad_name (reg_name (with_code (codes "lamp"))) ≡ false
named_now = rw (code_and_name.1) refl

step_register-consumes_example :
    registration_pending
      (step_register in_ram answers cloud (with_code (codes "lamp")) (pos 3) (pos 3 ∷ [])).0
    ≡ false
step_register-consumes_example =
    step_register-consumes in_ram answers cloud (with_code (codes "lamp")) (pos 3) (pos 3 ∷ [])
      pending_now (rw named_now refl)

accepted :
    register_attempt answers cloud
      (reg_code (with_code (codes "lamp")))
      (reg_name (with_code (codes "lamp")))
    ≡ (pos 0, record { id = codes "dev-7"; secret = codes "s3cret"; verified_name = codes "lamp" })
accepted = rw (code_and_name.0, code_and_name.1) attempt

room_for_id : has_room (with_code (codes "lamp")).entries entry_str (codes "device_id") ≡ true
unfolding config_set_str find_entry scan holds claim equal lookup any_free
room_for_id = refl

step_register-registers_example :
    let s' =
      (step_register in_ram answers cloud (with_code (codes "lamp")) (pos 3) (pos 3 ∷ [])).0 in
    (config_get_str s'.entries (codes "device_id") 64 []
      ≡ (register_attempt answers cloud
          (reg_code (with_code (codes "lamp")))
          (reg_name (with_code (codes "lamp")))).1.id)
    × (device_registered s' ≡ true)
step_register-registers_example =
    step_register-registers in_ram answers cloud (with_code (codes "lamp")) (pos 3) (pos 3 ∷ [])
      pending_now named_now refl (rw accepted refl) (rw accepted refl) (rw accepted (omega arith))
      room_for_id

reply_fields-body_example :
    reply_fields reply
    ≡ some (record { id = codes "dev-7"; secret = codes "s3cret"; verified_name = codes "lamp" })
unfolding after_first strip_prefix
reply_fields-body_example =
    reply_fields-body reply (codes "dev-7") (codes "s3cret") (codes "lamp") (10 ∷ []) refl
      (omega arith) (omega arith) (omega arith)

recv_response-chunks_example :
    recv_response (chunks (codes "HTTP/1.1 " ∷ codes "200 OK" ∷ [])) []
    ≡ response (codes "HTTP/1.1 200 OK")
unfolding joined
recv_response-chunks_example =
    recv_response-chunks (codes "HTTP/1.1 " ∷ codes "200 OK" ∷ []) (λ h. cc, (λ h. cc, tt))
      (omega arith)

-- A SIM that is never ready.
abbrev sim_polls_from : ℕ → ℕ → List SimPoll
sim_polls_from zero uptime = []
sim_polls_from (suc n) uptime =
    record { err = pos 0; ready = false; uptime = uptime } ∷ sim_polls_from n (uptime + 500)

abbrev never_ready : SimAnswers
never_ready = record {
  offline_err = pos 0;
  cert = record {
    exists_err = pos 0;
    cert_exists = true;
    mismatch = false;
    delete_err = pos 0;
    write_err = pos 0;
  };
  normal_err = pos 0;
  uptime = 4000;
  polls = sim_polls_from 31 4000;
}

sim_check_ends_example : is_done (step_sim_check never_ready) ≡ true
sim_check_ends_example = sim_check_ends never_ready (omega arith) (omega arith)

abbrev turn : Turn Saved
turn = record {
  events = (0, pdn_activated) ∷ [];
  others = λ s. s;
  taken = 0;
  queued = [];
  lib_err = pos 0;
  sim = never_ready;
  pdn = record { connect_err = pos 0; pdn_up = true; sem_err = pos 0 };
  tls = record {
    getaddrinfo_err = pos 0;
    socket_fd = pos 3;
    verify_err = pos 0;
    tag_list_err = pos 0;
    hostname_err = pos 0;
    connect_err = pos 0;
    errno_pred = 0;
  };
  reg = answers;
  connect = λ host id secret. pos 4;
  uptime = 9000;
  ws = record {
    now = 9200;
    ping_now = 9200;
    ping_err = pos 0;
    send_err = pos 0;
    received = got [];
  };
}

two_turns : all_close in_ram (turn ∷ turn ∷ []) (modem_start in_ram boot) ≡ true
unfolding all_close modem_start modem_task arrivals at_register take_turn run_step finish_step
two_turns = refl

-- Two turns: the library is initialised, and the SIM is not ready.
modem_run-OwnsFds_example : OwnsFds (modem_run in_ram (turn ∷ turn ∷ []) (modem_start in_ram boot))
modem_run-OwnsFds_example = modem_run-OwnsFds in_ram (turn ∷ turn ∷ []) boot two_turns

-- A thread that is about to register under a name of two letters.
abbrev short_name : Modem Saved
short_name = record {
  phase = attempting;
  step = modem_step_register;
  g_status = λ _. record { state = step_pending; err = pos 0 };
  g_tls_fd = pos 3;
  g_ws_sock = negsuc 0;
  g_pdn_up = true;
  g_cloud_host = cloud;
  store = with_code (codes "ab");
  ws_rx_ring = [];
  ws_tx_ring = [];
  fds = pos 3 ∷ [];
}

gives_up : closes_tls (arrivals turn short_name) ≡ false
unfolding closes_tls arrivals reg_name registration_pending config_get_str config_set_str find_entry
    scan holds claim equal
gives_up = refl

register-leaks_example :
    let m' = modem_task in_ram turn short_name in
    (m'.fds ≡ pos 3 ∷ []) × (m'.step ≡ modem_step_pdn) × (m'.phase ≡ attempting)
register-leaks_example =
    register-leaks in_ram turn short_name (record { all_held = refl; valid = refl; placed = refl })
      (unfold at_register in refl) gives_up
