-- ===== src/Modem/Websocket.antt =====
-- The live channel of modem_task.c: opening the websocket, and one round of `websocket_supervise`.
use nodem_nrf.Base.{
  ℕ, ◌-◌, ◌*◌, not, ◌&&◌, List, [], ◌∷◌, ◌++◌, ℤ, pos, negsuc, leb, ltb, ltb_ℤ, ◌==◌, if◌then◌else◌,
  length, take,
}
use nodem_nrf.Base.Errno.{ok, enotconn}
use nodem_nrf.ConfigStore.{Settings, Store, ReadResult, failed, got, config_get_str}
use nodem_nrf.Modem.{
  Modem, ModemStep, modem_step_pdn, modem_step_tls, modem_step_websocket, step_pending, attempting,
  supervising, set_status, registration_pending, modem_ws_ping_interval_s,
}
use nodem_nrf.Modem.Connect.{is_fd, close}
use nodem_nrf.NodemTask.{ring_get, ring_put, modem_ws_ring_size}
use nodem_nrf.Text.{Bytes, codes, truncated}

unfoldable pub id_header : {F : Type 0} → Store F → Bytes
id_header s =
    truncated 80 (
      codes "X-Device-Id: " ++ (config_get_str s.entries (codes "device_id") 64 [] ++ codes "\r\n"))

unfoldable pub secret_header : {F : Type 0} → Store F → Bytes
secret_header s = truncated 84 (
    codes "X-Device-Secret: "
    ++ (config_get_str s.entries (codes "device_secret") 64 [] ++ codes "\r\n"))

-- What `websocket_connect` makes of the host and the two headers: a descriptor, or an error.
abbrev pub WsConnect : Type 0
WsConnect = Bytes → Bytes → Bytes → ℤ

-- The websocket or the error, `g_tls_fd` and the open descriptors.
unfoldable pub step_websocket_connect :
    {F : Type 0} → WsConnect → Bytes → Store F → ℤ → List ℤ → ℤ × ℤ × List ℤ
step_websocket_connect connect host s fd fds =
    let ws_sock = connect host (id_header s) (secret_header s) in
    if not (is_fd fd)
    then (enotconn, fd, fds)
    else if is_fd ws_sock
    then (ws_sock, fd, ws_sock ∷ fds)
    else (ws_sock, negsuc 0, close fd fds)

-- What one round sees: the uptime at the check and behind it, and the results of the three calls.
pub record Round : Type 0 where
  pub now : ℕ
  pub ping_now : ℕ
  pub ping_err : ℤ
  pub send_err : ℤ
  pub received : ReadResult

abbrev pub modem_ws_recv_buf_size : ℕ
modem_ws_recv_buf_size = 1024

-- Behind `websocket_supervise`.
unfoldable pub leave : {F : Type 0} → ModemStep → Modem F → Modem F
leave next m = record m {
  fds = close m.g_tls_fd (close m.g_ws_sock m.fds);
  g_ws_sock = negsuc 0;
  g_tls_fd = negsuc 0;
  g_status = set_status m.g_status modem_step_websocket step_pending ok;
  step = next;
  phase = attempting;
}

-- Of the errors only -EAGAIN keeps the connection.
unfoldable pub receive : {F : Type 0} → ReadResult → ℕ → Modem F → Modem F
receive (failed n) last_ping m =
    if n == 10 then record m { phase = supervising last_ping } else leave modem_step_tls m
receive (got bytes) last_ping m = record m {
  phase = supervising last_ping;
  ws_rx_ring = ring_put modem_ws_ring_size m.ws_rx_ring (take modem_ws_recv_buf_size bytes);
}

unfoldable pub websocket_supervise : {F : Type 0} → Settings F → Round → ℕ → Modem F → Modem F
websocket_supervise 𝓢 a last_ping m =
    let (interval, s) = modem_ws_ping_interval_s 𝓢 m.store in
    let due = leb (interval * 1000) (a.now - last_ping) in
    let (tx, ring) = ring_get m.ws_tx_ring modem_ws_recv_buf_size in
    let pinged = record m { store = s } in
    let sent = record m { store = s; ws_tx_ring = ring } in
    if registration_pending m.store
    then leave modem_step_tls m
    else if not m.g_pdn_up
    then leave modem_step_pdn
        (record m { g_status = set_status m.g_status modem_step_pdn step_pending ok })
    else if due && ltb_ℤ a.ping_err (pos 0)
    then leave modem_step_tls pinged
    else if ltb 0 (length tx) && ltb_ℤ a.send_err (pos 0)
    then leave modem_step_tls sent
    else receive a.received (if due then a.ping_now else last_ping) sent
