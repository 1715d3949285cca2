-- ===== src/Modem/Connect.antt =====
-- The steps of modem_task.c before there is a connection, on the answers of the modem and of the
-- sockets.
use nodem_nrf.Base.{
  ℕ, ◌+◌, Bool, not, ◌&&◌, List, [], ◌∷◌, Option, none, some, ℤ, pos, negsuc, leb, leb_ℤ, ltb_ℤ,
  if◌then◌else◌,
}
use nodem_nrf.Base.Errno.{ok, eio, eacces, is_ok}

-- The results of the calls on the modem's key store.
pub record CertAnswers : Type 0 where
  pub exists_err : ℤ
  pub cert_exists : Bool
  pub mismatch : Bool
  pub delete_err : ℤ
  pub write_err : ℤ

unfoldable pub cert_provision : CertAnswers → ℤ
cert_provision a =
    if not (is_ok a.exists_err)
    then a.exists_err
    else if a.cert_exists && not a.mismatch
    then ok
    else if a.cert_exists && not (is_ok a.delete_err)
    then a.delete_err
    else a.write_err

-- One "AT+CPIN?": its error, whether "READY" is in the answer, and the time behind it.
pub record SimPoll : Type 0 where
  pub err : ℤ
  pub ready : Bool
  pub uptime : ℕ

abbrev pub sim_ready_timeout_ms : ℕ
sim_ready_timeout_ms = 15000

abbrev or_eacces : ℤ → ℤ
or_eacces err = if is_ok err then eacces else err

-- `none` while it still polls.
unfoldable pub sim_polls : ℕ → List SimPoll → Option ℤ
sim_polls deadline [] = none
sim_polls deadline (p ∷ ps) =
    let rest = sim_polls deadline ps in
    if is_ok p.err && p.ready
    then some ok
    else if leb deadline p.uptime
    then some (or_eacces p.err)
    else rest

pub record SimAnswers : Type 0 where
  pub offline_err : ℤ
  pub cert : CertAnswers
  pub normal_err : ℤ
  -- `k_uptime_get()` before the first poll.
  pub uptime : ℕ
  pub polls : List SimPoll

unfoldable pub step_sim_check : SimAnswers → Option ℤ
step_sim_check a =
    if not (is_ok a.offline_err)
    then some a.offline_err
    else if not (is_ok (cert_provision a.cert))
    then some (cert_provision a.cert)
    else if not (is_ok a.normal_err)
    then some a.normal_err
    else sim_polls (a.uptime + sim_ready_timeout_ms) a.polls

-- `g_pdn_up` as it is behind the connect, and the error of waiting for `pdn_activated_sem`.
pub record PdnAnswers : Type 0 where
  pub connect_err : ℤ
  pub pdn_up : Bool
  pub sem_err : ℤ

unfoldable pub step_pdn_connect : PdnAnswers → ℤ
step_pdn_connect a =
    if not (is_ok a.connect_err) then a.connect_err else if a.pdn_up then ok else a.sem_err

-- The results of the socket calls. A call that fails sets `errno`, which is `errno_pred` + 1.
pub record TlsAnswers : Type 0 where
  pub getaddrinfo_err : ℤ
  pub socket_fd : ℤ
  pub verify_err : ℤ
  pub tag_list_err : ℤ
  pub hostname_err : ℤ
  pub connect_err : ℤ
  pub errno_pred : ℕ

abbrev pub same_fd : ℤ → ℤ → Bool
same_fd a b = leb_ℤ a b && leb_ℤ b a

-- `close(fd)` on the descriptors that are open.
unfoldable pub close : ℤ → List ℤ → List ℤ
close fd [] = []
close fd (x ∷ fds) = let rest = close fd fds in if same_fd x fd then fds else x ∷ rest

abbrev pub is_fd : ℤ → Bool
is_fd fd = not (ltb_ℤ fd (pos 0))

-- The descriptor or the error, and the open descriptors.
unfoldable pub step_tls_connect : TlsAnswers → List ℤ → ℤ × List ℤ
step_tls_connect a fds =
    let opened = a.socket_fd ∷ fds in
    let connected =
      is_ok a.verify_err
      && (is_ok a.tag_list_err && (is_ok a.hostname_err && is_ok a.connect_err)) in
    if not (is_ok a.getaddrinfo_err)
    then (eio, fds)
    else if not (is_fd a.socket_fd)
    then (negsuc a.errno_pred, fds)
    else if connected
    then (a.socket_fd, opened)
    else (negsuc a.errno_pred, close a.socket_fd opened)
