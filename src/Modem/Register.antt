-- ===== src/Modem/Register.antt =====
-- The registration of the device in modem_task.c: the request, its response and what is kept of it.
use nodem_nrf.Base.{
  ℕ, ◌-◌, Bool, false, not, ◌&&◌, ◌||◌, List, [], ◌∷◌, ◌++◌, Option, none, some, ℤ, pos, negsuc,
  neg, leb, ltb, leb_ℤ, ltb_ℤ, ◌==◌, if◌then◌else◌, length, take, ◌>>=◌,
}
use nodem_nrf.Base.Errno.{ok, eio, einval, is_ok}
use nodem_nrf.ConfigStore.{Settings, Store, ReadResult, failed, got, config_get_str, config_set_str}
use nodem_nrf.Modem.{registration_pending, reg_code}
use nodem_nrf.Modem.Connect.{is_fd, same_fd, close}
use nodem_nrf.Text.{Bytes, codes, cut, truncated, until_nul}
use nodem_nrf.Text.Decimal.{is_digit, strtol, show}
use nodem_nrf.Text.Search.{strip_prefix, after_first, until_any}

-- The digits at the start of `resp`.
unfoldable pub leading_digits : Bytes → Bytes
leading_digits [] = []
leading_digits (c ∷ s) = let rest = leading_digits s in if is_digit c then c ∷ rest else []

-- The error of "AT+CGSN" and the 32 bytes of `resp`: the error of `get_imei`, and the IMEI.
unfoldable pub get_imei : ℤ → Bytes → ℕ → ℤ × Bytes
get_imei err resp buf_len =
    let imei = leading_digits (take 32 resp) in
    if not (is_ok err)
    then (err, [])
    else if length imei == 0 || leb buf_len (length imei)
    then (einval, [])
    else (ok, imei)

-- What the server gave: the id, the secret and the verified name, each in its buffer.
pub record Credentials : Type 0 where
  pub id : Bytes
  pub secret : Bytes
  pub verified_name : Bytes

-- `sscanf(resp, "HTTP/%*d.%*d %d", &status)`
unfoldable pub http_status : Bytes → Option ℤ
http_status resp = do
  version ← strip_prefix (codes "HTTP/") resp
  (major, rest) ← strtol version
  minor ← strip_prefix (codes ".") rest
  (minor_number, rest) ← strtol minor
  (status, rest) ← strtol rest
  some status

status_ok : Option ℤ → Bool
status_ok none = false
status_ok (some status) = leb_ℤ (pos 200) status && ltb_ℤ status (pos 300)

-- What stands in front of the separator, and behind it; `none` where there is none.
field_before : Bytes × Option Bytes → Option (Bytes × Bytes)
field_before (field, none) = none
field_before (field, some rest) = some (field, rest)

-- The fields of the body.
unfoldable pub reply_fields : Bytes → Option Credentials
unfolding field_before
reply_fields resp = do
  body ← after_first (codes "\r\n\r\n") resp
  ids ← after_first (codes "#id,") body
  (id, rest) ← field_before (cut b',' ids)
  (secret, rest) ← field_before (cut b',' rest)
  some (record {
    id = truncated 64 id;
    secret = truncated 64 secret;
    verified_name = truncated 128 (until_any (codes ",\r\n") rest);
  })

-- What the request's calls return. `errno` is what it is behind a `send` that failed or was short:
-- where no call failed, it is whatever it was before. `unset` is what the caller's buffers hold
-- before they are written.
pub record RegAnswers : Type 0 where
  pub imei_err : ℤ
  pub imei_resp : Bytes
  pub send_req : ℤ
  pub send_body : ℤ
  pub errno : ℕ
  -- The results of `recv` up to the end of the connection.
  pub recvs : List ReadResult
  pub unset : Credentials

pub data Received : Type 0 where
  broken : ℕ → Received  -- the error is -(n + 1)
  response : Bytes → Received

-- Into a buffer of 1024 bytes, one of which is for the NUL. `recv` returns no more than was asked.
unfoldable pub recv_response : List ReadResult → Bytes → Received
recv_response [] resp = response resp
recv_response (failed n ∷ rs) resp = if leb 1023 (length resp) then response resp else broken n
recv_response (got chunk ∷ rs) resp =
    let rest = recv_response rs (resp ++ take (1023 - length resp) chunk) in
    if leb 1023 (length resp) || length chunk == 0 then response resp else rest

unfoldable pub register_body : Bytes → Bytes → Bytes → Bytes
register_body code imei name =
    codes "#reg," ++ (code ++ b',' ∷ (imei ++ b',' ∷ (name ++ codes "\r\n")))

unfoldable pub register_req : Bytes → ℕ → Bytes
register_req host body_len =
    codes "POST /api/devices/register HTTP/1.1\r\n"
    ++ (codes "Host: "
        ++ (host
            ++ (codes "\r\nContent-Type: text/plain\r\nContent-Length: "
                ++ (show body_len ++ codes "\r\nConnection: close\r\n\r\n"))))

fields_or : Credentials → Option Credentials → ℤ × Credentials
fields_or unset none = (einval, unset)
fields_or unset (some c) = (ok, c)

-- The error, and what the caller's buffers hold.
unfoldable pub parse_response : Credentials → Received → ℤ × Credentials
unfolding status_ok fields_or
parse_response unset (broken n) = (negsuc n, unset)
parse_response unset (response bytes) =
    let resp = until_nul bytes in
    if not (status_ok (http_status resp)) then (eio, unset) else fields_or unset (reply_fields resp)

unfoldable pub register_http_request : RegAnswers → Bytes → Bytes → Bytes → Bytes → ℤ × Credentials
register_http_request a host code imei name =
    let body = register_body code imei name in
    let req = register_req host (length body) in
    let sent = same_fd a.send_req (pos (length req)) && same_fd a.send_body (pos (length body)) in
    if leb 160 (length body) || leb 384 (length req)
    then (einval, a.unset)
    else if not sent
    then (neg a.errno, a.unset)
    else parse_response a.unset (recv_response a.recvs [])

unfoldable pub register_attempt : RegAnswers → Bytes → Bytes → Bytes → ℤ × Credentials
register_attempt a host code name =
    let (err, imei) = get_imei a.imei_err a.imei_resp 20 in
    if not (is_ok err) then (err, a.unset) else register_http_request a host code imei name

abbrev pub reg_code_rejected : Bytes
reg_code_rejected = codes "0"

-- The name to register under, in a buffer of REG_NAME_MAX_LEN + 1 bytes.
unfoldable pub reg_name : {F : Type 0} → Store F → Bytes
reg_name s = config_get_str s.entries (codes "device_name") 65 []

abbrev pub bad_name : Bytes → Bool
bad_name name = ltb (length name) 3 || ltb 64 (length name)

module _ {F : Type 0} (𝓢 : Settings F) where
  -- What is kept of an attempt.
  unfoldable pub settle : Store F → ℤ × Credentials → Store F
  settle s (err, c) =
      let s₁ = (config_set_str 𝓢 s (codes "device_id") c.id).1 in
      let s₂ = (config_set_str 𝓢 s₁ (codes "device_secret") c.secret).1 in
      let s₃ = (config_set_str 𝓢 s₂ (codes "device_name") c.verified_name).1 in
      if is_ok err
      then (config_set_str 𝓢 s₃ (codes "reg_code") []).1
      else (config_set_str 𝓢 s (codes "reg_code") reg_code_rejected).1

  -- The store, `g_tls_fd` and the open descriptors. The step always returns 0.
  unfoldable pub step_register : RegAnswers → Bytes → Store F → ℤ → List ℤ → Store F × ℤ × List ℤ
  step_register a host s fd fds =
      if not (registration_pending s)
      then (s, fd, fds)
      else if bad_name (reg_name s)
      then ((config_set_str 𝓢 s (codes "reg_code") []).1, fd, fds)
      else if not (is_fd fd)
      then (s, fd, fds)
      else (settle s (register_attempt a host (reg_code s) (reg_name s)), negsuc 0, close fd fds)
