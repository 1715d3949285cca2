-- ===== src/Modem/Status.antt =====
-- The status texts of modem_task.c: the lines of the overlay, and the pass of `modem_status_task` that
-- shows them.
pub mod Radio
pub mod Overlay
use nodem_nrf.Base.{
  ℕ, zero, suc, ◌+◌, ◌-◌, Bool, true, false, not, ◌&&◌, ◌||◌, List, [], ◌∷◌, ◌++◌, Option, none,
  some, ℤ, pos, negsuc, ltb, ◌==◌, if◌then◌else◌, length,
}
use nodem_nrf.Base.Errno.{is_ok}
use nodem_nrf.ConfigStore.{Store, config_get_str, config_get_i32}
use nodem_nrf.Modem.{
  ModemStep, modem_step_init, modem_step_sim, modem_step_pdn, modem_step_tls, modem_step_register,
  modem_step_websocket, StepState, step_pending, step_running, step_ok, step_error, StepStatus,
  Statuses, step_index, device_registered, registration_pending, reg_code, get_cloud_host, is_empty,
}
use nodem_nrf.Text.{Bytes, codes, equal, truncated}
use nodem_nrf.Text.Decimal.{show_int}

unfoldable pub step_name : ModemStep → Bytes
step_name modem_step_init = codes "init"
step_name modem_step_sim = codes "sim"
step_name modem_step_pdn = codes "pdn"
step_name modem_step_tls = codes "tls"
step_name modem_step_register = codes "reg"
step_name modem_step_websocket = codes "ws"

unfoldable pub state_name : StepState → Bytes
state_name step_pending = codes "pending"
state_name step_running = codes "running"
state_name step_ok = codes "ok"
state_name step_error = codes "error"

abbrev pub is_state_ok : StepState → Bool
is_state_ok step_ok = true
is_state_ok step_pending = false
is_state_ok step_running = false
is_state_ok step_error = false

abbrev pub is_state_error : StepState → Bool
is_state_error step_error = true
is_state_error step_pending = false
is_state_error step_running = false
is_state_error step_ok = false

abbrev pub is_state_running : StepState → Bool
is_state_running step_running = true
is_state_running step_pending = false
is_state_running step_ok = false
is_state_running step_error = false

-- The ranges that the loops run over.
abbrev pub modem_steps : List ModemStep
modem_steps = modem_step_init ∷ modem_step_sim ∷ modem_step_pdn ∷ []

abbrev pub cloud_steps : List ModemStep
cloud_steps = modem_step_tls ∷ modem_step_register ∷ modem_step_websocket ∷ []

-- `<name>=<state>(<err>)`
status_field : Bytes → StepState → ℤ → Bytes
unfolding state_name
status_field name state err =
    name ++ b'=' ∷ (state_name state ++ b'(' ∷ (show_int err ++ codes ")"))

step_field : Statuses → ModemStep → Bytes
unfolding step_name status_field
step_field g_status step = status_field (step_name step) (g_status step).state (g_status step).err

register_field : {F : Type 0} → Store F → Statuses → Bytes
unfolding status_field
register_field s g_status =
    let status = g_status modem_step_register in
    if device_registered s
    then status_field (codes "reg") step_ok (pos 0)
    else status_field (codes "reg") status.state status.err

-- What `buf` holds, and the length that is returned.
unfoldable pub modem_status_format : {F : Type 0} → Store F → Statuses → ℤ → ℤ → ℕ → Bytes × ℕ
unfolding step_field register_field
modem_status_format s g_status tls_fd ws_sock buf_len =
    let text =
      step_field g_status modem_step_init
      ++ b' '
        ∷ (step_field g_status modem_step_sim
            ++ b' '
              ∷ (step_field g_status modem_step_pdn
                  ++ b' '
                    ∷ (step_field g_status modem_step_tls
                        ++ b' '
                          ∷ (register_field s g_status
                              ++ b' '
                                ∷ (step_field g_status modem_step_websocket
                                    ++ (codes " fd="
                                        ++ (show_int tls_fd
                                            ++ (codes " wsock=" ++ show_int ws_sock)))))))) in
    (truncated buf_len text, length text)

unfoldable pub step_error_str : ℕ → Statuses → List ModemStep → Bytes
step_error_str buf_len g_status [] = []
step_error_str buf_len g_status (step ∷ steps) =
    let rest = step_error_str buf_len g_status steps in
    let text = step_name step ++ b'(' ∷ (show_int (g_status step).err ++ codes ")") in
    if is_state_error (g_status step).state then truncated buf_len text else rest

-- `<step> <state>`, with the error where there is one.
unfoldable pub step_text : StepStatus → ModemStep → Bytes
step_text status step =
    let text = step_name step ++ b' ' ∷ state_name status.state in
    if is_state_error status.state && not (is_ok status.err)
    then text ++ b'(' ∷ (show_int status.err ++ codes ")")
    else text

module _ {F : Type 0} (s : Store F) (g_status : Statuses) where
  unfoldable pub step_effectively_ok : ModemStep → Bool
  step_effectively_ok step =
      (step_index step == step_index modem_step_register && device_registered s)
      || is_state_ok (g_status step).state

  unfoldable pub all_effectively_ok : List ModemStep → Bool
  unfolding step_effectively_ok
  all_effectively_ok [] = true
  all_effectively_ok (step ∷ steps) = step_effectively_ok step && all_effectively_ok steps

  unfoldable pub modem_status_line : ℕ → Bytes → List ModemStep → Bytes
  unfolding step_text step_effectively_ok
  modem_status_line buf_len group [] = truncated buf_len (group ++ codes ": ok")
  modem_status_line buf_len group (step ∷ steps) =
      let rest = modem_status_line buf_len group steps in
      if step_effectively_ok step
      then rest
      else truncated buf_len (group ++ (codes ": " ++ step_text (g_status step) step))

  unfoldable pub modem_status_cloud_line : ℕ → Bytes
  unfolding modem_status_line
  modem_status_cloud_line buf_len =
      let line = modem_status_line buf_len (codes "cloud") cloud_steps in
      if device_registered s
      then line
      else if is_empty (reg_code s)
      then truncated buf_len (codes "cloud: no reg code")
      else if equal (reg_code s) (codes "0")
      then truncated buf_len (codes "cloud: reg failed")
      else line
