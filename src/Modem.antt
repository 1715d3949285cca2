-- ===== src/Modem.antt =====
-- modem_task.c: bringing up the connection to the cloud, step by step, and keeping it. This file has
-- the state and what the steps share.
pub mod Connect
pub mod Register
pub mod Websocket
pub mod Task
pub mod Descriptors
pub mod Ping
pub mod Sim
pub mod Status
pub mod Credentials
pub mod Reply
use nodem_nrf.Base.{
  ℕ, zero, suc, ◌+◌, ◌*◌, ◌^◌, ◌%◌, Bool, true, false, not, ◌&&◌, List, [], ◌∷◌, ◌++◌, ℤ, pos,
  negsuc, pos_part, leb_ℤ, ltb_ℤ, ◌==◌, if◌then◌else◌,
}
use nodem_nrf.Base.Errno.{ok, is_ok}
use nodem_nrf.ConfigStore.{Settings, Store, config_get_str, config_get_i32, config_set_i32}
use nodem_nrf.Text.{Bytes, codes, equal, truncated}

pub data ModemStep : Type 0 where
  modem_step_init modem_step_sim modem_step_pdn modem_step_tls : ModemStep
  modem_step_register modem_step_websocket : ModemStep

pub data StepState : Type 0 where
  step_pending step_running step_ok step_error : StepState

pub record StepStatus : Type 0 where
  pub state : StepState
  pub err : ℤ

abbrev pub step_index : ModemStep → ℕ
step_index modem_step_init = 0
step_index modem_step_sim = 1
step_index modem_step_pdn = 2
step_index modem_step_tls = 3
step_index modem_step_register = 4
step_index modem_step_websocket = 5

-- `g_status`
abbrev pub Statuses : Type 0
Statuses = ModemStep → StepStatus

unfoldable pub set_status : Statuses → ModemStep → StepState → ℤ → Statuses
set_status g_status step state err s =
    if step_index s == step_index step then record { state = state; err = err } else g_status s

-- Where the thread is: at the top of its loop, in the loop that waits for a reason to connect, or in
-- `websocket_supervise` with its `last_ping`.
pub data Phase : Type 0 where
  attempting idling : Phase
  supervising : ℕ → Phase

-- The thread's state, and the descriptors that it has opened and not closed.
pub record Modem (F : Type 0) : Type 0 where
  pub phase : Phase
  pub step : ModemStep
  pub g_status : Statuses
  pub g_tls_fd : ℤ
  pub g_ws_sock : ℤ
  pub g_pdn_up : Bool
  pub g_cloud_host : Bytes
  pub store : Store F
  pub ws_rx_ring : Bytes
  pub ws_tx_ring : Bytes
  pub fds : List ℤ

-- The events on a packet data context, by its number.
pub data PdnEvent : Type 0 where
  pdn_activated pdn_deactivated pdn_network_detach pdn_ctx_destroyed pdn_esm_error : PdnEvent
  pdn_other : PdnEvent

pdn_event : PdnEvent → Bool → Bool
pdn_event pdn_activated up = true
pdn_event pdn_deactivated up = false
pdn_event pdn_network_detach up = false
pdn_event pdn_ctx_destroyed up = false
pdn_event pdn_esm_error up = up
pdn_event pdn_other up = up

-- `g_pdn_up` behind an event.
unfoldable pub lte_lc_evt_handler : ℕ × PdnEvent → Bool → Bool
unfolding pdn_event
lte_lc_evt_handler (cid, event) up = if not (cid == 0) then up else pdn_event event up

unfoldable pub pdn_events : List (ℕ × PdnEvent) → Bool → Bool
pdn_events [] up = up
pdn_events (e ∷ es) up = pdn_events es (lte_lc_evt_handler e up)

abbrev pub modem_task_hostname : Bytes
modem_task_hostname = codes "docker.ws-ai-call-bot.workers.dev"

abbrev pub is_empty : Bytes → Bool
is_empty [] = true
is_empty (c ∷ s) = false

module _ {F : Type 0} (s : Store F) where
  unfoldable pub get_cloud_host : ℕ → Bytes
  get_cloud_host buf_len =
      let host = config_get_str s.entries (codes "cloud_host") buf_len [] in
      if is_empty host then truncated buf_len modem_task_hostname else host

  -- The buffer of REG_CODE_LEN + 1 bytes.
  unfoldable pub reg_code : Bytes
  reg_code = config_get_str s.entries (codes "reg_code") 7 []

  unfoldable pub registration_pending : Bool
  unfolding reg_code
  registration_pending = not (is_empty reg_code) && not (equal reg_code (codes "0"))

  unfoldable pub device_registered : Bool
  device_registered = not (is_empty (config_get_str s.entries (codes "device_id") 64 []))

abbrev pub ping_key : Bytes
ping_key = codes "ping"

unfoldable pub ping_in_range : ℤ → Bool
ping_in_range secs = leb_ℤ (pos 1) secs && leb_ℤ secs (pos 3600)

unfoldable pub modem_ws_ping_interval_s : {F : Type 0} → Settings F → Store F → ℕ × Store F
modem_ws_ping_interval_s 𝓢 s =
    let secs = config_get_i32 s.entries ping_key (pos 0) in
    if ping_in_range secs
    then (pos_part secs, s)
    else (60, (config_set_i32 𝓢 s ping_key (pos 60)).1)
