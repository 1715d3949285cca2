-- ===== src/NodemTask.antt =====
-- nodem_task.c: the bytes of the two command transports, on their way to `nodem_process_command`.
pub mod Buffer
use nodem_nrf.Base.{
  ℕ, ◌+◌, ◌-◌, Bool, true, false, List, [], ◌∷◌, ◌++◌, ltb, ◌==◌, if◌then◌else◌, length, take, drop,
}
use nodem_nrf.Text.{Bytes}

-- `nodem_process_command` of the Rust library, on the runtime `R` with the framebuffer behind it:
-- the new runtime, how many bytes it consumed, and its reply.
abbrev pub Processor : Type 0 → Type 0
Processor R = R → Bytes → R × ℕ × Bytes

abbrev pub cmd_buf_size : ℕ
cmd_buf_size = 1024

abbrev pub ws_cmd_buf_size : ℕ
ws_cmd_buf_size = 4096

-- MODEM_WS_RING_SIZE
abbrev pub modem_ws_ring_size : ℕ
modem_ws_ring_size = 4096

-- `ring_buf_get` and `ring_buf_put`: the oldest bytes, and as many as fit.
unfoldable pub ring_get : Bytes → ℕ → Bytes × Bytes
ring_get ring max_len = (take max_len ring, drop max_len ring)

unfoldable pub ring_put : ℕ → Bytes → Bytes → Bytes
ring_put size ring bytes = ring ++ take (size - length ring) bytes

-- One transport: the command buffer's first `cmd_buf_len` bytes, the receive ring, and what was sent.
pub record Transport : Type 0 where
  pub buf : Bytes
  pub ring : Bytes
  pub sent : Bytes

-- Behind `nodem_process_command`: the consumed bytes go, and a full buffer with no whole line in it
-- is dropped.
unfoldable pub compact : ℕ → Bytes → ℕ → Bytes
compact size buf consumed =
    if ltb 0 consumed then drop consumed buf else if length buf == size then [] else buf

-- `nodem_process_uart` (its reply is written out byte by byte) and `nodem_process_ws` (whose reply is
-- queued in a ring of `tx_size` bytes) differ in the size of the buffer and in this.
module _ {R : Type 0} (process : Processor R) (size : ℕ) (send : Bytes → Bytes → Bytes) where
  unfoldable pub process_transport : R → Transport → R × Transport
  process_transport runtime t =
      let (avail, ring) = ring_get t.ring (size - length t.buf) in
      let buf = t.buf ++ avail in
      let (runtime', consumed, out) = process runtime buf in
      if length buf == 0 then (runtime, record t { ring = ring }) else (
        runtime',
        record { buf = compact size buf consumed; ring = ring; sent = send t.sent out },
      )

unfoldable pub nodem_process_uart : {R : Type 0} → Processor R → R → Transport → R × Transport
unfolding process_transport
nodem_process_uart process = process_transport process cmd_buf_size (λ sent out. sent ++ out)

unfoldable pub nodem_process_ws : {R : Type 0} → Processor R → R → Transport → R × Transport
unfolding process_transport
nodem_process_ws process = process_transport process ws_cmd_buf_size (ring_put modem_ws_ring_size)
