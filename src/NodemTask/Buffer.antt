-- ===== src/NodemTask/Buffer.antt =====
-- The command buffer is never overrun and never wedged.
use nodem_nrf.Base.{
  ℕ, ◌-◌, ◌≤◌, ◌<◌, ◌++◌, arith, inl, inr, ◌==◌, Bool-cases, length, take, length-append,
  length-take-le, length-drop,
}
use nodem_nrf.NodemTask.{
  Processor, Transport, ring_get, ring_put, compact, process_transport, nodem_process_uart,
  nodem_process_ws, cmd_buf_size, ws_cmd_buf_size, modem_ws_ring_size,
}
use nodem_nrf.Text.{Bytes}

-- The library reports no more bytes than it was given.
abbrev pub Consumes : {R : Type 0} → Processor R → Type 0
Consumes {R} process = (r : R) (buf : Bytes) → (process r buf).1 ≤ length buf

-- Room for at least one byte more: a pass is never asked to read into no space.
abbrev pub HasSpace : ℕ → Transport → Type 0
HasSpace size t = length t.buf < size

compact-lt :
    (size : ℕ) (buf : Bytes) (consumed : ℕ)
    → 0 < size
    → length buf ≤ size
    → consumed ≤ length buf
    → length (compact size buf consumed) < size
unfolding compact
compact-lt size buf consumed p fits h = ground (arith, length-drop consumed buf)

module _ {R : Type 0} (process : Processor R) (size : ℕ) (send : Bytes → Bytes → Bytes) where
  process-HasSpace :
      Consumes process
      → 0 < size
      → (r : R) (t : Transport) → HasSpace size t
      → HasSpace size (process_transport process size send r t).1
  unfolding process_transport ring_get
  process-HasSpace c p r t h =
      let avail = take (size - length t.buf) t.ring in
      let fits : length (t.buf ++ avail) ≤ size =
        omega (arith, length-append t.buf avail, length-take-le (size - length t.buf) t.ring) in
      let lt =
        compact-lt size (t.buf ++ avail) (process r (t.buf ++ avail)).1 p fits
          (c r (t.buf ++ avail)) in
      elim (Bool-cases (length (t.buf ++ avail) == 0)) [
        | inl empty ↦ simp empty h
        | inr some ↦ simp some lt
      ]

-- Each pass of either transport leaves room in its command buffer, whatever was received and
-- whatever the library makes of it; so neither is ever wedged by a line that does not end.
pub transports-HasSpace :
    {R : Type 0} (process : Processor R)
    → Consumes process
    → (r : R) (uart ws : Transport) → HasSpace cmd_buf_size uart
    → HasSpace ws_cmd_buf_size ws
    → HasSpace cmd_buf_size (nodem_process_uart process r uart).1
      × HasSpace ws_cmd_buf_size (nodem_process_ws process r ws).1
unfolding nodem_process_uart nodem_process_ws
transports-HasSpace process c r uart ws hu hw = (
  process-HasSpace process cmd_buf_size (λ sent out. sent ++ out) c (omega arith) r uart hu,
  process-HasSpace process ws_cmd_buf_size (ring_put modem_ws_ring_size) c (omega arith) r ws hw,
)
