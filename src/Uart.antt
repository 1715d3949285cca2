-- ===== src/Uart.antt =====
-- uart_task.c: the command UART, whose interrupt fills a ring that `nodem_task` reads.
pub mod Receive
use nodem_nrf.Base.{ℕ, Bool, true, false, List, [], ◌∷◌, ◌++◌, ltb, if◌then◌else◌, length}
use nodem_nrf.NodemTask.{ring_get}
use nodem_nrf.Text.{Bytes}

abbrev pub uart_rx_ring_size : ℕ
uart_rx_ring_size = 2048

-- The bytes in the UART's FIFO and in `uart_rx_ring`, oldest first, and `queued`.
pub record Receiver : Type 0 where
  pub fifo : Bytes
  pub ring : Bytes
  pub queued : Bool

-- The inner loop: a byte that the ring has no room for is lost, and ends it.
unfoldable pub drain : Bytes → Bytes → Bool → Receiver
drain [] ring queued = record { fifo = []; ring = ring; queued = queued }
drain (b ∷ fifo) ring queued =
    let more = drain fifo (ring ++ (b ∷ [])) true in
    if ltb (length ring) uart_rx_ring_size
    then more
    else record { fifo = fifo; ring = ring; queued = queued }

-- A round of the outer loop, in which the interrupt is pending: the bytes that have arrived in the
-- FIFO since the last one, and whether the UART has some ready.
pub record Pending : Type 0 where
  pub arrived : Bytes
  pub rx_ready : Bool

unfoldable pub uart_round : Pending → Receiver → Receiver
uart_round r u =
    let fifo = u.fifo ++ r.arrived in
    if r.rx_ready then drain fifo u.ring u.queued else record u { fifo = fifo }

unfoldable pub uart_rounds : List Pending → Receiver → Receiver
uart_rounds [] u = u
uart_rounds (r ∷ rs) u = uart_rounds rs (uart_round r u)

-- The interrupt; `nodem_task_notify_rx` is called where `queued` is true at its end.
unfoldable pub uart_isr : List Pending → Bytes → Bytes → Receiver
uart_isr rs fifo ring = uart_rounds rs (record { fifo = fifo; ring = ring; queued = false })

unfoldable pub uart_task_read : Bytes → ℕ → Bytes × Bytes
uart_task_read ring max_len = ring_get ring max_len
