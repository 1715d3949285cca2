-- ===== src/Examples/Receive.antt =====
-- The receive ring of the UART, and the stored configuration of the matrix.
use nodem_nrf.Base.{true, false, [], ◌∷◌, ◌≡◌, refl, arith}
use nodem_nrf.Examples.Matrix.{four_panels}
use nodem_nrf.Examples.Store.{in_ram, boot}
use nodem_nrf.Hub75.Stored.{hub75_config_read, hub75_config_format, hex_text}
use nodem_nrf.Hub75.Stored.Read.{IsUsable, read-IsUsable}
use nodem_nrf.Text.{Bytes, codes}
use nodem_nrf.Text.Decimal.{show}
use nodem_nrf.Uart.{Pending, uart_isr}
use nodem_nrf.Uart.Receive.{Keeps, isr-Keeps}

abbrev first : Pending
first = record { arrived = codes "#no"; rx_ready = true }

abbrev second : Pending
second = record { arrived = codes "dem"; rx_ready = false }

isr-Keeps_example :
    Keeps
      (codes "#nodem")
      (record { fifo = []; ring = codes "x"; queued = false })
      (uart_isr (first ∷ second ∷ []) [] (codes "x"))
isr-Keeps_example = isr-Keeps (first ∷ second ∷ []) [] (codes "x") (omega arith)

read-IsUsable_example : IsUsable (hub75_config_read in_ram boot).0
read-IsUsable_example = read-IsUsable in_ram boot

abbrev four_text : Bytes
four_text = codes "128:64:rt:2x2i,8:f16z:500:shift:4,#f00000,#000000,512"

four_printed : hub75_config_format four_panels 128 ≡ four_text
unfolding hub75_config_format show hex_text
four_printed = refl
