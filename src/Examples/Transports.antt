-- ===== src/Examples/Transports.antt =====
-- A library that takes whole lines and answers each with its length.
use nodem_nrf.Base.{ℕ, suc, ◌+◌, ◌≡◌, [], ◌∷◌, refl, arith, ◌==◌, if◌then◌else◌}
use nodem_nrf.NodemTask.{
  Processor, Transport, nodem_process_uart, nodem_process_ws, compact, ring_get, cmd_buf_size,
  ws_cmd_buf_size,
}
use nodem_nrf.NodemTask.Buffer.{Consumes, HasSpace, transports-HasSpace}
use nodem_nrf.Text.{Bytes, codes}

-- How many bytes stand before the last newline, with it.
abbrev whole_lines : Bytes → ℕ
whole_lines [] = 0
whole_lines (c ∷ s) =
    let rest = whole_lines s in if rest == 0 then (if c == 10 then 1 else 0) else suc rest

abbrev lines_only : Processor ℕ
lines_only runtime buf = (runtime + whole_lines buf, whole_lines buf, whole_lines buf ∷ [])

lines_only-Consumes : Consumes lines_only
lines_only-Consumes r [] = omega arith
lines_only-Consumes r (c ∷ s) = ground (arith, lines_only-Consumes r s)

abbrev waiting : Transport
waiting = record { buf = codes "dr"; ring = codes "aw\nre"; sent = [] }

one_pass :
    nodem_process_uart lines_only 0 waiting
    ≡ (5, record { buf = codes "re"; ring = []; sent = 5 ∷ [] })
unfolding nodem_process_uart ring_get compact
one_pass = refl

transports-HasSpace_example :
    HasSpace cmd_buf_size (nodem_process_uart lines_only 0 waiting).1
    × HasSpace ws_cmd_buf_size (nodem_process_ws lines_only 0 waiting).1
transports-HasSpace_example =
    transports-HasSpace lines_only lines_only-Consumes 0 waiting waiting (omega arith) (omega arith)
