-- ===== src/Modem/Status/Radio.antt =====
-- The answers of the modem about its network, and the modem's line of the overlay.
use nodem_nrf.Base.{
  ℕ, zero, suc, ◌+◌, ◌-◌, ◌%◌, ◌^◌, not, ◌&&◌, List, [], ◌∷◌, ◌++◌, Option, none, some, ℤ, pos,
  negsuc, sub_ℕ, ltb, leb_ℤ, pos_part, min, modify, ◌==◌, if◌then◌else◌, length, ◌>>=◌,
}
use nodem_nrf.Base.Errno.{is_ok}
use nodem_nrf.Modem.{ModemStep, Statuses}
use nodem_nrf.Modem.Status.{step_text, is_state_ok, modem_steps}
use nodem_nrf.Text.{Bytes, codes, cut, truncated}
use nodem_nrf.Text.Decimal.{strtol}

-- `strchr` and the byte behind what it finds, so many times.
unfoldable pub after_fields : ℕ → Bytes → Option Bytes
after_fields zero s = some s
after_fields (suc n) s = (cut b',' s).1 >>= after_fields n

-- `atoi`
unfoldable pub atoi : Bytes → ℤ
atoi s = value (strtol s)
  where
    value : Option (ℤ × Bytes) → ℤ
    value none = pos 0
    value (some (v, rest)) = v

unfoldable pub rsrp_dbm : Option Bytes → Option ℤ
unfolding atoi
rsrp_dbm none = none
rsrp_dbm (some s) =
    if leb_ℤ (pos 0) (atoi s) && leb_ℤ (atoi s) (pos 97)
    then some (sub_ℕ (pos_part (atoi s)) 140)
    else none

-- The answer to "AT+CESQ" with its error; `none` is INT_MIN.
unfoldable pub modem_rsrp_dbm : ℤ → Bytes → Option ℤ
unfolding rsrp_dbm
modem_rsrp_dbm err resp =
    if not (is_ok err) then none else rsrp_dbm ((cut b':' resp).1 >>= after_fields 5)

-- The first quoted field, `none` where it does not end.
unfoldable pub first_quoted : Bytes → Option Bytes
first_quoted resp = do rest ← (cut b'"' resp).1; quoted (cut b'"' rest)
  where
    quoted : Bytes × Option Bytes → Option Bytes
    quoted (field, none) = none
    quoted (field, some rest) = some field

operator : ℤ → Option Bytes → Bytes
operator err none = []
operator err (some field) = if is_ok err && ltb (length field) 17 then field else []

-- `none` is -1.
unfoldable pub bars_of : Option ℤ → Option ℕ
bars_of none = none
bars_of (some dbm) =
    if leb_ℤ (negsuc 79) dbm
    then some 4
    else if leb_ℤ (negsuc 89) dbm
    then some 3
    else if leb_ℤ (negsuc 99) dbm
    then some 2
    else if leb_ℤ (negsuc 109) dbm
    then some 1
    else some 0

-- `bars[4 - i] = '|'`
unfoldable pub fill_bars : ℕ → Bytes → Bytes
fill_bars zero bars = bars
fill_bars (suc i) bars = modify (fill_bars i bars) (4 - i) (λ c. b'|')

-- `s_oper`, `s_bars` and `s_tick`, and what the two queries answer.
pub record Radio : Type 0 where
  pub s_oper : Bytes
  pub s_bars : Option ℕ
  pub s_tick : ℕ

pub record RadioAnswers : Type 0 where
  pub cops_err : ℤ
  pub cops_resp : Bytes
  pub cesq_err : ℤ
  pub cesq_resp : Bytes

unfoldable pub refresh : RadioAnswers → Radio → Radio
unfolding operator
refresh a r =
    let tick = (r.s_tick + 1) % 2 ^ 32 in
    if r.s_tick % 10 == 0
    then record {
      s_oper = operator a.cops_err (first_quoted a.cops_resp);
      s_bars = bars_of (modem_rsrp_dbm a.cesq_err a.cesq_resp);
      s_tick = tick;
    }
    else record r { s_tick = tick }

unfoldable pub bars_text : Option ℕ → Bytes
unfolding fill_bars
bars_text none = []
bars_text (some n) = b' ' ∷ fill_bars (min 4 n) (codes "[....]")

unfoldable pub oper_text : Bytes → Bytes
oper_text [] = []
oper_text (c ∷ s) = codes " '" ++ ((c ∷ s) ++ codes "'")

-- `buf_pos += snprintf(buf + buf_pos, buf_len - buf_pos, …)`: the buffer and `buf_pos`.
unfoldable pub append_text : ℕ → Bytes → Bytes × ℕ → Bytes × ℕ
append_text buf_len text (buf, buf_pos) =
    (buf ++ truncated (buf_len - buf_pos) text, buf_pos + length text)

-- The first step that is not ok.
unfoldable pub first_not_ok : Statuses → List ModemStep → Option ModemStep
first_not_ok g_status [] = none
first_not_ok g_status (step ∷ steps) =
    let rest = first_not_ok g_status steps in
    if is_state_ok (g_status step).state then rest else some step

unfoldable pub modem_line : ℕ → Statuses → RadioAnswers → Radio → Option ModemStep → Bytes × Radio
unfolding append_text refresh bars_text oper_text
modem_line buf_len g_status a r (some step) =
    let start = append_text buf_len (codes "modem: ") ([], 0) in
    ((append_text buf_len (step_text (g_status step) step) start).0, r)
modem_line buf_len g_status a r none =
    let r' = refresh a r in
    let start = append_text buf_len (codes "modem: ") ([], 0) in
    let named =
      append_text buf_len (oper_text r'.s_oper) (append_text buf_len (codes "ok") start) in
    ((append_text buf_len (bars_text r'.s_bars) named).0, r')

unfoldable pub modem_status_modem_line : ℕ → Statuses → RadioAnswers → Radio → Bytes × Radio
unfolding modem_line
modem_status_modem_line buf_len g_status a r =
    modem_line buf_len g_status a r (first_not_ok g_status modem_steps)
