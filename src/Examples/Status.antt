-- ===== src/Examples/Status.antt =====
-- A status pass on a device that is connected to a network, but not registered.
use nodem_nrf.Base.{◌==◌, ◌≡◌, true, not, ◌||◌, [], ◌∷◌, ◌++◌, none, pos, refl, if◌then◌else◌}
use nodem_nrf.Examples.Store.{boot}
use nodem_nrf.Modem.{Statuses, step_index, step_pending, step_ok}
use nodem_nrf.Modem.Status.{all_effectively_ok, modem_status_cloud_line}
use nodem_nrf.Modem.Status.Overlay.{
  cleared, shown, status_shown, all_steps, modem_status_pass, status_pass-shown,
}
use nodem_nrf.Modem.Status.Radio.{
  Radio, RadioAnswers, modem_status_modem_line, modem_rsrp_dbm, first_not_ok, modem_line,
  append_text, oper_text, bars_text, refresh, fill_bars, bars_of, first_quoted, after_fields,
  rsrp_dbm, atoi,
}
use nodem_nrf.Text.{codes, cut}
use nodem_nrf.Text.Decimal.{strtol}

abbrev attached : Statuses
attached s =
    if step_index s == 3
    then record { state = step_pending; err = pos 0 }
    else record { state = step_ok; err = pos 0 }

abbrev radio : Radio
radio = record { s_oper = []; s_bars = none; s_tick = 0 }

abbrev good_signal : RadioAnswers
good_signal = record {
  cops_err = pos 0;
  cops_resp = codes "+COPS: 0,2,\"26201\",7\r\nOK";
  cesq_err = pos 0;
  cesq_resp = codes "+CESQ: 99,99,255,255,20,52\r\nOK";
}

line1 : (modem_status_modem_line 32 attached good_signal radio).0 ≡ codes "modem: ok '26201' [.|||]"
unfolding modem_status_modem_line first_not_ok modem_line append_text oper_text bars_text refresh
    fill_bars bars_of first_quoted modem_rsrp_dbm after_fields rsrp_dbm atoi cut strtol
line1 = refl

status_pass-shown_example : (modem_status_pass true boot attached good_signal radio).0 ≡ (
    if all_effectively_ok boot attached all_steps || not (status_shown boot)
    then cleared
    else shown (
        (modem_status_modem_line 32 attached good_signal radio).0
        ++ 10 ∷ modem_status_cloud_line boot attached 32))
status_pass-shown_example = status_pass-shown boot attached good_signal radio
