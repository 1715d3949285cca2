-- ===== src/Hub75/Task/Stopped.antt =====
-- What `hub75_task` of hub75_task.c does once a panel has failed too often.
use nodem_nrf.Base.{ℕ, ◌+◌, ◌≤◌, true, false, List, [], ◌∷◌, ◌≡◌, refl, ◌∙◌, arith}
use nodem_nrf.Hub75.Task.{
  Panel, Meets, stat_overload, hold_step, is_overload, count_trip, plan_restart, overload_step,
  is_due, restart_step, panel_pass, run_panel, overload_window_ms,
}
use nodem_nrf.Hub75.Task.Restarts.{IsSteady, quiet_hold, steady_config, overload-IsSteady}

abbrev pub IsUnchanged : Meets → Type 0
IsUnchanged m = (m.changes ≡ 0) × (m.hold ≡ false)

abbrev pub AllUnchanged : List Meets → Type 0
AllUnchanged [] = Unit
AllUnchanged (m ∷ ms) = IsUnchanged m × AllUnchanged ms

-- Off with no restart planned, and reported as overloaded.
abbrev pub IsOff : Panel → Type 0
IsOff st = (st.running ≡ false) × (st.restart_at ≡ 0) × (st.stat_state ≡ stat_overload)

hold-IsOff :
    (m : Meets) (st : Panel) → IsUnchanged m → IsSteady st → IsOff st → IsOff (hold_step m st)
unfolding hold_step
hold-IsOff m st same steady off = ground arith

IsOff-overload : (m : Meets) (st : Panel) → IsOff st → IsOff (overload_step m st)
unfolding overload_step plan_restart count_trip
IsOff-overload m st off = ground arith

off_not_due : (now : ℕ) (st : Panel) → IsOff st → is_due now st ≡ false
off_not_due now st off = ground arith

IsOff-restart : (m : Meets) (st : Panel) → IsOff st → restart_step m st ≡ st
unfolding restart_step
IsOff-restart m st off = rw (off_not_due m.now st off) refl

third_trip :
    (m : Meets) (st : Panel)
    → st.running ≡ true
    → 2 ≤ st.trips
    → m.now ≤ st.trip_window + overload_window_ms
    → is_overload m.overload ≡ true
    → IsOff (overload_step m st)
unfolding overload_step plan_restart count_trip
third_trip m st running twice within fails = ground arith

unchanged_pass :
    (m : Meets) (st : Panel)
    → IsUnchanged m
    → IsSteady st
    → IsOff (overload_step m (hold_step m st))
    → IsSteady (panel_pass m st) × IsOff (panel_pass m st)
unfolding panel_pass
unchanged_pass m st (changes, hold) steady off =
    let (_, steady') = quiet_hold 0 m st changes hold steady in
    rw
      (
        steady_config m (hold_step m st) steady',
        IsOff-restart m (overload_step m (hold_step m st)) off,
      )
      (overload-IsSteady m (hold_step m st) steady', off)

stays-IsOff :
    (ms : List Meets) (st : Panel)
    → AllUnchanged ms
    → IsSteady st
    → IsOff st
    → IsOff (run_panel ms st)
unfolding run_panel
stays-IsOff [] st same steady off = off
stays-IsOff (m ∷ ms) st (same, more) steady off =
    let (steady', off') =
      unchanged_pass m st same steady (IsOff-overload m _ (hold-IsOff m st same steady off)) in
    stays-IsOff ms (panel_pass m st) more steady' off'

hold_keeps :
    (m : Meets) (st : Panel)
    → IsUnchanged m
    → IsSteady st
    → ((hold_step m st).running ≡ st.running)
      × ((hold_step m st).trips ≡ st.trips)
      × ((hold_step m st).trip_window ≡ st.trip_window)
unfolding hold_step
hold_keeps m st same steady = ground arith

-- A panel that is not held, runs with the configuration that is set and has failed twice in the
-- window of `OVERLOAD_WINDOW_MS` is switched off by the next failure in it, and stays off and
-- reported as overloaded until the configuration or the hold changes.
pub third-IsOff :
    (m : Meets) (ms : List Meets) (st : Panel)
    → IsSteady st
    → AllUnchanged (m ∷ ms)
    → st.running ≡ true
    → 2 ≤ st.trips
    → m.now ≤ st.trip_window + overload_window_ms
    → is_overload m.overload ≡ true
    → IsOff (run_panel (m ∷ ms) st)
unfolding run_panel
third-IsOff m ms st steady (same, more) running twice within fails =
    let (running', trips, window) = hold_keeps m st same steady in
    let off =
      third_trip m (hold_step m st) (running' ∙ running) (omega (arith, trips, twice))
        (omega (arith, window, within)) fails in
    let (steady', off') = unchanged_pass m st same steady off in
    stays-IsOff ms (panel_pass m st) more steady' off'
