-- ===== src/Hub75/Task.antt =====
-- `hub75_task` of hub75_task.c: when the panel runs, and what an overload does about it.
pub mod Off
pub mod Restarts
pub mod Stopped
pub mod Drawing
use nodem_nrf.Base.{
  ℕ, zero, suc, ◌+◌, ◌-◌, ◌/◌, ◌%◌, ◌^◌, Bool, true, false, not, ◌&&◌, ◌||◌, List, [], ◌∷◌, ◌++◌,
  Option, none, some, min, leb, ltb, ◌==◌, if◌then◌else◌,
}
use nodem_nrf.Hub75.{Driver, MatrixConfig, Effect, Color, derive}
use nodem_nrf.Hub75.Alloc.{Buffers, hub75_alloc}
use nodem_nrf.Hub75.Chain.{differ}
use nodem_nrf.Hub75.Interrupt.{Overload, overload_none, overload_overrun, overload_stuck}

abbrev pub overload_restart_ms : ℕ
overload_restart_ms = 200

abbrev pub overload_trips : ℕ
overload_trips = 3

abbrev pub overload_window_ms : ℕ
overload_window_ms = 10000

-- `enum hub75_stat`
pub data Stat : Type 0 where
  stat_disabled stat_ok stat_low_mem stat_no_mem stat_overload : Stat

-- The variables about whether the panel runs: the thread's own, `hub75_generation`, `active`,
-- `running` and `stat_state`. `restart_at` is 0 for no restart.
pub record Panel : Type 0 where
  pub hub75_generation : ℕ
  pub generation : ℕ
  pub held : Bool
  pub running : Bool
  pub active : MatrixConfig
  pub stat_state : Stat
  pub restart_at : ℕ
  pub trip_window : ℕ
  pub trips : ℕ

-- What a pass of the loop meets: how often `hub75_config_set` has bumped the generation since the
-- last one, `hub75_hold`, what `hub75_config_read` gives, the interrupt's `hub75_overload`, the two
-- times, whether `hub75_task_submit` came in between, what `frame_draw_nodem` returns and whether
-- the matrix is mapped.
pub record Meets : Type 0 where
  pub changes : ℕ
  pub hold : Bool
  pub config : Option MatrixConfig
  pub overload : Overload
  pub now : ℕ
  pub later : ℕ
  pub submitted : Bool
  pub draws : Bool
  pub present : Bool

unfoldable pub hold_step : Meets → Panel → Panel
hold_step m st =
    let st' = record st { hub75_generation = (st.hub75_generation + m.changes) % 2 ^ 32 } in
    if not (differ m.hold st'.held)
    then st'
    else if m.hold
    then record st' { held = true; running = false; restart_at = 0 }
    else record st' { held = false; hub75_generation = (st'.hub75_generation + 1) % 2 ^ 32 }

-- `hub75_start` on a panel that is stopped.
unfoldable pub start_result : MatrixConfig → Driver × Option Buffers → Panel → Panel
start_result c (d, none) st = record st { active = c; stat_state = stat_no_mem }
start_result c (d, some b) st = record st {
  active = c;
  running = true;
  stat_state = if ltb d.drive_panels d.total_panels then stat_low_mem else stat_ok;
}

unfoldable pub hub75_start : MatrixConfig → Panel → Panel
hub75_start c st = start_result c (hub75_alloc (derive c)) st

unfoldable pub start_read : Option MatrixConfig → Panel → Panel
start_read none st = record st { stat_state = stat_disabled }
start_read (some c) st = hub75_start c st

abbrev pub is_changed : Panel → Bool
is_changed st = not (st.hub75_generation == st.generation) && not st.held

unfoldable pub config_step : Meets → Panel → Panel
config_step m st =
    if is_changed st
    then start_read m.config
        (record st { generation = st.hub75_generation; running = false; restart_at = 0; trips = 0 })
    else st

unfoldable pub count_trip : ℕ → Panel → Panel
count_trip now st =
    if ltb overload_window_ms (now - st.trip_window)
    then record st { trip_window = now; trips = 1 }
    else record st { trips = st.trips + 1 }

unfoldable pub plan_restart : ℕ → Panel → Panel
plan_restart now st =
    if leb overload_trips st.trips
    then record st { restart_at = 0; stat_state = stat_overload }
    else record st { restart_at = now + overload_restart_ms }

abbrev pub is_overload : Overload → Bool
is_overload overload_none = false
is_overload overload_overrun = true
is_overload overload_stuck = true

unfoldable pub overload_step : Meets → Panel → Panel
overload_step m st =
    if is_overload m.overload && st.running
    then plan_restart m.now (count_trip m.now (record st { running = false }))
    else st

abbrev pub is_due : ℕ → Panel → Bool
is_due now st = not st.running && (not (st.restart_at == 0) && leb st.restart_at now)

unfoldable pub restart_step : Meets → Panel → Panel
restart_step m st =
    if is_due m.now st then hub75_start st.active (record st { restart_at = 0 }) else st

-- A pass of the loop as far as it is about the panel.
unfoldable pub panel_pass : Meets → Panel → Panel
panel_pass m st = restart_step m (overload_step m (config_step m (hold_step m st)))

unfoldable pub run_panel : List Meets → Panel → Panel
run_panel [] st = st
run_panel (m ∷ ms) st = run_panel ms (panel_pass m st)
