-- ===== src/Hub75/Task/Off.antt =====
-- How often `hub75_task` restarts a panel that cannot keep up.
use nodem_nrf.Base.{
  ℕ, ◌≤◌, ◌<◌, Bool, true, false, List, [], ◌∷◌, Option, none, some, ◌≡◌, ◌⊎◌, inl, inr, refl,
  arith, Bool-cases,
}
use nodem_nrf.Hub75.{Driver, MatrixConfig, derive}
use nodem_nrf.Hub75.Alloc.{Buffers, hub75_alloc}
use nodem_nrf.Hub75.Task.{
  Panel, Meets, hold_step, start_result, hub75_start, start_read, is_changed, config_step,
  count_trip, plan_restart, overload_step, is_due, restart_step, panel_pass, run_panel,
}

-- A panel that runs has no restart planned and has tripped at most twice; one that is off may have
-- one planned, after one trip or two; a panel that is held is off for good.
abbrev pub Phase : Bool → Bool → ℕ → ℕ → Type 0
Phase held running restart_at trips =
    ((running ≡ true) × (held ≡ false) × (restart_at ≡ 0) × (trips < 3))
    ⊎ ((running ≡ false) × (restart_at ≡ 0) × (trips ≤ 3))
    ⊎ ((running ≡ false) × (held ≡ false) × (0 < restart_at) × (0 < trips) × (trips < 3))

abbrev pub IsPanel : Panel → Type 0
IsPanel st = Phase st.held st.running st.restart_at st.trips

start_result-IsPanel :
    (c : MatrixConfig) (r : Driver × Option Buffers) (st : Panel)
    → st.held ≡ false
    → st.running ≡ false
    → st.restart_at ≡ 0
    → st.trips < 3
    → IsPanel (start_result c r st)
unfolding start_result
start_result-IsPanel c (d, none) st held off none_planned few =
    inr (inl (off, none_planned, omega arith))
start_result-IsPanel c (d, some b) st held off none_planned few =
    inl (refl, held, none_planned, few)

pub hold-IsPanel : (m : Meets) (st : Panel) → IsPanel st → IsPanel (hold_step m st)
unfolding hold_step
hold-IsPanel m st ok = ground arith

pub overload-IsPanel : (m : Meets) (st : Panel) → IsPanel st → IsPanel (overload_step m st)
unfolding overload_step plan_restart count_trip
overload-IsPanel m st ok = ground arith

pub due_phase :
    (now : ℕ) (st : Panel)
    → IsPanel st
    → is_due now st ≡ true
    → (st.held ≡ false)
      × (st.running ≡ false)
      × (0 < st.restart_at)
      × (0 < st.trips)
      × (st.trips < 3)
due_phase now st ok due = ground arith

pub restart-IsPanel : (m : Meets) (st : Panel) → IsPanel st → IsPanel (restart_step m st)
unfolding restart_step hub75_start
restart-IsPanel m st ok = elim (Bool-cases (is_due m.now st)) [
  | inl due ↦
      let (held, off, planned, tripped, few) = due_phase m.now st ok due in
      rw due (start_result-IsPanel st.active _ (record st { restart_at = 0 }) held off refl few)
  | inr later ↦ rw later ok
]

read-IsPanel :
    (c : Option MatrixConfig) (st : Panel)
    → st.held ≡ false
    → st.running ≡ false
    → st.restart_at ≡ 0
    → st.trips < 3
    → IsPanel (start_read c st)
unfolding start_read hub75_start
read-IsPanel none st held off none_planned few = inr (inl (off, none_planned, omega arith))
read-IsPanel (some c) st held off none_planned few =
    start_result-IsPanel c (hub75_alloc (derive c)) st held off none_planned few

changed_held : (st : Panel) → is_changed st ≡ true → st.held ≡ false
changed_held st changed = ground arith

pub config-IsPanel : (m : Meets) (st : Panel) → IsPanel st → IsPanel (config_step m st)
unfolding config_step
config-IsPanel m st ok = elim (Bool-cases (is_changed st)) [
  | inl changed ↦
      rw changed (read-IsPanel m.config _ (changed_held st changed) refl refl (omega arith))
  | inr same ↦ rw same ok
]

pub pass-IsPanel : (m : Meets) (st : Panel) → IsPanel st → IsPanel (panel_pass m st)
unfolding panel_pass
pass-IsPanel m st ok =
    restart-IsPanel m _ (overload-IsPanel m _ (config-IsPanel m _ (hold-IsPanel m st ok)))

pub run-IsPanel : (ms : List Meets) (st : Panel) → IsPanel st → IsPanel (run_panel ms st)
unfolding run_panel
run-IsPanel [] st ok = ok
run-IsPanel (m ∷ ms) st ok = run-IsPanel ms _ (pass-IsPanel m st ok)
