-- ===== src/Hub75/Task/Restarts.antt =====
-- How often `hub75_task` of hub75_task.c starts a panel again that cannot keep up.
use nodem_nrf.Base.{
  ℕ, suc, ◌+◌, ◌-◌, ◌^◌, ◌≤◌, ◌<◌, Bool, true, false, List, [], ◌∷◌, Option, none, some, ◌≡◌, inl,
  inr, refl, arith, ltb, ◌==◌, Bool-cases, if◌then◌else◌,
}
use nodem_nrf.Hub75.{Driver, MatrixConfig, derive}
use nodem_nrf.Hub75.Alloc.{Buffers, hub75_alloc}
use nodem_nrf.Hub75.Task.{
  Panel, Meets, is_changed, hold_step, start_result, hub75_start, config_step, count_trip,
  plan_restart, overload_step, is_due, restart_step, panel_pass, run_panel, overload_window_ms,
}
use nodem_nrf.Hub75.Task.Off.{
  IsPanel, hold-IsPanel, overload-IsPanel, restart-IsPanel, run-IsPanel, due_phase,
}

-- The passes of a run in which the panel is started again after an overload.
unfoldable pub restarts : List Meets → Panel → ℕ
restarts [] st = 0
restarts (m ∷ ms) st =
    let rest = restarts ms (panel_pass m st) in
    if is_due m.now (overload_step m (config_step m (hold_step m st))) then suc rest else rest

-- No change of the configuration and no hold, from `t` on for as long as `OVERLOAD_WINDOW_MS`.
abbrev pub AllQuiet : ℕ → List Meets → Type 0
AllQuiet t [] = Unit
AllQuiet t (m ∷ ms) =
    (m.changes ≡ 0)
    × (m.hold ≡ false)
    × (t ≤ m.now)
    × (m.now ≤ t + overload_window_ms)
    × AllQuiet t ms

-- A panel that is not held and runs what is configured.
abbrev pub IsSteady : Panel → Type 0
IsSteady st = (st.held ≡ false) × (st.hub75_generation ≡ st.generation) × (st.generation < 2 ^ 32)

-- How many restarts there can be until the end of the window that begins at `t`: the one planned,
-- those of the trips that are left, and those of one more window.
abbrev budget : ℕ → Panel → ℕ
budget t st =
    (if st.restart_at == 0 then 0 else 1) + (2 - st.trips) + (if ltb st.trip_window t then 2 else 0)

start_cost :
    (t : ℕ) (c : MatrixConfig) (r : Driver × Option Buffers) (st : Panel)
    → (budget t (start_result c r st) ≡ budget t st)
      × (IsSteady st → IsSteady (start_result c r st))
unfolding start_result
start_cost t c (d, none) st = (refl, λ s. s)
start_cost t c (d, some b) st = (refl, λ s. s)

pub quiet_hold :
    (t : ℕ) (m : Meets) (st : Panel)
    → m.changes ≡ 0
    → m.hold ≡ false
    → IsSteady st
    → (budget t (hold_step m st) ≡ budget t st) × IsSteady (hold_step m st)
unfolding hold_step
quiet_hold t m st changes hold steady = ground arith

steady_unchanged : (st : Panel) → IsSteady st → is_changed st ≡ false
steady_unchanged st steady = ground arith

pub steady_config : (m : Meets) (st : Panel) → IsSteady st → config_step m st ≡ st
unfolding config_step
steady_config m st steady = rw (steady_unchanged st steady) refl

overload_cost :
    (t : ℕ) (m : Meets) (st : Panel)
    → IsPanel st
    → t ≤ m.now
    → m.now ≤ t + overload_window_ms
    → budget t (overload_step m st) ≤ budget t st
unfolding overload_step plan_restart count_trip
overload_cost t m st ok from until = ground arith

pub overload-IsSteady : (m : Meets) (st : Panel) → IsSteady st → IsSteady (overload_step m st)
unfolding overload_step plan_restart count_trip
overload-IsSteady m st steady = ground arith

restart_cost :
    (t : ℕ) (m : Meets) (st : Panel)
    → IsPanel st
    → (if is_due m.now st then 1 else 0) + budget t (restart_step m st) ≤ budget t st
unfolding restart_step hub75_start
restart_cost t m st ok = elim (Bool-cases (is_due m.now st)) [
  | inl due ↦
      let (held, off, planned, tripped, few) = due_phase m.now st ok due in
      let (same, _) =
        start_cost t st.active (hub75_alloc (derive st.active)) (record st { restart_at = 0 }) in
      rw (due, same) (ground arith)
  | inr later ↦ rw later (omega arith)
]

restart-IsSteady : (m : Meets) (st : Panel) → IsSteady st → IsSteady (restart_step m st)
unfolding restart_step hub75_start
restart-IsSteady m st steady = elim (Bool-cases (is_due m.now st)) [
  | inl due ↦ rw due (
      (start_cost 0 st.active (hub75_alloc (derive st.active)) (record st { restart_at = 0 })).1
        steady)
  | inr later ↦ rw later steady
]

count_le :
    (b : Bool) {r x y z w : ℕ}
    → r ≤ x
    → (if b then 1 else 0) + x ≤ y
    → y ≤ z
    → z ≡ w
    → (if b then suc r else r) ≤ w
count_le true a b c d = omega arith
count_le false a b c d = omega arith

-- What the restarts of a run from `st` on cost.
restarts_cost :
    (t : ℕ) (ms : List Meets) (st : Panel)
    → IsPanel st
    → IsSteady st
    → AllQuiet t ms
    → restarts ms st ≤ budget t st
unfolding restarts panel_pass
restarts_cost t [] st ok steady quiet = omega arith
restarts_cost t (m ∷ ms) st ok steady (changes, hold, from, until, quiet) =
    let held = hold_step m st in
    let (same, steady_held) = quiet_hold t m st changes hold steady in
    let tripped = overload_step m held in
    let ok_tripped = overload-IsPanel m held (hold-IsPanel m st ok) in
    let spent = overload_cost t m held (hold-IsPanel m st ok) from until in
    let due = restart_cost t m tripped ok_tripped in
    let steady' = restart-IsSteady m tripped (overload-IsSteady m held steady_held) in
    let ih =
      restarts_cost t ms (restart_step m tripped) (restart-IsPanel m tripped ok_tripped) steady'
        quiet in
    rw (steady_config m held steady_held) (count_le (is_due m.now tripped) ih due spent same)

budget-le : (t : ℕ) (st : Panel) → IsPanel st → budget t st ≤ 4
budget-le t st ok = ground arith

-- From any state of a run on, while the panel is not held, and for `OVERLOAD_WINDOW_MS` in which
-- neither the configuration nor the hold changes, a panel whose interrupt fails however often is
-- started again at most four times.
pub restarts-le :
    (st : Panel) (before ms : List Meets) (t : ℕ)
    → IsPanel st
    → IsSteady (run_panel before st)
    → AllQuiet t ms
    → restarts ms (run_panel before st) ≤ 4
restarts-le st before ms t ok steady quiet =
    let ok' = run-IsPanel before st ok in
    omega (
      arith,
      restarts_cost t ms (run_panel before st) ok' steady quiet,
      budget-le t (run_panel before st) ok',
    )
