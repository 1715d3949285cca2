-- ===== src/Examples/Trips.antt =====
-- Overloads of the matrix.
use nodem_nrf.Base.{ℕ, ◌≤◌, true, false, [], ◌∷◌, inl, refl, none, arith}
use nodem_nrf.Examples.Matrix.{four_panels}
use nodem_nrf.Hub75.Interrupt.{overload_overrun}
use nodem_nrf.Hub75.Task.{Panel, Meets, stat_ok, run_panel}
use nodem_nrf.Hub75.Task.Restarts.{restarts, restarts-le}
use nodem_nrf.Hub75.Task.Stopped.{IsOff, third-IsOff}

abbrev runs : Panel
runs = record {
  hub75_generation = 1;
  generation = 1;
  held = false;
  running = true;
  active = four_panels;
  stat_state = stat_ok;
  restart_at = 0;
  trip_window = 0;
  trips = 0;
}

abbrev fails : ℕ → Meets
fails now = record {
  changes = 0;
  hold = false;
  config = none;
  overload = overload_overrun;
  now = now;
  later = now;
  submitted = false;
  draws = true;
  present = true;
}

restarts-le_example : restarts (fails 20000 ∷ fails 20200 ∷ fails 20400 ∷ []) runs ≤ 4
unfolding run_panel
restarts-le_example =
    restarts-le runs [] (fails 20000 ∷ fails 20200 ∷ fails 20400 ∷ []) 20000
      (inl (refl, refl, refl, omega arith)) (refl, refl, omega arith)
      (
        refl,
        refl,
        omega arith,
        omega arith,
        (refl, refl, omega arith, omega arith, (refl, refl, omega arith, omega arith, tt)),
      )

third-IsOff_example :
    IsOff
      (run_panel (fails 21000 ∷ fails 21200 ∷ []) (record runs { trip_window = 20000; trips = 2 }))
third-IsOff_example =
    third-IsOff (fails 21000) (fails 21200 ∷ []) (record runs { trip_window = 20000; trips = 2 })
      (refl, refl, omega arith) ((refl, refl), ((refl, refl), tt)) refl (omega arith) (omega arith)
      refl
