-- ===== src/Hub75/Task/Drawing.antt =====
-- `hub75_task` of hub75_task.c: when the panel is drawn, and the whole pass of the loop.
use nodem_nrf.Base.{
  ℕ, ◌+◌, ◌-◌, ◌/◌, ◌%◌, ◌^◌, Bool, true, false, not, ◌&&◌, ◌||◌, List, [], ◌∷◌, ◌++◌, Option, none,
  some, min, leb, ◌==◌, if◌then◌else◌,
}
use nodem_nrf.Hub75.{MatrixConfig, Effect, Color}
use nodem_nrf.Hub75.Task.{
  Panel, Meets, hold_step, is_changed, config_step, overload_step, is_due, panel_pass,
}

-- The variables about what is drawn. `fallback_phase` is `none` for -1.
pub record Drawing : Type 0 where
  pub showing_nodem : Bool
  pub fallback_phase : Option ℕ
  pub nodem_dirty : Bool
  pub fx_frame : ℕ
  pub next_fx : ℕ

abbrev pub is_solid : Effect → Bool
is_solid Effect.solid = true
is_solid e = false

unfoldable pub color_moves : Color → Bool
color_moves c = not (is_solid c.effect) && not (c.speed == 0)

unfoldable pub effect_in_use : MatrixConfig → Bool
effect_in_use c = color_moves c.color || color_moves c.off_color

abbrev pub fx_frame_ms : ℕ
fx_frame_ms = 40

-- How long to wait for a wake-up at most: `none` is -1, until woken.
abbrev pub Wait : Type 0
Wait = Option ℕ

abbrev pub restart_wait : ℕ → Panel → Wait
restart_wait now st = if st.restart_at == 0 then none else some (st.restart_at - now)

abbrev pub sooner : Wait → ℕ → Wait
sooner none ms = some ms
sooner (some w) ms = some (min w ms)

-- The calls that draw: `frame_draw_nodem` with its `force`, and `frame_draw_fallback` with its phase.
pub data Draw : Type 0 where
  draw_nodem : Bool → Draw
  draw_fallback : ℕ → Draw

pub record Shown : Type 0 where
  pub drawing : Drawing
  pub wait : Wait
  pub draws : List Draw

abbrev pub is_phase : ℕ → Option ℕ → Bool
is_phase phase none = false
is_phase phase (some p) = phase == p

-- The fallback edge, whose phase changes once a second. (Where the phase is the old one, keeping it
-- is the same as setting it.)
unfoldable pub fallback_step : Meets → Bool → List Draw → Drawing → Wait → Shown
fallback_step m animate drawn s wait =
    let phase = m.later / 1000 % 2 in
    record {
      drawing = record s { showing_nodem = false; fallback_phase = some phase };
      wait = sooner wait (1000 - m.later % 1000);
      draws =
          if not (is_phase phase s.fallback_phase) || animate
          then drawn ++ (draw_fallback phase ∷ [])
          else drawn;
    }

unfoldable pub draw_step : Meets → Bool → Drawing → Wait → Shown
draw_step m animate s wait =
    let s' = record s { nodem_dirty = false } in
    let tries = s.nodem_dirty || animate in
    let drawn = if tries then draw_nodem (animate || not s.showing_nodem) ∷ [] else [] in
    if tries && m.draws
    then record { drawing = record s' { showing_nodem = true }; wait = wait; draws = drawn }
    else if not s.showing_nodem || not m.present
    then fallback_step m animate drawn s' wait
    else record { drawing = s'; wait = wait; draws = drawn }

-- The part of a pass for a panel that runs.
unfoldable pub show_step : Meets → MatrixConfig → Drawing → Wait → Shown
show_step m c s wait =
    let moves = effect_in_use c in
    let animate = moves && leb s.next_fx m.later in
    let s' =
      if animate
      then record s { fx_frame = (s.fx_frame + 1) % 2 ^ 32; next_fx = m.later + fx_frame_ms }
      else s in
    draw_step m animate s' (if moves then some (s'.next_fx - m.later) else wait)

abbrev pub redraw_if : Bool → Drawing → Drawing
redraw_if b s =
    if b then record s { showing_nodem = false; fallback_phase = none; nodem_dirty = true } else s

-- A pass of the loop, with how long it waits at its end.
unfoldable pub hub75_task : Meets → Panel × Drawing → Panel × Shown
hub75_task m (st, s) =
    let held = hold_step m st in
    let tripped = overload_step m (config_step m held) in
    let st' = panel_pass m st in
    let marked = record s { nodem_dirty = s.nodem_dirty || m.submitted } in
    let s' = redraw_if (is_changed held || is_due m.now tripped) marked in
    let wait = restart_wait m.now st' in
    let shown = show_step m st'.active s' wait in
    (st', if st'.running then shown else record { drawing = s'; wait = wait; draws = [] })
