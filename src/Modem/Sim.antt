-- ===== src/Modem/Sim.antt =====
-- How long `step_sim_check` waits for the SIM.
use nodem_nrf.Base.{
  ℕ, ◌+◌, ◌*◌, ◌≤◌, Bool, true, false, ◌&&◌, List, [], ◌∷◌, ◌≡◌, refl, inl, inr, Option, none, some,
  arith, ℤ, leb, Bool-cases, length,
}
use nodem_nrf.Base.Errno.{is_ok}
use nodem_nrf.Modem.Connect.{
  SimPoll, SimAnswers, sim_polls, step_sim_check, sim_ready_timeout_ms, cert_provision,
}

-- Polls that are at least SIM_POLL_INTERVAL_MS apart, the first at or behind `uptime`.
abbrev pub Spaced : ℕ → List SimPoll → Type 0
Spaced uptime [] = Unit
Spaced uptime (p ∷ ps) = (uptime ≤ p.uptime) × Spaced (p.uptime + 500) ps

abbrev pub is_done : Option ℤ → Bool
is_done none = false
is_done (some err) = true

polls_end :
    (deadline uptime : ℕ) (p : SimPoll) (ps : List SimPoll)
    → Spaced uptime (p ∷ ps)
    → deadline ≤ uptime + 500 * length ps
    → is_done (sim_polls deadline (p ∷ ps)) ≡ true
unfolding sim_polls
polls_end deadline uptime p [] (h, _) d =
    let late : leb deadline p.uptime ≡ true = ground arith in
    elim (Bool-cases (is_ok p.err && p.ready)) [
      | inl ready ↦ rw ready refl
      | inr waits ↦ rw (waits, late) refl
    ]
polls_end deadline uptime p (q ∷ ps) (h, hs) d =
    let rest = polls_end deadline (p.uptime + 500) q ps hs (omega arith) in
    elim (Bool-cases (is_ok p.err && p.ready)) [
      | inl ready ↦ rw ready refl
      | inr waits ↦ elim (Bool-cases (leb deadline p.uptime)) [
        | inl late ↦ rw (waits, late) refl
        | inr early ↦ rw (waits, early) rest
      ]
    ]

-- The SIM check ends: 31 polls, at least half a second apart, are enough, whatever the modem
-- answers.
pub sim_check_ends :
    (a : SimAnswers)
    → Spaced a.uptime a.polls
    → 31 ≤ length a.polls
    → is_done (step_sim_check a) ≡ true
unfolding step_sim_check
sim_check_ends a h l = elim (Bool-cases (is_ok a.offline_err)) [
  | inr bad ↦ rw bad refl
  | inl online ↦ elim (Bool-cases (is_ok (cert_provision a.cert))) [
    | inr bad ↦ rw (online, bad) refl
    | inl provisioned ↦ elim (Bool-cases (is_ok a.normal_err)) [
      | inr bad ↦ rw (online, provisioned, bad) refl
      | inl normal ↦ rw (online, provisioned, normal) (polls_enough a.uptime a.polls h l)
    ]
  ]
]
  where
    polls_enough :
        (uptime : ℕ) (ps : List SimPoll)
        → Spaced uptime ps
        → 31 ≤ length ps
        → is_done (sim_polls (uptime + sim_ready_timeout_ms) ps) ≡ true
    polls_enough uptime [] h l = absurd (omega arith)
    polls_enough uptime (p ∷ ps) h l =
        polls_end (uptime + sim_ready_timeout_ms) uptime p ps h (omega arith)
