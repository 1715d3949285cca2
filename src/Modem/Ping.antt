-- ===== src/Modem/Ping.antt =====
-- The ping interval: `modem_ws_ping_interval_s`.
use nodem_nrf.Base.{
  ℕ, ◌≤◌, true, ◌≡◌, refl, ◌∙◌, inl, inr, arith, ℤ, pos, negsuc, pos_part, Bool-cases,
}
use nodem_nrf.ConfigStore.{Settings, Store, config_get_i32, config_set_i32}
use nodem_nrf.ConfigStore.Find.{has_room}
use nodem_nrf.ConfigStore.RoundTrip.{get-set_i32}
use nodem_nrf.ConfigStore.Table.{entry_i32}
use nodem_nrf.Modem.{ping_in_range, ping_key, modem_ws_ping_interval_s}
use nodem_nrf.Text.{equal_iff}

in_range_bounds :
    (secs : ℤ)
    → ping_in_range secs ≡ true
    → (secs ≡ pos (pos_part secs)) × (1 ≤ pos_part secs) × (pos_part secs ≤ 3600)
unfolding ping_in_range
in_range_bounds (pos n) h = (refl, ground arith, ground arith)
in_range_bounds (negsuc n) h = absurd (ground arith)

module _ {F : Type 0} (𝓢 : Settings F) (s : Store F) where
  -- The interval is from 1 to 3600 seconds, whatever is stored.
  pub ping_interval_range :
      let interval = (modem_ws_ping_interval_s 𝓢 s).0 in (1 ≤ interval) × (interval ≤ 3600)
  unfolding modem_ws_ping_interval_s
  ping_interval_range =
      elim (Bool-cases (ping_in_range (config_get_i32 s.entries ping_key (pos 0)))) [
        | inl good ↦ let (e, lo, hi) = in_range_bounds _ good in rw good (lo, hi)
        | inr bad ↦ rw bad (omega arith, omega arith)
      ]

  call_again :
      (s' : Store F) (n : ℕ)
      → config_get_i32 s'.entries ping_key (pos 0) ≡ pos n
      → ping_in_range (pos n) ≡ true
      → modem_ws_ping_interval_s 𝓢 s' ≡ (n, s')
  unfolding modem_ws_ping_interval_s
  call_again s' n stored good = rw (stored, good)

  -- What was returned is in the store from then on, and a second call returns the same and writes
  -- nothing, where the table has the entry or a free slot for it.
  pub ping_interval_twice :
      has_room s.entries entry_i32 ping_key ≡ true
      → let (interval, s') = modem_ws_ping_interval_s 𝓢 s in
        (config_get_i32 s'.entries ping_key (pos 0) ≡ pos interval)
        × (modem_ws_ping_interval_s 𝓢 s' ≡ (interval, s'))
  unfolding modem_ws_ping_interval_s
  ping_interval_twice room =
      elim (Bool-cases (ping_in_range (config_get_i32 s.entries ping_key (pos 0)))) [
        | inl good ↦
            let (e, lo, hi) = in_range_bounds _ good in rw good (e, call_again s _ e (rw e at good))
        | inr bad ↦
            let s' = (config_set_i32 𝓢 s ping_key (pos 60)).1 in
            let read = (get-set_i32 𝓢 s ping_key (pos 60) (omega arith) room).0 ping_key (pos 0) in
            let stored : config_get_i32 s'.entries ping_key (pos 0) ≡ pos 60 =
              read ∙ rw ((equal_iff ping_key ping_key).1 refl) refl in
            rw bad (stored, call_again s' 60 stored (unfold ping_in_range in refl))
      ]
