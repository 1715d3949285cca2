-- ===== src/Uart/Receive.antt =====
-- uart_task.c: what the interrupt keeps of the bytes that arrive.
use nodem_nrf.Base.{
  ℕ, ◌+◌, ◌≤◌, Bool, true, false, List, [], ◌∷◌, ◌++◌, append_assoc, append-nil, ◌≡◌, ◌⊎◌, inl, inr,
  refl, sym, ap, ◌∙◌, arith, ltb, length, length-append, Bool-cases,
}
use mathlib.Core.Path.{subst}
use nodem_nrf.Text.{Bytes}
use nodem_nrf.Uart.{Receiver, Pending, uart_rx_ring_size, drain, uart_round, uart_rounds, uart_isr}

-- All that arrives in some rounds.
abbrev pub arrivals : List Pending → Bytes
arrivals [] = []
arrivals (r ∷ rs) = r.arrived ++ arrivals rs

-- From `u` to `u'` nothing of the ring is lost, the ring is not longer than its buffer, the thread is
-- notified if it has grown, and where all bytes had room they are there in their order.
pub record Keeps (bytes : Bytes) (u u' : Receiver) : Type 0 where
  pub fits : length u'.ring ≤ uart_rx_ring_size
  pub more : (kept : Bytes) × (u'.ring ≡ u.ring ++ kept)
  pub notifies : (u'.queued ≡ true) ⊎ ((u'.queued ≡ u.queued) × (u'.ring ≡ u.ring))
  pub order :
      length u.ring + (length u.fifo + length bytes) ≤ uart_rx_ring_size
      → u'.ring ++ u'.fifo ≡ u.ring ++ (u.fifo ++ bytes)

drain-Keeps :
    (fifo ring : Bytes) (queued : Bool)
    → length ring ≤ uart_rx_ring_size
    → Keeps [] (record { fifo = fifo; ring = ring; queued = queued }) (drain fifo ring queued)
unfolding drain
drain-Keeps [] ring queued h = record {
  fits = h;
  more = ([], sym (append-nil ring));
  notifies = inr (refl, refl);
  order = λ room. refl;
}
drain-Keeps (b ∷ fifo) ring queued h = elim (Bool-cases (ltb (length ring) uart_rx_ring_size)) [
  | inl room ↦
      let k =
        drain-Keeps fifo (ring ++ (b ∷ [])) true (ground (arith, length-append ring (b ∷ []))) in
      rw room (record {
        fits = k.fits;
        more = (b ∷ k.more.0, k.more.1 ∙ append_assoc ring (b ∷ []) k.more.0);
        notifies = inl (elim k.notifies [ inl woken ↦ woken | inr (woken, same) ↦ woken ]);
        order = λ small.
            k.order (omega (arith, small, length-append ring (b ∷ [])))
            ∙ append_assoc ring (b ∷ []) (fifo ++ []);
      })
  | inr full ↦ rw full (record {
    fits = h;
    more = ([], sym (append-nil ring));
    notifies = inr (refl, refl);
    order = λ small. absurd (ground arith);
  })
]

then-Keeps : (xs ys : Bytes) (u v w : Receiver) → Keeps xs u v → Keeps ys v w → Keeps (xs ++ ys) u w
then-Keeps xs ys u v w k k' = record {
  fits = k'.fits;
  more = (
    k.more.0 ++ k'.more.0,
    k'.more.1
        ∙ ap (λ (r : Bytes). r ++ k'.more.0) k.more.1
        ∙ append_assoc u.ring k.more.0 k'.more.0,
  );
  notifies = elim k'.notifies [
    | inl woken ↦ inl woken
    | inr (same, ring) ↦ elim k.notifies [
      | inl woken ↦ inl (same ∙ woken)
      | inr (same', ring') ↦ inr (same ∙ same', ring ∙ ring')
    ]
  ];
  order = λ room.
      let first = k.order (omega (arith, room, length-append xs ys)) in
      let sizes : length v.ring + length v.fifo ≡ length u.ring + (length u.fifo + length xs) =
        sym (length-append v.ring v.fifo)
        ∙ ap length first
        ∙ (length-append u.ring (u.fifo ++ xs)
            ∙ ap (λ (n : ℕ). length u.ring + n) (length-append u.fifo xs)) in
      k'.order (omega (arith, room, sizes, length-append xs ys))
      ∙ sym (append_assoc v.ring v.fifo ys)
      ∙ ap (λ (r : Bytes). r ++ ys) first
      ∙ append_assoc u.ring (u.fifo ++ xs) ys
      ∙ ap (λ (r : Bytes). u.ring ++ r) (append_assoc u.fifo xs ys);
}

arrive-Keeps :
    (bytes fifo ring : Bytes) (queued : Bool)
    → length ring ≤ uart_rx_ring_size
    → Keeps bytes
        (record { fifo = fifo; ring = ring; queued = queued })
        (record { fifo = fifo ++ bytes; ring = ring; queued = queued })
arrive-Keeps bytes fifo ring queued h = record {
  fits = h;
  more = ([], sym (append-nil ring));
  notifies = inr (refl, refl);
  order = λ room. refl;
}

round-Keeps :
    (r : Pending) (u : Receiver)
    → length u.ring ≤ uart_rx_ring_size
    → Keeps r.arrived u (uart_round r u)
unfolding uart_round
round-Keeps r u h =
    let arrived = arrive-Keeps r.arrived u.fifo u.ring u.queued h in
    elim (Bool-cases r.rx_ready) [
      | inl ready ↦ rw ready (
          subst (λ b. Keeps b u (drain (u.fifo ++ r.arrived) u.ring u.queued))
            (append-nil r.arrived)
            (then-Keeps r.arrived [] u _ _ arrived
              (drain-Keeps (u.fifo ++ r.arrived) u.ring u.queued h)))
      | inr none_ready ↦ rw none_ready arrived
    ]

rounds-Keeps :
    (rs : List Pending) (u : Receiver)
    → length u.ring ≤ uart_rx_ring_size
    → Keeps (arrivals rs) u (uart_rounds rs u)
unfolding uart_rounds
rounds-Keeps [] u h = record {
  fits = h;
  more = ([], sym (append-nil u.ring));
  notifies = inr (refl, refl);
  order = λ room. ap (λ (r : Bytes). u.ring ++ r) (sym (append-nil u.fifo));
}
rounds-Keeps (r ∷ rs) u h =
    let k = round-Keeps r u h in
    then-Keeps r.arrived (arrivals rs) u (uart_round r u) _ k
      (rounds-Keeps rs (uart_round r u) k.fits)

-- The interrupt leaves the ring within its buffer and what was in it first; it wakes the thread if
-- the ring has grown; and where the ring has room for all that arrives, the ring and then the FIFO hold
-- every byte in its order.
pub isr-Keeps :
    (rs : List Pending) (fifo ring : Bytes)
    → length ring ≤ uart_rx_ring_size
    → Keeps
        (arrivals rs)
        (record { fifo = fifo; ring = ring; queued = false })
        (uart_isr rs fifo ring)
unfolding uart_isr
isr-Keeps rs fifo ring h = rounds-Keeps rs (record { fifo = fifo; ring = ring; queued = false }) h
