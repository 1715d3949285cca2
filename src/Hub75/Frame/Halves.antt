-- ===== src/Hub75/Frame/Halves.antt =====
-- The two halves of a byte of the frame, three bits each.
use Prim.Native.Nat.{bit_and, bit_or}
use nodem_nrf.Base.{
  ℕ, zero, suc, ◌-◌, ◌*◌, ◌/◌, ◌%◌, ◌^◌, ◌<◌, Bool, true, ◌&&◌, ◌≡◌, ◌⊎◌, inl, inr, refl, arith,
  ltb, ◌==◌,
}
use nodem_nrf.Hub75.Frame.{set_half}

-- A test of every number below a bound.
every : ℕ → (ℕ → Bool) → Bool
every zero p = true
every (suc n) p = p n && every n p

every_lem : (n : ℕ) (p : ℕ → Bool) (x : ℕ) → every n p ≡ true → x < n → p x ≡ true
unfolding every
every_lem zero p x h lt = absurd (omega arith)
every_lem (suc n) p x h lt = ground (arith, every_lem n p x)

abbrev pub half_of : ℕ → ℕ → ℕ
half_of shift byte = byte / 2 ^ shift % 8

abbrev is_half : ℕ → ℕ → ℕ → Bool
is_half shift byte p =
    let new = bit_or (bit_and byte (255 - 7 * 2 ^ shift)) (p * 2 ^ shift) in
    (half_of shift new == p)
    && ((half_of (3 - shift) new == half_of (3 - shift) byte) && ltb new 64)

low_table : every 64 (λ byte. every 8 (λ p. is_half 0 byte p)) ≡ true
unfolding every
low_table = refl

high_table : every 64 (λ byte. every 8 (λ p. is_half 3 byte p)) ≡ true
unfolding every
high_table = refl

module _ (shift byte planes : ℕ) (side : (shift ≡ 0) ⊎ (shift ≡ 3)) (small : byte < 64) where
  set_half_table : is_half shift byte (planes % 8) ≡ true
  set_half_table = elim side [
    | inl low ↦
        rw low (every_lem 8 _ (planes % 8) (every_lem 64 _ byte low_table small) (omega arith))
    | inr high ↦
        rw high (every_lem 8 _ (planes % 8) (every_lem 64 _ byte high_table small) (omega arith))
  ]

  pub half-set_half :
      (half_of shift (set_half shift byte planes) ≡ planes % 8)
      × (half_of (3 - shift) (set_half shift byte planes) ≡ half_of (3 - shift) byte)
      × (set_half shift byte planes < 64)
  unfolding set_half
  half-set_half = ground (arith, set_half_table)
