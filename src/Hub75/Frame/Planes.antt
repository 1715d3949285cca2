-- ===== src/Hub75/Frame/Planes.antt =====
-- Which bytes of the frame the loop over a pixel's bit planes writes.
use nodem_nrf.Base.{
  ℕ, zero, suc, ◌+◌, ◌-◌, ◌*◌, ◌/◌, ◌%◌, ◌^◌, ◌≤◌, ◌<◌, ◌≡◌, ◌⊎◌, inl, inr, refl, sym, ap, ◌∙◌,
  arith, ltb, ◌==◌, ==_iff,
}
use nodem_nrf.Hub75.Frame.{Memory, write, set_half, set_planes}
use nodem_nrf.Hub75.Frame.Halves.{half_of, half-set_half}
use nodem_nrf.Hub75.Digits.{digits-lt}
use nodem_nrf.Base.{Bool-cases}

-- Every byte of the frame is one of the 64 combinations that `lut_px` has an entry for.
abbrev pub IsFrame : Memory → Type 0
IsFrame f = (i : ℕ) → f i < 64

-- Bit plane `k` of a colour.
abbrev pub plane_of : ℕ → ℕ → ℕ
plane_of planes zero = planes % 8
plane_of planes (suc k) = plane_of (planes / 2 ^ 8) k

write-same : (f : Memory) (i v : ℕ) → write f i v i ≡ v
write-same f i v = ground arith

write-other : (f : Memory) (i v j : ℕ) → (i ≡ j → ⊥) → write f i v j ≡ f j
write-other f i v j h = ground (arith, h)

pub set_planes-outside :
    (n e shift planes : ℕ) (f : Memory) (j : ℕ)
    → (j < e) ⊎ (e + n ≤ j)
    → set_planes n e shift planes f j ≡ f j
unfolding set_planes
set_planes-outside zero e shift planes f j h = refl
set_planes-outside (suc n) e shift planes f j h =
    set_planes-outside n (e + 1) shift (planes / 2 ^ 8) (write f e (set_half shift (f e) planes)) j
      (ground arith)
    ∙ write-other f e _ j (λ h'. ground arith)

module _ (shift : ℕ) (side : (shift ≡ 0) ⊎ (shift ≡ 3)) where
  write-IsFrame :
      (f : Memory) (e planes : ℕ) → IsFrame f → IsFrame (write f e (set_half shift (f e) planes))
  write-IsFrame f e planes ok i =
      let small = (half-set_half shift (f e) planes side (ok e)).2 in ground (arith, ok i)

  pub set_planes-IsFrame :
      (n e planes : ℕ) (f : Memory) → IsFrame f → IsFrame (set_planes n e shift planes f)
  unfolding set_planes
  set_planes-IsFrame zero e planes f ok = ok
  set_planes-IsFrame (suc n) e planes f ok =
      set_planes-IsFrame n (e + 1) (planes / 2 ^ 8) _ (write-IsFrame f e planes ok)

  -- Byte `k` of the entry takes plane `k` into the pixel's half, and keeps the other half.
  pub set_planes-inside :
      (n e planes : ℕ) (f : Memory) (k j : ℕ)
      → IsFrame f
      → k < n
      → j ≡ e + k
      → (half_of shift (set_planes n e shift planes f j) ≡ plane_of planes k)
        × (half_of (3 - shift) (set_planes n e shift planes f j) ≡ half_of (3 - shift) (f j))
  unfolding set_planes
  set_planes-inside zero e planes f k j ok h at = absurd (omega arith)
  set_planes-inside (suc n) e planes f zero j ok h at =
      let here : j ≡ e = omega (arith, at) in
      let kept =
        set_planes-outside n (e + 1) shift (planes / 2 ^ 8)
          (write f e (set_half shift (f e) planes)) e (inl (omega arith)) in
      let written = write-same f e (set_half shift (f e) planes) in
      let halves = half-set_half shift (f e) planes side (ok e) in
      rw (here, kept, written) (halves.0, halves.1)
  set_planes-inside (suc n) e planes f (suc k) j ok h at =
      let (new, old) =
        set_planes-inside n (e + 1) (planes / 2 ^ 8) (write f e (set_half shift (f e) planes)) k j
          (write-IsFrame f e planes ok) (omega arith) (omega (arith, at)) in
      let other =
        write-other f e (set_half shift (f e) planes) j (λ (h' : e ≡ j). omega (arith, at, h')) in
      (new, old ∙ ap (half_of (3 - shift)) other)

other_side : (s s' : ℕ) → (s ≡ 0) ⊎ (s ≡ 3) → (s' ≡ 0) ⊎ (s' ≡ 3) → (s ≡ s' → ⊥) → s ≡ 3 - s'
other_side s s' (inl a) (inl b) h = absurd (h (a ∙ sym b))
other_side s s' (inl a) (inr b) h = omega (arith, a, b)
other_side s s' (inr a) (inl b) h = omega (arith, a, b)
other_side s s' (inr a) (inr b) h = absurd (h (a ∙ sym b))

entries_apart :
    (n e e' k : ℕ) → k < n → (e ≡ e' → ⊥) → (e * n + k < e' * n) ⊎ (e' * n + n ≤ e * n + k)
entries_apart n e e' k h apart = elim (Bool-cases (ltb e e')) [
  | inl below ↦ inl (digits-lt e n k e' (ground arith) h)
  | inr above ↦
      let before = digits-lt e' n (n - 1) e (ground (arith, apart)) (omega (arith, h)) in
      inr (omega (arith, before, h))
]

-- A pixel in another entry, or in the other half of the same one, keeps its bits.
pub set_planes-other :
    (n e s e' s' planes : ℕ) (f : Memory) (k : ℕ)
    → (s ≡ 0) ⊎ (s ≡ 3)
    → (s' ≡ 0) ⊎ (s' ≡ 3)
    → (e ≡ e' → s ≡ s' → ⊥)
    → IsFrame f
    → k < n
    → half_of s (set_planes n (e' * n) s' planes f (e * n + k)) ≡ half_of s (f (e * n + k))
set_planes-other n e s e' s' planes f k side side' apart ok h = elim (Bool-cases (e == e')) [
  | inl same ↦
      let e_eq = (==_iff e e').0 same in
      let s_eq = other_side s s' side side' (apart e_eq) in
      rw s_eq
        (set_planes-inside s' side' n (e' * n) planes f k (e * n + k) ok h
          (ap (λ (z : ℕ). z * n + k) e_eq)).1
  | inr differ ↦ ap (half_of s) (
      set_planes-outside n (e' * n) s' planes f (e * n + k)
        (entries_apart n e e' k h (λ (h' : e ≡ e'). cc ((==_iff e e').1 h'))))
]
