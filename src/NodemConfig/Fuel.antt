-- ===== src/NodemConfig/Fuel.antt =====
-- The rounds of the loop in `parse` of nodem_config.c: its fuel never runs out.
use nodem_nrf.Base.{
  ℕ, zero, suc, ◌+◌, ◌≤◌, [], ◌∷◌, ◌≡◌, refl, sym, ap, ◌∙◌, Option, none, some, arith,
  if◌then◌else◌, ◌>>=◌, length,
}
use nodem_nrf.NodemConfig.{
  Config, next_field, parse_device, parse_geometry, parse_devices, parse, is_empty,
}
use nodem_nrf.Text.{Bytes, cut}

-- The rounds that are left at most.
abbrev pub rounds : Option Bytes → ℕ
rounds none = 0
rounds (some s) = suc (length s)

rounds-cut : (sep : ℕ) (s : Bytes) → rounds (cut sep s).1 ≤ length s
unfolding cut
rounds-cut sep [] = omega arith
rounds-cut sep (c ∷ s) = ground (arith, rounds-cut sep s)

bind-cong :
    {A B : Type 0} (m : Option A) (f g : A → Option B)
    → ((a : A) → m ≡ some a → f a ≡ g a)
    → (m >>= f) ≡ (m >>= g)
bind-cong none f g h = refl
bind-cong (some a) f g h = h a refl

rounds-next_field :
    (s : Bytes) (sep n : ℕ) (field : Bytes) (rest : Option Bytes)
    → next_field (some s) sep n ≡ some (field, rest)
    → rounds rest ≤ length s
unfolding next_field
rounds-next_field s sep n field rest h = ground (arith, rounds-cut sep s)

-- More fuel than the rounds that are left changes nothing.
parse_devices-more :
    (fuel more : ℕ) (s : Option Bytes) (c : Config)
    → rounds s ≤ fuel
    → parse_devices (fuel + more) s c ≡ parse_devices fuel s c
unfolding parse_devices
parse_devices-more fuel more none c h = refl
parse_devices-more zero more (some s) c h = absurd (omega arith)
parse_devices-more (suc fuel) more (some s) c h =
    let step : suc fuel + more ≡ suc (fuel + more) = omega arith in
    ap (λ n. parse_devices n (some s) c) step
    ∙ bind-cong (next_field (some s) b',' 128) _ _ (λ p found.
      bind-cong (if is_empty p.0 then some c else parse_device p.0 c) _ _ (λ c' parsed.
        parse_devices-more fuel more p.1 c'
          (omega (arith, rounds-next_field s b',' 128 p.0 p.1 found))))

-- The loop of `parse` ends before its fuel does: with any more of it `parse` gives the same.
pub parse_fuel :
    (s : Bytes) (more : ℕ)
    → parse s ≡ (
        next_field (some s) b',' 128 >>= λ p.
        parse_geometry p.0 >>= λ c. parse_devices (length s + more) p.1 c)
unfolding parse
parse_fuel s more = bind-cong (next_field (some s) b',' 128) _ _ (λ p found.
    bind-cong (parse_geometry p.0) _ _ (λ c parsed.
      sym (parse_devices-more (length s) more p.1 c (rounds-next_field s b',' 128 p.0 p.1 found))))
