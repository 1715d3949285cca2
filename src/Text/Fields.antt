-- ===== src/Text/Fields.antt =====
-- Cutting and trimming texts that hold no separator and no space.
use nodem_nrf.Base.{ℕ, [], ◌∷◌, ◌++◌, ◌≡◌, ◌≢◌, refl, none, some, arith, All}
use nodem_nrf.Text.{Bytes, cut, skip_spaces, trim_end, until_nul}

-- No byte of the text is `sep`.
abbrev pub Lacks : ℕ → Bytes → Type 0
Lacks sep = All (λ c. c ≢ sep)

pub cut-append :
    (sep : ℕ) (s rest : Bytes) → Lacks sep s → cut sep (s ++ sep ∷ rest) ≡ (s, some rest)
unfolding cut
cut-append sep [] rest h = ground arith
cut-append sep (c ∷ s) rest (hc, h) = ground (arith, cut-append sep s rest h)

pub cut_last : (sep : ℕ) (s : Bytes) → Lacks sep s → cut sep s ≡ (s, none)
unfolding cut
cut_last sep [] h = refl
cut_last sep (c ∷ s) (hc, h) = ground (arith, cut_last sep s h)

pub skip_spaces-Lacks : (s : Bytes) → Lacks b' ' s → skip_spaces s ≡ s
unfolding skip_spaces
skip_spaces-Lacks [] h = refl
skip_spaces-Lacks (c ∷ s) (hc, h) = ground arith

pub trim_end-Lacks : (s : Bytes) → Lacks b' ' s → trim_end s ≡ s
unfolding trim_end
trim_end-Lacks [] h = refl
trim_end-Lacks (c ∷ []) (hc, h) = ground arith
trim_end-Lacks (c ∷ d ∷ s) (hc, h) = ground (arith, trim_end-Lacks (d ∷ s) h)

pub until_nul-Lacks : (s : Bytes) → Lacks 0 s → until_nul s ≡ s
unfolding until_nul
until_nul-Lacks [] h = refl
until_nul-Lacks (c ∷ s) (hc, h) = ground (arith, until_nul-Lacks s h)
