-- ===== src/Text/Search.antt =====
-- `strstr`, `strpbrk` and the literal parts of a `sscanf` format.
use nodem_nrf.Base.{ℕ, Bool, false, ◌||◌, [], ◌∷◌, Option, none, some, ◌==◌, if◌then◌else◌}
use nodem_nrf.Text.{Bytes}

-- What stands behind `prefix` at the start of the text.
unfoldable pub strip_prefix : Bytes → Bytes → Option Bytes
strip_prefix [] s = some s
strip_prefix (p ∷ ps) [] = none
strip_prefix (p ∷ ps) (c ∷ s) = let rest = strip_prefix ps s in if p == c then rest else none

abbrev or_later : Option Bytes → Option Bytes → Option Bytes
or_later (some s) later = some s
or_later none later = later

-- What stands behind the first `needle`.
unfoldable pub after_first : Bytes → Bytes → Option Bytes
after_first needle [] = strip_prefix needle []
after_first needle (c ∷ s) = or_later (strip_prefix needle (c ∷ s)) (after_first needle s)

unfoldable pub elem : ℕ → Bytes → Bool
elem c [] = false
elem c (d ∷ s) = c == d || elem c s

-- What stands before the first of the bytes of `accept`.
unfoldable pub until_any : Bytes → Bytes → Bytes
unfolding elem
until_any accept [] = []
until_any accept (c ∷ s) = let rest = until_any accept s in if elem c accept then [] else c ∷ rest
