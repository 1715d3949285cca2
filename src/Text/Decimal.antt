-- ===== src/Text/Decimal.antt =====
-- Decimal numbers: `strtol(s, &end, 10)` and the conversions %u and %d.
pub mod RoundTrip
use nodem_nrf.Base.{
  ℕ, zero, suc, ◌+◌, ◌-◌, ◌*◌, ◌/◌, ◌%◌, ◌^◌, Bool, true, false, ◌&&◌, ◌||◌, [], ◌∷◌, ◌++◌, ◌≡◌,
  refl, Option, none, some, min, ℤ, pos, negsuc, neg, ltb, leb, ◌==◌, if◌then◌else◌,
}
use nodem_nrf.Text.{Bytes, codes}

-- `isspace`
unfoldable pub is_space : ℕ → Bool
is_space c = c == b' ' || (leb 9 c && leb c 13)

-- `isdigit`
unfoldable pub is_digit : ℕ → Bool
is_digit c = leb b'0' c && leb c b'9'

skip_blanks : Bytes → Bytes
skip_blanks [] = []
skip_blanks (c ∷ s) = if is_space c then skip_blanks s else c ∷ s

-- The number that the leading digits spell behind `n`, and what follows them.
unfoldable pub read_digits : Bytes → ℕ → ℕ × Bytes
unfolding is_digit
read_digits [] n = (n, [])
read_digits (c ∷ s) n =
    let more = read_digits s (n * 10 + (c - b'0')) in if is_digit c then more else (n, c ∷ s)

abbrev starts_with_digit : Bytes → Bool
starts_with_digit [] = false
starts_with_digit (c ∷ s) = is_digit c

-- `long` has 32 bits on the target.
abbrev pub long_max : ℕ
long_max = 2 ^ 31 - 1

-- A value out of range is the nearest end of the range.
abbrev signed : Bool → ℕ → ℤ
signed true n = neg (min n (2 ^ 31))
signed false n = pos (min n long_max)

abbrev number : Bool → Bytes → Option (ℤ × Bytes)
number minus s =
    let (n, rest) = read_digits s 0 in
    if starts_with_digit s then some (signed minus n, rest) else none

sign : Bytes → Option (ℤ × Bytes)
sign [] = none
sign (c ∷ s) =
    if c == b'-' then number true s else if c == b'+' then number false s else number false (c ∷ s)

-- The value and what `end` points to; `none` where no number is read (`end == s`, value 0).
unfoldable pub strtol : Bytes → Option (ℤ × Bytes)
unfolding skip_blanks sign read_digits is_digit is_space
strtol s = sign (skip_blanks s)

show_fuel : ℕ → ℕ → Bytes
show_fuel zero n = []
show_fuel (suc f) n =
    let more = show_fuel f (n / 10) ++ (b'0' + n % 10) ∷ [] in
    if ltb n 10 then (b'0' + n) ∷ [] else more

-- `%u`: one round for each digit, and a number has fewer digits than `n + 1`.
unfoldable pub show : ℕ → Bytes
unfolding show_fuel
show n = show_fuel (suc n) n

-- `%d`
unfoldable pub show_int : ℤ → Bytes
unfolding show
show_int (pos n) = show n
show_int (negsuc n) = b'-' ∷ show (suc n)

strtol_tests :
    (strtol (codes " -0123x") ≡ some (negsuc 122, codes "x"))
    × (strtol (codes "99999999999") ≡ some (pos long_max, []))
    × (strtol (codes "+ 1") ≡ none)
unfolding strtol
strtol_tests = (refl, refl, refl)

show_tests : (show 40960 ≡ codes "40960") × (show 0 ≡ codes "0") × (show_int (neg 7) ≡ codes "-7")
unfolding show_int
show_tests = (refl, refl, refl)
