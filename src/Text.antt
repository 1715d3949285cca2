-- ===== src/Text.antt =====
-- What the sources use of the C library on texts. A C string is the list of its bytes, without
-- the NUL that ends it.
pub mod Decimal
pub mod Fields
pub mod Search
use Prim.Native.Char.{code}
use Prim.Native.String.{String}
use nodem_nrf.Base.{
  ℕ, zero, suc, ◌-◌, ◌≤◌, ◌<◌, Bool, true, false, ◌&&◌, List, [], ◌∷◌, ◌++◌, ◌≡◌, refl, ◌↔◌, Option,
  none, some, arith, ◌==◌, if◌then◌else◌, length, take, length-take-le, take_all,
}

abbrev pub Bytes : Type 0
Bytes = List ℕ

-- The bytes of a literal.
abbrev pub codes : String → Bytes
codes String.[] = []
codes (String.◌∷◌ c s) = code c ∷ codes s

-- `strcmp(a, b) == 0`
unfoldable pub equal : Bytes → Bytes → Bool
equal [] [] = true
equal [] (y ∷ ys) = false
equal (x ∷ xs) [] = false
equal (x ∷ xs) (y ∷ ys) = x == y && equal xs ys

pub equal_iff : (a b : Bytes) → (equal a b ≡ true) ↔ (a ≡ b)
unfolding equal
equal_iff [] [] = (λ _. refl, λ _. refl)
equal_iff [] (y ∷ ys) = (λ h. cc, λ h. cc)
equal_iff (x ∷ xs) [] = (λ h. cc, λ h. cc)
equal_iff (x ∷ xs) (y ∷ ys) = ground (arith, equal_iff xs ys)

-- What a buffer of `size` bytes holds after `snprintf(buf, size, …)`, and after
-- `strncpy(buf, s, size - 1)` with a NUL written to its last byte, where 0 < `size`.
abbrev pub truncated : ℕ → Bytes → Bytes
truncated size s = take (size - 1) s

pub truncated_fits : (size : ℕ) (s : Bytes) → length s < size → truncated size s ≡ s
truncated_fits size s h = take_all (size - 1) s (omega arith)

-- The string that a zeroed buffer holds into which `s` was copied.
unfoldable pub until_nul : Bytes → Bytes
until_nul [] = []
until_nul (c ∷ s) = if c == 0 then [] else c ∷ until_nul s

-- What stands before the first `sep`, and what stands behind it: `none` where there is none.
-- `strchr` with its two uses, `end - start` and `end + 1`.
unfoldable pub cut : ℕ → Bytes → Bytes × Option Bytes
cut sep [] = ([], none)
cut sep (c ∷ s) =
    let (before, behind) = cut sep s in if c == sep then ([], some s) else (c ∷ before, behind)

-- `while (*s == ' ') s++`
unfoldable pub skip_spaces : Bytes → Bytes
skip_spaces [] = []
skip_spaces (c ∷ s) = if c == b' ' then skip_spaces s else c ∷ s

abbrev keep_unless_blank : ℕ → Bytes → Bytes
keep_unless_blank c [] = if c == b' ' then [] else c ∷ []
keep_unless_blank c (d ∷ s) = c ∷ d ∷ s

-- `while (len > 0 && s[len - 1] == ' ') len--`
unfoldable pub trim_end : Bytes → Bytes
trim_end [] = []
trim_end (c ∷ s) = keep_unless_blank c (trim_end s)
