-- ===== src/NodemConfig/Fields.antt =====
-- `next_field` and `next_num` of nodem_config.c on what `format` prints.
use nodem_nrf.Base.{
  ℕ, suc, ◌^◌, ◌≤◌, ◌<◌, true, false, [], ◌∷◌, ◌++◌, ◌≡◌, ◌≢◌, refl, Option, none, some, arith, ℤ,
  pos, negsuc, pos_part, neg_part, ◌≤ℤ◌, All, All-map, length, append-nil,
}
use nodem_nrf.NodemConfig.{next_field, next_num, is_empty}
use nodem_nrf.Text.{Bytes}
use nodem_nrf.Text.Decimal.{strtol, show, show_int, is_digit, long_max}
use nodem_nrf.Text.Decimal.RoundTrip.{show-AllDigits, length-show-le, strtol-show_int, show-ne-nil}
use nodem_nrf.Text.Fields.{Lacks, cut-append, cut_last, skip_spaces-Lacks, trim_end-Lacks}

-- The bytes that a format prints between the separators `:` and `,`.
abbrev pub Plain : Bytes → Type 0
Plain = All (λ c. (c ≢ b':') × (c ≢ b',') × (c ≢ b' ') × (c ≢ 0))

pub Plain-colon : (s : Bytes) → Plain s → Lacks b':' s
Plain-colon s h = All-map _ _ s (λ c p. p.0) h

pub Plain-comma : (s : Bytes) → Plain s → Lacks b',' s
Plain-comma s h = All-map _ _ s (λ c p. p.1) h

pub Plain-space : (s : Bytes) → Plain s → Lacks b' ' s
Plain-space s h = All-map _ _ s (λ c p. p.2) h

digit-plain : (c : ℕ) → is_digit c ≡ true → (c ≢ b':') × (c ≢ b',') × (c ≢ b' ') × (c ≢ 0)
unfolding is_digit
digit-plain c h = ground arith

pub show-Plain : (n : ℕ) → Plain (show n)
show-Plain n = All-map _ _ (show n) digit-plain (show-AllDigits n)

pub show_int-Plain : (z : ℤ) → Plain (show_int z)
unfolding show_int
show_int-Plain (pos n) = show-Plain n
show_int-Plain (negsuc n) =
    ((omega arith, omega arith, omega arith, omega arith), show-Plain (suc n))

-- A number of 16 bits takes at most six bytes.
pub length-show_int-le :
    (z : ℤ) → pos_part z < 10 ^ 5 → neg_part z < 10 ^ 5 → length (show_int z) ≤ 6
unfolding show_int
length-show_int-le (pos n) hp hn = omega (arith, length-show-le 4 n hp)
length-show_int-le (negsuc n) hp hn = omega (arith, length-show-le 4 (suc n) hn)

-- What follows a field: nothing, or the separator.
abbrev pub Follows : ℕ → Bytes → Type 0
Follows sep [] = Unit
Follows sep (c ∷ s) = c ≡ sep

abbrev pub after : Bytes → Option Bytes
after [] = none
after (c ∷ s) = some s

pub next_field-append :
    (s tail : Bytes) (sep n : ℕ)
    → Lacks sep s
    → Lacks b' ' s
    → length s < n
    → Follows sep tail
    → next_field (some (s ++ tail)) sep n ≡ some (s, after tail)
unfolding next_field
next_field-append s [] sep n hs hb l f =
    rw (append-nil, cut_last sep s hs, skip_spaces-Lacks s hb, trim_end-Lacks s hb) (ground arith)
next_field-append s (c ∷ tail) sep n hs hb l f =
    rw (f, cut-append sep s tail hs, skip_spaces-Lacks s hb, trim_end-Lacks s hb) (ground arith)

is_empty-ne-nil : (s : Bytes) → s ≢ [] → is_empty s ≡ false
is_empty-ne-nil [] h = absurd (h refl)
is_empty-ne-nil (c ∷ s) h = refl

show_int-ne-nil : (z : ℤ) → is_empty (show_int z) ≡ false
unfolding show_int
show_int-ne-nil (pos n) = is_empty-ne-nil (show n) (show-ne-nil n)
show_int-ne-nil (negsuc n) = refl

strtol-show_int_whole :
    (z : ℤ) → pos_part z ≤ long_max → neg_part z ≤ 2 ^ 31 → strtol (show_int z) ≡ some (z, [])
strtol-show_int_whole z hp hn = rw append-nil at (strtol-show_int z [] hp hn tt)

-- A printed number is read back.
pub next_num-show_int :
    (z lo hi : ℤ) (tail : Bytes)
    → pos_part z < 10 ^ 5
    → neg_part z < 10 ^ 5
    → lo ≤ℤ z
    → z ≤ℤ hi
    → Follows b':' tail
    → next_num (some (show_int z ++ tail)) lo hi ≡ some (z, after tail)
unfolding next_num
next_num-show_int z lo hi tail hp hn l h f =
    let plain = show_int-Plain z in
    rw
      (
        next_field-append (show_int z) tail b':' 16 (Plain-colon _ plain) (Plain-space _ plain)
            (omega (arith, length-show_int-le z hp hn)) f,
        show_int-ne-nil z,
        strtol-show_int_whole z (omega arith) (omega arith),
      )
      (ground arith)

pub next_num-show :
    (n lo hi : ℕ) (tail : Bytes)
    → n < 10 ^ 5
    → lo ≤ n
    → n ≤ hi
    → Follows b':' tail
    → next_num (some (show n ++ tail)) (pos lo) (pos hi) ≡ some (pos n, after tail)
unfolding show_int
next_num-show n lo hi tail small l h f =
    next_num-show_int (pos n) (pos lo) (pos hi) tail small (omega arith) (omega arith) (omega arith)
      f
