-- ===== src/ConfigStore/Lookup.antt =====
-- What `find_entry` finds, and what a write to the entry that it returns changes.
use nodem_nrf.Base.{
  ℕ, zero, suc, ◌≤◌, Bool, true, false, ◌&&◌, List, [], ◌∷◌, ◌≡◌, refl, ap, inl, inr, Option, none,
  some, arith, if◌then◌else◌, Bool-cases, length, modify,
}
use nodem_nrf.ConfigStore.Table.{
  EntryType, Entry, Scan, behind, same_type, holds, entry_at, hit, miss, scan, claim, max_key_len,
}
use nodem_nrf.Text.{Bytes, equal, equal_iff, truncated_fits}

-- The table as a partial function: the first used entry of that type and key.
unfoldable pub lookup : EntryType → Bytes → List Entry → Option Entry
lookup t key [] = none
lookup t key (e ∷ es) = if holds e t key then some e else lookup t key es

abbrev pub same : EntryType → Bytes → EntryType → Bytes → Bool
same t key t' key' = same_type t t' && equal key key'

pub same_refl : (t : EntryType) (key : Bytes) → same t key t key ≡ true
same_refl t key = ground (arith, (equal_iff key key).1 refl)

zero-behind : (used : Bool) (s : Scan) → behind used s ≡ hit 0 → ⊥
zero-behind used (hit i) h = cc
zero-behind true (miss f) h = cc
zero-behind false (miss f) h = cc

pub hit_zero : {i : ℕ} → hit 0 ≡ hit (suc i) → ⊥
hit_zero h = cc

pub suc-behind : (used : Bool) (s : Scan) (i : ℕ) → behind used s ≡ hit (suc i) → s ≡ hit i
suc-behind used (hit j) i h = cc
suc-behind true (miss f) i h = cc
suc-behind false (miss f) i h = cc

pub nil-scan : (t : EntryType) (key : Bytes) (i : ℕ) → scan [] t key ≡ miss (some i) → ⊥
unfolding scan
nil-scan t key i h = cc

-- A scan finds what is looked up.
pub scan-hit :
    (es : List Entry) (t : EntryType) (key : Bytes) (i : ℕ)
    → scan es t key ≡ hit i
    → lookup t key es ≡ some (entry_at es i)
unfolding scan lookup
scan-hit [] t key i h = cc
scan-hit (e ∷ es) t key zero h = elim (Bool-cases (holds e t key)) [
  | inl here ↦ rw here refl
  | inr other ↦ absurd (zero-behind e.used (scan es t key) (rw other at h))
]
scan-hit (e ∷ es) t key (suc i) h = elim (Bool-cases (holds e t key)) [
  | inl here ↦ absurd (hit_zero (rw here at h))
  | inr other ↦ rw other (scan-hit es t key i (suc-behind e.used (scan es t key) i (rw other at h)))
]

-- Where a scan past an entry misses, the entry does not match and the scan of the rest misses.
pub scan-miss_inv :
    (e : Entry) (es : List Entry) (t : EntryType) (key : Bytes) (free : Option ℕ)
    → scan (e ∷ es) t key ≡ miss free
    → (holds e t key ≡ false) × (behind e.used (scan es t key) ≡ miss free)
unfolding scan
scan-miss_inv e es t key free h = ground arith

pub miss-behind :
    (used : Bool) (s : Scan) (free : Option ℕ)
    → behind used s ≡ miss free
    → (f : Option ℕ) × (s ≡ miss f)
miss-behind used (hit i) free h = cc
miss-behind used (miss f) free h = (f, refl)

pub scan-miss :
    (es : List Entry) (t : EntryType) (key : Bytes) (free : Option ℕ)
    → scan es t key ≡ miss free
    → lookup t key es ≡ none
unfolding lookup
scan-miss [] t key free h = refl
scan-miss (e ∷ es) t key free h =
    let (other, b) = scan-miss_inv e es t key free h in
    let (f, m) = miss-behind e.used (scan es t key) free b in rw other (scan-miss es t key f m)

-- A matching entry matches what has its type and key.
holds-same :
    (e : Entry) (t t' : EntryType) (key key' : Bytes)
    → same t key t' key' ≡ true
    → holds e t' key' ≡ holds e t key
unfolding holds
holds-same e t t' key key' h =
    ground (arith, equal_iff e.key key, equal_iff e.key key', equal_iff key key')

holds_of_holds :
    (e : Entry) (t t' : EntryType) (key key' : Bytes)
    → holds e t key ≡ true
    → holds e t' key' ≡ same t key t' key'
unfolding holds
holds_of_holds e t t' key key' h =
    ground (arith, equal_iff e.key key, equal_iff e.key key', equal_iff key key')

pub holds_unused :
    (e : Entry) (t : EntryType) (key : Bytes) → e.used ≡ false → holds e t key ≡ false
unfolding holds
holds_unused e t key h = rw h

pub unused-behind : (used : Bool) (s : Scan) → behind used s ≡ miss (some 0) → used ≡ false
unused-behind false s h = refl
unused-behind true (hit i) h = cc
unused-behind true (miss none) h = cc
unused-behind true (miss (some j)) h = cc

pub free-behind :
    (used : Bool) (s : Scan) (i : ℕ) → behind used s ≡ miss (some (suc i)) → s ≡ miss (some i)
free-behind used (hit j) i h = cc
free-behind false (miss f) i h = cc
free-behind true (miss none) i h = cc
free-behind true (miss (some j)) i h = cc

-- A write to the matching entry that keeps its type and key shows in its lookup and in no other.
module _ (t t' : EntryType) (key key' : Bytes) (g : Entry → Entry) where
  pub lookup-modify_hit :
      (es : List Entry) (i : ℕ)
      → ((e : Entry) → holds (g e) t' key' ≡ holds e t' key')
      → scan es t key ≡ hit i
      → lookup t' key' (modify es i g)
        ≡ (if same t key t' key' then some (g (entry_at es i)) else lookup t' key' es)
  unfolding scan lookup
  lookup-modify_hit [] i keep h = cc
  lookup-modify_hit (e ∷ es) zero keep h = elim (Bool-cases (holds e t key)) [
    | inl here ↦ rw (keep e, holds_of_holds e t t' key key' here) (ground arith)
    | inr other ↦ absurd (zero-behind e.used (scan es t key) (rw other at h))
  ]
  lookup-modify_hit (e ∷ es) (suc i) keep h = elim (Bool-cases (holds e t key)) [
    | inl here ↦ absurd (hit_zero (rw here at h))
    | inr other ↦
        let ih =
          lookup-modify_hit es i keep (suc-behind e.used (scan es t key) i (rw other at h)) in
        ground (arith, holds-same e t t' key key')
  ]

  -- So does a write to the free slot that claims it for the type and key.
  pub lookup-modify_claim :
      (es : List Entry) (i : ℕ)
      → ((e : Entry) → holds (g e) t' key' ≡ same t key t' key')
      → scan es t key ≡ miss (some i)
      → lookup t' key' (modify es i g)
        ≡ (if same t key t' key' then some (g (entry_at es i)) else lookup t' key' es)
  unfolding lookup
  lookup-modify_claim [] i keep h = absurd (nil-scan t key i h)
  lookup-modify_claim (e ∷ es) zero keep h =
      let (other, b) = scan-miss_inv e es t key (some 0) h in
      let free = holds_unused e t' key' (unused-behind e.used (scan es t key) b) in
      ground (arith, keep e)
  lookup-modify_claim (e ∷ es) (suc i) keep h =
      let (other, b) = scan-miss_inv e es t key (some (suc i)) h in
      let ih = lookup-modify_claim es i keep (free-behind e.used (scan es t key) i b) in
      ground (arith, holds-same e t t' key key')

pub modify-modify {ℓ} :
    {A : Type ℓ} (xs : List A) (i : ℕ) (f g : A → A)
    → modify (modify xs i f) i g ≡ modify xs i (λ x. g (f x))
modify-modify [] i f g = refl
modify-modify (x ∷ xs) zero f g = refl
modify-modify (x ∷ xs) (suc i) f g = ap (◌∷◌ x) (modify-modify xs i f g)

pub holds-claim :
    (e : Entry) (t t' : EntryType) (key key' : Bytes)
    → length key ≤ max_key_len
    → holds (claim t key e) t' key' ≡ same t key t' key'
unfolding holds claim
holds-claim e t t' key key' h = rw (truncated_fits 16 key (omega arith)) refl
