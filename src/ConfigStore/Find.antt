-- ===== src/ConfigStore/Find.antt =====
-- The entry that `find_entry` returns, and when it returns one.
use nodem_nrf.Base.{
  not, ◌||◌, ℕ, zero, suc, ◌≤◌, Bool, true, false, List, [], ◌∷◌, ◌≡◌, refl, sym, ◌∙◌, inl, inr,
  Option, none, some, arith, if◌then◌else◌, Bool-cases, length, modify,
}
use nodem_nrf.ConfigStore.Table.{
  EntryType, Entry, Scan, behind, holds, entry_at, deref, hit, miss, scan, claim, find_entry,
  max_key_len,
}
use nodem_nrf.Text.{Bytes}
use nodem_nrf.ConfigStore.Lookup.{
  lookup, same, hit_zero, suc-behind, nil-scan, scan-hit, scan-miss_inv, scan-miss, free-behind,
  lookup-modify_hit, lookup-modify_claim, modify-modify, holds-claim,
}

-- A free slot is in the table.
entry_at-modify :
    (es : List Entry) (t : EntryType) (key : Bytes) (i : ℕ) (f : Entry → Entry)
    → scan es t key ≡ miss (some i)
    → entry_at (modify es i f) i ≡ f (entry_at es i)
entry_at-modify [] t key i f h = absurd (nil-scan t key i h)
entry_at-modify (e ∷ es) t key zero f h = refl
entry_at-modify (e ∷ es) t key (suc i) f h =
    let (other, b) = scan-miss_inv e es t key (some (suc i)) h in
    entry_at-modify es t key i f (free-behind e.used (scan es t key) i b)

entry_at-modify_hit :
    (es : List Entry) (t : EntryType) (key : Bytes) (i : ℕ) (f : Entry → Entry)
    → scan es t key ≡ hit i
    → entry_at (modify es i f) i ≡ f (entry_at es i)
unfolding scan
entry_at-modify_hit [] t key i f h = cc
entry_at-modify_hit (e ∷ es) t key zero f h = refl
entry_at-modify_hit (e ∷ es) t key (suc i) f h = elim (Bool-cases (holds e t key)) [
  | inl here ↦ absurd (hit_zero (rw here at h))
  | inr other ↦
      entry_at-modify_hit es t key i f (suc-behind e.used (scan es t key) i (rw other at h))
]

module _ (es : List Entry) (t : EntryType) (key : Bytes) where
  -- How `find_entry` returned an entry: it was there, or a free slot was claimed.
  pub data Found (i : ℕ) (es' : List Entry) : Type 0 where
    there : scan es t key ≡ hit i → es ≡ es' → Found i es'
    claimed : scan es t key ≡ miss (some i) → modify es i (claim t key) ≡ es' → Found i es'

  Found-by :
      (s : Scan) (i : ℕ) (es' : List Entry)
      → scan es t key ≡ s
      → find_entry es key t true ≡ (some i, es')
      → Found i es'
  unfolding find_entry
  Found-by (hit j) i es' e h = there (ground arith) (ground arith)
  Found-by (miss none) i es' e h = absurd (ground arith)
  Found-by (miss (some j)) i es' e h = claimed (ground arith) (ground arith)

  pub find_entry-Found :
      (i : ℕ) (es' : List Entry) → find_entry es key t true ≡ (some i, es') → Found i es'
  find_entry-Found i es' h = Found-by (scan es t key) i es' refl h

  -- The entry that `find_entry` returned is in the table.
  pub entry_at-Found :
      (i : ℕ) (es' : List Entry) (g : Entry → Entry)
      → Found i es'
      → entry_at (modify es' i g) i ≡ g (entry_at es' i)
  entry_at-Found i es' g (there s e) = rw (← e) (entry_at-modify_hit es t key i g s)
  entry_at-Found i es' g (claimed s e) =
      rw (← e, modify-modify, entry_at-modify es t key i (claim t key) s)
        (entry_at-modify es t key i (λ x. g (claim t key x)) s)

-- What a write to the entry that `find_entry` returned changes of the lookups.
module _ (t t' : EntryType) (key key' : Bytes) (g : Entry → Entry) where
  lookup-Found :
      (es : List Entry) (i : ℕ) (es' : List Entry)
      → length key ≤ max_key_len
      → ((e : Entry) → holds (g e) t' key' ≡ holds e t' key')
      → Found es t key i es'
      → lookup t' key' (modify es' i g)
        ≡ (if same t key t' key' then some (g (entry_at es' i)) else lookup t' key' es)
  lookup-Found es i es' short keep (there s e) =
      rw (← e) (lookup-modify_hit t t' key key' g es i keep s)
  lookup-Found es i es' short keep (claimed s e) =
      rw (← e, modify-modify, entry_at-modify es t key i (claim t key) s)
        (lookup-modify_claim t t' key key' (λ x. g (claim t key x)) es i
          (λ x. keep (claim t key x) ∙ holds-claim x t t' key key' short) s)

  pub lookup-find_entry :
      (es : List Entry) (i : ℕ) (es' : List Entry)
      → length key ≤ max_key_len
      → ((e : Entry) → holds (g e) t' key' ≡ holds e t' key')
      → find_entry es key t true ≡ (some i, es')
      → lookup t' key' (modify es' i g)
        ≡ (if same t key t' key' then some (g (entry_at es' i)) else lookup t' key' es)
  lookup-find_entry es i es' short keep h =
      lookup-Found es i es' short keep (find_entry-Found es t key i es' h)

deref-Scan :
    (es : List Entry) (t : EntryType) (key : Bytes) (s : Scan)
    → scan es t key ≡ s
    → ((find_entry es key t false).1 ≡ es)
      × (deref es (find_entry es key t false).0 ≡ lookup t key es)
unfolding find_entry
deref-Scan es t key (hit i) e = rw e (refl, sym (scan-hit es t key i e))
deref-Scan es t key (miss none) e = rw e (refl, sym (scan-miss es t key none e))
deref-Scan es t key (miss (some i)) e = rw e (refl, sym (scan-miss es t key (some i) e))

-- Where `find_entry` is not to create an entry it leaves the table and returns what is looked up.
pub find_entry-lookup :
    (es : List Entry) (t : EntryType) (key : Bytes)
    → ((find_entry es key t false).1 ≡ es)
      × (deref es (find_entry es key t false).0 ≡ lookup t key es)
find_entry-lookup es t key = deref-Scan es t key (scan es t key) refl

-- Some entry is not used.
unfoldable pub any_free : List Entry → Bool
any_free [] = false
any_free (e ∷ es) = not e.used || any_free es

abbrev pub is_some {ℓ} : {A : Type ℓ} → Option A → Bool
is_some none = false
is_some (some a) = true

-- There is an entry for the key, or a free slot for one.
abbrev pub has_room : List Entry → EntryType → Bytes → Bool
has_room es t key = is_some (lookup t key es) || any_free es

abbrev scan_finds : Scan → Bool
scan_finds (hit i) = true
scan_finds (miss free) = is_some free

scan_finds-behind :
    (used : Bool) (s : Scan) → scan_finds (behind used s) ≡ (scan_finds s || not used)
scan_finds-behind used (hit i) = refl
scan_finds-behind true (miss none) = refl
scan_finds-behind true (miss (some i)) = refl
scan_finds-behind false (miss none) = refl
scan_finds-behind false (miss (some i)) = refl

scan-room :
    (es : List Entry) (t : EntryType) (key : Bytes) → scan_finds (scan es t key) ≡ has_room es t key
unfolding scan lookup any_free
scan-room [] t key = refl
scan-room (e ∷ es) t key =
    ground (arith, scan-room es t key, scan_finds-behind e.used (scan es t key))

find_entry-scan :
    (es : List Entry) (t : EntryType) (key : Bytes) (s : Scan)
    → scan es t key ≡ s
    → is_some (find_entry es key t true).0 ≡ scan_finds s
unfolding find_entry
find_entry-scan es t key (hit i) e = rw e
find_entry-scan es t key (miss none) e = rw e
find_entry-scan es t key (miss (some i)) e = rw e

-- `find_entry` returns an entry exactly where there is room for the key.
pub find_entry_room :
    (es : List Entry) (t : EntryType) (key : Bytes)
    → is_some (find_entry es key t true).0 ≡ has_room es t key
find_entry_room es t key = find_entry-scan es t key (scan es t key) refl ∙ scan-room es t key

find_entry_full_scan :
    (es : List Entry) (t : EntryType) (key : Bytes) (s : Scan)
    → scan es t key ≡ s
    → scan_finds s ≡ false
    → find_entry es key t true ≡ (none, es)
unfolding find_entry
find_entry_full_scan es t key (hit i) e h = cc
find_entry_full_scan es t key (miss none) e h = rw e
find_entry_full_scan es t key (miss (some i)) e h = cc

pub find_entry_full :
    (es : List Entry) (t : EntryType) (key : Bytes)
    → has_room es t key ≡ false
    → find_entry es key t true ≡ (none, es)
find_entry_full es t key h =
    find_entry_full_scan es t key (scan es t key) refl (scan-room es t key ∙ h)

-- Where there is room, the entry that `find_entry` returned.
pub find_entry-some :
    (es : List Entry) (t : EntryType) (key : Bytes)
    → has_room es t key ≡ true
    → (i : ℕ) × (es' : List Entry) × (find_entry es key t true ≡ (some i, es'))
find_entry-some es t key h = by_result (find_entry es key t true) refl
  where
    by_result :
        (r : Option ℕ × List Entry)
        → find_entry es key t true ≡ r
        → (i : ℕ) × (es' : List Entry) × (find_entry es key t true ≡ (some i, es'))
    by_result (none, es') e = absurd (ground (arith, find_entry_room es t key))
    by_result (some i, es') e = (i, es', e)
