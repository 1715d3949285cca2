-- ===== src/ConfigStore/Invariant.antt =====
-- What holds of the table between two calls.
use nodem_nrf.Base.{
  ℕ, zero, suc, ◌≤◌, true, false, List, [], ◌∷◌, ◌≡◌, refl, ◌∙◌, inl, inr, Option, none, some,
  arith, ℤ, Bool-cases, length, modify, replicate, ltb, All, All-modify, All-replicate,
  length-modify, length-take-le,
}
use nodem_nrf.ConfigStore.{Settings, Store, config_set_str, config_set_i32, put_str, put_i32}
use nodem_nrf.ConfigStore.Lookup.{
  miss-behind, lookup, same, scan-miss, scan-miss_inv, free-behind, lookup-modify_claim,
  holds-claim,
}
use nodem_nrf.ConfigStore.Find.{
  Found, there, claimed, find_entry-Found, has_room, find_entry-some, find_entry_full,
}
use nodem_nrf.ConfigStore.RoundTrip.{too_long, set_str_entries, set_i32_entries}
use nodem_nrf.ConfigStore.Table.{
  EntryType, entry_str, entry_i32, Entry, holds, scan, miss, claim, empty_table, blank, max_entries,
  max_key_len, max_str_len,
}
use nodem_nrf.Text.{Bytes, equal_iff, truncated_fits}

-- The arrays of an entry are not overrun.
pub record Fits (e : Entry) : Type 0 where
  pub key_fits : length e.key ≤ max_key_len
  pub str_fits : length e.str ≤ max_str_len

-- No used entry is shadowed: its type and key occur once.
abbrev pub Unique : List Entry → Type 0
Unique [] = Unit
Unique (e ∷ es) = (e.used ≡ true → lookup e.type e.key es ≡ none) × Unique es

pub record IsValid (es : List Entry) : Type 0 where
  pub size : length es ≡ max_entries
  pub fits : All Fits es
  pub unique : Unique es

-- A change of an entry's value alone.
record KeepsKey (g : Entry → Entry) : Type 0 where
  used : (e : Entry) → (g e).used ≡ e.used
  type : (e : Entry) → (g e).type ≡ e.type
  key : (e : Entry) → (g e).key ≡ e.key
  fits : (e : Entry) → Fits e → Fits (g e)

lookup-blank : (n : ℕ) (t : EntryType) (key : Bytes) → lookup t key (replicate n blank) ≡ none
unfolding lookup holds
lookup-blank zero t key = refl
lookup-blank (suc n) t key = lookup-blank n t key

Unique-blank : (n : ℕ) → Unique (replicate n blank)
Unique-blank zero = tt
Unique-blank (suc n) = (λ h. cc, Unique-blank n)

-- The table at boot.
pub empty_table-IsValid : IsValid empty_table
empty_table-IsValid = record {
  size = refl;
  fits = All-replicate Fits 16 blank (omega arith);
  unique = Unique-blank 16;
}

module _ (g : Entry → Entry) (keeps : KeepsKey g) where
  holds-keeps : (e : Entry) (t : EntryType) (key : Bytes) → holds (g e) t key ≡ holds e t key
  unfolding holds
  holds-keeps e t key = rw (keeps.used e, keeps.type e, keeps.key e)

  lookup-modify-none :
      (es : List Entry) (i : ℕ) (t : EntryType) (key : Bytes)
      → lookup t key es ≡ none
      → lookup t key (modify es i g) ≡ none
  unfolding lookup
  lookup-modify-none [] i t key h = refl
  lookup-modify-none (e ∷ es) zero t key h = ground (arith, holds-keeps e t key)
  lookup-modify-none (e ∷ es) (suc i) t key h = ground (arith, lookup-modify-none es i t key)

  Unique-modify : (es : List Entry) (i : ℕ) → Unique es → Unique (modify es i g)
  Unique-modify [] i u = tt
  Unique-modify (e ∷ es) zero (h, u) = (rw (keeps.used e, keeps.type e, keeps.key e) h, u)
  Unique-modify (e ∷ es) (suc i) (h, u) =
      (λ used. lookup-modify-none es i e.type e.key (h used), Unique-modify es i u)

-- A used entry that does not match has another type or key.
other_key :
    (e : Entry) (t : EntryType) (key : Bytes)
    → e.used ≡ true
    → holds e t key ≡ false
    → same t key e.type e.key ≡ false
unfolding holds
other_key e t key u h = ground (arith, equal_iff e.key key, equal_iff key e.key)

module _ (t : EntryType) (key : Bytes) (short : length key ≤ max_key_len) where
  claim-Fits : (e : Entry) → Fits e → Fits (claim t key e)
  unfolding claim
  claim-Fits e f = record { key_fits = length-take-le 15 key; str_fits = f.str_fits }

  claimed_alone :
      (e : Entry) (es : List Entry) (f : Option ℕ)
      → scan es t key ≡ miss f
      → lookup (claim t key e).type (claim t key e).key es ≡ none
  unfolding claim
  claimed_alone e es f m = rw (truncated_fits 16 key (omega arith)) (scan-miss es t key f m)

  Unique-claim :
      (es : List Entry) (i : ℕ)
      → scan es t key ≡ miss (some i)
      → Unique es
      → Unique (modify es i (claim t key))
  Unique-claim [] i s u = tt
  Unique-claim (e ∷ es) zero s (h, u) =
      let (other, b) = scan-miss_inv e es t key (some 0) s in
      let (f, m) = miss-behind e.used (scan es t key) (some 0) b in (λ _. claimed_alone e es f m, u)
  Unique-claim (e ∷ es) (suc i) s (h, u) =
      let (other, b) = scan-miss_inv e es t key (some (suc i)) s in
      let rest = free-behind e.used (scan es t key) i b in
      (
        λ used.
            let put =
              lookup-modify_claim t e.type key e.key (claim t key) es i
                (λ x. holds-claim x t e.type key e.key short) rest in
            rw (put, other_key e t key used other) (h used),
        Unique-claim es i rest u,
      )

  Found-IsValid :
      (es : List Entry) (i : ℕ) (es' : List Entry) (g : Entry → Entry)
      → KeepsKey g
      → IsValid es
      → Found es t key i es'
      → IsValid (modify es' i g)
  Found-IsValid es i es' g keeps v (there s e) = rw (← e) (record {
    size = length-modify es i g ∙ v.size;
    fits = All-modify Fits es i g keeps.fits v.fits;
    unique = Unique-modify g keeps es i v.unique;
  })
  Found-IsValid es i es' g keeps v (claimed s e) = rw (← e) (record {
    size =
        length-modify (modify es i (claim t key)) i g ∙ length-modify es i (claim t key) ∙ v.size;
    fits =
        All-modify Fits (modify es i (claim t key)) i g keeps.fits
          (All-modify Fits es i (claim t key) claim-Fits v.fits);
    unique = Unique-modify g keeps (modify es i (claim t key)) i (Unique-claim es i s v.unique);
  })

put_str-KeepsKey : (val : Bytes) → KeepsKey (put_str val)
unfolding put_str
put_str-KeepsKey val = record {
  used = λ e. refl;
  type = λ e. refl;
  key = λ e. refl;
  fits = λ e f. record { key_fits = f.key_fits; str_fits = length-take-le 127 val };
}

put_i32-KeepsKey : (val : ℤ) → KeepsKey (put_i32 val)
unfolding put_i32
put_i32-KeepsKey val = record {
  used = λ e. refl;
  type = λ e. refl;
  key = λ e. refl;
  fits = λ e f. record { key_fits = f.key_fits; str_fits = f.str_fits };
}

module _ {F : Type 0} (𝓢 : Settings F) (s : Store F) (key : Bytes) (v : IsValid s.entries) where
  -- Storing a string keeps the table valid, whatever the key and the value.
  pub set_str-IsValid : (val : Bytes) → IsValid (config_set_str 𝓢 s key val).1.entries
  set_str-IsValid val = elim (Bool-cases (too_long key val)) [
    | inl long ↦ unfold config_set_str in rw long v
    | inr short ↦ elim (Bool-cases (has_room s.entries entry_str key)) [
      | inl room ↦
          let (i, es, h) = find_entry-some s.entries entry_str key room in
          rw (set_str_entries 𝓢 s key val i es short h) (
            Found-IsValid entry_str key (ground arith) s.entries i es (put_str val)
              (put_str-KeepsKey val) v (find_entry-Found s.entries entry_str key i es h))
      | inr full ↦
          unfold config_set_str in rw (short, find_entry_full s.entries entry_str key full) v
    ]
  ]

  -- Storing a number keeps the table valid, whatever the key and the value.
  pub set_i32-IsValid : (val : ℤ) → IsValid (config_set_i32 𝓢 s key val).1.entries
  set_i32-IsValid val = elim (Bool-cases (ltb max_key_len (length key))) [
    | inl long ↦ unfold config_set_i32 in rw long v
    | inr short ↦ elim (Bool-cases (has_room s.entries entry_i32 key)) [
      | inl room ↦
          let (i, es, h) = find_entry-some s.entries entry_i32 key room in
          rw (set_i32_entries 𝓢 s key val i es (ground arith) h) (
            Found-IsValid entry_i32 key (ground arith) s.entries i es (put_i32 val)
              (put_i32-KeepsKey val) v (find_entry-Found s.entries entry_i32 key i es h))
      | inr full ↦
          unfold config_set_i32 in rw (short, find_entry_full s.entries entry_i32 key full) v
    ]
  ]
