-- ===== src/ConfigStore/RoundTrip.antt =====
-- Writing a setting and reading settings back.
use mathlib.Core.Path.{subst}
use nodem_nrf.Base.{
  ◌++◌, ℕ, ◌≤◌, Bool, true, false, ◌||◌, List, [], ◌∷◌, ◌≡◌, refl, sym, ap, ◌∙◌, inl, inr, Option,
  some, arith, ℤ, if◌then◌else◌, Bool-cases, length, modify, ltb,
}
use nodem_nrf.Base.Errno.{enomem, einval}
use nodem_nrf.ConfigStore.{
  Settings, Store, config_get_str, config_get_i32, config_set_str, config_set_i32, put_str, put_i32,
  str_or, i32_or,
}
use nodem_nrf.ConfigStore.Lookup.{lookup}
use nodem_nrf.ConfigStore.Find.{
  entry_at-Found, lookup-find_entry, find_entry-lookup, find_entry_full, find_entry-some, has_room,
  find_entry-Found,
}
use nodem_nrf.ConfigStore.Table.{
  EntryType, entry_str, entry_i32, Entry, holds, entry_at, find_entry, max_key_len, max_str_len,
}
use nodem_nrf.Text.{Bytes, codes, equal, truncated, truncated_fits}

pub get_str-lookup :
    (es : List Entry) (key : Bytes) (n : ℕ) (d : Bytes)
    → config_get_str es key n d ≡ truncated n (str_or d (lookup entry_str key es))
unfolding config_get_str
get_str-lookup es key n d = rw ((find_entry-lookup es entry_str key).1)

get_i32-lookup :
    (es : List Entry) (key : Bytes) (d : ℤ)
    → config_get_i32 es key d ≡ i32_or d (lookup entry_i32 key es)
unfolding config_get_i32
get_i32-lookup es key d = rw ((find_entry-lookup es entry_i32 key).1)

-- A write to the value of an entry keeps what it matches.
put_str-holds :
    (val : Bytes) (t : EntryType) (key : Bytes) (e : Entry)
    → holds (put_str val e) t key ≡ holds e t key
unfolding holds put_str
put_str-holds val t key e = refl

put_i32-holds :
    (val : ℤ) (t : EntryType) (key : Bytes) (e : Entry)
    → holds (put_i32 val e) t key ≡ holds e t key
unfolding holds put_i32
put_i32-holds val t key e = refl

read_put_str :
    (b : Bool) (n : ℕ) (d val : Bytes) (e : Entry) (o : Option Entry)
    → length val ≤ max_str_len
    → truncated n (str_or d (if b then some (put_str val e) else o))
      ≡ (if b then truncated n val else truncated n (str_or d o))
unfolding str_or put_str
read_put_str true n d val e o h = ap (truncated n) (truncated_fits 128 val (omega arith))
read_put_str false n d val e o h = refl

read_put_i32 :
    (b : Bool) (d val : ℤ) (e : Entry) (o : Option Entry)
    → i32_or d (if b then some (put_i32 val e) else o) ≡ (if b then val else i32_or d o)
unfolding i32_or put_i32
read_put_i32 true d val e o = refl
read_put_i32 false d val e o = refl

-- What reading gives from a table in which the entry of `find_entry` was written.
abbrev pub ReadsStr : List Entry → List Entry → Bytes → Bytes → Type 0
ReadsStr es es' key val =
    ((key' : Bytes) (n : ℕ) (d : Bytes)
      → config_get_str es' key' n d
        ≡ (if equal key key' then truncated n val else config_get_str es key' n d))
    × ((key' : Bytes) (d : ℤ) → config_get_i32 es' key' d ≡ config_get_i32 es key' d)

abbrev pub ReadsI32 : List Entry → List Entry → Bytes → ℤ → Type 0
ReadsI32 es es' key val =
    ((key' : Bytes) (d : ℤ)
      → config_get_i32 es' key' d ≡ (if equal key key' then val else config_get_i32 es key' d))
    × ((key' : Bytes) (n : ℕ) (d : Bytes)
        → config_get_str es' key' n d ≡ config_get_str es key' n d)

module _ (es₀ : List Entry) (key : Bytes) (fits : length key ≤ max_key_len) (i : ℕ)
    (es : List Entry) where
  pub get-put_str :
      (val : Bytes)
      → length val ≤ max_str_len
      → find_entry es₀ key entry_str true ≡ (some i, es)
      → ReadsStr es₀ (modify es i (put_str val)) key val
  get-put_str val hv h = (
    λ key' n d.
        let put =
          lookup-find_entry entry_str entry_str key key' (put_str val) es₀ i es fits
            (put_str-holds val entry_str key') h in
        rw (get_str-lookup (modify es i (put_str val)) key' n d, get_str-lookup es₀ key' n d, put)
          (read_put_str (equal key key') n d val (entry_at es i) (lookup entry_str key' es₀) hv),
    λ key' d.
        let put =
          lookup-find_entry entry_str entry_i32 key key' (put_str val) es₀ i es fits
            (put_str-holds val entry_i32 key') h in
        rw (get_i32-lookup (modify es i (put_str val)) key' d, get_i32-lookup es₀ key' d, put),
  )

  pub get-put_i32 :
      (val : ℤ)
      → find_entry es₀ key entry_i32 true ≡ (some i, es)
      → ReadsI32 es₀ (modify es i (put_i32 val)) key val
  get-put_i32 val h = (
    λ key' d.
        let put =
          lookup-find_entry entry_i32 entry_i32 key key' (put_i32 val) es₀ i es fits
            (put_i32-holds val entry_i32 key') h in
        rw (get_i32-lookup (modify es i (put_i32 val)) key' d, get_i32-lookup es₀ key' d, put)
          (read_put_i32 (equal key key') d val (entry_at es i) (lookup entry_i32 key' es₀)),
    λ key' n d.
        let put =
          lookup-find_entry entry_i32 entry_str key key' (put_i32 val) es₀ i es fits
            (put_i32-holds val entry_str key') h in
        rw (get_str-lookup (modify es i (put_i32 val)) key' n d, get_str-lookup es₀ key' n d, put),
  )

abbrev pub too_long : Bytes → Bytes → Bool
too_long key val = ltb max_key_len (length key) || ltb max_str_len (length val)

saved_str :
    (es : List Entry) (i : ℕ) (val : Bytes)
    → length val ≤ max_str_len
    → entry_at (modify es i (put_str val)) i ≡ put_str val (entry_at es i)
    → (entry_at (modify es i (put_str val)) i).str ≡ val
saved_str es i val h e =
    ap (λ x. x.str) e ∙ (unfold put_str in truncated_fits 128 val (omega arith))

module _ {F : Type 0} (𝓢 : Settings F) (s : Store F) (key : Bytes) where
  -- The table after a string was stored.
  pub set_str_entries :
      (val : Bytes) (i : ℕ) (es : List Entry)
      → too_long key val ≡ false
      → find_entry s.entries key entry_str true ≡ (some i, es)
      → (config_set_str 𝓢 s key val).1.entries ≡ modify es i (put_str val)
  unfolding config_set_str
  set_str_entries val i es short h = rw (short, h)

  pub set_i32_entries :
      (val : ℤ) (i : ℕ) (es : List Entry)
      → length key ≤ max_key_len
      → find_entry s.entries key entry_i32 true ≡ (some i, es)
      → (config_set_i32 𝓢 s key val).1.entries ≡ modify es i (put_i32 val)
  unfolding config_set_i32
  set_i32_entries val i es short h =
      let t : ltb max_key_len (length key) ≡ false = ground arith in rw (t, h)

  -- Where a string is taken (key and value fit, and there is an entry for it or a free slot), every
  -- later read of that key gives it, cut to the reader's buffer, whatever the write to flash
  -- returned. Reads of other strings, and of all numbers, give what they gave.
  pub get-set_str :
      (val : Bytes)
      → too_long key val ≡ false
      → has_room s.entries entry_str key ≡ true
      → ReadsStr s.entries (config_set_str 𝓢 s key val).1.entries key val
  get-set_str val short room =
      let (i, es, h) = find_entry-some s.entries entry_str key room in
      subst (λ t. ReadsStr s.entries t key val) (sym (set_str_entries val i es short h))
        (get-put_str s.entries key (ground arith) i es val (ground arith) h)

  -- The same for a number, which is refused only for its key or a full table.
  pub get-set_i32 :
      (val : ℤ)
      → length key ≤ max_key_len
      → has_room s.entries entry_i32 key ≡ true
      → ReadsI32 s.entries (config_set_i32 𝓢 s key val).1.entries key val
  get-set_i32 val fits room =
      let (i, es, h) = find_entry-some s.entries entry_i32 key room in
      subst (λ t. ReadsI32 s.entries t key val) (sym (set_i32_entries val i es fits h))
        (get-put_i32 s.entries key fits i es val h)

  -- What `config_set_str` does on every branch: a long key or value is refused with -EINVAL and a
  -- full table with -ENOMEM, both with nothing changed; else the error and the state of the flash
  -- are those of one write under "cfg/s/<key>", made of the value and its NUL.
  pub set_str_result :
      (val : Bytes)
      → let after = config_set_str 𝓢 s key val in
        let (save_err, flash') = 𝓢.save_one s.flash (codes "cfg/s/" ++ key) (val ++ 0 ∷ []) in
        after ≡ (
          if too_long key val
          then (einval, s)
          else if has_room s.entries entry_str key
          then (save_err, record { entries = after.1.entries; flash = flash' })
          else (enomem, s))
  unfolding config_set_str
  set_str_result val = elim (Bool-cases (too_long key val)) [
    | inl long ↦ rw long refl
    | inr short ↦ elim (Bool-cases (has_room s.entries entry_str key)) [
      | inl room ↦
          let (i, es, h) = find_entry-some s.entries entry_str key room in
          let stored : (entry_at (modify es i (put_str val)) i).str ≡ val =
            saved_str es i val (ground arith) (
              entry_at-Found s.entries entry_str key i es (put_str val)
                (find_entry-Found s.entries entry_str key i es h)) in
          let whole : truncated 18 key ≡ key = truncated_fits 18 key (ground arith) in
          rw (short, room, h, stored, whole) refl
      | inr full ↦ rw (short, full, find_entry_full s.entries entry_str key full) refl
    ]
  ]
