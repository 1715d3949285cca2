-- ===== src/ConfigStore/Boot.antt =====
-- What is saved before a reset is read back after it.
use mathlib.Core.Path.{subst}
use nodem_nrf.Base.{
  modify, ℕ, zero, suc, ◌^◌, ◌≤◌, ◌<◌, true, false, List, [], ◌∷◌, ◌++◌, ◌≡◌, refl, sym, ap, none,
  some, arith, ℤ, pos, negsuc, pos_part, neg_part, length, take,
}
use nodem_nrf.ConfigStore.{
  NameSteq, Settings, Store, config_set_str, got, i32_bytes, i32_of, settings_set, put_str, put_i32,
}
use nodem_nrf.ConfigStore.Table.{find_entry, Entry, entry_str, entry_i32, max_key_len, max_str_len}
use nodem_nrf.Base.Errno.{ok}
use nodem_nrf.ConfigStore.Find.{has_room, find_entry-some}
use nodem_nrf.ConfigStore.RoundTrip.{
  ReadsStr, ReadsI32, get-put_str, get-put_i32, too_long, set_str_result,
}
use nodem_nrf.Text.{Bytes, codes, until_nul}
use nodem_nrf.Text.Fields.{Lacks}

-- The range of `int32_t`.
abbrev pub IsI32 : ℤ → Type 0
IsI32 z = (pos_part z < 2 ^ 31) × (neg_part z ≤ 2 ^ 31)

-- The four bytes of an `int32_t` are read back as it.
pub i32_of-i32_bytes : (z : ℤ) → IsI32 z → i32_of (i32_bytes z) ≡ some z
unfolding i32_of i32_bytes
i32_of-i32_bytes (pos n) h = ground arith
i32_of-i32_bytes (negsuc n) h = ground arith

take-i32_bytes : (z : ℤ) → take 4 (i32_bytes z) ≡ i32_bytes z
unfolding i32_bytes
take-i32_bytes z = refl

-- The string behind `n` bytes read of a saved value, which ends in a NUL.
until_nul-take :
    (val : Bytes) (n : ℕ) → Lacks 0 val → length val ≤ n → until_nul (take n (val ++ 0 ∷ [])) ≡ val
unfolding until_nul
until_nul-take [] zero z h = refl
until_nul-take [] (suc n) z h = refl
until_nul-take (c ∷ val) zero z h = absurd (omega arith)
until_nul-take (c ∷ val) (suc n) (c0, z) h = ground (arith, until_nul-take val n z)

-- The name that the handler gets is the one that a setter saved under, without "cfg/". The
-- comparison of names is the subsystem's: it finds "s" or "i" in front and returns what follows,
-- and does not take "i" for "s".
module _ (steq : NameSteq) (es₀ : List Entry) (key name : Bytes) where
  set_str_loaded :
      (val : Bytes) (i : ℕ) (es : List Entry)
      → steq name (codes "s") ≡ some (some key)
      → find_entry es₀ key entry_str true ≡ (some i, es)
      → until_nul (take 127 (val ++ 0 ∷ [])) ≡ val
      → settings_set steq es₀ name (λ n. got (take n (val ++ 0 ∷ [])))
        ≡ (ok, modify es i (put_str val))
  unfolding settings_set
  set_str_loaded val i es st h read = rw (st, h, read)

  set_i32_loaded :
      (val : ℤ) (i : ℕ) (es : List Entry)
      → steq name (codes "s") ≡ none
      → steq name (codes "i") ≡ some (some key)
      → find_entry es₀ key entry_i32 true ≡ (some i, es)
      → i32_of (i32_bytes val) ≡ some val
      → settings_set steq es₀ name (λ n. got (take n (i32_bytes val)))
        ≡ (ok, modify es i (put_i32 val))
  unfolding settings_set
  set_i32_loaded val i es st st' h read = rw (st, st', take-i32_bytes val, read, h)

  set_str_load :
      (val : Bytes)
      → steq name (codes "s") ≡ some (some key)
      → length key ≤ max_key_len
      → length val ≤ max_str_len
      → Lacks 0 val
      → has_room es₀ entry_str key ≡ true
      → let (err, es) = settings_set steq es₀ name (λ n. got (take n (val ++ 0 ∷ []))) in
        (err ≡ ok) × ReadsStr es₀ es key val
  set_str_load val st fits hv z room =
      let (i, es, h) = find_entry-some es₀ entry_str key room in
      let read = until_nul-take val 127 z hv in
      let loaded = set_str_loaded val i es st h read in
      (
        ap (λ r. r.0) loaded,
        subst (λ (r : ℤ × List Entry). ReadsStr es₀ r.1 key val) (sym loaded)
            (get-put_str es₀ key fits i es val hv h),
      )

  -- The same for what `config_set_i32` saved, for any number of 32 bits.
  pub load-saved_i32 :
      (val : ℤ)
      → steq name (codes "s") ≡ none
      → steq name (codes "i") ≡ some (some key)
      → IsI32 val
      → length key ≤ max_key_len
      → has_room es₀ entry_i32 key ≡ true
      → let (err, es) = settings_set steq es₀ name (λ n. got (take n (i32_bytes val))) in
        (err ≡ ok) × ReadsI32 es₀ es key val
  load-saved_i32 val st st' v fits room =
      let (i, es, h) = find_entry-some es₀ entry_i32 key room in
      let loaded = set_i32_loaded val i es st st' h (i32_of-i32_bytes val v) in
      (
        ap (λ r. r.0) loaded,
        subst (λ (r : ℤ × List Entry). ReadsI32 es₀ r.1 key val) (sym loaded)
            (get-put_i32 es₀ key fits i es val h),
      )

-- What `config_set_str` saves, and what a load of it makes of a table, which need not be the one that
-- it was set in: the setter makes one write to flash, of the value and its NUL under the name
-- "cfg/s/<key>", and returns its error; and `settings_set`, called with that name without its "cfg/"
-- and with those bytes, returns 0, and what is read from then on is what was set: that key's string,
-- and otherwise what was read before. The key and the value fit, the value holds no NUL, and both
-- tables have room for the key. The comparison of names is the subsystem's: it finds "s" in front of
-- the slash and returns the key behind it.
pub load-saved_str :
    {F : Type 0} (𝓢 : Settings F) (s : Store F) (es₀ : List Entry) (key val : Bytes)
    → 𝓢.name_steq (codes "s/" ++ key) (codes "s") ≡ some (some key)
    → length key ≤ max_key_len
    → length val ≤ max_str_len
    → Lacks 0 val
    → has_room s.entries entry_str key ≡ true
    → has_room es₀ entry_str key ≡ true
    → let (err, after) = config_set_str 𝓢 s key val in
      let saved = val ++ 0 ∷ [] in
      let (load_err, es) =
        settings_set 𝓢.name_steq es₀ (codes "s/" ++ key) (λ n. got (take n saved)) in
      ((err, after.flash) ≡ 𝓢.save_one s.flash (codes "cfg/s/" ++ key) saved)
      × (load_err ≡ ok)
      × ReadsStr es₀ es key val
load-saved_str 𝓢 s es₀ key val st fits hv z room₀ room =
    let short : too_long key val ≡ false = ground (arith, fits, hv) in
    let result = set_str_result 𝓢 s key val in
    let (loads, reads) =
      set_str_load 𝓢.name_steq es₀ key (codes "s/" ++ key) val st fits hv z room in
    (ap (λ r. (r.0, r.1.flash)) (rw (short, room₀) at result), loads, reads)
