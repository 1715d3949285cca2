-- ===== src/ConfigStore/Table.antt =====
-- The table `entries` of config_store.c, and `find_entry`.
use nodem_nrf.Base.{
  ℕ, suc, Bool, true, false, ◌&&◌, List, [], ◌∷◌, Option, none, some, ℤ, pos, if◌then◌else◌, get_or,
  modify, replicate,
}
use nodem_nrf.Text.{Bytes, equal, truncated}

abbrev pub max_entries : ℕ
max_entries = 16

abbrev pub max_key_len : ℕ
max_key_len = 15

abbrev pub max_str_len : ℕ
max_str_len = 127

pub data EntryType : Type 0 where
  entry_str entry_i32 : EntryType

-- An entry never changes its type, so of the union's two members only one is ever used.
pub record Entry : Type 0 where
  pub used : Bool
  pub type : EntryType
  pub key : Bytes
  pub str : Bytes
  pub i32 : ℤ

-- What static storage holds at boot.
abbrev pub blank : Entry
blank = record { used = false; type = entry_str; key = []; str = []; i32 = pos 0 }

abbrev pub empty_table : List Entry
empty_table = replicate max_entries blank

abbrev pub same_type : EntryType → EntryType → Bool
same_type entry_str entry_str = true
same_type entry_i32 entry_i32 = true
same_type entry_str entry_i32 = false
same_type entry_i32 entry_str = false

unfoldable pub holds : Entry → EntryType → Bytes → Bool
holds e t key = e.used && (same_type e.type t && equal e.key key)

-- The entry behind an index that `find_entry` returned.
abbrev pub entry_at : List Entry → ℕ → Entry
entry_at es i = get_or es i blank

abbrev pub deref : List Entry → Option ℕ → Option Entry
deref es none = none
deref es (some i) = some (entry_at es i)

-- How the loop ends: at a matching entry, or past the last one with the first free slot.
pub data Scan : Type 0 where
  hit : ℕ → Scan
  miss : Option ℕ → Scan

abbrev pub next : Option ℕ → Option ℕ
next none = none
next (some i) = some (suc i)

abbrev pub behind : Bool → Scan → Scan
behind used (hit i) = hit (suc i)
behind true (miss free) = miss (next free)
behind false (miss free) = miss (some 0)

unfoldable pub scan : List Entry → EntryType → Bytes → Scan
scan [] t key = miss none
scan (e ∷ es) t key = if holds e t key then hit 0 else behind e.used (scan es t key)

-- What `find_entry` writes to a free slot.
unfoldable pub claim : EntryType → Bytes → Entry → Entry
claim t key e = record e { key = truncated 16 key; type = t; used = true }

claim_free : List Entry → EntryType → Bytes → Bool → Scan → Option ℕ × List Entry
claim_free es t key create (hit i) = (some i, es)
claim_free es t key create (miss none) = (none, es)
claim_free es t key create (miss (some i)) =
    if create then (some i, modify es i (claim t key)) else (none, es)

-- The index of the entry, and the table, in which a slot may have been claimed for it.
unfoldable pub find_entry : List Entry → Bytes → EntryType → Bool → Option ℕ × List Entry
unfolding claim_free
find_entry es key t create = claim_free es t key create (scan es t key)
