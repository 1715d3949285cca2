-- ===== src/Examples/Store.antt =====
-- The config store over a settings subsystem that is a list of names and values.
use nodem_nrf.Base.{
  ℕ, ◌≡◌, true, List, [], ◌∷◌, ◌++◌, Option, none, some, pos, refl, arith, ◌==◌, if◌then◌else◌,
  take,
}
use nodem_nrf.Base.Errno.{ok}
use nodem_nrf.ConfigStore.{
  Settings, Store, ReadResult, got, config_get_str, config_get_i32, config_set_str, config_list,
  settings_set,
}
use nodem_nrf.ConfigStore.Boot.{load-saved_str}
use nodem_nrf.ConfigStore.Invariant.{IsValid, empty_table-IsValid, set_str-IsValid}
use nodem_nrf.ConfigStore.Listing.{Lists, used_entries, config_list-Lists}
use nodem_nrf.ConfigStore.Lookup.{lookup}
use nodem_nrf.ConfigStore.Find.{has_room, any_free}
use nodem_nrf.ConfigStore.RoundTrip.{ReadsStr, get-set_str}
use nodem_nrf.ConfigStore.Table.{EntryType, empty_table, entry_str, find_entry, scan, holds, claim}
use nodem_nrf.Text.{Bytes, codes, equal}
use nodem_nrf.Text.Fields.{Lacks}

-- What stands behind `key` and a slash in `name`.
abbrev after_key : Bytes → Bytes → Option (Option Bytes)
after_key [] [] = some none
after_key (c ∷ name) [] = if c == b'/' then some (some name) else none
after_key [] (d ∷ key) = none
after_key (c ∷ name) (d ∷ key) = let rest = after_key name key in if c == d then rest else none

abbrev Saved : Type 0
Saved = List (Bytes × Bytes)

abbrev items : Saved → List (Bytes × (ℕ → ReadResult))
items [] = []
items ((name, value) ∷ saved) = (name, λ n. got (take n value)) ∷ items saved

abbrev pub in_ram : Settings Saved
in_ram = record {
  save_one = λ saved name value. (pos 0, (name, value) ∷ saved);
  subsys_init = λ saved. pos 0;
  name_steq = after_key;
  load = λ saved. (pos 0, items saved);
}

abbrev pub boot : Store Saved
boot = record { entries = empty_table; flash = [] }

abbrev one_string : Store Saved
one_string = (config_set_str in_ram boot (codes "host") (codes "example.org")).1

-- A free slot is a room for any key.
pub free_slot : (t : EntryType) (key : Bytes) → has_room empty_table t key ≡ true
unfolding lookup holds any_free
free_slot t key = refl

-- Values that are read back, one of them cut, and one that is not there.
read_back :
    (config_get_str one_string.entries (codes "host") 64 [] ≡ codes "example.org")
    × (config_get_str one_string.entries (codes "host") 8 [] ≡ codes "example")
    × (config_get_str one_string.entries (codes "hos") 8 (codes "none") ≡ codes "none")
    × (config_get_i32 one_string.entries (codes "host") (pos 7) ≡ pos 7)
unfolding config_get_str config_get_i32 config_set_str find_entry scan holds claim equal
read_back = (refl, refl, refl, refl)

get-set_str_example :
    ReadsStr empty_table
      (config_set_str in_ram boot (codes "host") (codes "example.org")).1.entries
      (codes "host")
      (codes "example.org")
get-set_str_example =
    get-set_str in_ram boot (codes "host") (codes "example.org") refl
      (free_slot entry_str (codes "host"))

set_str-IsValid_example :
    IsValid (config_set_str in_ram boot (codes "host") (codes "example.org")).1.entries
set_str-IsValid_example =
    set_str-IsValid in_ram boot (codes "host") empty_table-IsValid (codes "example.org")

config_list-Lists_example :
    Lists (used_entries one_string.entries) 16 [] (config_list one_string.entries 16)
config_list-Lists_example = config_list-Lists one_string.entries 16

no_nul : Lacks 0 (codes "example.org")
no_nul = omega arith

load-saved_str_example :
    let (err, after) = config_set_str in_ram boot (codes "host") (codes "example.org") in
    let saved = codes "example.org" ++ 0 ∷ [] in
    let (load_err, es) =
      settings_set after_key empty_table (codes "s/host") (λ n. got (take n saved)) in
    ((err, after.flash) ≡ in_ram.save_one [] (codes "cfg/s/host") saved)
    × (load_err ≡ ok)
    × ReadsStr empty_table es (codes "host") (codes "example.org")
load-saved_str_example =
    load-saved_str in_ram boot empty_table (codes "host") (codes "example.org") refl (omega arith)
      (omega arith) no_nul (free_slot entry_str (codes "host")) (free_slot entry_str (codes "host"))
