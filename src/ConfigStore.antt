-- ===== src/ConfigStore.antt =====
-- config_store.c: the table of settings in RAM, and its writes through to flash. Each function
-- holds `entries_lock` throughout, so it is one step on the state.
pub mod Table
pub mod Lookup
pub mod Find
pub mod RoundTrip
pub mod Invariant
pub mod Listing
pub mod Boot
use nodem_nrf.Base.{
  ℕ, zero, suc, ◌+◌, ◌-◌, ◌*◌, ◌/◌, ◌%◌, ◌^◌, Bool, true, false, not, ◌&&◌, ◌||◌, List, [], ◌∷◌,
  ◌++◌, Option, none, some, ℤ, pos, negsuc, ltb, leb, ltb_ℤ, ◌==◌, if◌then◌else◌, length, modify,
}
use nodem_nrf.Base.Errno.{ok, enoent, enomem, einval, is_ok}
use nodem_nrf.ConfigStore.Table.{
  Entry, EntryType, deref, entry_str, entry_i32, entry_at, find_entry, max_key_len, max_str_len,
}
use nodem_nrf.Text.{Bytes, codes, truncated, until_nul}
use nodem_nrf.Text.Decimal.{show_int}

-- What the settings subsystem hands to `settings_set`: a comparison of a name's first part, with
-- what follows it where anything does, and a reader of at most so many bytes of the value.
pub data ReadResult : Type 0 where
  failed : ℕ → ReadResult  -- the error is -(n + 1)
  got : Bytes → ReadResult

abbrev pub NameSteq : Type 0
NameSteq = Bytes → Bytes → Option (Option Bytes)

-- The settings subsystem under the table, on its own state: `settings_save_one(name, value)` with
-- its error number, and the calls at start-up.
pub record Settings (F : Type 0) : Type 0 where
  pub save_one : F → Bytes → Bytes → ℤ × F
  pub subsys_init : F → ℤ
  pub name_steq : NameSteq
  -- The error of `settings_load`, and the names and values under "cfg" that it hands to the
  -- handler, each with its reader.
  pub load : F → ℤ × List (Bytes × (ℕ → ReadResult))

pub record Store (F : Type 0) : Type 0 where
  pub entries : List Entry
  pub flash : F

-- The bytes of an `int32_t` in memory: little endian, in two's complement.
unfoldable pub i32_bits : ℤ → ℕ
i32_bits (pos n) = n % 2 ^ 32
i32_bits (negsuc n) = (2 ^ 32 - 1 - n) % 2 ^ 32

unfoldable pub i32_bytes : ℤ → Bytes
unfolding i32_bits
i32_bytes z =
    let w = i32_bits z in w % 256 ∷ (w / 2 ^ 8) % 256 ∷ (w / 2 ^ 16) % 256 ∷ (w / 2 ^ 24) % 256 ∷ []

abbrev signed32 : ℕ → ℤ
signed32 w = if ltb w (2 ^ 31) then pos w else negsuc (2 ^ 32 - 1 - w)

-- The `int32_t` that four bytes hold; `none` for any other number of bytes.
unfoldable pub i32_of : Bytes → Option ℤ
i32_of (a ∷ b ∷ c ∷ d ∷ []) = some (signed32 (a + b * 2 ^ 8 + c * 2 ^ 16 + d * 2 ^ 24))
i32_of _ = none

unfoldable pub str_or : Bytes → Option Entry → Bytes
str_or default_val none = default_val
str_or default_val (some e) = e.str

unfoldable pub i32_or : ℤ → Option Entry → ℤ
i32_or default_val none = default_val
i32_or default_val (some e) = e.i32

-- What `buf` holds after the call.
unfoldable pub config_get_str : List Entry → Bytes → ℕ → Bytes → Bytes
unfolding str_or
config_get_str es key buf_len default_val =
    truncated buf_len (str_or default_val (deref es (find_entry es key entry_str false).0))

unfoldable pub config_get_i32 : List Entry → Bytes → ℤ → ℤ
unfolding i32_or
config_get_i32 es key default_val =
    i32_or default_val (deref es (find_entry es key entry_i32 false).0)

unfoldable pub put_str : Bytes → Entry → Entry
put_str val e = record e { str = truncated 128 val }

unfoldable pub put_i32 : ℤ → Entry → Entry
put_i32 val e = record e { i32 = val }

-- The two ways that both setters end, after `find_entry`.
module _ {F : Type 0} (𝓢 : Settings F) where
  store_str : Store F → Bytes → Bytes → Option ℕ × List Entry → ℤ × Store F
  store_str s key val (none, es) = (enomem, record s { entries = es })
  store_str s key val (some i, es) =
      let es' = modify es i (put_str val) in
      let full_key = truncated 24 (codes "cfg/s/" ++ key) in
      let (err, flash') = 𝓢.save_one s.flash full_key ((entry_at es' i).str ++ 0 ∷ []) in
      (err, record { entries = es'; flash = flash' })

  unfoldable pub config_set_str : Store F → Bytes → Bytes → ℤ × Store F
  unfolding store_str put_str
  config_set_str s key val =
      if ltb max_key_len (length key) || ltb max_str_len (length val)
      then (einval, s)
      else store_str s key val (find_entry s.entries key entry_str true)

  store_i32 : Store F → Bytes → ℤ → Option ℕ × List Entry → ℤ × Store F
  store_i32 s key val (none, es) = (enomem, record s { entries = es })
  store_i32 s key val (some i, es) =
      let full_key = truncated 24 (codes "cfg/i/" ++ key) in
      let (err, flash') = 𝓢.save_one s.flash full_key (i32_bytes val) in
      (err, record { entries = modify es i (put_i32 val); flash = flash' })

  unfoldable pub config_set_i32 : Store F → Bytes → ℤ → ℤ × Store F
  unfolding store_i32 put_i32
  config_set_i32 s key val =
      if ltb max_key_len (length key)
      then (einval, s)
      else store_i32 s key val (find_entry s.entries key entry_i32 true)

-- One line of `config_list`.
line_value : EntryType → Entry → Bytes
line_value entry_str e = e.str
line_value entry_i32 e = show_int e.i32

unfoldable pub list_line : Entry → Bytes
unfolding line_value
list_line e = e.key ++ b'=' ∷ (line_value e.type e ++ codes "\r\n")

-- The loop of `config_list`: what `buf` holds up to `off`.
unfoldable pub list_from : List Entry → ℕ → Bytes → Bytes
list_from [] buf_len out = out
list_from (e ∷ es) buf_len out =
    let skip = list_from es buf_len out in
    let line = list_line e in
    let append = list_from es buf_len (out ++ line) in
    if not e.used then skip else if leb (buf_len - length out) (length line) then out else append

unfoldable pub config_list : List Entry → ℕ → Bytes
unfolding list_from
config_list es buf_len = list_from es buf_len []

load_into : List Entry → (Entry → Entry) → Option ℕ × List Entry → ℤ × List Entry
load_into es g (none, es') = (enomem, es')
load_into es g (some i, es') = (ok, modify es' i g)

load_str : List Entry → Bytes → ReadResult → ℤ × List Entry
unfolding load_into put_str
load_str es key (failed n) = (negsuc n, es)
load_str es key (got bytes) =
    load_into es (put_str (until_nul bytes)) (find_entry es key entry_str true)

load_i32_value : List Entry → Bytes → Option ℤ → ℤ × List Entry
unfolding load_into put_i32
load_i32_value es key none = (einval, es)
load_i32_value es key (some val) = load_into es (put_i32 val) (find_entry es key entry_i32 true)

load_i32 : List Entry → Bytes → ReadResult → ℤ × List Entry
unfolding load_i32_value i32_of
load_i32 es key (failed n) = (einval, es)
load_i32 es key (got bytes) = load_i32_value es key (i32_of bytes)

-- The second test, for "i", is made where the first fails or has no sub-key.
settings_i32 : List Entry → Option (Option Bytes) → (ℕ → ReadResult) → ℤ × List Entry
unfolding load_i32
settings_i32 es (some (some sub_key)) read_cb = load_i32 es sub_key (read_cb 4)
settings_i32 es (some none) read_cb = (enoent, es)
settings_i32 es none read_cb = (enoent, es)

settings_str :
    NameSteq → List Entry → Bytes → Option (Option Bytes) → (ℕ → ReadResult) → ℤ × List Entry
unfolding load_str settings_i32
settings_str steq es name (some (some sub_key)) read_cb = load_str es sub_key (read_cb 127)
settings_str steq es name (some none) read_cb = settings_i32 es (steq name (codes "i")) read_cb
settings_str steq es name none read_cb = settings_i32 es (steq name (codes "i")) read_cb

unfoldable pub settings_set : NameSteq → List Entry → Bytes → (ℕ → ReadResult) → ℤ × List Entry
unfolding settings_str
settings_set steq es name read_cb = settings_str steq es name (steq name (codes "s")) read_cb

-- The errors of the handler do not stop the load.
unfoldable pub load_all : NameSteq → List Entry → List (Bytes × (ℕ → ReadResult)) → List Entry
load_all steq es [] = es
load_all steq es ((name, read_cb) ∷ items) =
    load_all steq (settings_set steq es name read_cb).1 items

unfoldable pub config_store_init : {F : Type 0} → Settings F → Store F → ℤ × Store F
config_store_init 𝓢 s =
    let err = 𝓢.subsys_init s.flash in
    let (load_err, items) = 𝓢.load s.flash in
    if not (is_ok err)
    then (err, s)
    else (load_err, record s { entries = load_all 𝓢.name_steq s.entries items })
