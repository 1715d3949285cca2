-- ===== src/Modem/Credentials.antt =====
-- What a registration leaves in the settings, and what it reads in the server's reply.
use nodem_nrf.Base.{
  ◌-◌, take_all, ℕ, ◌<◌, Bool, true, false, ◌||◌, List, [], ◌≡◌, refl, ap, ◌∙◌, inl, inr, none,
  arith, ℤ, Bool-cases, Option-cases, length,
}
use nodem_nrf.Base.Errno.{einval, enomem, is_ok}
use nodem_nrf.ConfigStore.{Settings, Store, config_get_str, config_set_str, str_or}
use nodem_nrf.ConfigStore.Lookup.{lookup}
use nodem_nrf.ConfigStore.Find.{has_room}
use nodem_nrf.ConfigStore.RoundTrip.{get-set_str, set_str_result, too_long, get_str-lookup}
use nodem_nrf.ConfigStore.Table.{Entry, entry_str}
use nodem_nrf.Modem.{is_empty, reg_code, registration_pending, device_registered}
use nodem_nrf.Modem.Connect.{is_fd}
use nodem_nrf.Modem.Register.{
  Credentials, RegAnswers, register_attempt, reg_name, bad_name, settle, step_register,
  reg_code_rejected,
}
use nodem_nrf.Text.{Bytes, codes, equal, equal_iff, truncated, truncated_fits}

nothing : (n : ℕ) → truncated n (str_or [] none) ≡ []
unfolding str_or
nothing n = take_all (n - 1) [] (omega arith)

true-ne-false : {b : Bool} → b ≡ true → b ≡ false → ⊥
true-ne-false h k = cc

-- A string that is read has an entry.
read_room :
    (es : List Entry) (key : Bytes) (n : ℕ)
    → is_empty (config_get_str es key n []) ≡ false
    → has_room es entry_str key ≡ true
read_room es key n h = elim (Option-cases (lookup entry_str key es)) [
  | inl absent ↦
      let empty : config_get_str es key n [] ≡ [] =
        get_str-lookup es key n [] ∙ rw absent (nothing n) in
      absurd (true-ne-false (ap is_empty empty) h)
  | inr (e, found) ↦ rw found refl
]

module _ {F : Type 0} (𝓢 : Settings F) (s : Store F) (key val : Bytes) where
  -- A write leaves the reads of other strings alone, whether it is taken or not.
  set_other :
      (key' : Bytes) (n : ℕ) (d : Bytes)
      → equal key key' ≡ false
      → config_get_str (config_set_str 𝓢 s key val).1.entries key' n d
        ≡ config_get_str s.entries key' n d
  set_other key' n d other = elim (Bool-cases (too_long key val)) [
    | inl long ↦
        let refused : config_set_str 𝓢 s key val ≡ (einval, s) =
          set_str_result 𝓢 s key val ∙ rw long refl in
        rw refused refl
    | inr short ↦ elim (Bool-cases (has_room s.entries entry_str key)) [
      | inl room ↦ (get-set_str 𝓢 s key val short room).0 key' n d ∙ rw other refl
      | inr full ↦
          let refused : config_set_str 𝓢 s key val ≡ (enomem, s) =
            set_str_result 𝓢 s key val ∙ rw (short, full) refl in
          rw refused refl
    ]
  ]

  set_same :
      (n : ℕ)
      → too_long key val ≡ false
      → has_room s.entries entry_str key ≡ true
      → config_get_str (config_set_str 𝓢 s key val).1.entries key n [] ≡ truncated n val
  set_same n short room =
      (get-set_str 𝓢 s key val short room).0 key n [] ∙ rw ((equal_iff key key).1 refl) refl

abbrev code_key : Bytes
code_key = codes "reg_code"

module _ {F : Type 0} (𝓢 : Settings F) where
  code_written :
      (s : Store F) (val : Bytes)
      → too_long code_key val ≡ false
      → is_empty (reg_code s) ≡ false
      → reg_code (config_set_str 𝓢 s code_key val).1 ≡ truncated 7 val
  unfolding reg_code
  code_written s val short h = set_same 𝓢 s code_key val 7 short (read_room s.entries code_key 7 h)

  code_dropped :
      (s : Store F)
      → is_empty (reg_code s) ≡ false
      → registration_pending (config_set_str 𝓢 s code_key []).1 ≡ false
  unfolding registration_pending
  code_dropped s h = rw (code_written s [] refl h) refl

  code_rejected :
      (s : Store F)
      → is_empty (reg_code s) ≡ false
      → registration_pending (config_set_str 𝓢 s code_key reg_code_rejected).1 ≡ false
  unfolding registration_pending equal
  code_rejected s h = rw (code_written s reg_code_rejected refl h) refl

  other_keys :
      (key : Bytes)
      → (s : Store F) (val : Bytes) → equal key code_key ≡ false
      → reg_code (config_set_str 𝓢 s key val).1 ≡ reg_code s
  unfolding reg_code
  other_keys key s val other = set_other 𝓢 s key val code_key 7 [] other

  -- What is kept of a successful attempt, before its code is dropped.
  kept : Store F → Credentials → Store F
  kept s c =
      let s₁ = (config_set_str 𝓢 s (codes "device_id") c.id).1 in
      let s₂ = (config_set_str 𝓢 s₁ (codes "device_secret") c.secret).1 in
      (config_set_str 𝓢 s₂ (codes "device_name") c.verified_name).1

  kept-reg_code : (s : Store F) (c : Credentials) → reg_code (kept s c) ≡ reg_code s
  unfolding kept equal
  kept-reg_code s c =
      let s₁ = (config_set_str 𝓢 s (codes "device_id") c.id).1 in
      let s₂ = (config_set_str 𝓢 s₁ (codes "device_secret") c.secret).1 in
      other_keys (codes "device_name") s₂ c.verified_name refl
      ∙ other_keys (codes "device_secret") s₁ c.secret refl
      ∙ other_keys (codes "device_id") s c.id refl

  -- Whatever becomes of an attempt, its code is not pending any more.
  settled :
      (s : Store F) (err : ℤ) (c : Credentials)
      → is_empty (reg_code s) ≡ false
      → registration_pending (settle 𝓢 s (err, c)) ≡ false
  unfolding settle kept
  settled s err c h = elim (Bool-cases (is_ok err)) [
    | inl done ↦ rw done (code_dropped (kept s c) (ap is_empty (kept-reg_code s c) ∙ h))
    | inr refused ↦ rw refused (code_rejected s h)
  ]

module _ {F : Type 0} (𝓢 : Settings F) (s : Store F) (c : Credentials) (short : length c.id < 64)
    (room : has_room s.entries entry_str (codes "device_id") ≡ true) where
  stored_id :
      config_get_str (config_set_str 𝓢 (kept 𝓢 s c) code_key []).1.entries (codes "device_id") 64 []
      ≡ c.id
  unfolding kept equal
  stored_id =
      let s₁ = (config_set_str 𝓢 s (codes "device_id") c.id).1 in
      let s₂ = (config_set_str 𝓢 s₁ (codes "device_secret") c.secret).1 in
      let fits : too_long (codes "device_id") c.id ≡ false = ground arith in
      set_other 𝓢 (kept 𝓢 s c) code_key [] (codes "device_id") 64 [] refl
      ∙ set_other 𝓢 s₂ (codes "device_name") c.verified_name (codes "device_id") 64 [] refl
      ∙ set_other 𝓢 s₁ (codes "device_secret") c.secret (codes "device_id") 64 [] refl
      ∙ set_same 𝓢 s (codes "device_id") c.id 64 fits room
      ∙ truncated_fits 64 c.id short

pending_code :
    {F : Type 0} (s : Store F) → registration_pending s ≡ true → is_empty (reg_code s) ≡ false
unfolding registration_pending
pending_code s h = ground arith

-- A registration that is pending when `step_register` runs is not pending behind it, whatever the
-- modem and the server answer and whether or not the code was accepted, so it is tried once. The
-- step needs an open connection, unless the name is too short.
pub step_register-consumes :
    {F : Type 0} (𝓢 : Settings F) (a : RegAnswers) (host : Bytes) (s : Store F) (fd : ℤ)
    → (fds : List ℤ) → registration_pending s ≡ true
    → (bad_name (reg_name s) || is_fd fd) ≡ true
    → registration_pending (step_register 𝓢 a host s fd fds).0 ≡ false
unfolding step_register
step_register-consumes 𝓢 a host s fd fds pending h =
    let code = pending_code s pending in
    elim (Bool-cases (bad_name (reg_name s))) [
      | inl bad ↦ rw (pending, bad) (code_dropped 𝓢 s code)
      | inr good ↦
          let (err, c) = register_attempt a host (reg_code s) (reg_name s) in
          rw (pending, good, rw good at h) (settled 𝓢 s err c code)
    ]

-- A registration that the server accepted leaves the device registered under the id that it gave.
-- The id is not empty and fits its buffer, there is an entry for it or a free slot, and the attempt
-- is made: a code is pending, the name is long enough and the connection is open.
pub step_register-registers :
    {F : Type 0} (𝓢 : Settings F) (a : RegAnswers) (host : Bytes) (s : Store F) (fd : ℤ)
    → (fds : List ℤ) → registration_pending s ≡ true
    → bad_name (reg_name s) ≡ false
    → is_fd fd ≡ true
    → let (err, c) = register_attempt a host (reg_code s) (reg_name s) in
      is_ok err ≡ true
      → is_empty c.id ≡ false
      → length c.id < 64
      → has_room s.entries entry_str (codes "device_id") ≡ true
      → let s' = (step_register 𝓢 a host s fd fds).0 in
        (config_get_str s'.entries (codes "device_id") 64 [] ≡ c.id) × (device_registered s' ≡ true)
unfolding step_register settle device_registered kept
step_register-registers 𝓢 a host s fd fds pending good is_open accepted some_id short room =
    let (err, c) = register_attempt a host (reg_code s) (reg_name s) in
    let stored = stored_id 𝓢 s c short room in
    rw (pending, good, is_open, accepted) (stored, rw (stored, some_id) refl)
