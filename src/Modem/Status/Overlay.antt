-- ===== src/Modem/Status/Overlay.antt =====
-- A pass of `modem_status_task`, and what it shows.
use nodem_nrf.Base.{
  ℕ, zero, suc, ◌-◌, ◌≤◌, Bool, true, false, not, ◌&&◌, ◌||◌, List, [], ◌∷◌, ◌++◌, ◌≡◌, refl, inl,
  inr, Option, none, some, arith, pos, sub_ℕ, ltb, leb_ℤ, if◌then◌else◌, length, take,
  length-append, length-take-le, Bool-cases,
}
use nodem_nrf.ConfigStore.{Store, config_get_i32}
use nodem_nrf.Modem.{ModemStep, Statuses, device_registered, reg_code, is_empty}
use nodem_nrf.Modem.Status.{
  modem_steps, cloud_steps, all_effectively_ok, modem_status_line, modem_status_cloud_line,
  step_text, step_effectively_ok,
}
use nodem_nrf.Modem.Status.Radio.{
  rsrp_dbm, Radio, RadioAnswers, append_text, refresh, modem_status_modem_line, modem_line,
  first_not_ok, oper_text, bars_text, modem_rsrp_dbm, after_fields,
}
use nodem_nrf.Text.{Bytes, codes, equal, truncated}
use nodem_nrf.Text.Decimal.{show, is_digit}
use nodem_nrf.Text.Decimal.RoundTrip.{strtol-show}
use nodem_nrf.Text.Fields.{Lacks, cut-append}

-- What a pass does to the overlay of the display.
pub data Overlay : Type 0 where
  kept cleared : Overlay
  shown : Bytes → Overlay

-- "status" in the settings.
unfoldable pub status_shown : {F : Type 0} → Store F → Bool
status_shown s =
    let show = config_get_i32 s.entries (codes "status") (pos 1) in
    not (leb_ℤ show (pos 0) && leb_ℤ (pos 0) show)

abbrev pub all_steps : List ModemStep
all_steps = modem_steps ++ cloud_steps

-- `has_runtime` is whether `nodem_task_get_runtime` returns one.
unfoldable pub modem_status_pass :
    {F : Type 0} → Bool → Store F → Statuses → RadioAnswers → Radio → Overlay × Radio
modem_status_pass has_runtime s g_status a r =
    let (line1, r') = modem_status_modem_line 32 g_status a r in
    let line2 = modem_status_cloud_line s g_status 32 in
    let msg = line1 ++ 10 ∷ line2 in
    if not has_runtime
    then (kept, r)
    else if all_effectively_ok s g_status all_steps || not (status_shown s)
    then (cleared, r)
    else if ltb 0 (length msg) && ltb (length msg) 64
    then (shown msg, r')
    else (kept, r')

-- What a line of 32 bytes holds, and the position in it.
abbrev InLine : Bytes × ℕ → Type 0
InLine out = (length out.0 ≤ 31) × (length out.0 ≤ out.1)

length-take_all : (n : ℕ) (s : Bytes) → length (take n s) ≤ length s
length-take_all zero s = omega arith
length-take_all (suc n) [] = omega arith
length-take_all (suc n) (c ∷ s) = omega (arith, length-take_all n s)

InLine-append_text :
    (text : Bytes) (out : Bytes × ℕ) → InLine out → InLine (append_text 32 text out)
unfolding append_text
InLine-append_text text (buf, n) (short, behind) =
    let size = length-append buf (truncated (32 - n) text) in
    (
      omega (arith, size, length-take-le (32 - n - 1) text),
      omega (arith, size, length-take_all (32 - n - 1) text),
    )

line_start : InLine (append_text 32 (codes "modem: ") ([], 0))
line_start = InLine-append_text (codes "modem: ") ([], 0) (omega arith, omega arith)

modem_line-le :
    (g_status : Statuses) (a : RadioAnswers) (r : Radio) (first : Option ModemStep)
    → length (modem_line 32 g_status a r first).0 ≤ 31
unfolding modem_line
modem_line-le g_status a r (some step) =
    let start = append_text 32 (codes "modem: ") ([], 0) in
    (InLine-append_text (step_text (g_status step) step) start line_start).0
modem_line-le g_status a r none =
    let r' = refresh a r in
    let start = append_text 32 (codes "modem: ") ([], 0) in
    let up = append_text 32 (codes "ok") start in
    let named = append_text 32 (oper_text r'.s_oper) up in
    let up_fits = InLine-append_text (codes "ok") start line_start in
    (InLine-append_text (bars_text r'.s_bars) named
      (InLine-append_text (oper_text r'.s_oper) up up_fits)).0

line1-le :
    (g_status : Statuses) (a : RadioAnswers) (r : Radio)
    → length (modem_status_modem_line 32 g_status a r).0 ≤ 31
unfolding modem_status_modem_line
line1-le g_status a r = modem_line-le g_status a r (first_not_ok g_status modem_steps)

-- What the branches of a line hold.
if-le : (b : Bool) (x y : Bytes) → length x ≤ 31 → length y ≤ 31 → length (if b then x else y) ≤ 31
if-le true x y h k = h
if-le false x y h k = k

module _ {F : Type 0} (s : Store F) (g_status : Statuses) where
  status_line-le :
      (group : Bytes) (steps : List ModemStep)
      → length (modem_status_line s g_status 32 group steps) ≤ 31
  unfolding modem_status_line
  status_line-le group [] = length-take-le 31 (group ++ codes ": ok")
  status_line-le group (step ∷ steps) =
      if-le (step_effectively_ok s g_status step) _ _ (status_line-le group steps)
        (length-take-le 31 (group ++ (codes ": " ++ step_text (g_status step) step)))

  line2-le : length (modem_status_cloud_line s g_status 32) ≤ 31
  unfolding modem_status_cloud_line
  line2-le =
      let line = status_line-le (codes "cloud") cloud_steps in
      if-le (device_registered s) _ _ line (
        if-le (is_empty (reg_code s)) _ _ (omega arith)
          (if-le (equal (reg_code s) (codes "0")) _ _ (omega arith) line))

-- Where there is a runtime, a pass clears the overlay exactly if every step is in effect ok or the
-- overlay is hidden, and else shows both lines: their text always fits its buffer.
pub status_pass-shown :
    {F : Type 0} (s : Store F) (g_status : Statuses) (a : RadioAnswers) (r : Radio)
    → let hidden = all_effectively_ok s g_status all_steps || not (status_shown s) in
      let line1 = (modem_status_modem_line 32 g_status a r).0 in
      (modem_status_pass true s g_status a r).0
      ≡ (if hidden then cleared else shown (line1 ++ 10 ∷ modem_status_cloud_line s g_status 32))
unfolding modem_status_pass
status_pass-shown s g_status a r =
    let line1 = (modem_status_modem_line 32 g_status a r).0 in
    let line2 = modem_status_cloud_line s g_status 32 in
    let size = length-append line1 (10 ∷ line2) in
    let fits : (ltb 0 (length (line1 ++ 10 ∷ line2)) && ltb (length (line1 ++ 10 ∷ line2)) 64)
        ≡ true =
      ground (arith, size, line1-le g_status a r, line2-le s g_status) in
    elim (Bool-cases (all_effectively_ok s g_status all_steps || not (status_shown s))) [
      | inl hidden ↦ rw hidden refl
      | inr visible ↦ rw (visible, fits) refl
    ]

rsrp_dbm-show :
    (rsrp : ℕ) (tail : Bytes)
    → rsrp ≤ 97
    → rsrp_dbm (some (show rsrp ++ 13 ∷ tail)) ≡ some (sub_ℕ rsrp 140)
unfolding rsrp_dbm
rsrp_dbm-show rsrp tail known =
    let read = strtol-show rsrp (13 ∷ tail) (omega arith) (unfold is_digit in refl) in
    let in_range : (leb_ℤ (pos 0) (pos rsrp) && leb_ℤ (pos rsrp) (pos 97)) ≡ true = ground arith in
    simp (read, in_range) refl

-- The signal strength that "AT+CESQ" reports in its sixth field, 140 more than it is in dBm, is read
-- from the answer where it is known (0 to 97).
pub modem_rsrp_dbm-answer :
    (head a b c d e tail : Bytes) (rsrp : ℕ)
    → Lacks b':' head
    → Lacks b',' a
    → Lacks b',' b
    → Lacks b',' c
    → Lacks b',' d
    → Lacks b',' e
    → rsrp ≤ 97
    → modem_rsrp_dbm (pos 0) (
        head
        ++ b':'
          ∷ (a
              ++ b','
                ∷ (b ++ b',' ∷ (c ++ b',' ∷ (d ++ b',' ∷ (e ++ b',' ∷ (show rsrp ++ 13 ∷ tail)))))))
      ≡ some (sub_ℕ rsrp 140)
unfolding modem_rsrp_dbm after_fields
modem_rsrp_dbm-answer head a b c d e tail rsrp h₀ h₁ h₂ h₃ h₄ h₅ known =
    let t₅ = show rsrp ++ 13 ∷ tail in
    let t₄ = e ++ b',' ∷ t₅ in
    let t₃ = d ++ b',' ∷ t₄ in
    let t₂ = c ++ b',' ∷ t₃ in
    let t₁ = b ++ b',' ∷ t₂ in
    simp
      (
        cut-append b':' head (a ++ b',' ∷ t₁) h₀,
        cut-append b',' a t₁ h₁,
        cut-append b',' b t₂ h₂,
        cut-append b',' c t₃ h₃,
        cut-append b',' d t₄ h₄,
        cut-append b',' e t₅ h₅,
      )
      (rsrp_dbm-show rsrp tail known)
