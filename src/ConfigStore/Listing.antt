-- ===== src/ConfigStore/Listing.antt =====
-- What `config_list` writes.
use nodem_nrf.Base.{
  ℕ, ◌+◌, ◌≤◌, List, [], ◌∷◌, ◌++◌, append_assoc, append-nil, ◌≡◌, refl, sym, ap, ◌∙◌, inl, inr,
  arith, if◌then◌else◌, Bool-cases, length, length-append, leb, ◌-◌,
}
use nodem_nrf.ConfigStore.{list_line, list_from, config_list}
use nodem_nrf.ConfigStore.Table.{Entry}
use nodem_nrf.Text.{Bytes}

-- The entries in use, in the table's order.
pub used_entries : List Entry → List Entry
used_entries [] = []
used_entries (e ∷ es) = let rest = used_entries es in if e.used then e ∷ rest else rest

pub lines : List Entry → Bytes
lines [] = []
lines (e ∷ es) = list_line e ++ lines es

-- The first line that is left out does not fit behind those written.
abbrev pub NoMore : ℕ → ℕ → List Entry → Type 0
NoMore buf_len written [] = Unit
NoMore buf_len written (e ∷ es) = buf_len ≤ written + length (list_line e)

-- `text` is `out` and the whole lines of the first of `es`, as many as fit.
pub record Lists (es : List Entry) (buf_len : ℕ) (out text : Bytes) : Type 0 where
  pub listed : List Entry
  pub left : List Entry
  pub in_order : es ≡ listed ++ left
  pub whole_lines : text ≡ out ++ lines listed
  pub in_bounds : length text ≤ buf_len
  pub no_more : NoMore buf_len (length text) left

Lists-cons :
    (e : Entry) (es : List Entry) (n : ℕ) (out text : Bytes)
    → Lists es n (out ++ list_line e) text
    → Lists (e ∷ es) n out text
unfolding lines
Lists-cons e es n out text h = record {
  listed = e ∷ h.listed;
  left = h.left;
  in_order = ap (◌∷◌ e) h.in_order;
  whole_lines = h.whole_lines ∙ append_assoc out (list_line e) (lines h.listed);
  in_bounds = h.in_bounds;
  no_more = h.no_more;
}

list_from-Lists :
    (es : List Entry) (n : ℕ) (out : Bytes)
    → length out ≤ n
    → Lists (used_entries es) n out (list_from es n out)
unfolding list_from used_entries lines
list_from-Lists [] n out h = record {
  listed = [];
  left = [];
  in_order = refl;
  whole_lines = sym (append-nil out);
  in_bounds = h;
  no_more = tt;
}
list_from-Lists (e ∷ es) n out h = elim (Bool-cases e.used) [
  | inr free ↦ simp free (list_from-Lists es n out h)
  | inl used ↦ elim (Bool-cases (leb (n - length out) (length (list_line e)))) [
    | inl full ↦
        simp (used, full)
          (record {
            listed = [];
            left = e ∷ used_entries es;
            in_order = refl;
            whole_lines = sym (append-nil out);
            in_bounds = h;
            no_more = ground arith;
          })
    | inr more ↦
        simp (used, more)
          (Lists-cons e (used_entries es) n out _ (
            list_from-Lists es n (out ++ list_line e)
              (ground (arith, length-append out (list_line e)))))
  ]
]

-- `config_list` writes whole lines, those of the first used entries in the table's order, stays
-- within the buffer, and stops only before a line that would not leave room for its NUL.
pub config_list-Lists :
    (es : List Entry) (buf_len : ℕ) → Lists (used_entries es) buf_len [] (config_list es buf_len)
unfolding config_list
config_list-Lists es buf_len = list_from-Lists es buf_len [] (omega arith)
