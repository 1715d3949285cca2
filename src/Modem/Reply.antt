-- ===== src/Modem/Reply.antt =====
-- The server's reply to a registration: `register_http_request` behind its `recv` loop.
use nodem_nrf.Base.{
  ◌+◌, ◌<◌, false, ◌||◌, List, [], ◌∷◌, ◌++◌, ◌≡◌, ◌≢◌, refl, sym, ap, ◌∙◌, some, arith, length,
  All, ◌==◌, leb, ◌-◌, take_all, append_assoc, append-nil, length-append,
}
use nodem_nrf.ConfigStore.{ReadResult, got}
use nodem_nrf.Modem.Register.{reply_fields, recv_response, response}
use nodem_nrf.Text.{Bytes, codes, truncated}
use nodem_nrf.Text.Fields.{Lacks, cut-append}
use nodem_nrf.Text.Search.{after_first, strip_prefix, until_any}

-- No byte ends the name.
abbrev pub InName : Bytes → Type 0
InName = All (λ c. (c ≢ b',') × (c ≢ 13) × (c ≢ 10))

until_any-InName :
    (name rest : Bytes) → InName name → until_any (codes ",\r\n") (name ++ 13 ∷ rest) ≡ name
unfolding until_any
until_any-InName [] rest h = refl
until_any-InName (c ∷ name) rest ((h₁, h₂, h₃), h) = ground (arith, until_any-InName name rest h)

-- A body "#id,<id>,<secret>,<name>\r\n…" behind the blank line is read as those three, each cut to its
-- buffer. The id and the secret hold no comma, and the name no comma and no end of line.
pub reply_fields-body :
    (resp id secret name tail : Bytes)
    → after_first (codes "\r\n\r\n") resp
      ≡ some (codes "#id," ++ (id ++ b',' ∷ (secret ++ b',' ∷ (name ++ 13 ∷ tail))))
    → Lacks b',' id
    → Lacks b',' secret
    → InName name
    → reply_fields resp
      ≡ some (record {
        id = truncated 64 id;
        secret = truncated 64 secret;
        verified_name = truncated 128 name;
      })
unfolding reply_fields after_first strip_prefix
reply_fields-body resp id secret name tail body h k n =
    let first = cut-append b',' id (secret ++ b',' ∷ (name ++ 13 ∷ tail)) h in
    let second = cut-append b',' secret (name ++ 13 ∷ tail) k in
    rw (body, first, second, until_any-InName name tail n) refl

abbrev pub chunks : List Bytes → List ReadResult
chunks [] = []
chunks (c ∷ cs) = got c ∷ chunks cs

-- All that was sent.
unfoldable pub joined : List Bytes → Bytes
joined [] = []
joined (c ∷ cs) = c ++ joined cs

abbrev pub NonEmpty : List Bytes → Type 0
NonEmpty = All (λ c. c ≢ [])

length_pos : (c : Bytes) → c ≢ [] → (length c == 0) ≡ false
length_pos [] h = absurd (h refl)
length_pos (b ∷ c) h = ground arith

recv_from :
    (cs : List Bytes) (resp : Bytes)
    → NonEmpty cs
    → length resp + length (joined cs) < 1023
    → recv_response (chunks cs) resp ≡ response (resp ++ joined cs)
unfolding recv_response joined
recv_from [] resp h l = ap response (sym (append-nil resp))
recv_from (c ∷ cs) resp (ne, h) l =
    let l₂ : length resp + length (c ++ joined cs) < 1023 = l in
    let size = length-append c (joined cs) in
    let whole = take_all (1023 - length resp) c (omega (arith, size)) in
    let more : (leb 1023 (length resp) || length c == 0) ≡ false =
      ground (arith, size, length_pos c ne) in
    rw (more, whole)
      (recv_from cs (resp ++ c) h (omega (arith, size, length-append resp c))
        ∙ ap response (append_assoc resp c (joined cs)))

-- However the reply is cut into packets, the loop over `recv` collects all of it, where it is
-- shorter than the buffer and no packet is empty.
pub recv_response-chunks :
    (cs : List Bytes)
    → NonEmpty cs
    → length (joined cs) < 1023
    → recv_response (chunks cs) [] ≡ response (joined cs)
recv_response-chunks cs h l = recv_from cs [] h (omega arith)
