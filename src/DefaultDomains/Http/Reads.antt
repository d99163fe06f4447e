-- ===== src/DefaultDomains/Http/Reads.antt =====
-- rust/src/default_domains/http.rs, `read_more`: a read gives the next of the bytes that arrive.
use tg_ws_proxy.Base.{
  ℕ, ◌+◌, ◌-◌, min, ◌≤◌, ◌<◌, ◌≡◌, refl, sym, ap, ◌∙◌, subst, false, none, some, List, [], ◌∷◌,
  ◌++◌, append_assoc, length, length-take, length-drop, take, drop, take-append-drop, concat, All,
  leb, le→leb, if◌then◌else◌, codes, Text, Result, ok, err, arith,
}
use native.Mathlib.Decide.{dec_le}
use tg_ws_proxy.Proxy.Session.{read_plain}
use tg_ws_proxy.DefaultDomains.Http.{Buffered, Ending, read_failed, read_some, grow, read_more}

abbrev pub Nonempty : List ℕ → Type 0
Nonempty part = 0 < length part

abbrev pub eof_text : Text
eof_text = codes "unexpected EOF while reading HTTP response"

abbrev pub limit_text : Text
limit_text = codes "HTTP response body exceeds limit"

-- What a reader that needs more says at the end.
abbrev pub end_text : Ending → Text
end_text none = eof_text
end_text (some reason) = read_failed reason

-- One read with room: the end of the stream, a failure there, or the next bytes.
pub data IsRead (ending : Ending) (room : ℕ) (bytes : List ℕ) : Result Buffered → Type 0 where
  at_end : ending ≡ none → bytes ≡ [] → IsRead ending room bytes (ok ([], []))
  fails :
      (reason : Text)
      → ending ≡ some reason
      → bytes ≡ []
      → IsRead ending room bytes (err (read_failed reason))
  took :
      (b : ℕ) (bs : List ℕ) (rest : List (List ℕ))
      → length (b ∷ bs) ≤ room
      → All Nonempty rest
      → (b ∷ bs) ++ concat rest ≡ bytes
      → IsRead ending room bytes (ok (b ∷ bs, rest))

as_took :
    (ending : Ending) (room : ℕ) (bytes chunk : List ℕ) (rest : List (List ℕ))
    → Nonempty chunk
    → length chunk ≤ room
    → All Nonempty rest
    → chunk ++ concat rest ≡ bytes
    → IsRead ending room bytes (ok (chunk, rest))
as_took ending room bytes [] rest h fits filled e = absurd (omega arith)
as_took ending room bytes (b ∷ bs) rest h fits filled e = took b bs rest fits filled e

pub read_some-IsRead :
    (ending : Ending) (room : ℕ) (parts : List (List ℕ))
    → 0 < room
    → All Nonempty parts
    → IsRead ending room (concat parts) (read_some ending room parts)
unfolding read_some read_plain
read_some-IsRead none room [] h filled = at_end refl refl
read_some-IsRead (some reason) room [] h filled = fails reason refl refl
read_some-IsRead ending room (part ∷ parts) h filled = elim (dec_le (length part) room) [
  | yes fits ↦
      subst (IsRead ending room (part ++ concat parts))
        (sym (rw (le→leb (length part) room fits, read_some, read_plain) refl))
        (as_took ending room _ part parts filled.0 fits filled.1 refl)
  | no big ↦
      subst (IsRead ending room (part ++ concat parts))
        (sym (rw (too_long room (length part) (omega arith), read_some, read_plain) refl))
        (as_took ending room _ (take room part) (drop room part ∷ parts)
          (omega (arith, length-take room part)) (omega (arith, length-take room part))
          (omega (arith, length-drop room part), filled.1)
          (sym (append_assoc (take room part) (drop room part) (concat parts))
            ∙ ap (λ x. x ++ concat parts) (take-append-drop room part)))
]
  where
    too_long : (room n : ℕ) → room < n → leb n room ≡ false
    too_long room n h = ground arith

-- `read_more` below its limit: the stream has ended or fails, or the buffer grows by its next bytes.
pub data IsMore (ending : Ending) (limit : ℕ) (buf bytes : List ℕ) : Result Buffered → Type 0 where
  ended : bytes ≡ [] → IsMore ending limit buf bytes (err (end_text ending))
  grown :
      (chunk : List ℕ) (rest : List (List ℕ))
      → 0 < length chunk
      → length buf + length chunk ≤ limit
      → All Nonempty rest
      → chunk ++ concat rest ≡ bytes
      → IsMore ending limit buf bytes (ok (buf ++ chunk, rest))

pub below : (limit n : ℕ) → n < limit → leb limit n ≡ false
below limit n h = ground arith

pub read_more-IsMore :
    (ending : Ending) (limit : ℕ) (buf : List ℕ) (parts : List (List ℕ))
    → length buf < limit
    → All Nonempty parts
    → IsMore ending limit buf (concat parts) (read_more ending buf parts limit)
unfolding read_more
read_more-IsMore ending limit buf parts h filled =
    more (read_some ending (min (limit - length buf) 8192) parts)
      (read_some-IsRead ending (min (limit - length buf) 8192) parts (omega arith) filled)
  where
    more :
        (r : Result Buffered)
        → IsRead ending (min (limit - length buf) 8192) (concat parts) r
        → IsMore ending limit buf (concat parts) (
            if leb limit (length buf)
            then err (codes "HTTP response exceeds limit")
            else grow buf r)
    more _ (at_end clean e) =
        rw (below limit (length buf) h)
          (subst (λ x. IsMore ending limit buf (concat parts) (err (end_text x))) clean (ended e))
    more _ (fails reason broken e) =
        rw (below limit (length buf) h)
          (subst (λ x. IsMore ending limit buf (concat parts) (err (end_text x))) broken (ended e))
    more _ (took b bs rest fits ok_rest e) =
        rw (below limit (length buf) h)
          (grown (b ∷ bs) rest (omega arith) (omega (arith, fits)) ok_rest e)
