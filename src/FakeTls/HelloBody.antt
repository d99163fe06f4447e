-- ===== src/FakeTls/HelloBody.antt =====
-- rust/src/faketls.rs: the hello's body and its extensions are read as they were written.
use tg_ws_proxy.Base.{
  ℕ, ◌+◌, ◌-◌, ◌<◌, ◌≡◌, refl, sym, ap, ap₂, ◌∙◌, Option, some, List, [], ◌∷◌, ◌++◌, length, take,
  drop, slice, get_or, u16_from_be, length-append, drop-append, take-append, drop-drop, take-all,
  get_or-drop, arith, le→not_ltb, lt→ltb,
}
use tg_ws_proxy.FakeTls.ClientHello.{
  parse_from_compression, parse_from_extensions, parse_from_suites, parse_body, parse_sni_extension,
  hello_body, hello_tail,
}

-- Where one compression method and then `exts` stand at `p`, up to the end.
from_compression :
    (body random session_id suite : List ℕ) (p : ℕ) (exts : List ℕ) (host : Option (List ℕ))
    → get_or body p 0 ≡ 1
    → u16_from_be (get_or body (p + 2) 0) (get_or body (p + 2 + 1) 0) ≡ length exts
    → length body ≡ p + 4 + length exts
    → slice (p + 2 + 2) (p + 2 + 2 + length exts) body ≡ exts
    → parse_sni_extension exts ≡ some host
    → parse_from_compression body random session_id suite p
      ≡ some
          record { random = random; session_id = session_id; cipher_suite = suite; hostname = host }
unfolding parse_from_compression parse_from_extensions
from_compression body random session_id suite p exts host one len total cut sni =
    rw
      (
        lt→ltb p (length body) (omega arith),
        one,
        le→not_ltb (length body) (p + 2 + 2) (omega arith),
        len,
        le→not_ltb (length body) (p + 2 + 2 + length exts) (omega arith),
        parse_from_compression,
        parse_from_extensions,
      )
      (rw (cut, sni) refl)

-- Where a body stands that has a 32-byte session id and 32 bytes of suites.
whole_body :
    (b random session_id suite exts : List ℕ) (host : Option (List ℕ))
    → get_or b 34 0 ≡ 32
    → length b ≡ 105 + length exts
    → u16_from_be (get_or b 67 0) (get_or b 68 0) ≡ 32
    → get_or b 101 0 ≡ 1
    → u16_from_be (get_or b 103 0) (get_or b 104 0) ≡ length exts
    → slice 35 67 b ≡ session_id
    → slice 69 71 b ≡ suite
    → slice 105 (105 + length exts) b ≡ exts
    → parse_sni_extension exts ≡ some host
    → parse_body random b
      ≡ some
          record { random = random; session_id = session_id; cipher_suite = suite; hostname = host }
unfolding parse_body parse_from_suites
whole_body b random session_id suite exts host byte total suites one len sid cs cut sni =
    rw
      (
        byte,
        le→not_ltb (length b) 35 (omega arith),
        le→not_ltb (length b) 69 (omega arith),
        suites,
        le→not_ltb (length b) 102 (omega arith),
        sid,
        cs,
        parse_body,
        parse_from_suites,
      )
      (from_compression b random session_id suite 101 exts host one len total cut sni)

module _ (random session_id exts : List ℕ) (hr : length random ≡ 32)
    (hs : length session_id ≡ 32) where
  abbrev body : List ℕ
  body = hello_body random session_id exts

  session_at :
      drop 32 (random ++ (0x20 ∷ (session_id ++ hello_tail exts)))
      ≡ 0x20 ∷ (session_id ++ hello_tail exts)
  session_at = drop-append random _ 32 (sym hr)

  session_byte : get_or body 34 0 ≡ 32
  session_byte =
      sym (get_or-drop 32 0 (random ++ (0x20 ∷ (session_id ++ hello_tail exts))) 0)
      ∙ ap (λ xs. get_or xs 0 0) session_at

  session_drop : drop 35 body ≡ session_id ++ hello_tail exts
  session_drop =
      sym (drop-drop 1 32 (random ++ (0x20 ∷ (session_id ++ hello_tail exts))))
      ∙ ap (drop 1) session_at

  tail_at : drop 67 body ≡ hello_tail exts
  tail_at =
      sym (drop-drop 32 35 body)
      ∙ ap (drop 32) session_drop
      ∙ drop-append session_id (hello_tail exts) 32 (sym hs)

  in_tail : (i : ℕ) → get_or body (67 + i) 0 ≡ get_or (hello_tail exts) i 0
  in_tail i = sym (get_or-drop 67 i body 0) ∙ ap (λ xs. get_or xs i 0) tail_at

  length-body : length body ≡ 105 + length exts
  length-body = omega (
    arith,
    length-append random (0x20 ∷ (session_id ++ hello_tail exts)),
    length-append session_id (hello_tail exts),
  )

  exts_at : slice 105 (105 + length exts) body ≡ exts
  exts_at =
      ap₂ take (lem (length exts)) (sym (drop-drop 38 67 body) ∙ ap (drop 38) tail_at)
      ∙ take-all (length exts) exts (omega arith)
    where
      lem : (n : ℕ) → 105 + n - 105 ≡ n
      lem n = omega arith

  session_slice : slice 35 67 body ≡ session_id
  session_slice = ap (take 32) session_drop ∙ take-append session_id (hello_tail exts) 32 (sym hs)

  suite_slice : slice 69 71 body ≡ 0x13 ∷ 0x01 ∷ []
  suite_slice = ap (take 2) (sym (drop-drop 2 67 body) ∙ ap (drop 2) tail_at)

  -- A body that carries `exts` is read as the session id, the first suite and the name in `exts`.
  pub parse_body-hello :
      (host : Option (List ℕ))
      → length exts < 0x1_0000
      → parse_sni_extension exts ≡ some host
      → parse_body random body
        ≡ some record {
          random = random;
          session_id = session_id;
          cipher_suite = 0x13 ∷ 0x01 ∷ [];
          hostname = host;
        }
  parse_body-hello host small sni =
      whole_body body random session_id (0x13 ∷ 0x01 ∷ []) exts host session_byte length-body
        (ap₂ u16_from_be (in_tail 0) (in_tail 1)) (in_tail 34)
        (ap₂ u16_from_be (in_tail 36) (in_tail 37) ∙ omega arith) session_slice suite_slice exts_at
        sni
