-- ===== src/Proxy/Upload.antt =====
-- rust/src/proxy.rs, the upload loop of `bridge_ws`: what Telegram receives.
use tg_ws_proxy.Base.{
  ℕ, ◌≡◌, refl, sym, ap, ◌∙◌, subst, subst₂, inl, inr, true, false, Option, none, some, List, [],
  ◌∷◌, ◌++◌, append_assoc, length, concat, All, is_empty, Option-cases,
}
use tg_ws_proxy.Crypto.Cipher.{
  Primitives, Cipher, crypt, advance, crypt-append, length-crypt, apply_keystream, xor_from,
}
use tg_ws_proxy.Splitter.Split.{MsgSplitter, split, split_all, flush}
use tg_ws_proxy.Proxy.Bridge.{
  Upload, upload, recode, frames_of, forward, send_parts, finish_upload, last_parts, add_bytes,
}

send_parts-all : (parts : List (List ℕ)) → send_parts none parts ≡ (parts, none, true)
unfolding send_parts
send_parts-all [] = refl
send_parts-all (part ∷ parts) = rw (send_parts-all parts, send_parts) refl

abbrev pub IsRead : List ℕ → Type 0
IsRead chunk = is_empty chunk ≡ false

module _ (P : Primitives) where
  -- The reads as they are encrypted for Telegram.
  abbrev pub recoded : Cipher → Cipher → List (List ℕ) → List (List ℕ)
  recoded dec enc [] = []
  recoded dec enc (chunk ∷ chunks) =
      crypt P enc (crypt P dec chunk)
      ∷ recoded (advance P dec (length chunk)) (advance P enc (length chunk)) chunks

  pub recode_lem :
      (dec enc : Cipher) (chunk : List ℕ)
      → recode P dec enc chunk ≡ (
        crypt P enc (crypt P dec chunk),
        advance P dec (length chunk),
        advance P enc (length chunk),
      )
  unfolding recode apply_keystream
  recode_lem dec enc chunk =
      ap (λ n. (crypt P enc (crypt P dec chunk), advance P dec (length chunk), advance P enc n))
        (length-crypt P dec chunk)

  pub concat-recoded :
      (dec enc : Cipher) (chunks : List (List ℕ))
      → concat (recoded dec enc chunks) ≡ crypt P enc (crypt P dec (concat chunks))
  concat-recoded dec enc [] = unfold crypt xor_from in refl
  concat-recoded dec enc (chunk ∷ chunks) =
      ap (◌++◌ (crypt P enc (crypt P dec chunk)))
        (concat-recoded (advance P dec (length chunk)) (advance P enc (length chunk)) chunks)
      ∙ ap
          (λ n.
            crypt P enc (crypt P dec chunk)
            ++ crypt P (advance P enc n) (crypt P (advance P dec (length chunk)) (concat chunks)))
          (sym (length-crypt P dec chunk))
      ∙ sym (crypt-append P enc (crypt P dec chunk) _)
      ∙ ap (crypt P enc) (sym (crypt-append P dec chunk (concat chunks)))

  split_all-cons :
      (s t : MsgSplitter) (x : List ℕ) (xs parts : List (List ℕ))
      → split_all P s (x ∷ xs) ≡ some (parts, t)
      → (a b : List (List ℕ)) × (m : MsgSplitter) × (split P s x ≡ some (a, m))
        × (split_all P m xs ≡ some (b, t))
        × (a ++ b ≡ parts)
  unfolding split_all
  split_all-cons s t x xs parts e = elim (Option-cases (split P s x)) [
    | inl fails ↦ absurd (cc (e, ap again fails))
    | inr ((a, m), first) ↦ elim (Option-cases (split_all P m xs)) [
      | inl fails ↦ absurd (cc (e, ap again first, ap (put a) fails))
      | inr ((b, z), rest) ↦
          let whole = sym e ∙ ap again first ∙ ap (put a) rest in
          (
            a,
            b,
            m,
            first,
            rest ∙ ap (λ y. some (b, y)) (ap (λ o. second t o) (sym whole)),
            ap (λ o. first_of parts o) (sym whole),
          )
    ]
  ]
    where
      put :
          List (List ℕ)
          → Option (List (List ℕ) × MsgSplitter)
          → Option (List (List ℕ) × MsgSplitter)
      put a o = elim o [ none ↦ none | some (more, z) ↦ some (a ++ more, z) ]

      again : Option (List (List ℕ) × MsgSplitter) → Option (List (List ℕ) × MsgSplitter)
      again o = elim o [ none ↦ none | some (a, m) ↦ put a (split_all P m xs) ]

      second : MsgSplitter → Option (List (List ℕ) × MsgSplitter) → MsgSplitter
      second d o = elim o [ none ↦ d | some (more, z) ↦ z ]

      first_of : List (List ℕ) → Option (List (List ℕ) × MsgSplitter) → List (List ℕ)
      first_of d o = elim o [ none ↦ d | some (more, z) ↦ more ]

  -- The upload in the middle of its loop, with a sink that does not fail.
  abbrev pub midway : Cipher → Cipher → Option MsgSplitter → List (List ℕ) → ℕ → Upload
  midway dec enc splitter sent up = record {
    clt_dec = dec;
    tg_enc = enc;
    splitter = splitter;
    sink = none;
    sent = sent;
    up = up;
    closed = false;
  }

  -- How an upload ends that is not cut short.
  pub record Finishes (sent : List (List ℕ)) (r : Option Upload) : Type 0 where
    pub end : Upload
    pub returns : r ≡ some end
    pub all_sent : end.sent ≡ sent
    pub closed : end.closed ≡ true

  finish_midway :
      (dec enc : Cipher) (splitter : Option MsgSplitter) (sent : List (List ℕ)) (up : ℕ)
      → Finishes (sent ++ last_parts P splitter) (upload P (midway dec enc splitter sent up) [])
  unfolding upload finish_upload
  finish_midway dec enc splitter sent up = record {
    end = finish_upload P (midway dec enc splitter sent up);
    returns = refl;
    all_sent = ap (λ r. sent ++ r.0) (send_parts-all (last_parts P splitter));
    closed = refl;
  }

  forward-midway :
      (dec enc : Cipher) (splitter next : Option MsgSplitter) (sent parts : List (List ℕ)) (up : ℕ)
      (chunk : List ℕ)
      → frames_of P splitter (crypt P enc (crypt P dec chunk)) ≡ some (parts, next)
      → forward P (midway dec enc splitter sent up) chunk
        ≡ some (
          midway
              (advance P dec (length chunk))
              (advance P enc (length chunk))
              next
              (sent ++ parts)
              (add_bytes up (length chunk)),
          true,
        )
  unfolding forward
  forward-midway dec enc splitter next sent parts up chunk e =
      rw (recode_lem dec enc chunk, forward, e, send_parts-all parts)
        (rw (recode_lem dec enc chunk) refl)

  upload-step :
      (dec enc : Cipher) (splitter next : Option MsgSplitter) (sent parts : List (List ℕ)) (up : ℕ)
      (chunk : List ℕ) (chunks : List (List ℕ))
      → IsRead chunk
      → frames_of P splitter (crypt P enc (crypt P dec chunk)) ≡ some (parts, next)
      → upload P (midway dec enc splitter sent up) (chunk ∷ chunks)
        ≡ upload P
            (midway
              (advance P dec (length chunk))
              (advance P enc (length chunk))
              next
              (sent ++ parts)
              (add_bytes up (length chunk)))
            chunks
  unfolding upload
  upload-step dec enc splitter next sent parts up chunk chunks ok e =
      rw (forward-midway dec enc splitter next sent parts up chunk e, upload) (rw ok refl)

  -- Where the splitter answers, everything it gives is sent, then what it keeps, then the close.
  pub upload-split_all :
      (chunks : List (List ℕ)) (dec enc : Cipher) (s t : MsgSplitter) (sent parts : List (List ℕ))
      (up : ℕ)
      → All IsRead chunks
      → split_all P s (recoded dec enc chunks) ≡ some (parts, t)
      → Finishes
          (sent ++ (parts ++ (flush t).0))
          (upload P (midway dec enc (some s) sent up) chunks)
  unfolding split_all last_parts frames_of
  upload-split_all [] dec enc s t sent parts up ok e =
      subst (λ o. Finishes (sent ++ o) (upload P (midway dec enc (some s) sent up) []))
        (ap (λ r. elim r as (λ _. List (List ℕ)) [ none ↦ [] | some (p, z) ↦ p ++ (flush z).0 ]) e)
        (finish_midway dec enc (some s) sent up)
  upload-split_all (chunk ∷ chunks) dec enc s t sent parts up ok e =
      let (a, b, m, first, rest, whole) =
        split_all-cons s t (crypt P enc (crypt P dec chunk)) _ parts e in
      let step =
        upload-step dec enc (some s) (some m) sent a up chunk chunks ok.0
          (frames s m a chunk first) in
      let more =
        upload-split_all chunks (advance P dec (length chunk)) (advance P enc (length chunk)) m t
          (sent ++ a) b (add_bytes up (length chunk)) ok.1 rest in
      subst₂ Finishes
        (append_assoc sent a (b ++ (flush t).0)
          ∙ ap (◌++◌ sent) (sym (append_assoc a b (flush t).0) ∙ ap (λ z. z ++ (flush t).0) whole))
        (sym step) more
    where
      frames :
          (s m : MsgSplitter) (a : List (List ℕ)) (x : List ℕ)
          → split P s (crypt P enc (crypt P dec x)) ≡ some (a, m)
          → frames_of P (some s) (crypt P enc (crypt P dec x)) ≡ some (a, some m)
      frames s m a x e = rw (e, frames_of) refl

  -- A tunnel sends each read as one message.
  pub upload-tunnel :
      (chunks : List (List ℕ)) (dec enc : Cipher) (sent : List (List ℕ)) (up : ℕ)
      → All IsRead chunks
      → Finishes (sent ++ recoded dec enc chunks) (upload P (midway dec enc none sent up) chunks)
  unfolding last_parts frames_of
  upload-tunnel [] dec enc sent up ok = finish_midway dec enc none sent up
  upload-tunnel (chunk ∷ chunks) dec enc sent up ok =
      let x = crypt P enc (crypt P dec chunk) in
      subst₂ Finishes (append_assoc sent (x ∷ []) _)
        (sym (upload-step dec enc none none sent (x ∷ []) up chunk chunks ok.0 refl))
        (upload-tunnel chunks (advance P dec (length chunk)) (advance P enc (length chunk))
          (sent ++ (x ∷ [])) (add_bytes up (length chunk)) ok.1)
