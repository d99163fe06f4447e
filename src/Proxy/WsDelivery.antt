-- ===== src/Proxy/WsDelivery.antt =====
-- rust/src/proxy.rs, `bridge_ws`: the loops of its two tasks, round by round, and where they are
-- aborted.
use tg_ws_proxy.Base.{
  ℕ, ◌+◌, ◌≡◌, refl, sym, ap, ◌∙◌, subst, true, false, Option, none, some, inl, inr, Option-cases,
  Bool-cases, List, [], ◌∷◌, ◌++◌, append_assoc, append-nil, length, take, drop, take-append-drop,
  is_empty,
}
use tg_ws_proxy.Crypto.Cipher.{Primitives}
use tg_ws_proxy.Proxy.Bridge.{
  take_send, Upload, upload, forward, finish_upload, send_parts, last_parts, Message, binary, text,
  ping, pong, ended, frames_of, received, payload, write_all, recode, add_bytes, download,
}
use tg_ws_proxy.Proxy.WsSession.{
  Download, upload_round, download_payload, download_round, aborted_upload, aborted_download,
}

module _ {ℓ} {A : Type ℓ} where
  -- `xs` is what the list `whole` begins with.
  abbrev pub Begins : List A → List A → Type ℓ
  Begins xs whole = (rest : List A) × (xs ++ rest ≡ whole)

  pub Begins_trans : (xs ys zs : List A) → Begins xs ys → Begins ys zs → Begins xs zs
  Begins_trans xs ys zs (r, e) (s, f) = (r ++ s, sym (append_assoc xs r s) ∙ ap (λ x. x ++ s) e ∙ f)

  pub Begins-take : (n : ℕ) (xs : List A) → Begins (take n xs) xs
  Begins-take n xs = (drop n xs, take-append-drop n xs)

module _ (P : Primitives) where
  -- The loop is its rounds.
  unfoldable pub upload_rest : Option (Upload × Option (List (List ℕ))) → Option Upload
  upload_rest none = none
  upload_rest (some (u, none)) = some u
  upload_rest (some (u, some reads)) = upload P u reads

  pub upload_by_rounds :
      (u : Upload) (reads : List (List ℕ)) → upload P u reads ≡ upload_rest (upload_round P u reads)
  unfolding upload upload_round upload_rest
  upload_by_rounds u [] = refl
  upload_by_rounds u (chunk ∷ chunks) = elim (Bool-cases (is_empty chunk)) [
    | inl e ↦ rw (e, upload, upload_round, upload_rest) refl
    | inr e ↦ elim (Option-cases (forward P u chunk)) [
      | inl f ↦ rw (e, f, upload, upload_round, upload_rest) refl
      | inr ((v, true), f) ↦ rw (e, f, upload, upload_round, upload_rest) refl
      | inr ((v, false), f) ↦ rw (e, f, upload, upload_round, upload_rest) refl
    ]
  ]

  sent_of {ℓ} : {X : Type ℓ} → List (List ℕ) → Option (Upload × X) → List (List ℕ)
  sent_of sent none = sent
  sent_of sent (some (v, x)) = v.sent

  sent_at : Option Upload → List (List ℕ)
  sent_at none = []
  sent_at (some u) = u.sent

  -- A round only adds to what was sent.
  forward-Begins :
      (u : Upload) (chunk : List ℕ) → Begins u.sent (sent_of u.sent (forward P u chunk))
  unfolding forward sent_of
  forward-Begins u chunk =
      elim (Option-cases (frames_of P u.splitter (recode P u.clt_dec u.tg_enc chunk).0)) [
        | inl f ↦ rw (f, forward) ([], append-nil u.sent)
        | inr ((parts, splitter), f) ↦ rw (f, forward) ((send_parts u.sink parts).0, refl)
      ]

  round-Begins :
      (u : Upload) (reads : List (List ℕ)) → Begins u.sent (sent_of u.sent (upload_round P u reads))
  unfolding upload_round finish_upload sent_of
  round-Begins u [] = ((send_parts u.sink (last_parts P u.splitter)).0, refl)
  round-Begins u (chunk ∷ chunks) = elim (Bool-cases (is_empty chunk)) [
    | inl e ↦ rw (e, upload_round) ((send_parts u.sink (last_parts P u.splitter)).0, refl)
    | inr e ↦ elim (Option-cases (forward P u chunk)) [
      | inl f ↦ rw (e, f, upload_round) ([], append-nil u.sent)
      | inr ((v, true), f) ↦
          rw (e, f, upload_round)
            (subst (Begins u.sent) (ap (sent_of u.sent) f) (forward-Begins u chunk))
      | inr ((v, false), f) ↦
          rw (e, f, upload_round)
            (subst (Begins u.sent) (ap (sent_of u.sent) f) (forward-Begins u chunk))
    ]
  ]

  -- What the loop has sent begins what it will have sent.
  pub upload-Begins :
      (reads : List (List ℕ)) (u end : Upload)
      → upload P u reads ≡ some end
      → Begins u.sent end.sent
  unfolding upload finish_upload sent_of sent_at
  upload-Begins [] u end e =
      subst (Begins u.sent) (ap sent_at e) ((send_parts u.sink (last_parts P u.splitter)).0, refl)
  upload-Begins (chunk ∷ chunks) u end e = elim (Bool-cases (is_empty chunk)) [
    | inl h ↦
        let on : upload P u (chunk ∷ chunks) ≡ some (finish_upload P u) = rw (h, upload) refl in
        subst (Begins u.sent) (ap sent_at (sym on ∙ e))
          ((send_parts u.sink (last_parts P u.splitter)).0, refl)
    | inr h ↦ elim (Option-cases (forward P u chunk)) [
      | inl f ↦
          let on : upload P u (chunk ∷ chunks) ≡ none = rw (h, f, upload) refl in
          absurd (cc (sym on ∙ e))
      | inr ((v, true), f) ↦
          let on : upload P u (chunk ∷ chunks) ≡ upload P v chunks = rw (h, f, upload) refl in
          Begins_trans u.sent v.sent end.sent
            (subst (Begins u.sent) (ap (sent_of u.sent) f) (forward-Begins u chunk))
            (upload-Begins chunks v end (sym on ∙ e))
      | inr ((v, false), f) ↦
          let on : upload P u (chunk ∷ chunks) ≡ some v = rw (h, f, upload) refl in
          subst (Begins u.sent) (ap (sent_of u.sent) f ∙ ap sent_at (sym on ∙ e))
            (forward-Begins u chunk)
    ]
  ]

  -- What an aborted upload has sent begins what it would have sent.
  pub aborted_upload-Begins :
      (n : ℕ) (u end : Upload) (reads : List (List ℕ))
      → upload P u reads ≡ some end
      → Begins (aborted_upload P n u reads).sent end.sent
  unfolding aborted_upload upload_rest sent_at
  aborted_upload-Begins n u end reads e = elim (Option-cases (upload_round P u reads)) [
    | inl f ↦ rw (f, aborted_upload) (upload-Begins reads u end e)
    | inr ((v, none), f) ↦
        rw (f, aborted_upload)
          (subst (Begins (take (length u.sent + n) v.sent))
            (ap sent_at (sym (upload_by_rounds u reads ∙ ap upload_rest f) ∙ e))
            (Begins-take (length u.sent + n) v.sent))
    | inr ((v, some reads'), f) ↦
        rw (f, aborted_upload)
          (Begins_trans (take (length u.sent + n) v.sent) v.sent end.sent
            (Begins-take (length u.sent + n) v.sent)
            (upload-Begins reads' v end (sym (upload_by_rounds u reads ∙ ap upload_rest f) ∙ e)))
  ]

  -- What is left of the download, on top of what was written.
  pub record Leaves (wire : List ℕ) (total : ℕ) (d : Download) (ms : List Message) : Type 0 where
    pub rest : List ℕ
    pub returns : download P d.writer d.sink d.tg_dec d.clt_enc d.down ms ≡ some (rest, total)
    pub whole : d.written ++ rest ≡ wire

  -- What a round of the download comes to, where the loop comes to `wire` and `total`.
  pub data IsDownRound (wire : List ℕ) (total : ℕ) (d : Download)
      : Option (Download × Option (List Message)) → Type 0 where
    more :
        (e : Download) (ms : List Message)
        → Begins d.written e.written
        → Leaves wire total e ms
        → IsDownRound wire total d (some (e, some ms))
    over : d.written ≡ wire → d.down ≡ total → IsDownRound wire total d (some (d, none))

  abbrev bytes_of : Option (List ℕ × ℕ) → List ℕ
  bytes_of none = []
  bytes_of (some r) = r.0

  abbrev count_of : Option (List ℕ × ℕ) → ℕ
  count_of none = 0
  count_of (some r) = r.1

  ends_here :
      (wire : List ℕ) (total : ℕ) (d : Download) (ms : List Message)
      → Leaves wire total d ms
      → download P d.writer d.sink d.tg_dec d.clt_enc d.down ms ≡ some ([], d.down)
      → IsDownRound wire total d (some (d, none))
  ends_here wire total d ms l e =
      let same = sym e ∙ l.returns in
      over (sym (append-nil d.written) ∙ ap (λ x. d.written ++ x) (ap bytes_of same) ∙ l.whole)
        (ap count_of same)

  payload-IsDownRound :
      (wire : List ℕ) (total : ℕ) (d : Download) (m : Message) (b : List ℕ) (ms : List Message)
      → received m ≡ payload b
      → Leaves wire total d (m ∷ ms)
      → IsDownRound wire total d (download_payload P d (recode P d.tg_dec d.clt_enc b) b ms)
  unfolding download download_payload
  payload-IsDownRound wire total d m b ms e l =
      let (out, dec, enc) = recode P d.tg_dec d.clt_enc b in
      let count = add_bytes d.down (length b) in
      let start = download P d.writer d.sink d.tg_dec d.clt_enc d.down (m ∷ ms) in
      elim (Option-cases (take_send d.sink)) [
        | inl f ↦
            rw (f, download_payload) (ends_here wire total d (m ∷ ms) l (rw (e, f, download) refl))
        | inr (sink, f) ↦ elim (Option-cases (write_all d.writer out)) [
          | inl g ↦
              let on : start ≡ none = rw (e, f, g, download) refl in
              absurd (cc (sym on ∙ l.returns))
          | inr (first, g) ↦ elim (Option-cases (download P d.writer sink dec enc count ms)) [
            | inl h ↦
                let on : start ≡ none = rw (e, f, g, h, download) refl in
                absurd (cc (sym on ∙ l.returns))
            | inr ((after, n), h) ↦
                let on : start ≡ some (first ++ after, n) = rw (e, f, g, h, download) refl in
                let same = sym on ∙ l.returns in
                rw (f, g, download_payload)
                  (more
                    (record d {
                      sink = sink;
                      tg_dec = dec;
                      clt_enc = enc;
                      written = d.written ++ first;
                      down = count;
                    })
                    ms (first, refl)
                    (record {
                      rest = after;
                      returns = h ∙ ap (λ k. some (after, k)) (ap count_of same);
                      whole =
                          append_assoc d.written first after
                          ∙ ap (λ x. d.written ++ x) (ap bytes_of same)
                          ∙ l.whole;
                    }))
          ]
        ]
      ]

  pub down-IsDownRound :
      (wire : List ℕ) (total : ℕ) (d : Download) (ms : List Message)
      → Leaves wire total d ms
      → IsDownRound wire total d (download_round P d ms)
  unfolding download_round download received
  down-IsDownRound wire total d [] l = ends_here wire total d [] l refl
  down-IsDownRound wire total d (ended ∷ ms) l = ends_here wire total d (ended ∷ ms) l refl
  down-IsDownRound wire total d (ping ∷ ms) l =
      more d ms ([], append-nil d.written)
        (record { rest = l.rest; returns = l.returns; whole = l.whole })
  down-IsDownRound wire total d (pong ∷ ms) l =
      more d ms ([], append-nil d.written)
        (record { rest = l.rest; returns = l.returns; whole = l.whole })
  down-IsDownRound wire total d (binary b ∷ ms) l =
      payload-IsDownRound wire total d (binary b) b ms refl l
  down-IsDownRound wire total d (text b ∷ ms) l =
      payload-IsDownRound wire total d (text b) b ms refl l

  -- What an aborted download has written begins what it would have written.
  pub aborted_download-Begins :
      (n : ℕ) (wire : List ℕ) (total : ℕ) (d : Download) (ms : List Message)
      → Leaves wire total d ms
      → Begins (aborted_download P n d ms).written wire
  unfolding aborted_download
  aborted_download-Begins n wire total d ms l =
      by_round (download_round P d ms) (down-IsDownRound wire total d ms l)
    where
      by_round :
          (r : Option (Download × Option (List Message)))
          → IsDownRound wire total d r
          → Begins
              (elim r as (λ _. Download) [
                | none ↦ d
                | some (e, rest) ↦ record d { written = take (length d.written + n) e.written }
              ]).written
              wire
      by_round _ (more e ms b left) =
          Begins_trans (take (length d.written + n) e.written) e.written wire
            (Begins-take (length d.written + n) e.written) (left.rest, left.whole)
      by_round _ (over w t) =
          Begins_trans (take (length d.written + n) d.written) d.written wire
            (Begins-take (length d.written + n) d.written) ([], append-nil d.written ∙ w)
