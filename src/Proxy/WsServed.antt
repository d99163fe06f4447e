-- ===== src/Proxy/WsServed.antt =====
-- rust/src/proxy.rs, `bridge_ws` with `join_bridge`: the side that ends a session has been served in
-- full, and the other one up to where it was aborted.
use tg_ws_proxy.Base.{
  ℕ, ◌≡◌, refl, sym, ap, ◌∙◌, subst, Option, none, some, inl, inr, Option-cases, List, [],
  append-nil,
}
use tg_ws_proxy.Crypto.Cipher.{Primitives}
use tg_ws_proxy.Proxy.Bridge.{Upload, upload, Message}
use tg_ws_proxy.Proxy.Session.{ClosedBy, client, upstream}
use tg_ws_proxy.Proxy.WsSession.{
  Download, WsBridge, upload_round, download_round, WsStep, uploads, downloads, upload_ends,
  download_ends, WsReach, here, next,
}
use tg_ws_proxy.Proxy.WsDelivery.{
  Begins, upload_rest, upload_by_rounds, upload-Begins, aborted_upload-Begins, Leaves, IsDownRound,
  more, over, down-IsDownRound, aborted_download-Begins,
}

module _ (P : Primitives) where
  -- A session in which the upload comes to `end`, and the download to `wire` and `total`.
  data IsOnWay (end : Upload) (wire : List ℕ) (total : ℕ) (b : WsBridge) : Type 0 where
    running :
        b.closed_by ≡ none
        → upload P b.upload b.reads ≡ some end
        → Leaves P wire total b.download b.messages
        → IsOnWay end wire total b
    by_client :
        b.closed_by ≡ some client
        → b.upload ≡ end
        → Begins b.download.written wire
        → IsOnWay end wire total b
    by_upstream :
        b.closed_by ≡ some upstream
        → b.download.written ≡ wire
        → b.download.down ≡ total
        → Begins b.upload.sent end.sent
        → IsOnWay end wire total b

  up_end : Option Upload → Upload → Upload
  up_end none u = u
  up_end (some v) u = v

  module _ (end : Upload) (wire : List ℕ) (total : ℕ) where
    closed_once : {c : ClosedBy} (o : Option ClosedBy) → o ≡ none → o ≡ some c → ⊥
    closed_once o e f = cc (e, f)

    upload_goes_on :
        (b : WsBridge) (u : Upload) (reads : List (List ℕ))
        → upload P b.upload b.reads ≡ some end
        → upload_round P b.upload b.reads ≡ some (u, some reads)
        → upload P u reads ≡ some end
    unfolding upload_rest
    upload_goes_on b u reads e f =
        sym (upload_by_rounds P b.upload b.reads ∙ ap (upload_rest P) f) ∙ e

    upload_stops :
        (b : WsBridge) (u : Upload)
        → upload P b.upload b.reads ≡ some end
        → upload_round P b.upload b.reads ≡ some (u, none)
        → u ≡ end
    unfolding upload_rest up_end
    upload_stops b u e f =
        ap (λ o. up_end o u) (sym (upload_by_rounds P b.upload b.reads ∙ ap (upload_rest P) f) ∙ e)

    -- What a round says of the state behind it.
    abbrev Follows : Option (Download × Option (List Message)) → Type 0
    Follows none = ℕ
    Follows (some (e, some rest)) = Leaves P wire total e rest
    Follows (some (e, none)) = (e.written ≡ wire) × (e.down ≡ total)

    download_goes_on :
        (d e : Download) (ms rest : List Message)
        → Leaves P wire total d ms
        → download_round P d ms ≡ some (e, some rest)
        → Leaves P wire total e rest
    download_goes_on d e ms rest l f =
        by_round (download_round P d ms) (down-IsDownRound P wire total d ms l) f
      where
        by_round :
            (r : Option (Download × Option (List Message)))
            → IsDownRound P wire total d r
            → r ≡ some (e, some rest)
            → Leaves P wire total e rest
        by_round _ (more e' ms' b left) f = subst Follows f left
        by_round _ (over w t) f = cc f

    download_stops :
        (d e : Download) (ms : List Message)
        → Leaves P wire total d ms
        → download_round P d ms ≡ some (e, none)
        → (e.written ≡ wire) × (e.down ≡ total)
    download_stops d e ms l f =
        by_round (download_round P d ms) (down-IsDownRound P wire total d ms l) f
      where
        by_round :
            (r : Option (Download × Option (List Message)))
            → IsDownRound P wire total d r
            → r ≡ some (e, none)
            → (e.written ≡ wire) × (e.down ≡ total)
        by_round _ (more e' ms' b left) f = cc f
        by_round _ (over w t) f = subst Follows f (w, t)

    WsStep-IsOnWay :
        {b c : WsBridge} → WsStep P b c → IsOnWay end wire total b → IsOnWay end wire total c
    WsStep-IsOnWay (uploads b u reads run_on e) (running n up l) =
        running run_on (upload_goes_on b u reads up e) l
    WsStep-IsOnWay (downloads b d ms run_on e) (running n up l) =
        running run_on up (download_goes_on b.download d b.messages ms l e)
    WsStep-IsOnWay (upload_ends b u k run_on e) (running n up l) =
        by_client refl (upload_stops b u up e)
          (aborted_download-Begins P k wire total b.download b.messages l)
    WsStep-IsOnWay (download_ends b d k run_on e) (running n up l) =
        let (w, t) = download_stops b.download d b.messages l e in
        by_upstream refl w t (aborted_upload-Begins P k b.upload end b.reads up)
    WsStep-IsOnWay (uploads b u reads run_on e) (by_client n x y) =
        absurd (closed_once b.closed_by run_on n)
    WsStep-IsOnWay (downloads b d ms run_on e) (by_client n x y) =
        absurd (closed_once b.closed_by run_on n)
    WsStep-IsOnWay (upload_ends b u k run_on e) (by_client n x y) =
        absurd (closed_once b.closed_by run_on n)
    WsStep-IsOnWay (download_ends b d k run_on e) (by_client n x y) =
        absurd (closed_once b.closed_by run_on n)
    WsStep-IsOnWay (uploads b u reads run_on e) (by_upstream n x y z) =
        absurd (closed_once b.closed_by run_on n)
    WsStep-IsOnWay (downloads b d ms run_on e) (by_upstream n x y z) =
        absurd (closed_once b.closed_by run_on n)
    WsStep-IsOnWay (upload_ends b u k run_on e) (by_upstream n x y z) =
        absurd (closed_once b.closed_by run_on n)
    WsStep-IsOnWay (download_ends b d k run_on e) (by_upstream n x y z) =
        absurd (closed_once b.closed_by run_on n)

    WsReach-IsOnWay :
        {start b : WsBridge}
        → IsOnWay end wire total start
        → WsReach P start b
        → IsOnWay end wire total b
    WsReach-IsOnWay s here = s
    WsReach-IsOnWay s (next r st) = WsStep-IsOnWay st (WsReach-IsOnWay s r)

  -- Where a session stands whose uploads come to `end` and whose downloads to `wire` and `total` if
  -- they are not aborted. What was sent and written begins all that, and the side that ended the
  -- session has been served in full; a session that has not ended can go on.
  pub record IsServed (end : Upload) (wire : List ℕ) (total : ℕ) (b : WsBridge) : Type 0 where
    pub sent : Begins b.upload.sent end.sent
    pub written : Begins b.download.written wire
    pub all_sent : b.closed_by ≡ some client → b.upload ≡ end
    pub all_written :
        b.closed_by ≡ some upstream → (b.download.written ≡ wire) × (b.download.down ≡ total)
    pub goes_on : b.closed_by ≡ none → (c : WsBridge) × WsStep P b c

  can_go_on :
      (b : WsBridge) (end : Upload)
      → b.closed_by ≡ none
      → upload P b.upload b.reads ≡ some end
      → (c : WsBridge) × WsStep P b c
  unfolding upload_rest
  can_go_on b end run_on e = elim (Option-cases (upload_round P b.upload b.reads)) [
    | inl f ↦ absurd (cc (sym (upload_by_rounds P b.upload b.reads ∙ ap (upload_rest P) f) ∙ e))
    | inr ((u, none), f) ↦ (_, upload_ends b u 0 run_on f)
    | inr ((u, some reads), f) ↦ (_, uploads b u reads run_on f)
  ]

  served :
      (end : Upload) (wire : List ℕ) (total : ℕ) (b : WsBridge)
      → IsOnWay end wire total b
      → IsServed end wire total b
  served end wire total b (running n up l) = record {
    sent = upload-Begins P b.reads b.upload end up;
    written = (l.rest, l.whole);
    all_sent = λ f. absurd (closed_once end wire total b.closed_by n f);
    all_written = λ f. absurd (closed_once end wire total b.closed_by n f);
    goes_on = λ f. can_go_on b end n up;
  }
  served end wire total b (by_client n u w) = record {
    sent = ([], append-nil b.upload.sent ∙ ap (λ x. x.sent) u);
    written = w;
    all_sent = λ f. u;
    all_written = λ f. absurd (cc (sym n ∙ f));
    goes_on = λ f. absurd (closed_once end wire total b.closed_by f n);
  }
  served end wire total b (by_upstream n w t s) = record {
    sent = s;
    written = ([], append-nil b.download.written ∙ w);
    all_sent = λ f. absurd (cc (sym n ∙ f));
    all_written = λ f. (w, t);
    goes_on = λ f. absurd (closed_once end wire total b.closed_by f n);
  }

  pub WsReach-IsServed :
      (start b : WsBridge) (end : Upload) (wire : List ℕ) (total : ℕ)
      → start.closed_by ≡ none
      → upload P start.upload start.reads ≡ some end
      → Leaves P wire total start.download start.messages
      → WsReach P start b
      → IsServed end wire total b
  WsReach-IsServed start b end wire total n up l r =
      served end wire total b (WsReach-IsOnWay end wire total (running n up l) r)
