-- ===== src/Proxy/Interleaving.antt =====
-- rust/src/proxy.rs, `bridge_relay`, `bridge_tcp` and `join_bridge`: both directions of a session.
use tg_ws_proxy.Base.{
  ℕ, ◌≤◌, ◌≡◌, refl, sym, subst, ◌∙◌, ◌<◌, Bool, true, false, Option, none, some, List, length,
  if◌then◌else◌, arith,
}
use tg_ws_proxy.Crypto.Cipher.{Primitives}
use tg_ws_proxy.Crypto.Session.{ConnectionCiphers}
use tg_ws_proxy.Proxy.Bridge.{ClientWriter, Sink}
use tg_ws_proxy.Proxy.Session.{
  ClientReader, Task, Round, goes_on, stops, round, ClosedBy, client, upstream, Bridge,
  bridge_relay, Step, uploads, downloads, upload_ends, download_ends, Reach, here, next,
}
use tg_ws_proxy.Proxy.Carry.{Holds}
use tg_ws_proxy.Proxy.Delivery.{HasPassed, IsAlong, IsRound, onward, over, round-IsRound}

pub relay_room : (faketls : Bool) → 16384 ≤ (if faketls then 16640 else 16384)
relay_room true = omega arith
relay_room false = omega arith

module _ (P : Primitives) where
  -- A session: both directions deliver what they read, from the start on and with nothing left out;
  -- the one that ended it has delivered everything, unless a write failed.
  pub data IsSession (start : Bridge) (up down : List ℕ) (b : Bridge) : Type 0 where
    running :
        b.closed_by ≡ none
        → IsAlong P start.upload up b.upload
        → IsAlong P start.download down b.download
        → IsSession start up down b
    by_client :
        b.closed_by ≡ some client
        → (u : HasPassed P start.upload up b.upload) → (start.upload.sink ≡ none → u.before ≡ up)
        → HasPassed P start.download down b.download
        → IsSession start up down b
    by_upstream :
        b.closed_by ≡ some upstream
        → HasPassed P start.upload up b.upload
        → (d : HasPassed P start.download down b.download)
        → (start.download.sink ≡ none → d.before ≡ down)
        → IsSession start up down b

  -- What a round came to, when it is known to go on, or to stop. One that goes on leaves less.
  pub goes_shorter :
      (start : Task) (bytes : List ℕ) (t u : Task) (a : IsAlong P start bytes t)
      → round P t ≡ some (goes_on u)
      → (b : IsAlong P start bytes u) × (length b.so_far.after < length a.so_far.after)
  goes_shorter start bytes t u a e =
      let (r, f, ok) = round-IsRound P start bytes t a in by_round r ok (sym f ∙ e)
    where
      by_round :
          (r : Round)
          → IsRound P start bytes (length a.so_far.after) r
          → some r ≡ some (goes_on u)
          → (b : IsAlong P start bytes u) × (length b.so_far.after < length a.so_far.after)
      by_round r (onward v b fewer) e =
          subst
            (λ v. (b : IsAlong P start bytes v) × (length b.so_far.after < length a.so_far.after))
            (cc e) (b, fewer)
      by_round r (over v d whole) e = cc e

  goes_along :
      (start : Task) (bytes : List ℕ) (t u : Task) (a : IsAlong P start bytes t)
      → round P t ≡ some (goes_on u)
      → IsAlong P start bytes u
  goes_along start bytes t u a e = (goes_shorter start bytes t u a e).0

  abbrev Stopped : Task → List ℕ → Task → Type 0
  Stopped start bytes u = (d : HasPassed P start bytes u) × (start.sink ≡ none → d.before ≡ bytes)

  stops_with :
      (start : Task) (bytes : List ℕ) (t u : Task) (a : IsAlong P start bytes t)
      → round P t ≡ some (stops u)
      → Stopped start bytes u
  stops_with start bytes t u a e =
      let (r, f, ok) = round-IsRound P start bytes t a in by_round r ok (sym f ∙ e)
    where
      by_round :
          (r : Round)
          → IsRound P start bytes (length a.so_far.after) r
          → some r ≡ some (stops u)
          → Stopped start bytes u
      by_round r (onward v b fewer) e = cc e
      by_round r (over v d whole) e = subst (Stopped start bytes) (cc e) (d, whole)

  module _ (start : Bridge) (up down : List ℕ) where
    pub no_closer : {c : ClosedBy} (o : Option ClosedBy) → o ≡ none → o ≡ some c → ⊥
    no_closer o e f = cc (e, f)

    Step-IsSession :
        {b c : Bridge} → Step P b c → IsSession start up down b → IsSession start up down c
    Step-IsSession (uploads b t run_on e) (running n u d) =
        running run_on (goes_along start.upload up b.upload t u e) d
    Step-IsSession (downloads b t run_on e) (running n u d) =
        running run_on u (goes_along start.download down b.download t d e)
    Step-IsSession (upload_ends b t run_on e) (running n u d) =
        let (done, whole) = stops_with start.upload up b.upload t u e in
        by_client refl done whole d.so_far
    Step-IsSession (download_ends b t run_on e) (running n u d) =
        let (done, whole) = stops_with start.download down b.download t d e in
        by_upstream refl u.so_far done whole
    Step-IsSession (uploads b t run_on e) (by_client n u whole d) =
        absurd (no_closer b.closed_by run_on n)
    Step-IsSession (downloads b t run_on e) (by_client n u whole d) =
        absurd (no_closer b.closed_by run_on n)
    Step-IsSession (upload_ends b t run_on e) (by_client n u whole d) =
        absurd (no_closer b.closed_by run_on n)
    Step-IsSession (download_ends b t run_on e) (by_client n u whole d) =
        absurd (no_closer b.closed_by run_on n)
    Step-IsSession (uploads b t run_on e) (by_upstream n u d whole) =
        absurd (no_closer b.closed_by run_on n)
    Step-IsSession (downloads b t run_on e) (by_upstream n u d whole) =
        absurd (no_closer b.closed_by run_on n)
    Step-IsSession (upload_ends b t run_on e) (by_upstream n u d whole) =
        absurd (no_closer b.closed_by run_on n)
    Step-IsSession (download_ends b t run_on e) (by_upstream n u d whole) =
        absurd (no_closer b.closed_by run_on n)

    pub Reach-IsSession :
        {b : Bridge} → IsSession start up down start → Reach P start b → IsSession start up down b
    Reach-IsSession s here = s
    Reach-IsSession s (next r st) = Step-IsSession st (Reach-IsSession s r)

  module _ (reader : ClientReader) (writer : ClientWriter) (ciphers : ConnectionCiphers)
      (faketls : Bool) (rem_reader : ClientReader) (up down : List ℕ) (sends : Holds reader up)
      (answers : Holds rem_reader down) where
    abbrev pub session : Sink → Sink → Bridge
    session rem_sink sink = bridge_relay reader writer ciphers faketls rem_reader rem_sink sink
