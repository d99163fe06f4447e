-- ===== src/Proxy/Ending.antt =====
-- rust/src/proxy.rs, `bridge_relay`, `bridge_tcp` and `join_bridge`: a session comes to its end, and
-- the side that ends it has been served in full.
use tg_ws_proxy.Base.{
  ℕ, suc, ◌+◌, ◌%◌, ◌^◌, ◌≤◌, ◌≡◌, refl, sym, ap, subst, ◌∙◌, Bool, none, some, List, ◌++◌, length,
  length-append, arith,
}
use tg_ws_proxy.Crypto.Cipher.{Primitives}
use tg_ws_proxy.Crypto.Session.{ConnectionCiphers}
use tg_ws_proxy.Proxy.Bridge.{ClientWriter}
use tg_ws_proxy.Proxy.Session.{
  ClientReader, plain, Task, Round, goes_on, stops, round, ClosedBy, client, upstream, Bridge,
  bridge_relay, bridge_tcp, Step, uploads, downloads, upload_ends, download_ends, Reach, here, next,
}
use tg_ws_proxy.Proxy.Carry.{Holds, Carries}
use tg_ws_proxy.Proxy.Delivery.{passed, HasPassed, IsAlong, round-IsRound, start-IsAlong}
use tg_ws_proxy.Proxy.Interleaving.{
  IsSession, running, by_client, by_upstream, goes_shorter, Reach-IsSession, relay_room,
}

module _ (P : Primitives) where
  -- The rounds of a session.
  abbrev pub rounds : {start b : Bridge} → Reach P start b → ℕ
  rounds here = 0
  rounds (next r st) = suc (rounds r)

  -- All of the bytes were delivered and counted.
  pub record HasAll (start : Task) (bytes : List ℕ) (t : Task) : Type 0 where
    pub written : List ℕ
    pub wire : t.wire ≡ start.wire ++ written
    pub carries : Carries start.writer written (passed P start bytes)
    pub counted : t.count ≡ (start.count + length bytes) % 2 ^ 64

  has_all :
      (start : Task) (bytes : List ℕ) (t : Task) (d : HasPassed P start bytes t)
      → d.before ≡ bytes
      → HasAll start bytes t
  has_all start bytes t d all = record {
    written = d.written;
    wire = d.wire;
    carries = subst (λ x. Carries start.writer d.written (passed P start x)) all d.carries;
    counted = d.counted ∙ ap (λ x. (start.count + length x) % 2 ^ 64) all;
  }

  -- A session on its way to its end: it can go on until it is closed, which takes no more than
  -- `most` rounds, and the side that closed it has delivered everything.
  pub record Ends (start : Bridge) (up down : List ℕ) (b : Bridge) (done most : ℕ) : Type 0 where
    pub bounded : done ≤ most
    pub steps_on : b.closed_by ≡ none → (c : Bridge) × Step P b c
    pub all_up : b.closed_by ≡ some client → HasAll start.upload up b.upload
    pub all_down : b.closed_by ≡ some upstream → HasAll start.download down b.download

  module _ (start : Bridge) (up down : List ℕ) where
    -- A round of a session that goes on takes a byte at least.
    data IsWithin (done : ℕ) (b : Bridge) : Type 0 where
      live :
          b.closed_by ≡ none
          → (u : IsAlong P start.upload up b.upload) (d : IsAlong P start.download down b.download)
          → done + length u.so_far.after + length d.so_far.after ≤ length up + length down
          → IsWithin done b
      shut :
          (c : ClosedBy)
          → b.closed_by ≡ some c
          → done ≤ suc (length up + length down)
          → IsWithin done b

    Step-IsWithin : {b c : Bridge} (n : ℕ) → Step P b c → IsWithin n b → IsWithin (suc n) c
    Step-IsWithin n (uploads b t run_on e) (live o u d le) =
        let (v, less) = goes_shorter P start.upload up b.upload t u e in
        live run_on v d (omega arith)
    Step-IsWithin n (downloads b t run_on e) (live o u d le) =
        let (v, less) = goes_shorter P start.download down b.download t d e in
        live run_on u v (omega arith)
    Step-IsWithin n (upload_ends b t run_on e) (live o u d le) = shut client refl (omega arith)
    Step-IsWithin n (download_ends b t run_on e) (live o u d le) = shut upstream refl (omega arith)
    Step-IsWithin n (uploads b t run_on e) (shut c s le) = absurd (cc (sym run_on ∙ s))
    Step-IsWithin n (downloads b t run_on e) (shut c s le) = absurd (cc (sym run_on ∙ s))
    Step-IsWithin n (upload_ends b t run_on e) (shut c s le) = absurd (cc (sym run_on ∙ s))
    Step-IsWithin n (download_ends b t run_on e) (shut c s le) = absurd (cc (sym run_on ∙ s))

    Reach-IsWithin : {b : Bridge} → IsWithin 0 start → (r : Reach P start b) → IsWithin (rounds r) b
    Reach-IsWithin s here = s
    Reach-IsWithin s (next r st) = Step-IsWithin (rounds r) st (Reach-IsWithin s r)

    can_go_on :
        (b : Bridge)
        → b.closed_by ≡ none
        → IsAlong P start.upload up b.upload
        → (c : Bridge) × Step P b c
    can_go_on b run_on u =
        let (r, e, ok) = round-IsRound P start.upload up b.upload u in by_round r e
      where
        by_round : (r : Round) → round P b.upload ≡ some r → (c : Bridge) × Step P b c
        by_round (goes_on t) e = (_, uploads b t run_on e)
        by_round (stops t) e = (_, upload_ends b t run_on e)

    pub Reach-Ends :
        (b : Bridge) (r : Reach P start b)
        → start.closed_by ≡ none
        → IsAlong P start.upload up start.upload
        → IsAlong P start.download down start.download
        → start.upload.sink ≡ none
        → start.download.sink ≡ none
        → Ends start up down b (rounds r) (suc (length up + length down))
    Reach-Ends b r o u d up_sink down_sink =
        finish (Reach-IsWithin (live o u d (omega (arith, left u, left d))) r)
          (Reach-IsSession P start up down (running o u d) r)
      where
        left :
            {t : Task} {bytes : List ℕ} {now : Task} (a : IsAlong P t bytes now)
            → length a.so_far.after ≤ length bytes
        left a =
            omega (arith, ap length a.so_far.splits, length-append a.so_far.before a.so_far.after)

        finish :
            IsWithin (rounds r) b
            → IsSession P start up down b
            → Ends start up down b (rounds r) (suc (length up + length down))
        finish (live n u d le) s = record {
          bounded = omega arith;
          steps_on = λ e. can_go_on b n u;
          all_up = λ f. absurd (cc (sym n ∙ f));
          all_down = λ f. absurd (cc (sym n ∙ f));
        }
        finish (shut c n le) (running m u d) = absurd (cc (sym m ∙ n))
        finish (shut c n le) (by_client m u whole d) = record {
          bounded = le;
          steps_on = λ e. absurd (cc (sym e ∙ n));
          all_up = λ f. has_all start.upload up b.upload u (whole up_sink);
          all_down = λ f. absurd (cc (sym m ∙ f));
        }
        finish (shut c n le) (by_upstream m u d whole) = record {
          bounded = le;
          steps_on = λ e. absurd (cc (sym e ∙ n));
          all_up = λ f. absurd (cc (sym m ∙ f));
          all_down = λ f. has_all start.download down b.download d (whole down_sink);
        }

  -- Through an upstream proxy, plain or behind FakeTLS, and with sockets that do not fail, a session
  -- can go on until one side ends it, which happens after at most as many rounds as the two readers
  -- hold bytes, and one more, however the two directions interleave. If the client ends it, the
  -- upstream has been sent all of the client's bytes, decrypted and encrypted for it; if the upstream
  -- ends it, the client has been sent all of the upstream's; and that side's counter holds their
  -- number, modulo 2^64.
  pub bridge_relay-Ends :
      (reader : ClientReader) (writer : ClientWriter) (ciphers : ConnectionCiphers) (faketls : Bool)
      (rem_reader : ClientReader) (up down : List ℕ)
      → Holds reader up
      → Holds rem_reader down
      → (b : Bridge)
      → (r : Reach P (bridge_relay reader writer ciphers faketls rem_reader none none) b)
      → Ends
          (bridge_relay reader writer ciphers faketls rem_reader none none)
          up
          down
          b
          (rounds r)
          (suc (length up + length down))
  unfolding bridge_relay
  bridge_relay-Ends reader writer ciphers faketls rem_reader up down sends answers b r =
      let start = bridge_relay reader writer ciphers faketls rem_reader none none in
      Reach-Ends start up down b r refl
        (start-IsAlong P start.upload up sends (omega arith) (omega arith))
        (start-IsAlong P start.download down answers (relay_room faketls) (omega arith)) refl refl

  -- By plain TCP to the data centre the relay init is written first. Behind it, with sockets that do
  -- not fail, a session can go on until one side ends it, which happens after at most as many rounds
  -- as the two readers hold bytes, and one more. If the client ends it, all of the client's bytes
  -- have been sent behind the relay init, decrypted and encrypted for Telegram; if Telegram ends it,
  -- the client has been sent all of Telegram's; and that side's counter holds their number, modulo
  -- 2^64.
  pub bridge_tcp-Ends :
      (reader : ClientReader) (writer : ClientWriter) (ciphers : ConnectionCiphers)
      (relay_init up down : List ℕ) (arrivals : List (List ℕ))
      → Holds reader up
      → Holds (plain arrivals) down
      → (start : Bridge) × (bridge_tcp reader writer ciphers relay_init arrivals none none
          ≡ some start)
        × (start.upload.wire ≡ relay_init)
        × ((b : Bridge) (r : Reach P start b)
            → Ends start up down b (rounds r) (suc (length up + length down)))
  unfolding bridge_tcp
  bridge_tcp-Ends reader writer ciphers relay_init up down arrivals sends answers = (
    _,
    refl,
    refl,
    λ b r.
        Reach-Ends _ up down b r refl (start-IsAlong P _ up sends (omega arith) (omega arith))
          (start-IsAlong P _ down answers (omega arith) (omega arith)) refl refl,
  )
