-- ===== src/WsClient/Walk.antt =====
-- rust/src/ws_client.rs, `connect_cf_ws_for_dc_with_outbound`: what a walk over the records does.
use tg_ws_proxy.Base.{
  ℕ, zero, suc, ◌+◌, ◌≤◌, ◌<◌, ◌≡◌, refl, ap, ◌∙◌, inl, inr, Bool, true, false, ◌||◌, Option, none,
  some, List, [], ◌∷◌, length, All, bytes_eq, bytes_eq_iff, member, Text, Bool-cases, Option-cases,
  arith,
}
use tg_ws_proxy.WsClient.Records.{cf_ws_domains, is_dns_not_found, base_cf_record}
use tg_ws_proxy.WsClient.Attempts.{
  CfAttempt, CfAttempts, new, next_domain, note_timed_out, retry_base_of,
}
use tg_ws_proxy.WsClient.Connect.{
  WsConnectResult, connected, redirect, failed, connect_timed_out, timed_out, CfWalk, CfTurn, ends,
  goes_on, room, missing, cf_turn, cf_loop, connect_cf_ws_for_dc,
}
use tg_ws_proxy.WsClient.Queue.{waits, Next, dry, one, next_from-Next, length-base_cf_record}

module _ {ℓ} {W : Type ℓ} where
  abbrev pub gives_nothing : WsConnectResult W → Bool
  gives_nothing (connected ws) = false
  gives_nothing _ = true

  -- A redirect, or a record that is not in DNS.
  abbrev pub excused : WsConnectResult W → Bool
  excused (redirect code) = true
  excused (failed reason) = is_dns_not_found reason
  excused (connected ws) = false
  excused (connect_timed_out reason) = false
  excused timed_out = false

module _ {ℓ} {W : Type ℓ} (dial : ℕ → Text → WsConnectResult W) where
  -- Every attempt of a list of dialled records, the last first, brought such a result.
  abbrev pub Each : (WsConnectResult W → Bool) → List Text → Type 0
  Each p [] = Unit {0}
  Each p (d ∷ before) = (p (dial (length before) d) ≡ true) × Each p before

  pub data IsWalked (records : List Text) (walk : CfWalk W) : Type ℓ where
    through :
        (ws : W) (domain : Text) (before : List Text)
        → walk ≡ record {
          ws = some ws;
          answered_by = some domain;
          all_redirects = false;
          dialled = domain ∷ before;
        }
        → dial (length before) domain ≡ connected ws
        → Each gives_nothing before
        → IsWalked records walk
    exhausted :
        (all_redirects : Bool) (dialled : List Text)
        → walk ≡ record {
          ws = none;
          answered_by = none;
          all_redirects = all_redirects;
          dialled = dialled;
        }
        → Each gives_nothing dialled
        → (all_redirects ≡ true → Each excused dialled)
        → All (λ d. member d dialled ≡ true) records
        → IsWalked records walk

  record IsUnderWay (records : List Text) (attempts : CfAttempts) (all_redirects : Bool)
      (dialled : List Text) : Type 0 where
    tried : (e : Text) → member e attempts.tried ≡ true → member e dialled ≡ true
    ahead : All (λ d. (member d dialled || waits d attempts.queue) ≡ true) records
    fruitless : Each gives_nothing dialled
    excuses : all_redirects ≡ true → Each excused dialled

  data IsTurn (records : List Text) (queue : List CfAttempt) : CfTurn W → Type ℓ where
    over : (walk : CfWalk W) → IsWalked records walk → IsTurn records queue (ends walk)
    onward :
        (a : CfAttempts) (r : Bool) (l : List Text)
        → IsUnderWay records a r l
        → room a.queue < room queue
        → IsTurn records queue (goes_on a r l)

  All-map_to :
      {P Q : Text → Type 0} (xs : List Text) → ((x : Text) → P x → Q x) → All P xs → All Q xs
  All-map_to [] f h = tt
  All-map_to (x ∷ xs) f h = (f x h.0, All-map_to xs f h.1)

  finished :
      (records : List Text) (queue : List CfAttempt) (tried dialled : List Text)
      (all_redirects : Bool)
      → ((e : Text) → waits e queue ≡ true → member e tried ≡ true)
      → ((e : Text) → member e tried ≡ true → member e dialled ≡ true)
      → All (λ d. (member d dialled || waits d queue) ≡ true) records
      → All (λ d. member d dialled ≡ true) records
  finished records queue tried dialled all_redirects h k ahead =
      All-map_to records (λ d e. ground (arith, h d, k d)) ahead

  -- One attempt: its record is dialled, and the queue has lost it.
  attempted :
      (records : List Text) (queue : List CfAttempt) (tried : List Text) (s a : CfAttempts)
      (d : Text) (r r' : Bool) (dialled : List Text)
      → ((e : Text) → member e tried ≡ true → member e dialled ≡ true)
      → All (λ e. (member e dialled || waits e queue) ≡ true) records
      → ((e : Text)
          → waits e queue ≡ true
          → (bytes_eq e d || member e tried || waits e s.queue) ≡ true)
      → ((e : Text) → member e s.tried ≡ true → (bytes_eq e d || member e tried) ≡ true)
      → Each gives_nothing (d ∷ dialled)
      → (r' ≡ true → Each excused (d ∷ dialled))
      → a.tried ≡ s.tried
      → ((e : Text) → waits e a.queue ≡ waits e s.queue)
      → IsUnderWay records a r' (d ∷ dialled)
  unfolding member
  attempted records queue tried s a d r r' dialled old ahead keep fresh none_yet excuse same_tried
        same_queue =
      record {
        tried = λ e m. ground (arith, fresh e, old e, same_tried);
        ahead = All-map_to records (λ e h. ground (arith, keep e, old e, same_queue e)) ahead;
        fruitless = none_yet;
        excuses = excuse;
      }

  module _ (records : List Text) (attempts : CfAttempts) (all_redirects : Bool)
      (dialled : List Text) (u : IsUnderWay records attempts all_redirects dialled) where
    module _ (d : Text) (s : CfAttempts)
        (fits : room s.queue + suc (length d) ≤ room attempts.queue)
        (keep : (e : Text)
          → waits e attempts.queue ≡ true
          → (bytes_eq e d || member e attempts.tried || waits e s.queue) ≡ true)
        (fresh : (e : Text)
          → member e s.tried ≡ true
          → (bytes_eq e d || member e attempts.tried) ≡ true) where
      goes_ahead :
          (r' : Bool) (a : CfAttempts)
          → gives_nothing (dial (length dialled) d) ≡ true
          → (r' ≡ true → (excused (dial (length dialled) d) ≡ true) × (all_redirects ≡ true))
          → a.tried ≡ s.tried
          → ((e : Text) → waits e a.queue ≡ waits e s.queue)
          → room a.queue < room attempts.queue
          → IsTurn records attempts.queue (goes_on a r' (d ∷ dialled))
      goes_ahead r' a nothing excuse same_tried same_queue smaller =
          onward a r' (d ∷ dialled)
            (attempted records attempts.queue attempts.tried s a d all_redirects r' dialled u.tried
              u.ahead keep fresh (nothing, u.fruitless)
              (λ e. ((excuse e).0, u.excuses (excuse e).1)) same_tried same_queue)
            smaller

      missing-IsTurn :
          (reason : Text)
          → dial (length dialled) d ≡ failed reason
          → is_dns_not_found reason ≡ true
          → IsTurn records attempts.queue (missing (retry_base_of s d) all_redirects (d ∷ dialled))
      unfolding missing retry_base_of
      missing-IsTurn reason e dns = elim (Option-cases (base_cf_record d)) [
        | inl no_base ↦ rw (no_base, retry_base_of) given_up
        | inr (base, b) ↦ elim (Bool-cases (member base s.timed_out)) [
          | inl slow ↦ rw (b, slow, retry_base_of) given_up
          | inr fast ↦
              rw (b, fast, retry_base_of)
                (goes_ahead all_redirects
                  (record s { queue = record { domain = base; forced = true } ∷ s.queue })
                  (rw e refl) (λ r. (rw e dns, r)) refl (λ t. refl)
                  (omega (arith, length-base_cf_record d b)))
        ]
      ]
        where
          given_up : IsTurn records attempts.queue (goes_on s false (d ∷ dialled))
          given_up = goes_ahead false s (rw e refl) (λ r. (cc, cc)) refl (λ t. refl) (omega arith)

      answered-IsTurn :
          (result : WsConnectResult W)
          → dial (length dialled) d ≡ result
          → IsTurn records attempts.queue (cf_turn dial (some d, s) all_redirects dialled)
      unfolding cf_turn note_timed_out
      answered-IsTurn (connected ws) e =
          rw (e, cf_turn) (over _ (through ws d dialled refl e u.fruitless))
      answered-IsTurn (redirect code) e =
          rw (e, cf_turn)
            (goes_ahead all_redirects s (rw e refl) (λ r. (rw e refl, r)) refl (λ t. refl)
              (omega arith))
      answered-IsTurn (failed reason) e = elim (Bool-cases (is_dns_not_found reason)) [
        | inl dns ↦ rw (e, dns, cf_turn) (missing-IsTurn reason e dns)
        | inr dns ↦
            rw (e, dns, cf_turn)
              (goes_ahead false s (rw e refl) (λ r. (cc, cc)) refl (λ t. refl) (omega arith))
      ]
      answered-IsTurn (connect_timed_out reason) e =
          rw (e, cf_turn)
            (goes_ahead false (note_timed_out s d) (rw e refl) (λ r. (cc, cc)) refl (λ t. refl)
              (omega arith))
      answered-IsTurn timed_out e =
          rw (e, cf_turn)
            (goes_ahead false (note_timed_out s d) (rw e refl) (λ r. (cc, cc)) refl (λ t. refl)
              (omega arith))

    found-IsTurn :
        (found : Option Text × CfAttempts)
        → Next attempts.queue attempts.tried found
        → IsTurn records attempts.queue (cf_turn dial found all_redirects dialled)
    unfolding cf_turn
    found-IsTurn found (dry s h) = over _ (
        exhausted all_redirects dialled refl u.fruitless u.excuses
          (finished records attempts.queue attempts.tried dialled all_redirects h u.tried u.ahead))
    found-IsTurn found (one d s fits keep fresh) =
        answered-IsTurn d s fits keep fresh (dial (length dialled) d) refl

  cf_loop-IsWalked :
      (fuel : ℕ) (records : List Text) (attempts : CfAttempts) (all_redirects : Bool)
      (dialled : List Text)
      → IsUnderWay records attempts all_redirects dialled
      → room attempts.queue < fuel
      → (walk : CfWalk W) × (cf_loop fuel dial attempts all_redirects dialled ≡ some walk)
        × IsWalked records walk
  unfolding cf_loop next_domain
  cf_loop-IsWalked zero records attempts r dialled u h = absurd (omega arith)
  cf_loop-IsWalked (suc fuel) records attempts r dialled u h =
      round (cf_turn dial (next_domain attempts) r dialled) refl
        (found-IsTurn records attempts r dialled u (next_domain attempts)
          (next_from-Next attempts.queue attempts.tried attempts.timed_out))
        (cf_loop-IsWalked fuel records)
    where
      round :
          (turn : CfTurn W)
          → cf_turn dial (next_domain attempts) r dialled ≡ turn
          → IsTurn records attempts.queue turn
          → ((a : CfAttempts) (r' : Bool) (l : List Text)
              → IsUnderWay records a r' l
              → room a.queue < fuel
              → (walk : CfWalk W) × (cf_loop fuel dial a r' l ≡ some walk) × IsWalked records walk)
          → (walk : CfWalk W) × (cf_loop (suc fuel) dial attempts r dialled ≡ some walk)
            × IsWalked records walk
      round turn e (over walk w) go = (walk, rw (e, cf_loop) refl, w)
      round turn e (onward a r' l v smaller) go =
          let (walk, returns, w) = go a r' l v (omega arith) in (walk, rw (e, cf_loop) returns, w)

  waits-new : (d : Text) (xs : List Text) → waits d (new xs).queue ≡ member d xs
  unfolding new member
  waits-new d [] = refl
  waits-new d (x ∷ xs) = ap (λ b. bytes_eq d x || b) (waits-new d xs)

  listed_ahead :
      (records xs : List Text)
      → ((d : Text) → member d xs ≡ true → member d records ≡ true)
      → All (λ d. (member d [] || waits d (new records).queue) ≡ true) xs
  unfolding member
  listed_ahead records [] h = tt
  listed_ahead records (x ∷ xs) h = (
    waits-new x records ∙ h x (ap (λ b. b || member x xs) ((bytes_eq_iff x x).1 refl)),
    listed_ahead records xs (λ d m. h d (ground (arith, m))),
  )

  -- Whatever the attempts bring, the walk over the Cloudflare records of a data centre ends. Either
  -- its last attempt connected, and that record is the one reported with the connection; no earlier
  -- attempt did. Or it gives no connection: then every configured record was dialled, no attempt
  -- connected, and `all_redirects` is set only where each attempt was a redirect or a record that
  -- is not in DNS.
  pub connect_cf_ws_for_dc-IsWalked :
      (dc : ℕ) (cf_domains : List Text) (is_media : Bool)
      → (walk : CfWalk W) × (connect_cf_ws_for_dc dial dc cf_domains is_media ≡ some walk)
        × IsWalked (cf_ws_domains dc cf_domains is_media) walk
  unfolding connect_cf_ws_for_dc
  connect_cf_ws_for_dc-IsWalked dc cf_domains is_media =
      let records = cf_ws_domains dc cf_domains is_media in
      cf_loop-IsWalked (suc (room (new records).queue)) records (new records) true [] started
        (omega arith)
    where
      started :
          IsUnderWay
            (cf_ws_domains dc cf_domains is_media)
            (new (cf_ws_domains dc cf_domains is_media))
            true
            []
      started =
          unfold new member in
          record {
            tried = λ e m. m;
            ahead =
                listed_ahead (cf_ws_domains dc cf_domains is_media)
                  (cf_ws_domains dc cf_domains is_media) (λ d m. m);
            fruitless = tt;
            excuses = λ e. tt;
          }
