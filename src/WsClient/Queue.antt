-- ===== src/WsClient/Queue.antt =====
-- rust/src/ws_client.rs, `CfAttempts`: what `next_domain` and `retry_base_of` do to the queue.
use tg_ws_proxy.Base.{
  suc, ◌+◌, ◌≤◌, ◌≡◌, sym, inl, inr, Bool, true, false, not, ◌&&◌, ◌||◌, Option, none, some, List,
  [], ◌∷◌, length, length-drop, bytes_eq, bytes_eq_iff, subst, member, starts_with, contains,
  replace_first, codes, Text, Bool-cases, arith,
}
use tg_ws_proxy.WsClient.Records.{base_cf_record}
use tg_ws_proxy.WsClient.Attempts.{CfAttempt, CfAttempts, next_from}
use tg_ws_proxy.WsClient.Connect.{room}

-- The record has a turn of its own ahead.
abbrev pub waits : Text → List CfAttempt → Bool
waits e [] = false
waits e (attempt ∷ queue) = (not attempt.forced && bytes_eq e attempt.domain) || waits e queue

-- What `next_domain` finds: all that waited were tried, or the record that is next.
pub data Next (queue : List CfAttempt) (tried : List Text) : Option Text × CfAttempts → Type 0 where
  dry :
      (s : CfAttempts)
      → ((e : Text) → waits e queue ≡ true → member e tried ≡ true)
      → Next queue tried (none, s)
  one :
      (d : Text) (s : CfAttempts)
      → room s.queue + suc (length d) ≤ room queue
      → ((e : Text)
          → waits e queue ≡ true
          → (bytes_eq e d || member e tried || waits e s.queue) ≡ true)
      → ((e : Text) → member e s.tried ≡ true → (bytes_eq e d || member e tried) ≡ true)
      → Next queue tried (some d, s)

-- A forced attempt is not a turn.
skip :
    (attempt : CfAttempt) (queue : List CfAttempt) (tried : List Text)
    (r : Option Text × CfAttempts)
    → ((e : Text) → waits e (attempt ∷ queue) ≡ true → (member e tried || waits e queue) ≡ true)
    → Next queue tried r
    → Next (attempt ∷ queue) tried r
skip attempt queue tried r keep (dry s h) = dry s (λ e w. ground (arith, keep e w, h e))
skip attempt queue tried r keep (one d s fits h k) =
    one d s (omega arith) (λ e w. ground (arith, keep e w, h e)) k

same_member :
    (e d : Text) (ts : List Text) → bytes_eq e d ≡ true → member d ts ≡ true → member e ts ≡ true
same_member e d ts same h = rw ((bytes_eq_iff e d).0 same) h

pub next_from-Next :
    (queue : List CfAttempt) (tried timed_out : List Text)
    → Next queue tried (next_from queue tried timed_out)
unfolding next_from member
next_from-Next [] tried timed_out = dry _ (λ e w. cc)
next_from-Next (attempt ∷ queue) tried timed_out = elim (Bool-cases attempt.forced) [
  | inl f ↦
      let s : CfAttempts = record { queue = queue; tried = tried; timed_out = timed_out } in
      subst (Next (attempt ∷ queue) tried) (sym (taken f))
        (one attempt.domain s (omega arith) (λ e w. ground arith) (λ e m. ground arith))
  | inr f ↦ elim (Bool-cases (member attempt.domain tried)) [
    | inl m ↦ subst (Next (attempt ∷ queue) tried) (sym (passed f m)) (
        skip attempt queue tried _ (λ e w. ground (arith, same_member e attempt.domain tried))
          (next_from-Next queue tried timed_out))
    | inr m ↦
        let s : CfAttempts = record {
          queue = queue;
          tried = attempt.domain ∷ tried;
          timed_out = timed_out;
        } in
        subst (Next (attempt ∷ queue) tried) (sym (new_one f m))
          (one attempt.domain s (omega arith) (λ e w. ground arith) (λ e h. h))
  ]
]
  where
    taken :
        attempt.forced ≡ true
        → next_from (attempt ∷ queue) tried timed_out
          ≡ (some attempt.domain, record { queue = queue; tried = tried; timed_out = timed_out })
    taken f = ground arith

    passed :
        attempt.forced ≡ false
        → member attempt.domain tried ≡ true
        → next_from (attempt ∷ queue) tried timed_out ≡ next_from queue tried timed_out
    passed f m = ground arith

    new_one :
        attempt.forced ≡ false
        → member attempt.domain tried ≡ false
        → next_from (attempt ∷ queue) tried timed_out ≡ (
          some attempt.domain,
          record { queue = queue; tried = attempt.domain ∷ tried; timed_out = timed_out },
        )
    new_one f m = ground arith

length-starts_with : (s p : Text) → starts_with s p ≡ true → length p ≤ length s
unfolding starts_with
length-starts_with s [] h = omega arith
length-starts_with [] (p ∷ ps) h = cc
length-starts_with (c ∷ s) (p ∷ ps) h = ground (arith, length-starts_with s ps)

length-replace_first :
    (s : Text)
    → contains s (codes "-1.") ≡ true
    → length (replace_first s (codes "-1.") (codes ".")) + 2 ≡ length s
unfolding contains replace_first
length-replace_first [] h = cc
length-replace_first (c ∷ s) h = elim (Bool-cases (starts_with (c ∷ s) (codes "-1."))) [
  | inl p ↦ rw p (omega (arith, length-drop 3 (c ∷ s), length-starts_with (c ∷ s) (codes "-1.") p))
  | inr p ↦ rw p (omega (arith, length-replace_first s (ground arith)))
]

pub length-base_cf_record :
    (domain : Text) {base : Text}
    → base_cf_record domain ≡ some base
    → length base + 2 ≡ length domain
unfolding base_cf_record
length-base_cf_record domain e = ground (arith, length-replace_first domain)
