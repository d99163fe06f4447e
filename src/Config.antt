-- ===== src/Config.antt =====
-- rust/src/config.rs: the tables of data centres and the `--dc-ip` overrides.
pub mod Link
use Prim.Native.String.{String}
use tg_ws_proxy.Base.{
  ℕ, ◌≡◌, refl, sym, ap, ◌∙◌, inl, inr, Bool, true, false, not, ◌&&◌, Option, none, some, List, [],
  ◌∷◌, ◌++◌, reverse, reverse-cons, is_empty, ◌==◌, ==_refl, ==_iff, if◌then◌else◌, KeyEq, insert,
  get, get-insert, Bool-cases, arith,
}

abbrev pub default_dc_ip_table : List (ℕ × String)
default_dc_ip_table =
    (1, "149.154.175.50")
    ∷ (2, "149.154.167.51")
    ∷ (3, "149.154.175.100")
    ∷ (4, "149.154.167.91")
    ∷ (5, "149.154.171.5")
    ∷ (203, "91.105.192.100")
    ∷ []

abbrev pub dc_overrides : List (ℕ × ℕ)
dc_overrides = (203, 2) ∷ []

abbrev pub default_dc_ip_targets : List (ℕ × String)
default_dc_ip_targets = (2, "149.154.167.220") ∷ (4, "149.154.167.220") ∷ []

-- `u32` as a key.
pub ==_sym : (a b : ℕ) → (a == b) ≡ (b == a)
==_sym a b = ground arith

pub ==_trans : (a b c : ℕ) → (a == b) ≡ true → (a == c) ≡ (b == c)
==_trans a b c e = ap (λ x. x == c) ((==_iff a b).0 e)

abbrev pub dc_eq : KeyEq ℕ
dc_eq = record { same = ◌==◌; same_refl = ==_refl; same_sym = ==_sym; same_trans = ==_trans }

-- `(dc, is_media)` as a key.
abbrev pub same_flag : Bool → Bool → Bool
same_flag a b = if a then b else not b

abbrev pub key_same : (ℕ × Bool) → (ℕ × Bool) → Bool
key_same k j = k.0 == j.0 && same_flag k.1 j.1

pub key_same_refl : (k : ℕ × Bool) → key_same k k ≡ true
key_same_refl (a, true) = rw (==_refl a) refl
key_same_refl (a, false) = rw (==_refl a) refl

pub key_same_sym : (k j : ℕ × Bool) → key_same k j ≡ key_same j k
key_same_sym (a, true) (b, true) = rw (==_sym a b) refl
key_same_sym (a, true) (b, false) = rw (==_sym a b) refl
key_same_sym (a, false) (b, true) = rw (==_sym a b) refl
key_same_sym (a, false) (b, false) = rw (==_sym a b) refl

pub key_same_trans : (k j i : ℕ × Bool) → key_same k j ≡ true → key_same k i ≡ key_same j i
key_same_trans (a, true) (b, true) (c, f) e =
    ap (λ x. x && same_flag true f) (==_trans a b c (ground arith))
key_same_trans (a, true) (b, false) (c, f) e = ground arith
key_same_trans (a, false) (b, true) (c, f) e = ground arith
key_same_trans (a, false) (b, false) (c, f) e =
    ap (λ x. x && same_flag false f) (==_trans a b c (ground arith))

abbrev pub dc_key_eq : KeyEq (ℕ × Bool)
dc_key_eq = record {
  same = key_same;
  same_refl = key_same_refl;
  same_sym = key_same_sym;
  same_trans = key_same_trans;
}

module _ {ℓ} {A : Type ℓ} where
  -- `.iter().find_map(|(id, x)| (*id == dc).then_some(x))`
  unfoldable pub find_dc : ℕ → List (ℕ × A) → Option A
  find_dc dc [] = none
  find_dc dc ((id, x) ∷ entries) = if id == dc then some x else find_dc dc entries

  -- `.collect()` into a `HashMap`: the pairs are inserted in order.
  unfoldable pub collect_from : List (ℕ × A) → List (ℕ × A) → List (ℕ × A)
  collect_from m [] = m
  collect_from m ((id, x) ∷ entries) = collect_from (insert dc_eq id x m) entries

  unfoldable pub dc_redirects : List (ℕ × A) → List (ℕ × A)
  unfolding collect_from
  dc_redirects dc_ip = collect_from [] dc_ip

  unfoldable pub dc_target_ip : List (ℕ × A) → ℕ → Option A
  unfolding find_dc
  dc_target_ip dc_ip dc = find_dc dc (reverse dc_ip)

  or_else : Option A → Option A → Option A
  or_else none y = y
  or_else (some x) y = some x

  find_dc-append :
      (dc : ℕ) (xs ys : List (ℕ × A))
      → find_dc dc (xs ++ ys) ≡ or_else (find_dc dc xs) (find_dc dc ys)
  unfolding find_dc or_else
  find_dc-append dc [] ys = refl
  find_dc-append dc ((id, x) ∷ xs) ys = elim (Bool-cases (id == dc)) [
    | inl p ↦ rw p refl
    | inr p ↦ rw p (find_dc-append dc xs ys)
  ]

  or_else_assoc : (x y z : Option A) → or_else (or_else x y) z ≡ or_else x (or_else y z)
  unfolding or_else
  or_else_assoc none y z = refl
  or_else_assoc (some x) y z = refl

  one :
      (dc id : ℕ) (x : A) (m : List (ℕ × A))
      → get dc_eq dc (insert dc_eq id x m) ≡ or_else (find_dc dc ((id, x) ∷ [])) (get dc_eq dc m)
  unfolding find_dc or_else
  one dc id x m =
      get-insert dc_eq id dc x m
      ∙ elim (Bool-cases (id == dc)) [ inl p ↦ rw p refl | inr p ↦ rw p refl ]

  get-collect_from :
      (dc : ℕ) (entries m : List (ℕ × A))
      → get dc_eq dc (collect_from m entries)
        ≡ or_else (find_dc dc (reverse entries)) (get dc_eq dc m)
  unfolding collect_from
  get-collect_from dc [] m = unfold find_dc or_else in refl
  get-collect_from dc ((id, x) ∷ entries) m =
      get-collect_from dc entries (insert dc_eq id x m)
      ∙ ap (or_else (find_dc dc (reverse entries))) (one dc id x m)
      ∙ sym (
          or_else_assoc (find_dc dc (reverse entries)) (find_dc dc ((id, x) ∷ [])) (get dc_eq dc m))
      ∙ ap (λ o. or_else o (get dc_eq dc m))
          (sym (find_dc-append dc (reverse entries) ((id, x) ∷ []))
            ∙ ap (find_dc dc) (sym (reverse-cons (id, x) entries)))

  or_else-none : (x : Option A) → or_else x none ≡ x
  unfolding or_else
  or_else-none none = refl
  or_else-none (some x) = refl

  -- The routing path and the pool's warm-up agree on every DC's target, also for a DC that
  -- `--dc-ip` lists several times: the scan of the flags from the back finds what the map holds.
  pub dc_target_ip-dc_redirects :
      (dc_ip : List (ℕ × A)) (dc : ℕ) → dc_target_ip dc_ip dc ≡ get dc_eq dc (dc_redirects dc_ip)
  unfolding dc_target_ip dc_redirects get
  dc_target_ip-dc_redirects dc_ip dc =
      sym (get-collect_from dc dc_ip [] ∙ or_else-none (find_dc dc (reverse dc_ip)))

unfoldable pub default_dc_ip : ℕ → Option String
unfolding find_dc
default_dc_ip dc = find_dc dc default_dc_ip_table

unfoldable pub websocket_dc : ℕ → ℕ
unfolding find_dc
websocket_dc dc = elim (find_dc dc dc_overrides) [ none ↦ dc | some to ↦ to ]

-- The `--dc-ip` part of `with_defaults`.
unfoldable pub default_targets : List (ℕ × String) → List String → Bool → List (ℕ × String)
default_targets dc_ip cf_domains default_domains =
    if is_empty dc_ip && (is_empty cf_domains && not default_domains)
    then default_dc_ip_targets
    else dc_ip
