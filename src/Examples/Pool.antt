-- ===== src/Examples/Pool.antt =====
-- The theorems of rust/src/pool.rs, rust/src/limits.rs and rust/src/config.rs at concrete inputs.
-- A connection is a number here, and one with an odd number has something to read.
use tg_ws_proxy.Base.{
  ℕ, ◌+◌, ◌%◌, ◌≤◌, ◌≡◌, refl, Bool, false, List, [], ◌∷◌, length, ◌==◌, get, if◌then◌else◌,
}
use tg_ws_proxy.Config.{dc_eq, dc_target_ip, dc_redirects, dc_target_ip-dc_redirects}
use tg_ws_proxy.Pool.Shelf.{Entry, Shelf, refill_begin, refill_end, warm}
use tg_ws_proxy.Pool.Shelf.{get as get_idle}
use tg_ws_proxy.Pool.Take.{IsTaken, get-IsTaken}
use tg_ws_proxy.Pool.Bound.{Reached, started, began, ended, Reached-bound, warm-overfills}

abbrev quiet : ℕ → Bool
quiet n = n % 2 == 0

abbrev bucket : List (Entry ℕ)
bucket = (record { ws = 7; created = 90 }) ∷ (record { ws = 4; created = 80 }) ∷ []

abbrev shelf : Shelf ℕ ℕ
shelf = record { idle = λ k. if k == 2 then bucket else []; refilling = λ k. false }

get-IsTaken_example :
    let (found, t) = get_idle dc_eq 100 60 quiet shelf 2 in
    IsTaken dc_eq 100 60 quiet bucket (found, t.idle 2)
    × (t.idle 3 ≡ (if 2 == 3 then t.idle 2 else shelf.idle 3))
get-IsTaken_example = get-IsTaken dc_eq 100 60 quiet shelf 2 3

abbrev fresh : Shelf ℕ ℕ
fresh = record { idle = λ k. []; refilling = λ k. false }

abbrev filled : Shelf ℕ ℕ
filled = refill_end dc_eq 2 50 (refill_begin dc_eq 2 fresh 4).1 4 (6 ∷ 8 ∷ 10 ∷ [])

filled-Reached : Reached dc_eq 2 filled
unfolding refill_begin
filled-Reached = ended 50 4 (6 ∷ 8 ∷ 10 ∷ []) (began 4 started) refl

Reached-bound_example : length (filled.idle 4) ≤ 2
Reached-bound_example = Reached-bound dc_eq 2 filled 4 filled-Reached

warm-overfills_example : length ((warm dc_eq 100 shelf 2 (12 ∷ 14 ∷ [])).idle 2) ≡ 2 + 2
warm-overfills_example = warm-overfills dc_eq 2 100 shelf 2 (12 ∷ 14 ∷ []) refl refl

abbrev flags : List (ℕ × ℕ)
flags = (2, 10) ∷ (4, 11) ∷ (2, 12) ∷ []

dc_target_ip-dc_redirects_example : dc_target_ip flags 2 ≡ get dc_eq 2 (dc_redirects flags)
dc_target_ip-dc_redirects_example = dc_target_ip-dc_redirects flags 2
