-- ===== src/Base/Maps.antt =====
-- `HashMap` of the standard library: a list of entries with one entry for each key.
use mathlib.Core.Path.{◌≡◌, refl, sym, ◌∙◌}
use mathlib.Core.Logic.{inl, inr}
use mathlib.Core.Bool.{Bool, true}
use mathlib.Core.Option.{Option, none, some}
use mathlib.Core.List.{List, [], ◌∷◌}
use tg_ws_proxy.Base.Tests.{if◌then◌else◌, Bool-cases}

-- `Eq` of a key type.
pub record KeyEq {ℓ} (K : Type ℓ) : Type ℓ where
  pub same : K → K → Bool
  pub same_refl : (k : K) → same k k ≡ true
  pub same_sym : (k j : K) → same k j ≡ same j k
  pub same_trans : (k j i : K) → same k j ≡ true → same k i ≡ same j i

module _ {ℓ κ} {K : Type ℓ} {V : Type κ} (E : KeyEq K) where
  unfoldable pub remove : K → List (K × V) → List (K × V)
  remove key [] = []
  remove key ((k, v) ∷ entries) =
      let rest = remove key entries in if E.same k key then rest else (k, v) ∷ rest

  -- `HashMap::insert` replaces what stands under the key.
  unfoldable pub insert : K → V → List (K × V) → List (K × V)
  unfolding remove
  insert key v entries = (key, v) ∷ remove key entries

  unfoldable pub get : K → List (K × V) → Option V
  get key [] = none
  get key ((k, v) ∷ entries) = if E.same k key then some v else get key entries

  pub get-remove :
      (key other : K) (entries : List (K × V))
      → get other (remove key entries) ≡ (if E.same key other then none else get other entries)
  unfolding get remove
  get-remove key other [] = elim (Bool-cases (E.same key other)) [
    | inl p ↦ rw p refl
    | inr p ↦ rw p refl
  ]
  get-remove key other ((k, v) ∷ entries) = elim (Bool-cases (E.same k key)) [
    | inl p ↦
        rw (p, E.same_trans k key other p, get-remove key other entries)
          (elim (Bool-cases (E.same key other)) [ inl q ↦ rw q refl | inr q ↦ rw q refl ])
    | inr p ↦ rw p (elim (Bool-cases (E.same key other)) [
      | inl q ↦
          rw
            (
              E.same_sym k other ∙ sym (E.same_trans key other k q) ∙ E.same_sym key k ∙ p,
              get-remove key other entries,
              q,
            )
            refl
      | inr q ↦ rw (get-remove key other entries, q) refl
    ])
  ]

  pub get-insert :
      (key other : K) (v : V) (entries : List (K × V))
      → get other (insert key v entries) ≡ (if E.same key other then some v else get other entries)
  unfolding insert get
  get-insert key other v entries = elim (Bool-cases (E.same key other)) [
    | inl q ↦ rw q refl
    | inr q ↦ rw q (rw (get-remove key other entries, q) refl)
  ]
