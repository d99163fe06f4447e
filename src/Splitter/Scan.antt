-- ===== src/Splitter/Scan.antt =====
-- The loop of `split` ends within its fuel, and what it has cut is the front of the buffer.
use tg_ws_proxy.Base.{
  ℕ, zero, suc, ◌+◌, ◌-◌, ◌≤◌, ◌<◌, ◌≡◌, refl, sym, ap, ap₂, ◌∙◌, ◌⊎◌, inl, inr, Option, none, some,
  List, [], ◌∷◌, ◌++◌, append-nil, arith, length, take, drop, slice, concat, concat-append,
  length-drop, take-add, take-append-drop,
}
use tg_ws_proxy.Crypto.Tag.{ProtoTag}
use tg_ws_proxy.Splitter.Lengths.{next_packet_len, packet_len-le}
use tg_ws_proxy.Splitter.Split.{Scan, starved, unsupported, scan}

pub len_cases : (o : Option ℕ) → (o ≡ none) ⊎ (o ≡ some 0) ⊎ ((n : ℕ) × (o ≡ some (suc n)))
len_cases none = inl refl
len_cases (some zero) = inr (inl refl)
len_cases (some (suc n)) = inr (inr (n, refl))

pub next_packet_len-le :
    (proto : ProtoTag) (plain : List ℕ) (consumed n : ℕ)
    → next_packet_len proto plain consumed ≡ some (suc n)
    → consumed + suc n ≤ length plain
unfolding next_packet_len
next_packet_len-le proto plain consumed n e =
    ground (arith, packet_len-le proto (drop consumed plain) n, length-drop consumed plain)

pub width : (consumed n : ℕ) → consumed + n - consumed ≡ n
width consumed n = omega arith

-- The part cut at one round continues the front of the buffer.
cut_next :
    (consumed n : ℕ) (cipher : List ℕ) (parts : List (List ℕ))
    → concat parts ≡ take consumed cipher
    → concat (parts ++ (slice consumed (consumed + n) cipher ∷ [])) ≡ take (consumed + n) cipher
cut_next consumed n cipher parts h =
    concat-append parts (slice consumed (consumed + n) cipher ∷ [])
    ∙ ap₂ ◌++◌ h (append-nil _ ∙ ap (λ k. take k (drop consumed cipher)) (width consumed n))
    ∙ sym (take-add consumed n cipher)

abbrev pub Ends : ProtoTag → List ℕ → List ℕ → Scan → Type 0
Ends proto plain cipher (starved parts consumed) =
    (concat parts ≡ take consumed cipher)
    × (consumed ≤ length plain)
    × (next_packet_len proto plain consumed ≡ none)
Ends proto plain cipher (unsupported parts) = concat parts ≡ cipher

module _ (proto : ProtoTag) (plain cipher : List ℕ) where
  pub scan-Ends :
      (fuel consumed : ℕ) (parts : List (List ℕ))
      → consumed ≤ length plain
      → length plain < fuel + consumed
      → concat parts ≡ take consumed cipher
      → (r : Scan) × (scan fuel proto plain cipher consumed parts ≡ some r)
        × Ends proto plain cipher r
  unfolding scan
  scan-Ends zero consumed parts h fuel_le e = absurd (omega arith)
  scan-Ends (suc fuel) consumed parts h fuel_le e =
      elim (len_cases (next_packet_len proto plain consumed)) [
        | inl stop ↦ (starved parts consumed, rw (stop, scan), (e, h, stop))
        | inr (inl bad) ↦ (
          unsupported (parts ++ (drop consumed cipher ∷ [])),
          rw (bad, scan),
          concat-append parts (drop consumed cipher ∷ [])
              ∙ ap₂ ◌++◌ e (append-nil _)
              ∙ take-append-drop consumed cipher,
        )
        | inr (inr (n, found)) ↦
            let le = next_packet_len-le proto plain consumed n found in
            let rest =
              scan-Ends fuel (consumed + suc n)
                (parts ++ (slice consumed (consumed + suc n) cipher ∷ [])) le (omega arith)
                (cut_next consumed (suc n) cipher parts e) in
            (rest.0, rw (found, scan) rest.1, rest.2)
      ]
