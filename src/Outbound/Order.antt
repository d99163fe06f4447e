-- ===== src/Outbound/Order.antt =====
-- rust/src/outbound/config.rs, `select_env_proxy`: which variable decides.
use tg_ws_proxy.Base.{
  ◌≡◌, refl, ◌∙◌, inl, inr, false, Option, none, some, List, [], ◌∷◌, ◌++◌, is_empty, codes, Text,
  trim, if◌then◌else◌, Result, ok, err, Bool-cases,
}
use tg_ws_proxy.Outbound.Url.{Parsers, ProxyConfig, parse}
use tg_ws_proxy.Outbound.Select.{
  is_direct_marker, no_proxy_found, first_of, env_proxy_loop, select_env_proxy,
}

module _ (P : Parsers) where
  -- What a value settles: no proxy, or its own.
  abbrev pub settles : Result ProxyConfig → Option (Option ProxyConfig)
  settles (ok proxy) = some (some proxy)
  settles (err e) = none

  abbrev pub decision : Option Text → Option (Option ProxyConfig)
  decision none = none
  decision (some raw) =
      if is_empty (trim raw)
      then none
      else if is_direct_marker (trim raw)
      then some none
      else settles (parse P (trim raw))

  abbrev pub complaint_of : Text → Result ProxyConfig → Option Text
  complaint_of name (ok proxy) = none
  complaint_of name (err e) = some (name ++ (codes ": " ++ e))

  abbrev pub complaint : Text → Option Text → Option Text
  complaint name none = none
  complaint name (some raw) =
      if is_empty (trim raw)
      then none
      else if is_direct_marker (trim raw)
      then none
      else complaint_of name (parse P (trim raw))

  abbrev pub or_next {ℓ} : {A : Type ℓ} → Option A → Option A → Option A
  or_next (some a) later = some a
  or_next none later = later

  abbrev pub first_decision : List (Text × Option Text) → Option (Option ProxyConfig)
  first_decision [] = none
  first_decision ((name, value) ∷ values) = or_next (decision value) (first_decision values)

  abbrev pub first_complaint : List (Text × Option Text) → Option Text
  first_complaint [] = none
  first_complaint ((name, value) ∷ values) = or_next (complaint name value) (first_complaint values)

  abbrev pub outcome : Option (Option ProxyConfig) → Option Text → Result (Option ProxyConfig)
  outcome (some choice) e = ok choice
  outcome none e = no_proxy_found e

  outcome-first :
      (o : Option (Option ProxyConfig)) (first e : Option Text) (m : Text)
      → outcome o (or_next (first_of first m) e) ≡ outcome o (or_next first (some m))
  outcome-first (some choice) first e m = refl
  outcome-first none none e m = refl
  outcome-first none (some f) e m = refl

  env_proxy_loop-outcome :
      (values : List (Text × Option Text)) (first : Option Text)
      → env_proxy_loop P values first
        ≡ outcome (first_decision values) (or_next first (first_complaint values))
  unfolding env_proxy_loop
  env_proxy_loop-outcome [] none = refl
  env_proxy_loop-outcome [] (some e) = refl
  env_proxy_loop-outcome ((name, none) ∷ values) first = env_proxy_loop-outcome values first
  env_proxy_loop-outcome ((name, some raw) ∷ values) first =
      elim (Bool-cases (is_empty (trim raw))) [
        | inl blank ↦ rw (blank, env_proxy_loop) (env_proxy_loop-outcome values first)
        | inr full ↦ elim (Bool-cases (is_direct_marker (trim raw))) [
          | inl marker ↦ rw (full, marker, env_proxy_loop) refl
          | inr url ↦ parsed full url (parse P (trim raw)) refl (env_proxy_loop-outcome values)
        ]
      ]
    where
      parsed :
          is_empty (trim raw) ≡ false
          → is_direct_marker (trim raw) ≡ false
          → (result : Result ProxyConfig) → parse P (trim raw) ≡ result
          → ((first : Option Text)
              → env_proxy_loop P values first
                ≡ outcome (first_decision values) (or_next first (first_complaint values)))
          → env_proxy_loop P ((name, some raw) ∷ values) first
            ≡ outcome
                (first_decision ((name, some raw) ∷ values))
                (or_next first (first_complaint ((name, some raw) ∷ values)))
      parsed full url (ok proxy) e go = rw (full, url, e, env_proxy_loop) refl
      parsed full url (err m) e go =
          rw (full, url, e, env_proxy_loop)
            (go (first_of first (name ++ (codes ": " ++ m)))
              ∙ outcome-first (first_decision values) first (first_complaint values)
                  (name ++ (codes ": " ++ m)))

  -- The first variable that holds a usable proxy or a direct marker decides, whatever broken values
  -- stand ahead of it; unset and blank variables count for nothing. If none decides, the first
  -- broken value is the one that the error names, and without one there is no proxy.
  pub select_env_proxy-outcome :
      (values : List (Text × Option Text))
      → select_env_proxy P values ≡ outcome (first_decision values) (first_complaint values)
  unfolding select_env_proxy
  select_env_proxy-outcome values = env_proxy_loop-outcome values none
