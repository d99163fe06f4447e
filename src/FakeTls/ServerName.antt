-- ===== src/FakeTls/ServerName.antt =====
-- rust/src/faketls.rs, `parse_sni_extension`: it ends, and reads the name that the hello carries.
use tg_ws_proxy.Base.{
  ℕ, zero, suc, ◌+◌, ◌-◌, ◌%◌, ◌/◌, ◌≤◌, ◌<◌, ◌≡◌, refl, ap, ◌∙◌, Bool, true, false, Option, none,
  some, List, ◌∷◌, ◌++◌, length, take, drop, slice, get_or, ltb, if◌then◌else◌, u16_from_be,
  u16_to_be, length-append, length-drop, take-append, take-all, arith, le→not_ltb,
}
use tg_ws_proxy.FakeTls.Utf8.{is_utf8}
use tg_ws_proxy.FakeTls.ClientHello.{sni_from, parse_sni_extension, server_name, sni_extension}

pick :
    (short cut other : Bool) (more : Option (Option (List ℕ))) (name : Option (List ℕ))
    → (short ≡ false → (r : Option (List ℕ)) × (more ≡ some r))
    → (r : Option (List ℕ)) × ((if short
          then some none
          else if cut
          then some none
          else if other
          then more
          else some name)
        ≡ some r)
pick true cut other more name h = (none, refl)
pick false true other more name h = (none, refl)
pick false false true more name h = h refl
pick false false false more name h = (name, refl)

not_ltb→le : (a b : ℕ) → ltb a b ≡ false → b ≤ a
not_ltb→le a b h = ground arith

sni_from_total :
    (fuel : ℕ) (extensions : List ℕ)
    → length extensions < fuel
    → (r : Option (List ℕ)) × (sni_from fuel extensions ≡ some r)
unfolding sni_from
sni_from_total zero extensions h = absurd (omega arith)
sni_from_total (suc fuel) extensions h =
    let n = u16_from_be (get_or extensions 2 0) (get_or extensions 3 0) in
    pick (ltb (length extensions) 4) _ _ _ _ λ long.
      sni_from_total fuel (drop n (drop 4 extensions)) (
        omega (
          arith,
          not_ltb→le (length extensions) 4 long,
          length-drop n (drop 4 extensions),
          length-drop 4 extensions,
        ))

-- `parse_sni_extension` comes to an answer on any bytes: a round takes 4 of them at least.
pub parse_sni_extension_total :
    (extensions : List ℕ) → (r : Option (List ℕ)) × (parse_sni_extension extensions ≡ some r)
unfolding parse_sni_extension
parse_sni_extension_total extensions =
    sni_from_total (suc (length extensions)) extensions (omega arith)

-- A first extension that is a server name is the one that is read.
sni_step :
    (fuel : ℕ) (exts ext : List ℕ) (n : ℕ)
    → u16_from_be (get_or exts 0 0) (get_or exts 1 0) ≡ 0
    → u16_from_be (get_or exts 2 0) (get_or exts 3 0) ≡ n
    → 4 + n ≤ length exts
    → take n (drop 4 exts) ≡ ext
    → 5 ≤ length ext
    → sni_from (suc fuel) exts ≡ some (server_name ext)
unfolding sni_from
sni_step fuel exts ext n kind len fits cut long =
    rw
      (
        le→not_ltb (length exts) 4 (omega arith),
        len,
        le→not_ltb (length (drop 4 exts)) n (omega (arith, length-drop 4 exts)),
        kind,
        cut,
        le→not_ltb (length ext) 5 long,
        sni_from,
      )
      refl

name_step :
    (ext host : List ℕ)
    → u16_from_be (get_or ext 0 0) (get_or ext 1 0) ≡ 3 + length host
    → get_or ext 2 0 ≡ 0
    → u16_from_be (get_or ext 3 0) (get_or ext 4 0) ≡ length host
    → length ext ≡ 5 + length host
    → slice 5 (5 + length host) ext ≡ host
    → is_utf8 host ≡ true
    → server_name ext ≡ some host
unfolding server_name
name_step ext host list kind len total cut ok =
    rw
      (
        list,
        le→not_ltb (length ext) (2 + (3 + length host)) (omega arith),
        le→not_ltb (3 + length host) 3 (omega arith),
        kind,
        len,
        le→not_ltb (length ext) (5 + length host) (omega arith),
        cut,
        ok,
        server_name,
      )
      refl

u16_word :
    (n k : ℕ)
    → n ≡ k
    → k < 0x1_0000
    → u16_from_be (n % 0x1_0000 / 256 % 256) (n % 0x1_0000 % 256) ≡ k
u16_word n k e h = omega arith

module _ (host : List ℕ) (small : length host + 5 < 0x1_0000) where
  abbrev l : ℕ
  l = length host % 0x1_0000

  -- The data of the extension that `sni_extension` writes.
  abbrev ext : List ℕ
  ext = u16_to_be ((3 + l) % 0x1_0000) ++ (0x00 ∷ (u16_to_be l ++ host))

  name : is_utf8 host ≡ true → server_name ext ≡ some host
  name ok =
      name_step ext host (u16_word (3 + l) (3 + length host) (omega arith) (omega arith)) refl
        (u16_word (length host) (length host) refl (omega arith)) (omega arith)
        (take-all (5 + length host - 5) host (omega arith)) ok

  -- The extension that the hello carries is read as the host name, whatever stands behind it.
  pub parse_sni_extension-sni :
      (others : List ℕ)
      → is_utf8 host ≡ true
      → parse_sni_extension (sni_extension host ++ others) ≡ some (some host)
  unfolding parse_sni_extension sni_extension
  parse_sni_extension-sni others ok =
      sni_step (length (sni_extension host ++ others)) (sni_extension host ++ others) ext
        (5 + length host) refl
        (u16_word (2 + (3 + l) % 0x1_0000) (5 + length host) (omega arith) (omega arith))
        (omega (arith, length-append host others))
        (take-append ext others (5 + length host) (omega arith)) (omega arith)
      ∙ ap some (name ok)
