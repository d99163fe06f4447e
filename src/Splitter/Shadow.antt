-- ===== src/Splitter/Shadow.antt =====
-- rust/src/splitter.rs: the plain buffer is the cipher buffer, decrypted; what keeps it so.
use tg_ws_proxy.Base.{
  ℕ, zero, suc, ◌+◌, ◌≤◌, ◌≡◌, refl, sym, ap, ap₂, ◌∙◌, true, false, some, List, [], ◌++◌, arith,
  length, length-append, ◌==◌, length-drop, drop,
}
use tg_ws_proxy.Crypto.Cipher.{Primitives, crypt, crypt-append, length-crypt, drop-crypt}
use tg_ws_proxy.Splitter.Buffer.{drain}
use tg_ws_proxy.Splitter.Split.{MsgSplitter, starved, finish, trim_idle_buffers, append_read}

-- `plain_buf` is `cipher_buf` decrypted with the keystream from position `base` on, the cipher
-- stands behind what is buffered, and a disabled splitter buffers nothing.
pub record IsShadow (P : Primitives) (base : ℕ) (s : MsgSplitter) : Type 0 where
  pub position : s.dec.pos ≡ base + length s.cipher_buf.bytes
  pub shadow : s.plain_buf.bytes ≡ crypt P (record s.dec { pos = base }) s.cipher_buf.bytes
  pub off : s.disabled ≡ true → s.cipher_buf.bytes ≡ []

-- `t` is `s` with `n` bytes taken off the front of both buffers, up to capacity and idle count.
pub record IsDrained (s : MsgSplitter) (n : ℕ) (t : MsgSplitter) : Type 0 where
  pub cipher : t.cipher_buf.bytes ≡ drop n s.cipher_buf.bytes
  pub plain : t.plain_buf.bytes ≡ drop n s.plain_buf.bytes
  pub dec : t.dec ≡ s.dec
  pub proto : t.proto ≡ s.proto
  pub disabled : t.disabled ≡ s.disabled

trim-IsDrained : (s : MsgSplitter) → IsDrained s 0 (trim_idle_buffers s)
unfolding trim_idle_buffers
trim-IsDrained s = ground arith

not_zero : (n : ℕ) → (suc n == 0) ≡ false
not_zero n = ground arith

pub finish_starved :
    (s : MsgSplitter) (parts : List (List ℕ)) (consumed : ℕ)
    → (t : MsgSplitter) × (finish s (some (starved parts consumed)) ≡ some (parts, t))
      × IsDrained s consumed t
unfolding finish
finish_starved s parts zero = (trim_idle_buffers s, refl, trim-IsDrained s)
finish_starved s parts (suc n) =
    let d = record s {
      cipher_buf = drain s.cipher_buf (suc n);
      plain_buf = drain s.plain_buf (suc n);
    } in
    let k = trim-IsDrained d in
    (
      trim_idle_buffers d,
      rw (not_zero n, finish),
      record {
        cipher = k.cipher;
        plain = k.plain;
        dec = k.dec;
        proto = k.proto;
        disabled = k.disabled;
      },
    )

module _ (P : Primitives) (base : ℕ) (s : MsgSplitter) (h : IsShadow P base s) where
  pub length-shadow : length s.plain_buf.bytes ≡ length s.cipher_buf.bytes
  length-shadow =
      ap length h.shadow ∙ length-crypt P (record s.dec { pos = base }) s.cipher_buf.bytes

  -- Appending a read keeps the shadow.
  pub append_read-IsShadow : (x : List ℕ) → s.disabled ≡ false → IsShadow P base (append_read P s x)
  unfolding append_read
  append_read-IsShadow x on = record {
    position = omega (arith, h.position, length-append s.cipher_buf.bytes x);
    shadow =
        ap₂ ◌++◌ h.shadow (ap (λ k. crypt P (record s.dec { pos = k }) x) h.position)
        ∙ sym (crypt-append P (record s.dec { pos = base }) s.cipher_buf.bytes x);
    off = λ e. cc;
  }

  -- So does draining from the front, with the base moved on.
  pub drain-IsShadow :
      (n : ℕ) (t : MsgSplitter)
      → n ≤ length s.cipher_buf.bytes
      → s.disabled ≡ false
      → IsDrained s n t
      → IsShadow P (base + n) t
  drain-IsShadow n t le on d = record {
    position = omega (
      arith,
      h.position,
      ap (λ c. c.pos) d.dec,
      ap length d.cipher,
      length-drop n s.cipher_buf.bytes,
    );
    shadow =
        d.plain
        ∙ ap (drop n) h.shadow
        ∙ drop-crypt P (record s.dec { pos = base }) n s.cipher_buf.bytes
        ∙ ap₂ (λ c x. crypt P (record c { pos = base + n }) x) (sym d.dec) (sym d.cipher);
    off = λ e. cc (e, d.disabled);
  }
