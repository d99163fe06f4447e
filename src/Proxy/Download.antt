-- ===== src/Proxy/Download.antt =====
-- rust/src/proxy.rs, the download loop of `bridge_ws`: what the client receives.
use tg_ws_proxy.Base.{
  ℕ, ◌+◌, ◌%◌, ◌^◌, ◌<◌, ◌≡◌, refl, sym, ap, subst, ◌∙◌, Option, none, some, List, [], ◌∷◌, ◌++◌,
  arith, length, length-append,
}
use native.Mathlib.Nat.{mod-add-mod}
use tg_ws_proxy.Crypto.Cipher.{
  Primitives, Cipher, crypt, advance, crypt-append, length-crypt, crypt_twice, xor_from,
}
use tg_ws_proxy.Crypto.Session.{ConnectionCiphers}
use tg_ws_proxy.Proxy.Bridge.{
  Message, binary, text, ping, pong, ended, payload, received, take_send, ClientWriter, download,
  add_bytes,
}
use tg_ws_proxy.Proxy.Upload.{recode_lem}
use tg_ws_proxy.Proxy.Carry.{Carries, Carries-nil, Carries-append, write_all-Carries}

-- The payloads up to the close, put together.
abbrev pub payloads : List Message → List ℕ
payloads [] = []
payloads (binary b ∷ ms) = b ++ payloads ms
payloads (text b ∷ ms) = b ++ payloads ms
payloads (ping ∷ ms) = payloads ms
payloads (pong ∷ ms) = payloads ms
payloads (ended ∷ ms) = []

module _ (P : Primitives) where
  pub recode_all :
      (dec enc : Cipher) (b rest : List ℕ)
      → crypt P enc (crypt P dec b)
          ++ crypt P (advance P enc (length b)) (crypt P (advance P dec (length b)) rest)
        ≡ crypt P enc (crypt P dec (b ++ rest))
  recode_all dec enc b rest =
      ap
        (λ n.
          crypt P enc (crypt P dec b)
          ++ crypt P (advance P enc n) (crypt P (advance P dec (length b)) rest))
        (sym (length-crypt P dec b))
      ∙ sym (crypt-append P enc (crypt P dec b) _)
      ∙ ap (crypt P enc) (sym (crypt-append P dec b rest))

  record IsDelivered (w : ClientWriter) (dec enc : Cipher) (down : ℕ) (bytes : List ℕ)
      (r : Option (List ℕ × ℕ)) : Type 0 where
    wire : List ℕ
    count : ℕ
    returns : r ≡ some (wire, count)
    delivered : Carries w wire (crypt P enc (crypt P dec bytes))
    counted : count ≡ (down + length bytes) % 2 ^ 64

  module _ (w : ClientWriter) where
    none_left :
        (dec enc : Cipher) (down : ℕ)
        → down < 2 ^ 64
        → IsDelivered w dec enc down [] (some ([], down))
    unfolding crypt xor_from
    none_left dec enc down h = record {
      wire = [];
      count = down;
      returns = refl;
      delivered = Carries-nil w;
      counted = omega arith;
    }

    one_payload :
        (dec enc : Cipher) (down : ℕ) (b : List ℕ) (m : Message) (ms : List Message)
        → received m ≡ payload b
        → IsDelivered w
            (advance P dec (length b))
            (advance P enc (length b))
            (add_bytes down (length b))
            (payloads ms)
            (download P w none
              (advance P dec (length b))
              (advance P enc (length b))
              (add_bytes down (length b))
              ms)
        → IsDelivered w dec enc down (b ++ payloads ms) (download P w none dec enc down (m ∷ ms))
    unfolding download take_send add_bytes
    one_payload dec enc down b m ms e k =
        let (first, writes, carried) = write_all-Carries w (crypt P enc (crypt P dec b)) in
        record {
          wire = first ++ k.wire;
          count = k.count;
          returns =
              rw (e, download, recode_lem P dec enc b)
                (rw writes (rw (recode_lem P dec enc b) (rw k.returns refl)));
          delivered =
              subst (Carries w (first ++ k.wire)) (recode_all dec enc b (payloads ms))
                (Carries-append carried k.delivered);
          counted =
              k.counted
              ∙ mod-add-mod (down + length b) (2 ^ 64) (length (payloads ms))
              ∙ ap (λ n. n % 2 ^ 64) (omega (arith, length-append b (payloads ms)));
        }

    download-IsDelivered :
        (ms : List Message) (dec enc : Cipher) (down : ℕ)
        → down < 2 ^ 64
        → IsDelivered w dec enc down (payloads ms) (download P w none dec enc down ms)
    unfolding download received add_bytes
    download-IsDelivered [] dec enc down h = none_left dec enc down h
    download-IsDelivered (ended ∷ ms) dec enc down h = none_left dec enc down h
    download-IsDelivered (ping ∷ ms) dec enc down h = download-IsDelivered ms dec enc down h
    download-IsDelivered (pong ∷ ms) dec enc down h = download-IsDelivered ms dec enc down h
    download-IsDelivered (binary b ∷ ms) dec enc down h =
        one_payload dec enc down b (binary b) ms refl (
          download-IsDelivered ms (advance P dec (length b)) (advance P enc (length b))
            (add_bytes down (length b)) (omega arith))
    download-IsDelivered (text b ∷ ms) dec enc down h =
        one_payload dec enc down b (text b) ms refl (
          download-IsDelivered ms (advance P dec (length b)) (advance P enc (length b))
            (add_bytes down (length b)) (omega arith))

  -- Telegram encrypts a stream and cuts it into WebSocket messages in any way, between pings and
  -- up to a close. Where the download loop is not aborted, the client is sent exactly that stream under its own cipher, as it is or in
  -- records of application data as its writer does, and the counter of the session is its length,
  -- wrapping at 2^64.
  pub download-delivers :
      (w : ClientWriter) (ciphers : ConnectionCiphers) (stream : List ℕ) (ms : List Message)
      → payloads ms ≡ crypt P ciphers.tg_dec stream
      → (wire : List ℕ) × (download P w none ciphers.tg_dec ciphers.clt_enc 0 ms
          ≡ some (wire, length stream % 2 ^ 64))
        × Carries w wire (crypt P ciphers.clt_enc stream)
  download-delivers w ciphers stream ms e =
      let d = download-IsDelivered w ms ciphers.tg_dec ciphers.clt_enc 0 (omega arith) in
      (
        d.wire,
        d.returns
            ∙ ap (λ n. some (d.wire, n))
                (d.counted
                  ∙ ap (λ n. n % 2 ^ 64)
                      (omega (arith, ap length e, length-crypt P ciphers.tg_dec stream))),
        subst (λ b. Carries w d.wire (crypt P ciphers.clt_enc b))
            (ap (crypt P ciphers.tg_dec) e ∙ crypt_twice P ciphers.tg_dec stream) d.delivered,
      )
