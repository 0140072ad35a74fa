-- ===== src/Import/Receipt/RoundTrip.antt =====
-- A signed receipt is read back, and only the text that `sign` writes is read at all.
use tunnelfolio.Prelude.{
  ℕ, ◌%◌, ◌^◌, ◌≤◌, true, false, not, ◌||◌, Option, none, some, [], ◌∷◌, ◌++◌, ◌≡◌, refl, sym, ap,
  ◌∙◌, arith, ltb, ◌==◌,
}
use tunnelfolio.Prelude.Lists.{length, drop, length-drop, All-append}
use tunnelfolio.Prelude.Text.{Text, eq_text, eq_text_iff, eq_text_refl}
use tunnelfolio.Prelude.Int.{ℤ, pos}
use tunnelfolio.Prelude.Err.{Err, is_nil, ok, fail, ok-injective, ok-if}
use tunnelfolio.Prelude.Words.{AreBytes, put_uint64, uint64_of, url_encode, url_decode}
use tunnelfolio.Prelude.Words.RoundTrip.{
  uint64_of-put_uint64, put_uint64-AreBytes, put_uint64-uint64_of, url_decode-url_encode,
  url_decode-AreBytes,
}
use tunnelfolio.Import.Model.{to_uint64, receipt_version}
use tunnelfolio.Import.Receipt.{
  envelope, sign_with, last_expiry, invalid, open_envelope, decode_receipt,
}

drop-put_uint64 : (v : ℕ) (rest : Text) → drop 8 (put_uint64 v ++ rest) ≡ rest
unfolding put_uint64
drop-put_uint64 v rest = refl

length-envelope : (v : ℕ) (mac : Text) → length mac ≡ 32 → length (put_uint64 v ++ mac) ≡ 40
unfolding put_uint64
length-envelope v mac h = omega arith

envelope-AreBytes :
    (v : ℕ) (mac : Text) → AreBytes mac → AreBytes (receipt_version ∷ (put_uint64 v ++ mac))
envelope-AreBytes v mac h = (omega arith, All-append _ (put_uint64 v) mac (put_uint64-AreBytes v) h)

-- A receipt that is signed with an expiry from 1970 to the year 9999 and a MAC of 32 bytes is read
-- back.
pub decode_receipt-sign_with :
    (expiry : ℕ) (mac : Text)
    → expiry ≤ last_expiry
    → AreBytes mac
    → length mac ≡ 32
    → decode_receipt (sign_with (pos expiry) mac) ≡ ok (pos expiry, mac)
unfolding decode_receipt sign_with open_envelope to_uint64
decode_receipt-sign_with expiry mac early bytes size = ground (
  arith,
  url_decode-url_encode (envelope (pos expiry) mac)
      (envelope-AreBytes (to_uint64 (pos expiry)) mac bytes),
  length-envelope (to_uint64 (pos expiry)) mac size,
  eq_text_refl (url_encode (envelope (pos expiry) mac)),
  uint64_of-put_uint64 (to_uint64 (pos expiry)) mac,
  drop-put_uint64 (to_uint64 (pos expiry)) mac,
)

rest_size : (rest : Text) → length rest ≡ 40 → length (drop 8 rest) ≡ 32
rest_size rest h = omega (arith, length-drop 8 rest)

-- The envelope is what was read.
envelope_of :
    (version : ℕ) (rest : Text)
    → version ≡ receipt_version
    → uint64_of rest ≤ last_expiry
    → put_uint64 (uint64_of rest) ++ drop 8 rest ≡ rest
    → envelope (pos (uint64_of rest)) (drop 8 rest) ≡ version ∷ rest
unfolding to_uint64
envelope_of version rest first early whole =
    let small : uint64_of rest % 2 ^ 64 ≡ uint64_of rest = omega arith in rw (small, whole, first)

-- What is known of a receipt that is read.
pub record IsReceipt (receipt : Text) (expiry : ℤ) (mac : Text) : Type 0 where
  pub seconds : ℕ
  pub expiry_is : expiry ≡ pos seconds
  pub early : seconds ≤ last_expiry
  pub size : length mac ≡ 32
  pub signed : receipt ≡ sign_with expiry mac

open_envelope-IsReceipt :
    (receipt bytes : Text) {expiry : ℤ} {mac : Text}
    → AreBytes bytes
    → open_envelope receipt bytes ≡ ok (expiry, mac)
    → IsReceipt receipt expiry mac
unfolding open_envelope sign_with
open_envelope-IsReceipt receipt [] h e = cc
open_envelope-IsReceipt receipt (version ∷ rest) {expiry} {mac} h e =
    let e1 =
      ok-if (not (length (version ∷ rest) == 41) || not (version == receipt_version)) _ _ e in
    let e2 = ok-if (not (eq_text (url_encode (version ∷ rest)) receipt)) _ _ e1.1 in
    let e3 = ok-if (ltb last_expiry (uint64_of rest)) _ _ e2.1 in
    let same : eq_text (url_encode (version ∷ rest)) receipt ≡ true = ground (arith, e2.0) in
    let whole = put_uint64-uint64_of rest h.1 (ground (arith, e1.0)) in
    let early : uint64_of rest ≤ last_expiry = ground (arith, e3.0) in
    let first : version ≡ receipt_version = ground (arith, e1.0) in
    let parts = ok-injective e3.1 in
    let expiry_is : expiry ≡ pos (uint64_of rest) = sym (ap (λ (r : ℤ × Text). r.0) parts) in
    let mac_is : mac ≡ drop 8 rest = sym (ap (λ (r : ℤ × Text). r.1) parts) in
    record {
      seconds = uint64_of rest;
      expiry_is = expiry_is;
      early = early;
      size = rw mac_is (rest_size rest (ground (arith, e1.0)));
      signed = signed_of expiry_is mac_is first early whole ((eq_text_iff _ _).0 same);
    }
  where
    signed_of :
        expiry ≡ pos (uint64_of rest)
        → mac ≡ drop 8 rest
        → version ≡ receipt_version
        → uint64_of rest ≤ last_expiry
        → put_uint64 (uint64_of rest) ++ drop 8 rest ≡ rest
        → url_encode (version ∷ rest) ≡ receipt
        → receipt ≡ sign_with expiry mac
    signed_of ex mc first early whole same =
        sym same ∙ ap url_encode (sym (rw (ex, mc) (envelope_of version rest first early whole)))

-- A receipt that is read is, byte for byte, the one that `sign` writes for the expiry and the MAC
-- that are read from it; the expiry is not negative and not behind the year 9999, and the MAC has 32
-- bytes.
pub decode_receipt-IsReceipt :
    (receipt : Text) {expiry : ℤ} {mac : Text}
    → decode_receipt receipt ≡ ok (expiry, mac)
    → IsReceipt receipt expiry mac
unfolding decode_receipt
decode_receipt-IsReceipt receipt {expiry} {mac} h =
    opened (url_decode receipt) (λ bytes. url_decode-AreBytes receipt) h
  where
    opened :
        (decoded : Option Text)
        → ((bytes : Text) → decoded ≡ some bytes → AreBytes bytes)
        → (elim decoded [
          | none ↦ invalid {A = ℤ × Text}
          | some bytes ↦ open_envelope receipt bytes
        ])
          ≡ ok (expiry, mac)
        → IsReceipt receipt expiry mac
    opened none p q = cc
    opened (some bytes) p q = open_envelope-IsReceipt receipt bytes (p bytes refl) q

pub decode_receipt-fail :
    (receipt : Text) {e : Err} → decode_receipt receipt ≡ fail e → is_nil e ≡ false
unfolding decode_receipt open_envelope
decode_receipt-fail receipt {e} h = split (url_decode receipt) h
  where
    split :
        (decoded : Option Text)
        → (elim decoded [
          | none ↦ invalid {A = ℤ × Text}
          | some bytes ↦ open_envelope receipt bytes
        ])
          ≡ fail e
        → is_nil e ≡ false
    split none q = ground (arith, q)
    split (some []) q = ground (arith, q)
    split (some (v ∷ bytes)) q = ground (arith, q)
