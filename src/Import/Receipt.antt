-- ===== src/Import/Receipt.antt =====
-- internal/profiles/import.go: the receipt's text, and the input of its signature.
pub mod Bound
pub mod RoundTrip
use tunnelfolio.Prelude.{
  ℕ, ◌%◌, ◌^◌, Bool, not, ◌||◌, Option, none, some, List, [], ◌∷◌, ◌++◌, ltb, ◌==◌, if◌then◌else◌,
}
use tunnelfolio.Prelude.Lists.{length, drop}
use tunnelfolio.Prelude.Text.{Text, eq_text}
use tunnelfolio.Prelude.Int.{ℤ, pos}
use tunnelfolio.Prelude.Err.{Result, ok, fail, invalid_receipt}
use tunnelfolio.Prelude.Words.{put_uint64, uint64_of, url_encode, url_decode}
use tunnelfolio.Import.Model.{InspectionRecord, to_uint64, receipt_version, policy_version}

-- `writeUint64(&buffer, uint64(len(…)))`
abbrev pub put_length {ℓ} : {A : Type ℓ} → List A → Text
put_length xs = put_uint64 (length xs % 2 ^ 64)

-- `writeString`
unfoldable pub put_string : Text → Text
put_string value = put_length value ++ value

unfoldable pub put_strings : List Text → Text
unfolding put_string
put_strings [] = []
put_strings (value ∷ values) = put_string value ++ put_strings values

-- The texts of a record that are written, in their order.
abbrev pub bound_texts : InspectionRecord → List Text
bound_texts r =
    r.digest ∷ r.id ∷ r.protocol ∷ r.identifier ∷ r.disposition ∷ r.wireguard_public_key_digest
    ∷ r.protocol_override ∷ []

unfoldable pub put_records : List InspectionRecord → Text
put_records [] = []
put_records (r ∷ rs) =
    put_uint64 (to_uint64 r.ordinal) ++ (put_strings (bound_texts r) ++ put_records rs)

-- `canonicalReceiptInput`
unfoldable pub canonical_receipt_input : ℕ → ℤ → List InspectionRecord → Text
canonical_receipt_input revision expiry records =
    put_uint64 policy_version
    ++ (put_uint64 revision
        ++ (put_uint64 (to_uint64 expiry) ++ (put_length records ++ put_records records)))

-- The envelope of `sign`.
abbrev pub envelope : ℤ → Text → Text
envelope expiry mac = receipt_version ∷ (put_uint64 (to_uint64 expiry) ++ mac)

-- `sign`, from the MAC.
unfoldable pub sign_with : ℤ → Text → Text
sign_with expiry mac = url_encode (envelope expiry mac)

-- The last second of the year 9999.
abbrev pub last_expiry : ℕ
last_expiry = 253402300799

abbrev pub invalid {ℓ} : {A : Type ℓ} → Result A
invalid = fail (invalid_receipt ∷ [])

-- What `decodeReceipt` does with the decoded bytes.
unfoldable pub open_envelope : Text → Text → Result (ℤ × Text)
open_envelope receipt [] = invalid
open_envelope receipt (version ∷ rest) =
    if not (length (version ∷ rest) == 41) || not (version == receipt_version)
    then invalid
    else if not (eq_text (url_encode (version ∷ rest)) receipt)
    then invalid
    else if ltb last_expiry (uint64_of rest)
    then invalid
    else ok (pos (uint64_of rest), drop 8 rest)

-- `decodeReceipt`
unfoldable pub decode_receipt : Text → Result (ℤ × Text)
decode_receipt receipt = elim (url_decode receipt) [
  | none ↦ invalid
  | some bytes ↦ open_envelope receipt bytes
]
