-- ===== src/Import/Receipt/Bound.antt =====
-- The input of the signature determines everything that is written to it, so that a signature binds
-- the revision, the expiry and, of every record, its ordinal and its seven texts.
use tunnelfolio.Prelude.{ℕ, ◌^◌, ◌%◌, ◌<◌, List, [], ◌∷◌, ◌++◌, ◌≡◌, refl, sym, ap, ◌∙◌, arith}
use mathlib.Core.List.{append_assoc}
use tunnelfolio.Prelude.Lists.{length, drop, All}
use tunnelfolio.Prelude.Text.{Text}
use tunnelfolio.Prelude.Int.{ℤ, pos, negsuc}
use tunnelfolio.Prelude.Words.{put_uint64, uint64_of}
use tunnelfolio.Prelude.Words.RoundTrip.{uint64_of-put_uint64}
use tunnelfolio.Import.Model.{InspectionRecord, to_uint64, policy_version}
use tunnelfolio.Import.Receipt.{
  put_length, put_string, put_strings, put_records, bound_texts, canonical_receipt_input,
}

put_uint64-cancel :
    (v w : ℕ) (xs ys : Text)
    → v < 2 ^ 64
    → w < 2 ^ 64
    → put_uint64 v ++ xs ≡ put_uint64 w ++ ys
    → (v ≡ w) × (xs ≡ ys)
put_uint64-cancel v w xs ys hv hw h = (
  sym (uint64_of-put_uint64 v xs hv) ∙ ap uint64_of h ∙ uint64_of-put_uint64 w ys hw,
  unfold put_uint64 in ap (drop 8) h,
)

append-cancel : (s t xs ys : Text) → length s ≡ length t → s ++ xs ≡ t ++ ys → (s ≡ t) × (xs ≡ ys)
append-cancel [] [] xs ys n h = (refl, h)
append-cancel [] (d ∷ t) xs ys n h = absurd (omega arith)
append-cancel (c ∷ s) [] xs ys n h = absurd (omega arith)
append-cancel (c ∷ s) (d ∷ t) xs ys n h = ground (arith, append-cancel s t xs ys)

-- A Go string is shorter than 2 ^ 63 bytes.
abbrev pub IsShort {ℓ} : {A : Type ℓ} → List A → Type 0
IsShort xs = length xs < 2 ^ 63

put_length-cancel {ℓ} :
    {A : Type ℓ} (us vs : List A) (xs ys : Text)
    → IsShort us
    → IsShort vs
    → put_length us ++ xs ≡ put_length vs ++ ys
    → (length us ≡ length vs) × (xs ≡ ys)
put_length-cancel us vs xs ys ha hb h =
    let p =
      put_uint64-cancel (length us % 2 ^ 64) (length vs % 2 ^ 64) xs ys (omega arith) (omega arith)
        h in
    (omega (arith, p.0), p.1)

put_string-cancel :
    (s t xs ys : Text)
    → IsShort s
    → IsShort t
    → put_string s ++ xs ≡ put_string t ++ ys
    → (s ≡ t) × (xs ≡ ys)
unfolding put_string
put_string-cancel s t xs ys hs ht h =
    let p =
      put_length-cancel s t (s ++ xs) (t ++ ys) hs ht
        (rw (← append_assoc (put_length s) s xs, ← append_assoc (put_length t) t ys) h) in
    append-cancel s t xs ys p.0 p.1

put_strings-cancel :
    (ss ts : List Text) (xs ys : Text)
    → All IsShort ss
    → All IsShort ts
    → length ss ≡ length ts
    → put_strings ss ++ xs ≡ put_strings ts ++ ys
    → (ss ≡ ts) × (xs ≡ ys)
unfolding put_strings
put_strings-cancel [] [] xs ys hs ht n h = (refl, h)
put_strings-cancel [] (t ∷ ts) xs ys hs ht n h = absurd (omega arith)
put_strings-cancel (s ∷ ss) [] xs ys hs ht n h = absurd (omega arith)
put_strings-cancel (s ∷ ss) (t ∷ ts) xs ys hs ht n h =
    let p = put_string-cancel s t (put_strings ss ++ xs) (put_strings ts ++ ys) hs.0 ht.0 (
      rw
        (
          ← append_assoc (put_string s) (put_strings ss) xs,
          ← append_assoc (put_string t) (put_strings ts) ys,
        )
        h) in
    let q = put_strings-cancel ss ts xs ys hs.1 ht.1 (omega arith) p.1 in (cc (p.0, q.0), q.1)

-- The value of an int or an int64.
abbrev pub IsInt64 : ℤ → Type 0
IsInt64 (pos n) = n < 2 ^ 63
IsInt64 (negsuc n) = n < 2 ^ 63

to_uint64-lt : (z : ℤ) → to_uint64 z < 2 ^ 64
unfolding to_uint64
to_uint64-lt (pos n) = omega arith
to_uint64-lt (negsuc n) = omega arith

to_uint64-cancel : (y z : ℤ) → IsInt64 y → IsInt64 z → to_uint64 y ≡ to_uint64 z → y ≡ z
unfolding to_uint64
to_uint64-cancel (pos m) (pos n) hy hz h = ground arith
to_uint64-cancel (pos m) (negsuc n) hy hz h = absurd (omega arith)
to_uint64-cancel (negsuc m) (pos n) hy hz h = absurd (omega arith)
to_uint64-cancel (negsuc m) (negsuc n) hy hz h = ground arith

-- A record whose values are values of Go's types.
pub record IsMachine (r : InspectionRecord) : Type 0 where
  pub ordinal : IsInt64 r.ordinal
  pub texts : All IsShort (bound_texts r)

-- The same in everything that is signed.
pub record SameBound (r q : InspectionRecord) : Type 0 where
  pub ordinal : r.ordinal ≡ q.ordinal
  pub digest : r.digest ≡ q.digest
  pub id : r.id ≡ q.id
  pub protocol : r.protocol ≡ q.protocol
  pub identifier : r.identifier ≡ q.identifier
  pub disposition : r.disposition ≡ q.disposition
  pub wireguard : r.wireguard_public_key_digest ≡ q.wireguard_public_key_digest
  pub protocol_override : r.protocol_override ≡ q.protocol_override

pub data AllSameBound : List InspectionRecord → List InspectionRecord → Type 0 where
  both_end : AllSameBound [] []
  both_go_on :
      {r q : InspectionRecord} {rs qs : List InspectionRecord}
      → SameBound r q
      → AllSameBound rs qs
      → AllSameBound (r ∷ rs) (q ∷ qs)

SameBound-texts :
    (r q : InspectionRecord) → r.ordinal ≡ q.ordinal → bound_texts r ≡ bound_texts q → SameBound r q
SameBound-texts r q o h =
    let first : List Text → Text = λ ts. elim ts [ [] ↦ [] | t ∷ _ ↦ t ] in
    let at : (n : ℕ) → first (drop n (bound_texts r)) ≡ first (drop n (bound_texts q)) =
      λ n. ap (λ ts. first (drop n ts)) h in
    record {
      ordinal = o;
      digest = at 0;
      id = at 1;
      protocol = at 2;
      identifier = at 3;
      disposition = at 4;
      wireguard = at 5;
      protocol_override = at 6;
    }

put_records-cancel :
    (rs qs : List InspectionRecord)
    → All IsMachine rs
    → All IsMachine qs
    → length rs ≡ length qs
    → put_records rs ≡ put_records qs
    → AllSameBound rs qs
unfolding put_records
put_records-cancel [] [] hr hq n h = both_end
put_records-cancel [] (q ∷ qs) hr hq n h = absurd (omega arith)
put_records-cancel (r ∷ rs) [] hr hq n h = absurd (omega arith)
put_records-cancel (r ∷ rs) (q ∷ qs) hr hq n h =
    let o =
      put_uint64-cancel (to_uint64 r.ordinal) (to_uint64 q.ordinal) _ _ (to_uint64-lt r.ordinal)
        (to_uint64-lt q.ordinal) h in
    let t =
      put_strings-cancel (bound_texts r) (bound_texts q) (put_records rs) (put_records qs)
        (hr.0.texts) (hq.0.texts) refl o.1 in
    both_go_on
      (SameBound-texts r q (to_uint64-cancel r.ordinal q.ordinal hr.0.ordinal hq.0.ordinal o.0) t.0)
      (put_records-cancel rs qs hr.1 hq.1 (omega arith) t.1)

-- The input of the signature, for a revision, an expiry and records that are values of Go's types,
-- determines the revision, the expiry and of every record, in order, the ordinal, the ID, the
-- protocol, the identifier, the disposition, both digests and the override.
pub canonical_receipt_input-injective :
    (revision other : ℕ) (expiry later : ℤ) (rs qs : List InspectionRecord)
    → revision < 2 ^ 64
    → other < 2 ^ 64
    → IsInt64 expiry
    → IsInt64 later
    → IsShort rs
    → IsShort qs
    → All IsMachine rs
    → All IsMachine qs
    → canonical_receipt_input revision expiry rs ≡ canonical_receipt_input other later qs
    → (revision ≡ other) × (expiry ≡ later) × AllSameBound rs qs
unfolding canonical_receipt_input
canonical_receipt_input-injective revision other expiry later rs qs hr ho he hl sr sq mr mq h =
    let v = put_uint64-cancel policy_version policy_version _ _ (omega arith) (omega arith) h in
    let r = put_uint64-cancel revision other _ _ hr ho v.1 in
    let e =
      put_uint64-cancel (to_uint64 expiry) (to_uint64 later) _ _ (to_uint64-lt expiry)
        (to_uint64-lt later) r.1 in
    let n = put_length-cancel rs qs (put_records rs) (put_records qs) sr sq e.1 in
    (r.0, to_uint64-cancel expiry later he hl e.0, put_records-cancel rs qs mr mq n.0 n.1)
