-- ===== src/Import/Commit/Replayed.antt =====
-- The replays that `exactReplay` recognises.
use tunnelfolio.Prelude.{
  ℕ, suc, Bool, true, false, Option, none, some, List, [], ◌∷◌, ◌≡◌, ◌↔◌, refl, subst, arith,
  if◌then◌else◌,
}
use mathlib.Core.Option.{some-injective}
use tunnelfolio.Prelude.Text.{eq_text_iff}
use tunnelfolio.Profiles.Model.{Profile, find_profile}
use tunnelfolio.Import.Model.{InspectionRecord}
use tunnelfolio.Import.Inspect.{already_imported}
use tunnelfolio.Import.Commit.{ImportResult, replay_found, exact_replay}
use tunnelfolio.Import.Plan.{record_matches_profile}

-- The profile is the one that the record describes.
pub record Describes (r : InspectionRecord) (p : Profile) : Type 0 where
  pub id : r.id ≡ p.id
  pub protocol : r.protocol ≡ p.protocol
  pub identifier : r.identifier ≡ p.identifier
  pub digest : r.digest ≡ p.content_sha256
  pub key : r.wireguard_public_key_digest ≡ p.wireguard_public_key_sha256

pub record_matches_profile_iff :
    (r : InspectionRecord) (p : Profile) → (record_matches_profile r p ≡ true) ↔ Describes r p
unfolding record_matches_profile
record_matches_profile_iff r p = ground (
  arith,
  eq_text_iff r.id p.id,
  eq_text_iff r.protocol p.protocol,
  eq_text_iff r.identifier p.identifier,
  eq_text_iff r.digest p.content_sha256,
  eq_text_iff r.wireguard_public_key_digest p.wireguard_public_key_sha256,
)

-- Each result is, at its place, the saved profile that the record describes.
pub data IsReplay (profiles : List Profile)
    : ℕ → List InspectionRecord → List ImportResult → Type 0 where
  no_records : {n : ℕ} → IsReplay profiles n [] []
  next_record :
      {n : ℕ} {r : InspectionRecord} {rs : List InspectionRecord} {x : ImportResult}
      {xs : List ImportResult}
      → find_profile profiles r.id ≡ some x.profile
      → Describes r x.profile
      → x.ordinal ≡ n
      → x.result ≡ already_imported
      → IsReplay profiles (suc n) rs xs
      → IsReplay profiles n (r ∷ rs) (x ∷ xs)

replay_found-IsReplay :
    (profiles : List Profile) (n : ℕ) (r : InspectionRecord) (rs : List InspectionRecord)
    (found : Option Profile) (rest : Option (List ImportResult)) {xs : List ImportResult}
    → find_profile profiles r.id ≡ found
    → ((ys : List ImportResult) → rest ≡ some ys → IsReplay profiles (suc n) rs ys)
    → replay_found n r found rest ≡ some xs
    → IsReplay profiles n (r ∷ rs) xs
unfolding replay_found
replay_found-IsReplay profiles n r rs none rest is ih h = cc
replay_found-IsReplay profiles n r rs (some p) none is ih h = cc
replay_found-IsReplay profiles n r rs (some p) (some ys) {xs} is ih h =
    split (record_matches_profile r p) refl h
  where
    split :
        (b : Bool)
        → record_matches_profile r p ≡ b
        → (if b
            then some (record { ordinal = n; result = already_imported; profile = p } ∷ ys)
            else none)
          ≡ some xs
        → IsReplay profiles n (r ∷ rs) xs
    split true same h =
        subst (IsReplay profiles n (r ∷ rs)) (some-injective _ _ h)
          (next_record is ((record_matches_profile_iff r p).0 same) refl refl (ih ys refl))
    split false same h = cc

-- A replay that `exactReplay` recognises has, for each record in order, the saved profile of the
-- record's ID, which the record describes in ID, protocol, identifier and both digests.
pub exact_replay-IsReplay :
    (profiles : List Profile) (n : ℕ) (rs : List InspectionRecord) {xs : List ImportResult}
    → exact_replay profiles n rs ≡ some xs
    → IsReplay profiles n rs xs
unfolding exact_replay
exact_replay-IsReplay profiles n [] h =
    subst (IsReplay profiles n []) (some-injective _ _ h) no_records
exact_replay-IsReplay profiles n (r ∷ rs) h =
    replay_found-IsReplay profiles n r rs _ _ refl
      (λ ys is. exact_replay-IsReplay profiles (suc n) rs is) h
