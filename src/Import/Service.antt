-- ===== src/Import/Service.antt =====
-- internal/profiles/import.go: the import service, its gate and the identities that it makes. What it
-- is given from outside is an interface; nothing is assumed of it.
pub mod Gate
pub mod Identity
use tunnelfolio.Prelude.{
  ℕ, zero, suc, Bool, true, false, not, ◌&&◌, Option, none, some, List, [], ◌∷◌, if◌then◌else◌,
}
use tunnelfolio.Prelude.Text.{Text, eq_text, contains}
use tunnelfolio.Prelude.Err.{Err, Result, ok, fail, import_busy, other}
use tunnelfolio.Prelude.Int.{ℤ}
use tunnelfolio.Prelude.Exec.{Exec, ◌>>=◌, ◌>>◌, pure, gets, modify, unless_err}
use tunnelfolio.Profiles.Model.{protocol_wireguard}
use tunnelfolio.Profiles.Id.{generated_id, runtime_identifier}
use tunnelfolio.Store.Host.{Host}
use tunnelfolio.Store.State.{Store}
use tunnelfolio.Import.Model.{InspectionRecord, Instant}
use tunnelfolio.Import.Receipt.{canonical_receipt_input, sign_with}

-- The collaborators of `ImportServiceOptions`, and the hashes of `crypto`.
pub record Collaborators (H : Host) : Type 0 where
  -- `sha256.Sum256`
  pub sha256 : Text → Text
  -- `hmac.New(sha256.New, key)` of a text.
  pub hmac : Text → Text → Text
  pub now : Exec H.World Instant
  pub check_wireguard : Text → Exec H.World Err
  -- `RuntimeNameAvailable`, which may be nil.
  pub runtime_name_available : Option (Text → Exec H.World (Bool × Err))
  -- `CommitAdmission`, which may be nil: whether it returns a release function, and its error.
  pub commit_admission : Option (Exec H.World (Bool × Err))
  -- The release function.
  pub release_admission : Exec H.World (Unit {0})

pub record ImportService (H : Host) : Type 0 where
  pub gate_free : Bool
  pub key : Text
  pub store : Store H

abbrev generation_attempts : ℕ
generation_attempts = 128

module _ (H : Host) where
  unfoldable pub on_store {ℓ} : {A : Type ℓ} → Exec (Store H) A → Exec (ImportService H) A
  on_store m s = let r = m s.store in (r.0, record s { store = r.1 })

  abbrev set_gate : Bool → Exec (ImportService H) (Unit {0})
  set_gate b = modify λ s. record s { gate_free = b }

  -- `acquire`, and the deferred `release`.
  unfoldable pub exclusive {ℓ} :
      {A : Type ℓ} → Exec (ImportService H) (Result A) → Exec (ImportService H) (Result A)
  exclusive m = do
    free ← gets (λ s. s.gate_free)
    if not free
        then pure (fail (import_busy ∷ []))
        else do set_gate false; r ← m; set_gate true; pure r

module _ {H : Host} (C : Collaborators H) where
  -- `receiptMAC`
  unfoldable pub receipt_mac : Text → ℕ → ℤ → List InspectionRecord → Text
  receipt_mac key revision expiry records =
      C.hmac key (canonical_receipt_input revision expiry records)

  -- `sign`
  unfoldable pub sign : Text → ℕ → ℤ → List InspectionRecord → Text
  unfolding receipt_mac
  sign key revision expiry records = sign_with expiry (receipt_mac key revision expiry records)

  abbrev answer : Option (Text → Exec H.World (Bool × Err)) → Text → Exec H.World (Bool × Err)
  answer none identifier = pure (true, [])
  answer (some available) identifier = available identifier

  -- A name of the system is asked for where the protocol takes one.
  unfoldable pub name_available : Text → Text → Exec H.World (Bool × Err)
  name_available protocol identifier =
      if eq_text protocol protocol_wireguard
      then answer C.runtime_name_available identifier
      else pure (true, [])

  -- The loop of `generateIdentity`, on the attempts left.
  unfoldable pub attempt_identity : ℕ → Text → List Text → Exec H.World (Result (Text × Text))
  unfolding name_available
  attempt_identity zero protocol used = pure (fail (other ∷ []))
  attempt_identity (suc attempts) protocol used =
      let again = attempt_identity attempts protocol used in
      do
        raw ← H.random
        unless_err raw.1 fail do
          let id = generated_id raw.0
          let identifier = runtime_identifier (C.sha256 id)
          if contains used identifier then again else do
            available ← name_available protocol identifier
            unless_err available.1 fail (if available.0 then pure (ok (id, identifier)) else again)

  -- `generateIdentity`
  unfoldable pub generate_identity : Text → List Text → Exec H.World (Result (Text × Text))
  unfolding attempt_identity
  generate_identity = attempt_identity generation_attempts
