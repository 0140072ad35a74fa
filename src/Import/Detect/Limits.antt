-- ===== src/Import/Detect/Limits.antt =====
-- The requests that `validateImportEnvelope` lets through.
use tunnelfolio.Prelude.{ℕ, ◌+◌, ◌≤◌, true, false, ◌⊎◌, ◌↔◌, List, [], ◌∷◌, ◌≡◌, arith}
use tunnelfolio.Prelude.Lists.{length, All}
use tunnelfolio.Prelude.Text.{Text, is_empty}
use tunnelfolio.Prelude.Err.{is_nil}
use tunnelfolio.Policy.{max_profile_bytes}
use tunnelfolio.Profiles.Model.{valid_protocol}
use tunnelfolio.Import.Model.{ImportFile}
use tunnelfolio.Import.Detect.{
  max_import_files, max_import_request, check_files, validate_import_envelope,
}

abbrev pub total_bytes : List ImportFile → ℕ
total_bytes [] = 0
total_bytes (file ∷ files) = length file.bytes + total_bytes files

-- The file has a size that is allowed, and an override that is empty or a protocol.
abbrev pub IsAllowed : ImportFile → Type 0
IsAllowed file =
    (1 ≤ length file.bytes)
    × (length file.bytes ≤ max_profile_bytes)
    × ((is_empty file.protocol_override ≡ true) ⊎ (valid_protocol file.protocol_override ≡ true))

pub record IsEnvelope (files : List ImportFile) : Type 0 where
  pub some_file : 1 ≤ length files
  pub few_files : length files ≤ max_import_files
  pub each : All IsAllowed files
  pub total : total_bytes files ≤ max_import_request

length-pos : (t : Text) → (is_empty t ≡ false) ↔ (1 ≤ length t)
length-pos [] = ground arith
length-pos (c ∷ t) = ground arith

check_files_iff :
    (total : ℕ) (files : List ImportFile)
    → total ≤ max_import_request
    → (is_nil (check_files total files) ≡ true)
      ↔ (All IsAllowed files × (total + total_bytes files ≤ max_import_request))
unfolding check_files
check_files_iff total [] h = ground arith
check_files_iff total (file ∷ files) h =
    ground (arith, length-pos file.bytes, check_files_iff (total + length file.bytes) files)

-- `validateImportEnvelope` returns nil exactly for 1 to 100 files, each with 1 byte to 1 MiB and an
-- override that is empty or a protocol, of at most 32 MiB together.
pub validate_import_envelope_iff :
    (files : List ImportFile) → (is_nil (validate_import_envelope files) ≡ true) ↔ IsEnvelope files
unfolding validate_import_envelope
validate_import_envelope_iff files = ground (arith, check_files_iff 0 files)
