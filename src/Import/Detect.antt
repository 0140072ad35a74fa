-- ===== src/Import/Detect.antt =====
-- internal/profiles/import.go: the limits of a request, and the protocol that a file is taken for.
pub mod Limits
pub mod Known
use tunnelfolio.Prelude.{
  ℕ, ◌+◌, ◌*◌, ◌^◌, Bool, true, false, not, ◌&&◌, ◌||◌, List, [], ◌∷◌, ltb, ◌==◌, if◌then◌else◌,
}
use tunnelfolio.Prelude.Lists.{length}
use tunnelfolio.Prelude.Text.{Text, codes, eq_text, is_empty}
use tunnelfolio.Prelude.Err.{Err, capacity, other}
use tunnelfolio.Prelude.Unicode.{runes_of, to_lower, includes}
use tunnelfolio.Prelude.Platform.{Platform}
use tunnelfolio.Policy.{Checked, pass, reject, max_profile_bytes}
use tunnelfolio.OpenVpn.Policy.{validate_openvpn_import}
use tunnelfolio.WireGuard.Policy.{validate_wireguard_import}
use tunnelfolio.Profiles.Model.{protocol_openvpn, protocol_wireguard, valid_protocol}
use tunnelfolio.Import.Model.{
  ImportFile, Issue, protocol_mismatch, unsupported_extension, protocol_ambiguous,
}

-- `MaxImportFiles`
abbrev pub max_import_files : ℕ
max_import_files = 100

-- `MaxImportRequest`
abbrev pub max_import_request : ℕ
max_import_request = 32 * 2 ^ 20

-- The loop over the files, with the bytes counted so far.
unfoldable pub check_files : ℕ → List ImportFile → Err
check_files total [] = []
check_files total (file ∷ files) =
    if is_empty file.bytes || ltb max_profile_bytes (length file.bytes)
    then other ∷ []
    else if ltb max_import_request (total + length file.bytes)
    then other ∷ []
    else if not (is_empty file.protocol_override) && not (valid_protocol file.protocol_override)
    then other ∷ []
    else check_files (total + length file.bytes) files

-- `validateImportEnvelope`
unfoldable pub validate_import_envelope : List ImportFile → Err
validate_import_envelope files =
    if length files == 0
    then other ∷ []
    else if ltb max_import_files (length files)
    then capacity ∷ []
    else check_files 0 files

-- `filepath.Ext`, by the extension of what was read so far.
unfoldable pub ext_after : Text → Text → Text
ext_after found [] = found
ext_after found (c ∷ cs) =
    ext_after (if c == b'.' then c ∷ cs else if c == b'/' then [] else found) cs

abbrev pub extension : Text → Text
extension name = ext_after [] name

-- A protocol, or the issue that keeps the file from being one.
pub data Detected : Type 0 where
  detected : Text → Detected
  undetected : Issue → Detected

abbrev passes {ℓ} : {A : Type ℓ} → Checked A → Bool
passes (pass _) = true
passes (reject _ _) = false

unfoldable pub wireguard_signal : List ℕ → Bool
wireguard_signal text = includes text (codes "[interface]") || includes text (codes "privatekey")

unfoldable pub openvpn_signal : List ℕ → Bool
openvpn_signal text =
    includes text (codes "client")
    || includes text (codes "remote ")
    || includes text (codes "<ca>")

-- The words of the file decide, when one protocol's are there and the other's are not.
unfoldable pub detect_by_signal : Bool → Bool → Detected
detect_by_signal true false = detected protocol_wireguard
detect_by_signal false true = detected protocol_openvpn
detect_by_signal _ _ = undetected protocol_ambiguous

-- The file passes one of the two policies, or its words decide.
unfoldable pub detect_by_content : Platform → Text → Detected
unfolding detect_by_signal
detect_by_content P bytes =
    let wireguard = passes (validate_wireguard_import P bytes) in
    let openvpn = passes (validate_openvpn_import bytes) in
    if wireguard && not openvpn
    then detected protocol_wireguard
    else if openvpn && not wireguard
    then detected protocol_openvpn
    else let text = to_lower (runes_of bytes) in
      detect_by_signal (wireguard_signal text) (openvpn_signal text)

-- `detectProtocol`
unfoldable pub detect_protocol : Platform → ImportFile → Detected
unfolding detect_by_content
detect_protocol P file =
    let ending = to_lower (runes_of (extension file.name)) in
    if eq_text ending (codes ".ovpn")
    then (if not (is_empty file.protocol_override)
          && not (eq_text file.protocol_override protocol_openvpn)
        then undetected protocol_mismatch
        else detected protocol_openvpn)
    else if not (eq_text ending (codes ".conf"))
    then undetected unsupported_extension
    else if not (is_empty file.protocol_override)
    then detected file.protocol_override
    else detect_by_content P file.bytes
