-- ===== src/Profiles/Import.antt =====
-- internal/profiles/policy.go: `ValidateImportedProfile`.
use tunnelfolio.Prelude.{[], if◌then◌else◌}
use tunnelfolio.Prelude.Text.{Text, eq_text}
use tunnelfolio.Prelude.Platform.{Platform}
use tunnelfolio.Policy.{Checked, pass, reject, ◌>>=◌, unsupported_protocol}
use tunnelfolio.OpenVpn.Policy.{validate_openvpn_import}
use tunnelfolio.WireGuard.Policy.{validate_wireguard_import}
use tunnelfolio.Profiles.Model.{protocol_openvpn, protocol_wireguard}

-- The `WireGuardPublicKeySHA256` of the policy's result; it is empty for an OpenVPN profile.
unfoldable pub validate_imported_profile : Platform → Text → Text → Checked Text
validate_imported_profile P protocol bytes =
    if eq_text protocol protocol_openvpn
    then (validate_openvpn_import bytes >>= λ _. pass [])
    else if eq_text protocol protocol_wireguard
    then validate_wireguard_import P bytes
    else reject 0 unsupported_protocol
