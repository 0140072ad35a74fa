-- ===== src/Tests/Profiles.antt =====
-- Instances of the theorems on manifests, identifiers and import policies.
use tunnelfolio.Prelude.{
  ℕ, zero, suc, String, Bool, true, false, Option, none, some, List, [], ◌∷◌, ◌++◌, ◌≡◌, ◌↔◌, refl,
  arith, ltb,
}
use tunnelfolio.Prelude.Lists.{length}
use tunnelfolio.Prelude.Text.{Text, codes, IsDistinct}
use tunnelfolio.Profiles.Manifest.{validate_manifest}
use tunnelfolio.Profiles.Manifest.Sound.{IsValid, validate_manifest_iff}
use tunnelfolio.OpenVpn.Tokens.{tokens, tokenize}
use tunnelfolio.OpenVpn.Tokens.RoundTrip.{render, tokenize-render}
use tunnelfolio.OpenVpn.Policy.{split_lines, validate_openvpn_import}
use tunnelfolio.OpenVpn.Policy.Accepted.{
  IsClientProfile, logical_lines, validate_openvpn_import-IsClientProfile,
}
use tunnelfolio.WireGuard.Sections.{Sections, parse_sections}
use tunnelfolio.WireGuard.Policy.{validate_wireguard_import}
use tunnelfolio.WireGuard.Policy.Accepted.{IsImportable, validate_wireguard_import-IsImportable}
use tunnelfolio.Profiles.Id.{generated_id, runtime_identifier}
use tunnelfolio.Profiles.Id.Shape.{
  AreBytes, generated_id-id_pattern, runtime_identifier-identifier_pattern,
}
use tunnelfolio.Profiles.Model.{id_pattern, identifier_pattern}
use tunnelfolio.Policy.{pass}
use tunnelfolio.Prelude.Unicode.{decode}
use tunnelfolio.Tests.Library.{library, openvpn_file, platform, zeros}

validate_manifest_iff_example : (validate_manifest library ≡ []) ↔ IsValid library
validate_manifest_iff_example = validate_manifest_iff library

abbrev quoted_tokens : List (List ℕ)
quoted_tokens = codes "verify-x509-name" ∷ codes "C=\"a # b\"" ∷ [] ∷ []

tokenize-render_example : tokenize (render quoted_tokens) ≡ tokens quoted_tokens
tokenize-render_example = tokenize-render quoted_tokens

abbrev sixteen_bytes : Text
sixteen_bytes = codes "0123456789abcdef"

sixteen_bytes-AreBytes : AreBytes sixteen_bytes
sixteen_bytes-AreBytes = ground arith

generated_id_example : id_pattern (generated_id sixteen_bytes) ≡ true
generated_id_example = generated_id-id_pattern sixteen_bytes sixteen_bytes-AreBytes refl

abbrev digest : Text
digest = codes "0123456789abcdef0123456789abcdef"

digest-AreBytes : AreBytes digest
digest-AreBytes = ground arith

runtime_identifier_example :
    (identifier_pattern (runtime_identifier digest) ≡ true)
    × (length (runtime_identifier digest) ≡ 14)
runtime_identifier_example = runtime_identifier-identifier_pattern digest digest-AreBytes refl

openvpn_file-valid : validate_openvpn_import openvpn_file ≡ pass tt
unfolding tunnelfolio.OpenVpn.Directives.inline_blocks
    tunnelfolio.OpenVpn.Directives.allowed_directives
    tunnelfolio.OpenVpn.Directives.denied_directives tunnelfolio.OpenVpn.Directives.has_word
    tunnelfolio.OpenVpn.Directives.bounds_of tunnelfolio.OpenVpn.Lines.scan_step
    tunnelfolio.OpenVpn.Lines.scan tunnelfolio.OpenVpn.Lines.ends_escaped
    tunnelfolio.OpenVpn.Lines.join_or_end tunnelfolio.OpenVpn.Lines.continuation
    tunnelfolio.OpenVpn.Policy.split_lines tunnelfolio.OpenVpn.Policy.valid_characters
    tunnelfolio.OpenVpn.Policy.block_delimiter tunnelfolio.OpenVpn.Policy.check_bounds
    tunnelfolio.OpenVpn.Policy.check_directive tunnelfolio.OpenVpn.Policy.validate_directive
    tunnelfolio.OpenVpn.Policy.start_walk tunnelfolio.OpenVpn.Policy.block_line
    tunnelfolio.OpenVpn.Policy.open_block tunnelfolio.OpenVpn.Policy.directive_line
    tunnelfolio.OpenVpn.Policy.outside_line tunnelfolio.OpenVpn.Policy.walk_line
    tunnelfolio.OpenVpn.Policy.walk tunnelfolio.OpenVpn.Policy.finish
    tunnelfolio.OpenVpn.Policy.validate_openvpn_import tunnelfolio.OpenVpn.Tokens.flush
    tunnelfolio.OpenVpn.Tokens.token_step tunnelfolio.OpenVpn.Tokens.token_loop
    tunnelfolio.OpenVpn.Tokens.token_end tunnelfolio.OpenVpn.Tokens.tokenize
    tunnelfolio.Prelude.Unicode.decode tunnelfolio.Prelude.Unicode.byte_length
    tunnelfolio.Prelude.Unicode.is_control tunnelfolio.Prelude.Unicode.is_space
    tunnelfolio.Prelude.Unicode.trim_left tunnelfolio.Prelude.Unicode.trim_right
    tunnelfolio.Prelude.Unicode.trim_space tunnelfolio.Prelude.Unicode.has_prefix
    tunnelfolio.Prelude.Unicode.cut_suffix tunnelfolio.Prelude.Unicode.trim_suffix
    tunnelfolio.Prelude.Unicode.lower tunnelfolio.Prelude.Unicode.to_lower
    tunnelfolio.Prelude.Unicode.fold tunnelfolio.Prelude.Unicode.equal_fold
    tunnelfolio.Prelude.Text.eq_text tunnelfolio.Prelude.Text.contains
openvpn_file-valid = refl

validate_openvpn_import_example :
    (runes : List ℕ) × (decode openvpn_file ≡ some runes)
    × IsClientProfile (logical_lines [] [] (split_lines runes))
validate_openvpn_import_example =
    validate_openvpn_import-IsClientProfile openvpn_file openvpn_file-valid

abbrev wireguard_file : Text
wireguard_file =
    codes
      "[Interface]\nPrivateKey = AAAAAAAAAAAAAAAAAAAAAAAAAAAAAAAAAAAAAAAAAAA=\nAddress = 10.0.0.2/32\n[Peer]\nPublicKey = AAAAAAAAAAAAAAAAAAAAAAAAAAAAAAAAAAAAAAAAAAA=\nAllowedIPs = 0.0.0.0/0\nEndpoint = vpn.example.org:51820\n"

wireguard_file-valid : validate_wireguard_import platform wireguard_file ≡ pass (zeros 64)
unfolding tunnelfolio.WireGuard.Sections.values_of tunnelfolio.WireGuard.Sections.replace_crlf
    tunnelfolio.WireGuard.Sections.open_section tunnelfolio.WireGuard.Sections.header_line
    tunnelfolio.WireGuard.Sections.assign tunnelfolio.WireGuard.Sections.value_line
    tunnelfolio.WireGuard.Sections.section_line tunnelfolio.WireGuard.Sections.section_lines
    tunnelfolio.WireGuard.Sections.parse_sections tunnelfolio.WireGuard.Policy.single_value
    tunnelfolio.WireGuard.Policy.decode_key tunnelfolio.WireGuard.Policy.in_uint_range
    tunnelfolio.WireGuard.Policy.trimmed_parts tunnelfolio.WireGuard.Policy.split_list
    tunnelfolio.WireGuard.Policy.every tunnelfolio.WireGuard.Policy.label_bytes
    tunnelfolio.WireGuard.Policy.is_label tunnelfolio.WireGuard.Policy.is_hostname
    tunnelfolio.WireGuard.Policy.is_prefix_list tunnelfolio.WireGuard.Policy.is_endpoint
    tunnelfolio.WireGuard.Policy.validate_interface tunnelfolio.WireGuard.Policy.validate_peer
    tunnelfolio.WireGuard.Policy.validate_peers tunnelfolio.WireGuard.Policy.validate_sections
    tunnelfolio.WireGuard.Policy.validate_wireguard_import tunnelfolio.Prelude.Unicode.decode
    tunnelfolio.Prelude.Unicode.byte_length tunnelfolio.Prelude.Unicode.is_control
    tunnelfolio.Prelude.Unicode.is_space tunnelfolio.Prelude.Unicode.trim_left
    tunnelfolio.Prelude.Unicode.trim_right tunnelfolio.Prelude.Unicode.trim_space
    tunnelfolio.Prelude.Unicode.has_prefix tunnelfolio.Prelude.Unicode.cut_suffix
    tunnelfolio.Prelude.Unicode.trim_suffix tunnelfolio.Prelude.Unicode.lower
    tunnelfolio.Prelude.Unicode.to_lower tunnelfolio.Prelude.Unicode.fold
    tunnelfolio.Prelude.Unicode.equal_fold tunnelfolio.Prelude.Text.eq_text
    tunnelfolio.Prelude.Text.contains tunnelfolio.Prelude.Net.has_byte tunnelfolio.Prelude.Net.cut
    tunnelfolio.Prelude.Net.split tunnelfolio.Prelude.Net.split_host_port
    tunnelfolio.Prelude.Net.parse_digits tunnelfolio.Prelude.Net.parse_uint
    tunnelfolio.Prelude.Net.base64_value tunnelfolio.Prelude.Net.base64_letter
    tunnelfolio.Prelude.Net.base64_encode tunnelfolio.Prelude.Net.base64_decode
    tunnelfolio.OpenVpn.Policy.split_lines tunnelfolio.OpenVpn.Policy.valid_characters
    tunnelfolio.OpenVpn.Directives.has_word
wireguard_file-valid = refl

validate_wireguard_import_example :
    (runes : List ℕ) × (sections : Sections) × (decode wireguard_file ≡ some runes)
    × (parse_sections runes ≡ pass sections)
    × IsImportable platform sections (zeros 64)
validate_wireguard_import_example =
    validate_wireguard_import-IsImportable platform wireguard_file (zeros 64) wireguard_file-valid
