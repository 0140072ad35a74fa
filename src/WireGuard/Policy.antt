-- ===== src/WireGuard/Policy.antt =====
-- internal/profiles/wireguard_policy.go: `ValidateWireGuardImport` and the checks of a section's
-- values. Address parsing and the cryptography are the platform's.
pub mod Accepted
use tunnelfolio.Prelude.{
  ℕ, ◌+◌, ◌-◌, ◌*◌, ◌^◌, Bool, true, false, not, ◌&&◌, ◌||◌, Option, none, some, List, [], ◌∷◌,
  ◌++◌, ltb, leb, ◌==◌, if◌then◌else◌,
}
use tunnelfolio.Prelude.Lists.{length}
use tunnelfolio.Prelude.Text.{Text, codes, eq_text, is_empty}
use tunnelfolio.Prelude.Unicode.{decode, byte_length, trim_space, to_lower, cut_suffix}
use tunnelfolio.Prelude.Net.{split, split_host_port, parse_uint, base64_encode, base64_decode}
use tunnelfolio.Prelude.Platform.{Platform}
use tunnelfolio.Policy.{
  Checked, PolicyCode, pass, reject, ◌>>=◌, max_profile_bytes, invalid_encoding, invalid_structure,
  peer_limit, invalid_private_key, missing_interface_value, invalid_address, invalid_dns,
  invalid_listen_port, invalid_mtu, invalid_table, missing_peer_value, invalid_public_key,
  invalid_preshared_key, invalid_allowed_ips, invalid_endpoint, invalid_keepalive,
}
use tunnelfolio.WireGuard.Sections.{
  Kind, interface, peer, Section, Sections, values_of, parse_sections,
}

abbrev pub max_peers : ℕ
max_peers = 32

abbrev pub value_list : Section → Text → List Text
value_list s key = values_of s.values key

-- `singleValue`
abbrev pub only : List Text → Text
only (value ∷ []) = value
only _ = []

unfoldable pub single_value : Section → Text → Text
single_value s key = only (value_list s key)

abbrev decoded_key : Text → Option Text → Option Text
decoded_key value none = none
decoded_key value (some bytes) =
    if length bytes == 32 && eq_text (base64_encode bytes) value then some bytes else none

-- `decodeWireGuardKey`
unfoldable pub decode_key : Text → Option Text
decode_key value = decoded_key value (base64_decode value)

abbrev pub is_key : Text → Bool
is_key value = elim (decode_key value) [ none ↦ false | some _ ↦ true ]

-- `validateUintRange`
unfoldable pub in_uint_range : Text → ℕ → ℕ → Bool
in_uint_range value minimum maximum = elim (parse_uint value) [
  | none ↦ false
  | some number ↦ leb minimum number && leb number maximum
]

-- The parts that are not empty, of a list that is split already.
unfoldable pub trimmed_parts : List Text → List Text
trimmed_parts [] = []
trimmed_parts (part ∷ parts) =
    let rest = trimmed_parts parts in
    if is_empty (trim_space part) then rest else trim_space part ∷ rest

-- `splitList`
unfoldable pub split_list : Text → List Text
unfolding trimmed_parts
split_list value = trimmed_parts (split b',' value)

unfoldable pub every : (Text → Bool) → List Text → Bool
every p [] = true
every p (x ∷ xs) = p x && every p xs

-- An optional value that is absent passes.
abbrev pub absent_or : Text → Bool → Bool
absent_or value test = is_empty value || test

-- The characters of a hostname's label.
abbrev is_label_byte : ℕ → Bool
is_label_byte c =
    c == b'-' || leb b'a' c && leb c b'z' || leb b'A' c && leb c b'Z' || leb b'0' c && leb c b'9'

unfoldable pub label_bytes : Text → Bool
label_bytes [] = true
label_bytes (c ∷ cs) = is_label_byte c && label_bytes cs

abbrev ends_with : Text → ℕ → Bool
ends_with s c = elim (cut_suffix s c) [ none ↦ false | some _ ↦ true ]

abbrev begins_with : Text → ℕ → Bool
begins_with [] c = false
begins_with (x ∷ _) c = x == c

unfoldable pub is_label : Text → Bool
unfolding label_bytes
is_label label =
    not (length label == 0)
    && leb (byte_length label) 63
    && not (begins_with label b'-')
    && not (ends_with label b'-')
    && label_bytes label

unfoldable pub is_hostname : Text → Bool
unfolding is_label every
is_hostname host =
    leb (byte_length host) 253
    && not (begins_with host b'.')
    && not (ends_with host b'.')
    && every is_label (split b'.' host)

abbrev pub is_interface : Kind → Bool
is_interface interface = true
is_interface peer = false

module _ (P : Platform) where
  -- `validatePrefixList`
  unfoldable pub is_prefix_list : Text → Bool
  unfolding every
  is_prefix_list value =
      let items = split_list value in not (length items == 0) && every P.is_prefix items

  abbrev host_and_port : Option (Text × Text) → Bool
  host_and_port none = false
  host_and_port (some (host, port)) =
      not (is_empty host) && in_uint_range port 1 65535 && (P.is_address host || is_hostname host)

  -- `validateEndpoint`
  unfoldable pub is_endpoint : Text → Bool
  is_endpoint value = host_and_port (split_host_port value)

  -- One guard of a validator: `if … { return "", &PolicyError{…} }`.
  abbrev check_that : ℕ → PolicyCode → Bool → Checked (Unit {0}) → Checked (Unit {0})
  check_that line code test rest = if test then rest else reject line code

  -- `validateWireGuardInterface`
  unfoldable pub validate_interface : Section → Checked (Unit {0})
  validate_interface s =
      let table = to_lower (single_value s (codes "table")) in
      check_that s.line missing_interface_value
        (length (value_list s (codes "privatekey")) == 1
          && not (length (value_list s (codes "address")) == 0))
        (check_that s.line invalid_private_key (is_key (single_value s (codes "privatekey"))) (
          check_that s.line invalid_address (every is_prefix_list (value_list s (codes "address")))
            (check_that s.line invalid_dns
              (every (λ value. every P.is_address (split_list value)) (value_list s (codes "dns")))
              (check_that s.line invalid_listen_port
                (absent_or (single_value s (codes "listenport"))
                  (in_uint_range (single_value s (codes "listenport")) 1 65535))
                (check_that s.line invalid_mtu
                  (absent_or (single_value s (codes "mtu"))
                    (in_uint_range (single_value s (codes "mtu")) 576 65535))
                  (check_that s.line invalid_table
                    (is_empty table
                      || eq_text table (codes "auto")
                      || eq_text table (codes "off")
                      || in_uint_range table 1 (2 ^ 32 - 1))
                    (pass tt)))))))

  -- `validateWireGuardPeer`
  unfoldable pub validate_peer : Section → Checked (Unit {0})
  validate_peer s =
      check_that s.line missing_peer_value
        (length (value_list s (codes "publickey")) == 1
          && length (value_list s (codes "endpoint")) == 1
          && length (value_list s (codes "allowedips")) == 1)
        (check_that s.line invalid_public_key (is_key (single_value s (codes "publickey"))) (
          check_that s.line invalid_preshared_key
            (absent_or (single_value s (codes "presharedkey"))
              (is_key (single_value s (codes "presharedkey"))))
            (check_that s.line invalid_allowed_ips
              (is_prefix_list (single_value s (codes "allowedips")))
              (check_that s.line invalid_endpoint (is_endpoint (single_value s (codes "endpoint")))
                (check_that s.line invalid_keepalive
                  (absent_or (single_value s (codes "persistentkeepalive"))
                    (in_uint_range (single_value s (codes "persistentkeepalive")) 0 65535))
                  (pass tt))))))

  -- The loop over the sections behind the first.
  unfoldable pub validate_peers : Sections → Checked (Unit {0})
  validate_peers [] = pass tt
  validate_peers (s ∷ rest) = elim s.kind [
    | interface ↦ reject s.line invalid_structure
    | peer ↦ validate_peer s >>= λ _. validate_peers rest
  ]

  abbrev pub fingerprint : ℕ → Option Text → Checked Text
  fingerprint line none = reject line invalid_private_key
  fingerprint line (some public) = pass (P.sha256_hex public)

  abbrev pub derive : ℕ → Option Text → Checked Text
  derive line none = reject line invalid_private_key
  derive line (some private) = fingerprint line (P.x25519_public private)

  unfoldable pub validate_sections : Sections → Checked Text
  validate_sections [] = reject 0 invalid_structure
  validate_sections (first ∷ peers) =
      if length peers == 0 || not (is_interface first.kind)
      then reject 0 invalid_structure
      else if ltb max_peers (length peers)
      then reject 0 peer_limit
      else (validate_interface first >>= λ _. validate_peers peers >>= λ _.
          derive first.line (decode_key (single_value first (codes "privatekey"))))

  abbrev validate_runes : Option (List ℕ) → Checked Text
  validate_runes none = reject 0 invalid_encoding
  validate_runes (some runes) = parse_sections runes >>= validate_sections

  -- The fingerprint of the interface's public key, for a file that may be imported.
  unfoldable pub validate_wireguard_import : Text → Checked Text
  validate_wireguard_import bytes =
      if is_empty bytes || ltb max_profile_bytes (length bytes)
      then reject 0 invalid_encoding
      else validate_runes (decode bytes)
