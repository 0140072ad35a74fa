-- ===== src/WireGuard/Policy/Accepted.antt =====
-- What every accepted WireGuard file satisfies.
use tunnelfolio.Prelude.{
  ℕ, ◌-◌, ◌^◌, ◌≤◌, true, not, ◌||◌, Option, none, some, List, [], ◌∷◌, ◌≡◌, refl, sym, arith, ltb,
  ◌==◌,
}
use tunnelfolio.Prelude.Lists.{length, All}
use tunnelfolio.Prelude.Text.{Text, codes, eq_text, is_empty}
use tunnelfolio.Prelude.Unicode.{decode, to_lower}
use tunnelfolio.Prelude.Platform.{Platform}
use tunnelfolio.Policy.{
  pass, reject, ◌>>=◌, >>=-eq-pass, pass-if, pass-injective, max_profile_bytes, invalid_encoding,
  invalid_structure, peer_limit,
}
use tunnelfolio.WireGuard.Sections.{Kind, interface, peer, Section, Sections, parse_sections}
use tunnelfolio.WireGuard.Sections.Keys.{HasGoodKeys, parse_sections-AreGood}
use tunnelfolio.WireGuard.Policy.{
  max_peers, single_value, value_list, decode_key, is_key, is_prefix_list, is_endpoint, every,
  split_list, in_uint_range, validate_interface, validate_peer, validate_peers, validate_sections,
  validate_runes, derive, fingerprint, is_interface, validate_wireguard_import,
}

-- The interface has one private key and at least one address, and every value it gives is well formed.
pub record IsInterface (P : Platform) (s : Section) : Type 0 where
  pub kind : s.kind ≡ interface
  pub one_key : length (value_list s (codes "privatekey")) ≡ 1
  pub some_address : 1 ≤ length (value_list s (codes "address"))
  pub key : is_key (single_value s (codes "privatekey")) ≡ true
  pub addresses : every (is_prefix_list P) (value_list s (codes "address")) ≡ true
  pub dns :
      every (λ value. every P.is_address (split_list value)) (value_list s (codes "dns")) ≡ true
  pub listen_port :
      (is_empty (single_value s (codes "listenport"))
        || in_uint_range (single_value s (codes "listenport")) 1 65535)
      ≡ true
  pub mtu :
      (is_empty (single_value s (codes "mtu"))
        || in_uint_range (single_value s (codes "mtu")) 576 65535)
      ≡ true
  pub table :
      (is_empty (to_lower (single_value s (codes "table")))
        || eq_text (to_lower (single_value s (codes "table"))) (codes "auto")
        || eq_text (to_lower (single_value s (codes "table"))) (codes "off")
        || in_uint_range (to_lower (single_value s (codes "table"))) 1 (2 ^ 32 - 1))
      ≡ true

-- A peer has one key, one endpoint and one list of prefixes, and every value it gives is well formed.
pub record IsPeer (P : Platform) (s : Section) : Type 0 where
  pub kind : s.kind ≡ peer
  pub one_key : length (value_list s (codes "publickey")) ≡ 1
  pub one_endpoint : length (value_list s (codes "endpoint")) ≡ 1
  pub one_list : length (value_list s (codes "allowedips")) ≡ 1
  pub key : is_key (single_value s (codes "publickey")) ≡ true
  pub prefixes : is_prefix_list P (single_value s (codes "allowedips")) ≡ true
  pub endpoint : is_endpoint P (single_value s (codes "endpoint")) ≡ true
  pub preshared_key :
      (is_empty (single_value s (codes "presharedkey"))
        || is_key (single_value s (codes "presharedkey")))
      ≡ true
  pub keepalive :
      (is_empty (single_value s (codes "persistentkeepalive"))
        || in_uint_range (single_value s (codes "persistentkeepalive")) 0 65535)
      ≡ true

-- The sections of an importable file, and the fingerprint of its public key.
pub record IsImportable (P : Platform) (sections : Sections) (identity : Text) : Type 0 where
  pub first : Section
  pub peers : Sections
  pub shape : sections ≡ first ∷ peers
  pub interface_first : IsInterface P first
  pub some_peer : 1 ≤ length peers
  pub few_peers : length peers ≤ max_peers
  pub each_peer : All (IsPeer P) peers
  pub good_keys : All HasGoodKeys sections
  pub private_key : Text
  pub public_key : Text
  pub decoded : decode_key (single_value first (codes "privatekey")) ≡ some private_key
  pub derived : P.x25519_public private_key ≡ some public_key
  pub identity_is : identity ≡ P.sha256_hex public_key

is_interface-kind : (k : Kind) → is_interface k ≡ true → k ≡ interface
is_interface-kind interface h = refl
is_interface-kind peer h = cc

module _ (P : Platform) where
  validate_peer-IsPeer : (s : Section) → s.kind ≡ peer → validate_peer P s ≡ pass tt → IsPeer P s
  unfolding validate_peer
  validate_peer-IsPeer s kind h = ground arith

  validate_interface-IsInterface :
      (s : Section) → s.kind ≡ interface → validate_interface P s ≡ pass tt → IsInterface P s
  unfolding validate_interface
  validate_interface-IsInterface s kind h = ground arith

  validate_peers-IsPeer :
      (peers : Sections) → validate_peers P peers ≡ pass tt → All (IsPeer P) peers
  unfolding validate_peers
  validate_peers-IsPeer [] h = tt
  validate_peers-IsPeer (s ∷ rest) h = go s.kind refl (validate_peers-IsPeer rest) h
    where
      go :
          (kind : Kind)
          → s.kind ≡ kind
          → (validate_peers P rest ≡ pass tt → All (IsPeer P) rest)
          → (elim kind [
            | interface ↦ reject s.line invalid_structure
            | peer ↦ validate_peer P s >>= λ _. validate_peers P rest
          ])
            ≡ pass tt
          → IsPeer P s × All (IsPeer P) rest
      go interface is later e = cc
      go peer is later e =
          let (_, one, others) = >>=-eq-pass (validate_peer P s) (λ _. validate_peers P rest) e in
          (validate_peer-IsPeer s is one, later others)

  record Derived (first : Section) (identity : Text) : Type 0 where
    private_key : Text
    public_key : Text
    decoded : decode_key (single_value first (codes "privatekey")) ≡ some private_key
    derived : P.x25519_public private_key ≡ some public_key
    identity_is : identity ≡ P.sha256_hex public_key

  derive-Derived :
      (first : Section) {identity : Text}
      → derive P first.line (decode_key (single_value first (codes "privatekey"))) ≡ pass identity
      → Derived first identity
  derive-Derived first {identity} h =
      decode_case (decode_key (single_value first (codes "privatekey"))) refl h
    where
      public_case :
          (private : Text) (public : Option Text)
          → decode_key (single_value first (codes "privatekey")) ≡ some private
          → P.x25519_public private ≡ public
          → fingerprint P first.line public ≡ pass identity
          → Derived first identity
      public_case private none d x e = cc
      public_case private (some public) d x e = record {
        private_key = private;
        public_key = public;
        decoded = d;
        derived = x;
        identity_is = sym (pass-injective e);
      }

      decode_case :
          (key : Option Text)
          → decode_key (single_value first (codes "privatekey")) ≡ key
          → derive P first.line key ≡ pass identity
          → Derived first identity
      decode_case none d e = cc
      decode_case (some private) d e = public_case private (P.x25519_public private) d refl e

  validate_sections-IsImportable :
      (sections : Sections) {identity : Text}
      → All HasGoodKeys sections
      → validate_sections P sections ≡ pass identity
      → IsImportable P sections identity
  unfolding validate_sections
  validate_sections-IsImportable [] g h = cc
  validate_sections-IsImportable (first ∷ peers) g h =
      let after_shape =
        pass-if (length peers == 0 || not (is_interface first.kind)) 0 invalid_structure _ h in
      let after_limit = pass-if (ltb max_peers (length peers)) 0 peer_limit _ after_shape.1 in
      let derived = derive P first.line (decode_key (single_value first (codes "privatekey"))) in
      let (_, named, behind) =
        >>=-eq-pass (validate_interface P first) (λ _. validate_peers P peers >>= λ _. derived)
          after_limit.1 in
      let (_, each, rest) = >>=-eq-pass (validate_peers P peers) (λ _. derived) behind in
      let d = derive-Derived first rest in
      record {
        first = first;
        peers = peers;
        shape = refl;
        interface_first =
            validate_interface-IsInterface first
              (is_interface-kind first.kind (ground (arith, after_shape.0))) named;
        some_peer = ground (arith, after_shape.0);
        few_peers = ground (arith, after_limit.0);
        each_peer = validate_peers-IsPeer peers each;
        good_keys = g;
        private_key = d.private_key;
        public_key = d.public_key;
        decoded = d.decoded;
        derived = d.derived;
        identity_is = d.identity_is;
      }

  -- A file that `ValidateWireGuardImport` accepts with a fingerprint is valid UTF-8 and parses into
  -- one interface and one to 32 peers with known keys and well-formed values, and the fingerprint is
  -- that of the public key of its private key.
  pub validate_wireguard_import-IsImportable :
      (bytes identity : Text)
      → validate_wireguard_import P bytes ≡ pass identity
      → (runes : List ℕ) × (sections : Sections) × (decode bytes ≡ some runes)
        × (parse_sections runes ≡ pass sections)
        × IsImportable P sections identity
  unfolding validate_wireguard_import
  validate_wireguard_import-IsImportable bytes identity h = go (decode bytes) inner
    where
      inner : validate_runes P (decode bytes) ≡ pass identity
      inner =
          (pass-if (is_empty bytes || ltb max_profile_bytes (length bytes)) 0 invalid_encoding _
            h).1

      go :
          (decoded : Option (List ℕ))
          → validate_runes P decoded ≡ pass identity
          → (runes : List ℕ) × (sections : Sections) × (decoded ≡ some runes)
            × (parse_sections runes ≡ pass sections)
            × IsImportable P sections identity
      go none e = cc
      go (some runes) e =
          let (sections, parsed, valid) =
            >>=-eq-pass (parse_sections runes) (validate_sections P) e in
          (
            runes,
            sections,
            refl,
            parsed,
            validate_sections-IsImportable sections (parse_sections-AreGood runes parsed) valid,
          )
