-- ===== src/Import/Detect/Known.antt =====
-- What `detectProtocol` names, and why.
use tunnelfolio.Prelude.{
  ℕ, Bool, true, false, not, ◌&&◌, ◌⊎◌, List, ◌≡◌, refl, subst, arith, if◌then◌else◌,
}
use tunnelfolio.Prelude.Text.{Text, codes, eq_text, eq_text_iff, is_empty}
use tunnelfolio.Prelude.Unicode.{runes_of, to_lower}
use tunnelfolio.Prelude.Platform.{Platform}
use tunnelfolio.Policy.{PolicyCode, pass, reject}
use tunnelfolio.OpenVpn.Policy.{validate_openvpn_import}
use tunnelfolio.WireGuard.Policy.{validate_wireguard_import}
use tunnelfolio.Profiles.Model.{protocol_openvpn, protocol_wireguard, valid_protocol}
use tunnelfolio.Import.Model.{ImportFile, Issue, protocol_mismatch, unsupported_extension}
use tunnelfolio.Import.Detect.{
  Detected, detected, undetected, extension, detect_by_signal, detect_by_content, detect_protocol,
}

-- The name of a protocol, and of no other kind of file.
pub data IsKnown : Detected → Type 0 where
  known : {protocol : Text} → valid_protocol protocol ≡ true → IsKnown (detected protocol)
  no_protocol : {issue : Issue} → IsKnown (undetected issue)

detect_by_signal-IsKnown : (w o : Bool) → IsKnown (detect_by_signal w o)
unfolding detect_by_signal valid_protocol eq_text
detect_by_signal-IsKnown true true = no_protocol
detect_by_signal-IsKnown true false = known refl
detect_by_signal-IsKnown false true = known refl
detect_by_signal-IsKnown false false = no_protocol

IsKnown-if : (b : Bool) (x y : Detected) → IsKnown x → IsKnown y → IsKnown (if b then x else y)
IsKnown-if true x y h k = h
IsKnown-if false x y h k = k

IsKnown-openvpn : IsKnown (detected protocol_openvpn)
unfolding valid_protocol eq_text
IsKnown-openvpn = known refl

IsKnown-wireguard : IsKnown (detected protocol_wireguard)
unfolding valid_protocol eq_text
IsKnown-wireguard = known refl

detect_by_content-IsKnown : (P : Platform) (bytes : Text) → IsKnown (detect_by_content P bytes)
unfolding detect_by_content
detect_by_content-IsKnown P bytes =
    IsKnown-if _ _ _ IsKnown-wireguard
      (IsKnown-if _ _ _ IsKnown-openvpn (detect_by_signal-IsKnown _ _))

overridden :
    (P : Platform) (file : ImportFile)
    → (is_empty file.protocol_override ≡ true) ⊎ (valid_protocol file.protocol_override ≡ true)
    → IsKnown (
        if not (is_empty file.protocol_override)
        then detected file.protocol_override
        else detect_by_content P file.bytes)
overridden P file h = split (is_empty file.protocol_override) refl h
  where
    split :
        (b : Bool)
        → is_empty file.protocol_override ≡ b
        → (is_empty file.protocol_override ≡ true) ⊎ (valid_protocol file.protocol_override ≡ true)
        → IsKnown
            (if not b then detected file.protocol_override else detect_by_content P file.bytes)
    split true is h = detect_by_content-IsKnown P file.bytes
    split false is h = known (ground (arith, h))

detect_protocol-IsKnown :
    (P : Platform) (file : ImportFile)
    → (is_empty file.protocol_override ≡ true) ⊎ (valid_protocol file.protocol_override ≡ true)
    → IsKnown (detect_protocol P file)
unfolding detect_protocol
detect_protocol-IsKnown P file h =
    IsKnown-if _ _ _ (IsKnown-if _ _ _ no_protocol IsKnown-openvpn)
      (IsKnown-if _ _ _ no_protocol (overridden P file h))

-- The letters of the file's extension, in lower case.
abbrev pub ending : ImportFile → List ℕ
ending file = to_lower (runes_of (extension file.name))

-- What the answer of the detection says of the file.
pub record IsDetection (P : Platform) (file : ImportFile) (d : Detected) : Type 0 where
  pub known : IsKnown d
  pub as_asked :
      (p : Text)
      → d ≡ detected p
      → is_empty file.protocol_override ≡ false
      → p ≡ file.protocol_override
  pub of_extension :
      (p : Text) → d ≡ detected p → ending file ≡ codes ".ovpn" → p ≡ protocol_openvpn
  pub by_wireguard :
      {identity : Text} {line : ℕ} {code : PolicyCode}
      → ending file ≡ codes ".conf"
      → is_empty file.protocol_override ≡ true
      → validate_wireguard_import P file.bytes ≡ pass identity
      → validate_openvpn_import file.bytes ≡ reject line code
      → d ≡ detected protocol_wireguard
  pub by_openvpn :
      {line : ℕ} {code : PolicyCode}
      → ending file ≡ codes ".conf"
      → is_empty file.protocol_override ≡ true
      → validate_openvpn_import file.bytes ≡ pass tt
      → validate_wireguard_import P file.bytes ≡ reject line code
      → d ≡ detected protocol_openvpn

-- The tests of `detectProtocol`, in their order.
abbrev by_tests : Bool → Bool → Bool → Bool → Text → Detected → Detected
by_tests ovpn conf unasked same asked content =
    if ovpn
    then (if not unasked && not same
        then undetected protocol_mismatch
        else detected protocol_openvpn)
    else if not conf
    then undetected unsupported_extension
    else if not unasked
    then detected asked
    else content

by_tests-as_asked :
    (ovpn conf same : Bool) (asked p : Text) (content : Detected)
    → (same ≡ true → asked ≡ protocol_openvpn)
    → by_tests ovpn conf false same asked content ≡ detected p
    → p ≡ asked
by_tests-as_asked true conf true asked p content k h = cc (k refl)
by_tests-as_asked true conf false asked p content k h = cc
by_tests-as_asked false true same asked p content k h = cc
by_tests-as_asked false false same asked p content k h = cc

by_tests-ovpn :
    (conf unasked same : Bool) (asked p : Text) (content : Detected)
    → by_tests true conf unasked same asked content ≡ detected p
    → p ≡ protocol_openvpn
by_tests-ovpn conf true same asked p content h = cc
by_tests-ovpn conf false true asked p content h = cc
by_tests-ovpn conf false false asked p content h = cc

-- `detectProtocol`, for an override that is empty or a protocol, names one of the two protocols or
-- gives an issue. What it names is the override where there is one, and OpenVPN for a file whose
-- extension is .ovpn; and a .conf file without an override that exactly one of the two import
-- policies accepts is of that policy's protocol.
pub detect_protocol-IsDetection :
    (P : Platform) (file : ImportFile)
    → (is_empty file.protocol_override ≡ true) ⊎ (valid_protocol file.protocol_override ≡ true)
    → IsDetection P file (detect_protocol P file)
unfolding detect_protocol detect_by_content eq_text
detect_protocol-IsDetection P file h = record {
  known = detect_protocol-IsKnown P file h;
  as_asked = λ p is asked.
      by_tests-as_asked (eq_text (ending file) (codes ".ovpn"))
        (eq_text (ending file) (codes ".conf")) (eq_text file.protocol_override protocol_openvpn)
        file.protocol_override p (detect_by_content P file.bytes)
        (eq_text_iff file.protocol_override protocol_openvpn).0
        (subst
          (λ b.
            by_tests (eq_text (ending file) (codes ".ovpn")) (eq_text (ending file) (codes ".conf"))
              b (eq_text file.protocol_override protocol_openvpn) file.protocol_override
              (detect_by_content P file.bytes)
            ≡ detected p)
          asked is);
  of_extension = λ p is ext.
      by_tests-ovpn (eq_text (ending file) (codes ".conf")) (is_empty file.protocol_override)
        (eq_text file.protocol_override protocol_openvpn) file.protocol_override p
        (detect_by_content P file.bytes)
        (subst
          (λ b.
            by_tests b (eq_text (ending file) (codes ".conf")) (is_empty file.protocol_override)
              (eq_text file.protocol_override protocol_openvpn) file.protocol_override
              (detect_by_content P file.bytes)
            ≡ detected p)
          ((eq_text_iff (ending file) (codes ".ovpn")).1 ext) is);
  by_wireguard =
      λ ext none_asked wireguard openvpn. rw ext (rw none_asked (rw wireguard (rw openvpn refl)));
  by_openvpn =
      λ ext none_asked openvpn wireguard. rw ext (rw none_asked (rw wireguard (rw openvpn refl)));
}
