-- ===== src/Profiles/Model.antt =====
-- internal/profiles/model.go: the saved profiles, the manifest that lists them, and the checks that
-- a manifest passes when it is loaded and before it is written. Strings are bytes; the checks
-- decode them where the code ranges over runes.
use tunnelfolio.Prelude.{
  ℕ, Bool, true, false, not, ◌&&◌, ◌||◌, Option, none, some, List, [], ◌∷◌, ltb, leb, ◌==◌,
  if◌then◌else◌,
}
use tunnelfolio.Prelude.Lists.{length, drop}
use tunnelfolio.Prelude.Text.{Text, codes, eq_text, is_empty}
use tunnelfolio.Prelude.Int.{ℤ, pos}
use tunnelfolio.Prelude.Unicode.{decode, is_control, trim_space, has_prefix}
use tunnelfolio.Prelude.Err.{Err, other, invalid_metadata}

abbrev pub protocol_openvpn : Text
protocol_openvpn = codes "openvpn"

abbrev pub protocol_wireguard : Text
protocol_wireguard = codes "wireguard"

abbrev pub startup_manual : Text
startup_manual = codes "manual"

abbrev pub startup_restore : Text
startup_restore = codes "restore"

abbrev pub max_profiles : ℕ
max_profiles = 100

abbrev pub max_recents : ℕ
max_recents = 5

-- `time.Time`: seconds since the zero time, and whether its location is `time.UTC`.
pub record Time : Type 0 where
  pub seconds : ℕ
  pub is_utc : Bool

pub record Profile : Type 0 where
  pub id : Text
  pub protocol : Text
  pub display_name : Text
  pub group : Text
  pub location : Text
  pub emoji : Text
  pub identifier : Text
  pub original_filename : Text
  pub imported_at : Time
  pub content_sha256 : Text
  pub wireguard_public_key_sha256 : Text

pub record Manifest : Type 0 where
  pub version : ℤ
  pub library_revision : ℕ
  pub profiles : List Profile
  pub favorites : List Text
  pub recents : List Text
  pub startup_mode : Text
  pub desired_profile : Text
  pub connected_at : ℤ

pub record Metadata : Type 0 where
  pub display_name : Text
  pub group : Text
  pub location : Text
  pub emoji : Text

-- A pointer of the patch is an option.
pub record MetadataPatch : Type 0 where
  pub display_name : Option Text
  pub group : Option Text
  pub location : Option Text
  pub clear_location : Bool
  pub emoji : Option Text
  pub clear_emoji : Bool

unfoldable pub initial_manifest : Manifest
initial_manifest = record {
  version = pos 1;
  library_revision = 0;
  profiles = [];
  favorites = [];
  recents = [];
  startup_mode = startup_manual;
  desired_profile = [];
  connected_at = pos 0;
}

-- `Manifest.Profile`
unfoldable pub find_profile : List Profile → Text → Option Profile
find_profile [] id = none
find_profile (profile ∷ profiles) id =
    if eq_text profile.id id then some profile else find_profile profiles id

-- The character class `[a-z2-7]`.
unfoldable pub is_base32 : ℕ → Bool
is_base32 c = leb b'a' c && leb c b'z' || leb b'2' c && leb c b'7'

unfoldable pub all_bytes : (ℕ → Bool) → Text → Bool
all_bytes p [] = true
all_bytes p (c ∷ cs) = p c && all_bytes p cs

-- `^tf_[a-z2-7]{26}$`
unfoldable pub id_pattern : Text → Bool
unfolding has_prefix all_bytes is_base32
id_pattern id =
    has_prefix id (codes "tf_") && length (drop 3 id) == 26 && all_bytes is_base32 (drop 3 id)

-- `^tf[a-z2-7]{12}$`
unfoldable pub identifier_pattern : Text → Bool
unfolding has_prefix all_bytes is_base32
identifier_pattern identifier =
    has_prefix identifier (codes "tf")
    && length (drop 2 identifier) == 12
    && all_bytes is_base32 (drop 2 identifier)

unfoldable pub valid_protocol : Text → Bool
valid_protocol protocol = eq_text protocol protocol_openvpn || eq_text protocol protocol_wireguard

unfoldable pub is_hex : ℕ → Bool
is_hex c = not (ltb c b'0' || ltb b'9' c && ltb c b'a' || ltb b'f' c)

unfoldable pub valid_sha256 : Text → Bool
unfolding all_bytes is_hex
valid_sha256 value = if not (length value == 64) then false else all_bytes is_hex value

-- The codes of `validateText`; the empty code is `none`.
pub data TextCode : Type 0 where
  invalid_utf8 surrounding_whitespace required length_limit control_character : TextCode

unfoldable pub has_control : List ℕ → Bool
has_control [] = false
has_control (r ∷ runes) = is_control r || has_control runes

unfoldable pub validate_runes : Text → List ℕ → ℕ → ℕ → ℕ → Option TextCode
unfolding has_control
validate_runes value runes min_runes max_runes max_bytes =
    if not (eq_text (trim_space runes) runes)
    then some surrounding_whitespace
    else if ltb (length runes) min_runes
    then some required
    else if ltb max_runes (length runes) || ltb max_bytes (length value)
    then some length_limit
    else if has_control runes
    then some control_character
    else none

unfoldable pub validate_text : Text → ℕ → ℕ → ℕ → Option TextCode
unfolding validate_runes
validate_text value min_runes max_runes max_bytes = elim (decode value) [
  | none ↦ some invalid_utf8
  | some runes ↦ validate_runes value runes min_runes max_runes max_bytes
]

pub data Field : Type 0 where
  display_name group location emoji : Field

-- `MetadataValidationError`
abbrev pub MetadataError : Type 0
MetadataError = Field × TextCode

-- An optional field is checked only where it is not empty.
unfoldable pub validate_optional : Text → ℕ → ℕ → Option TextCode
validate_optional value max_runes max_bytes =
    if is_empty value then none else validate_text value 1 max_runes max_bytes

abbrev pub first_error : Field → Option TextCode → Option MetadataError → Option MetadataError
first_error field (some code) rest = some (field, code)
first_error field none rest = rest

unfoldable pub validate_metadata : Metadata → Option MetadataError
unfolding validate_optional
validate_metadata m = first_error Field.display_name (validate_text m.display_name 1 120 512) (
    first_error Field.group (validate_text m.group 1 64 256) (
      first_error Field.location (validate_optional m.location 80 320)
        (first_error Field.emoji (validate_optional m.emoji 16 64) none)))

-- The error value of `ValidateMetadata`: it unwraps to `ErrInvalidMetadata`.
abbrev pub metadata_err : Option MetadataError → Err
metadata_err none = []
metadata_err (some _) = invalid_metadata ∷ []

abbrev pub metadata_of : Profile → Metadata
metadata_of p = record {
  display_name = p.display_name;
  group = p.group;
  location = p.location;
  emoji = p.emoji;
}

-- `strings.ContainsAny(name, "/\\")`
unfoldable pub has_separator : Text → Bool
has_separator [] = false
has_separator (c ∷ cs) = c == b'/' || c == b'\\' || has_separator cs

abbrev pub filename_runes : Option (List ℕ) → Err
filename_runes none = other ∷ []
filename_runes (some runes) = if has_control runes then other ∷ [] else []

unfoldable pub validate_original_filename : Text → Err
unfolding has_separator has_control
validate_original_filename name =
    if is_empty name
      || ltb 255 (length name)
      || has_separator name
      || eq_text name (codes ".")
      || eq_text name (codes "..")
    then other ∷ []
    else filename_runes (decode name)

-- `if err := …; err != nil { return err }`
abbrev pub or_else : Err → Err → Err
or_else [] rest = rest
or_else (e ∷ es) rest = e ∷ es

abbrev pub require : Bool → Err → Err
require true rest = rest
require false rest = other ∷ []

unfoldable pub validate_profile : Profile → Err
validate_profile p = require (id_pattern p.id) (
    require (valid_protocol p.protocol) (
      or_else (metadata_err (validate_metadata (metadata_of p))) (
        require (identifier_pattern p.identifier) (
          or_else (validate_original_filename p.original_filename) (
            require (not (p.imported_at.seconds == 0) && p.imported_at.is_utc) (
              require (valid_sha256 p.content_sha256) (
                if eq_text p.protocol protocol_wireguard
                then require (valid_sha256 p.wireguard_public_key_sha256) []
                else require (is_empty p.wireguard_public_key_sha256) [])))))))
