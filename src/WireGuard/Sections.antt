-- ===== src/WireGuard/Sections.antt =====
-- internal/profiles/wireguard_policy.go: `parseWireGuardSections`. The map `values` of a section is
-- the list of its assignments in the order of the file.
pub mod Keys
use tunnelfolio.Prelude.{
  ℕ, ◌+◌, ◌*◌, Bool, true, false, not, ◌&&◌, ◌||◌, Option, none, some, List, [], ◌∷◌, ◌++◌, ltb,
  ◌==◌, if◌then◌else◌, String,
}
use mathlib.Core.List.{reverse}
use tunnelfolio.Prelude.Lists.{length}
use tunnelfolio.Prelude.Text.{Text, codes, eq_text, is_empty}
use tunnelfolio.Prelude.Unicode.{byte_length, is_control, trim_space, cut_suffix, to_lower}
use tunnelfolio.Prelude.Net.{cut, split}
use tunnelfolio.Policy.{
  Checked, pass, reject, ◌>>=◌, line_too_long, control_character, invalid_section,
  unsupported_section, duplicate_interface, missing_section, invalid_assignment, executable_hook,
  unsupported_key, duplicate_key,
}
use tunnelfolio.OpenVpn.Directives.{has_word}
use tunnelfolio.OpenVpn.Policy.{valid_characters, max_logical_line}

pub data Kind : Type 0 where
  interface peer : Kind

pub record Section : Type 0 where
  pub kind : Kind
  pub line : ℕ
  pub values : List (Text × Text)

-- `section.values[key]`
unfoldable pub values_of : List (Text × Text) → Text → List Text
values_of [] key = []
values_of ((k, v) ∷ values) key =
    let rest = values_of values key in if eq_text k key then v ∷ rest else rest

-- `strings.ReplaceAll(data, "\r\n", "\n")`
unfoldable pub replace_crlf : List ℕ → List ℕ
replace_crlf [] = []
replace_crlf (c ∷ []) = c ∷ []
replace_crlf (c ∷ d ∷ rest) =
    let tail = replace_crlf (d ∷ rest) in if c == b'\r' && d == b'\n' then tail else c ∷ tail

abbrev pub hook_keys : List String
hook_keys = "preup" ∷ "postup" ∷ "predown" ∷ "postdown" ∷ "saveconfig" ∷ []

-- `wireGuardInterfaceKeys`
abbrev pub interface_keys : List String
interface_keys = "address" ∷ "dns" ∷ "listenport" ∷ "mtu" ∷ "privatekey" ∷ "table" ∷ []

-- `wireGuardPeerKeys`
abbrev pub peer_keys : List String
peer_keys = "allowedips" ∷ "endpoint" ∷ "persistentkeepalive" ∷ "presharedkey" ∷ "publickey" ∷ []

abbrev pub keys_of : Kind → List String
keys_of interface = interface_keys
keys_of peer = peer_keys

-- `strings.Cut(raw, "#")`
abbrev pub without_comment : List ℕ → List ℕ
without_comment raw = elim (cut b'#' raw) [ none ↦ raw | some (before, _) ↦ before ]

-- Sections, the last one first, so that the head is `current`.
abbrev pub Sections : Type 0
Sections = List Section

unfoldable pub open_section : ℕ → Sections → Text → Checked Sections
open_section line [] kind =
    if eq_text kind (codes "interface")
    then pass (record { kind = interface; line = line; values = [] } ∷ [])
    else if eq_text kind (codes "peer")
    then pass (record { kind = peer; line = line; values = [] } ∷ [])
    else reject line unsupported_section
open_section line (current ∷ before) kind =
    if eq_text kind (codes "interface")
    then reject line duplicate_interface
    else if eq_text kind (codes "peer")
    then pass (record { kind = peer; line = line; values = [] } ∷ current ∷ before)
    else reject line unsupported_section

-- A line that begins with `[`, given what follows the bracket.
unfoldable pub header_line : ℕ → Sections → List ℕ → Checked Sections
unfolding open_section
header_line line sections rest = elim (cut_suffix rest b']') [
  | none ↦ reject line invalid_section
  | some name ↦ open_section line sections (to_lower (trim_space name))
]

-- One assignment, with its key in lower case and its value trimmed.
unfoldable pub assign : ℕ → Section → Text → Text → Checked Section
assign line current key value =
    if is_empty key || is_empty value
    then reject line invalid_assignment
    else if has_word hook_keys key
    then reject line executable_hook
    else if not (has_word (keys_of current.kind) key)
    then reject line unsupported_key
    else if not (length (values_of current.values key) == 0)
        && not (eq_text key (codes "address"))
        && not (eq_text key (codes "dns"))
    then reject line duplicate_key
    else pass (record current { values = current.values ++ (key, value) ∷ [] })

unfoldable pub value_line : ℕ → Sections → List ℕ → Checked Sections
unfolding assign
value_line line [] text = reject line missing_section
value_line line (current ∷ before) text = elim (cut b'=' text) [
  | none ↦ reject line invalid_assignment
  | some (key, value) ↦
      assign line current (to_lower (trim_space key)) (trim_space value) >>= λ next.
      pass (next ∷ before)
]

abbrev pub content_line : ℕ → Sections → List ℕ → Checked Sections
content_line line sections [] = pass sections
content_line line sections (c ∷ rest) =
    if c == b'[' then header_line line sections rest else value_line line sections (c ∷ rest)

-- One round of the loop.
unfoldable pub section_line : ℕ → Sections → List ℕ → Checked Sections
unfolding header_line value_line
section_line line sections raw =
    if ltb max_logical_line (byte_length raw)
    then reject line line_too_long
    else if not (valid_characters raw)
    then reject line control_character
    else content_line line sections (trim_space (without_comment raw))

unfoldable pub section_lines : ℕ → Sections → List (List ℕ) → Checked Sections
section_lines line sections [] = pass sections
section_lines line sections (raw ∷ lines) =
    section_line line sections raw >>= λ next. section_lines (line + 1) next lines

-- `parseWireGuardSections`, with the sections in the order of the file.
unfoldable pub parse_sections : List ℕ → Checked Sections
unfolding section_lines replace_crlf
parse_sections runes =
    section_lines 1 [] (split b'\n' (replace_crlf runes)) >>= λ sections. pass (reverse sections)
