-- ===== src/OpenVpn/Policy.antt =====
-- internal/profiles/openvpn_policy.go: `ValidateOpenVPNImport`. The reader's chunks are the lines of
-- the decoded file; the local variables of the loop are the record `Walk`.
pub mod Accepted
use tunnelfolio.Prelude.{
  ℕ, ◌+◌, ◌-◌, ◌*◌, Bool, true, false, not, ◌&&◌, ◌||◌, Option, none, some, List, [], ◌∷◌, ◌++◌,
  ltb, ◌==◌, if◌then◌else◌,
}
use tunnelfolio.Prelude.Lists.{length}
use tunnelfolio.Prelude.Text.{Text, codes, eq_text, is_empty, contains}
use tunnelfolio.Prelude.Unicode.{
  decode, byte_length, is_control, is_space, trim_space, trim_left, trim_suffix, cut_suffix,
  has_prefix, to_lower, equal_fold,
}
use tunnelfolio.Policy.{
  PolicyCode, Checked, max_profile_bytes, pass, reject, ◌>>=◌, invalid_encoding, line_too_long,
  control_character, nested_inline_block, inline_block_too_large, unexpected_inline_close,
  unsupported_inline_block, duplicate_inline_block, invalid_directive, unterminated_inline_block,
  dangling_continuation, missing_client_directive, unsafe_directive, external_reference,
  unsupported_directive,
}
use tunnelfolio.OpenVpn.Lines.{Fragment, fragment, unterminated_quote, continuation}
use tunnelfolio.OpenVpn.Tokens
use tunnelfolio.OpenVpn.Tokens.{Tokens, tokenize}
use tunnelfolio.OpenVpn.Directives.{
  inline_blocks, allowed_directives, denied_directives, has_word, bounds_of,
}

abbrev pub max_logical_line : ℕ
max_logical_line = 16 * 1024

abbrev pub max_inline_block : ℕ
max_inline_block = 256 * 1024

-- The lines that `ReadString('\n')` returns, without the newline.
unfoldable pub split_lines : List ℕ → List (List ℕ)
split_lines [] = []
split_lines (c ∷ cs) =
    let rest = split_lines cs in
    if c == b'\n' then [] ∷ rest else (elim rest [ [] ↦ (c ∷ []) ∷ [] | l ∷ ls ↦ (c ∷ l) ∷ ls ])

-- `validateOpenVPNCharacters`
unfoldable pub valid_characters : List ℕ → Bool
valid_characters [] = true
valid_characters (c ∷ cs) = not (is_control c && not (c == b'\t')) && valid_characters cs

pub data Delimiter : Type 0 where
  no_delimiter : Delimiter
  opening closing : List ℕ → Delimiter

abbrev named : (List ℕ → Delimiter) → List ℕ → Delimiter
named make name = if is_empty name then no_delimiter else make name

-- `<…>` with its content trimmed.
abbrev delimiter_content : List ℕ → Delimiter
delimiter_content (c ∷ rest) =
    if c == b'/'
    then named closing (to_lower (trim_space rest))
    else named opening (to_lower (c ∷ rest))
delimiter_content [] = no_delimiter

abbrev enclosed : List ℕ → Option (List ℕ)
enclosed [] = none
enclosed (c ∷ rest) = if c == b'<' then cut_suffix rest b'>' else none

-- `openVPNBlockDelimiter`
unfoldable pub block_delimiter : List ℕ → Delimiter
block_delimiter line = if ltb (byte_length line) 3 then no_delimiter else elim (enclosed line) [
  | none ↦ no_delimiter
  | some content ↦ delimiter_content (trim_space content)
]

-- `strings.HasPrefix(trimmed, "<") && strings.HasSuffix(trimmed, ">")`
abbrev is_bracketed : List ℕ → Bool
is_bracketed line =
    has_prefix line (codes "<") && (elim (cut_suffix line b'>') [ none ↦ false | some _ ↦ true ])

abbrev directive_name : List ℕ → List ℕ
directive_name token = to_lower (trim_left (λ c. c == b'-') token)

abbrev is_inline_marker : List (List ℕ) → Bool
is_inline_marker (argument ∷ []) = eq_text (to_lower argument) (codes "[inline]")
is_inline_marker _ = false

-- The argument count of a directive against its entry of the table.
unfoldable pub check_bounds : ℕ → List ℕ → ℕ → Option (ℕ × ℕ) → Checked (List ℕ)
check_bounds line directive count none = reject line unsupported_directive
check_bounds line directive count (some (low, high)) =
    if ltb count low || ltb high count then reject line invalid_directive else pass directive

-- The checks of one directive, given its name and its arguments.
unfoldable pub check_directive : ℕ → List ℕ → List (List ℕ) → Checked (List ℕ)
unfolding check_bounds
check_directive line directive arguments =
    if has_word denied_directives directive || has_prefix directive (codes "management-")
    then reject line unsafe_directive
    else if has_word inline_blocks directive
    then (if is_inline_marker arguments then pass directive else reject line external_reference)
    else check_bounds line directive (length arguments) (bounds_of allowed_directives directive)

abbrev check_tokens : ℕ → Tokens → Checked (List ℕ)
check_tokens line (Tokens.tokens []) = pass []
check_tokens line (Tokens.tokens (first ∷ arguments)) =
    check_directive line (directive_name first) arguments
check_tokens line Tokens.dangling_escape = reject line invalid_directive
check_tokens line Tokens.unterminated_quote = reject line invalid_directive

-- `validateOpenVPNDirective`; a line with no token has the empty name.
unfoldable pub validate_directive : ℕ → List ℕ → Checked (List ℕ)
unfolding check_directive
validate_directive line logical = check_tokens line (tokenize logical)

-- The local variables; an empty `block` is no block.
pub record Walk : Type 0 where
  pub line_number : ℕ
  pub logical : List ℕ
  pub block : List ℕ
  pub block_bytes : ℕ
  pub seen_blocks : List (List ℕ)
  pub seen_client : Bool
  pub seen_remote : Bool

unfoldable pub start_walk : Walk
start_walk = record {
  line_number = 0;
  logical = [];
  block = [];
  block_bytes = 0;
  seen_blocks = [];
  seen_client = false;
  seen_remote = false;
}

-- A line inside an inline block.
unfoldable pub block_line : Walk → List ℕ → Checked Walk
block_line w physical =
    let trimmed = trim_space physical in
    let grown = w.block_bytes + byte_length physical + 1 in
    if equal_fold trimmed (codes "</" ++ (w.block ++ codes ">"))
    then pass (record w { seen_blocks = w.block ∷ w.seen_blocks; block = []; block_bytes = 0 })
    else if is_bracketed trimmed
    then reject w.line_number nested_inline_block
    else if ltb max_inline_block grown
    then reject w.line_number inline_block_too_large
    else pass (record w { block_bytes = grown })

-- An opening delimiter.
unfoldable pub open_block : Walk → List ℕ → Checked Walk
open_block w name =
    if not (has_word inline_blocks name)
    then reject w.line_number unsupported_inline_block
    else if contains w.seen_blocks name
    then reject w.line_number duplicate_inline_block
    else pass (record w { block = name })

abbrev see : Walk → List ℕ → Walk
see w directive = record w {
  seen_client =
      w.seen_client || eq_text directive (codes "client") || eq_text directive (codes "tls-client");
  seen_remote = w.seen_remote || eq_text directive (codes "remote");
  logical = [];
}

-- A fragment of a logical line, which is checked when it is whole.
unfoldable pub directive_line : Walk → Fragment → Checked Walk
directive_line w unterminated_quote = reject w.line_number invalid_directive
directive_line w (fragment continued text) =
    let logical = w.logical ++ text in
    if ltb max_logical_line (byte_length logical)
    then reject w.line_number line_too_long
    else if continued
    then pass (record w { logical = logical })
    else (validate_directive w.line_number logical >>= λ directive. pass (see w directive))

unfoldable pub outside_line : Walk → List ℕ → Delimiter → Checked Walk
unfolding open_block directive_line
outside_line w physical (closing _) = reject w.line_number unexpected_inline_close
outside_line w physical (opening name) = open_block w name
outside_line w physical no_delimiter = directive_line w (continuation physical)

-- One round of the loop.
unfoldable pub walk_line : Walk → List ℕ → Checked Walk
unfolding block_line outside_line
walk_line before chunk =
    let w = record before { line_number = before.line_number + 1 } in
    let physical = trim_suffix chunk b'\r' in
    if ltb max_logical_line (byte_length physical)
    then reject w.line_number line_too_long
    else if not (valid_characters physical)
    then reject w.line_number control_character
    else if not (is_empty w.block)
    then block_line w physical
    else outside_line w physical (block_delimiter (trim_space physical))

unfoldable pub walk : Walk → List (List ℕ) → Checked Walk
walk w [] = pass w
walk w (line ∷ lines) = walk_line w line >>= λ next. walk next lines

-- The tests behind the loop.
unfoldable pub finish : Walk → Checked (Unit {0})
finish w =
    if not (is_empty w.block)
    then reject w.line_number unterminated_inline_block
    else if not (is_empty w.logical)
    then reject w.line_number dangling_continuation
    else if not w.seen_client || not w.seen_remote
    then reject 0 missing_client_directive
    else pass tt

abbrev validate_runes : Option (List ℕ) → Checked (Unit {0})
validate_runes none = reject 0 invalid_encoding
validate_runes (some runes) = walk start_walk (split_lines runes) >>= finish

unfoldable pub validate_openvpn_import : Text → Checked (Unit {0})
unfolding split_lines walk finish start_walk
validate_openvpn_import bytes =
    if is_empty bytes || ltb max_profile_bytes (length bytes)
    then reject 0 invalid_encoding
    else validate_runes (decode bytes)
