-- ===== src/OpenVpn/Lines.antt =====
-- internal/profiles/openvpn_policy.go: `openVPNContinuation`. A line is the list of its runes; a
-- multi-byte rune has no byte that the scanner looks for.
use tunnelfolio.Prelude.{
  ℕ, Bool, true, false, not, ◌&&◌, ◌||◌, Option, none, some, List, [], ◌∷◌, ◌==◌, if◌then◌else◌,
}
use tunnelfolio.Prelude.Unicode.{cut_suffix, trim_right}

abbrev pub is_blank : ℕ → Bool
is_blank c = c == b' ' || c == b'\t'

-- `index == 0 || line[index-1] == ' ' || line[index-1] == '\t'`
abbrev pub after_blank : Option ℕ → Bool
after_blank none = true
after_blank (some c) = is_blank c

-- The local variables of the scan.
pub record Scan : Type 0 where
  pub in_single : Bool
  pub in_double : Bool
  pub escaped : Bool

abbrev pub start : Scan
start = record { in_single = false; in_double = false; escaped = false }

-- One rune: the variables after it, or the place of a comment.
unfoldable pub scan_step : Scan → Option ℕ → ℕ → Option Scan
scan_step s prev c =
    if s.escaped
    then some (record s { escaped = false })
    else if c == b'\\' && not s.in_single
    then some (record s { escaped = true })
    else if c == b'\'' && not s.in_double
    then some (record s { in_single = not s.in_single })
    else if c == b'"' && not s.in_single
    then some (record s { in_double = not s.in_double })
    else if not s.in_single && not s.in_double && (c == b'#' || c == b';') && after_blank prev
    then none
    else some s

-- The first loop: the runes in front of a comment, and the variables where the loop ends. The last
-- part is whether a comment was found.
unfoldable pub scan : Scan → Option ℕ → List ℕ → List ℕ × Scan × Bool
unfolding scan_step
scan s prev [] = ([], s, false)
scan s prev (c ∷ cs) = elim (scan_step s prev c) [
  | none ↦ ([], s, true)
  | some t ↦ let r = scan t (some c) cs in (c ∷ r.0, r.1, r.2)
]

-- The second loop, over the content in front of a comment.
unfoldable pub ends_escaped : Bool → List ℕ → Bool
ends_escaped escaped [] = escaped
ends_escaped escaped (c ∷ cs) = ends_escaped (if escaped then false else c == b'\\') cs

-- A fragment of a logical line, and whether the next line continues it.
pub data Fragment : Type 0 where
  fragment : Bool → List ℕ → Fragment
  unterminated_quote : Fragment

unfoldable pub join_or_end : Bool → Scan → List ℕ → Fragment
join_or_end escaped s content =
    let ended = if s.in_single || s.in_double then unterminated_quote else fragment false content in
    if escaped
    then elim (cut_suffix (trim_right is_blank content) b'\\') [
      | none ↦ ended
      | some front ↦ fragment true front
    ]
    else ended

unfoldable pub continuation : List ℕ → Fragment
unfolding scan ends_escaped join_or_end
continuation line =
    let (content, s, commented) = scan start none line in
    join_or_end (if commented then ends_escaped false content else s.escaped) s content
