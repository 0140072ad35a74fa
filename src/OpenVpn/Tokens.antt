-- ===== src/OpenVpn/Tokens.antt =====
-- internal/profiles/openvpn_policy.go: `tokenizeOpenVPNLine`. The builder `token` and the slice
-- `tokens` are lists.
pub mod RoundTrip
use tunnelfolio.Prelude.{
  ℕ, ◌+◌, Bool, true, false, not, ◌&&◌, ◌||◌, Option, none, some, List, [], ◌∷◌, ◌++◌, ◌==◌,
  if◌then◌else◌,
}
use tunnelfolio.OpenVpn.Lines.{is_blank, after_blank}

pub record Lexer : Type 0 where
  pub tokens : List (List ℕ)
  pub token : List ℕ
  pub in_single : Bool
  pub in_double : Bool
  pub escaped : Bool
  pub started : Bool

abbrev pub empty_lexer : Lexer
empty_lexer = record {
  tokens = [];
  token = [];
  in_single = false;
  in_double = false;
  escaped = false;
  started = false;
}

-- The closure `flush`.
unfoldable pub flush : Lexer → Lexer
flush l =
    if l.started
    then record l { tokens = l.tokens ++ l.token ∷ []; token = []; started = false }
    else l

abbrev pub write_rune : Lexer → ℕ → Lexer
write_rune l c = record l { token = l.token ++ c ∷ []; started = true }

-- One rune; `none` is the `break` at a comment.
unfoldable pub token_step : Lexer → Option ℕ → ℕ → Option Lexer
unfolding flush
token_step l prev c =
    if l.escaped
    then some (record (write_rune l c) { escaped = false })
    else if c == b'\\' && not l.in_single
    then some (record l { escaped = true; started = true })
    else if c == b'\'' && not l.in_double
    then some (record l { in_single = not l.in_single; started = true })
    else if c == b'"' && not l.in_single
    then some (record l { in_double = not l.in_double; started = true })
    else if not l.in_single && not l.in_double && (c == b'#' || c == b';') && after_blank prev
    then none
    else if not l.in_single && not l.in_double && is_blank c
    then some (flush l)
    else some (write_rune l c)

unfoldable pub token_loop : Lexer → Option ℕ → List ℕ → Lexer
unfolding token_step
token_loop l prev [] = l
token_loop l prev (c ∷ cs) = elim (token_step l prev c) [
  | none ↦ l
  | some m ↦ token_loop m (some c) cs
]

pub data Tokens : Type 0 where
  tokens : List (List ℕ) → Tokens
  dangling_escape unterminated_quote : Tokens

unfoldable pub token_end : Lexer → Tokens
unfolding flush
token_end l =
    if l.escaped
    then dangling_escape
    else if l.in_single || l.in_double
    then unterminated_quote
    else tokens (flush l).tokens

unfoldable pub tokenize : List ℕ → Tokens
unfolding token_loop token_end
tokenize line = token_end (token_loop empty_lexer none line)
