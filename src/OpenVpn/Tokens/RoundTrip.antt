-- ===== src/OpenVpn/Tokens/RoundTrip.antt =====
-- The tokenizer reads back every list of tokens that is written in double quotes.
use mathlib.Core.List.{append-nil, append_assoc}
use tunnelfolio.Prelude.{
  ℕ, true, ◌||◌, Option, none, some, List, [], ◌∷◌, ◌++◌, ◌≡◌, ap, ◌∙◌, arith, ◌==◌, if◌then◌else◌,
}
use tunnelfolio.OpenVpn.Tokens.{Lexer, empty_lexer, token_loop, token_end, tokenize, tokens}

-- A rune inside double quotes: the quote and the backslash are escaped.
escape_rune : ℕ → List ℕ
escape_rune c = if c == b'"' || c == b'\\' then b'\\' ∷ c ∷ [] else c ∷ []

pub escape : List ℕ → List ℕ
unfolding escape_rune
escape [] = []
escape (c ∷ cs) = escape_rune c ++ escape cs

pub quote : List ℕ → List ℕ
unfolding escape
quote token = b'"' ∷ (escape token ++ b'"' ∷ [])

-- The tokens in double quotes, a space behind each.
pub render : List (List ℕ) → List ℕ
unfolding quote
render [] = []
render (token ∷ rest) = quote token ++ b' ' ∷ render rest

-- The rune in front of what follows `text`.
abbrev last : Option ℕ → List ℕ → Option ℕ
last prev [] = prev
last prev (c ∷ cs) = last (some c) cs

-- Between two tokens.
abbrev between : List (List ℕ) → Lexer
between ts = record empty_lexer { tokens = ts }

-- Inside double quotes, with this much of the token read.
abbrev quoted : List (List ℕ) → List ℕ → Lexer
quoted ts token = record empty_lexer {
  tokens = ts;
  token = token;
  in_double = true;
  started = true;
}

loop-escape_rune :
    (ts : List (List ℕ)) (token : List ℕ) (prev : Option ℕ) (c : ℕ) (rest : List ℕ)
    → token_loop (quoted ts token) prev (escape_rune c ++ rest)
      ≡ token_loop (quoted ts (token ++ c ∷ [])) (some c) rest
unfolding token_loop escape_rune
loop-escape_rune ts token prev c rest = ground arith

loop-escape :
    (ts : List (List ℕ)) (t token : List ℕ) (prev : Option ℕ) (rest : List ℕ)
    → token_loop (quoted ts token) prev (escape t ++ rest)
      ≡ token_loop (quoted ts (token ++ t)) (last prev t) rest
unfolding escape
loop-escape ts [] token prev rest = rw append-nil
loop-escape ts (c ∷ cs) token prev rest = rw append_assoc (
    loop-escape_rune ts token prev c (escape cs ++ rest)
    ∙ loop-escape ts cs (token ++ c ∷ []) (some c) rest
    ∙ rw append_assoc)

loop-quote :
    (ts : List (List ℕ)) (t : List ℕ) (prev : Option ℕ) (rest : List ℕ)
    → token_loop (between ts) prev (quote t ++ b' ' ∷ rest)
      ≡ token_loop (between (ts ++ t ∷ [])) (some b' ') rest
unfolding quote token_loop
loop-quote ts t prev rest = rw append_assoc (loop-escape ts t [] (some b'"') (b'"' ∷ b' ' ∷ rest))

loop-render :
    (us ts : List (List ℕ)) (prev : Option ℕ)
    → token_end (token_loop (between ts) prev (render us)) ≡ tokens (ts ++ us)
unfolding render
loop-render [] ts prev = unfold token_loop token_end in rw append-nil
loop-render (u ∷ us) ts prev =
    ap token_end (loop-quote ts u prev (render us))
    ∙ loop-render us (ts ++ u ∷ []) (some b' ')
    ∙ rw append_assoc

-- Tokens written in double quotes, with the quote and the backslash escaped, are read back as they
-- were.
pub tokenize-render : (ts : List (List ℕ)) → tokenize (render ts) ≡ tokens ts
unfolding tokenize
tokenize-render ts = loop-render ts [] none
