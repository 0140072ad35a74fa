-- ===== src/OpenVpn/Policy/Accepted.antt =====
-- What every accepted OpenVPN file satisfies, against a reading of the file that checks nothing: the
-- complete logical lines outside inline blocks.
use tunnelfolio.Prelude.{
  ℕ, ◌+◌, ◌≤◌, Bool, true, false, not, ◌||◌, Option, none, some, List, [], ◌∷◌, ◌++◌, ◌≡◌, ◌⊎◌, inl,
  inr, subst, refl, arith, ltb, if◌then◌else◌, Bool-cases,
}
use tunnelfolio.Prelude.Lists.{length, All, All-append}
use tunnelfolio.Prelude.Text.{Text, codes, eq_text, is_empty, is_empty→nil}
use tunnelfolio.Prelude.Unicode.{
  decode, byte_length, trim_space, trim_suffix, has_prefix, equal_fold,
}
use tunnelfolio.Policy.{
  max_profile_bytes, pass, >>=-eq-pass, pass-injective, pass-if, line_too_long, control_character,
  invalid_encoding,
}
use tunnelfolio.OpenVpn.Lines.{Fragment, fragment, unterminated_quote, continuation}
use tunnelfolio.OpenVpn.Tokens.{Tokens, tokenize}
use tunnelfolio.OpenVpn.Directives.{
  inline_blocks, allowed_directives, denied_directives, has_word, bounds_of,
}
use tunnelfolio.OpenVpn.Policy.{
  Delimiter, no_delimiter, opening, closing, Walk, start_walk, split_lines, block_delimiter,
  valid_characters, block_line, open_block, see, directive_line, outside_line, walk_line, walk,
  finish, directive_name, is_inline_marker, check_bounds, check_directive, check_tokens,
  validate_directive, validate_runes, validate_openvpn_import, max_logical_line,
}

-- What one line leaves: the open inline block, the logical line begun, and the one completed.
pub record Reading : Type 0 where
  pub block : List ℕ
  pub logical : List ℕ
  pub complete : List (List ℕ)

read_fragment : List ℕ → Fragment → Reading
read_fragment logical unterminated_quote = record { block = []; logical = logical; complete = [] }
read_fragment logical (fragment true text) = record {
  block = [];
  logical = logical ++ text;
  complete = [];
}
read_fragment logical (fragment false text) = record {
  block = [];
  logical = [];
  complete = (logical ++ text) ∷ [];
}

read_outside : List ℕ → List ℕ → Delimiter → Reading
unfolding read_fragment
read_outside logical physical (closing _) = record { block = []; logical = logical; complete = [] }
read_outside logical physical (opening name) = record {
  block = name;
  logical = logical;
  complete = [];
}
read_outside logical physical no_delimiter = read_fragment logical (continuation physical)

closes : List ℕ → List ℕ → Bool
closes block physical = equal_fold (trim_space physical) (codes "</" ++ (block ++ codes ">"))

-- One line, read with no check.
pub read_line : List ℕ → List ℕ → List ℕ → Reading
unfolding read_outside closes
read_line block logical chunk =
    let physical = trim_suffix chunk b'\r' in
    if is_empty block
    then read_outside logical physical (block_delimiter (trim_space physical))
    else record {
      block = if closes block physical then [] else block;
      logical = logical;
      complete = [];
    }

-- The complete logical lines outside inline blocks.
pub logical_lines : List ℕ → List ℕ → List (List ℕ) → List (List ℕ)
logical_lines block logical [] = []
logical_lines block logical (chunk ∷ chunks) =
    let r = read_line block logical chunk in r.complete ++ logical_lines r.block r.logical chunks

-- The count lies in the range of a table's entry.
abbrev pub IsWithin : ℕ → Option (ℕ × ℕ) → Type 0
IsWithin count none = ⊥
IsWithin count (some (low, high)) = (low ≤ count) × (count ≤ high)

-- The directive may be imported with these arguments.
pub record IsAllowed (directive : List ℕ) (arguments : List (List ℕ)) : Type 0 where
  pub not_denied : has_word denied_directives directive ≡ false
  pub not_management : has_prefix directive (codes "management-") ≡ false
  pub in_table :
      ((has_word inline_blocks directive ≡ true) × (is_inline_marker arguments ≡ true))
      ⊎ IsWithin (length arguments) (bounds_of allowed_directives directive)

abbrev pub IsImportable : Tokens → Type 0
IsImportable (Tokens.tokens []) = Unit
IsImportable (Tokens.tokens (first ∷ arguments)) = IsAllowed (directive_name first) arguments
IsImportable _ = ⊥

-- The line's directive, or the empty name.
abbrev pub named_directive : Tokens → List ℕ
named_directive (Tokens.tokens (first ∷ _)) = directive_name first
named_directive _ = []

-- Some line has a directive that passes the test.
abbrev pub Some : (List ℕ → Bool) → List (List ℕ) → Type 0
Some p [] = ⊥
Some p (line ∷ lines) = (p (named_directive (tokenize line)) ≡ true) ⊎ Some p lines

abbrev pub is_client : List ℕ → Bool
is_client directive = eq_text directive (codes "client") || eq_text directive (codes "tls-client")

abbrev pub is_remote : List ℕ → Bool
is_remote directive = eq_text directive (codes "remote")

Some-append :
    (p : List ℕ → Bool) (xs ys : List (List ℕ)) → Some p xs ⊎ Some p ys → Some p (xs ++ ys)
Some-append p [] ys (inl h) = absurd h
Some-append p [] ys (inr h) = h
Some-append p (x ∷ xs) ys (inl (inl h)) = inl h
Some-append p (x ∷ xs) ys (inl (inr h)) = inr (Some-append p xs ys (inl h))
Some-append p (x ∷ xs) ys (inr h) = inr (Some-append p xs ys (inr h))

-- A flag that is set at the end was set before or is set by one of the lines.
abbrev Explains : (List ℕ → Bool) → Bool → Bool → List (List ℕ) → Type 0
Explains p before after lines = after ≡ true → (before ≡ true) ⊎ Some p lines

Explains-append :
    (p : List ℕ → Bool) (b c d : Bool) (xs ys : List (List ℕ))
    → Explains p b c xs
    → Explains p c d ys
    → Explains p b d (xs ++ ys)
Explains-append p b c d xs ys h k set = elim (k set) [
  | inr later ↦ inr (Some-append p xs ys (inr later))
  | inl middle ↦ elim (h middle) [
    | inl early ↦ inl early
    | inr here ↦ inr (Some-append p xs ys (inl here))
  ]
]

check_bounds-IsWithin :
    (line : ℕ) (directive : List ℕ) (count : ℕ) (bounds : Option (ℕ × ℕ)) {d : List ℕ}
    → check_bounds line directive count bounds ≡ pass d
    → IsWithin count bounds × (d ≡ directive)
unfolding check_bounds
check_bounds-IsWithin line directive count none h = cc
check_bounds-IsWithin line directive count (some (low, high)) h = ground arith

check_directive-IsAllowed :
    (line : ℕ) (directive : List ℕ) (arguments : List (List ℕ)) {d : List ℕ}
    → check_directive line directive arguments ≡ pass d
    → IsAllowed directive arguments × (d ≡ directive)
unfolding check_directive
check_directive-IsAllowed line directive arguments {d} h = ground (
  arith,
  check_bounds-IsWithin line directive (length arguments) (bounds_of allowed_directives directive)
      {d = d},
)

validate_directive-IsImportable :
    (line : ℕ) (logical : List ℕ) {d : List ℕ}
    → validate_directive line logical ≡ pass d
    → IsImportable (tokenize logical) × (d ≡ named_directive (tokenize logical))
unfolding validate_directive
validate_directive-IsImportable line logical h = go (tokenize logical) h
  where
    go :
        (t : Tokens) {d : List ℕ}
        → check_tokens line t ≡ pass d
        → IsImportable t × (d ≡ named_directive t)
    go (Tokens.tokens []) e = ground arith
    go (Tokens.tokens (first ∷ arguments)) e =
        check_directive-IsAllowed line (directive_name first) arguments e
    go Tokens.dangling_escape e = cc
    go Tokens.unterminated_quote e = cc

-- What a line that passes leaves, and what it proves of the line that it completes.
record Agrees (client_before remote_before : Bool) (v : Walk) (r : Reading) : Type 0 where
  block : v.block ≡ r.block
  logical : v.logical ≡ r.logical
  importable : All (λ l. IsImportable (tokenize l)) r.complete
  client : Explains is_client client_before v.seen_client r.complete
  remote : Explains is_remote remote_before v.seen_remote r.complete

see-Agrees :
    (w : Walk) (logical d : List ℕ)
    → w.block ≡ []
    → IsImportable (tokenize logical) × (d ≡ named_directive (tokenize logical))
    → Agrees w.seen_client w.seen_remote
        (see w d)
        (record { block = []; logical = []; complete = logical ∷ [] })
see-Agrees w logical d b (ok, is) = record {
  block = b;
  logical = refl;
  importable = (ok, tt);
  client = λ h. rw (← is) (ground arith);
  remote = λ h. rw (← is) (ground arith);
}

directive_line-Agrees :
    (w : Walk) (f : Fragment) {v : Walk}
    → w.block ≡ []
    → directive_line w f ≡ pass v
    → Agrees w.seen_client w.seen_remote v (read_fragment w.logical f)
unfolding directive_line read_fragment
directive_line-Agrees w unterminated_quote b h = cc
directive_line-Agrees w (fragment true text) b h = ground arith
directive_line-Agrees w (fragment false text) {v} b h =
    elim (Bool-cases (ltb max_logical_line (byte_length (w.logical ++ text)))) [
      | inl long ↦ cc (rw long at h)
      | inr short ↦
          let checked = validate_directive w.line_number (w.logical ++ text) in
          let (d, e, last) = >>=-eq-pass checked (λ d. pass (see w d)) (rw short at h) in
          subst
            (λ u.
              Agrees w.seen_client w.seen_remote u
                (record { block = []; logical = []; complete = (w.logical ++ text) ∷ [] }))
            (pass-injective last)
            (see-Agrees w (w.logical ++ text) d b
              (validate_directive-IsImportable w.line_number (w.logical ++ text) e))
    ]

outside_line-Agrees :
    (w : Walk) (physical : List ℕ) (d : Delimiter) {v : Walk}
    → w.block ≡ []
    → outside_line w physical d ≡ pass v
    → Agrees w.seen_client w.seen_remote v (read_outside w.logical physical d)
unfolding outside_line read_outside
outside_line-Agrees w physical (closing name) b h = cc
outside_line-Agrees w physical (opening name) b h = unfold open_block in ground arith
outside_line-Agrees w physical no_delimiter b h =
    directive_line-Agrees w (continuation physical) b h

block_line-Agrees :
    (w : Walk) (physical : List ℕ) {v : Walk}
    → block_line w physical ≡ pass v
    → Agrees w.seen_client w.seen_remote v (record {
      block = if closes w.block physical then [] else w.block;
      logical = w.logical;
      complete = [];
    })
unfolding block_line closes
block_line-Agrees w physical h = ground arith

walk_line-Agrees :
    (w : Walk) (chunk : List ℕ) {v : Walk}
    → walk_line w chunk ≡ pass v
    → Agrees w.seen_client w.seen_remote v (read_line w.block w.logical chunk)
unfolding walk_line read_line
walk_line-Agrees w chunk {v} h = elim (Bool-cases (is_empty w.block)) [
  | inl none_open ↦ rw none_open (
      outside_line-Agrees counted physical (block_delimiter (trim_space physical))
        (is_empty→nil w.block none_open) (rw none_open at inner))
  | inr open_ ↦ rw open_ (block_line-Agrees counted physical (rw open_ at inner))
]
  where
    counted : Walk
    counted = record w { line_number = w.line_number + 1 }

    physical : List ℕ
    physical = trim_suffix chunk b'\r'

    inner :
        (if not (is_empty w.block)
          then block_line counted physical
          else outside_line counted physical (block_delimiter (trim_space physical)))
        ≡ pass v
    inner =
        (pass-if (not (valid_characters physical)) (w.line_number + 1) control_character _
          (pass-if (ltb max_logical_line (byte_length physical)) (w.line_number + 1) line_too_long _
            h).1).1

walk-Agrees :
    (lines : List (List ℕ)) (w : Walk) {v : Walk}
    → walk w lines ≡ pass v
    → All (λ l. IsImportable (tokenize l)) (logical_lines w.block w.logical lines)
      × Explains is_client w.seen_client v.seen_client (logical_lines w.block w.logical lines)
      × Explains is_remote w.seen_remote v.seen_remote (logical_lines w.block w.logical lines)
unfolding walk logical_lines
walk-Agrees [] w h = ground arith
walk-Agrees (line ∷ lines) w {v} h =
    let (next, first, rest) = >>=-eq-pass (walk_line w line) (λ next. walk next lines) h in
    let a = walk_line-Agrees w line first in
    let done = (read_line w.block w.logical line).complete in
    let later = logical_lines next.block next.logical lines in
    let (ok, client, remote) = walk-Agrees lines next rest in
    rw (← a.block, ← a.logical)
      (
        All-append (λ l. IsImportable (tokenize l)) done later a.importable ok,
        Explains-append is_client w.seen_client next.seen_client v.seen_client done later a.client
            client,
        Explains-append is_remote w.seen_remote next.seen_remote v.seen_remote done later a.remote
            remote,
      )

finish-Checks : (w : Walk) → finish w ≡ pass tt → (w.seen_client ≡ true) × (w.seen_remote ≡ true)
unfolding finish
finish-Checks w h = ground arith

-- What an accepted file satisfies: each logical line outside inline blocks is blank or has a
-- directive that may be imported with its arguments, and some line asks for client mode and some
-- line names a remote.
pub record IsClientProfile (lines : List (List ℕ)) : Type 0 where
  pub importable : All (λ l. IsImportable (tokenize l)) lines
  pub client : Some is_client lines
  pub remote : Some is_remote lines

-- A file that `ValidateOpenVPNImport` accepts is valid UTF-8, every logical line outside the inline
-- blocks is blank or an allowed directive with an allowed number of arguments, and there is a client
-- and a remote directive.
pub validate_openvpn_import-IsClientProfile :
    (bytes : Text)
    → validate_openvpn_import bytes ≡ pass tt
    → (runes : List ℕ) × (decode bytes ≡ some runes)
      × IsClientProfile (logical_lines [] [] (split_lines runes))
unfolding validate_openvpn_import
validate_openvpn_import-IsClientProfile bytes h =
    go (decode bytes)
      (pass-if (is_empty bytes || ltb max_profile_bytes (length bytes)) 0 invalid_encoding _ h).1
  where
    go :
        (decoded : Option (List ℕ))
        → validate_runes decoded ≡ pass tt
        → (runes : List ℕ) × (decoded ≡ some runes)
          × IsClientProfile (logical_lines [] [] (split_lines runes))
    go none e = cc
    go (some runes) e =
        let (w, walked, ended) = >>=-eq-pass (walk start_walk (split_lines runes)) finish e in
        let (ok, client, remote) = walk-Agrees (split_lines runes) start_walk walked in
        let (c, r) = finish-Checks w ended in
        (
          runes,
          refl,
          record {
            importable = ok;
            client = elim (client c) [ inl e ↦ cc | inr s ↦ s ];
            remote = elim (remote r) [ inl e ↦ cc | inr s ↦ s ];
          },
        )
