-- ===== src/WireGuard/Sections/Keys.antt =====
-- What the parser guarantees of the assignments in every section.
use mathlib.Core.List.{reverse, reverse-cons}
use tunnelfolio.Prelude.{
  ℕ, ◌+◌, ◌≤◌, Bool, true, false, not, ◌||◌, Option, none, some, List, [], ◌∷◌, ◌++◌, ◌≡◌, subst,
  arith, ltb, ◌==◌, if◌then◌else◌, Bool-cases, inl, inr,
}
use tunnelfolio.Prelude.Lists.{length, All, All-append}
use tunnelfolio.Prelude.Text.{Text, codes, eq_text, eq_text_iff, is_empty}
use tunnelfolio.Prelude.Unicode.{byte_length, trim_space, to_lower, cut_suffix}
use tunnelfolio.Prelude.Net.{cut, split}
use tunnelfolio.Policy.{
  pass, reject, ◌>>=◌, >>=-eq-pass, pass-if, pass-injective, invalid_assignment, invalid_section,
  line_too_long, control_character,
}
use tunnelfolio.OpenVpn.Directives.{has_word}
use tunnelfolio.OpenVpn.Policy.{valid_characters, max_logical_line}
use tunnelfolio.WireGuard.Sections.{
  Kind, interface, peer, Section, Sections, values_of, hook_keys, keys_of, open_section,
  header_line, assign, value_line, content_line, section_line, section_lines, parse_sections,
  without_comment, replace_crlf,
}

abbrev pub is_repeatable : Text → Bool
is_repeatable key = eq_text key (codes "address") || eq_text key (codes "dns")

-- The assignments of a section are to keys of its kind, none of them a hook, with values that are not
-- empty, and only addresses and name servers stand more than once.
pub record HasGoodKeys (s : Section) : Type 0 where
  pub each :
      All
        (λ (kv : Text × Text).
          (has_word (keys_of s.kind) kv.0 ≡ true)
          × (has_word hook_keys kv.0 ≡ false)
          × (is_empty kv.1 ≡ false))
        s.values
  pub once : (key : Text) → is_repeatable key ≡ false → length (values_of s.values key) ≤ 1

values_of-append :
    (vs : List (Text × Text)) (k v key : Text)
    → length (values_of (vs ++ (k, v) ∷ []) key)
      ≡ length (values_of vs key) + (if eq_text k key then 1 else 0)
unfolding values_of
values_of-append [] k v key = ground arith
values_of-append ((j, w) ∷ vs) k v key = ground (arith, values_of-append vs k v key)

-- The guards of an assignment that passed.
record Assigned (s : Section) (key value : Text) : Type 0 where
  filled : is_empty value ≡ false
  not_hook : has_word hook_keys key ≡ false
  known : has_word (keys_of s.kind) key ≡ true
  fresh : is_repeatable key ≡ false → length (values_of s.values key) ≡ 0

abbrev assigned : Section → Text → Text → Section
assigned s key value = record s { values = s.values ++ (key, value) ∷ [] }

assign-Assigned :
    (line : ℕ) (s : Section) (key value : Text) {t : Section}
    → assign line s key value ≡ pass t
    → Assigned s key value × (assigned s key value ≡ t)
unfolding assign
assign-Assigned line s key value h = ground arith

once-append :
    (s : Section) (key value k : Text)
    → HasGoodKeys s
    → Assigned s key value
    → is_repeatable k ≡ false
    → length (values_of (s.values ++ (key, value) ∷ []) k) ≤ 1
once-append s key value k g a single = elim (Bool-cases (eq_text key k)) [
  | inl same ↦
      let none_before =
        subst (λ j. is_repeatable j ≡ false → length (values_of s.values j) ≡ 0)
          ((eq_text_iff key k).0 same) a.fresh single in
      ground (arith, values_of-append s.values key value k, none_before)
  | inr other ↦ ground (arith, values_of-append s.values key value k, g.once k single)
]

assigned-HasGoodKeys :
    (s : Section) (key value : Text)
    → HasGoodKeys s
    → Assigned s key value
    → HasGoodKeys (assigned s key value)
assigned-HasGoodKeys s key value g a = record {
  each = All-append _ s.values ((key, value) ∷ []) g.each ((a.known, a.not_hook, a.filled), tt);
  once = λ k single. once-append s key value k g a single;
}

new_section : Kind → ℕ → Section
new_section kind line = record { kind = kind; line = line; values = [] }

new_section-HasGoodKeys : (kind : Kind) (line : ℕ) → HasGoodKeys (new_section kind line)
unfolding new_section values_of
new_section-HasGoodKeys kind line = record { each = tt; once = λ k single. omega arith }

abbrev AreGood : Sections → Type 0
AreGood = All HasGoodKeys

open_section-AreGood :
    (line : ℕ) (sections : Sections) (kind : Text) {next : Sections}
    → AreGood sections
    → open_section line sections kind ≡ pass next
    → AreGood next
unfolding open_section new_section
open_section-AreGood line [] kind g h =
    ground (arith, new_section-HasGoodKeys interface line, new_section-HasGoodKeys peer line)
open_section-AreGood line (current ∷ before) kind g h =
    ground (arith, new_section-HasGoodKeys peer line)

value_line-AreGood :
    (line : ℕ) (sections : Sections) (text : List ℕ) {next : Sections}
    → AreGood sections
    → value_line line sections text ≡ pass next
    → AreGood next
unfolding value_line
value_line-AreGood line [] text g h = cc
value_line-AreGood line (current ∷ before) text {next} (g, gs) h = go (cut b'=' text) h
  where
    go :
        (parts : Option (Text × Text))
        → (elim parts [
          | none ↦ reject line invalid_assignment
          | some (key, value) ↦
              assign line current (to_lower (trim_space key)) (trim_space value) >>= λ t.
              pass (t ∷ before)
        ])
          ≡ pass next
        → AreGood next
    go none e = cc
    go (some (key, value)) e =
        let k = to_lower (trim_space key) in
        let v = trim_space value in
        let (t, done, last) = >>=-eq-pass (assign line current k v) (λ t. pass (t ∷ before)) e in
        let (a, is) = assign-Assigned line current k v done in
        subst AreGood (pass-injective last)
          (subst HasGoodKeys is (assigned-HasGoodKeys current k v g a), gs)

header_line-AreGood :
    (line : ℕ) (sections : Sections) (rest : List ℕ) {next : Sections}
    → AreGood sections
    → header_line line sections rest ≡ pass next
    → AreGood next
unfolding header_line
header_line-AreGood line sections rest {next} g h = go (cut_suffix rest b']') h
  where
    go :
        (name : Option (List ℕ))
        → (elim name [
          | none ↦ reject line invalid_section
          | some n ↦ open_section line sections (to_lower (trim_space n))
        ])
          ≡ pass next
        → AreGood next
    go none e = cc
    go (some n) e = open_section-AreGood line sections (to_lower (trim_space n)) g e

section_line-AreGood :
    (line : ℕ) (sections : Sections) (raw : List ℕ) {next : Sections}
    → AreGood sections
    → section_line line sections raw ≡ pass next
    → AreGood next
unfolding section_line
section_line-AreGood line sections raw {next} g h = go (trim_space (without_comment raw)) inner
  where
    inner : content_line line sections (trim_space (without_comment raw)) ≡ pass next
    inner =
        (pass-if (not (valid_characters raw)) line control_character _
          (pass-if (ltb max_logical_line (byte_length raw)) line line_too_long _ h).1).1

    bracketed :
        (c : ℕ) (rest : List ℕ) → content_line line sections (c ∷ rest) ≡ pass next → AreGood next
    bracketed c rest e = elim (Bool-cases (c == b'[')) [
      | inl yes_ ↦ header_line-AreGood line sections rest g (rw yes_ at e)
      | inr no_ ↦ value_line-AreGood line sections (c ∷ rest) g (rw no_ at e)
    ]

    go : (text : List ℕ) → content_line line sections text ≡ pass next → AreGood next
    go [] e = subst AreGood (pass-injective e) g
    go (c ∷ rest) e = bracketed c rest e

section_lines-AreGood :
    (lines : List (List ℕ)) (line : ℕ) (sections : Sections) {last : Sections}
    → AreGood sections
    → section_lines line sections lines ≡ pass last
    → AreGood last
unfolding section_lines
section_lines-AreGood [] line sections g h = subst AreGood (pass-injective h) g
section_lines-AreGood (raw ∷ lines) line sections g h =
    let (next, first, rest) =
      >>=-eq-pass (section_line line sections raw) (λ next. section_lines (line + 1) next lines)
        h in
    section_lines-AreGood lines (line + 1) next (section_line-AreGood line sections raw g first)
      rest

All-reverse {ℓ κ} : {A : Type ℓ} (P : A → Type κ) (xs : List A) → All P xs → All P (reverse xs)
All-reverse P [] h = tt
All-reverse P (x ∷ xs) h =
    rw reverse-cons (All-append P (reverse xs) (x ∷ []) (All-reverse P xs h.1) (h.0, tt))

-- Every section that the parser returns has good keys.
pub parse_sections-AreGood :
    (runes : List ℕ) {sections : Sections} → parse_sections runes ≡ pass sections → AreGood sections
unfolding parse_sections
parse_sections-AreGood runes h =
    let lines = split b'\n' (replace_crlf runes) in
    let (last, read, done) = >>=-eq-pass (section_lines 1 [] lines) (λ s. pass (reverse s)) h in
    subst AreGood (pass-injective done)
      (All-reverse HasGoodKeys last (section_lines-AreGood lines 1 [] tt read))
