-- ===== src/Policy.antt =====
-- internal/profiles/policy.go: `PolicyError`. The message is for people and is left out; the code
-- and the line are what callers read.
use tunnelfolio.Prelude.{ℕ, ◌*◌, ◌≡◌, refl, Bool, true, false, if◌then◌else◌}

pub data PolicyCode : Type 0 where
  invalid_encoding line_too_long control_character nested_inline_block : PolicyCode
  inline_block_too_large unexpected_inline_close unsupported_inline_block : PolicyCode
  duplicate_inline_block invalid_directive unterminated_inline_block dangling_continuation :
      PolicyCode
  missing_client_directive unsafe_directive external_reference unsupported_directive : PolicyCode
  invalid_structure peer_limit invalid_private_key invalid_section unsupported_section : PolicyCode
  duplicate_interface missing_section invalid_assignment executable_hook unsupported_key :
      PolicyCode
  duplicate_key missing_interface_value invalid_address invalid_dns invalid_listen_port : PolicyCode
  invalid_mtu invalid_table missing_peer_value invalid_public_key invalid_preshared_key : PolicyCode
  invalid_allowed_ips invalid_endpoint invalid_keepalive unsupported_protocol : PolicyCode

-- `MaxProfileBytes`
abbrev pub max_profile_bytes : ℕ
max_profile_bytes = 1024 * 1024

-- A check that passes with a value, or a `PolicyError` at a line; line 0 is no line.
pub data Checked {ℓ} (A : Type ℓ) : Type ℓ where
  pass : A → Checked A
  reject : ℕ → PolicyCode → Checked A

infixl 5 ◌>>=◌
abbrev pub ◌>>=◌ {ℓ κ} : {A : Type ℓ} {B : Type κ} → Checked A → (A → Checked B) → Checked B
pass a >>= f = f a
reject line code >>= f = reject line code

pub >>=-eq-pass {ℓ κ} :
    {A : Type ℓ} {B : Type κ} (m : Checked A) (f : A → Checked B) {b : B}
    → (m >>= f) ≡ pass b
    → (a : A) × (m ≡ pass a) × (f a ≡ pass b)
>>=-eq-pass (pass a) f h = (a, refl, h)
>>=-eq-pass (reject line code) f h = cc

pub pass-injective {ℓ} : {A : Type ℓ} {a b : A} → pass a ≡ pass b → a ≡ b
pass-injective h = cc

-- A guard that passed was not taken.
pub pass-if {ℓ} :
    {A : Type ℓ} (b : Bool) (line : ℕ) (code : PolicyCode) (m : Checked A) {a : A}
    → (if b then reject line code else m) ≡ pass a
    → (b ≡ false) × (m ≡ pass a)
pass-if true line code m h = cc
pass-if false line code m h = (refl, h)
