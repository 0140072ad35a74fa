-- ===== src/Import/Model.antt =====
-- internal/profiles/import.go: the files, the inspection's records and issues, and instants.
use tunnelfolio.Prelude.{
  ℕ, ◌+◌, ◌-◌, ◌%◌, ◌^◌, Bool, true, false, ◌&&◌, ◌||◌, List, ltb, ◌==◌, if◌then◌else◌,
}
use tunnelfolio.Prelude.Text.{Text}
use tunnelfolio.Prelude.Int.{ℤ, pos, negsuc}
use tunnelfolio.Policy.{PolicyCode}
use tunnelfolio.Profiles.Model.{Time}

-- `ImportFile`
pub record ImportFile : Type 0 where
  pub name : Text
  pub bytes : Text
  pub protocol_override : Text

-- The codes of a `PolicyIssue`, which fix its field and its message.
pub data Issue : Type 0 where
  invalid_filename protocol_mismatch unsupported_extension protocol_ambiguous : Issue
  wg_quick_incompatible policy_rejected : Issue
  policy : PolicyCode → Issue

-- `InspectionRecord`; a disposition that is not given yet is the empty text.
pub record InspectionRecord : Type 0 where
  pub ordinal : ℤ
  pub id : Text
  pub protocol : Text
  pub identifier : Text
  pub disposition : Text
  pub issues : List Issue
  pub digest : Text
  pub wireguard_public_key_digest : Text
  pub protocol_override : Text

-- An instant in UTC, by its Unix seconds and the nanoseconds behind them.
pub record Instant : Type 0 where
  pub seconds : ℤ
  pub nanos : ℕ

-- `receiptTTL`, in seconds.
abbrev pub receipt_ttl : ℕ
receipt_ttl = 3600

abbrev pub ltbℤ : ℤ → ℤ → Bool
ltbℤ (pos a) (pos b) = ltb a b
ltbℤ (pos a) (negsuc b) = false
ltbℤ (negsuc a) (pos b) = true
ltbℤ (negsuc a) (negsuc b) = ltb b a

abbrev pub eqℤ : ℤ → ℤ → Bool
eqℤ (pos a) (pos b) = a == b
eqℤ (negsuc a) (negsuc b) = a == b
eqℤ _ _ = false

-- `now.After(expiry)`, for an expiry of whole seconds.
unfoldable pub is_after : Instant → ℤ → Bool
is_after now expiry = ltbℤ expiry now.seconds || eqℤ expiry now.seconds && ltb 0 now.nanos

-- `now.Add(receiptTTL).Truncate(time.Second)`
unfoldable pub expiry_of : Instant → ℤ
expiry_of now = elim (now.seconds) [
  | pos n ↦ pos (n + receipt_ttl)
  | negsuc n ↦ if ltb n receipt_ttl then pos (receipt_ttl - n - 1) else negsuc (n - receipt_ttl)
]

-- The Unix epoch, in seconds since the zero time.
abbrev epoch : ℕ
epoch = 62135596800

-- `now.UTC()` as a time of the model, for the years from 1 on.
unfoldable pub utc_time : Instant → Time
utc_time now = record {
  seconds = elim (now.seconds) [ pos n ↦ epoch + n | negsuc n ↦ epoch - (n + 1) ];
  is_utc = true;
}

-- `uint64(value)` of an int or an int64.
unfoldable pub to_uint64 : ℤ → ℕ
to_uint64 (pos n) = n % 2 ^ 64
to_uint64 (negsuc n) = 2 ^ 64 - 1 - n % 2 ^ 64

abbrev pub receipt_version : ℕ
receipt_version = 1

abbrev pub policy_version : ℕ
policy_version = 1
