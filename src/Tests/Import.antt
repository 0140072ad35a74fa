-- ===== src/Tests/Import.antt =====
-- Instances of the import's theorems, and runs of an inspection and of its commit.
use tunnelfolio.Prelude.{
  ℕ, zero, suc, Bool, true, false, Option, none, some, List, [], ◌∷◌, ◌++◌, ◌≡◌, ◌≢◌, ◌↔◌, inl, inr,
  refl, arith,
}
use tunnelfolio.Prelude.Text.{Text, codes, eq_text}
use tunnelfolio.Prelude.Int.{pos}
use tunnelfolio.Prelude.Err.{is_nil, ok}
use tunnelfolio.Prelude.Exec.{Post}
use tunnelfolio.Profiles.Model.{Profile, Manifest, Metadata, validate_profile, find_profile}
use tunnelfolio.Profiles.Manifest.{validate_manifest}
use tunnelfolio.Policy.{pass}
use tunnelfolio.Profiles.Import.{validate_imported_profile}
use tunnelfolio.Profiles.Id.{runtime_identifier}
use tunnelfolio.Store.State.{Store}
use tunnelfolio.Store.Calm.{Calm}
use tunnelfolio.Store.Staging.{NewObject}
use tunnelfolio.Store.Publish.{publish}
use tunnelfolio.Store.Publish.Run.{Publication, publish-Publication}
use tunnelfolio.Store.Publish.Appended.{with_objects, IsImportable}
use tunnelfolio.Store.Publish.Succeeds.{Succeeds, publish-Succeeds}
use tunnelfolio.Import.Model.{ImportFile, InspectionRecord, Instant}
use tunnelfolio.Import.Detect.{validate_import_envelope, detect_protocol}
use tunnelfolio.Import.Detect.Limits.{IsEnvelope, validate_import_envelope_iff}
use tunnelfolio.Import.Detect.Known.{IsDetection, detect_protocol-IsDetection}
use tunnelfolio.Import.Receipt.{sign_with, decode_receipt}
use tunnelfolio.Import.Receipt.Bound.{canonical_receipt_input-injective, AllSameBound, IsMachine}
use tunnelfolio.Import.Receipt.RoundTrip.{
  IsReceipt, decode_receipt-sign_with, decode_receipt-IsReceipt,
}
use tunnelfolio.Import.Service.{Collaborators, ImportService, generate_identity}
use tunnelfolio.Import.Service.Identity.{IsIdentity, generate_identity-IsIdentity}
use tunnelfolio.Import.Inspect.{inspect, inspect_files, known_of}
use tunnelfolio.Import.Inspect.Ready.{FilesOutcome, inspect_files-FilesOutcome}
use tunnelfolio.Import.Inspect.Outcome.{Inspected, inspect-Inspected}
use tunnelfolio.Import.Commit.{ImportResult, commit, exact_replay}
use tunnelfolio.Import.Plan.{CommitRequest}
use tunnelfolio.Import.Commit.Replayed.{IsReplay, exact_replay-IsReplay}
use tunnelfolio.Import.Commit.Outcome.{Committed, commit-Committed}
use tunnelfolio.Tests.Library.{
  home, home_id, library, machine, openvpn_file, platform, store, zeros,
}

abbrev tls_file : Text
tls_file = codes "client\nremote vpn.example.org 443\n"

abbrev files : List ImportFile
files = record { name = codes "work.OVPN"; bytes = tls_file; protocol_override = [] } ∷ []

abbrev ones : ℕ → Text
ones zero = []
ones (suc n) = 1 ∷ ones n

abbrev clock : Instant
clock = record { seconds = pos 1700000000; nanos = 5 }

abbrev collaborators : Collaborators machine
collaborators = record {
  sha256 = λ t. ones 32;
  hmac = λ key t. ones 32;
  now = λ w. (clock, w);
  check_wireguard = λ t w. ([], w);
  runtime_name_available = some (λ n w. ((true, []), w));
  commit_admission = some (λ w. ((true, []), w));
  release_admission = λ w. (tt, w);
}

abbrev service : ImportService machine
service = record { gate_free = true; key = ones 32; store = store }

abbrev empty_store : Store machine
empty_store = record store {
  manifest = record library { profiles = []; favorites = []; recents = []; desired_profile = [] };
}

abbrev object : NewObject
object = record { profile = home; bytes = openvpn_file }

machine-Calm : Calm machine
machine-Calm = record {
  writable = refl;
  open_private_dir = λ p w. record { holds = refl };
  close = λ p w. record { holds = refl };
  sync = λ p w. record { holds = refl };
  mkdir_exclusive = λ p name w. record { holds = refl };
  write_exclusive = λ p name bytes w. record { holds = refl };
  rename_no_replace = λ p name q other w. record { holds = refl };
  remove_tree_at = λ p name w. record { holds = refl };
  write_json_atomic = λ m w. record { holds = (refl, refl) };
  random = λ w. record { holds = refl };
  checkpoint = λ name w. record { holds = refl };
}

openvpn_file-accepted : validate_imported_profile platform (codes "openvpn") openvpn_file ≡ pass []
unfolding tunnelfolio.OpenVpn.Directives.inline_blocks
    tunnelfolio.OpenVpn.Directives.allowed_directives
    tunnelfolio.OpenVpn.Directives.denied_directives tunnelfolio.OpenVpn.Directives.has_word
    tunnelfolio.OpenVpn.Directives.bounds_of tunnelfolio.OpenVpn.Lines.scan_step
    tunnelfolio.OpenVpn.Lines.scan tunnelfolio.OpenVpn.Lines.ends_escaped
    tunnelfolio.OpenVpn.Lines.join_or_end tunnelfolio.OpenVpn.Lines.continuation
    tunnelfolio.OpenVpn.Policy.split_lines tunnelfolio.OpenVpn.Policy.valid_characters
    tunnelfolio.OpenVpn.Policy.block_delimiter tunnelfolio.OpenVpn.Policy.check_bounds
    tunnelfolio.OpenVpn.Policy.check_directive tunnelfolio.OpenVpn.Policy.validate_directive
    tunnelfolio.OpenVpn.Policy.start_walk tunnelfolio.OpenVpn.Policy.block_line
    tunnelfolio.OpenVpn.Policy.open_block tunnelfolio.OpenVpn.Policy.directive_line
    tunnelfolio.OpenVpn.Policy.outside_line tunnelfolio.OpenVpn.Policy.walk_line
    tunnelfolio.OpenVpn.Policy.walk tunnelfolio.OpenVpn.Policy.finish
    tunnelfolio.OpenVpn.Policy.validate_openvpn_import tunnelfolio.OpenVpn.Tokens.flush
    tunnelfolio.OpenVpn.Tokens.token_step tunnelfolio.OpenVpn.Tokens.token_loop
    tunnelfolio.OpenVpn.Tokens.token_end tunnelfolio.OpenVpn.Tokens.tokenize
    tunnelfolio.Prelude.Unicode.decode tunnelfolio.Prelude.Unicode.byte_length
    tunnelfolio.Prelude.Unicode.is_control tunnelfolio.Prelude.Unicode.is_space
    tunnelfolio.Prelude.Unicode.trim_left tunnelfolio.Prelude.Unicode.trim_right
    tunnelfolio.Prelude.Unicode.trim_space tunnelfolio.Prelude.Unicode.has_prefix
    tunnelfolio.Prelude.Unicode.cut_suffix tunnelfolio.Prelude.Unicode.trim_suffix
    tunnelfolio.Prelude.Unicode.lower tunnelfolio.Prelude.Unicode.to_lower
    tunnelfolio.Prelude.Unicode.fold tunnelfolio.Prelude.Unicode.equal_fold
    tunnelfolio.Prelude.Text.eq_text tunnelfolio.Prelude.Text.contains
    tunnelfolio.Profiles.Import.validate_imported_profile
openvpn_file-accepted = refl

home-valid : validate_profile home ≡ []
unfolding validate_manifest tunnelfolio.Prelude.Text.eq_text
    tunnelfolio.Profiles.Model.validate_profile tunnelfolio.Profiles.Model.id_pattern
    tunnelfolio.Profiles.Model.valid_protocol tunnelfolio.Profiles.Model.validate_metadata
    tunnelfolio.Profiles.Model.validate_text tunnelfolio.Prelude.Unicode.decode
    tunnelfolio.Prelude.Unicode.trim_space tunnelfolio.Prelude.Unicode.is_control
    tunnelfolio.Profiles.Model.identifier_pattern
    tunnelfolio.Profiles.Model.validate_original_filename tunnelfolio.Profiles.Model.valid_sha256
    tunnelfolio.Prelude.Text.contains tunnelfolio.Profiles.Manifest.profile_ids
home-valid = refl

object-IsImportable : IsImportable platform object
object-IsImportable = record {
  full = refl;
  fits = omega arith;
  valid = home-valid;
  fingerprint = refl;
  accepted = openvpn_file-accepted;
}

with-valid : validate_manifest (with_objects empty_store.manifest (object ∷ [])) ≡ []
unfolding validate_manifest tunnelfolio.Prelude.Text.eq_text
    tunnelfolio.Profiles.Model.validate_profile tunnelfolio.Profiles.Model.id_pattern
    tunnelfolio.Profiles.Model.valid_protocol tunnelfolio.Profiles.Model.validate_metadata
    tunnelfolio.Profiles.Model.validate_text tunnelfolio.Prelude.Unicode.decode
    tunnelfolio.Prelude.Unicode.trim_space tunnelfolio.Prelude.Unicode.is_control
    tunnelfolio.Profiles.Model.identifier_pattern
    tunnelfolio.Profiles.Model.validate_original_filename tunnelfolio.Profiles.Model.valid_sha256
    tunnelfolio.Prelude.Text.contains tunnelfolio.Profiles.Manifest.profile_ids
with-valid = refl

objects-ne : (object ∷ []) ≢ []
objects-ne = λ e. cc

publish-Succeeds_example :
    Post
      (publish machine 7 (object ∷ []))
      (Succeeds machine machine-Calm empty_store (object ∷ []))
      empty_store
publish-Succeeds_example =
    publish-Succeeds machine machine-Calm empty_store (object ∷ []) (object-IsImportable, tt)
      with-valid objects-ne refl

publish_example :
    Post
      (publish machine 7 (object ∷ []))
      (Publication machine empty_store 7 (object ∷ []))
      empty_store
publish_example = publish-Publication machine empty_store 7 (object ∷ [])

inspect_example : Post (inspect collaborators files) (Inspected collaborators service files) service
inspect_example = inspect-Inspected collaborators service files

inspect_files_example :
    Post
      (inspect_files collaborators 0 (known_of library) files)
      (λ o v. FilesOutcome 0 (known_of library) files o)
      tt
inspect_files_example = inspect_files-FilesOutcome collaborators 0 (known_of library) files tt

generate_identity_example :
    Post
      (generate_identity collaborators (codes "wireguard") [])
      (λ r v. IsIdentity collaborators (codes "wireguard") [] r)
      tt
generate_identity_example = generate_identity-IsIdentity collaborators (codes "wireguard") [] tt

validate_import_envelope_example :
    (is_nil (validate_import_envelope files) ≡ true) ↔ IsEnvelope files
validate_import_envelope_example = validate_import_envelope_iff files

abbrev unnamed_file : ImportFile
unnamed_file = record { name = codes "a.conf"; bytes = tls_file; protocol_override = [] }

detect_protocol_example : IsDetection platform unnamed_file (detect_protocol platform unnamed_file)
detect_protocol_example = detect_protocol-IsDetection platform unnamed_file (inl refl)

decode_receipt-sign_with_example :
    decode_receipt (sign_with (pos 1700003600) (ones 32)) ≡ ok (pos 1700003600, ones 32)
decode_receipt-sign_with_example =
    decode_receipt-sign_with 1700003600 (ones 32) (omega arith) (omega arith) refl

decode_receipt-IsReceipt_example :
    IsReceipt (sign_with (pos 1700003600) (ones 32)) (pos 1700003600) (ones 32)
decode_receipt-IsReceipt_example =
    decode_receipt-IsReceipt (sign_with (pos 1700003600) (ones 32)) decode_receipt-sign_with_example

abbrev entry : InspectionRecord
entry = record {
  ordinal = pos 0;
  id = home_id;
  protocol = codes "openvpn";
  identifier = runtime_identifier (ones 32);
  disposition = codes "new";
  issues = [];
  digest = zeros 64;
  wireguard_public_key_digest = [];
  protocol_override = [];
}

abbrev request : CommitRequest
request = record {
  files = files;
  library_revision = 7;
  inspection_records = entry ∷ [];
  metadata =
      (
        pos 0,
        record { display_name = codes "Work"; group = codes "Office"; location = []; emoji = [] },
      )
      ∷ [];
  receipt = sign_with (pos 1700003600) (ones 32);
  trust_profile_policy = true;
}

abbrev empty_service : ImportService machine
empty_service = record service { store = empty_store }

commit_example :
    Post
      (commit collaborators request)
      (Committed collaborators empty_service request)
      empty_service
commit_example = commit-Committed collaborators empty_service request

entry-IsMachine : IsMachine entry
unfolding runtime_identifier
entry-IsMachine = record { ordinal = omega arith; texts = omega arith }

canonical_receipt_input-injective_example :
    (library.library_revision ≡ 7)
    × (pos 1700003600 ≡ pos 1700003600)
    × AllSameBound (entry ∷ []) (entry ∷ [])
canonical_receipt_input-injective_example =
    canonical_receipt_input-injective 7 7 (pos 1700003600) (pos 1700003600) (entry ∷ [])
      (entry ∷ []) (omega arith) (omega arith) (omega arith) (omega arith) (omega arith)
      (omega arith) (entry-IsMachine, tt) (entry-IsMachine, tt) refl

abbrev home_entry : InspectionRecord
home_entry = record entry { identifier = home.identifier }

abbrev replay_results : List ImportResult
replay_results = record { ordinal = 0; result = codes "already_imported"; profile = home } ∷ []

home-replayed : exact_replay library.profiles 0 (home_entry ∷ []) ≡ some replay_results
unfolding exact_replay find_profile eq_text
home-replayed = refl

exact_replay-IsReplay_example : IsReplay library.profiles 0 (home_entry ∷ []) replay_results
exact_replay-IsReplay_example =
    exact_replay-IsReplay library.profiles 0 (home_entry ∷ []) home-replayed
