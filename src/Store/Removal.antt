-- ===== src/Store/Removal.antt =====
-- internal/profiles/store.go: `Remove` and the quarantine of the object that it leaves.
pub mod Preserve
pub mod Run
use tunnelfolio.Prelude.{
  ℕ, zero, suc, ◌+◌, ◌/◌, ◌%◌, String, Bool, true, false, not, Option, none, some, List, [], ◌∷◌,
  ◌++◌, ltb, if◌then◌else◌,
}
use tunnelfolio.Prelude.Text.{Text, codes, eq_text}
use tunnelfolio.Prelude.Int.{pos}
use tunnelfolio.Prelude.Err.{Err, is_nil, Result, ok, fail, not_found}
use tunnelfolio.Prelude.Exec.{Exec, ◌>>=◌, ◌>>◌, pure, unless_err}
use tunnelfolio.Profiles.Model.{Profile, Manifest, find_profile}
use tunnelfolio.Profiles.Manifest.{validate_manifest}
use tunnelfolio.Store.Host.{Host, FilePath}
use tunnelfolio.Store.State.{
  Store, next_revision, on_host, snapshot, publish_manifest, prepare_mutation,
}
use tunnelfolio.Store.Changes.{remove_id, remove_profile}

-- The decimal text of a revision, which has at most 20 digits.
unfoldable pub digits : ℕ → ℕ → Text → Text
digits zero n tail = tail
digits (suc fuel) n tail =
    let more = digits fuel (n / 10) ((n % 10 + b'0') ∷ tail) in
    if ltb n 10 then (n + b'0') ∷ tail else more

abbrev pub decimal : ℕ → Text
decimal n = digits 20 n []

-- Calls in turn, up to the first error.
unfoldable pub in_turn {ℓ} : {S : Type ℓ} → List (Exec S Err) → Exec S Err
in_turn [] = pure []
in_turn (call ∷ calls) = do e ← call; elim (is_nil e) [ true ↦ in_turn calls | false ↦ pure e ]

-- `errors.Join(first, second)` of two calls.
abbrev pub both {ℓ} : {S : Type ℓ} → Exec S Err → Exec S Err → Exec S Err
both first second = do e ← first; f ← second; pure (e ++ f)

abbrev pub id_err : Err → Err
id_err e = e

abbrev pub library_dir : Text → FilePath
library_dir name = codes "library" ∷ name ∷ []

-- The manifest without the profile and without every mention of it.
unfoldable pub removal_candidate : Text → Manifest → Manifest
removal_candidate id m =
    let desired = eq_text m.desired_profile id in
    next_revision (record m {
      profiles = remove_profile m.profiles id;
      favorites = remove_id m.favorites id;
      recents = remove_id m.recents id;
      desired_profile = if desired then [] else m.desired_profile;
      connected_at = if desired then pos 0 else m.connected_at;
    })

pub record RemovalResult : Type 0 where
  pub profile : Profile
  pub cleanup_error : Err

module _ (H : Host) where
  abbrev garbage_name : ℕ → Profile → Text
  garbage_name revision p = codes "removed-" ++ (decimal revision ++ (codes "-" ++ p.id))

  -- Between the opening and the closing of the two directories.
  abbrev quarantine : FilePath → FilePath → Profile → Text → Exec H.World Err
  quarantine protocol garbage p name = in_turn (
      H.checkpoint "removal_before_quarantine"
      ∷ H.rename_no_replace protocol p.id garbage name
      ∷ H.checkpoint "removal_after_quarantine"
      ∷ both (H.sync protocol) (H.sync garbage)
      ∷ H.checkpoint "removal_after_parent_sync"
      ∷ H.remove_tree_at garbage name
      ∷ H.checkpoint "removal_after_cleanup"
      ∷ H.sync garbage
      ∷ H.checkpoint "removal_after_garbage_sync"
      ∷ [])

  -- `garbageCollectObjectLocked`; the deferred closes run on every path behind their opens.
  unfoldable pub garbage_collect_object : ℕ → Profile → Exec H.World Err
  garbage_collect_object revision p = do
    opened ← H.open_private_dir (library_dir p.protocol)
    unless_err opened id_err do
      garbage ← H.open_private_dir (library_dir (codes ".garbage"))
      result ← unless_err garbage id_err do
        e ←
            quarantine (library_dir p.protocol) (library_dir (codes ".garbage")) p
              (garbage_name revision p)
        H.close (library_dir (codes ".garbage"))
        pure e
      H.close (library_dir p.protocol)
      pure result

  -- What follows the publication: a failed clean-up is reported, not returned.
  abbrev pub collected : Profile → Exec (Store H) (Result RemovalResult)
  collected p = do
    m ← snapshot H
    e ← on_host H (garbage_collect_object m.library_revision p)
    pure (ok (record { profile = p; cleanup_error = e }))

  unfoldable pub remove_found :
      Text → Manifest → Option Profile → Exec (Store H) (Result RemovalResult)
  remove_found id m none = pure (fail (not_found ∷ []))
  remove_found id m (some p) =
      let candidate = removal_candidate id m in
      unless_err (validate_manifest candidate) fail
        do published ← publish_manifest H candidate; unless_err published fail (collected p)

  -- `Remove`
  unfoldable pub remove : Text → Exec (Store H) (Result RemovalResult)
  remove id = do
    prepared ← prepare_mutation H
    unless_err prepared fail do m ← snapshot H; remove_found id m (find_profile m.profiles id)
