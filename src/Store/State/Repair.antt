-- ===== src/Store/State/Repair.antt =====
-- internal/profiles/store.go: what a repair leaves in memory, and what it has done to the files.
use tunnelfolio.Prelude.{true, false, not, [], ◌∷◌, ◌≡◌, refl, ◌∙◌, sym, ap, arith, from_false}
use tunnelfolio.Prelude.Err.{Err, is_nil, is_err, is_err-cons_self, outcome_ambiguous}
use tunnelfolio.Prelude.Exec.{Post, Post-pure, Post-get, Post-if, Post-unless, Post-modify}
use tunnelfolio.Profiles.Manifest.{validate_manifest}
use tunnelfolio.Store.Host.{Host}
use tunnelfolio.Store.Objects.{validate_referenced_objects}
use tunnelfolio.Store.State.{
  Store, repair_durability, manifest_path, root, Post-host, Post-host_seen,
}

-- The manifest in memory is one that `ValidateManifest` accepts.
abbrev pub IsSound : {H : Host} → Store H → Type 0
IsSound s = validate_manifest s.manifest ≡ []

-- Nothing in memory has changed.
pub record SameMemory {H : Host} (s t : Store H) : Type 0 where
  pub manifest : t.manifest ≡ s.manifest
  pub unknown : t.durability_unknown ≡ s.durability_unknown

pub SameMemory-refl : {H : Host} (s : Store H) → SameMemory s s
SameMemory-refl s = record { manifest = refl; unknown = refl }

pub SameMemory-world :
    {H : Host} (s : Store H) (w : H.World) → SameMemory s (record s { world = w })
SameMemory-world s w = record { manifest = refl; unknown = refl }

pub SameMemory-trans :
    {H : Host} {s t u : Store H} → SameMemory s t → SameMemory t u → SameMemory s u
SameMemory-trans a b = record {
  manifest = b.manifest ∙ a.manifest;
  unknown = b.unknown ∙ a.unknown;
}

-- Only the machine has moved on since.
pub SameMemory-then :
    {H : Host} {s t : Store H} (w : H.World)
    → SameMemory s t
    → SameMemory s (record t { world = w })
SameMemory-then w a = record { manifest = a.manifest; unknown = a.unknown }

module _ (H : Host) where
  -- What a repair has done when it succeeds: the manifest that it read back is valid and in memory,
  -- its objects are there, and the file and the directory were synced without an error.
  pub record Restored (t : Store H) : Type 0 where
    pub at_read : H.World
    pub at_objects : H.World
    pub at_file : H.World
    pub at_open : H.World
    pub at_root : H.World
    pub manifest : (H.read_json at_read).0.0 ≡ t.manifest
    pub readable : (H.read_json at_read).0.1 ≡ []
    pub valid : validate_manifest t.manifest ≡ []
    pub objects : (validate_referenced_objects H t.manifest.profiles at_objects).0 ≡ []
    pub file : (H.sync_private_file manifest_path at_file).0 ≡ []
    pub opened : (H.open_private_dir root at_open).0 ≡ []
    pub synced : (H.sync root at_root).0 ≡ []

  -- A repair that fails says that the outcome is ambiguous and leaves the memory as it was.
  pub record Repaired (s : Store H) (e : Err) (t : Store H) : Type 0 where
    pub not_needed : s.durability_unknown ≡ false → (e ≡ []) × SameMemory s t
    pub repaired : is_nil e ≡ true → t.durability_unknown ≡ false
    pub restored : s.durability_unknown ≡ true → is_nil e ≡ true → Restored t
    pub failed : is_nil e ≡ false → (is_err e outcome_ambiguous ≡ true) × SameMemory s t
    pub sound : IsSound s → IsSound t

  Repaired-ambiguous :
      (s t : Store H) (e : Err)
      → s.durability_unknown ≡ true
      → SameMemory s t
      → Repaired s (outcome_ambiguous ∷ e) t
  Repaired-ambiguous s t e unknown same = record {
    not_needed = λ known. cc;
    repaired = λ nil. cc;
    restored = λ needed nil. from_false nil;
    failed = λ bad. (is_err-cons_self outcome_ambiguous e, same);
    sound = λ h. rw same.manifest h;
  }

  -- The machine was called and nothing else happened.
  Repaired-gave_up :
      (s : Store H) (w : H.World) (e : Err)
      → s.durability_unknown ≡ true
      → Repaired s (outcome_ambiguous ∷ e) (record s { world = w })
  Repaired-gave_up s w e unknown =
      Repaired-ambiguous s (record s { world = w }) e unknown
        (record { manifest = refl; unknown = refl })

  Repaired-done :
      (s t : Store H)
      → s.durability_unknown ≡ true
      → validate_manifest t.manifest ≡ []
      → t.durability_unknown ≡ false
      → Restored t
      → Repaired s [] t
  Repaired-done s t unknown valid known restored = record {
    not_needed = λ needless. cc;
    repaired = λ nil. known;
    restored = λ needed nil. restored;
    failed = λ bad. from_false (sym bad);
    sound = λ h. valid;
  }

  -- A repair does nothing when none is needed. One that is needed and succeeds has read back a valid
  -- manifest, which is then the one in memory and no longer in doubt, has found each of its objects
  -- and has synced its file and the directory; otherwise it says that the outcome is ambiguous and
  -- keeps the memory. A valid manifest stays valid.
  pub repair_durability-Repaired : (s : Store H) → Post (repair_durability H) (Repaired s) s
  unfolding repair_durability
  repair_durability-Repaired s = Post-get _ _ _ s (
      Post-if (not s.durability_unknown) _ _ _ s
        (λ known. Post-pure _ _ s (record {
          not_needed = λ h. (refl, SameMemory-refl s);
          repaired = λ nil. ground (arith, known);
          restored = λ needed nil. from_false (ground (arith, known, needed));
          failed = λ bad. from_false (sym bad);
          sound = λ h. h;
        }))
        λ unknown.
          let u : s.durability_unknown ≡ true = ground arith in
          Post-host_seen H _ _ _ s λ loaded w0 read.
            Post-unless _ _ _ _ _ (λ _. Repaired-gave_up s w0 _ u)
              λ readable.
                Post-unless _ _ _ _ _ (λ _. Repaired-gave_up s w0 _ u)
                  λ valid. Post-host_seen H _ _ _ _ λ objects w1 found.
                    Post-unless _ _ _ _ _ (λ _. Repaired-gave_up s w1 _ u)
                      λ all. Post-host_seen H _ _ _ _ λ synced w2 file.
                        Post-unless _ _ _ _ _ (λ _. Repaired-gave_up s w2 _ u)
                          λ whole. Post-host_seen H _ _ _ _ λ opened w3 open_.
                            Post-unless _ _ _ _ _ (λ _. Repaired-gave_up s w3 _ u)
                              λ there. Post-host_seen H _ _ _ _ λ flushed w4 flush.
                                Post-host H _ _ _ _ λ closed w5.
                                  Post-unless _ _ _ _ _ (λ _. Repaired-gave_up s w5 _ u)
                                    λ done. Post-modify _ _ _ _ (
                                      Post-pure _ _ _ (
                                        Repaired-done s _ u valid refl (record {
                                          at_read = s.world;
                                          at_objects = w0;
                                          at_file = w1;
                                          at_open = w2;
                                          at_root = w3;
                                          manifest = ap (λ x. x.0) read;
                                          readable = ap (λ x. x.1) read ∙ readable;
                                          valid = valid;
                                          objects = found ∙ all;
                                          file = file ∙ whole;
                                          opened = open_ ∙ there;
                                          synced = flush ∙ done;
                                        }))))
