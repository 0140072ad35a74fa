-- ===== src/Store/State/Mutation.antt =====
-- internal/profiles/store.go: what a mutation leaves in memory, on every branch.
use tunnelfolio.Prelude.{true, false, [], ◌∷◌, ◌≡◌, refl, ◌∙◌, subst, arith, ◌⊎◌, inl, inr}
use tunnelfolio.Prelude.Err.{Err, is_nil, Result, ok, fail, outcome_ambiguous}
use tunnelfolio.Prelude.Exec.{Post, Post-pure, Post-get, Post-if, Post-unless, Post-bind, Post-mono}
use tunnelfolio.Profiles.Model.{Manifest}
use tunnelfolio.Profiles.Manifest.{validate_manifest}
use tunnelfolio.Store.Host.{Host}
use tunnelfolio.Store.State.{
  Store, next_revision, repair_durability, prepare_mutation, commit, committed, mutate,
}
use tunnelfolio.Store.State.Repair.{IsSound, SameMemory, Repaired, repair_durability-Repaired}
use tunnelfolio.Store.State.Write.{
  Published, durable, ambiguous_outcome, refused, publish_manifest-Published,
}

module _ (H : Host) where
  -- The outcome of a commit of a changed manifest.
  pub data Committed (s : Store H) (changed : Manifest) : Result Manifest → Store H → Type 0 where
    done :
        {m : Manifest} {t : Store H}
        → m ≡ next_revision changed
        → validate_manifest m ≡ []
        → t.manifest ≡ m
        → t.durability_unknown ≡ false
        → Committed s changed (ok m) t
    unsure :
        {t : Store H} (e : Err)
        → t.manifest ≡ next_revision changed
        → validate_manifest t.manifest ≡ []
        → t.durability_unknown ≡ true
        → Committed s changed (fail (outcome_ambiguous ∷ e)) t
    unchanged :
        {e : Err} {t : Store H} → is_nil e ≡ false → SameMemory s t → Committed s changed (fail e) t

  Committed-fail :
      (s : Store H) (changed : Manifest) {e : Err} {t : Store H}
      → validate_manifest (next_revision changed) ≡ []
      → Published H s (next_revision changed) e t
      → is_nil e ≡ false
      → Committed s changed (fail e) t
  Committed-fail s changed valid (durable m k) bad = cc
  Committed-fail s changed valid (ambiguous_outcome e m u) bad = unsure e m (rw m valid) u
  Committed-fail s changed valid (refused b same) bad = unchanged b same

  Committed-ok :
      (s : Store H) (changed : Manifest) {e : Err} {t : Store H}
      → validate_manifest (next_revision changed) ≡ []
      → Published H s (next_revision changed) e t
      → e ≡ []
      → Committed s changed (ok t.manifest) t
  Committed-ok s changed valid (durable m k) nil = done m (rw m valid) refl k
  Committed-ok s changed valid (ambiguous_outcome e m u) nil = cc
  Committed-ok s changed valid (refused b same) nil = ground arith

  commit-Committed :
      (s : Store H) (changed : Manifest) → Post (commit H changed) (Committed s changed) s
  unfolding commit
  commit-Committed s changed =
      Post-unless (validate_manifest (next_revision changed)) _ _ _ s
        (λ bad. unchanged bad (record { manifest = refl; unknown = refl }))
        λ valid.
          Post-bind _ _ _ _ s (publish_manifest-Published H s (next_revision changed)) λ e t p.
            Post-unless e _ _ _ t (Committed-fail s changed valid p)
              λ nil. Post-get _ _ _ t (Post-pure _ _ t (Committed-ok s changed valid p nil))

  -- The change itself failed with the error.
  pub record RefusedBy (change : Manifest → Result Manifest) (e : Err) : Type 0 where
    pub base : Manifest
    pub refuses : change base ≡ fail e

  -- The outcome of a mutation. On success `base` is the manifest that was changed, and it is the one
  -- in memory unless a repair came first.
  pub data Mutated (s : Store H) (change : Manifest → Result Manifest)
      : Result Manifest → Store H → Type 0 where
    changed :
        {m : Manifest} {t : Store H} (base next : Manifest)
        → (s.durability_unknown ≡ false → base ≡ s.manifest)
        → (IsSound s → validate_manifest base ≡ [])
        → change base ≡ ok next
        → m ≡ next_revision next
        → validate_manifest m ≡ []
        → t.manifest ≡ m
        → t.durability_unknown ≡ false
        → Mutated s change (ok m) t
    ambiguous_change :
        {t : Store H} (e : Err) (base next : Manifest)
        → (s.durability_unknown ≡ false → base ≡ s.manifest)
        → change base ≡ ok next
        → t.manifest ≡ next_revision next
        → validate_manifest t.manifest ≡ []
        → t.durability_unknown ≡ true
        → Mutated s change (fail (outcome_ambiguous ∷ e)) t
    rejected :
        {e : Err} {t : Store H}
        → (is_nil e ≡ false) ⊎ RefusedBy change e
        → (s.durability_unknown ≡ false → SameMemory s t)
        → (IsSound s → IsSound t)
        → Mutated s change (fail e) t

  -- A mutation goes on from a repaired memory, and gives up with what the repair left.
  pub record Prepared (s : Store H) (e : Err) (t : Store H) : Type 0 where
    pub goes_on : e ≡ [] → Repaired H s [] t
    pub gives_up :
        is_nil e ≡ false → (s.durability_unknown ≡ false → SameMemory s t) × (IsSound s → IsSound t)

  pub prepare_mutation-Prepared : (s : Store H) → Post (prepare_mutation H) (Prepared s) s
  unfolding prepare_mutation
  prepare_mutation-Prepared s =
      Post-if H.read_only _ _ _ s
        (λ _. Post-pure _ _ s (record {
          goes_on = λ nil. cc;
          gives_up = λ bad. (λ _. record { manifest = refl; unknown = refl }, λ h. h);
        }))
        λ _. Post-mono (repair_durability H) _ _ s (repair_durability-Repaired H s) λ e t r.
          record {
            goes_on = λ nil. subst (λ x. Repaired H s x t) nil r;
            gives_up = λ bad. (λ k. (r.not_needed k).1, r.sound);
          }

  Mutated-committed :
      (s t : Store H) (change : Manifest → Result Manifest) (next : Manifest)
      → Repaired H s [] t
      → change t.manifest ≡ ok next
      → Post (commit H next) (Mutated s change) t
  Mutated-committed s t change next r is =
      Post-mono (commit H next) _ _ t (commit-Committed t next) λ a u c. from c
    where
      from : {a : Result Manifest} {u : Store H} → Committed t next a u → Mutated s change a u
      from (done m valid at known) =
          changed t.manifest next (λ k. (r.not_needed k).1.manifest) r.sound is m valid at known
      from (unsure e m valid unknown) =
          ambiguous_change e t.manifest next (λ k. (r.not_needed k).1.manifest) is m valid unknown
      from (unchanged {e} {t = u} bad same) =
          rejected (inl bad)
            (λ k. record {
              manifest = same.manifest ∙ (r.not_needed k).1.manifest;
              unknown = same.unknown ∙ (r.not_needed k).1.unknown;
            })
            (λ h. rw same.manifest (r.sound h))

  committed-Mutated :
      (s t : Store H) (change : Manifest → Result Manifest) (r : Result Manifest)
      → Repaired H s [] t
      → change t.manifest ≡ r
      → Post (committed H r) (Mutated s change) t
  unfolding committed
  committed-Mutated s t change (ok next) p is = Mutated-committed s t change next p is
  committed-Mutated s t change (fail e) p is = Post-pure _ _ t (
      rejected (inr (record { base = t.manifest; refuses = is })) (λ k. (p.not_needed k).1) p.sound)

  -- The outcome of a store mutation on every branch: success with the changed manifest one revision
  -- on, valid and durable; an ambiguous outcome with a valid manifest kept for a repair; or a
  -- failure that leaves the manifest as it was, but for a repair.
  pub mutate-Mutated :
      (s : Store H) (change : Manifest → Result Manifest)
      → Post (mutate H change) (Mutated s change) s
  unfolding mutate
  mutate-Mutated s change = Post-bind _ _ _ _ s (prepare_mutation-Prepared s) λ e t r.
      Post-unless e _ _ _ t (λ bad. rejected (inl bad) (r.gives_up bad).0 (r.gives_up bad).1)
        λ nil.
          Post-get _ _ _ t (committed-Mutated s t change (change t.manifest) (r.goes_on nil) refl)
