-- ===== src/Store/State/Write.antt =====
-- internal/profiles/store.go: what a publication leaves in memory, by the result of the write.
use tunnelfolio.Prelude.{true, false, not, [], ◌∷◌, ◌≡◌, refl, sym, subst, arith}
use tunnelfolio.Prelude.Err.{Err, is_nil, eq-nil, outcome_ambiguous}
use tunnelfolio.Prelude.Exec.{Post, Post-pure, Post-if, Post-modify, Post-mono}
use tunnelfolio.Profiles.Model.{Manifest}
use tunnelfolio.Store.Host.{Host, WriteResult}
use tunnelfolio.Store.State.{Store, settle, take_over, publish_manifest, Post-host_seen}
use tunnelfolio.Store.State.Repair.{SameMemory, SameMemory-world}

module _ (H : Host) where
  -- A publication takes the candidate over, durably or with an ambiguous outcome, or changes nothing.
  pub data Published (s : Store H) (c : Manifest) : Err → Store H → Type 0 where
    durable : {t : Store H} → t.manifest ≡ c → t.durability_unknown ≡ false → Published s c [] t
    ambiguous_outcome :
        {t : Store H} (e : Err)
        → t.manifest ≡ c
        → t.durability_unknown ≡ true
        → Published s c (outcome_ambiguous ∷ e) t
    refused : {e : Err} {t : Store H} → is_nil e ≡ false → SameMemory s t → Published s c e t

  -- The outcome of a publication, by the result of the write: the candidate is taken over exactly
  -- when the write says that it is there, and taken for durable only when the write says so too.
  pub data Written (s : Store H) (c : Manifest) (r : WriteResult) : Err → Store H → Type 0 where
    written :
        {t : Store H}
        → r.err ≡ []
        → r.durable ≡ true
        → t.manifest ≡ c
        → t.durability_unknown ≡ false
        → Written s c r [] t
    not_durable :
        {t : Store H}
        → r.err ≡ []
        → r.durable ≡ false
        → t.manifest ≡ c
        → t.durability_unknown ≡ true
        → Written s c r (outcome_ambiguous ∷ []) t
    unclear :
        {t : Store H}
        → is_nil r.err ≡ false
        → r.published ≡ true
        → t.manifest ≡ c
        → t.durability_unknown ≡ true
        → Written s c r (outcome_ambiguous ∷ r.err) t
    not_written :
        {t : Store H}
        → is_nil r.err ≡ false
        → r.published ≡ false
        → SameMemory s t
        → Written s c r r.err t

  settle-Written :
      (s t : Store H) (c : Manifest) (r : WriteResult)
      → SameMemory s t
      → Post (settle H c r) (Written s c r) t
  unfolding settle take_over
  settle-Written s t c r same =
      Post-if (not (is_nil r.err)) _ _ _ t
        (λ bad.
          Post-if r.published _ _ _ t
            (λ there.
              Post-modify _ _ _ t (Post-pure _ _ _ (unclear (ground arith) there refl refl)))
            (λ gone. Post-pure _ _ t (not_written (ground arith) gone same)))
        (λ good.
          let nil : r.err ≡ [] = eq-nil r.err (ground arith) in
          Post-if (not r.durable) _ _ _ t
            (λ doubt.
              Post-modify _ _ _ t
                (Post-pure _ _ _ (not_durable nil (ground (arith, doubt)) refl refl)))
            (λ sure.
              Post-modify _ _ _ t (Post-pure _ _ _ (written nil (ground (arith, sure)) refl refl))))

  pub publish_manifest-Written :
      (s : Store H) (c : Manifest)
      → Post (publish_manifest H c) (Written s c (H.write_json_atomic c s.world).0) s
  unfolding publish_manifest
  publish_manifest-Written s c = Post-host_seen H _ _ _ s λ r w is.
      subst (λ x. Post (settle H c r) (Written s c x) (record s { world = w })) (sym is)
        (settle-Written s (record s { world = w }) c r (SameMemory-world s w))

  Published-Written :
      (s : Store H) (c : Manifest) (r : WriteResult) (e : Err) (t : Store H)
      → Written s c r e t
      → Published s c e t
  Published-Written s c r e t (written nil sure m u) = durable m u
  Published-Written s c r e t (not_durable nil doubt m u) = ambiguous_outcome [] m u
  Published-Written s c r e t (unclear bad there m u) = ambiguous_outcome r.err m u
  Published-Written s c r e t (not_written bad gone same) = refused bad same

  pub publish_manifest-Published :
      (s : Store H) (c : Manifest) → Post (publish_manifest H c) (Published s c) s
  publish_manifest-Published s c =
      Post-mono _ _ _ s (publish_manifest-Written s c) (Published-Written s c _)
