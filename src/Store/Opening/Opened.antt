-- ===== src/Store/Opening/Opened.antt =====
-- What `OpenStore` opens.
use tunnelfolio.Prelude.{
  Bool, true, false, not, ◌||◌, [], ◌∷◌, ◌≡◌, refl, sym, ap, ◌∙◌, subst, if◌then◌else◌,
}
use tunnelfolio.Prelude.Text.{Text, eq_text, is_empty}
use tunnelfolio.Prelude.Int.{ℤ, is_negative}
use tunnelfolio.Prelude.Err.{
  Err, is_nil, is_err, eq-nil, Result, ok, fail, ok-injective, not_exist, other,
}
use tunnelfolio.Prelude.Exec.{Post, Post-pure, Post-if, Post-unless, Post-bind}
use tunnelfolio.Profiles.Model.{Manifest, initial_manifest}
use tunnelfolio.Profiles.Manifest.{validate_manifest}
use tunnelfolio.Store.Host.{Host, WriteResult}
use tunnelfolio.Store.State.{Store}
use tunnelfolio.Store.State.Repair.{IsSound}
use tunnelfolio.Store.Opening.{
  wrapped, created, create_manifest, load_manifest, read_manifest, clean_library, unlocked,
  open_library, store_of, open_store,
}

initial_manifest-valid : validate_manifest initial_manifest ≡ []
unfolding initial_manifest validate_manifest eq_text
initial_manifest-valid = refl

module _ (H : Host) where
  -- The manifest is valid, and it is the one that was read, or the first one where there was none.
  pub data IsLoaded (m : Manifest) : Type 0 where
    was_read :
        (w : H.World)
        → (H.read_json w).0.1 ≡ []
        → m ≡ (H.read_json w).0.0
        → validate_manifest m ≡ []
        → IsLoaded m
    is_first :
        (w : H.World)
        → is_err (H.read_json w).0.1 not_exist ≡ true
        → m ≡ initial_manifest
        → validate_manifest m ≡ []
        → IsLoaded m

  pub data Opens : Result Manifest → Type 0 where
    opens : {m : Manifest} → IsLoaded m → Opens (ok m)
    opens_nothing : {e : Err} → is_nil e ≡ false → Opens (fail e)

  is_nil-wrapped : (e : Err) → is_nil (wrapped e) ≡ false
  is_nil-wrapped [] = refl
  is_nil-wrapped (x ∷ e) = refl

  Opens-created : (first : IsLoaded initial_manifest) (r : WriteResult) → Opens (created H r)
  unfolding created
  Opens-created first r = split (not (is_nil r.err) || not r.durable)
    where
      split : (b : Bool) → Opens (if b then fail (wrapped r.err) else ok initial_manifest)
      split true = opens_nothing (is_nil-wrapped r.err)
      split false = opens first

  create_manifest-Opens :
      (w : H.World) → IsLoaded initial_manifest → Post (create_manifest H) (λ r v. Opens r) w
  unfolding create_manifest
  create_manifest-Opens w first =
      Post-if H.read_only _ _ _ w (λ _. Post-pure _ _ w (opens first))
        λ _.
          Post-bind _ _ (λ _ _. Unit {0}) _ w (record { holds = tt })
            λ r v _. Post-pure _ _ v (Opens-created first r)

  load_manifest-Opens :
      (w : H.World) (m : Manifest)
      → (validate_manifest m ≡ [] → IsLoaded m)
      → Post (load_manifest H m) (λ r v. Opens r) w
  unfolding load_manifest
  load_manifest-Opens w m loaded =
      Post-unless (validate_manifest m) _ _ _ w (λ bad. opens_nothing bad)
        λ valid.
          Post-bind _ _ (λ _ _. Unit {0}) _ w (record { holds = tt })
            λ synced v _.
              Post-unless synced _ _ _ v (λ bad. opens_nothing bad)
                λ _.
                  Post-bind _ _ (λ _ _. Unit {0}) _ v (record { holds = tt })
                    λ opened u _.
                      Post-unless opened _ _ _ u (λ bad. opens_nothing bad)
                        λ _.
                          Post-bind _ _ (λ _ _. Unit {0}) _ u (record { holds = tt })
                            λ flushed x _.
                              Post-bind _ _ (λ _ _. Unit {0}) _ x (record { holds = tt })
                                λ _ y _.
                                  Post-unless flushed _ _ _ y (λ bad. opens_nothing bad)
                                    (λ _. Post-pure _ _ y (opens (loaded valid)))

  read_manifest-Opens : (w : H.World) → Post (read_manifest H) (λ r v. Opens r) w
  unfolding read_manifest
  read_manifest-Opens w =
      Post-bind _ _ (λ a _. a ≡ (H.read_json w).0) _ w (record { holds = refl })
        λ loaded v is.
          Post-if (is_nil loaded.1) _ _ _ v
            (λ nil. load_manifest-Opens v loaded.0 λ valid.
              was_read w (ap (λ (a : Manifest × Err). a.1) (sym is) ∙ eq-nil loaded.1 nil)
                (ap (λ (a : Manifest × Err). a.0) is) valid)
            λ bad.
              Post-if (is_err loaded.1 not_exist) _ _ _ v
                (λ absent. create_manifest-Opens v (
                  is_first w (subst (λ (a : Manifest × Err). is_err a.1 not_exist ≡ true) is absent)
                    refl initial_manifest-valid))
                (λ _. Post-pure _ _ v (opens_nothing bad))

  clean_library-Opens :
      (w : H.World) (r : Result Manifest) → Opens r → Post (clean_library H r) (λ r v. Opens r) w
  unfolding clean_library
  clean_library-Opens w r (opens_nothing bad) = Post-pure _ _ w (opens_nothing bad)
  clean_library-Opens w r (opens loaded) =
      Post-if H.read_only _ _ _ w (λ _. Post-pure _ _ w (opens loaded))
        λ _.
          Post-bind _ _ (λ _ _. Unit {0}) _ w (record { holds = tt })
            λ e v _.
              Post-unless e _ _ _ v (λ bad. opens_nothing bad) (λ _. Post-pure _ _ v (opens loaded))

  unlocked-Opens :
      (w : H.World) (r : Result Manifest) → Opens r → Post (unlocked H r) (λ r v. Opens r) w
  unfolding unlocked
  unlocked-Opens w r (opens_nothing bad) =
      Post-bind _ _ (λ _ _. Unit {0}) _ w (record { holds = tt })
        λ _ v _. Post-pure _ _ v (opens_nothing bad)
  unlocked-Opens w r (opens loaded) = Post-pure _ _ w (opens loaded)

  open_library-Opens : (w : H.World) → Post (open_library H) (λ r v. Opens r) w
  unfolding open_library
  open_library-Opens w =
      Post-bind _ _ (λ _ _. Unit {0}) _ w (record { holds = tt })
        λ ensured v _.
          Post-unless ensured _ _ _ v (λ bad. opens_nothing bad)
            λ _.
              Post-bind _ _ (λ _ _. Unit {0}) _ v (record { holds = tt })
                λ prepared u _.
                  Post-unless prepared _ _ _ u (λ bad. opens_nothing bad)
                    λ _.
                      Post-bind _ _ (λ _ _. Unit {0}) _ u (record { holds = tt })
                        λ locked x _.
                          Post-unless locked _ _ _ x (λ bad. opens_nothing bad)
                            λ _. Post-bind _ _ _ _ x (read_manifest-Opens x) λ loaded y is.
                              Post-bind _ _ _ _ y (clean_library-Opens y loaded is)
                                λ cleaned z still. unlocked-Opens z cleaned still

  -- A store that is opened.
  pub record IsOpened (s : Store H) : Type 0 where
    pub loaded : IsLoaded s.manifest
    pub sound : IsSound s
    pub durable : s.durability_unknown ≡ false

  IsLoaded-valid : (m : Manifest) → IsLoaded m → validate_manifest m ≡ []
  IsLoaded-valid m (was_read w e is valid) = valid
  IsLoaded-valid m (is_first w e is valid) = valid

  store_of-IsOpened :
      (r : Result Manifest) (w : H.World) {s : Store H}
      → Opens r
      → store_of H (r, w) ≡ ok s
      → IsOpened s
  store_of-IsOpened r w (opens_nothing bad) h = cc
  store_of-IsOpened r w (opens {m} loaded) h =
      subst IsOpened (ok-injective h)
        (record { loaded = loaded; sound = IsLoaded-valid m loaded; durable = refl })

  -- A store that `OpenStore` opens holds a manifest that `ValidateManifest` accepts, taken as
  -- durable; it is the one that was read without an error, or the first manifest where there was
  -- none to read.
  pub open_store-IsOpened :
      (path : Text) (required_uid : ℤ) (w : H.World) {s : Store H}
      → open_store H path required_uid w ≡ ok s
      → IsOpened s
  unfolding open_store
  open_store-IsOpened path required_uid w {s} h =
      split (is_empty path || is_negative required_uid) h
    where
      split :
          (b : Bool)
          → (if b then fail (other ∷ []) else store_of H (open_library H w)) ≡ ok s
          → IsOpened s
      split true q = cc
      split false q =
          store_of-IsOpened (open_library H w).0 (open_library H w).1 (open_library-Opens w).holds q
