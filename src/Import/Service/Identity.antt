-- ===== src/Import/Service/Identity.antt =====
-- The identities that `generateIdentity` makes, and the gate.
use mathlib.Core.Option.{some-injective}
use tunnelfolio.Prelude.{
  ℕ, zero, suc, Bool, true, false, Option, none, some, List, [], ◌≡◌, refl, ◌∙◌, ap, subst,
  if◌then◌else◌,
}
use tunnelfolio.Prelude.Text.{Text, eq_text, contains}
use tunnelfolio.Prelude.Err.{Err, is_nil, Result, ok, fail}
use tunnelfolio.Prelude.Exec.{Exec, pure, Post, Post-pure, Post-if, Post-unless, Post-bind}
use tunnelfolio.Profiles.Id.{generated_id, runtime_identifier}
use tunnelfolio.Profiles.Model.{protocol_wireguard}
use tunnelfolio.Store.Host.{Host}
use tunnelfolio.Import.Service.{
  Collaborators, answer, name_available, attempt_identity, generate_identity,
}

module _ {H : Host} (C : Collaborators H) where
  -- The runtime name, where the protocol takes one and the service can ask, is answered to be free.
  pub record IsFree (protocol identifier : Text) : Type 0 where
    pub free :
        eq_text protocol protocol_wireguard ≡ true
        → (ask : Text → Exec H.World (Bool × Err)) → C.runtime_name_available ≡ some ask
        → (world : H.World) × ((ask identifier world).0 ≡ (true, []))

  name_available-IsFree :
      (protocol identifier : Text) (w : H.World)
      → (name_available C protocol identifier w).0 ≡ (true, [])
      → IsFree protocol identifier
  unfolding name_available pure
  name_available-IsFree protocol identifier w h = record {
    free = λ is ask given.
        (w, asked (eq_text protocol protocol_wireguard) C.runtime_name_available ask is given h);
  }
    where
      asked :
          (b : Bool) (o : Option (Text → Exec H.World (Bool × Err)))
          (ask : Text → Exec H.World (Bool × Err))
          → b ≡ true
          → o ≡ some ask
          → ((if b then answer C o identifier else pure (true, [])) w).0 ≡ (true, [])
          → (ask identifier w).0 ≡ (true, [])
      asked true none ask is given h = cc
      asked true (some f) ask is given h =
          subst (λ (g : Text → Exec H.World (Bool × Err)). (g identifier w).0 ≡ (true, []))
            (some-injective _ _ given) h
      asked false o ask is given h = cc

  -- An identity is a generated ID of drawn bytes with its own
  -- identifier, which is not used and whose runtime name is free; otherwise there is an error.
  pub data IsIdentity (protocol : Text) (used : List Text) : Result (Text × Text) → Type 0 where
    fresh :
        (raw : Text) (world : H.World)
        → (H.random world).0 ≡ (raw, [])
        → IsFree protocol (runtime_identifier (C.sha256 (generated_id raw)))
        → contains used (runtime_identifier (C.sha256 (generated_id raw))) ≡ false
        → IsIdentity protocol used
            (ok (generated_id raw, runtime_identifier (C.sha256 (generated_id raw))))
    no_identity : {e : Err} → is_nil e ≡ false → IsIdentity protocol used (fail e)

  attempt_identity-IsIdentity :
      (attempts : ℕ) (protocol : Text) (used : List Text) (w : H.World)
      → Post (attempt_identity C attempts protocol used) (λ r v. IsIdentity protocol used r) w
  unfolding attempt_identity
  attempt_identity-IsIdentity zero protocol used w = Post-pure _ _ w (no_identity refl)
  attempt_identity-IsIdentity (suc attempts) protocol used w =
      Post-bind _ _ (λ a _. (H.random w).0 ≡ a) _ w (record { holds = refl })
        λ raw w1 drawn.
          Post-unless raw.1 _ _ _ w1 (λ bad. no_identity bad)
            λ good.
              Post-if _ _ _ _ w1 (λ _. attempt_identity-IsIdentity attempts protocol used w1)
                λ unused.
                  Post-bind _ _ (λ a _. (name_available C protocol (identifier raw.0) w1).0 ≡ a) _
                    w1 (record { holds = refl })
                    λ available w2 told.
                      Post-unless available.1 _ _ _ w2 (λ bad. no_identity bad)
                        λ nil.
                          Post-if _ _ _ _ w2
                            (λ free. Post-pure _ _ w2 (
                              fresh raw.0 w (drawn ∙ ap (λ e. (raw.0, e)) good)
                                (name_available-IsFree protocol _ w1 (
                                  told ∙ ap (λ b. (b, available.1)) free ∙ ap (λ e. (true, e)) nil))
                                unused))
                            (λ _. attempt_identity-IsIdentity attempts protocol used w2)
    where
      identifier : Text → Text
      identifier raw = runtime_identifier (C.sha256 (generated_id raw))

  -- `generateIdentity` gives an ID made of bytes that the random source drew without an error and
  -- the runtime identifier of that ID, which is not used and, for WireGuard, was answered to be free
  -- where the service can ask; or it fails with an error.
  pub generate_identity-IsIdentity :
      (protocol : Text) (used : List Text) (w : H.World)
      → Post (generate_identity C protocol used) (λ r v. IsIdentity protocol used r) w
  unfolding generate_identity
  generate_identity-IsIdentity protocol used w = attempt_identity-IsIdentity 128 protocol used w
