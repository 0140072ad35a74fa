-- ===== src/Manager/Executions/Held.antt =====
-- internal/manager/manager.go: no private copy is lost. Whatever the machine answers, a copy that the
-- manager knows of is removed or still known.
use tunnelfolio.Prelude.{
  Bool, true, false, not, Option, none, List, [], ◌∷◌, ◌++◌, ◌≡◌, refl, sym, subst, ◌⊎◌, inl, inr,
  Bool-cases, if◌then◌else◌, from_false,
}
use tunnelfolio.Prelude.Lists.{keep}
use tunnelfolio.Prelude.Text.{Text}
use tunnelfolio.Prelude.Err.{Err, is_nil, eq-nil}
use tunnelfolio.Prelude.Exec.{
  Exec, ◌>>=◌, pure, gets, modify, Post, Post-gets, Post-pure, Post-bind, Post-mono, Post-if,
}
use tunnelfolio.Store.Host.{Host, FilePath}
use tunnelfolio.Store.State.{Store}
use tunnelfolio.Store.Execution.{ExecutionCopy, cleanup_copy}
use tunnelfolio.Store.Execution.Removed.{IsRemoved, cleanup_copy-IsRemoved}
use tunnelfolio.Manager.State.{Manager, Execution, on_store, on_machine}
use tunnelfolio.Manager.Executions.{
  is_taken, add_execution, take_executions, clean_each, cleanup_executions, clean_ids,
  cleanup_all_executions,
}

-- The copy is that of one of the executions.
pub data Held : ExecutionCopy → List Execution → Type 0 where
  here : {e : Execution} {es : List Execution} → Held e.copy (e ∷ es)
  there : {c : ExecutionCopy} {e : Execution} {es : List Execution} → Held c es → Held c (e ∷ es)

pub Held-nil : {A : Type 0} {c : ExecutionCopy} {es : List Execution} → Held c es → es ≡ [] → A
Held-nil here nil = from_false cc
Held-nil (there h) nil = from_false cc

Held-append :
    {c : ExecutionCopy} {es : List Execution} (fs : List Execution) → Held c es → Held c (es ++ fs)
Held-append fs here = here
Held-append fs (there h) = there (Held-append fs h)

pub Held-last :
    (es : List Execution) (id : Text) (c : ExecutionCopy)
    → Held c (es ++ record { profile_id = id; copy = c } ∷ [])
Held-last [] id c = here
Held-last (e ∷ es) id c = there (Held-last es id c)

-- What a split keeps on neither side is not there.
Held-keep :
    (p : Execution → Bool) {c : ExecutionCopy} {es : List Execution}
    → Held c es
    → Held c (keep p es) ⊎ Held c (keep (λ e. not (p e)) es)
Held-keep p (here {e} {es}) = elim (Bool-cases (p e)) [
  | inl kept ↦ inl (rw kept here)
  | inr left ↦ inr (rw left here)
]
Held-keep p (there {c} {e} {es} h) = elim (Bool-cases (p e)) [
  | inl kept ↦ rw kept (elim (Held-keep p h) [ inl a ↦ inl (there a) | inr b ↦ inr b ])
  | inr left ↦ rw left (elim (Held-keep p h) [ inl a ↦ inl a | inr b ↦ inr (there b) ])
]

-- Every copy that was known is removed, or still known.
pub record Accounts (H : Host) (before after : List Execution) : Type 0 where
  pub of : (c : ExecutionCopy) → Held c before → IsRemoved H c ⊎ Held c after

module _ {H : Host} where
  pub Accounts-same : {es fs : List Execution} → fs ≡ es → Accounts H es fs
  Accounts-same is = record { of = λ c h. inr (subst (Held c) (sym is) h) }

  pub Accounts-trans :
      {es fs gs : List Execution} → Accounts H es fs → Accounts H fs gs → Accounts H es gs
  Accounts-trans a b = record {
    of = λ c h. elim (a.of c h) [ inl gone ↦ inl gone | inr held ↦ b.of c held ];
  }

  -- With none known any more, all of them are removed.
  pub Accounts-none :
      {es fs : List Execution}
      → Accounts H es fs
      → fs ≡ []
      → (c : ExecutionCopy) → Held c es
      → IsRemoved H c
  Accounts-none a none_left c h = elim (a.of c h) [
    | inl gone ↦ gone
    | inr held ↦ Held-nil held none_left
  ]

  -- A call after which every copy is accounted for.
  pub record Accounted {ℓ} {A : Type ℓ} (m : Exec (Manager H) A) : Type ℓ where
    pub accounts : (s : Manager H) → Post m (λ _ t. Accounts H s.executions t.executions) s

  pub Accounted-pure {ℓ} : {A : Type ℓ} (a : A) → Accounted (pure a)
  Accounted-pure a = record { accounts = λ s. Post-pure a _ s (Accounts-same refl) }

  pub Accounted-bind {ℓ κ} :
      {A : Type ℓ} {B : Type κ} {m : Exec (Manager H) A} {f : A → Exec (Manager H) B}
      → Accounted m
      → ((a : A) → Accounted (f a))
      → Accounted (m >>= f)
  Accounted-bind {m} {f} k l = record {
    accounts = λ s.
        Post-bind m f _ _ s (k.accounts s)
          λ a t p. Post-mono (f a) _ _ t ((l a).accounts t) λ _ u q. Accounts-trans p q;
  }

  pub Accounted-if {ℓ} :
      {A : Type ℓ} (b : Bool) {m n : Exec (Manager H) A}
      → Accounted m
      → Accounted n
      → Accounted (if b then m else n)
  Accounted-if true k l = k
  Accounted-if false k l = l

  pub Accounted-machine {ℓ} : {A : Type ℓ} (m : Exec H.World A) → Accounted (on_machine H m)
  unfolding on_machine
  Accounted-machine m = record { accounts = λ s. record { holds = Accounts-same refl } }

  pub Accounted-store {ℓ} : {A : Type ℓ} (m : Exec (Store H) A) → Accounted (on_store H m)
  unfolding on_store
  Accounted-store m = record { accounts = λ s. record { holds = Accounts-same refl } }

  pub Accounted-add : (id : Text) (c : ExecutionCopy) → Accounted (add_execution H id c)
  unfolding modify
  Accounted-add id c = record {
    accounts = λ s. record { holds = record { of = λ d h. inr (Held-append _ h) } };
  }

  cleaned-IsRemoved :
      (c : ExecutionCopy) (s : Manager H)
      → Post
          (on_machine H (cleanup_copy H c))
          (λ r t. (r ≡ [] → IsRemoved H c) × (t.executions ≡ s.executions))
          s
  unfolding on_machine
  cleaned-IsRemoved c s = record {
    holds = ((cleanup_copy-IsRemoved H c s.store.world).holds, refl);
  }

  -- What is not removed comes back.
  put_back :
      (id : Text) (c : ExecutionCopy) (r : Err) (s : Manager H)
      → (r ≡ [] → IsRemoved H c)
      → Post
          (if is_nil r then pure tt else add_execution H id c)
          (λ _ t.
            (IsRemoved H c ⊎ Held c t.executions)
            × ((d : ExecutionCopy) → Held d s.executions → Held d t.executions))
          s
  unfolding modify
  put_back id c r s removed =
      Post-if (is_nil r) _ _ _ s (λ nil. Post-pure _ _ s (inl (removed (eq-nil r nil)), λ d h. h))
        (λ bad. record { holds = (inr (Held-last s.executions id c), λ d h. Held-append _ h) })

  by_rest :
      {e : Execution} {es fs gs : List Execution}
      → IsRemoved H e.copy ⊎ Held e.copy fs
      → Accounts H es gs
      → ((c : ExecutionCopy) → Held c fs → Held c gs)
      → (c : ExecutionCopy) → Held c (e ∷ es)
      → IsRemoved H c ⊎ Held c gs
  by_rest (inl gone) later grown c here = inl gone
  by_rest (inr held) later grown c here = inr (grown c held)
  by_rest first later grown c (there h) = later.of c h

  -- The copies `es` are out of the manager's hands, and those that are not removed come back.
  clean_each-Accounts :
      (id : Text) (es : List Execution) (s : Manager H)
      → Post
          (clean_each H id es)
          (λ _ t.
            Accounts H es t.executions
            × ((c : ExecutionCopy) → Held c s.executions → Held c t.executions))
          s
  unfolding clean_each
  clean_each-Accounts id [] s = Post-pure _ _ s (record { of = λ c h. Held-nil h refl }, λ c h. h)
  clean_each-Accounts id (e ∷ es) s = Post-bind _ _ _ _ s (cleaned-IsRemoved e.copy s) λ r t p.
      Post-bind _ _ _ _ t (put_back id e.copy r t p.0) λ _ u q.
        Post-bind _ _ _ _ u (clean_each-Accounts id es u) λ rest v l.
          Post-pure _ _ v
            (record { of = by_rest q.0 l.0 l.1 }, λ c h. l.1 c (q.1 c (subst (Held c) (sym p.1) h)))

  pub Accounted-cleanup_executions :
      (id : Text) (except : Option FilePath) → Accounted (cleanup_executions H id except)
  unfolding cleanup_executions take_executions ◌>>=◌
  Accounted-cleanup_executions id except = record {
    accounts = λ s. record {
      holds = record {
        of = λ c h.
            let p =
              (clean_each-Accounts id (keep (is_taken id except) s.executions) (record s {
                executions = keep (λ e. not (is_taken id except e)) s.executions;
              })).holds in
            elim (Held-keep (is_taken id except) h) [
              | inl taken ↦ p.0.of c taken
              | inr kept ↦ inr (p.1 c kept)
            ];
      };
    };
  }

  Accounted-clean_ids : (ids : List Text) → Accounted (clean_ids H ids)
  unfolding clean_ids
  Accounted-clean_ids [] = Accounted-pure []
  Accounted-clean_ids (id ∷ ids) =
      Accounted-bind (Accounted-cleanup_executions id none)
        λ e. Accounted-bind (Accounted-clean_ids ids) λ rest. Accounted-pure _

  pub Accounted-cleanup_all_executions : Accounted (cleanup_all_executions H)
  unfolding cleanup_all_executions
  Accounted-cleanup_all_executions = Accounted-bind Accounted-executions λ es. Accounted-clean_ids _
    where
      Accounted-executions : Accounted (gets λ s. s.executions)
      Accounted-executions = record { accounts = λ s. Post-gets _ _ s (Accounts-same refl) }
