-- ===== src/Manager/Executions/Accounted.antt =====
-- What a clean-up that succeeds leaves of the private copies.
use tunnelfolio.Prelude.{
  Bool, true, false, not, none, List, [], ◌∷◌, ◌≡◌, refl, ◌∙◌, ap, arith, inl, inr, Bool-cases,
  if◌then◌else◌,
}
use tunnelfolio.Prelude.Lists.{keep, All}
use tunnelfolio.Prelude.Text.{Text, eq_text_iff, eq_text_refl, contains}
use tunnelfolio.Prelude.Err.{is_nil, is_nil-append}
use tunnelfolio.Prelude.Exec.{
  ◌>>=◌, Post, Post-pure, Post-if, Post-bind, Post-mono, Post-get, Post-both,
}
use tunnelfolio.Store.Host.{Host}
use tunnelfolio.Store.Execution.{ExecutionCopy}
use tunnelfolio.Store.Execution.Removed.{IsRemoved}
use tunnelfolio.Manager.Executions.Held.{
  Held, Accounts, Accounts-none, Accounted-cleanup_all_executions,
}
use tunnelfolio.Manager.State.{Manager, Execution, Post-machine}
use tunnelfolio.Manager.Executions.{
  is_taken, execution_ids, take_executions, clean_each, cleanup_executions, clean_ids,
  cleanup_all_executions,
}

-- The copies that are left when those of each ID are taken.
unfoldable pub left_after : List Text → List Execution → List Execution
left_after [] es = es
left_after (id ∷ ids) es = left_after ids (keep (λ e. not (is_taken id none e)) es)

module _ (H : Host) where
  -- Of the copies that it was given, a clean-up without an error keeps none.
  clean_each-nil :
      (id : Text) (es : List Execution) (s : Manager H)
      → Post (clean_each H id es) (λ e t. e ≡ [] → t.executions ≡ s.executions) s
  unfolding clean_each
  clean_each-nil id [] s = Post-pure _ _ s (λ nil. refl)
  clean_each-nil id (x ∷ es) s = Post-machine H _ _ _ s λ r w.
      Post-bind _ _ (λ _ t. r ≡ [] → t.executions ≡ s.executions) _ _
        (Post-if (is_nil r) _ _ _ _ (λ _. Post-pure _ _ _ (λ _. refl))
          (λ bad. record { holds = λ nil. cc }))
        λ _ t p. Post-bind _ _ _ _ t (clean_each-nil id es t) λ rest u q.
          Post-pure _ _ u λ nil. (let h = is_nil-append r rest (ap is_nil nil) in q h.1 ∙ p h.0)

  pub cleanup_executions-nil :
      (id : Text) (s : Manager H)
      → Post
          (cleanup_executions H id none)
          (λ e t. e ≡ [] → t.executions ≡ keep (λ x. not (is_taken id none x)) s.executions)
          s
  unfolding cleanup_executions take_executions ◌>>=◌
  cleanup_executions-nil id s = record { holds = (clean_each-nil id _ _).holds }

  clean_ids-nil :
      (ids : List Text) (s : Manager H)
      → Post (clean_ids H ids) (λ e t. e ≡ [] → t.executions ≡ left_after ids s.executions) s
  unfolding clean_ids left_after
  clean_ids-nil [] s = Post-pure _ _ s (λ nil. refl)
  clean_ids-nil (id ∷ ids) s = Post-bind _ _ _ _ s (cleanup_executions-nil id s) λ e t p.
      Post-bind _ _ _ _ t (clean_ids-nil ids t) λ rest u q.
        Post-pure _ _ u λ nil.
          (let h = is_nil-append e rest (ap is_nil nil) in q h.1 ∙ ap (left_after ids) (p h.0))

-- The profile of the copy is one of these.
abbrev IsAmong : List Text → Execution → Type 0
IsAmong ids e = contains ids e.profile_id ≡ true

IsAmong-rest :
    (id : Text) (ids : List Text) (e : Execution)
    → IsAmong (id ∷ ids) e
    → not (is_taken id none e) ≡ true
    → IsAmong ids e
unfolding contains is_taken
IsAmong-rest id ids e among other =
    ground (arith, (eq_text_iff id e.profile_id).0, (eq_text_iff e.profile_id id).1)

keep-IsAmong :
    (id : Text) (ids : List Text) (es : List Execution)
    → All (IsAmong (id ∷ ids)) es
    → All (IsAmong ids) (keep (λ e. not (is_taken id none e)) es)
keep-IsAmong id ids [] h = tt
keep-IsAmong id ids (e ∷ es) h = elim (Bool-cases (not (is_taken id none e))) [
  | inl kept ↦ rw kept (IsAmong-rest id ids e h.0 kept, keep-IsAmong id ids es h.1)
  | inr left ↦ rw left (keep-IsAmong id ids es h.1)
]

left_after-nil :
    (ids : List Text) (es : List Execution) → All (IsAmong ids) es → left_after ids es ≡ []
unfolding left_after contains
left_after-nil [] [] h = refl
left_after-nil [] (e ∷ es) h = cc (h.0)
left_after-nil (id ∷ ids) es h = left_after-nil ids _ (keep-IsAmong id ids es h)

All-IsAmong-cons :
    (id : Text) (ids : List Text) (es : List Execution)
    → All (IsAmong ids) es
    → All (IsAmong (id ∷ ids)) es
unfolding contains
All-IsAmong-cons id ids [] h = tt
All-IsAmong-cons id ids (e ∷ es) h = (ground (arith, h.0), All-IsAmong-cons id ids es h.1)

contains-own : (id : Text) (ids : List Text) → contains (id ∷ ids) id ≡ true
unfolding contains
contains-own id ids = ground (arith, eq_text_refl id)

All-IsAmong-grown :
    (e : Execution) (es : List Execution) (ids : List Text)
    → All (IsAmong ids) es
    → (there : Bool) → contains ids e.profile_id ≡ there
    → All (IsAmong (if there then ids else e.profile_id ∷ ids)) (e ∷ es)
All-IsAmong-grown e es ids h true is = (is, h)
All-IsAmong-grown e es ids h false is =
    (contains-own e.profile_id ids, All-IsAmong-cons e.profile_id ids es h)

execution_ids-IsAmong : (es : List Execution) → All (IsAmong (execution_ids es)) es
unfolding execution_ids
execution_ids-IsAmong [] = tt
execution_ids-IsAmong (e ∷ es) =
    All-IsAmong-grown e es (execution_ids es) (execution_ids-IsAmong es)
      (contains (execution_ids es) e.profile_id) refl

cleanup_all_executions-nil :
    (H : Host) (s : Manager H)
    → Post (cleanup_all_executions H) (λ e t. e ≡ [] → t.executions ≡ []) s
unfolding cleanup_all_executions
cleanup_all_executions-nil H s = Post-get _ _ _ s (
    Post-mono _ _ _ s (clean_ids-nil H (execution_ids s.executions) s) λ e t p nil.
      p nil
      ∙ left_after-nil (execution_ids s.executions) s.executions
          (execution_ids-IsAmong s.executions))

-- After `cleanupAllExecutions` every private copy that the manager knew of is removed, its directory
-- with it, or still known to the manager; without an error all of them are removed and none is left.
pub cleanup_all_executions-Cleaned :
    (H : Host) (s : Manager H)
    → Post
        (cleanup_all_executions H)
        (λ e t.
          Accounts H s.executions t.executions
          × (e ≡ []
              → (t.executions ≡ []) × ((c : ExecutionCopy) → Held c s.executions → IsRemoved H c)))
        s
cleanup_all_executions-Cleaned H s =
    Post-mono _ _ _ s
      (Post-both (Accounted-cleanup_all_executions.accounts s) (cleanup_all_executions-nil H s))
      λ e t p. (p.0, λ nil. (p.1 nil, Accounts-none p.0 (p.1 nil)))
