-- ===== src/Store/Execution/Removed.antt =====
-- internal/profiles/store.go: what the clean-up of a private copy has done when it succeeds.
use tunnelfolio.Prelude.{false, true, ◌||◌, [], ◌∷◌, ◌≡◌, refl, ap, ◌∙◌, sym, from_false}
use tunnelfolio.Prelude.Err.{Err, is_nil, is_err, not_exist, is_nil-append}
use tunnelfolio.Prelude.Exec.{Post, Post-pure, Post-if, Post-unless, Post-bind}
use tunnelfolio.Store.Host.{Host}
use tunnelfolio.Store.Execution.{ExecutionCopy, executions_dir, cleanup_copy}

-- The directory of the copy was removed, or was not there, and the directory that held it was synced.
pub record IsRemoved (H : Host) (c : ExecutionCopy) : Type 0 where
  pub at_removal : H.World
  pub at_sync : H.World
  pub answer : Err
  pub removal : (H.remove_tree_at executions_dir c.directory at_removal).0 ≡ answer
  pub gone : (is_nil answer || is_err answer not_exist) ≡ true
  pub synced : (H.sync executions_dir at_sync).0 ≡ []

pub cleanup_copy-IsRemoved :
    (H : Host) (c : ExecutionCopy) (w : H.World)
    → Post (cleanup_copy H c) (λ e _. e ≡ [] → IsRemoved H c) w
unfolding cleanup_copy
cleanup_copy-IsRemoved H c w =
    Post-bind _ _ (λ _ _. Unit {0}) _ w (record { holds = tt })
      λ opened w1 _.
        Post-unless opened _ _ _ w1 (λ bad nil. from_false (sym bad ∙ ap is_nil nil))
          λ _.
            Post-bind _ _ (λ a _. (H.remove_tree_at executions_dir c.directory w1).0 ≡ a) _ w1
              (record { holds = refl })
              λ removed w2 is.
                Post-bind _ _ (λ e _. e ≡ [] → IsRemoved H c) _ w2
                  (Post-if (is_nil removed || is_err removed not_exist) _ _ _ w2
                    (λ gone. record {
                      holds = λ nil. record {
                        at_removal = w1;
                        at_sync = w2;
                        answer = removed;
                        removal = is;
                        gone = gone;
                        synced = nil;
                      };
                    })
                    (λ there. Post-pure _ _ w2 (λ nil. from_false (by_nil removed there nil))))
                  λ e w3 done.
                    Post-bind _ _ (λ _ _. Unit {0}) _ w3 (record { holds = tt })
                      λ closed w4 _.
                        Post-pure _ _ w4 (λ nil. done (is_nil-append e closed (ap is_nil nil)).0)
  where
    by_nil : (e : Err) → (is_nil e || is_err e not_exist) ≡ false → e ≡ [] → false ≡ true
    by_nil [] there nil = sym there
    by_nil (x ∷ e) there nil = cc
