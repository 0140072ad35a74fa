-- ===== src/Store/Publish/Quiet.antt =====
-- On a machine whose calls succeed, the files of a publication are moved without an error.
use tunnelfolio.Prelude.{String, true, not, ◌||◌, List, [], ◌∷◌, map, ◌≡◌, subst, arith}
use tunnelfolio.Prelude.Text.{Text}
use tunnelfolio.Prelude.Err.{Err, is_nil, is_err, exists}
use tunnelfolio.Prelude.Exec.{Exec, Post-pure, Post-if, Post-bind}
use tunnelfolio.Store.Host.{Host, FilePath}
use tunnelfolio.Store.Calm.{
  Quiet, Calm, Post-nil, Post-not_nil, AllQuiet, no_call, call_then, absurd_nil, in_turn-Quiet,
}
use tunnelfolio.Store.Staging.{
  NewObject, close_boundary, stage_object, publish_object, publish_files, clean_transaction,
}

no_sentinel : (e : Err) → e ≡ [] → is_err e exists ≡ true → ⊥
unfolding is_err
no_sentinel e nil h = cc (subst (λ d. is_err d exists ≡ true) nil h)

module _ (H : Host) (calm : Calm H) where
  pub close_boundary-Quiet :
      (before after : String) (path : FilePath) → Quiet (close_boundary H before after path)
  unfolding close_boundary
  close_boundary-Quiet before after path w =
      Post-bind _ _ _ _ w (calm.checkpoint before w) λ b v nil.
        Post-bind _ _ _ _ v (calm.close path v) λ c u also.
          Post-if (not (is_nil b) || not (is_nil c)) _ _ _ u
            (λ bad. absurd (ground (arith, nil, also, bad))) (λ _. calm.checkpoint after u)

  stage_object-Quiet :
      (transaction : FilePath) (o : NewObject) → Quiet (stage_object H transaction o)
  unfolding stage_object
  stage_object-Quiet transaction o w =
      Post-bind _ _ _ _ w
        (in_turn-Quiet _
          (call_then (calm.checkpoint _)
            (call_then (calm.checkpoint _) (call_then (calm.mkdir_exclusive _ _) no_call)))
          w)
        λ made v nil. Post-nil made _ _ _ v nil (
          Post-bind _ _ _ _ v (calm.checkpoint _ v) λ e u nil'. Post-not_nil e _ _ _ u nil' (
            Post-bind _ _ _ _ u
              (in_turn-Quiet _
                (call_then (calm.checkpoint _) (
                  call_then (calm.write_exclusive _ _ _) (
                    call_then (calm.checkpoint _) (
                      call_then (calm.checkpoint _)
                        (call_then (calm.sync _) (call_then (calm.checkpoint _) no_call))))))
                u)
              λ written x fine.
                Post-bind _ _ _ _ x (close_boundary-Quiet _ _ _ x)
                  λ closed y shut. Post-pure _ _ y (rw (fine, shut))))

  publish_object-Quiet :
      (transaction : FilePath) (o : NewObject) → Quiet (publish_object H transaction o)
  unfolding publish_object
  publish_object-Quiet transaction o w =
      Post-bind _ _ _ _ w
        (in_turn-Quiet _
          (call_then (calm.checkpoint _) (call_then (calm.open_private_dir _) no_call)) w)
        λ opened v nil. Post-nil opened _ _ _ v nil (
          Post-bind _ _ _ _ v (calm.checkpoint _ v) λ e u nil'. Post-not_nil e _ _ _ u nil' (
            Post-bind _ _ _ _ u
              (in_turn-Quiet _
                (call_then (calm.checkpoint _) (call_then (calm.rename_no_replace _ _ _ _) no_call))
                u)
              λ renamed x fine.
                Post-bind _ _ (λ e _. e ≡ []) _ x
                  (Post-if (is_err renamed exists) _ _ _ x
                    (λ bad. absurd (no_sentinel renamed fine bad)) (λ _. Post-pure _ _ x fine))
                  λ moved y still.
                    Post-bind _ _ (λ e _. e ≡ []) _ y
                      (Post-nil moved _ _ _ y still (
                        in_turn-Quiet _
                          (call_then (calm.checkpoint _) (
                            call_then (calm.checkpoint _)
                              (call_then (calm.sync _) (call_then (calm.checkpoint _) no_call))))
                          y))
                      λ synced z flushed.
                        Post-bind _ _ _ _ z (close_boundary-Quiet _ _ _ z)
                          λ closed a shut. Post-pure _ _ a (rw (flushed, shut))))

  map-AllQuiet :
      (call : NewObject → Exec H.World Err) (objects : List NewObject)
      → ((o : NewObject) → Quiet (call o))
      → AllQuiet (map call objects)
  map-AllQuiet call [] h = no_call
  map-AllQuiet call (o ∷ os) h = call_then (h o) (map-AllQuiet call os h)

  pub publish_files-Quiet :
      (transaction : FilePath) (objects : List NewObject)
      → Quiet (publish_files H transaction objects)
  unfolding publish_files
  publish_files-Quiet transaction objects = in_turn-Quiet _ (
      call_then (calm.checkpoint _) (
        call_then (in_turn-Quiet _ (map-AllQuiet _ objects (stage_object-Quiet transaction))) (
          call_then (calm.checkpoint _) (
            call_then (calm.sync _) (
              call_then (calm.checkpoint _) (
                call_then
                  (in_turn-Quiet _ (map-AllQuiet _ objects (publish_object-Quiet transaction)))
                  no_call))))))

  pub clean_transaction-Quiet : (name : Text) → Quiet (clean_transaction H name)
  unfolding clean_transaction
  clean_transaction-Quiet name w =
      Post-bind _ _ _ _ w
        (in_turn-Quiet _
          (call_then (calm.checkpoint _) (
            call_then (calm.remove_tree_at _ _) (
              call_then (calm.checkpoint _) (
                call_then (calm.checkpoint _)
                  (call_then (calm.sync _) (call_then (calm.checkpoint _) no_call))))))
          w)
        λ e v nil.
          Post-if (is_nil e) _ _ _ v (λ _. close_boundary-Quiet _ _ _ v) (λ bad. absurd_nil nil bad)
