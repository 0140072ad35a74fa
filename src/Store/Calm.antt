-- ===== src/Store/Calm.antt =====
-- A machine on which every call of `Publish` succeeds, and the rules for calls that return nil.
use tunnelfolio.Prelude.{
  String, true, false, not, List, [], ◌∷◌, ◌≡◌, refl, sym, subst, arith, if◌then◌else◌,
}
use tunnelfolio.Prelude.Text.{Text}
use tunnelfolio.Prelude.Err.{Err, is_nil}
use tunnelfolio.Prelude.Exec.{
  Exec, pure, unless_err, Post, Post-pure, Post-if, Post-unless, Post-bind,
}
use tunnelfolio.Profiles.Model.{Manifest}
use tunnelfolio.Store.Host.{Host, FilePath}
use tunnelfolio.Store.Removal.{in_turn}

-- The call returns nil, from every state.
abbrev pub Quiet {ℓ} : {S : Type ℓ} → Exec S Err → Type ℓ
Quiet {S = S} m = (w : S) → Post m (λ e v. e ≡ []) w

pub record Calm (H : Host) : Type 0 where
  pub writable : H.read_only ≡ false
  pub open_private_dir : (p : FilePath) → Quiet (H.open_private_dir p)
  pub close : (p : FilePath) → Quiet (H.close p)
  pub sync : (p : FilePath) → Quiet (H.sync p)
  pub mkdir_exclusive : (p : FilePath) (name : Text) → Quiet (H.mkdir_exclusive p name)
  pub write_exclusive : (p : FilePath) (name bytes : Text) → Quiet (H.write_exclusive p name bytes)
  pub rename_no_replace :
      (p : FilePath) (name : Text) (q : FilePath) (other : Text)
      → Quiet (H.rename_no_replace p name q other)
  pub remove_tree_at : (p : FilePath) (name : Text) → Quiet (H.remove_tree_at p name)
  pub write_json_atomic :
      (m : Manifest) (w : H.World)
      → Post (H.write_json_atomic m) (λ r v. (r.err ≡ []) × (r.durable ≡ true)) w
  pub random : (w : H.World) → Post H.random (λ r v. r.1 ≡ []) w
  pub checkpoint : (name : String) → Quiet (H.checkpoint name)

pub absurd_nil {ℓ} : {A : Type ℓ} {e : Err} → e ≡ [] → is_nil e ≡ false → A
absurd_nil nil bad = absurd (ground (arith, nil, bad))

pub absurd_not_nil {ℓ} : {A : Type ℓ} {e : Err} → e ≡ [] → not (is_nil e) ≡ true → A
absurd_not_nil nil bad = absurd (ground (arith, nil, bad))

-- The part of a block that follows a nil error.
pub Post-nil {ℓ κ μ} :
    {S : Type ℓ} {A : Type κ} (e : Err) (give : Err → A) (m : Exec S A) (Q : A → S → Type μ) (s : S)
    → e ≡ []
    → Post m Q s
    → Post (unless_err e give m) Q s
Post-nil e give m Q s nil p = Post-unless e give m Q s (λ bad. absurd_nil nil bad) (λ _. p)

pub Post-not_nil {ℓ κ μ} :
    {S : Type ℓ} {A : Type κ} (e : Err) (m n : Exec S A) (Q : A → S → Type μ) (s : S)
    → e ≡ []
    → Post n Q s
    → Post (if not (is_nil e) then m else n) Q s
Post-not_nil e m n Q s nil p =
    Post-if (not (is_nil e)) m n Q s (λ bad. absurd_not_nil nil bad) (λ _. p)

pub data AllQuiet {ℓ} {S : Type ℓ} : List (Exec S Err) → Type ℓ where
  no_call : AllQuiet []
  call_then :
      {call : Exec S Err} {calls : List (Exec S Err)}
      → Quiet call
      → AllQuiet calls
      → AllQuiet (call ∷ calls)

pub in_turn-Quiet {ℓ} :
    {S : Type ℓ} (calls : List (Exec S Err)) → AllQuiet calls → Quiet (in_turn calls)
unfolding in_turn
in_turn-Quiet [] no_call w = Post-pure [] _ w refl
in_turn-Quiet (call ∷ calls) (call_then quiet rest) w = Post-bind _ _ _ _ w (quiet w) λ e v nil.
    subst (λ d. Post (elim (is_nil d) [ true ↦ in_turn calls | false ↦ pure d ]) (λ e v. e ≡ []) v)
      (sym nil) (in_turn-Quiet calls rest v)
