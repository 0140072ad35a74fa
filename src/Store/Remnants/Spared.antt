-- ===== src/Store/Remnants/Spared.antt =====
-- `cleanupRemnants` moves away no object that a profile refers to.
use tunnelfolio.Prelude.{
  ℕ, Bool, true, false, not, ◌||◌, Option, none, some, List, [], ◌∷◌, ◌≡◌, refl, if◌then◌else◌,
}
use tunnelfolio.Prelude.Text.{Text, codes, contains, eq_text}
use tunnelfolio.Prelude.Err.{Err, is_nil}
use tunnelfolio.Prelude.Exec.{Exec, ◌>>=◌, pure, unless_err, Post, Post-pure, Post-if, Post-bind}
use tunnelfolio.Policy.{Checked, pass, reject}
use tunnelfolio.Profiles.Model.{Manifest, protocol_openvpn, protocol_wireguard, id_pattern}
use tunnelfolio.Store.Host.{Host, FilePath, Entry}
use tunnelfolio.Store.Removal.{in_turn, library_dir}
use tunnelfolio.Store.Remnants.{
  garbage_dir, reference, references, is_object_name, remove_entries, empty_special,
  move_to_garbage, read_named, read_unreferenced, move_accepted, quarantine_opened,
  quarantine_unreferenced, sweep, sweep_protocol, cleanup_remnants,
}

-- A call after which `P` still holds.
abbrev pub Stays {ℓ} : {S : Type 0} {A : Type ℓ} → (S → Type 0) → Exec S A → Type 0
Stays {S = S} P m = (w : S) → P w → Post m (λ _ v. P v) w

-- `P` holds of the files as long as none is moved or removed but in the directories of unfinished
-- work, or by the move of an object without a reference.
pub record Spares (H : Host) (P : H.World → Type 0) (referenced : List Text) : Type 0 where
  pub open_private_dir : (p : FilePath) → Stays P (H.open_private_dir p)
  pub open_dir_at : (p : FilePath) (name : Text) → Stays P (H.open_dir_at p name)
  pub close : (p : FilePath) → Stays P (H.close p)
  pub sync : (p : FilePath) → Stays P (H.sync p)
  pub read_dir : (p : FilePath) → Stays P (H.read_dir p)
  pub read_file_at :
      (p : FilePath) (name : Text) (limit : ℕ) → Stays P (H.read_file_at p name limit)
  pub remove_special :
      (special name : Text)
      → contains (codes ".transactions" ∷ codes ".garbage" ∷ codes ".executions" ∷ []) special
        ≡ true
      → Stays P (H.remove_tree_at (library_dir special) name)
  pub move_unreferenced :
      (protocol id name : Text)
      → contains referenced (reference protocol id) ≡ false
      → Stays P (H.rename_no_replace (library_dir protocol) id garbage_dir name)

module _ {ℓ} {S : Type 0} {A : Type ℓ} (P : S → Type 0) where
  Stays-pure : (a : A) → Stays P (pure {S = S} a)
  Stays-pure a w p = Post-pure a _ w p

  Stays-if :
      (b : Bool) (m n : Exec S A)
      → (b ≡ true → Stays P m)
      → (b ≡ false → Stays P n)
      → Stays P (if b then m else n)
  Stays-if b m n h k w p = Post-if b m n _ w (λ e. h e w p) (λ e. k e w p)

  Stays-unless :
      (e : Err) (give : Err → A) (m : Exec S A) → Stays P m → Stays P (unless_err e give m)
  unfolding unless_err
  Stays-unless e give m h =
      Stays-if (is_nil e) m (pure (give e)) (λ _. h) (λ _. Stays-pure (give e))

Stays-bind {ℓ κ} :
    {S : Type 0} {A : Type ℓ} {B : Type κ} (P : S → Type 0) (m : Exec S A) (f : A → Exec S B)
    → Stays P m
    → ((a : A) → Stays P (f a))
    → Stays P (m >>= f)
Stays-bind P m f h k w p = Post-bind m f _ _ w (h w p) (λ a v q. k a v q)

-- The call goes on where there is no error.
Stays-next :
    {S : Type 0} (P : S → Type 0) (e : Err) (m : Exec S Err)
    → Stays P m
    → Stays P (elim (is_nil e) [ true ↦ m | false ↦ pure e ])
Stays-next P [] m h = h
Stays-next P (x ∷ e) m h = Stays-pure P (x ∷ e)

data AllStay {S : Type 0} (P : S → Type 0) : List (Exec S Err) → Type 0 where
  no_call : AllStay P []
  call_then :
      {call : Exec S Err} {calls : List (Exec S Err)}
      → Stays P call
      → AllStay P calls
      → AllStay P (call ∷ calls)

in_turn-Stays :
    {S : Type 0} (P : S → Type 0) (calls : List (Exec S Err))
    → AllStay P calls
    → Stays P (in_turn calls)
unfolding in_turn
in_turn-Stays P [] no_call = Stays-pure P []
in_turn-Stays P (call ∷ calls) (call_then stays rest) =
    Stays-bind P _ _ stays (λ e. Stays-next P e (in_turn calls) (in_turn-Stays P calls rest))

special_garbage :
    contains
      (codes ".transactions" ∷ codes ".garbage" ∷ codes ".executions" ∷ [])
      (codes ".garbage")
    ≡ true
unfolding contains eq_text
special_garbage = refl

module _ (H : Host) (P : H.World → Type 0) (referenced : List Text)
    (spares : Spares H P referenced) where
  remove_entries-Stays :
      (special : Text) (entries : List Entry)
      → contains (codes ".transactions" ∷ codes ".garbage" ∷ codes ".executions" ∷ []) special
        ≡ true
      → Stays P (remove_entries H (library_dir special) entries)
  unfolding remove_entries
  remove_entries-Stays special [] h = Stays-pure P []
  remove_entries-Stays special (entry ∷ entries) h =
      Stays-if P (not entry.is_dir) _ _ (λ _. Stays-pure P _)
        λ _.
          Stays-bind P _ _ (spares.remove_special special entry.name h)
            λ e. Stays-next P e _ (remove_entries-Stays special entries h)

  empty_special-Stays :
      (special : Text)
      → contains (codes ".transactions" ∷ codes ".garbage" ∷ codes ".executions" ∷ []) special
        ≡ true
      → Stays P (empty_special H special)
  unfolding empty_special
  empty_special-Stays special h = Stays-bind P _ _ (spares.open_private_dir _) λ opened.
      Stays-unless P opened _ _ (
        Stays-bind P _ _ (spares.read_dir _) λ listed.
          Stays-bind P _ _ (Stays-unless P listed.1 _ _ (remove_entries-Stays special listed.0 h))
            λ removed.
              Stays-bind P _ _ (Stays-unless P removed _ _ (spares.sync _))
                λ e. Stays-bind P _ _ (spares.close _) λ _. Stays-pure P e)

  module _ (protocol id : Text) (free : contains referenced (reference protocol id) ≡ false) where
    move_to_garbage-Stays : Stays P (move_to_garbage H protocol id)
    unfolding move_to_garbage
    move_to_garbage-Stays = Stays-bind P _ _ (spares.open_private_dir _) λ opened.
        Stays-unless P opened _ _ (
          Stays-bind P _ _
            (in_turn-Stays P _ (
              call_then (spares.move_unreferenced protocol id _ free) (
                call_then
                  (Stays-bind P _ _ (spares.sync _)
                    λ e. Stays-bind P _ _ (spares.sync _) λ f. Stays-pure P _)
                  (call_then (spares.remove_special (codes ".garbage") _ special_garbage)
                    (call_then (spares.sync _) no_call)))))
            λ e. Stays-bind P _ _ (spares.close _) λ _. Stays-pure P e)

    read_named-Stays :
        (dir : FilePath) (name : Option Text) → Stays P (read_named H dir protocol name)
    unfolding read_named
    read_named-Stays dir none = Stays-pure P _
    read_named-Stays dir (some name) =
        Stays-if P (is_object_name protocol name) _ _ (λ _. spares.read_file_at _ _ _)
          (λ _. Stays-pure P _)

    read_unreferenced-Stays : (dir : FilePath) → Stays P (read_unreferenced H dir protocol)
    unfolding read_unreferenced
    read_unreferenced-Stays dir =
        Stays-bind P _ _ (spares.read_dir _)
          λ listed. Stays-unless P listed.1 _ _ (read_named-Stays dir _)

    move_accepted-Stays : (c : Checked Text) → Stays P (move_accepted H protocol id c)
    unfolding move_accepted
    move_accepted-Stays (reject _ _) = Stays-pure P _
    move_accepted-Stays (pass _) = move_to_garbage-Stays

    quarantine_unreferenced-Stays : Stays P (quarantine_unreferenced H protocol id)
    unfolding quarantine_unreferenced quarantine_opened
    quarantine_unreferenced-Stays = Stays-bind P _ _ (spares.open_private_dir _) λ opened.
        Stays-unless P opened _ _ (
          Stays-bind P _ _
            (Stays-bind P _ _ (spares.open_dir_at _ _) λ inner. Stays-unless P inner _ _ (
              Stays-bind P _ _ (read_unreferenced-Stays _) λ file.
                Stays-bind P _ _ (spares.close _)
                  λ _. Stays-unless P file.1 _ _ (move_accepted-Stays _)))
            λ e. Stays-bind P _ _ (spares.close _) λ _. Stays-pure P e)

  sweep-Stays :
      (protocol : Text) (entries : List Entry) → Stays P (sweep H referenced protocol entries)
  unfolding sweep
  sweep-Stays protocol [] = Stays-pure P []
  sweep-Stays protocol (entry ∷ entries) =
      Stays-if P (contains referenced (reference protocol entry.name)) _ _
        (λ _. sweep-Stays protocol entries)
        λ free.
          Stays-if P (not entry.is_dir || not (id_pattern entry.name)) _ _ (λ _. Stays-pure P _)
            λ _.
              Stays-bind P _ _ (quarantine_unreferenced-Stays protocol entry.name free)
                λ e. Stays-next P e _ (sweep-Stays protocol entries)

  sweep_protocol-Stays : (protocol : Text) → Stays P (sweep_protocol H referenced protocol)
  unfolding sweep_protocol
  sweep_protocol-Stays protocol = Stays-bind P _ _ (spares.open_private_dir _) λ opened.
      Stays-unless P opened _ _ (
        Stays-bind P _ _ (spares.read_dir _) λ listed.
          Stays-bind P _ _ (spares.close _)
            λ _. Stays-unless P listed.1 _ _ (sweep-Stays protocol listed.0))

-- `cleanupRemnants` keeps whatever is true of the files and stays true as long as nothing is moved
-- but objects that no profile of the manifest refers to, and nothing removed but in the directories
-- of unfinished work.
pub cleanup_remnants-Stays :
    (H : Host) (P : H.World → Type 0) (m : Manifest)
    → Spares H P (references m.profiles)
    → Stays P (cleanup_remnants H m)
unfolding cleanup_remnants contains eq_text
cleanup_remnants-Stays H P m spares = in_turn-Stays P _ (
    call_then (empty_special-Stays H P _ spares (codes ".transactions") refl) (
      call_then (empty_special-Stays H P _ spares (codes ".garbage") refl) (
        call_then (empty_special-Stays H P _ spares (codes ".executions") refl) (
          call_then (sweep_protocol-Stays H P _ spares protocol_openvpn)
            (call_then (sweep_protocol-Stays H P _ spares protocol_wireguard) no_call)))))
