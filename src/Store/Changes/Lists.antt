-- ===== src/Store/Changes/Lists.antt =====
-- The lists of identifiers that the operations write: no repetition, within the limit, and nothing
-- that was not there.
use mathlib.Core.List.{append-nil, append_assoc}
use tunnelfolio.Prelude.{
  ℕ, zero, suc, ◌+◌, ◌≤◌, Bool, true, false, not, ◌&&◌, ◌||◌, List, [], ◌∷◌, ◌++◌, ◌≡◌, refl, sym,
  ◌∙◌, ap, arith, ◌==◌, Bool-cases, inl, inr,
}
use tunnelfolio.Prelude.Lists.{length, length-append, length-take-le, take, keep, All}
use tunnelfolio.Prelude.Text.{
  Text, eq_text, eq_text_iff, eq_text_refl, is_empty, contains, IsDistinct,
}
use tunnelfolio.Prelude.Int.{ℤ}
use tunnelfolio.Profiles.Model.{Manifest}
use tunnelfolio.Store.Changes.{prepend_loop, prepend_unique, remove_id, connection_change}

-- One round: the loop goes on, or stops with the list full.
prepend_loop-same :
    (v : Text) (values : List Text) (value : Text) (limit : ℕ) (result : List Text)
    → eq_text v value ≡ true
    → (length result == limit) ≡ false
    → prepend_loop value limit result (v ∷ values) ≡ prepend_loop value limit result values
unfolding prepend_loop
prepend_loop-same v values value limit result same open_ = rw same (rw open_)

prepend_loop-full :
    (v : Text) (values : List Text) (value : Text) (limit : ℕ) (result : List Text)
    → eq_text v value ≡ false
    → (length (result ++ v ∷ []) == limit) ≡ true
    → prepend_loop value limit result (v ∷ values) ≡ result ++ v ∷ []
unfolding prepend_loop
prepend_loop-full v values value limit result other full = rw other (rw full)

prepend_loop-more :
    (v : Text) (values : List Text) (value : Text) (limit : ℕ) (result : List Text)
    → eq_text v value ≡ false
    → (length (result ++ v ∷ []) == limit) ≡ false
    → prepend_loop value limit result (v ∷ values)
      ≡ prepend_loop value limit (result ++ v ∷ []) values
unfolding prepend_loop
prepend_loop-more v values value limit result other open_ = rw other (rw open_)

remove_id-same :
    (v : Text) (values : List Text) (value : Text)
    → eq_text v value ≡ true
    → remove_id (v ∷ values) value ≡ remove_id values value
unfolding remove_id
remove_id-same v values value same = rw same

remove_id-other :
    (v : Text) (values : List Text) (value : Text)
    → eq_text v value ≡ false
    → remove_id (v ∷ values) value ≡ v ∷ remove_id values value
unfolding remove_id
remove_id-other v values value other = rw other

-- The loop, which copies and stops, against `take` and the list without the value.
prepend_loop-take :
    (values : List Text) (value : Text) (room limit : ℕ) (result : List Text)
    → limit ≡ length result + suc room
    → prepend_loop value limit result values ≡ result ++ take (suc room) (remove_id values value)
prepend_loop-take [] value room limit result e =
    unfold prepend_loop remove_id in sym (append-nil result)
prepend_loop-take (v ∷ values) value room limit result e = elim (Bool-cases (eq_text v value)) [
  | inl same ↦
      prepend_loop-same v values value limit result same (ground arith)
      ∙ prepend_loop-take values value room limit result e
      ∙ ap (λ l. result ++ take (suc room) l) (sym (remove_id-same v values value same))
  | inr other ↦
      next room (λ k. prepend_loop-take values value k limit (result ++ v ∷ [])) e other
      ∙ ap (λ l. result ++ take (suc room) l) (sym (remove_id-other v values value other))
]
  where
    next :
        (n : ℕ)
        → ((k : ℕ)
            → limit ≡ length (result ++ v ∷ []) + suc k
            → prepend_loop value limit (result ++ v ∷ []) values
              ≡ (result ++ v ∷ []) ++ take (suc k) (remove_id values value))
        → limit ≡ length result + suc n
        → eq_text v value ≡ false
        → prepend_loop value limit result (v ∷ values)
          ≡ result ++ v ∷ take n (remove_id values value)
    next zero ih e other =
        prepend_loop-full v values value limit result other
          (ground (arith, length-append result (v ∷ [])))
    next (suc n) ih e other =
        prepend_loop-more v values value limit result other
          (ground (arith, length-append result (v ∷ [])))
        ∙ ih n (ground (arith, length-append result (v ∷ [])))
        ∙ append_assoc result (v ∷ []) (take (suc n) (remove_id values value))

-- `prependUnique` with a limit of two or more is the value followed by the first limit - 1 of the
-- other values.
pub prepend_unique-take :
    (values : List Text) (value : Text) (room : ℕ)
    → prepend_unique values value (suc (suc room))
      ≡ value ∷ take (suc room) (remove_id values value)
unfolding prepend_unique
prepend_unique-take values value room =
    prepend_loop-take values value room (suc (suc room)) (value ∷ []) (omega arith)

pub contains-append :
    (xs ys : List Text) (v : Text) → contains (xs ++ ys) v ≡ (contains xs v || contains ys v)
unfolding contains
contains-append [] ys v = refl
contains-append (x ∷ xs) ys v = ground (arith, contains-append xs ys v)

pub contains-remove_id :
    (values : List Text) (value v : Text)
    → contains (remove_id values value) v ≡ (contains values v && not (eq_text v value))
unfolding contains remove_id
contains-remove_id [] value v = ground arith
contains-remove_id (x ∷ values) value v = ground (
  arith,
  contains-remove_id values value v,
  eq_text_iff x v,
  eq_text_iff x value,
  eq_text_iff v value,
)

pub IsDistinct-remove_id :
    (values : List Text) (value : Text) → IsDistinct values → IsDistinct (remove_id values value)
unfolding remove_id
IsDistinct-remove_id [] value d = tt
IsDistinct-remove_id (x ∷ values) value d =
    ground (arith, IsDistinct-remove_id values value, contains-remove_id values value x)

contains-take :
    (n : ℕ) (xs : List Text) (v : Text) → contains xs v ≡ false → contains (take n xs) v ≡ false
unfolding contains
contains-take zero xs v h = refl
contains-take (suc n) [] v h = refl
contains-take (suc n) (x ∷ xs) v h = ground (arith, contains-take n xs v)

pub IsDistinct-take : (n : ℕ) (xs : List Text) → IsDistinct xs → IsDistinct (take n xs)
IsDistinct-take zero xs d = tt
IsDistinct-take (suc n) [] d = tt
IsDistinct-take (suc n) (x ∷ xs) d = (contains-take n xs x d.0, IsDistinct-take n xs d.1)

pub All-take {ℓ κ} :
    {A : Type ℓ} (P : A → Type κ) (n : ℕ) (xs : List A) → All P xs → All P (take n xs)
All-take P zero xs h = tt
All-take P (suc n) [] h = tt
All-take P (suc n) (x ∷ xs) h = (h.0, All-take P n xs h.1)

pub All-keep {ℓ κ} :
    {A : Type ℓ} (P : A → Type κ) (p : A → Bool) (xs : List A) → All P xs → All P (keep p xs)
All-keep P p [] h = tt
All-keep P p (x ∷ xs) h = elim (Bool-cases (p x)) [
  | inl kept ↦ rw kept (h.0, All-keep P p xs h.1)
  | inr left ↦ rw left (All-keep P p xs h.1)
]

-- The list of recents that `SetConnection` writes: the profile first, no repetition, at most five,
-- and only the profile and recents of before.
pub record IsRecents (before : List Text) (id : Text) (after : List Text) : Type 0 where
  pub rest : List Text
  pub first : after ≡ id ∷ rest
  pub distinct : IsDistinct after
  pub fits : length after ≤ 5
  pub from_before : (v : Text) → contains rest v ≡ true → contains before v ≡ true

-- With room for five.
pub prepend_unique-IsRecents :
    (before : List Text) (id : Text)
    → IsDistinct before
    → IsRecents before id (prepend_unique before id 5)
prepend_unique-IsRecents before id d = rw (prepend_unique-take before id 3) (record {
  rest = others;
  first = refl;
  distinct = (absent, IsDistinct-take 4 (remove_id before id) (IsDistinct-remove_id before id d));
  fits = omega (arith, length-take-le 4 (remove_id before id));
  from_before = λ v h. known v h;
})
  where
    others : List Text
    others = take 4 (remove_id before id)

    absent : contains others id ≡ false
    absent =
        contains-take 4 (remove_id before id) id
          (ground (arith, contains-remove_id before id id, eq_text_refl id))

    known : (v : Text) → contains others v ≡ true → contains before v ≡ true
    known v h =
        ground (arith, contains-remove_id before id v, contains-take 4 (remove_id before id) v)

-- Recording a connection as recent puts the profile first in the recents, without repetition, with
-- at most five entries, and otherwise only recents of before; without that the recents stay.
pub connection_change-IsRecents :
    (desired : Text) (at : ℤ) (m : Manifest)
    → is_empty desired ≡ false
    → IsDistinct m.recents
    → IsRecents m.recents desired (connection_change desired at true m).recents
      × ((connection_change desired at false m).recents ≡ m.recents)
unfolding connection_change
connection_change-IsRecents desired at m named distinct =
    (rw named (prepend_unique-IsRecents m.recents desired distinct), refl)
