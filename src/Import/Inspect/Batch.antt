-- ===== src/Import/Inspect/Batch.antt =====
-- The records of an inspection: what one record adds to a list of them.
use tunnelfolio.Prelude.{
  ℕ, suc, Bool, true, false, ◌&&◌, ◌↔◌, none, List, [], ◌∷◌, ◌≡◌, refl, subst, arith, if◌then◌else◌,
}
use tunnelfolio.Prelude.Lists.{All}
use tunnelfolio.Prelude.Text.{Text, eq_text, contains, IsDistinct}
use tunnelfolio.Prelude.Int.{pos}
use tunnelfolio.Profiles.Model.{Profile}
use tunnelfolio.Profiles.Manifest.Sound.{contents, Avoids, Avoids-cons}
use tunnelfolio.Import.Model.{InspectionRecord, Issue}
use tunnelfolio.Import.Inspect.{Known, Inspected, disposition_new, already_imported, find_content}

-- The identifiers and the fingerprints of the records that are new.
unfoldable pub new_identifiers : List InspectionRecord → List Text
new_identifiers [] = []
new_identifiers (r ∷ rs) =
    let rest = new_identifiers rs in
    if eq_text r.disposition disposition_new then r.identifier ∷ rest else rest

unfoldable pub new_digests : List InspectionRecord → List Text
new_digests [] = []
new_digests (r ∷ rs) =
    let rest = new_digests rs in
    if eq_text r.disposition disposition_new then r.digest ∷ rest else rest

-- The ordinals count on from a number.
abbrev pub IsNumbered : ℕ → List InspectionRecord → Type 0
IsNumbered n [] = Unit
IsNumbered n (r ∷ rs) = (r.ordinal ≡ pos n) × IsNumbered (suc n) rs

-- The records of files, behind what is known: numbered, ready if there is no issue, and with a fresh
-- identifier for each content that is new.
pub record IsBatch (n : ℕ) (known : Known) (rs : List InspectionRecord) (ready : Bool)
    : Type 0 where
  pub numbered : IsNumbered n rs
  pub ready_iff : (ready ≡ true) ↔ All (λ r. r.issues ≡ []) rs
  pub identifiers_distinct : IsDistinct (new_identifiers rs)
  pub identifiers_fresh : Avoids known.identifiers (new_identifiers rs)
  pub contents_distinct : IsDistinct (new_digests rs)
  pub contents_fresh : Avoids (contents known.by_digest) (new_digests rs)

-- The record of one file.
pub data IsInspected (n : ℕ) (known : Known) (i : Inspected) : Type 0 where
  with_issue :
      (issue : Issue)
      → i.entry.ordinal ≡ pos n
      → i.entry.issues ≡ issue ∷ []
      → i.entry.disposition ≡ []
      → i.ready ≡ false
      → i.known ≡ known
      → IsInspected n known i
  existing :
      i.entry.ordinal ≡ pos n
      → i.entry.issues ≡ []
      → i.entry.disposition ≡ already_imported
      → i.ready ≡ true
      → i.known ≡ known
      → IsInspected n known i
  new :
      i.entry.ordinal ≡ pos n
      → i.entry.issues ≡ []
      → i.entry.disposition ≡ disposition_new
      → i.ready ≡ true
      → contains known.identifiers i.entry.identifier ≡ false
      → contains (contents known.by_digest) i.entry.digest ≡ false
      → i.known.identifiers ≡ i.entry.identifier ∷ known.identifiers
      → contents i.known.by_digest ≡ i.entry.digest ∷ contents known.by_digest
      → IsInspected n known i

-- Only a new record adds to what is new.
not_new :
    (rs : List InspectionRecord) (r : InspectionRecord)
    → eq_text r.disposition disposition_new ≡ false
    → (new_identifiers (r ∷ rs) ≡ new_identifiers rs) × (new_digests (r ∷ rs) ≡ new_digests rs)
unfolding new_identifiers new_digests
not_new rs r h = ground (arith, h)

is_new :
    (rs : List InspectionRecord) (r : InspectionRecord)
    → eq_text r.disposition disposition_new ≡ true
    → (new_identifiers (r ∷ rs) ≡ r.identifier ∷ new_identifiers rs)
      × (new_digests (r ∷ rs) ≡ r.digest ∷ new_digests rs)
unfolding new_identifiers new_digests
is_new rs r h = ground (arith, h)

ne_empty : eq_text [] disposition_new ≡ false
unfolding eq_text
ne_empty = refl

ne_already : eq_text already_imported disposition_new ≡ false
unfolding eq_text
ne_already = refl

eq_new : eq_text disposition_new disposition_new ≡ true
unfolding eq_text
eq_new = refl

-- The record adds nothing new.
IsBatch-old :
    (n : ℕ) (known : Known) (i : Inspected) (rs : List InspectionRecord) (b ready : Bool)
    → i.entry.ordinal ≡ pos n
    → i.known ≡ known
    → eq_text i.entry.disposition disposition_new ≡ false
    → (ready ≡ true) ↔ ((i.entry.issues ≡ []) × All (λ r. r.issues ≡ []) rs)
    → IsBatch (suc n) i.known rs b
    → IsBatch n known (i.entry ∷ rs) ready
IsBatch-old n known i rs b ready ordinal same old is_ready batch =
    let (ids, digests) = not_new rs i.entry old in
    record {
      numbered = (ordinal, batch.numbered);
      ready_iff = is_ready;
      identifiers_distinct = rw ids batch.identifiers_distinct;
      identifiers_fresh =
          rw ids
            (subst (λ k. Avoids k.identifiers (new_identifiers rs)) same batch.identifiers_fresh);
      contents_distinct = rw digests batch.contents_distinct;
      contents_fresh =
          rw digests
            (subst (λ k. Avoids (contents k.by_digest) (new_digests rs)) same batch.contents_fresh);
    }

pub IsBatch-cons :
    (n : ℕ) (known : Known) (i : Inspected) (rs : List InspectionRecord) (b : Bool)
    → IsInspected n known i
    → IsBatch (suc n) i.known rs b
    → IsBatch n known (i.entry ∷ rs) (i.ready && b)
IsBatch-cons n known i rs b (with_issue issue ordinal issues disposition ready same) batch =
    IsBatch-old n known i rs b _ ordinal same (rw disposition ne_empty) (ground arith) batch
IsBatch-cons n known i rs b (existing ordinal issues disposition ready same) batch =
    IsBatch-old n known i rs b _ ordinal same (rw disposition ne_already)
      (ground (arith, batch.ready_iff)) batch
IsBatch-cons n known i rs b (new ordinal issues disposition ready unused unseen ids digests) batch =
    let (new_ids, new_ds) = is_new rs i.entry (rw disposition eq_new) in
    let (old_ids, apart_ids) =
      (Avoids-cons i.entry.identifier known.identifiers (new_identifiers rs)).0
        (subst (λ k. Avoids k (new_identifiers rs)) ids batch.identifiers_fresh) in
    let (old_ds, apart_ds) =
      (Avoids-cons i.entry.digest (contents known.by_digest) (new_digests rs)).0
        (subst (λ k. Avoids k (new_digests rs)) digests batch.contents_fresh) in
    record {
      numbered = (ordinal, batch.numbered);
      ready_iff = ground (arith, batch.ready_iff);
      identifiers_distinct = rw new_ids (apart_ids, batch.identifiers_distinct);
      identifiers_fresh = rw new_ids (unused, old_ids);
      contents_distinct = rw new_ds (apart_ds, batch.contents_distinct);
      contents_fresh = rw new_ds (unseen, old_ds);
    }

pub contains-contents :
    (ps : List Profile) (digest : Text)
    → find_content ps digest ≡ none
    → contains (contents ps) digest ≡ false
unfolding find_content contains
contains-contents [] digest h = refl
contains-contents (p ∷ ps) digest h = ground (arith, contains-contents ps digest)

pub IsBatch-nil : (n : ℕ) (known : Known) → IsBatch n known [] true
unfolding new_identifiers new_digests
IsBatch-nil n known = record {
  numbered = tt;
  ready_iff = ground arith;
  identifiers_distinct = tt;
  identifiers_fresh = tt;
  contents_distinct = tt;
  contents_fresh = tt;
}
