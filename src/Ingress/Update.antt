-- ===== src/Ingress/Update.antt =====
-- Bringing the copy of an ingress up to date, in `shouldUpdate`.
use admiralty.Base.{
  is_nil, String, Bool, ok, ◌≡◌, refl, true, false, none, [], ◌∷◌, Map, get, lookup, insert,
  has_key, copy_into, or_else, eq_iff, eq_refl, if◌then◌else◌, lookup-copy_into, arith,
}
use admiralty.Common.{is_ours}
use admiralty.Ingress.{Ingress, Reconciler, brings, annotation_diff, linked, updated, should_update}

-- What the loop collects under a key.
lookup-annotation_diff :
    (k : String) (remote own rest : Map String)
    → lookup k (annotation_diff remote own rest)
      ≡ (if brings remote own k then lookup k rest else none)
unfolding annotation_diff lookup insert
lookup-annotation_diff k remote own [] = ground arith
lookup-annotation_diff k remote own ((j, v) ∷ rest) =
    ground (arith, eq_iff j k, lookup-annotation_diff k remote own rest)

-- With nothing left to bring, the loop collects nothing.
annotation_diff-settled :
    (remote own rest : Map String)
    → ((k : String) → has_key k rest ≡ true → brings remote own k ≡ false)
    → annotation_diff remote own rest ≡ []
unfolding annotation_diff lookup
annotation_diff-settled remote own [] all = refl
annotation_diff-settled remote own ((j, v) ∷ rest) all = ground (
  arith,
  eq_refl j,
  all j,
  annotation_diff-settled remote own rest (λ k there. ground (arith, eq_iff j k, all k)),
)

-- What the copy has under a key once it is brought up to date.
lookup-brought :
    (k : String) (remote own : Map String)
    → lookup k (copy_into remote (annotation_diff remote own own))
      ≡ (if brings remote own k then or_else (lookup k own) (lookup k remote) else lookup k remote)
lookup-brought k remote own = ground (
  arith,
  lookup-copy_into k remote (annotation_diff remote own own),
  lookup-annotation_diff k remote own own,
)

brings-brought :
    (k : String) (remote own : Map String)
    → has_key k own ≡ true
    → brings (copy_into remote (annotation_diff remote own own)) own k ≡ false
unfolding brings
brings-brought k remote own there = ground (arith, lookup-brought k remote own, eq_refl (get k own))

-- A copy that needs no update comes back as it is.
should_update-of_settled :
    (r : Reconciler) (copy ingress : Ingress)
    → let own = ingress.meta.annotations in
      annotation_diff copy.meta.annotations own own ≡ []
      → linked r copy ≡ true
      → r.same_spec copy.spec ingress.spec ≡ true
      → should_update r copy ingress ≡ ok (copy, false)
unfolding should_update updated copy_into
should_update-of_settled r copy ingress settled here same = rw (settled, here, same) refl

linked-updated :
    (r : Reconciler) (remote ingress : Ingress) → linked r (updated r remote ingress).0 ≡ true
unfolding updated lookup insert
linked-updated r remote ingress = ground (arith, eq_refl r.base.cluster_name)

same_spec-updated :
    (r : Reconciler) (remote ingress : Ingress)
    → r.same_spec ingress.spec ingress.spec ≡ true
    → r.same_spec (updated r remote ingress).0.spec ingress.spec ≡ true
unfolding updated
same_spec-updated r remote ingress same = ground arith

annotation_diff-updated :
    (r : Reconciler) (remote ingress : Ingress)
    → let own = ingress.meta.annotations in
      annotation_diff (updated r remote ingress).0.meta.annotations own own ≡ []
unfolding updated
annotation_diff-updated r remote ingress =
    annotation_diff-settled _ ingress.meta.annotations ingress.meta.annotations
      (λ k there. brings-brought k remote.meta.annotations ingress.meta.annotations there)

lookup-updated :
    (r : Reconciler) (remote ingress : Ingress) (k : String)
    → is_ours k ≡ false
    → lookup k (updated r remote ingress).0.meta.annotations
      ≡ or_else (lookup k ingress.meta.annotations) (lookup k remote.meta.annotations)
unfolding updated brings
lookup-updated r remote ingress k theirs = ground (
  arith,
  lookup-brought k remote.meta.annotations ingress.meta.annotations,
  eq_iff (get k remote.meta.annotations) (get k ingress.meta.annotations),
)

-- Where a copy has labels and annotations and the comparison of specifications is reflexive:
-- `shouldUpdate` does not panic; the copy that it computes has every annotation of the user's as the
-- ingress has it, and its own where the ingress has none; its specification is one that the comparison
-- takes for the ingress's; and to the same question about that copy the answer is that copy, and that
-- it needs no update.
pub should_update-settles :
    (r : Reconciler) (remote ingress : Ingress)
    → is_nil remote.meta.annotations ≡ false
    → is_nil remote.meta.labels ≡ false
    → r.same_spec ingress.spec ingress.spec ≡ true
    → (copy : Ingress) × (needed : Bool) × (should_update r remote ingress ≡ ok (copy, needed))
      × ((k : String)
          → is_ours k ≡ false
          → lookup k copy.meta.annotations
            ≡ or_else (lookup k ingress.meta.annotations) (lookup k remote.meta.annotations))
      × (r.same_spec copy.spec ingress.spec ≡ true)
      × (should_update r copy ingress ≡ ok (copy, false))
unfolding should_update
should_update-settles r remote ingress annotated labelled same = (
  (updated r remote ingress).0,
  (updated r remote ingress).1,
  rw (annotated, labelled) (ground arith),
  lookup-updated r remote ingress,
  same_spec-updated r remote ingress same,
  should_update-of_settled r (updated r remote ingress).0 ingress
      (annotation_diff-updated r remote ingress) (linked-updated r remote ingress)
      (same_spec-updated r remote ingress same),
)
