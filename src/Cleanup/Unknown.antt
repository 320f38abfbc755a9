-- ===== src/Cleanup/Unknown.antt =====
-- Which finalizers the cleanup takes off.
use admiralty.Base.{
  String, ◌≡◌, refl, ap, ◌∙◌, true, not, ◌&&◌, List, [], ◌∷◌, keep, any, lookup, insert, ◌==◌,
  arith, ok, calls, run, return, fail, try, send,
}
use admiralty.Common.{is_ours}
use admiralty.Kube.{Meta}
use admiralty.Cleanup.{
  Key, Call, patch_finalizers, Reconciler, know, is_known, is_kind, unknown_finalizers, get_object,
  send_patch, clean, handle,
}

pub is_known-know : (fs : List String) (f : String) → is_known (know fs) f ≡ any (λ g. g == f) fs
unfolding know lookup insert
is_known-know [] f = refl
is_known-know (g ∷ fs) f = ground (arith, is_known-know fs f)

-- The finalizers of this program that no known target has.
abbrev pub stale : List String → List String → List String
stale known finalizers = keep (λ f. is_ours f && not (any (λ g. g == f) known)) finalizers

unknown_finalizers-know :
    (known fs : List String) → unknown_finalizers (know known) fs ≡ stale known fs
unfolding unknown_finalizers
unknown_finalizers-know known [] = refl
unknown_finalizers-know known (f ∷ fs) =
    ground (arith, is_known-know known f, unknown_finalizers-know known fs)

abbrev pub patches : Key → List String → List Call
patches k [] = []
patches k (f ∷ fs) = patch_finalizers k (f ∷ fs) ∷ []

get_object-found :
    (r : Reconciler) (k : Key) (o : Meta)
    → is_kind k.kind ≡ true
    → r.lister k ≡ ok o
    → get_object r k ≡ ok o
unfolding get_object
get_object-found r k o kind listed = ground arith

clean-patches :
    (r : Reconciler) (k : Key) (fs : List String)
    → is_kind k.kind ≡ true
    → calls (clean r k fs) ≡ patches k fs
unfolding clean send_patch run try send return fail
clean-patches r k [] kind = refl
clean-patches r k (f ∷ fs) kind = ground arith

-- On an object that the lister has, of one of the five kinds, where the reconciler was made
-- with the known finalizers: the one call takes off this program's finalizers that are not
-- known, and no other; and there is no call if the object has none of those.
pub handle-patches :
    (r : Reconciler) (known : List String) (k : Key) (o : Meta)
    → r.known_finalizers ≡ know known
    → is_kind k.kind ≡ true
    → r.lister k ≡ ok o
    → calls (handle r k) ≡ patches k (stale known o.finalizers)
unfolding handle
handle-patches r known k o knows kind listed =
    rw (get_object-found r k o kind listed, handle)
      (clean-patches r k (unknown_finalizers r.known_finalizers o.finalizers) kind
        ∙ ap (patches k) (
            ap (λ m. unknown_finalizers m o.finalizers) knows
            ∙ unknown_finalizers-know known o.finalizers))
