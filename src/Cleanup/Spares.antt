-- ===== src/Cleanup/Spares.antt =====
-- No pass of the cleanup takes off a known finalizer.
use admiralty.Base.{
  String, ◌≡◌, refl, Bool, true, false, any, List, [], ◌∷◌, ◌==◌, eq_iff, arith, Result, ok, err,
  Map, Makes, makes_rules, All-calls, All, calls,
}
use admiralty.Kube.{Meta}
use admiralty.Cleanup.{
  Key, Call, patch_finalizers, Reconciler, is_known, unknown_finalizers, get_object, send_patch,
  clean, clean_found, handle,
}

-- The finalizer is not one of those that a patch takes off.
abbrev pub Spares : String → Call → Type 0
Spares f (patch_finalizers k finalizers) = any (λ g. g == f) finalizers ≡ false

module _ (f : String) where
  unknown_finalizers-Spares :
      (known : Map Bool) (finalizers : List String)
      → is_known known f ≡ true
      → any (λ g. g == f) (unknown_finalizers known finalizers) ≡ false
  unfolding unknown_finalizers
  unknown_finalizers-Spares known [] h = refl
  unknown_finalizers-Spares known (g ∷ gs) h =
      ground (arith, unknown_finalizers-Spares known gs h, eq_iff g f)

  module _ (r : Reconciler) (k : Key) where
    clean-Spares :
        (finalizers : List String)
        → any (λ g. g == f) finalizers ≡ false
        → Makes (Spares f) (clean r k finalizers)
    unfolding clean send_patch
    clean-Spares [] h = search makes_rules
    clean-Spares (g ∷ gs) h = search makes_rules

    clean_found-Spares :
        (found : Result Meta)
        → is_known r.known_finalizers f ≡ true
        → Makes (Spares f) (clean_found r k found)
    clean_found-Spares (ok o) h =
        clean-Spares _ (unknown_finalizers-Spares r.known_finalizers o.finalizers h)
    clean_found-Spares (err e) h = search makes_rules

    pub handle-Spares : is_known r.known_finalizers f ≡ true → All (Spares f) (calls (handle r k))
    unfolding handle
    handle-Spares h = All-calls (handle r k) (clean_found-Spares (get_object r k) h)
