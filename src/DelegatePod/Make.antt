-- ===== src/DelegatePod/Make.antt =====
-- What the pod chaperon of a proxy pod takes from the proxy pod, and what from the source pod.
use admiralty.Base.{
  String, ◌<>◌, ◌≡◌, ◌≢◌, refl, ap, subst, Bool, true, false, none, [], ◌∷◌, Map, lookup, insert,
  has_key, ◌==◌, eq_iff, arith, if◌then◌else◌, Result, ok, err, ok_inj, sym,
}
use admiralty.Common.{
  is_ours, candidate_scheduler_name, annotation_key_parent_name, annotation_key_parent_namespace,
  annotation_key_no_reservation,
}
use admiralty.Kube.{Pod, PodChaperon, PodSpec}
use admiralty.Controller.{
  index_by_remote_controller, is_remote_controlled, add_remote_controller_reference,
}
use admiralty.Controller.Reference.{is_remote_controlled-add, index-add}
use admiralty.DelegatePod.{
  get_source_pod, user_annotations, delegate_of, drop_constraints, set_scheduler,
  remove_service_account, make_delegate_pod, with_labels, with_source,
}

lookup-user_annotations :
    (k : String) (m : Map String)
    → lookup k (user_annotations m) ≡ (if is_ours k then none else lookup k m)
unfolding user_annotations lookup insert
lookup-user_annotations k [] = ground arith
lookup-user_annotations k ((j, v) ∷ m) =
    ground (arith, lookup-user_annotations k m, eq_iff j k, same_side j k)
  where
    same_side : (j k : String) → j ≡ k → is_ours j ≡ is_ours k
    same_side j k e = cc

-- The chaperon leads back to the proxy pod, in the cluster it is made in and in no other; has no
-- priority; waits for the candidate scheduler unless the user wants no reservation; and has the
-- user's annotations, and of this program's own only the reference to the parent.
abbrev pub IsDelegate : Pod → Pod → String → PodChaperon → Type 0
IsDelegate proxy src cluster c =
    (index_by_remote_controller cluster c.meta
      ≡ (proxy.meta.namespace <> ("/" <> proxy.meta.name)) ∷ [])
    × ((other : String) → is_remote_controlled c.meta other ≡ (cluster == other))
    × (c.spec.priority ≡ none)
    × (c.spec.scheduler_name ≡ (
        if has_key annotation_key_no_reservation src.meta.annotations
        then src.spec.scheduler_name
        else candidate_scheduler_name))
    × ((k : String)
        → is_ours k ≡ false
        → lookup k c.meta.annotations ≡ lookup k src.meta.annotations)
    × ((k : String)
        → is_ours k ≡ true
        → k ≢ annotation_key_parent_name
        → k ≢ annotation_key_parent_namespace
        → lookup k c.meta.annotations ≡ none)

schedules :
    (uses reserves : Bool) (spec : PodSpec)
    → (set_scheduler reserves (remove_service_account (drop_constraints uses spec))).scheduler_name
      ≡ (if reserves then spec.scheduler_name else candidate_scheduler_name)
unfolding set_scheduler remove_service_account drop_constraints
schedules true true spec = refl
schedules false true spec = refl
schedules uses false spec = refl

module _ (proxy src : Pod) (labels : Map String) (cluster : String) where
  kept :
      (k : String)
      → is_ours k ≡ false
      → lookup k (delegate_of proxy src labels cluster).meta.annotations
        ≡ lookup k src.meta.annotations
  unfolding delegate_of is_ours add_remote_controller_reference lookup insert
  kept k other = ground (
    arith,
    lookup-user_annotations k src.meta.annotations,
    eq_iff annotation_key_parent_name k,
    eq_iff annotation_key_parent_namespace k,
    foreign k other,
  )
    where
      foreign :
          (k : String)
          → is_ours k ≡ false
          → (annotation_key_parent_name ≢ k) × (annotation_key_parent_namespace ≢ k)
      foreign k other = (λ e. ground (arith, ap is_ours e), λ e. ground (arith, ap is_ours e))

  dropped :
      (k : String)
      → is_ours k ≡ true
      → k ≢ annotation_key_parent_name
      → k ≢ annotation_key_parent_namespace
      → lookup k (delegate_of proxy src labels cluster).meta.annotations ≡ none
  unfolding delegate_of add_remote_controller_reference lookup insert
  dropped k ours p q = ground (
    arith,
    lookup-user_annotations k src.meta.annotations,
    eq_iff annotation_key_parent_name k,
    eq_iff annotation_key_parent_namespace k,
  )

  delegate_of-IsDelegate :
      proxy.meta.namespace ≢ ""
      → proxy.meta.name ≢ ""
      → IsDelegate proxy src cluster (delegate_of proxy src labels cluster)
  unfolding delegate_of
  delegate_of-IsDelegate spaced named = (
    index-add _ proxy.meta cluster spaced named,
    is_remote_controlled-add _ proxy.meta cluster,
    refl,
    schedules _ _ src.spec,
    kept,
    dropped,
  )

-- What `MakeDelegatePod` gives is made of the proxy pod, its source pod and some labels.
module _ (unmarshal : String → Result Pod) (compile : String → Result (String → Bool)) (proxy : Pod)
    (cluster : String) (c : PodChaperon) where
  Delegates : Type 0
  Delegates =
      (src : Pod) × (labels : Map String) × (get_source_pod unmarshal proxy ≡ ok src)
      × (c ≡ delegate_of proxy src labels cluster)

  make_delegate_pod_lem : make_delegate_pod unmarshal compile proxy cluster ≡ ok c → Delegates
  unfolding make_delegate_pod Delegates
  make_delegate_pod_lem made = read (get_source_pod unmarshal proxy) refl made
    where
      labelled :
          (src : Pod) (r : Result (Map String × Bool))
          → get_source_pod unmarshal proxy ≡ ok src
          → with_labels proxy src cluster r ≡ ok c
          → Delegates
      labelled src (err e) got made = cc
      labelled src (ok (labels, changed)) got made = (src, labels, got, sym (ok_inj made))

      read :
          (r : Result Pod)
          → get_source_pod unmarshal proxy ≡ r
          → with_source unmarshal compile proxy cluster r ≡ ok c
          → Delegates
      read (err e) got made = cc
      read (ok src) got made = labelled src _ got made

-- Whenever `MakeDelegatePod` gives a pod chaperon for a proxy pod with a name and a namespace, its
-- source pod could be read, and the chaperon leads back to the proxy pod, in the given cluster and
-- no other; it has no priority; it waits for the candidate scheduler unless the source pod wants
-- no reservation; and it has the source pod's annotations without this program's prefix, and of
-- those with the prefix at most the two that name the parent.
pub make_delegate_pod-IsDelegate :
    (unmarshal : String → Result Pod) (compile : String → Result (String → Bool)) (proxy : Pod)
    (cluster : String) (c : PodChaperon)
    → proxy.meta.namespace ≢ ""
    → proxy.meta.name ≢ ""
    → make_delegate_pod unmarshal compile proxy cluster ≡ ok c
    → (src : Pod) × (get_source_pod unmarshal proxy ≡ ok src) × IsDelegate proxy src cluster c
unfolding Delegates
make_delegate_pod-IsDelegate unmarshal compile proxy cluster c spaced named made =
    let (src, labels, got, same) = make_delegate_pod_lem unmarshal compile proxy cluster c made in
    (
      src,
      got,
      subst (IsDelegate proxy src cluster) (sym same)
          (delegate_of-IsDelegate proxy src labels cluster spaced named),
    )

-- A chaperon as it is stored in the target, which gives it its name and its UID.
abbrev pub stored : PodChaperon → String → String → PodChaperon
stored c name uid = record c { meta = record c.meta { name = name; uid = uid } }

-- The chaperon that `MakeDelegatePod` gives, once stored, is filed under the proxy pod's key.
pub make_delegate_pod-index :
    (unmarshal : String → Result Pod) (compile : String → Result (String → Bool)) (proxy : Pod)
    (cluster : String) (c : PodChaperon)
    → proxy.meta.namespace ≢ ""
    → proxy.meta.name ≢ ""
    → make_delegate_pod unmarshal compile proxy cluster ≡ ok c
    → (name uid : String)
    → index_by_remote_controller cluster (stored c name uid).meta
      ≡ (proxy.meta.namespace <> ("/" <> proxy.meta.name)) ∷ []
unfolding Delegates delegate_of add_remote_controller_reference
make_delegate_pod-index unmarshal compile proxy cluster c spaced named made name uid =
    let (src, labels, got, same) = make_delegate_pod_lem unmarshal compile proxy cluster c made in
    subst
      (λ c.
        index_by_remote_controller cluster (stored c name uid).meta
        ≡ (proxy.meta.namespace <> ("/" <> proxy.meta.name)) ∷ [])
      (sym same) (index-add _ proxy.meta cluster spaced named)
