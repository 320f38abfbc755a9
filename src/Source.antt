-- ===== src/Source.antt =====
-- pkg/controllers/source/controller.go: in a target cluster, the role bindings, and if need be the
-- service account, of the identity that a source cluster comes with. The listers, the API server,
-- `metav1.NewControllerRef`, SHA-256, `reflect.DeepEqual` and the names of the two cluster roles,
-- which come from the environment, are parameters, in the record `Reconciler`. Names of bindings are
-- lists of bytes, as in Name.
pub mod Grants
pub mod Names
pub mod Events
mod Examples
use admiralty.Base.{
  ℕ, zero, suc, String, Bool, true, false, not, ◌||◌, Option, none, some, List, [], ◌∷◌, ◌++◌, ◌==◌,
  if◌then◌else◌, Result, ok, err, Error, errorf, is_not_found, Exec, return, fail, lift, send,
  ◌>>=◌,
}
use admiralty.Name.{Bytes, codes, long, from_parts}
use admiralty.Kube.{Meta, OwnerReference}

-- rbacv1.Subject
pub record Subject : Type 0 where
  pub kind : String
  pub name : String
  pub namespace : String

-- rbacv1.RoleBinding and rbacv1.ClusterRoleBinding; the role is always a cluster role.
pub record Binding : Type 0 where
  pub name : Bytes
  pub owner_references : List OwnerReference
  pub subjects : List Subject
  pub role_ref : String

pub record ServiceAccountReference : Type 0 where
  pub name : String
  pub namespace : String

pub record Source : Type 0 where
  pub meta : Meta
  pub user_name : String
  pub service_account_name : String

pub record ClusterSource : Type 0 where
  pub meta : Meta
  pub user_name : String
  pub service_account : Option ServiceAccountReference

-- The calls of the clientset, those of namespaced objects with their namespace.
pub data Call : Type 0 where
  create_service_account : String → String → List OwnerReference → Call
  create_role_binding : String → Binding → Call
  update_role_binding : String → Binding → Call
  create_cluster_role_binding : Binding → Call
  update_cluster_role_binding : Binding → Call

pub record Reconciler : Type 0 where
  pub server : List Call → Call → Result (Unit {0})
  pub source_lister : String → String → Result Source
  pub cluster_source_lister : String → Result ClusterSource
  pub service_account_lister : String → String → Result (Unit {0})
  pub role_binding_lister : String → Bytes → Result Binding
  pub cluster_role_binding_lister : Bytes → Result Binding
  pub split_key : String → String × String
  pub new_controller_ref : String → Meta → OwnerReference
  pub digest : Bytes → Bytes
  pub same_subjects : List Subject → List Subject → Bool
  pub source_role : String
  pub cluster_summary_viewer_role : String

-- The variables that `Handle` sets from the source or the cluster source.
pub record Identity : Type 0 where
  pub user_name : String
  pub sa_name : String
  pub sa_namespace : String
  pub owner_ref : OwnerReference
  pub binding_name : Bytes  -- `crbName` or `rbName`
  pub viewer_name : Bytes  -- `clusterSummaryViewerCRBName`

abbrev service_account_subjects : String → String → List Subject
service_account_subjects sa_name sa_namespace =
    if sa_name == ""
    then []
    else record { kind = "ServiceAccount"; name = sa_name; namespace = sa_namespace } ∷ []

abbrev user_subjects : String → List Subject
user_subjects user_name =
    if user_name == "" then [] else record { kind = "User"; name = user_name; namespace = "" } ∷ []

pub make_subjects : Identity → List Subject
make_subjects who =
    service_account_subjects who.sa_name who.sa_namespace ++ user_subjects who.user_name

-- What `FromParts` gives, or its panic.
abbrev pub named : Option Bytes → Result Bytes
named none = err (errorf "slice bounds out of range")
named (some name) = ok name

abbrev account_of : Option ServiceAccountReference → String × String
account_of none = ("", "")
account_of (some ref) = (ref.name, ref.namespace)

module _ (digest : Bytes → Bytes) where
  pub cluster_source_binding_name : Bytes → Option Bytes
  cluster_source_binding_name name =
      from_parts digest long (0 ∷ []) [] (codes "admiralty-cluster-source" ∷ name ∷ [])

  pub cluster_source_viewer_name : Bytes → Option Bytes
  cluster_source_viewer_name name =
      from_parts digest long (0 ∷ 2 ∷ []) []
        (codes "admiralty-cluster-source" ∷ name ∷ codes "cluster-summary-viewer" ∷ [])

  pub source_binding_name : Bytes → Option Bytes
  source_binding_name name =
      from_parts digest long (0 ∷ []) [] (codes "admiralty-source" ∷ name ∷ [])

  pub source_viewer_name : Bytes → Bytes → Option Bytes
  source_viewer_name namespace name =
      from_parts digest long (0 ∷ 3 ∷ []) []
        (codes "admiralty-source" ∷ namespace ∷ name ∷ codes "cluster-summary-viewer" ∷ [])

module _ (r : Reconciler) where
  open r use {digest}

  cluster_source_identity : ClusterSource → Exec Call Identity
  unfolding cluster_source_binding_name cluster_source_viewer_name
  cluster_source_identity src =
      lift (named (cluster_source_binding_name digest (codes src.meta.name))) >>= λ binding.
      lift (named (cluster_source_viewer_name digest (codes src.meta.name))) >>= λ viewer. return (
        let (sa_name, sa_namespace) = account_of src.service_account in
        record {
          user_name = src.user_name;
          sa_name = sa_name;
          sa_namespace = sa_namespace;
          owner_ref = r.new_controller_ref "ClusterSource" src.meta;
          binding_name = binding;
          viewer_name = viewer;
        })

  pub source_identity : Source → Exec Call Identity
  unfolding source_binding_name source_viewer_name
  source_identity src =
      lift (named (source_binding_name digest (codes src.meta.name))) >>= λ binding.
      lift (named (source_viewer_name digest (codes src.meta.namespace) (codes src.meta.name)))
      >>= λ viewer. return (record {
        user_name = src.user_name;
        sa_name = src.service_account_name;
        sa_namespace = src.meta.namespace;
        owner_ref = r.new_controller_ref "Source" src.meta;
        binding_name = binding;
        viewer_name = viewer;
      })

  abbrev call : Call → Exec Call (Unit {0})
  call c = send c (λ log. r.server log c)

  module _ (who : Identity) where
    pub new_binding : Bytes → String → Binding
    unfolding make_subjects
    new_binding name role_ref = record {
      name = name;
      owner_references = who.owner_ref ∷ [];
      subjects = make_subjects who;
      role_ref = role_ref;
    }

    -- The body of both functions that ensure a binding: `create` and `update` are their calls.
    pub ensure_binding :
        (Binding → Call) → (Binding → Call) → Bytes → String → Result Binding → Exec Call (Option ℕ)
    unfolding new_binding
    ensure_binding create update name role_ref (err e) =
        if is_not_found e
        then (call (create (new_binding name role_ref)) >>= λ _. return none)
        else fail e
    ensure_binding create update name role_ref (ok binding) =
        if r.same_subjects binding.subjects (make_subjects who)
        then return none
        else (call (update (record binding { subjects = make_subjects who })) >>= λ _. return none)

    pub ensure_cluster_role_binding : Bytes → String → Exec Call (Option ℕ)
    unfolding ensure_binding
    ensure_cluster_role_binding name role_ref =
        ensure_binding create_cluster_role_binding update_cluster_role_binding name role_ref
          (r.cluster_role_binding_lister name)

    -- The role of a new binding is `clusterRoleRefSource`, whatever `role_ref` is.
    pub ensure_role_binding : Bytes → String → String → Exec Call (Option ℕ)
    unfolding ensure_binding
    ensure_role_binding name namespace role_ref =
        ensure_binding (create_role_binding namespace) (update_role_binding namespace) name
          r.source_role (r.role_binding_lister namespace name)

    abbrev pub create_account : String → Result (Unit {0}) → Exec Call (Unit {0})
    create_account namespace (ok found) = return tt
    create_account namespace (err e) =
        if is_not_found e
        then call (create_service_account namespace who.sa_name (who.owner_ref ∷ []))
        else fail e

    pub ensure_service_account : String → Exec Call (Unit {0})
    ensure_service_account namespace =
        if who.sa_name == ""
        then return tt
        else create_account namespace (r.service_account_lister who.sa_namespace who.sa_name)

    -- `if requeueAfter != nil || err != nil { return }`
    abbrev pub unless_requeued : Exec Call (Option ℕ) → Option ℕ → Exec Call (Option ℕ)
    unless_requeued next none = next
    unless_requeued next (some delay) = return (some delay)

    pub ensure_bindings : String → Exec Call (Option ℕ)
    unfolding ensure_cluster_role_binding ensure_role_binding
    ensure_bindings namespace =
        if not (who.user_name == "") || not (who.sa_name == "")
        then ((if namespace == ""
              then ensure_cluster_role_binding who.binding_name r.source_role
              else ensure_role_binding who.binding_name namespace r.source_role)
            >>= unless_requeued (
                ensure_cluster_role_binding who.viewer_name r.cluster_summary_viewer_role
                >>= unless_requeued (return none)))
        else return none

    pub ensure : String → Exec Call (Option ℕ)
    unfolding ensure_service_account ensure_bindings
    ensure namespace = ensure_service_account namespace >>= λ _. ensure_bindings namespace

  abbrev with_object :
      {A : Type 0} → String → (A → Exec Call Identity) → Result A → Exec Call (Option ℕ)
  with_object namespace identity (err e) = if is_not_found e then return none else fail e
  with_object namespace identity (ok src) = identity src >>= λ who. ensure who namespace

  pub handle : String → Exec Call (Option ℕ)
  unfolding ensure cluster_source_identity source_identity
  handle key =
      let (namespace, name) = r.split_key key in
      if namespace == ""
      then with_object namespace cluster_source_identity (r.cluster_source_lister name)
      else with_object namespace source_identity (r.source_lister namespace name)
