-- ===== src/Source/Grants.antt =====
-- What the controller grants to an identity.
use admiralty.Base.{
  ℕ, String, ◌≡◌, ◌≢◌, refl, true, eq_iff, arith, List, Among, Bool-cases, ◌==◌, Option, none, some,
  ◌⊎◌, inl, inr, [], ◌∷◌, Result, ok, err, is_not_found, Error, All, All-calls, Exec, Makes,
  Makes-bind, Makes-send, Makes-return, Makes-fail, Makes-if, calls,
}
use admiralty.Name.{Bytes}
use admiralty.Source.{
  Subject, Binding, Call, create_service_account, create_role_binding, update_role_binding,
  create_cluster_role_binding, update_cluster_role_binding, Reconciler, Identity, make_subjects,
  new_binding, ensure_binding, ensure_cluster_role_binding, ensure_role_binding, create_account,
  ensure_service_account, unless_requeued, ensure_bindings, ensure,
}

module _ (r : Reconciler) (namespace : String) (who : Identity) where
  -- The subjects of the identity: its account and its user, as far as it has them, and no other.
  abbrev account : Subject
  account = record { kind = "ServiceAccount"; name = who.sa_name; namespace = who.sa_namespace }

  abbrev user : Subject
  user = record { kind = "User"; name = who.user_name; namespace = "" }

  abbrev pub Names : List Subject → Type 0
  Names subjects =
      ((who.sa_name ≡ "") ⊎ Among account subjects)
      × ((who.user_name ≡ "") ⊎ Among user subjects)
      × All (λ s. (s ≡ account) × (who.sa_name ≢ "") ⊎ (s ≡ user) × (who.user_name ≢ "")) subjects

  make_subjects-Names : Names (make_subjects who)
  unfolding make_subjects
  make_subjects-Names = elim (Bool-cases (who.sa_name == "")) [
    | inl no_account ↦ elim (Bool-cases (who.user_name == "")) [
      | inl no_user ↦
          rw (no_account, no_user)
            (
              inl (ground (arith, eq_iff who.sa_name "")),
              inl (ground (arith, eq_iff who.user_name "")),
              tt,
            )
      | inr has_user ↦
          rw (no_account, has_user)
            (
              inl (ground (arith, eq_iff who.sa_name "")),
              inr (inl refl),
              (inr (refl, λ n. ground (arith, eq_iff who.user_name "")), tt),
            )
    ]
    | inr has_account ↦ elim (Bool-cases (who.user_name == "")) [
      | inl no_user ↦
          rw (has_account, no_user)
            (
              inr (inl refl),
              inl (ground (arith, eq_iff who.user_name "")),
              (inl (refl, λ n. ground (arith, eq_iff who.sa_name "")), tt),
            )
      | inr has_user ↦
          rw (has_account, has_user)
            (
              inr (inl refl),
              inr (inr (inl refl)),
              (
                inl (refl, λ n. ground (arith, eq_iff who.sa_name "")),
                (inr (refl, λ n. ground (arith, eq_iff who.user_name "")), tt),
              ),
            )
    ]
  ]

  -- A new binding of that name: the identity owns it, and it gives its subjects the role.
  abbrev Binds : Bytes → String → Binding → Type 0
  Binds name role b =
      (b.name ≡ name)
      × (b.owner_references ≡ who.owner_ref ∷ [])
      × Names b.subjects
      × (b.role_ref ≡ role)

  new_binding-Binds : (name : Bytes) (role : String) → Binds name role (new_binding r who name role)
  unfolding new_binding
  new_binding-Binds name role = (refl, refl, make_subjects-Names, refl)

  -- A binding that the lister has under the name, with the identity's subjects.
  abbrev Corrects : Result Binding → Binding → Type 0
  Corrects found b =
      (old : Binding) × (found ≡ ok old)
      × (b ≡ record old { subjects = b.subjects })
      × Names b.subjects

  abbrev pub Lacks : {A : Type 0} → Result A → Type 0
  Lacks found = (e : Error) × (found ≡ err e) × (is_not_found e ≡ true)

  abbrev pub Grants : Call → Type 0
  Grants (create_service_account n name owners) =
      (n ≡ namespace)
      × (name ≡ who.sa_name)
      × (owners ≡ who.owner_ref ∷ [])
      × Lacks (r.service_account_lister who.sa_namespace who.sa_name)
  Grants (create_role_binding n b) =
      (n ≡ namespace)
      × Binds who.binding_name r.source_role b
      × Lacks (r.role_binding_lister namespace who.binding_name)
  Grants (update_role_binding n b) =
      (n ≡ namespace) × Corrects (r.role_binding_lister namespace who.binding_name) b
  Grants (create_cluster_role_binding b) =
      (Binds who.viewer_name r.cluster_summary_viewer_role b
        × Lacks (r.cluster_role_binding_lister who.viewer_name))
      ⊎ ((namespace == "") ≡ true)
        × Binds who.binding_name r.source_role b
        × Lacks (r.cluster_role_binding_lister who.binding_name)
  Grants (update_cluster_role_binding b) =
      Corrects (r.cluster_role_binding_lister who.viewer_name) b
      ⊎ ((namespace == "") ≡ true) × Corrects (r.cluster_role_binding_lister who.binding_name) b

  create_account-Makes :
      (found : Result (Unit {0}))
      → r.service_account_lister who.sa_namespace who.sa_name ≡ found
      → Makes Grants (create_account r who namespace found)
  create_account-Makes (ok a) e = Makes-return tt
  create_account-Makes (err x) e =
      Makes-if (is_not_found x) _ _ (λ lacks. Makes-send _ _ (refl, refl, refl, (x, e, lacks)))
        (λ other. Makes-fail x)

  ensure_service_account-Makes : Makes Grants (ensure_service_account r who namespace)
  unfolding ensure_service_account
  ensure_service_account-Makes =
      Makes-if (who.sa_name == "") _ _ (λ e. Makes-return tt) (λ e. create_account-Makes _ refl)

  ensure_binding-Makes :
      (create update : Binding → Call) (name : Bytes) (role_ref : String) (found : Result Binding)
      → (Lacks found → Grants (create (new_binding r who name role_ref)))
      → ((b : Binding) → Corrects found b → Grants (update b))
      → Makes Grants (ensure_binding r who create update name role_ref found)
  unfolding ensure_binding
  ensure_binding-Makes create update name role_ref (err e) created updated =
      Makes-if (is_not_found e) _ _
        (λ lacks.
          Makes-bind _ _ (Makes-send _ _ (created (e, refl, lacks))) (λ a. Makes-return none))
        (λ other. Makes-fail e)
  ensure_binding-Makes create update name role_ref (ok old) created updated =
      Makes-if (r.same_subjects old.subjects (make_subjects who)) _ _ (λ same. Makes-return none)
        (λ other.
          Makes-bind _ _ (Makes-send _ _ (updated _ (old, refl, refl, make_subjects-Names)))
            (λ a. Makes-return none))

  viewer-Makes :
      Makes Grants (ensure_cluster_role_binding r who who.viewer_name r.cluster_summary_viewer_role)
  unfolding ensure_cluster_role_binding
  viewer-Makes =
      ensure_binding-Makes create_cluster_role_binding update_cluster_role_binding who.viewer_name
        r.cluster_summary_viewer_role (r.cluster_role_binding_lister who.viewer_name)
        (λ lacks. inl (new_binding-Binds _ _, lacks)) (λ b corrects. inl corrects)

  cluster_binding-Makes :
      (namespace == "") ≡ true
      → Makes Grants (ensure_cluster_role_binding r who who.binding_name r.source_role)
  unfolding ensure_cluster_role_binding
  cluster_binding-Makes here =
      ensure_binding-Makes create_cluster_role_binding update_cluster_role_binding who.binding_name
        r.source_role (r.cluster_role_binding_lister who.binding_name)
        (λ lacks. inr (here, new_binding-Binds _ _, lacks)) (λ b corrects. inr (here, corrects))

  binding-Makes : Makes Grants (ensure_role_binding r who who.binding_name namespace r.source_role)
  unfolding ensure_role_binding
  binding-Makes =
      ensure_binding-Makes (create_role_binding namespace) (update_role_binding namespace)
        who.binding_name r.source_role (r.role_binding_lister namespace who.binding_name)
        (λ lacks. (refl, new_binding-Binds _ _, lacks)) (λ b corrects. (refl, corrects))

  unless_requeued-Makes :
      (next : Exec Call (Option ℕ)) (requeue : Option ℕ)
      → Makes Grants next
      → Makes Grants (unless_requeued r who next requeue)
  unless_requeued-Makes next none made = made
  unless_requeued-Makes next (some delay) made = Makes-return (some delay)

  ensure_bindings-Makes : Makes Grants (ensure_bindings r who namespace)
  unfolding ensure_bindings
  ensure_bindings-Makes =
      Makes-if _ _ _
        (λ known.
          Makes-bind _ _
            (Makes-if (namespace == "") _ _ cluster_binding-Makes (λ elsewhere. binding-Makes))
            (λ requeue. unless_requeued-Makes _ requeue (
              Makes-bind _ _ viewer-Makes
                (λ again. unless_requeued-Makes _ again (Makes-return none)))))
        (λ unknown. Makes-return none)

-- All that a pass does for an identity: the service account is created only where the lister lacks it;
-- a binding is created only where the lister lacks it, owned by the identity's owner, with the source
-- role or, under the viewer's name, with the viewer role; and an update changes only the subjects of the
-- binding that the lister has under one of the identity's names. The subjects are in both cases the
-- identity's service account and its user, as far as it has them, and no other. Only in the empty namespace is a cluster role binding
-- made for the source role.
pub ensure-Grants :
    (r : Reconciler) (namespace : String) (who : Identity)
    → All (Grants r namespace who) (calls (ensure r who namespace))
unfolding ensure
ensure-Grants r namespace who = All-calls _ (
    Makes-bind _ _ (ensure_service_account-Makes r namespace who)
      (λ a. ensure_bindings-Makes r namespace who))
