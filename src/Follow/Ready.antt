-- ===== src/Follow/Ready.antt =====
-- The part of a pass that holds an object and then brings its copy up to date.
use admiralty.Base.{
  Leads-if, Leads-fail, nil_map, Leads-try, some_inj, ℕ, String, ◌≡◌, refl, sym, ap, subst, ◌∙◌,
  true, false, Option, none, some, List, [], ◌∷◌, ◌++◌, is_some, Exec, return, request, ◌>>=◌,
  lookup, insert, eq_refl, Leads, Leads-return, Leads-send, Leads-bind, arith,
}
use admiralty.Common.{label_key_parent_uid}
use admiralty.Controller.{has_finalizer, add_remote_controller_reference}
use admiralty.Follow.{
  Kind, Call, create_remote, update_remote, update_local, Reconciler, copy_meta, hold,
  add_finalizer, ensure_finalizer, bring, bring_labelled, assigns_to_nil, send_update,
}
use admiralty.Follow.Ownership.{Stays}
use admiralty.Follow.World.{
  World, stored, apply, world_after, answered, IsHeld, Claims, IsGuarded, KeepsUid,
}
use admiralty.Follow.Guards.{spared-Safe, world, Before, Safe, request-Safe}

has_finalizer-append :
    (fs : List String) (f : String) → is_some (has_finalizer (fs ++ (f ∷ [])) f) ≡ true
unfolding has_finalizer
has_finalizer-append [] f = ground (arith, eq_refl f)
has_finalizer-append (g ∷ fs) f = ground (arith, has_finalizer-append fs f)

-- The copy has the label of the original's UID.
pub copy_meta-uid :
    {O : Type 0}
    → (kind : Kind O) (r : Reconciler O) (o : O)
    → lookup label_key_parent_uid (copy_meta kind r o).labels ≡ some (kind.meta o).uid
unfolding copy_meta add_remote_controller_reference lookup insert
copy_meta-uid kind r o = refl

module _ {O : Type 0} (kind : Kind O) (r : Reconciler O) (w : World O) (o : O) where
  -- The object of the source is there, held, and the copy is as it was.
  abbrev ReadyAt : O → World O → Type 0
  ReadyAt a v =
      ((kind.meta a).uid ≡ (kind.meta o).uid)
      × (v.copy ≡ w.copy)
      × (o' : O) × (v.source ≡ some o')
      × ((kind.meta o').uid ≡ (kind.meta o).uid)
      × IsHeld kind r.target.finalizer o'

  abbrev pub Ready : O → List (Call O) → Type 0
  Ready a log = ReadyAt a (world kind r w log)

  Ready-Safe :
      (a : O) (log : List (Call O))
      → w.source ≡ some o
      → IsGuarded kind r.target.finalizer w
      → Ready a log
      → Safe kind r w log
  Ready-Safe a log there guarded (same, copy, o', source, uid, held) = record {
    holder = λ p u e claimed.
        let (q, e', e'', held') = guarded.holder p u (sym copy ∙ e) claimed in
        (o', source, uid ∙ ap (λ m. m.uid) (ap kind.meta (some_inj (sym there ∙ e'))) ∙ e'', held);
  }

  hold-IsHeld : IsHeld kind r.target.finalizer (hold kind r o)
  unfolding hold
  hold-IsHeld =
      rw (kind.meta-with_meta) (has_finalizer-append (kind.meta o).finalizers r.target.finalizer)

  stored-stays : (p : O) → is_some (kind.meta p).deletion_timestamp ≡ false → stored kind p ≡ some p
  unfolding stored
  stored-stays p stays = ground arith

  hold-same :
      ((kind.meta (hold kind r o)).uid ≡ (kind.meta o).uid)
      × ((kind.meta (hold kind r o)).deletion_timestamp ≡ (kind.meta o).deletion_timestamp)
  unfolding hold
  hold-same = rw (kind.meta-with_meta) (refl, refl)

  module _ (there : w.source ≡ some o) (guarded : IsGuarded kind r.target.finalizer w) where
    add_finalizer-Ready :
        KeepsUid kind r
        → Stays kind o w.copy
        → Leads (Before kind r w) (add_finalizer kind r o) Ready (Safe kind r w)
    unfolding add_finalizer world_after apply
    add_finalizer-Ready keeps stays =
        let c = update_local (kind.meta o).namespace (hold kind r o) in
        Leads-send c _
          (λ log a before e.
            subst (λ x. ReadyAt a (answered kind r x c (world kind r w log))) (sym e)
              (
                keeps log (kind.meta o).namespace (hold kind r o) a e ∙ hold-same.0,
                ap (λ v. v.copy) before,
                hold kind r o,
                stored-stays (hold kind r o) (ap is_some hold-same.1 ∙ stays),
                hold-same.0,
                hold-IsHeld,
              ))
          (λ log x before e.
            subst
              (λ x. IsGuarded kind r.target.finalizer (answered kind r x c (world kind r w log)))
              (sym e) (subst (IsGuarded kind r.target.finalizer) (sym before) guarded))

    ensure_finalizer-by :
        KeepsUid kind r
        → Stays kind o w.copy
        → (j : Option ℕ) → has_finalizer (kind.meta o).finalizers r.target.finalizer ≡ j
        → Leads (Before kind r w) (ensure_finalizer kind r o j) Ready (Safe kind r w)
    unfolding ensure_finalizer
    ensure_finalizer-by keeps stays none found = add_finalizer-Ready keeps stays
    ensure_finalizer-by keeps stays (some j) found = Leads-return o (λ log before.
        (refl, ap (λ v. v.copy) before, o, ap (λ v. v.source) before ∙ there, refl, rw found refl))

    create-Ready :
        (a gold : O) (namespace : String)
        → lookup label_key_parent_uid (kind.meta gold).labels ≡ some (kind.meta a).uid
        → Leads
            (Ready a)
            (request r.server (create_remote namespace gold))
            (λ _. Safe kind r w)
            (Safe kind r w)
    unfolding apply
    create-Ready a gold namespace labelled =
        request-Safe kind r w (Ready a) (create_remote namespace gold)
          (λ log ready. Ready-Safe a log there guarded ready)
          (λ log (same, copy, o', source, uid, held). record {
            holder = λ p u e claimed. (
              o',
              source,
              uid
                  ∙ sym same
                  ∙ some_inj (
                      sym labelled
                      ∙ ap (λ x. lookup label_key_parent_uid (kind.meta x).labels) (some_inj e)
                      ∙ claimed),
              held,
            );
          })

    update-Ready :
        (a remote p : O) (namespace : String)
        → w.copy ≡ some remote
        → lookup label_key_parent_uid (kind.meta p).labels
          ≡ lookup label_key_parent_uid (kind.meta remote).labels
        → Leads
            (Ready a)
            (request r.server (update_remote namespace p))
            (λ _. Safe kind r w)
            (Safe kind r w)
    unfolding apply
    update-Ready a remote p namespace copied labelled =
        request-Safe kind r w (Ready a) (update_remote namespace p)
          (λ log ready. Ready-Safe a log there guarded ready)
          (λ log (same, copy, o', source, uid, held). record {
            holder = λ q u e claimed.
                let claimed' : Claims kind remote u =
                  sym labelled
                  ∙ ap (λ x. lookup label_key_parent_uid (kind.meta x).labels) (some_inj e)
                  ∙ claimed in
                let (o'', e', uid', held') = guarded.holder remote u copied claimed' in
                (
                  o',
                  source,
                  uid ∙ ap (λ x. (kind.meta x).uid) (some_inj (sym there ∙ e')) ∙ uid',
                  held,
                );
          })

    return-Ready :
        (a : O) → Leads (Ready a) (return {A = Option ℕ} none) (λ _. Safe kind r w) (Safe kind r w)
    return-Ready a = Leads-return none (λ log ready. Ready-Safe a log there guarded ready)

    -- A copy that is made has the label of the UID, and an update leaves it.
    bring-Ready :
        (a gold : O) (update : O → Option O) (namespace : String) (remote : Option O)
        → w.copy ≡ remote
        → lookup label_key_parent_uid (kind.meta gold).labels ≡ some (kind.meta a).uid
        → ((c p : O)
            → update c ≡ some p
            → lookup label_key_parent_uid (kind.meta p).labels
              ≡ lookup label_key_parent_uid (kind.meta c).labels)
        → Leads
            (Ready a)
            (bring kind r gold update namespace remote)
            (λ _. Safe kind r w)
            (Safe kind r w)
    unfolding bring
    bring-Ready a gold update namespace none copied labelled kept =
        Leads-try {F = Safe kind r w} _ _ _ (create-Ready a gold namespace labelled)
          (λ e. spared-Safe kind r w e e _) (λ p. Leads-return none (λ log s. s))
    bring-Ready a gold update namespace (some copy) copied labelled kept = send (update copy) refl
      where
        send :
            (p : Option O)
            → update copy ≡ p
            → Leads (Ready a) (send_update kind r namespace p) (λ _. Safe kind r w) (Safe kind r w)
        send none made = return-Ready a
        send (some p) made =
            Leads-bind _ _ (update-Ready a copy p namespace copied (kept copy p made))
              (λ q. Leads-return none (λ log s. s))

    pub bring_labelled-Ready :
        (a gold : O) (update : O → Option O) (namespace : String) (remote : Option O)
        → w.copy ≡ remote
        → lookup label_key_parent_uid (kind.meta gold).labels ≡ some (kind.meta a).uid
        → ((c p : O)
            → update c ≡ some p
            → lookup label_key_parent_uid (kind.meta p).labels
              ≡ lookup label_key_parent_uid (kind.meta c).labels)
        → Leads
            (Ready a)
            (bring_labelled kind r gold update namespace remote)
            (λ _. Safe kind r w)
            (Safe kind r w)
    unfolding bring_labelled
    bring_labelled-Ready a gold update namespace remote copied labelled kept =
        Leads-if (assigns_to_nil kind r update remote) _ _
          (λ panics. Leads-fail nil_map (λ log ready. Ready-Safe a log there guarded ready))
          (λ there. bring-Ready a gold update namespace remote copied labelled kept)

    -- Holding an object and then bringing its copy up to date is safe if the second is, once it is held.
    pub ensure_finalizer-Ready :
        (bring : O → Exec (Call O) (Option ℕ))
        → KeepsUid kind r
        → Stays kind o w.copy
        → ((a : O) → Leads (Ready a) (bring a) (λ _. Safe kind r w) (Safe kind r w))
        → Leads
            (Before kind r w)
            (ensure_finalizer kind r o (has_finalizer (kind.meta o).finalizers r.target.finalizer)
              >>= bring)
            (λ _. Safe kind r w)
            (Safe kind r w)
    ensure_finalizer-Ready bring keeps stays brought =
        Leads-bind _ _ (ensure_finalizer-by keeps stays _ refl) brought
