-- ===== src/Follow/Ownership.antt =====
-- What a follow controller does to objects that are not its own, and when a finalizer comes off, for any
-- kind of object whose plan does nothing else while the object stays.
use admiralty.Base.{
  Makes-fail, nil_map, ℕ, String, ◌≡◌, refl, subst, Bool, true, false, Option, none, some, ◌⊎◌, inl,
  inr, [], ◌∷◌, ◌++◌, is_some, All, ok, Exec, ok_inj, ◌>>=◌, if◌then◌else◌, Makes, makes_rules,
  Makes-send, Makes-return, Makes-bind, Makes-lift, Makes-if, Makes-bind-Yields, Yields-lift,
  All-calls, calls, lift-bind, arith,
}
use admiralty.Controller.{parent_controls_child}
use admiralty.Follow.{
  Kind, Call, delete_remote, create_remote, update_remote, update_local, Reconciler, Plan, hold,
  add_finalizer, remove_finalizer, delete_copy, drop_finalizer, terminate, ensure_finalizer,
  is_foreign, bring, bring_labelled, assigns_to_nil, send_update, pursue, settle, found_remote,
  follow, handle,
}

module _ {O : Type 0} (kind : Kind O) (o : O) (remote : Option O) where
  abbrev pub IsOwned : Type 0
  IsOwned =
      (copy : O) × (remote ≡ some copy)
      × (parent_controls_child (kind.meta copy) (kind.meta o) ≡ true)

  abbrev pub Leaves : Type 0
  Leaves = is_some (kind.meta o).deletion_timestamp ≡ true

  abbrev pub Stays : Type 0
  Stays = is_some (kind.meta o).deletion_timestamp ≡ false

  -- `Local` says what an update of the object itself may be while the object stays.
  abbrev pub IsOurs : (O → Type 0) → Call O → Type 0
  IsOurs Local (delete_remote namespace name) = IsOwned × Leaves
  IsOurs Local (update_remote namespace p) = IsOwned × Stays
  IsOurs Local (create_remote namespace p) = (remote ≡ none) × Stays
  IsOurs Local (update_local namespace p) = (Local p × Stays) ⊎ ((remote ≡ none) × Leaves)

module _ {O : Type 0} (kind : Kind O) (r : Reconciler O) (o : O) where
  -- The target's finalizer stands behind those that are there.
  abbrev pub Holds : O → Type 0
  Holds p = (kind.meta p).finalizers ≡ (kind.meta o).finalizers ++ (r.target.finalizer ∷ [])

  hold-Holds : Holds (hold kind r o)
  unfolding hold
  hold-Holds = rw kind.meta-with_meta refl

  module _ (Local : O → Type 0) where
    drop_finalizer-Makes :
        Leaves kind o none
        → (j : Option ℕ) → Makes (IsOurs kind o none Local) (drop_finalizer kind r o j)
    unfolding drop_finalizer remove_finalizer
    drop_finalizer-Makes leaves none = Makes-return none
    drop_finalizer-Makes leaves (some j) =
        Makes-bind _ _ (Makes-send _ _ (inr (refl, leaves))) (λ p. Makes-return none)

    terminate-Makes :
        (namespace name : String) (remote : Option O)
        → is_foreign kind r o remote ≡ false
        → Leaves kind o remote
        → Makes (IsOurs kind o remote Local) (terminate kind r namespace name o remote)
    unfolding terminate delete_copy
    terminate-Makes namespace name (some copy) owned leaves =
        let mine : IsOwned kind o (some copy) = (copy, refl, ground arith) in search makes_rules
    terminate-Makes namespace name none owned leaves = drop_finalizer-Makes leaves _

    send_update-Makes :
        (namespace : String) (copy : O) (update : Option O)
        → is_foreign kind r o (some copy) ≡ false
        → Stays kind o (some copy)
        → Makes (IsOurs kind o (some copy) Local) (send_update kind r namespace update)
    send_update-Makes namespace copy none owned stays = Makes-return none
    send_update-Makes namespace copy (some p) owned stays =
        Makes-bind _ _ (Makes-send _ _ ((copy, refl, ground arith), stays)) (λ q. Makes-return none)

    pub bring-Makes :
        (gold : O) (update : O → Option O) (namespace : String) (remote : Option O)
        → is_foreign kind r o remote ≡ false
        → Stays kind o remote
        → Makes (IsOurs kind o remote Local) (bring kind r gold update namespace remote)
    unfolding bring
    bring-Makes gold update namespace none owned stays = search makes_rules
    bring-Makes gold update namespace (some copy) owned stays =
        send_update-Makes namespace copy (update copy) owned stays

    pub bring_labelled-Makes :
        (gold : O) (update : O → Option O) (namespace : String) (remote : Option O)
        → is_foreign kind r o remote ≡ false
        → Stays kind o remote
        → Makes (IsOurs kind o remote Local) (bring_labelled kind r gold update namespace remote)
    unfolding bring_labelled
    bring_labelled-Makes gold update namespace remote owned stays =
        Makes-if (assigns_to_nil kind r update remote) _ _ (λ panics. Makes-fail nil_map)
          (λ labelled. bring-Makes gold update namespace remote owned stays)

    settle-Makes :
        (namespace name : String) (remote : Option O)
        (go : Option (Option O → Exec (Call O) (Option ℕ)))
        → (is_foreign kind r o remote ≡ false
            → Stays kind o remote
            → Makes (IsOurs kind o remote Local) (pursue kind r go remote))
        → Makes (IsOurs kind o remote Local) (settle kind r namespace name o remote go)
    unfolding settle
    settle-Makes namespace name remote go pursued = search (makes_rules, terminate-Makes, pursued)

    module _ (noun : String) (skips : O → Bool) (plan : String → String → O → Plan O) where
      follow-Makes :
          (namespace name : String) (remote : Option O)
          → ((go : Option (Option O → Exec (Call O) (Option ℕ)))
              → plan namespace name o ≡ ok go
              → is_foreign kind r o remote ≡ false
              → Stays kind o remote
              → Makes (IsOurs kind o remote Local) (pursue kind r go remote))
          → Makes
              (IsOurs kind o remote Local)
              (follow kind r noun skips plan namespace name remote (ok o))
      unfolding follow
      follow-Makes namespace name remote pursued =
          Makes-if (skips o) _ _ (λ e. Makes-return none)
            (λ e.
              Makes-bind-Yields _ _ (Makes-lift _) (Yields-lift _ (λ go planned. planned))
                (λ go planned. settle-Makes namespace name remote go (pursued go planned)))

      -- In a whole pass, if what the plan does while the object stays is the object's own business, then so
      -- is everything else.
      pub calls-IsOurs :
          (key : String) (remote : Option O)
          → found_remote kind r (r.remote_lister (r.split_key key).0 (r.split_key key).1)
            ≡ ok remote
          → r.lister (r.split_key key).0 (r.split_key key).1 ≡ ok o
          → ((go : Option (Option O → Exec (Call O) (Option ℕ)))
              → plan (r.split_key key).0 (r.split_key key).1 o ≡ ok go
              → is_foreign kind r o remote ≡ false
              → Stays kind o remote
              → Makes (IsOurs kind o remote Local) (pursue kind r go remote))
          → All (IsOurs kind o remote Local) (calls (handle kind r noun skips plan key))
      unfolding handle
      calls-IsOurs key remote found listed pursued =
          rw (found, lift-bind, listed, handle) (All-calls _ (follow-Makes _ _ remote pursued))

-- The plans that only hold the object and bring its copy up to date.
module _ {O : Type 0} (kind : Kind O) (r : Reconciler O) (o : O) (remote : Option O) where
  abbrev Ours : Call O → Type 0
  Ours = IsOurs kind o remote (Holds kind r o)

  ensure_finalizer-Makes :
      (j : Option ℕ) → Stays kind o remote → Makes Ours (ensure_finalizer kind r o j)
  unfolding ensure_finalizer add_finalizer
  ensure_finalizer-Makes none stays = Makes-send _ _ (inl (hold-Holds kind r o, stays))
  ensure_finalizer-Makes (some j) stays = Makes-return o

  pub advance-Makes :
      (j : Option ℕ) (bring : O → Exec (Call O) (Option ℕ))
      → Stays kind o remote
      → ((held : O) → Makes Ours (bring held))
      → Makes Ours (ensure_finalizer kind r o j >>= bring)
  advance-Makes j bring stays brought = Makes-bind _ _ (ensure_finalizer-Makes j stays) brought

  pub planned-Makes :
      (follows : Bool) (go : Option O → Exec (Call O) (Option ℕ))
      (p : Option (Option O → Exec (Call O) (Option ℕ)))
      → (if follows then ok (some go) else ok none) ≡ ok p
      → Makes Ours (go remote)
      → Makes Ours (pursue kind r p remote)
  planned-Makes true go p e made = subst (λ p. Makes Ours (pursue kind r p remote)) (ok_inj e) made
  planned-Makes false go p e made =
      subst (λ p. Makes Ours (pursue kind r p remote)) (ok_inj e) (Makes-return none)
