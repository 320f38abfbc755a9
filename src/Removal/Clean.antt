-- ===== src/Removal/Clean.antt =====
-- The patches that the hook sends.
use admiralty.Base.{◌≡◌, sym, ap, ◌∙◌, List, [], ◌∷◌, ok, send, return, bind-Gives}
use admiralty.Common.{label_key_has_finalizer}
use admiralty.Kube.{Meta}
use admiralty.Removal.{Kind, Call, list_all, Server, patch_of, patch_each, patch_kind}

module _ (server : Server) (kind : Kind) where
  -- The patches of the objects, put before the calls made so far, one by one.
  abbrev pub patches : List Meta → List Call → List Call
  patches [] log = log
  patches (o ∷ items) log = patches items (patch_of server kind o ∷ log)

  patch_each-patches :
      (items : List Meta) (log log' : List Call)
      → patch_each server kind items log ≡ (ok tt, log')
      → log' ≡ patches items log
  unfolding patch_each return send
  patch_each-patches [] log log' done = ap (λ p. p.1) (sym done)
  patch_each-patches (o ∷ items) log log' done = bind-Gives _ _ log done (λ a log'' sent rest.
      patch_each-patches items log'' log' rest
      ∙ ap (λ l. patches items l) (sym (ap (λ p. p.1) sent)))

-- Where the hook gets through a kind of objects with no error, it has listed the objects of all
-- namespaces that have the label, and has sent, for each of them and in their order, the patch that
-- takes this program's finalizers off.
pub patch_kind-patches :
    (server : Server) (kind : Kind) (log log' : List Call)
    → patch_kind server kind log ≡ (ok tt, log')
    → (items : List Meta) × (server.list log kind ≡ ok items)
      × (log' ≡ patches server kind items (list_all kind label_key_has_finalizer ∷ log))
unfolding patch_kind send
patch_kind-patches server kind log log' done = bind-Gives _ _ log done (λ items log'' listed rest. (
  items,
  ap (λ p. p.0) listed,
  patch_each-patches server kind items log'' log' rest
      ∙ ap (λ l. patches server kind items l) (sym (ap (λ p. p.1) listed)),
))
