-- ===== src/Feedback/Statuses.antt =====
-- `filterContainerStatuses` copies only when a status has to go, and is the plain filter.
use admiralty.Base.{
  ℕ, ◌+◌, String, ◌≡◌, refl, sym, ap, subst, ◌∙◌, Bool, true, false, not, ◌||◌, List, [], ◌∷◌, ◌++◌,
  take, keep, length, length-append, append_assoc, append-nil, arith, if◌then◌else◌,
}
use admiralty.Kube.{ContainerStatus}
use admiralty.Feedback.{filter_loop, filter_container_statuses}

take-length {ℓ} : {A : Type ℓ} (xs ys : List A) → take (length xs) (xs ++ ys) ≡ xs
take-length [] [] = refl
take-length [] (y ∷ ys) = refl
take-length (x ∷ xs) ys = ap (λ t. x ∷ t) (take-length xs ys)

keep-append {ℓ} :
    {A : Type ℓ} (p : A → Bool) (xs ys : List A) → keep p (xs ++ ys) ≡ keep p xs ++ keep p ys
keep-append p [] ys = refl
keep-append p (x ∷ xs) ys = ground (arith, keep-append p xs ys)

module _ (has_name : String → Bool) where
  abbrev named : ContainerStatus → Bool
  named s = has_name s.name

  -- What the loop has built when it has seen `seen`.
  abbrev Built : List ContainerStatus → List ContainerStatus → Bool → List ContainerStatus → Type 0
  Built seen statuses true retval = retval ≡ keep named seen
  Built seen statuses false retval = (retval ≡ statuses) × (keep named seen ≡ seen)

  abbrev grown :
      Bool
      → Bool
      → ContainerStatus
      → List ContainerStatus
      → List ContainerStatus
      → List ContainerStatus
  grown is_named copied s seen retval =
      if is_named
      then if copied then retval ++ s ∷ [] else retval
      else if copied
      then retval
      else seen

  Built-step :
      (seen statuses retval : List ContainerStatus) (s : ContainerStatus) (copied : Bool)
      → Built seen statuses copied retval
      → Built
          (seen ++ s ∷ [])
          statuses
          (copied || not (named s))
          (grown (named s) copied s seen retval)
  Built-step seen statuses retval s true h =
      ground (arith, keep-append named seen (s ∷ []), append-nil (keep named seen))
  Built-step seen statuses retval s false h =
      ground (arith, keep-append named seen (s ∷ []), append-nil (keep named seen))

  Built-done :
      (statuses retval : List ContainerStatus) (copied : Bool)
      → Built statuses statuses copied retval
      → retval ≡ keep named statuses
  Built-done statuses retval true h = h
  Built-done statuses retval false h = h.0 ∙ sym h.1

  filter_loop-Built :
      (seen rest statuses retval : List ContainerStatus) (i : ℕ) (copied : Bool)
      → statuses ≡ seen ++ rest
      → i ≡ length seen
      → Built seen statuses copied retval
      → filter_loop has_name statuses i rest copied retval ≡ keep named statuses
  unfolding filter_loop
  filter_loop-Built seen [] statuses retval i copied e n h =
      Built-done statuses retval copied (subst (λ t. Built t statuses copied retval) (sym whole) h)
    where
      whole : statuses ≡ seen
      whole = e ∙ append-nil seen
  filter_loop-Built seen (s ∷ rest) statuses retval i copied e n h = rw prefix (
      filter_loop-Built (seen ++ s ∷ []) rest statuses (grown (named s) copied s seen retval)
        (i + 1) (copied || not (named s)) (e ∙ sym (append_assoc seen (s ∷ []) rest))
        (omega (arith, length-append seen (s ∷ []))) (Built-step seen statuses retval s copied h))
    where
      prefix : take i statuses ≡ seen
      prefix = rw (n, e) (take-length seen (s ∷ rest))

-- The loop that copies only when it must gives the statuses whose names pass the test, in
-- order.
filter_container_statuses-eq-keep :
    (statuses : List ContainerStatus) (has_name : String → Bool)
    → filter_container_statuses statuses has_name ≡ keep (λ s. has_name s.name) statuses
unfolding filter_container_statuses
filter_container_statuses-eq-keep statuses has_name =
    filter_loop-Built has_name [] statuses statuses statuses 0 false refl refl (refl, refl)
