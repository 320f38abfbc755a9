-- ===== src/Controller/Queue.antt =====
-- `processNextWorkItem` and `runWorker`. The queue itself is client-go's: what the program does to
-- it is the list of its calls, in order. `Get` answers a key, or that the queue is shutting down. What
-- `Handle` answers depends on the keys that were handled before, the last one first: a key that fails
-- and comes back may succeed then.
use admiralty.Base.{
  ℕ, String, ◌≡◌, refl, Bool, true, false, Option, none, some, List, [], ◌∷◌, ◌++◌, Result, ok, err,
  ap, ◌∙◌,
}

pub data QueueCall : Type 0 where
  add_rate_limited forget finished : String → QueueCall
  add_after : String → ℕ → QueueCall

-- What follows a result of `Handle`. `Done` (`finished` here) is deferred.
unfoldable pub after_handle : String → Result (Option ℕ) → List QueueCall
after_handle key (err e) = add_rate_limited key ∷ finished key ∷ []
after_handle key (ok (some requeue_after)) = add_after key requeue_after ∷ finished key ∷ []
after_handle key (ok none) = forget key ∷ finished key ∷ []

module _ (handle : List String → String → Result (Option ℕ)) where
  process_next_work_item : List String → Option String → Bool × List QueueCall
  unfolding after_handle
  process_next_work_item handled none = (false, [])
  process_next_work_item handled (some key) = (true, after_handle key (handle handled key))

  abbrev after : List String → Option String → List String
  after handled none = handled
  after handled (some key) = key ∷ handled

  -- for c.processNextWorkItem() {}, over the answers that `Get` gives
  unfoldable pub run_worker : List String → List (Option String) → List QueueCall
  unfolding process_next_work_item
  run_worker handled [] = []
  run_worker handled (got ∷ gets) =
      let rest = run_worker (after handled got) gets in
      let (again, calls) = process_next_work_item handled got in
      elim again [ true ↦ calls ++ rest | false ↦ calls ]

-- The keys handed to a worker before the shutdown.
abbrev served : List (Option String) → List String
served [] = []
served (none ∷ gets) = []
served (some key ∷ gets) = key ∷ served gets

abbrev finishes : List QueueCall → List String
finishes [] = []
finishes (finished k ∷ calls) = k ∷ finishes calls
finishes (add_rate_limited k ∷ calls) = finishes calls
finishes (forget k ∷ calls) = finishes calls
finishes (add_after k d ∷ calls) = finishes calls

finishes-after_handle :
    (key : String) (result : Result (Option ℕ)) (calls : List QueueCall)
    → finishes (after_handle key result ++ calls) ≡ key ∷ finishes calls
unfolding after_handle
finishes-after_handle key (err e) calls = refl
finishes-after_handle key (ok none) calls = refl
finishes-after_handle key (ok (some requeue_after)) calls = refl

-- Whatever `Handle` answers, a worker calls `Done` once for each key that it was handed before the
-- shutdown, in order.
finishes-run_worker :
    (handle : List String → String → Result (Option ℕ)) (handled : List String)
    (gets : List (Option String))
    → finishes (run_worker handle handled gets) ≡ served gets
unfolding run_worker
finishes-run_worker handle handled [] = refl
finishes-run_worker handle handled (none ∷ gets) = refl
finishes-run_worker handle handled (some key ∷ gets) =
    finishes-after_handle key (handle handled key) (run_worker handle (key ∷ handled) gets)
    ∙ ap (λ keys. key ∷ keys) (finishes-run_worker handle (key ∷ handled) gets)
