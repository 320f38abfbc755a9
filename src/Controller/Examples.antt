-- ===== src/Controller/Examples.antt =====
-- A key that fails, comes back and then succeeds.
use admiralty.Base.{
  ℕ, String, ◌≡◌, refl, none, some, Option, List, [], ◌∷◌, ok, err, Result, errorf,
}
use admiralty.Controller.Queue.{add_rate_limited, forget, finished, after_handle, run_worker}

abbrev handler : List String → String → Result (Option ℕ)
handler [] key = err (errorf "not yet")
handler (k ∷ handled) key = ok none

a_retry :
    run_worker handler [] (some "a" ∷ some "a" ∷ none ∷ some "b" ∷ [])
    ≡ add_rate_limited "a" ∷ finished "a" ∷ forget "a" ∷ finished "a" ∷ []
unfolding run_worker after_handle
a_retry = refl
