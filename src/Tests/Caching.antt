-- ===== src/Tests/Caching.antt =====
-- Tests of the caches.
use girasolbot.Prelude.{ℕ, ◌≡◌, refl, true, false, some, List, [], ◌∷◌, is_some}
use girasolbot.Caches.{
  listening, ready, fetched, notify, look, listen, time_out, fetch_failed, Event, Cache,
  empty_cache, run,
}
use girasolbot.Caches.Ready.{is_ready, run-populated}
use girasolbot.Caches.Late.{run-late}

-- One caller listens in time, and another looks before the first fetch and listens after it.
abbrev events : List (Event ℕ)
events = look 0 ∷ listen 0 ∷ fetch_failed ∷ look 1 ∷ fetched 7 ∷ notify ∷ listen 1 ∷ look 2 ∷ []

after_events : Cache ℕ
after_events = run ℕ (empty_cache ℕ) events

-- The cache has its entry, the first caller is ready, and the second one listens to nothing.
second_caller_listens :
    (after_events.inner ≡ some 7)
    × (after_events.waiters 0 ≡ ready)
    × (after_events.waiters 1 ≡ listening)
    × (after_events.waiters 2 ≡ ready)
unfolding after_events run
second_caller_listens = (refl, refl, refl, refl)

run-populated_example : is_some (run ℕ (empty_cache ℕ) events).inner ≡ true
unfolding run
run-populated_example = run-populated ℕ events 0 refl

run-late_example :
    is_ready ((run ℕ after_events (fetched 8 ∷ notify ∷ time_out 1 ∷ [])).waiters 1) ≡ false
unfolding after_events run
run-late_example = run-late ℕ 1 after_events (fetched 8 ∷ notify ∷ time_out 1 ∷ []) refl refl refl
