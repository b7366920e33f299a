-- ===== src/Caches.antt =====
-- src/blockhash_cache.rs and src/leader_cache.rs: the refresh loop of a cache and the callers of
-- `wait_ready`, which are the same in both files, as events that interleave. An event that is not
-- possible in a state leaves it as it is.
pub mod Ready
pub mod Late
use girasolbot.Prelude.{
  ℕ, ◌+◌, Bool, true, false, Option, none, some, List, [], ◌∷◌, ◌==◌, is_some, if◌then◌else◌,
}

-- The loop waits for its next fetch, or has written its first entry and not notified yet.
pub data Phase : Type 0 where
  polling notifying : Phase

-- A call of `wait_ready`: before its look at the cache; after it has seen nothing, and before it
-- listens; while it listens; and after its two results.
pub data Waiter : Type 0 where
  calling missed listening ready timed_out : Waiter

module _ {ℓ} (E : Type ℓ) where
  pub record Cache : Type ℓ where
    pub inner : Option E
    pub first_success : Bool
    pub consecutive_errors : ℕ
    pub phase : Phase
    pub waiters : ℕ → Waiter

  pub data Event : Type ℓ where
    fetched : E → Event
    fetch_failed notify : Event
    look listen time_out : ℕ → Event

  abbrev pub empty_cache : Cache
  empty_cache = record {
    inner = none;
    first_success = true;
    consecutive_errors = 0;
    phase = polling;
    waiters = λ i. calling;
  }

  set_waiter : Cache → ℕ → Waiter → Cache
  set_waiter s i w = record s { waiters = λ u. if i == u then w else s.waiters u }

  -- `notify_waiters` wakes those that listen, and leaves nothing for those that will.
  woken : Waiter → Waiter
  woken listening = ready
  woken w = w

  -- A successful fetch is written, and is followed by a notification if it is the first.
  write_entry : Cache → E → Phase → Cache
  write_entry s e notifying = s
  write_entry s e polling = record s {
    inner = some e;
    consecutive_errors = 0;
    phase = if s.first_success then notifying else polling;
  }

  fail : Cache → Phase → Cache
  fail s notifying = s
  fail s polling = record s { consecutive_errors = s.consecutive_errors + 1 }

  notify_waiters : Cache → Phase → Cache
  unfolding woken
  notify_waiters s polling = s
  notify_waiters s notifying = record s {
    first_success = false;
    phase = polling;
    waiters = λ i. woken (s.waiters i);
  }

  look_at : Cache → ℕ → Waiter → Cache
  unfolding set_waiter
  look_at s i calling = set_waiter s i (if is_some s.inner then ready else missed)
  look_at s i w = s

  start_listening : Cache → ℕ → Waiter → Cache
  unfolding set_waiter
  start_listening s i missed = set_waiter s i listening
  start_listening s i w = s

  give_up : Cache → ℕ → Waiter → Cache
  unfolding set_waiter
  give_up s i listening = set_waiter s i timed_out
  give_up s i w = s

  unfoldable pub step : Cache → Event → Cache
  unfolding write_entry fail notify_waiters look_at start_listening give_up
  step s (fetched e) = write_entry s e s.phase
  step s fetch_failed = fail s s.phase
  step s notify = notify_waiters s s.phase
  step s (look i) = look_at s i (s.waiters i)
  step s (listen i) = start_listening s i (s.waiters i)
  step s (time_out i) = give_up s i (s.waiters i)

  unfoldable pub run : Cache → List Event → Cache
  unfolding step
  run s [] = s
  run s (e ∷ es) = run (step s e) es
