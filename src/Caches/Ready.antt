-- ===== src/Caches/Ready.antt =====
-- When `wait_ready` returns, and when it does not.
use girasolbot.Prelude.{
  ℕ, ◌≡◌, refl, sym, ap, ◌⊎◌, inl, inr, Bool-cases, Bool, true, false, List, [], ◌∷◌, ◌==◌, is_some,
  arith,
}
use girasolbot.Caches.{
  Phase, polling, notifying, Waiter, calling, missed, listening, ready, timed_out, Cache, Event,
  fetched, fetch_failed, notify, look, listen, time_out, empty_cache, step, run, set_waiter,
  write_entry, fail, notify_waiters, look_at, start_listening, give_up,
}

abbrev pub is_ready : Waiter → Bool
is_ready ready = true
is_ready _ = false

is_ready-ready : (w : Waiter) → is_ready w ≡ true → w ≡ ready
is_ready-ready ready h = refl
is_ready-ready calling h = cc
is_ready-ready missed h = cc
is_ready-ready listening h = cc
is_ready-ready timed_out h = cc

module _ {ℓ} (E : Type ℓ) where
  -- Whoever was told that the cache is ready, and the loop when it is about to tell, find an entry.
  record IsSound (s : Cache E) : Type ℓ where
    told : (i : ℕ) → s.waiters i ≡ ready → is_some s.inner ≡ true
    telling : s.phase ≡ notifying → is_some s.inner ≡ true

  empty_cache-IsSound : IsSound (empty_cache E)
  empty_cache-IsSound = record { told = λ i h. cc; telling = λ h. cc }

  write_entry-IsSound :
      (s : Cache E) (e : E) (p : Phase) → IsSound s → IsSound (write_entry E s e p)
  unfolding write_entry
  write_entry-IsSound s e notifying h = h
  write_entry-IsSound s e polling h = record { told = λ i _. refl; telling = λ _. refl }

  fail-IsSound : (s : Cache E) (p : Phase) → IsSound s → IsSound (fail E s p)
  unfolding fail
  fail-IsSound s notifying h = h
  fail-IsSound s polling h = record { told = h.told; telling = h.telling }

  notify_waiters-IsSound :
      (s : Cache E) (p : Phase) → p ≡ s.phase → IsSound s → IsSound (notify_waiters E s p)
  unfolding notify_waiters
  notify_waiters-IsSound s polling e h = h
  notify_waiters-IsSound s notifying e h = record {
    told = λ i _. h.telling (sym e);
    telling = λ t. cc;
  }

  -- A waiter may become ready where there is an entry, and anything else anywhere.
  set_waiter-IsSound :
      (s : Cache E) (i : ℕ) (w : Waiter)
      → (is_ready w ≡ false) ⊎ (is_some s.inner ≡ true)
      → IsSound s
      → IsSound (set_waiter E s i w)
  unfolding set_waiter
  set_waiter-IsSound s i w allowed h = record {
    told = λ u r. elim (Bool-cases (i == u)) [
      | inl e ↦ let same : w ≡ ready = grind arith in ground (arith, allowed, ap is_ready same)
      | inr e ↦ h.told u (grind arith)
    ];
    telling = h.telling;
  }

  look_at-IsSound : (s : Cache E) (i : ℕ) (w : Waiter) → IsSound s → IsSound (look_at E s i w)
  unfolding look_at
  look_at-IsSound s i calling h = elim (Bool-cases (is_some s.inner)) [
    | inl e ↦ rw e (set_waiter-IsSound s i ready (inr e) h)
    | inr e ↦ rw e (set_waiter-IsSound s i missed (inl refl) h)
  ]
  look_at-IsSound s i missed h = h
  look_at-IsSound s i listening h = h
  look_at-IsSound s i ready h = h
  look_at-IsSound s i timed_out h = h

  start_listening-IsSound :
      (s : Cache E) (i : ℕ) (w : Waiter) → IsSound s → IsSound (start_listening E s i w)
  unfolding start_listening
  start_listening-IsSound s i missed h = set_waiter-IsSound s i listening (inl refl) h
  start_listening-IsSound s i calling h = h
  start_listening-IsSound s i listening h = h
  start_listening-IsSound s i ready h = h
  start_listening-IsSound s i timed_out h = h

  give_up-IsSound : (s : Cache E) (i : ℕ) (w : Waiter) → IsSound s → IsSound (give_up E s i w)
  unfolding give_up
  give_up-IsSound s i listening h = set_waiter-IsSound s i timed_out (inl refl) h
  give_up-IsSound s i calling h = h
  give_up-IsSound s i missed h = h
  give_up-IsSound s i ready h = h
  give_up-IsSound s i timed_out h = h

  step-IsSound : (s : Cache E) (e : Event E) → IsSound s → IsSound (step E s e)
  unfolding step
  step-IsSound s (fetched e) h = write_entry-IsSound s e s.phase h
  step-IsSound s fetch_failed h = fail-IsSound s s.phase h
  step-IsSound s notify h = notify_waiters-IsSound s s.phase refl h
  step-IsSound s (look i) h = look_at-IsSound s i (s.waiters i) h
  step-IsSound s (listen i) h = start_listening-IsSound s i (s.waiters i) h
  step-IsSound s (time_out i) h = give_up-IsSound s i (s.waiters i) h

  run-IsSound : (s : Cache E) (es : List (Event E)) → IsSound s → IsSound (run E s es)
  unfolding run
  run-IsSound s [] h = h
  run-IsSound s (e ∷ es) h = run-IsSound (step E s e) es (step-IsSound s e h)

  -- Whatever the order of events, a call of `wait_ready` returns `Ok` only when the cache has an entry.
  pub run-populated :
      (es : List (Event E)) (i : ℕ)
      → is_ready ((run E (empty_cache E) es).waiters i) ≡ true
      → is_some (run E (empty_cache E) es).inner ≡ true
  run-populated es i h =
      (run-IsSound (empty_cache E) es empty_cache-IsSound).told i (is_ready-ready _ h)
