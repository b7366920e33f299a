-- ===== src/Caches/Late.antt =====
-- A call of `wait_ready` that listens too late.
use mathlib.Core.Path.{subst}
use girasolbot.Prelude.{
  ℕ, ◌≡◌, refl, sym, ap, inl, inr, Bool-cases, Bool, true, false, List, [], ◌∷◌, ◌==◌, ==→eq,
}
use girasolbot.Caches.{
  Phase, polling, notifying, Waiter, calling, missed, listening, ready, timed_out, Cache, Event,
  fetched, fetch_failed, notify, look, listen, time_out, step, run, set_waiter, write_entry, fail,
  notify_waiters, look_at, start_listening, give_up,
}
use girasolbot.Caches.Ready.{is_ready}

-- A waiter that has seen the cache empty and was not told since.
abbrev pub is_late : Waiter → Bool
is_late missed = true
is_late listening = true
is_late timed_out = true
is_late _ = false

late-ready : (w : Waiter) → is_late w ≡ true → is_ready w ≡ false
late-ready missed h = refl
late-ready listening h = refl
late-ready timed_out h = refl
late-ready calling h = refl
late-ready ready h = cc

not_calling : {A : Type 0} (w : Waiter) → is_late w ≡ true → calling ≡ w → A
not_calling w l e = let h = ap is_late e in cc

module _ {ℓ} (E : Type ℓ) (i : ℕ) where
  -- The one notification is over, and the waiter was not there.
  record IsLate (s : Cache E) : Type ℓ where
    over : s.first_success ≡ false
    quiet : s.phase ≡ polling
    late : is_late (s.waiters i) ≡ true

  set_waiter-IsLate :
      (s : Cache E) (u : ℕ) (w : Waiter)
      → (is_late (s.waiters u) ≡ true → is_late w ≡ true)
      → IsLate s
      → IsLate (set_waiter E s u w)
  unfolding set_waiter
  set_waiter-IsLate s u w keeps h = record {
    over = h.over;
    quiet = h.quiet;
    late = elim (Bool-cases (u == i)) [
      | inl e ↦
          let same : u ≡ i = ==→eq u i e in
          rw e (keeps (subst (λ k. is_late (s.waiters k) ≡ true) (sym same) h.late))
      | inr e ↦ rw e h.late
    ];
  }

  write_entry-IsLate : (s : Cache E) (e : E) (p : Phase) → IsLate s → IsLate (write_entry E s e p)
  unfolding write_entry
  write_entry-IsLate s e notifying h = h
  write_entry-IsLate s e polling h = record { over = h.over; quiet = rw h.over refl; late = h.late }

  fail-IsLate : (s : Cache E) (p : Phase) → IsLate s → IsLate (fail E s p)
  unfolding fail
  fail-IsLate s notifying h = h
  fail-IsLate s polling h = record { over = h.over; quiet = h.quiet; late = h.late }

  notify_waiters-IsLate :
      (s : Cache E) (p : Phase) → p ≡ polling → IsLate s → IsLate (notify_waiters E s p)
  unfolding notify_waiters
  notify_waiters-IsLate s polling e h = h
  notify_waiters-IsLate s notifying e h = cc

  look_at-IsLate :
      (s : Cache E) (u : ℕ) (w : Waiter) → w ≡ s.waiters u → IsLate s → IsLate (look_at E s u w)
  unfolding look_at
  look_at-IsLate s u calling e h = set_waiter-IsLate s u _ (λ l. not_calling (s.waiters u) l e) h
  look_at-IsLate s u missed e h = h
  look_at-IsLate s u listening e h = h
  look_at-IsLate s u ready e h = h
  look_at-IsLate s u timed_out e h = h

  start_listening-IsLate :
      (s : Cache E) (u : ℕ) (w : Waiter) → IsLate s → IsLate (start_listening E s u w)
  unfolding start_listening
  start_listening-IsLate s u missed h = set_waiter-IsLate s u listening (λ _. refl) h
  start_listening-IsLate s u calling h = h
  start_listening-IsLate s u listening h = h
  start_listening-IsLate s u ready h = h
  start_listening-IsLate s u timed_out h = h

  give_up-IsLate : (s : Cache E) (u : ℕ) (w : Waiter) → IsLate s → IsLate (give_up E s u w)
  unfolding give_up
  give_up-IsLate s u listening h = set_waiter-IsLate s u timed_out (λ _. refl) h
  give_up-IsLate s u calling h = h
  give_up-IsLate s u missed h = h
  give_up-IsLate s u ready h = h
  give_up-IsLate s u timed_out h = h

  step-IsLate : (s : Cache E) (e : Event E) → IsLate s → IsLate (step E s e)
  unfolding step
  step-IsLate s (fetched e) h = write_entry-IsLate s e s.phase h
  step-IsLate s fetch_failed h = fail-IsLate s s.phase h
  step-IsLate s notify h = notify_waiters-IsLate s s.phase h.quiet h
  step-IsLate s (look u) h = look_at-IsLate s u (s.waiters u) refl h
  step-IsLate s (listen u) h = start_listening-IsLate s u (s.waiters u) h
  step-IsLate s (time_out u) h = give_up-IsLate s u (s.waiters u) h

  run-IsLate : (s : Cache E) (es : List (Event E)) → IsLate s → IsLate (run E s es)
  unfolding run
  run-IsLate s [] h = h
  run-IsLate s (e ∷ es) h = run-IsLate (step E s e) es (step-IsLate s e h)

  -- Once the loop has notified, a call of `wait_ready` that saw the cache empty before and did not
  -- listen in time never returns `Ok`, however long the events go on and however full the cache is.
  pub run-late :
      (s : Cache E) (es : List (Event E))
      → s.first_success ≡ false
      → s.phase ≡ polling
      → is_late (s.waiters i) ≡ true
      → is_ready ((run E s es).waiters i) ≡ false
  run-late s es over quiet late =
      late-ready _ (run-IsLate s es (record { over = over; quiet = quiet; late = late })).late
