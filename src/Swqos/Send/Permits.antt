-- ===== src/Swqos/Send/Permits.antt =====
-- How many requests of src/swqos_sender.rs are in flight at a time.
use girasolbot.Prelude.{
  ℕ, zero, suc, ◌+◌, ◌≤◌, ◌≡◌, refl, ap, ◌∙◌, Bool, true, false, Option, none, some, List, [], ◌∷◌,
  String, get_elem?, replicate, length, arith,
}
use girasolbot.Swqos.{ProviderHealthTracker}
use girasolbot.Swqos.Providers.{SwqosProvider}
use girasolbot.Swqos.Send.{
  Phase, waiting, sending, answered, aborted, ProviderResult, Outcome, pending, sent, all_failed,
  Sending, Event, acquire, cancel, answer, receive, close, other_acquires, other_releases,
  set_phase, is_sent, spawn_tasks, on_acquire, on_answer, on_cancel, take_result, on_receive,
  on_close, other_takes, other_gives, send_step, send_run,
}

weight : Phase → ℕ
weight waiting = 0
weight sending = 1
weight answered = 0
weight aborted = 0

-- The tasks with a permit.
pub in_flight : List Phase → ℕ
unfolding weight
in_flight [] = 0
in_flight (p ∷ phases) = weight p + in_flight phases

in_flight-set_phase :
    (phases : List Phase) (i : ℕ) (p q : Phase)
    → get_elem? phases i ≡ some p
    → in_flight (set_phase phases i q) + weight p ≡ in_flight phases + weight q
unfolding in_flight set_phase
in_flight-set_phase [] i p q e = cc
in_flight-set_phase (r ∷ phases) zero p q e = let same : r ≡ p = cc in omega (arith, ap weight same)
in_flight-set_phase (r ∷ phases) (suc i) p q e = omega (arith, in_flight-set_phase phases i p q e)

in_flight-replicate : (n : ℕ) → in_flight (replicate n waiting) ≡ 0
unfolding in_flight
in_flight-replicate zero = refl
in_flight-replicate (suc n) = omega (arith, in_flight-replicate n)

-- Every permit is free, with a task, or with another call.
abbrev pub total : Sending → ℕ
total s = s.permits + in_flight s.phases + s.others

module _ (names : ℕ → String) (answers : ℕ → Option String) where
  on_acquire-total :
      (s : Sending) (i permits : ℕ) (p : Option Phase)
      → get_elem? s.phases i ≡ p
      → s.permits ≡ permits
      → total (on_acquire names answers s i p permits) ≡ total s
  unfolding on_acquire weight
  on_acquire-total s i (suc permits) (some waiting) e eq =
      omega (arith, in_flight-set_phase s.phases i waiting sending e)
  on_acquire-total s i zero (some waiting) e eq = refl
  on_acquire-total s i permits none e eq = refl
  on_acquire-total s i permits (some sending) e eq = refl
  on_acquire-total s i permits (some answered) e eq = refl
  on_acquire-total s i permits (some aborted) e eq = refl

  on_answer-total :
      (s : Sending) (i now : ℕ) (p : Option Phase)
      → get_elem? s.phases i ≡ p
      → total (on_answer names answers s i now p) ≡ total s
  unfolding on_answer weight
  on_answer-total s i now (some sending) e =
      omega (arith, in_flight-set_phase s.phases i sending answered e)
  on_answer-total s i now none e = refl
  on_answer-total s i now (some waiting) e = refl
  on_answer-total s i now (some answered) e = refl
  on_answer-total s i now (some aborted) e = refl

  on_cancel-total :
      (s : Sending) (i : ℕ) (p : Option Phase) (over : Bool)
      → get_elem? s.phases i ≡ p
      → total (on_cancel names answers s i p over) ≡ total s
  unfolding on_cancel weight
  on_cancel-total s i (some waiting) true e =
      omega (arith, in_flight-set_phase s.phases i waiting aborted e)
  on_cancel-total s i (some sending) true e =
      omega (arith, in_flight-set_phase s.phases i sending aborted e)
  on_cancel-total s i (some waiting) false e = refl
  on_cancel-total s i (some sending) false e = refl
  on_cancel-total s i none over e = refl
  on_cancel-total s i (some answered) over e = refl
  on_cancel-total s i (some aborted) over e = refl

  on_receive-total :
      (s : Sending) (o : Outcome) (channel : List ProviderResult)
      → total (on_receive names answers s o channel) ≡ total s
  unfolding on_receive take_result
  on_receive-total s pending [] = refl
  on_receive-total s pending (r ∷ rest) =
      elim r.signature as (λ sig. total (take_result names answers s r rest sig) ≡ total s) [
        | none ↦ refl
        | some sig ↦ refl
      ]
  on_receive-total s (sent sig results) channel = refl
  on_receive-total s (all_failed results) channel = refl

  on_close-total :
      (s : Sending) (o : Outcome) (channel : List ProviderResult)
      → total (on_close names answers s o channel) ≡ total s
  unfolding on_close
  on_close-total s pending [] = ground arith
  on_close-total s pending (r ∷ rest) = refl
  on_close-total s (sent sig results) channel = refl
  on_close-total s (all_failed results) channel = refl

  other_takes-total :
      (s : Sending) (permits : ℕ)
      → s.permits ≡ permits
      → total (other_takes names answers s permits) ≡ total s
  unfolding other_takes
  other_takes-total s zero e = refl
  other_takes-total s (suc permits) e = omega (arith, e)

  other_gives-total :
      (s : Sending) (others : ℕ)
      → s.others ≡ others
      → total (other_gives names answers s others) ≡ total s
  unfolding other_gives
  other_gives-total s zero e = refl
  other_gives-total s (suc others) e = omega (arith, e)

  send_step-total : (s : Sending) (e : Event) → total (send_step names answers s e) ≡ total s
  unfolding send_step
  send_step-total s (acquire i) = on_acquire-total s i s.permits _ refl refl
  send_step-total s (answer i now) = on_answer-total s i now _ refl
  send_step-total s (cancel i) = on_cancel-total s i _ (is_sent s.outcome) refl
  send_step-total s receive = on_receive-total s s.outcome s.channel
  send_step-total s close = on_close-total s s.outcome s.channel
  send_step-total s other_acquires = other_takes-total s s.permits refl
  send_step-total s other_releases = other_gives-total s s.others refl

  send_run-total : (s : Sending) (es : List Event) → total (send_run names answers s es) ≡ total s
  unfolding send_run
  send_run-total s [] = refl
  send_run-total s (e ∷ es) = send_run-total (send_step names answers s e) es ∙ send_step-total s e

  -- Whatever the order of events, no permit of the semaphore is lost or made: the free ones, those of
  -- the tasks and those of other calls are as many as at the start, so that never more requests are
  -- in flight than there are permits.
  pub send_run-bounds :
      (h : ProviderHealthTracker) (permits others : ℕ) (active : List SwqosProvider)
      (es : List Event)
      → let s = send_run names answers (spawn_tasks h permits others active) es in
        (s.permits + in_flight s.phases + s.others ≡ permits + others)
        × (in_flight s.phases + s.others ≤ permits + others)
  unfolding spawn_tasks
  send_run-bounds h permits others active es =
      let same = send_run-total (spawn_tasks h permits others active) es in
      let start = in_flight-replicate (length active) in
      (omega (arith, same, start), omega (arith, same, start))
