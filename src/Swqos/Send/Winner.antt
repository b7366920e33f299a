-- ===== src/Swqos/Send/Winner.antt =====
-- What a call of `send_concurrent` of src/swqos_sender.rs returns.
use girasolbot.Prelude.{
  ℕ, zero, suc, ◌<◌, ◌≡◌, ◌≢◌, refl, ap, sym, ◌∙◌, ◌⊎◌, inl, inr, Bool, true, false, ◌&&◌, Option,
  none, some, List, [], ◌∷◌, ◌++◌, String, get_elem?, replicate, length, any, All, All-append,
  length-replicate, arith, ◌==◌, ==→eq, Bool-cases,
}
use mathlib.Core.List.{append_assoc}
use girasolbot.Swqos.{ProviderHealthTracker}
use girasolbot.Swqos.Providers.{SwqosProvider}
use girasolbot.Swqos.Send.{
  Phase, waiting, sending, answered, aborted, ProviderResult, Outcome, pending, sent, all_failed,
  Sending, Event, acquire, cancel, answer, receive, close, other_acquires, other_releases,
  set_phase, all_over, is_over, is_sent, spawn_tasks, on_acquire, on_answer, on_cancel, take_result,
  on_receive, on_close, other_takes, other_gives, deliver, result_of, send_step, send_run,
}

get_elem?-set_phase :
    (phases : List Phase) (i j : ℕ) (p q : Phase)
    → get_elem? (set_phase phases i p) j ≡ some q
    → ((i ≡ j) × (p ≡ q)) ⊎ (get_elem? phases j ≡ some q)
unfolding set_phase
get_elem?-set_phase [] i j p q e = inr e
get_elem?-set_phase (r ∷ phases) zero zero p q e = inl (refl, cc)
get_elem?-set_phase (r ∷ phases) zero (suc j) p q e = inr e
get_elem?-set_phase (r ∷ phases) (suc i) zero p q e = inr e
get_elem?-set_phase (r ∷ phases) (suc i) (suc j) p q e =
    elim (get_elem?-set_phase phases i j p q e) [
      | inl (same, set) ↦ inl (ap suc same, set)
      | inr old ↦ inr old
    ]

length-set_phase :
    (phases : List Phase) (i : ℕ) (p : Phase) → length (set_phase phases i p) ≡ length phases
unfolding set_phase
length-set_phase [] i p = refl
length-set_phase (q ∷ phases) zero p = refl
length-set_phase (q ∷ phases) (suc i) p = ap suc (length-set_phase phases i p)

get_elem?-lt :
    (phases : List Phase) (i : ℕ) (p : Phase) → get_elem? phases i ≡ some p → i < length phases
get_elem?-lt [] i p e = cc
get_elem?-lt (q ∷ phases) zero p e = omega arith
get_elem?-lt (q ∷ phases) (suc i) p e = omega (arith, get_elem?-lt phases i p e)

waits_lem : (n i : ℕ) (p : Phase) → get_elem? (replicate n waiting) i ≡ some p → waiting ≡ p
waits_lem zero i p e = cc
waits_lem (suc n) zero p e = cc
waits_lem (suc n) (suc i) p e = waits_lem n i p e

-- The place of a result is among some results.
abbrev has : ℕ → List ProviderResult → Bool
has i channel = any (λ r. r.provider == i) channel

has-append :
    (i : ℕ) (xs ys : List ProviderResult)
    → (has i xs ≡ true) ⊎ (has i ys ≡ true)
    → has i (xs ++ ys) ≡ true
has-append i [] ys (inl h) = cc
has-append i [] ys (inr h) = h
has-append i (x ∷ xs) ys (inl h) = elim (Bool-cases (x.provider == i)) [
  | inl e ↦ ground arith
  | inr e ↦ ground (arith, has-append i xs ys (inl (ground arith)))
]
has-append i (x ∷ xs) ys (inr h) = ground (arith, has-append i xs ys (inr h))

and_right : (a b : Bool) → (a && b) ≡ true → b ≡ true
and_right true b h = h
and_right false b h = cc

module _ (names : ℕ → String) (answers : ℕ → Option String) (n : ℕ) where
  -- A result of a task of this call, as its provider has answered.
  abbrev pub Honest : ProviderResult → Type 0
  Honest r = (r.signature ≡ answers r.provider) × (r.provider < n)

  abbrev pub Failed : ProviderResult → Type 0
  Failed r = answers r.provider ≡ none

  record IsPending (phases : List Phase) (channel results : List ProviderResult) : Type 0 where
    size : length phases ≡ n
    honest : All Honest channel
    failures : All Failed results
    covered :
        (i : ℕ) → get_elem? phases i ≡ some answered → (answers i ≡ none) ⊎ (has i channel ≡ true)
    alive : (i : ℕ) → get_elem? phases i ≢ some aborted

  -- The results up to the first success.
  abbrev pub Wins : String → List ProviderResult → Type 0
  Wins sig results =
      (before : List ProviderResult) × (r : ProviderResult) × (after : List ProviderResult)
      × (results ≡ before ++ r ∷ after)
      × All Failed before
      × (answers r.provider ≡ some sig)
      × (r.provider < n)

  abbrev AllFail : Type 0
  AllFail = (i : ℕ) → i < n → answers i ≡ none

  abbrev IsSound : List Phase → List ProviderResult → List ProviderResult → Outcome → Type 0
  IsSound phases channel results pending = IsPending phases channel results
  IsSound phases channel results (sent sig rs) = Wins sig rs
  IsSound phases channel results (all_failed rs) = AllFail

  set_phase-IsSound :
      (phases : List Phase) (i : ℕ) (q : Phase) (channel results : List ProviderResult)
      (o : Outcome)
      → (q ≡ sending) ⊎ (is_sent o ≡ true)
      → IsSound phases channel results o
      → IsSound (set_phase phases i q) channel results o
  unfolding is_sent
  set_phase-IsSound phases i q channel results (sent sig rs) ok h = h
  set_phase-IsSound phases i q channel results (all_failed rs) ok h = h
  set_phase-IsSound phases i q channel results pending (inr bad) h = cc
  set_phase-IsSound phases i q channel results pending (inl starts) h = record {
    size = length-set_phase phases i q ∙ h.size;
    honest = h.honest;
    failures = h.failures;
    covered = λ j e. elim (get_elem?-set_phase phases i j q answered e) [
      | inl (same, set) ↦ cc
      | inr old ↦ h.covered j old
    ];
    alive = λ j e. elim (get_elem?-set_phase phases i j q aborted e) [
      | inl (same, set) ↦ cc
      | inr old ↦ h.alive j old
    ];
  }

  answer-IsSound :
      (phases : List Phase) (i : ℕ) (channel results : List ProviderResult) (o : Outcome)
      → get_elem? phases i ≡ some sending
      → IsSound phases channel results o
      → IsSound
          (set_phase phases i answered)
          (deliver names answers o channel (result_of names answers i))
          results
          o
  unfolding deliver result_of
  answer-IsSound phases i channel results (sent sig rs) e h = h
  answer-IsSound phases i channel results (all_failed rs) e h = h
  answer-IsSound phases i channel results pending e h =
      let r = result_of names answers i in
      record {
        size = length-set_phase phases i answered ∙ h.size;
        honest =
            All-append Honest channel (r ∷ []) h.honest
              ((refl, omega (arith, get_elem?-lt phases i sending e, h.size)), tt);
        failures = h.failures;
        covered = λ j a. elim (get_elem?-set_phase phases i j answered answered a) [
          | inl (same, set) ↦ inr (has-append j channel (r ∷ []) (inr (ground arith)))
          | inr old ↦ elim (h.covered j old) [
            | inl fails ↦ inl fails
            | inr there ↦ inr (has-append j channel (r ∷ []) (inl there))
          ]
        ];
        alive = λ j a. elim (get_elem?-set_phase phases i j answered aborted a) [
          | inl (same, set) ↦ cc
          | inr old ↦ h.alive j old
        ];
      }

  -- A failure that is received no longer waits in the channel.
  covered_rest :
      (r : ProviderResult) (rest : List ProviderResult) (i : ℕ)
      → answers r.provider ≡ none
      → (answers i ≡ none) ⊎ (has i (r ∷ rest) ≡ true)
      → (answers i ≡ none) ⊎ (has i rest ≡ true)
  covered_rest r rest i fails (inl e) = inl e
  covered_rest r rest i fails (inr e) = elim (Bool-cases (r.provider == i)) [
    | inl same ↦ inl (ap answers (sym (==→eq r.provider i same)) ∙ fails)
    | inr other ↦ inr (ground arith)
  ]

  take_result-IsSound :
      (s : Sending) (r : ProviderResult) (rest : List ProviderResult) (signature : Option String)
      → r.signature ≡ signature
      → s.outcome ≡ pending
      → IsPending s.phases (r ∷ rest) s.results
      → let t = take_result names answers s r rest signature in
        IsSound t.phases t.channel t.results t.outcome
  unfolding take_result
  take_result-IsSound s r rest (some sig) e o h = (
    s.results,
    r,
    rest,
    append_assoc s.results (r ∷ []) rest,
    h.failures,
    sym h.honest.0.0 ∙ e,
    h.honest.0.1,
  )
  take_result-IsSound s r rest none e o h =
      let fails = sym h.honest.0.0 ∙ e in
      rw o (record {
        size = h.size;
        honest = h.honest.1;
        failures = All-append Failed s.results (r ∷ []) h.failures (fails, tt);
        covered = λ i a. covered_rest r rest i fails (h.covered i a);
        alive = h.alive;
      })

  on_receive-IsSound :
      (s : Sending) (o : Outcome) (channel : List ProviderResult)
      → s.outcome ≡ o
      → IsSound s.phases s.channel s.results s.outcome
      → s.channel ≡ channel
      → let t = on_receive names answers s o channel in
        IsSound t.phases t.channel t.results t.outcome
  unfolding on_receive
  on_receive-IsSound s pending [] eo h ec = h
  on_receive-IsSound s (sent sig rs) channel eo h ec = h
  on_receive-IsSound s (all_failed rs) channel eo h ec = h
  on_receive-IsSound s pending (r ∷ rest) eo h ec =
      take_result-IsSound s r rest r.signature refl eo (rw (eo, ec) at h)

  -- Where all tasks are over and none was aborted, all have answered.
  over_lem :
      (phases : List Phase) (i : ℕ)
      → all_over phases ≡ true
      → ((j : ℕ) → get_elem? phases j ≢ some aborted)
      → i < length phases
      → get_elem? phases i ≡ some answered
  unfolding all_over is_over
  over_lem [] i over alive h = absurd (omega arith)
  over_lem (waiting ∷ phases) zero over alive h = cc
  over_lem (sending ∷ phases) zero over alive h = cc
  over_lem (answered ∷ phases) zero over alive h = refl
  over_lem (aborted ∷ phases) zero over alive h = absurd (alive 0 refl)
  over_lem (p ∷ phases) (suc i) over alive h =
      over_lem phases i (and_right (is_over p) (all_over phases) over) (λ j. alive (suc j))
        (omega (arith, h))

  on_close-IsSound :
      (s : Sending) (o : Outcome) (channel : List ProviderResult)
      → s.outcome ≡ o
      → IsSound s.phases s.channel s.results s.outcome
      → s.channel ≡ channel
      → let t = on_close names answers s o channel in IsSound t.phases t.channel t.results t.outcome
  unfolding on_close
  on_close-IsSound s pending (r ∷ rest) eo h ec = h
  on_close-IsSound s (sent sig rs) channel eo h ec = h
  on_close-IsSound s (all_failed rs) channel eo h ec = h
  on_close-IsSound s pending [] eo h ec =
      let p : IsPending s.phases [] s.results = rw (eo, ec) at h in
      elim (Bool-cases (all_over s.phases)) [
        | inr busy ↦ rw busy h
        | inl over ↦ rw over (λ i lt.
            elim (p.covered i (over_lem s.phases i over p.alive (omega (arith, lt, p.size)))) [
              | inl fails ↦ fails
              | inr there ↦ cc
            ])
      ]

  -- The steps that change the phase of a task, or permits alone.
  on_acquire-IsSound :
      (s : Sending) (i permits : ℕ) (p : Option Phase)
      → IsSound s.phases s.channel s.results s.outcome
      → let t = on_acquire names answers s i p permits in
        IsSound t.phases t.channel t.results t.outcome
  unfolding on_acquire
  on_acquire-IsSound s i (suc permits) (some waiting) h =
      set_phase-IsSound s.phases i sending s.channel s.results s.outcome (inl refl) h
  on_acquire-IsSound s i zero (some waiting) h = h
  on_acquire-IsSound s i permits none h = h
  on_acquire-IsSound s i permits (some sending) h = h
  on_acquire-IsSound s i permits (some answered) h = h
  on_acquire-IsSound s i permits (some aborted) h = h

  on_answer-IsSound :
      (s : Sending) (i now : ℕ) (p : Option Phase)
      → get_elem? s.phases i ≡ p
      → IsSound s.phases s.channel s.results s.outcome
      → let t = on_answer names answers s i now p in IsSound t.phases t.channel t.results t.outcome
  unfolding on_answer
  on_answer-IsSound s i now (some sending) e h =
      answer-IsSound s.phases i s.channel s.results s.outcome e h
  on_answer-IsSound s i now none e h = h
  on_answer-IsSound s i now (some waiting) e h = h
  on_answer-IsSound s i now (some answered) e h = h
  on_answer-IsSound s i now (some aborted) e h = h

  on_cancel-IsSound :
      (s : Sending) (i : ℕ) (p : Option Phase) (over : Bool)
      → is_sent s.outcome ≡ over
      → IsSound s.phases s.channel s.results s.outcome
      → let t = on_cancel names answers s i p over in IsSound t.phases t.channel t.results t.outcome
  unfolding on_cancel
  on_cancel-IsSound s i (some waiting) true e h =
      set_phase-IsSound s.phases i aborted s.channel s.results s.outcome (inr e) h
  on_cancel-IsSound s i (some sending) true e h =
      set_phase-IsSound s.phases i aborted s.channel s.results s.outcome (inr e) h
  on_cancel-IsSound s i (some waiting) false e h = h
  on_cancel-IsSound s i (some sending) false e h = h
  on_cancel-IsSound s i none over e h = h
  on_cancel-IsSound s i (some answered) over e h = h
  on_cancel-IsSound s i (some aborted) over e h = h

  others-IsSound :
      (s : Sending) (k : ℕ)
      → IsSound s.phases s.channel s.results s.outcome
      → (let t = other_takes names answers s k in IsSound t.phases t.channel t.results t.outcome)
        × (let t = other_gives names answers s k in IsSound t.phases t.channel t.results t.outcome)
  unfolding other_takes other_gives
  others-IsSound s zero h = (h, h)
  others-IsSound s (suc k) h = (h, h)

  send_step-IsSound :
      (s : Sending) (e : Event)
      → IsSound s.phases s.channel s.results s.outcome
      → let t = send_step names answers s e in IsSound t.phases t.channel t.results t.outcome
  unfolding send_step
  send_step-IsSound s (acquire i) h = on_acquire-IsSound s i s.permits _ h
  send_step-IsSound s (answer i now) h = on_answer-IsSound s i now _ refl h
  send_step-IsSound s (cancel i) h = on_cancel-IsSound s i _ _ refl h
  send_step-IsSound s receive h = on_receive-IsSound s s.outcome s.channel refl h refl
  send_step-IsSound s close h = on_close-IsSound s s.outcome s.channel refl h refl
  send_step-IsSound s other_acquires h = (others-IsSound s s.permits h).0
  send_step-IsSound s other_releases h = (others-IsSound s s.others h).1

  send_run-IsSound :
      (s : Sending) (es : List Event)
      → IsSound s.phases s.channel s.results s.outcome
      → let t = send_run names answers s es in IsSound t.phases t.channel t.results t.outcome
  unfolding send_run
  send_run-IsSound s [] h = h
  send_run-IsSound s (e ∷ es) h =
      send_run-IsSound (send_step names answers s e) es (send_step-IsSound s e h)

  -- What a call may return when it returns.
  abbrev pub Returns : Outcome → Type 0
  Returns pending = Unit
  Returns (sent sig results) = Wins sig results
  Returns (all_failed results) = (i : ℕ) → i < n → answers i ≡ none

  IsSound-Returns :
      (phases : List Phase) (channel results : List ProviderResult) (o : Outcome)
      → IsSound phases channel results o
      → Returns o
  IsSound-Returns phases channel results pending h = tt
  IsSound-Returns phases channel results (sent sig rs) h = h
  IsSound-Returns phases channel results (all_failed rs) h = h

-- Whatever the order of events: if the call returns a signature, it is that of a provider that was
-- asked, and every result that came before is a failure; if it returns an error, every provider
-- that was asked has failed.
pub send_run-Returns :
    (names : ℕ → String) (answers : ℕ → Option String) (h : ProviderHealthTracker)
    (permits others : ℕ) (active : List SwqosProvider) (es : List Event)
    → Returns names answers
        (length active)
        (send_run names answers (spawn_tasks h permits others active) es).outcome
unfolding spawn_tasks
send_run-Returns names answers h permits others active es =
    let n = length active in
    let start : Sending = spawn_tasks h permits others active in
    let s = send_run names answers start es in
    IsSound-Returns names answers n s.phases s.channel s.results s.outcome (
      send_run-IsSound names answers n start es (record {
        size = length-replicate n waiting;
        honest = tt;
        failures = tt;
        covered = λ i e. let bad = waits_lem n i answered e in cc;
        alive = λ i e. let bad = waits_lem n i aborted e in cc;
      }))
