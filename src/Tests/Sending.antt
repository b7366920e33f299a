-- ===== src/Tests/Sending.antt =====
-- Tests of the concurrent sends.
use girasolbot.Prelude.{
  ℕ, ◌+◌, ◌≤◌, ◌≡◌, refl, true, some, none, Option, List, [], ◌∷◌, String, if◌then◌else◌, ◌==◌,
}
use girasolbot.Swqos.{ProviderHealthTracker}
use girasolbot.Swqos.Providers.{SwqosProvider, jito, next_block, temporal, helius_endpoint}
use girasolbot.Swqos.Send.{
  Event, acquire, answer, cancel, receive, close, sent, all_failed, spawn_tasks, send_run, Sending,
}
use girasolbot.Swqos.Send.Permits.{in_flight, send_run-bounds}
use girasolbot.Swqos.Send.Winner.{Returns, send_run-Returns}

abbrev tracker : ProviderHealthTracker
tracker = record { circuits = []; failure_threshold = 3; cooldown_secs = 30 }

abbrev active : List SwqosProvider
active =
    jito "https://jito" ∷ next_block "https://next" "key" ∷ temporal "http://temporal" "key" ∷ []

-- The second provider succeeds; the others fail.
abbrev answers : ℕ → Option String
answers i = if i == 1 then some "5sig" else none

abbrev names : ℕ → String
names i = "provider"

-- Two permits, so that the third task starts when the first has ended.
abbrev events : List Event
events =
    acquire 0
    ∷ acquire 1
    ∷ acquire 2
    ∷ answer 0 100
    ∷ acquire 2
    ∷ receive
    ∷ answer 1 200
    ∷ receive
    ∷ cancel 2
    ∷ []

after_events : Sending
after_events = send_run names answers (spawn_tasks tracker 2 1 active) events

second_wins :
    (after_events.outcome
      ≡ sent "5sig" (
          record { provider = 0; signature = none }
          ∷ record { provider = 1; signature = some "5sig" }
          ∷ []))
    × (after_events.permits ≡ 2)
unfolding after_events send_run spawn_tasks
second_wins = (refl, refl)

-- Where both answers are failures, the call fails.
all_fail :
    (send_run names
      (λ i. none)
      (spawn_tasks tracker 2 0 (jito "a" ∷ []))
      (acquire 0 ∷ answer 0 5 ∷ close ∷ receive ∷ close ∷ [])).outcome
    ≡ all_failed (record { provider = 0; signature = none } ∷ [])
unfolding send_run spawn_tasks
all_fail = refl

helius_parameters :
    helius_endpoint "https://h/fast?x=1" (some "k") true
    ≡ "https://h/fast?x=1&swqos_only=true&api-key=k"
unfolding helius_endpoint
helius_parameters = refl

send_run-bounds_example :
    (after_events.permits + in_flight after_events.phases + after_events.others ≡ 3)
    × (in_flight after_events.phases + after_events.others ≤ 3)
unfolding after_events
send_run-bounds_example = send_run-bounds names answers tracker 2 1 active events

send_run-Returns_example : Returns names answers 3 after_events.outcome
unfolding after_events
send_run-Returns_example = send_run-Returns names answers tracker 2 1 active events
