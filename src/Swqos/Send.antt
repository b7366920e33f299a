-- ===== src/Swqos/Send.antt =====
-- `SwqosSender::send_concurrent` of src/swqos_sender.rs: which providers are asked, and the tasks and
-- the caller as events that interleave. An event that is not possible in a state leaves it as it is.
-- The channel has room for every task, so that a task does not wait when it sends its result.
pub mod Permits
pub mod Winner
use girasolbot.Prelude.{
  ℕ, zero, suc, ◌+◌, ◌-◌, Bool, true, false, not, ◌&&◌, Option, none, some, List, [], ◌∷◌, ◌++◌,
  String, Pubkey, bytes_eq, filter_by, get_elem?, replicate, length, map, inl, inr, ◌⊎◌,
  if◌then◌else◌,
}
use girasolbot.Prelude.Options.{◌>>=◌, unwrap_or}
use girasolbot.Swqos.{
  ProviderHealthTracker, CircuitState, closed, half_open, open_, state, record_success,
  record_failure,
}
use girasolbot.Swqos.Providers.{
  SwqosProvider, SwqosSettings, LeaderMapping, name, identity_pubkey, head,
}

is_open : CircuitState → Bool
is_open open_ = true
is_open half_open = false
is_open closed = false

-- The providers whose circuit is not open; `clock i` is the instant of the look with number `i`.
unfoldable pub not_open :
    ProviderHealthTracker → (ℕ → ℕ) → ℕ → List SwqosProvider → List SwqosProvider
unfolding is_open state name
not_open h clock i [] = []
not_open h clock i (p ∷ providers) =
    let rest = not_open h clock (i + 1) providers in
    if is_open (state h (name p) (clock i)) then rest else p ∷ rest

unfoldable pub is_leader :
    (String → Option Pubkey) → LeaderMapping → Option Pubkey → SwqosProvider → Bool
unfolding identity_pubkey
is_leader from_str mapping leader p =
    unwrap_or
      (leader >>= λ l. identity_pubkey from_str p mapping >>= λ owner. some (bytes_eq owner l))
      false

-- The providers that are asked.
unfoldable pub active_providers :
    SwqosSettings
    → (String → Option Pubkey)
    → ProviderHealthTracker
    → (ℕ → ℕ)
    → Option Pubkey
    → List SwqosProvider
    → List SwqosProvider
unfolding not_open is_leader
active_providers s from_str h clock leader providers =
    let up = not_open h clock 0 providers in
    if s.own_leader_strategy_enabled && s.swqos_skip_leader_provider
    then filter_by (λ p. not (is_leader from_str s.leader_mapping leader p)) up
    else up

-- A task before it has its permit; with its permit; at its end; and when it was aborted before.
pub data Phase : Type 0 where
  waiting sending answered aborted : Phase

-- The place of a provider among those that are asked, and what it has answered.
pub record ProviderResult : Type 0 where
  pub provider : ℕ
  pub signature : Option String

pub data Outcome : Type 0 where
  pending : Outcome
  sent : String → List ProviderResult → Outcome
  all_failed : List ProviderResult → Outcome

-- `others` counts the permits that other calls hold.
pub record Sending : Type 0 where
  pub health : ProviderHealthTracker
  pub permits : ℕ
  pub others : ℕ
  pub phases : List Phase
  pub channel : List ProviderResult
  pub results : List ProviderResult
  pub outcome : Outcome

-- `answer i now` is the end of the request of a task at an instant; `cancel i` the end of an aborted
-- task; `receive` and `close` are the two results of `recv` in the caller.
pub data Event : Type 0 where
  acquire cancel : ℕ → Event
  answer : ℕ → ℕ → Event
  receive close other_acquires other_releases : Event

unfoldable pub set_phase : List Phase → ℕ → Phase → List Phase
set_phase [] i p = []
set_phase (q ∷ phases) zero p = p ∷ phases
set_phase (q ∷ phases) (suc i) p = q ∷ set_phase phases i p

is_over : Phase → Bool
is_over waiting = false
is_over sending = false
is_over answered = true
is_over aborted = true

unfoldable pub all_over : List Phase → Bool
unfolding is_over
all_over [] = true
all_over (p ∷ phases) = is_over p && all_over phases

is_sent : Outcome → Bool
is_sent pending = false
is_sent (sent sig results) = true
is_sent (all_failed results) = false

-- The state in which the tasks are spawned.
unfoldable pub spawn_tasks : ProviderHealthTracker → ℕ → ℕ → List SwqosProvider → Sending
spawn_tasks h permits others active = record {
  health = h;
  permits = permits;
  others = others;
  phases = replicate (length active) waiting;
  channel = [];
  results = [];
  outcome = pending;
}

module _ (names : ℕ → String) (answers : ℕ → Option String) where
  unfoldable pub on_acquire : Sending → ℕ → Option Phase → ℕ → Sending
  unfolding set_phase
  on_acquire s i (some waiting) (suc permits) = record s {
    permits = permits;
    phases = set_phase s.phases i sending;
  }
  on_acquire s i _ _ = s

  -- The circuit of the provider of a task, after its answer.
  unfoldable pub health_after :
      ProviderHealthTracker → String → ℕ → Option String → ProviderHealthTracker
  unfolding record_success record_failure
  health_after h provider now none = record_failure h provider now
  health_after h provider now (some sig) = record_success h provider

  unfoldable pub result_of : ℕ → ProviderResult
  result_of i = record { provider = i; signature = answers i }

  -- A result after the end of the call finds no receiver.
  unfoldable pub deliver : Outcome → List ProviderResult → ProviderResult → List ProviderResult
  deliver pending channel r = channel ++ r ∷ []
  deliver (sent sig results) channel r = channel
  deliver (all_failed results) channel r = channel

  unfoldable pub on_answer : Sending → ℕ → ℕ → Option Phase → Sending
  unfolding set_phase health_after result_of deliver
  on_answer s i now (some sending) = record s {
    health = health_after s.health (names i) now (answers i);
    permits = s.permits + 1;
    phases = set_phase s.phases i answered;
    channel = deliver s.outcome s.channel (result_of i);
  }
  on_answer s i now _ = s

  -- `abort` takes effect where a task waits, after the first success.
  unfoldable pub on_cancel : Sending → ℕ → Option Phase → Bool → Sending
  unfolding set_phase
  on_cancel s i (some waiting) true = record s { phases = set_phase s.phases i aborted }
  on_cancel s i (some sending) true = record s {
    permits = s.permits + 1;
    phases = set_phase s.phases i aborted;
  }
  on_cancel s i _ _ = s

  -- The first success ends the loop, and takes what else the channel holds.
  unfoldable pub take_result :
      Sending → ProviderResult → List ProviderResult → Option String → Sending
  take_result s r rest none = record s { channel = rest; results = s.results ++ r ∷ [] }
  take_result s r rest (some sig) =
      let results = (s.results ++ r ∷ []) ++ rest in
      record s { channel = []; results = results; outcome = sent sig results }

  unfoldable pub on_receive : Sending → Outcome → List ProviderResult → Sending
  unfolding take_result
  on_receive s pending (r ∷ rest) = take_result s r rest r.signature
  on_receive s _ _ = s

  unfoldable pub on_close : Sending → Outcome → List ProviderResult → Sending
  unfolding all_over
  on_close s pending [] =
      if all_over s.phases then record s { outcome = all_failed s.results } else s
  on_close s _ _ = s

  unfoldable pub other_takes : Sending → ℕ → Sending
  other_takes s zero = s
  other_takes s (suc permits) = record s { permits = permits; others = s.others + 1 }

  unfoldable pub other_gives : Sending → ℕ → Sending
  other_gives s zero = s
  other_gives s (suc others) = record s { permits = s.permits + 1; others = others }

  unfoldable pub send_step : Sending → Event → Sending
  unfolding on_acquire on_answer on_cancel on_receive on_close other_takes other_gives is_sent
  send_step s (acquire i) = on_acquire s i (get_elem? s.phases i) s.permits
  send_step s (answer i now) = on_answer s i now (get_elem? s.phases i)
  send_step s (cancel i) = on_cancel s i (get_elem? s.phases i) (is_sent s.outcome)
  send_step s receive = on_receive s s.outcome s.channel
  send_step s close = on_close s s.outcome s.channel
  send_step s other_acquires = other_takes s s.permits
  send_step s other_releases = other_gives s s.others

  unfoldable pub send_run : Sending → List Event → Sending
  unfolding send_step
  send_run s [] = s
  send_run s (e ∷ es) = send_run (send_step s e) es

-- Where no provider is asked: the answer of the first RPC node, if that is set, or an error.
unfoldable pub send_direct : SwqosSettings → (String → Option String) → Option String
send_direct s send_rpc_transaction =
    if s.own_leader_strategy_enabled && s.own_leader_fallback_direct_rpc
    then head s.solana_rpc_urls >>= send_rpc_transaction
    else none

-- The tasks of the providers that are asked, after some events.
unfoldable pub run_tasks :
    (SwqosProvider → Option String)
    → ProviderHealthTracker
    → ℕ
    → ℕ
    → List SwqosProvider
    → List Event
    → Sending
unfolding spawn_tasks send_run
run_tasks send_to_provider h permits others active es =
    send_run (λ i. unwrap_or (get_elem? (map name active) i) "")
      (λ i. get_elem? active i >>= send_to_provider) (spawn_tasks h permits others active) es

-- The result of a call: that of the fallback, or of the tasks after some events.
unfoldable pub send_concurrent :
    SwqosSettings
    → (String → Option Pubkey)
    → Option Pubkey
    → List SwqosProvider
    → ProviderHealthTracker
    → (ℕ → ℕ)
    → ℕ
    → ℕ
    → (SwqosProvider → Option String)
    → (String → Option String)
    → List Event
    → Option String ⊎ Sending
unfolding active_providers run_tasks send_direct
send_concurrent s from_str leader providers h clock permits others send_to_provider send_rpc es =
    elim (active_providers s from_str h clock leader providers) [
      | [] ↦ inl (send_direct s send_rpc)
      | p ∷ ps ↦ inr (run_tasks send_to_provider h permits others (p ∷ ps) es)
    ]
