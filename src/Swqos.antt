-- ===== src/Swqos.antt =====
-- The circuit breaker of src/swqos_sender.rs. Each method holds the lock of the circuits throughout,
-- so it is one step. An instant is a number of nanoseconds, and the clock does not go back.
pub mod Circuit
pub mod Providers
pub mod Send
use girasolbot.Prelude.{
  ℕ, ◌+◌, ◌-◌, ◌/◌, Bool, true, false, ◌&&◌, not, Option, none, some, String, ltb, leb,
  if◌then◌else◌, is_some,
}
use girasolbot.Prelude.Dict
use girasolbot.Prelude.Dict.{Dict}

pub record ProviderCircuit : Type 0 where
  pub consecutive_failures : ℕ
  pub opened_at : Option ℕ

pub data CircuitState : Type 0 where
  closed half_open open_ : CircuitState

pub record ProviderHealthTracker : Type 0 where
  pub circuits : Dict ProviderCircuit
  pub failure_threshold : ℕ
  pub cooldown_secs : ℕ

abbrev new_circuit : ProviderCircuit
new_circuit = record { consecutive_failures = 0; opened_at = none }

abbrev pub elapsed_secs : ℕ → ℕ → ℕ
elapsed_secs now opened = (now - opened) / 1000000000

circuit_state : ℕ → ℕ → ℕ → Option ProviderCircuit → CircuitState
circuit_state threshold cooldown now none = closed
circuit_state threshold cooldown now (some c) =
    if ltb c.consecutive_failures threshold then closed else elim c.opened_at [
      | none ↦ open_
      | some opened ↦ if leb cooldown (elapsed_secs now opened) then half_open else open_
    ]

unfoldable pub state : ProviderHealthTracker → String → ℕ → CircuitState
unfolding circuit_state
state h provider now =
    circuit_state h.failure_threshold h.cooldown_secs now (Dict.get h.circuits provider)

unfoldable pub record_success : ProviderHealthTracker → String → ProviderHealthTracker
record_success h provider = record h {
  circuits =
      Dict.modify h.circuits provider (λ c. record { consecutive_failures = 0; opened_at = none });
}

failed : ℕ → ℕ → ProviderCircuit → ProviderCircuit
failed threshold now c =
    let n = c.consecutive_failures + 1 in
    record {
      consecutive_failures = n;
      opened_at = if leb threshold n && not (is_some c.opened_at) then some now else c.opened_at;
    }

circuit_or_new : Option ProviderCircuit → ProviderCircuit
circuit_or_new none = new_circuit
circuit_or_new (some c) = c

unfoldable pub record_failure : ProviderHealthTracker → String → ℕ → ProviderHealthTracker
unfolding failed circuit_or_new
record_failure h provider now =
    let c = circuit_or_new (Dict.get h.circuits provider) in
    record h { circuits = Dict.insert h.circuits provider (failed h.failure_threshold now c) }
