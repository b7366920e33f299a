-- ===== src/Swqos/Circuit.antt =====
-- The states of a circuit of src/swqos_sender.rs over its life.
use girasolbot.Prelude.{
  ℕ, ◌+◌, ◌≤◌, ◌<◌, ◌≡◌, inl, inr, refl, arith, Bool, true, false, Option, none, some, String,
  str_eq, eq_refl, ltb, if◌then◌else◌, Option-cases, List, [], ◌∷◌, length, ◌∙◌, ap,
}
use mathlib.Core.Option
use mathlib.Core.Path.{ap₂}
use girasolbot.Prelude.Dict
use girasolbot.Prelude.Dict.{Dict, get-insert, get-modify}
use girasolbot.Swqos.{
  ProviderCircuit, ProviderHealthTracker, CircuitState, closed, half_open, open_, circuit_state,
  state, record_success, record_failure, failed, circuit_or_new,
}

-- The circuit that is stored, or a new one.
abbrev circuit : ProviderHealthTracker → String → ProviderCircuit
circuit h p = circuit_or_new (Dict.get h.circuits p)

get-record_failure :
    (h : ProviderHealthTracker) (p q : String) (now : ℕ)
    → Dict.get (record_failure h p now).circuits q ≡ (
        if str_eq p q
        then some (failed h.failure_threshold now (circuit h p))
        else Dict.get h.circuits q)
unfolding record_failure
get-record_failure h p q now =
    get-insert h.circuits p q (failed h.failure_threshold now (circuit h p))

reset_if :
    (threshold cooldown now : ℕ) (same : Bool) (o : Option ProviderCircuit)
    → 0 < threshold
    → circuit_state threshold cooldown now (
        if same
        then Option.map (λ c. record { consecutive_failures = 0; opened_at = none }) o
        else o)
      ≡ (if same then closed else circuit_state threshold cooldown now o)
unfolding circuit_state
reset_if threshold cooldown now true none pos = refl
reset_if threshold cooldown now true (some c) pos = ground arith
reset_if threshold cooldown now false o pos = refl

-- A success closes the circuit of its provider, whatever its state, and no other circuit moves.
pub record_success-closes :
    (h : ProviderHealthTracker) (p q : String) (now : ℕ)
    → 0 < h.failure_threshold
    → state (record_success h p) q now ≡ (if str_eq p q then closed else state h q now)
unfolding record_success state
record_success-closes h p q now pos =
    rw (get-modify h.circuits p q (λ c. record { consecutive_failures = 0; opened_at = none }))
      (reset_if h.failure_threshold h.cooldown_secs now (str_eq p q) (Dict.get h.circuits q) pos)

failed_state :
    (threshold cooldown now later : ℕ) (o : Option ProviderCircuit)
    → now ≤ later
    → circuit_state threshold cooldown now o ≡ half_open
    → circuit_state threshold cooldown later (some (failed threshold now (circuit_or_new o)))
      ≡ half_open
unfolding circuit_state failed circuit_or_new
failed_state threshold cooldown now later none le e = cc
failed_state threshold cooldown now later (some c) le e = elim (Option-cases c.opened_at) [
  | inl x ↦ ground arith
  | inr (t, x) ↦ ground arith
]

-- A failed probe does not open the circuit again: a half-open circuit stays half-open after a
-- failure, at every later instant, so that every later send is let through until one succeeds.
pub record_failure-stays_half_open :
    (h : ProviderHealthTracker) (p : String) (now later : ℕ)
    → now ≤ later
    → state h p now ≡ half_open
    → state (record_failure h p now) p later ≡ half_open
unfolding state record_failure
record_failure-stays_half_open h p now later le e =
    rw (get-record_failure h p p now, eq_refl p)
      (failed_state h.failure_threshold h.cooldown_secs now later (Dict.get h.circuits p) le e)

-- The failures of a provider, one after the other, at the given instants.
abbrev pub fail_at : ProviderHealthTracker → String → List ℕ → ProviderHealthTracker
fail_at h p [] = h
fail_at h p (now ∷ later) = fail_at (record_failure h p now) p later

failures_lem :
    (h : ProviderHealthTracker) (p : String) (times : List ℕ)
    → (circuit (fail_at h p times) p).consecutive_failures
      ≡ (circuit h p).consecutive_failures + length times
unfolding failed circuit_or_new
failures_lem h p [] = omega arith
failures_lem h p (now ∷ later) =
    let count : (circuit (record_failure h p now) p).consecutive_failures
        ≡ (circuit h p).consecutive_failures + 1 =
      rw (get-record_failure h p p now, eq_refl p) refl in
    omega (arith, failures_lem (record_failure h p now) p later, count)

threshold_lem :
    (h : ProviderHealthTracker) (p : String) (times : List ℕ)
    → (fail_at h p times).failure_threshold ≡ h.failure_threshold
unfolding record_failure
threshold_lem h p [] = refl
threshold_lem h p (now ∷ later) = threshold_lem (record_failure h p now) p later

abbrev pub is_closed : CircuitState → Bool
is_closed closed = true
is_closed half_open = false
is_closed open_ = false

closed_lem :
    (threshold cooldown now : ℕ) (o : Option ProviderCircuit)
    → 0 < threshold
    → is_closed (circuit_state threshold cooldown now o)
      ≡ ltb (circuit_or_new o).consecutive_failures threshold
unfolding circuit_state circuit_or_new
closed_lem threshold cooldown now none pos = ground arith
closed_lem threshold cooldown now (some c) pos = elim (Option-cases c.opened_at) [
  | inl x ↦ ground arith
  | inr (t, x) ↦ ground arith
]

-- From a provider without a record, the circuit is closed exactly as long as the failures are fewer
-- than the threshold, whenever they came.
pub fail_at-opens :
    (h : ProviderHealthTracker) (p : String) (times : List ℕ) (now : ℕ)
    → 0 < h.failure_threshold
    → Dict.get h.circuits p ≡ none
    → is_closed (state (fail_at h p times) p now) ≡ ltb (length times) h.failure_threshold
unfolding state circuit_or_new
fail_at-opens h p times now pos e =
    let after = fail_at h p times in
    let start : (circuit h p).consecutive_failures ≡ 0 =
      ap (λ o. (circuit_or_new o).consecutive_failures) e in
    let count : (circuit after p).consecutive_failures ≡ length times =
      omega (arith, failures_lem h p times, start) in
    let same = threshold_lem h p times in
    let lem =
      closed_lem after.failure_threshold after.cooldown_secs now (Dict.get after.circuits p)
        (omega (arith, same, pos)) in
    lem ∙ ap₂ ltb count same
