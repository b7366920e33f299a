-- ===== src/Detections/Spaced.antt =====
-- src/main.rs: how often a signature is passed on.
use girasolbot.Prelude.{
  ℕ, ◌+◌, ◌-◌, ◌≤◌, ◌≡◌, refl, ◌⊎◌, true, false, none, some, List, [], ◌∷◌, ◌++◌, String, str_eq,
  eq_refl, ltb, Bool-cases, Option-cases, inl, inr, arith,
}
use girasolbot.Prelude.Dict
use girasolbot.Prelude.Dict.{Dict, get-insert, get-retain}
use girasolbot.Detections.{seen_sig_ttl, SeenSigs, Arrival, clean_up, receive, receive_all}

-- The clock does not go backwards.
unfoldable pub IsClock : ℕ → List Arrival → Type 0
IsClock now [] = Unit
IsClock now (a ∷ rest) =
    (now ≤ a.inserted_at) × (a.inserted_at ≤ a.cleaned_at) × IsClock a.cleaned_at rest

-- A signature that was seen at `since` is remembered from then on or later, or is two minutes old.
Recalls : String → ℕ → ℕ → SeenSigs → Type 0
Recalls sig since now s =
    ((t : ℕ) × (Dict.get s.seen_sigs sig ≡ some t) × (since ≤ t)) ⊎ (since + seen_sig_ttl ≤ now)

clean_up-Recalls :
    (sig : String) (since now t : ℕ) (s : SeenSigs)
    → Dict.get s.seen_sigs sig ≡ some t
    → since ≤ t
    → Recalls sig since now (clean_up now s)
unfolding clean_up Recalls
clean_up-Recalls sig since now t s found later =
    elim (Bool-cases (ltb 100 s.seen_sigs_cleanup_counter)) [
      | inl due ↦ elim (Bool-cases (ltb (now - t) seen_sig_ttl)) [
        | inl young ↦ rw due (
            inl (
              t,
              get-retain (λ at. ltb (now - at) seen_sig_ttl) s.seen_sigs sig t found young,
              later,
            ))
        | inr old ↦ inr (ground arith)
      ]
      | inr early ↦ rw early (inl (t, found, later))
    ]

get_after :
    (s : SeenSigs) (a : Arrival) (sig : String) (since t : ℕ)
    → Dict.get s.seen_sigs sig ≡ some t
    → since ≤ t
    → since ≤ a.inserted_at
    → (u : ℕ) × (Dict.get (Dict.insert s.seen_sigs a.signature a.inserted_at) sig ≡ some u)
      × (since ≤ u)
get_after s a sig since t found later soon = elim (Bool-cases (str_eq a.signature sig)) [
  | inl same ↦
      (a.inserted_at, rw (get-insert s.seen_sigs a.signature sig a.inserted_at, same) refl, soon)
  | inr other ↦ (t, rw (get-insert s.seen_sigs a.signature sig a.inserted_at, other) found, later)
]

receive-Recalls :
    (sig : String) (since now : ℕ) (a : Arrival) (s : SeenSigs)
    → since ≤ now
    → now ≤ a.inserted_at
    → a.inserted_at ≤ a.cleaned_at
    → Recalls sig since now s
    → Recalls sig since a.cleaned_at (receive a s).1
unfolding receive Recalls
receive-Recalls sig since now a s before h k (inr old) = inr (omega arith)
receive-Recalls sig since now a s before h k (inl (t, found, later)) =
    let (u, there, since_u) = get_after s a sig since t found later (omega arith) in
    elim (Option-cases (Dict.get s.seen_sigs a.signature)) [
      | inl fresh ↦ rw (receive, fresh) (clean_up-Recalls sig since a.cleaned_at u _ there since_u)
      | inr (seen_at, known) ↦ rw (receive, known) (inl (u, there, since_u))
    ]

-- A detection is remembered at once.
remembered :
    (p : Arrival) (s : SeenSigs)
    → p.inserted_at ≤ p.cleaned_at
    → Recalls p.signature p.inserted_at p.cleaned_at (receive p s).1
unfolding receive Recalls
remembered p s cleaned =
    let now = p.inserted_at in
    let there : Dict.get (Dict.insert s.seen_sigs p.signature now) p.signature ≡ some now =
      rw (get-insert s.seen_sigs p.signature p.signature now, eq_refl p.signature) refl in
    elim (Option-cases (Dict.get s.seen_sigs p.signature)) [
      | inl fresh ↦
          rw (receive, fresh)
            (clean_up-Recalls p.signature now p.cleaned_at now _ there (omega arith))
      | inr (seen_at, known) ↦ rw (receive, known) (inl (now, there, omega arith))
    ]

-- A detection that is passed on was not remembered.
receive-unseen :
    (a : Arrival) (s : SeenSigs) → (receive a s).0 ≡ true → Dict.get s.seen_sigs a.signature ≡ none
unfolding receive
receive-unseen a s passed = elim (Option-cases (Dict.get s.seen_sigs a.signature)) [
  | inl fresh ↦ fresh
  | inr (seen_at, known) ↦ let absurd : false ≡ true = rw (receive, known) at passed in cc
]

spaced_from :
    (later : List Arrival) (e : Arrival) (since now : ℕ) (s : SeenSigs)
    → since ≤ now
    → IsClock now (later ++ e ∷ [])
    → Recalls e.signature since now s
    → (receive e (receive_all later s)).0 ≡ true
    → since + seen_sig_ttl ≤ e.inserted_at
unfolding IsClock receive_all Recalls
spaced_from [] e since now s before (soon, cleaned, ended) (inr old) passed = omega arith
spaced_from [] e since now s before (soon, cleaned, ended) (inl (t, found, h)) passed =
    let unseen = receive-unseen e s passed in cc
spaced_from (a ∷ later) e since now s before (soon, cleaned, clock) recalled passed =
    spaced_from later e since a.cleaned_at (receive a s).1 (omega arith) clock
      (receive-Recalls e.signature since now a s before soon cleaned recalled) passed

-- Where the clock does not go backwards, a detection that is passed on comes two minutes or more
-- after every earlier detection with its signature, whether that one was passed on or not, and
-- whatever is remembered before and arrives in between.
pub receive-IsSpaced :
    (later : List Arrival) (p e : Arrival) (s : SeenSigs)
    → IsClock p.inserted_at (p ∷ later ++ e ∷ [])
    → p.signature ≡ e.signature
    → (receive e (receive_all (p ∷ later) s)).0 ≡ true
    → p.inserted_at + seen_sig_ttl ≤ e.inserted_at
unfolding IsClock receive_all
receive-IsSpaced later p e s (soon, cleaned, clock) same passed =
    spaced_from later e p.inserted_at p.cleaned_at _ cleaned clock
      (rw (← same) (remembered p s cleaned)) passed
