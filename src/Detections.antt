-- ===== src/Detections.antt =====
-- src/main.rs: the loop of the buy executor up to the task of a buy. The same transaction is detected
-- by several listeners; the loop passes one detection of it on.
pub mod Spaced
use girasolbot.Prelude.{
  ℕ, ◌+◌, ◌-◌, ◌*◌, ◌^◌, Bool, true, false, Option, none, some, List, [], ◌∷◌, String, ltb,
  if◌then◌else◌,
}
use girasolbot.Prelude.Dict
use girasolbot.Prelude.Dict.{Dict}

-- Two minutes; an instant is a number of nanoseconds.
abbrev pub seen_sig_ttl : ℕ
seen_sig_ttl = 120 * 10 ^ 9

pub record SeenSigs : Type 0 where
  pub seen_sigs : Dict ℕ
  pub seen_sigs_cleanup_counter : ℕ

-- A detection, by its signature, with the instants at which the loop asks for the time.
pub record Arrival : Type 0 where
  pub signature : String
  pub inserted_at : ℕ
  pub cleaned_at : ℕ

unfoldable pub clean_up : ℕ → SeenSigs → SeenSigs
clean_up now s =
    if ltb 100 s.seen_sigs_cleanup_counter
    then record {
      seen_sigs = Dict.retain (λ seen_at. ltb (now - seen_at) seen_sig_ttl) s.seen_sigs;
      seen_sigs_cleanup_counter = 0;
    }
    else s

-- Whether the detection is passed on.
unfoldable pub receive : Arrival → SeenSigs → Bool × SeenSigs
unfolding clean_up
receive a s =
    let inserted = Dict.insert s.seen_sigs a.signature a.inserted_at in
    elim (Dict.get s.seen_sigs a.signature) [
      | some seen_at ↦ (false, record s { seen_sigs = inserted })
      | none ↦ (
        true,
        clean_up a.cleaned_at (record {
          seen_sigs = inserted;
          seen_sigs_cleanup_counter = s.seen_sigs_cleanup_counter + 1;
        }),
      )
    ]

unfoldable pub receive_all : List Arrival → SeenSigs → SeenSigs
unfolding receive
receive_all [] s = s
receive_all (a ∷ rest) s = receive_all rest (receive a s).1
