-- ===== src/Tests/Detecting.antt =====
-- Tests of the loop over detections and of the sizes of buys.
use girasolbot.Prelude.{
  ℕ, ◌≡◌, refl, ◌+◌, ◌*◌, ◌^◌, ◌≤◌, true, false, some, none, [], ◌∷◌, String, arith, bytes_eq,
}
use girasolbot.Prelude.Dict
use girasolbot.Prelude.Texts.{chars}
use mathlib.Core.Option
use girasolbot.Float.Fixed.{fixed}
use girasolbot.Tests.Data.{num}
use girasolbot.Replay.{should_use_replay, compute_replay_size}
use girasolbot.Detections.{seen_sig_ttl, SeenSigs, Arrival, receive, receive_all}
use girasolbot.Detections.Spaced.{IsClock, receive-IsSpaced}

abbrev arrival : String → ℕ → Arrival
arrival sig at = record { signature = sig; inserted_at = at * 10 ^ 9; cleaned_at = at * 10 ^ 9 }

-- After 99 detections since the last clean-up.
abbrev busy : SeenSigs
busy = record { seen_sigs = []; seen_sigs_cleanup_counter = 99 }

-- After the clean-up at "b" the signature is passed on again.
again :
    (receive (arrival "a" 181) (receive_all (arrival "a" 0 ∷ arrival "b" 180 ∷ []) busy)).0 ≡ true
unfolding receive_all receive Dict.get Dict.insert Dict.retain
again = refl

-- Without one in between it is not.
not_again : (receive (arrival "a" 5) (receive_all (arrival "a" 0 ∷ []) busy)).0 ≡ false
unfolding receive_all receive Dict.get Dict.insert Dict.retain
not_again = refl

clock : IsClock 0 (arrival "a" 0 ∷ arrival "b" 180 ∷ arrival "a" 181 ∷ [])
unfolding IsClock
clock = (omega arith, omega arith, (omega arith, omega arith, (omega arith, omega arith, tt)))

receive-IsSpaced_example : 0 + seen_sig_ttl ≤ 181 * 10 ^ 9
receive-IsSpaced_example =
    receive-IsSpaced (arrival "b" 180 ∷ []) (arrival "a" 0) (arrival "a" 181) busy clock refl again

-- The tests of the source.
sizes :
    (Option.map
        (λ s. s.sol_lamports)
        (compute_replay_size fixed 1000000000 1000 (num 10) (num 1) (num 0) "proportional")
      ≡ some 100000000)
    × (Option.map
          (λ s. s.sol_lamports)
          (compute_replay_size fixed 1000000000 1000 (num 0) (num 1) (num 0) "proportional")
        ≡ some 1000000000)
    × (Option.map
          (λ s. s.sol_lamports)
          (compute_replay_size fixed 750000000 1000 (num 10) (num 1) (num 0) "one_to_one")
        ≡ some 750000000)
    × (compute_replay_size fixed 0 1000 (num 10) (num 1) (num 0) "proportional" ≡ none)
    × (compute_replay_size fixed 1000000000 1000 (num 10) (num 1) (num 0) "unknown" ≡ none)
unfolding compute_replay_size
sizes = (refl, refl, refl, refl, refl)

modes : (should_use_replay "REPLAY" ≡ true) × (should_use_replay "mirror" ≡ false)
unfolding should_use_replay bytes_eq chars
modes = (refl, refl)
