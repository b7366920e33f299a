-- ===== src/Tests/Tokens.antt =====
-- Tests of the screens of a token, of the account parsers and of the circuit breaker.
use girasolbot.Prelude.{
  ℕ, ◌≡◌, refl, true, false, not, ◌&&◌, some, none, List, [], ◌∷◌, ◌++◌, replicate, arith, bytes_eq,
  from_le_bytes,
}
use girasolbot.Float.Fixed.{fixed}
use girasolbot.Prelude.Dict
use girasolbot.RugGuard.Parsers.{done, parse_token2022_transfer_fee_bps}
use girasolbot.RugGuard.Parsers.Fee.{
  returned, encode, first_fee, parse_token2022_transfer_fee_bps-returned,
  parse_token2022_transfer_fee_bps-encode, Extension,
}
use girasolbot.RugGuard.Screen.{TokenSafetyReport, evaluate_safety, known_mutable}
use girasolbot.RugGuard.Screen.Allowed.{passes, silent, is_safe, evaluate_safety-passes}
use girasolbot.Swqos.{ProviderHealthTracker, half_open, state, record_failure}
use girasolbot.Swqos.Circuit.{record_failure-stays_half_open}
use girasolbot.PumpfunParser.{default_key}
use girasolbot.Settings.{Settings}
use girasolbot.Tests.Data.{settings, token}

-- A mint with a fee of 300 basis points, behind an extension of three bytes.
abbrev extensions : List Extension
extensions = (7, 1 ∷ 2 ∷ 3 ∷ []) ∷ (1, replicate 106 0 ++ 44 ∷ 1 ∷ []) ∷ []

fee_found : first_fee extensions ≡ some 300
unfolding from_le_bytes
fee_found = refl

parse_token2022_transfer_fee_bps-encode_example :
    parse_token2022_transfer_fee_bps (replicate 165 0 ++ 1 ∷ encode extensions)
    ≡ done (first_fee extensions)
parse_token2022_transfer_fee_bps-encode_example =
    parse_token2022_transfer_fee_bps-encode (replicate 165 0) extensions refl
      ((omega arith, omega arith), ((omega arith, omega arith), tt))

parse_token2022_transfer_fee_bps-returned_example :
    returned (parse_token2022_transfer_fee_bps (replicate 165 0 ++ 1 ∷ 1 ∷ [])) ≡ true
parse_token2022_transfer_fee_bps-returned_example =
    parse_token2022_transfer_fee_bps-returned (replicate 165 0 ++ 1 ∷ 1 ∷ [])

abbrev report : TokenSafetyReport
report = record {
  mint_authority = none;
  freeze_authority = none;
  is_mutable = some true;
  transfer_fee_bps = some 300;
  is_token_2022 = true;
  decimals = 6;
  supply = 1000;
}

abbrev screens : Settings fixed
screens = record settings { max_transfer_fee_bps = 500 }

evaluate_safety-passes_example :
    (passes (evaluate_safety fixed report screens) ≡ is_safe fixed report screens)
    × (silent (evaluate_safety fixed report screens)
        ≡ (is_safe fixed report screens && not (known_mutable report.is_mutable)))
evaluate_safety-passes_example = evaluate_safety-passes fixed report screens

abbrev times : List ℕ
times = 1 ∷ 2 ∷ []

abbrev tracker : ProviderHealthTracker
tracker = record { circuits = []; failure_threshold = 2; cooldown_secs = 30 }

-- Two failures at the start, so that the circuit opens, and half-opens after 30 seconds.
abbrev broken : ProviderHealthTracker
broken = record tracker {
  circuits = ("jito", record { consecutive_failures = 2; opened_at = some 0 }) ∷ [];
}

probing : state broken "jito" 40000000000 ≡ half_open
unfolding state Dict.get
probing = refl

record_failure-stays_half_open_example :
    state (record_failure broken "jito" 40000000000) "jito" 41000000000 ≡ half_open
record_failure-stays_half_open_example =
    record_failure-stays_half_open broken "jito" 40000000000 41000000000 (omega arith) probing

token_is_key : bytes_eq token default_key ≡ false
unfolding bytes_eq
token_is_key = refl
