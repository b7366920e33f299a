-- ===== src/Replay.antt =====
-- src/replay.rs, and the size of a buy in src/main.rs.
use Prim.Native.Char.{Char, code}
use girasolbot.Prelude.{
  ℕ, ◌+◌, ◌-◌, Bool, ◌&&◌, Option, none, some, String, str_eq, leb, ltb, ◌==◌, max, map, bytes_eq,
  if◌then◌else◌,
}
use girasolbot.Prelude.Options.{◌>>=◌, unwrap_or, filter}
use girasolbot.Prelude.Texts.{chars}
use girasolbot.Float.{Float}
use girasolbot.Settings.{Settings}
use girasolbot.CopyEngine.Fetch.{DetectedBuy}

ascii_lowercase : Char → ℕ
ascii_lowercase c = if leb 65 (code c) && leb (code c) 90 then code c + 32 else code c

unfoldable pub should_use_replay : String → Bool
unfolding ascii_lowercase
should_use_replay copy_mode =
    bytes_eq (map ascii_lowercase (chars copy_mode)) (map ascii_lowercase (chars "replay"))

unfoldable pub replay_latency_ms : ℕ → ℕ → ℕ
replay_latency_ms target_ws_received_at_ms our_buy_start_ms =
    our_buy_start_ms - target_ws_received_at_ms

pub record ReplaySize : Type 0 where
  pub sol_lamports : ℕ
  pub token_amount : ℕ

module _ (F : Float) where
  open F use {F64, of_u64, to_u64, fmul, fdiv, fmin, fmax, round, flt}

  -- `1e9`
  abbrev lamports_per_sol : F64
  lamports_per_sol = of_u64 1000000000

  -- The size before the bounds.
  wanted_sol : F64 → F64 → F64 → String → Option F64
  wanted_sol target_sol mirror_percent buy_amount_sol size_mode =
      if str_eq size_mode "one_to_one"
      then some target_sol
      else if str_eq size_mode "proportional"
      then some (
          if flt (of_u64 0) mirror_percent
          then fdiv (fmul target_sol mirror_percent) (of_u64 100)
          else buy_amount_sol)
      else none

  -- At most `max_position_sol`, where that is positive, and at least a lamport.
  bounded_sol : F64 → F64 → F64
  bounded_sol our_sol max_position_sol =
      let capped =
        if flt (of_u64 0) max_position_sol then fmin our_sol max_position_sol else our_sol in
      fmax capped (fdiv (of_u64 1) lamports_per_sol)

  scaled_tokens : ℕ → ℕ → ℕ → ℕ
  scaled_tokens target_sol_lamports target_token_amount our_sol_lamports =
      if target_token_amount == 0
      then 1
      else max
          (to_u64 (
            round (
              fdiv (fmul (of_u64 target_token_amount) (of_u64 our_sol_lamports))
                (of_u64 target_sol_lamports))))
          1

  size_for : ℕ → ℕ → ℕ → ReplaySize
  unfolding scaled_tokens
  size_for target_sol_lamports target_token_amount our_sol_lamports = record {
    sol_lamports = max our_sol_lamports 1;
    token_amount = scaled_tokens target_sol_lamports target_token_amount our_sol_lamports;
  }

  unfoldable pub compute_replay_size : ℕ → ℕ → F64 → F64 → F64 → String → Option ReplaySize
  unfolding wanted_sol bounded_sol size_for
  compute_replay_size target_sol_lamports target_token_amount mirror_percent buy_amount_sol
        max_position_sol size_mode =
      if target_sol_lamports == 0 then none else do
        our_sol ←
            wanted_sol (fdiv (of_u64 target_sol_lamports) lamports_per_sol) mirror_percent
              buy_amount_sol size_mode
        some (
            size_for target_sol_lamports target_token_amount
              (to_u64 (round (fmul (bounded_sol our_sol max_position_sol) lamports_per_sol))))

  -- The size that the replay mode gives to a buy.
  unfoldable pub replay_size : Settings F → DetectedBuy F → Option ReplaySize
  unfolding should_use_replay compute_replay_size
  replay_size s detected =
      if should_use_replay s.copy_mode
      then (do
        target_sol ← filter (flt (of_u64 0)) detected.sol_amount
        target_tokens ← detected.token_amount
        compute_replay_size (to_u64 (round (fmul target_sol lamports_per_sol))) target_tokens
            s.mirror_percent s.buy_amount s.max_position_sol s.replay_size_mode)
      else none

  unfoldable pub sol_to_spend : Settings F → DetectedBuy F → F64
  unfolding replay_size
  sol_to_spend s detected = elim (replay_size s detected) [
    | some size ↦ fdiv (of_u64 size.sol_lamports) lamports_per_sol
    | none ↦ s.buy_amount
  ]

  unfoldable pub entry_price : DetectedBuy F → F64
  entry_price detected =
      let tokens = unwrap_or detected.token_amount 0 in
      elim detected.sol_amount [
        | none ↦ of_u64 0
        | some target_sol ↦
            if ltb 0 tokens
            then fdiv target_sol (fdiv (of_u64 tokens) (of_u64 1000000))
            else of_u64 0
      ]
