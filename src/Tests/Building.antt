-- ===== src/Tests/Building.antt =====
-- Tests of the instructions of pump.fun.
use girasolbot.Prelude.{
  ℕ, ◌≡◌, refl, true, some, none, List, [], ◌∷◌, ◌++◌, to_le_bytes, if◌then◌else◌, str_eq,
}
use girasolbot.Float.Fixed.{fixed}
use girasolbot.Chain.{Instruction, Result, ok, ◌>>=◌}
use girasolbot.CopyEngine.Types.{buy_discriminator, sell_discriminator}
use girasolbot.Shreds.Parse.{ResolvedKeys, CompiledInstruction}
use girasolbot.TxBuilder.{Programs, Idls, build_buy_instruction, build_sell_instruction}
use girasolbot.TxBuilder.Template.{new_template, build_buy_instructions, max_sol_cost}
use girasolbot.TxBuilder.Same.{build_buy_instructions-same}
use girasolbot.Tests.Data.{chain, token, wallet, num}

-- Every derived address is [5].
abbrev progs : Programs
progs = record {
  find_address = λ seeds p. 5 ∷ [];
  buy_args = λ a b. to_le_bytes 8 a ++ (to_le_bytes 8 b ++ 0 ∷ []);
  sell_args = λ a b. to_le_bytes 8 a ++ to_le_bytes 8 b;
  text_bytes = λ s. [];
  anchor_discriminator = λ ix. if str_eq ix "buy" then buy_discriminator else sell_discriminator;
}

abbrev no_idls : Idls
no_idls = record {
  SimpleIdl = ℕ;
  get_idl = λ key. none;
  address = λ idl. [];
  build_accounts_for = λ idl ix context. none;
  discriminator_of = λ idl ix. none;
}

build_buy_instructions-same_example :
    (new_template fixed chain progs no_idls wallet "pump" (6 ∷ []) (7 ∷ []) >>= λ t.
    build_buy_instructions fixed chain progs no_idls t token 5000 (num 1) 100 true (some (8 ∷ [])))
    ≡ (build_buy_instruction chain progs no_idls token "mint" 5000
          (max_sol_cost fixed chain progs no_idls (num 1) 100)
          wallet
          (7 ∷ [])
          (some (8 ∷ []))
        >>= λ i. ok (chain.create_ata wallet wallet token token ∷ i ∷ []))
build_buy_instructions-same_example =
    build_buy_instructions-same fixed chain progs no_idls wallet (6 ∷ []) (7 ∷ []) token token token
      token token token "pump" "mint" 5000 100 (num 1) true (some (8 ∷ [])) (λ key. refl) refl refl
      refl refl refl refl

built : Result Instruction → Instruction
built r = elim r [
  | ok i ↦ i
  | Result.err e ↦ record { program_id = []; accounts = []; data_bytes = [] }
]

abbrev buy_result : Result Instruction
buy_result =
    build_buy_instruction chain progs no_idls (9 ∷ []) "mint" 5000 7 wallet (6 ∷ []) (some (8 ∷ []))

abbrev sell_result : Result Instruction
sell_result =
    build_sell_instruction chain progs no_idls (9 ∷ []) "mint" 5000 7 wallet (6 ∷ [])
      (some (8 ∷ []))

abbrev keys : ResolvedKeys
keys = record {
  static_keys = (5 ∷ []) ∷ (6 ∷ []) ∷ token ∷ wallet ∷ (9 ∷ []) ∷ [];
  full_keys = none;
}

abbrev buy_indexes : List ℕ
buy_indexes = 0 ∷ 1 ∷ 2 ∷ 0 ∷ 2 ∷ 2 ∷ 3 ∷ 2 ∷ 2 ∷ 0 ∷ 0 ∷ 4 ∷ 0 ∷ 0 ∷ 0 ∷ 2 ∷ []

abbrev sell_indexes : List ℕ
sell_indexes = 0 ∷ 1 ∷ 2 ∷ 0 ∷ 2 ∷ 2 ∷ 3 ∷ 2 ∷ 0 ∷ 2 ∷ 0 ∷ 4 ∷ 0 ∷ 2 ∷ []

buy_built : buy_result ≡ ok (built buy_result)
unfolding build_buy_instruction built
buy_built = refl

sell_built : sell_result ≡ ok (built sell_result)
unfolding build_sell_instruction built
sell_built = refl

abbrev compiled : List ℕ → Instruction → CompiledInstruction
compiled indexes i = record { program_id_index = 4; accounts = indexes; data_bytes = i.data_bytes }
