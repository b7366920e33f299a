-- ===== src/TxBuilder/Same.antt =====
-- The buy of src/tx_template.rs against that of src/tx_builder.rs.
use girasolbot.Prelude.{
  ℕ, ◌≡◌, refl, Bool, Option, none, some, [], ◌∷◌, String, Pubkey, if◌then◌else◌,
}
use girasolbot.Float.{Float}
use girasolbot.Chain.{Chain, ok, ◌>>=◌}
use girasolbot.TxBuilder.{
  Programs, Idls, first_idl, build_buy_instruction, buy_accounts, derive_fee_config_pda,
  discriminator, preferred, system_program, token_2022_program, fee_program,
}
use girasolbot.TxBuilder.Template.{
  new_template, best_idl, build_buy_instructions, build_fallback_instruction, max_sol_cost,
  described, rent_sysvar_id,
}

module _ (F : Float) (chain : Chain) (progs : Programs) (idls : Idls) where
  open chain use {from_str, create_ata}

  best_idl-none :
      ((key : String) → idls.get_idl key ≡ none) → best_idl F chain progs idls preferred ≡ none
  unfolding best_idl
  best_idl-none h = rw (h "pumpfun", h "pumpfunamm", h "pumpfunfees") refl

  -- Where the well-known addresses are addresses and there is no description, a buy from a template
  -- is the creation of the token account followed by the instruction that the builder makes for the
  -- same program, payer, amounts, creator and fee recipient, and an error where the builder returns one.
  pub build_buy_instructions-same :
      (payer normal mayhem mint pump token_program system rent fee : Pubkey)
      (pump_text mint_text : String) (token_amount slippage_bps : ℕ) (sol_amount : F.F64)
      (is_mayhem : Bool) (creator : Option Pubkey)
      → ((key : String) → idls.get_idl key ≡ none)
      → from_str pump_text ≡ ok pump
      → from_str mint_text ≡ ok mint
      → from_str token_2022_program ≡ ok token_program
      → from_str system_program ≡ ok system
      → from_str rent_sysvar_id ≡ ok rent
      → from_str fee_program ≡ ok fee
      → (new_template F chain progs idls payer pump_text normal mayhem >>= λ t.
          build_buy_instructions F chain progs idls t mint token_amount sol_amount slippage_bps
            is_mayhem creator)
        ≡ (build_buy_instruction chain progs idls pump mint_text token_amount
              (max_sol_cost F chain progs idls sol_amount slippage_bps)
              payer
              (if is_mayhem then mayhem else normal)
              creator
            >>= λ i. ok (create_ata payer payer mint token_program ∷ i ∷ []))
  unfolding new_template build_buy_instruction build_buy_instructions buy_accounts
      derive_fee_config_pda build_fallback_instruction described best_idl first_idl discriminator
  build_buy_instructions-same payer normal mayhem mint pump token_program system rent fee pump_text
        mint_text token_amount slippage_bps sol_amount is_mayhem none none_there ep em et es er ef =
      rw (ep, em, et, es, er, ef, best_idl-none none_there) refl
  build_buy_instructions-same payer normal mayhem mint pump token_program system rent fee pump_text
        mint_text token_amount slippage_bps sol_amount is_mayhem (some c) none_there ep em et es er
        ef =
      rw
        (
          ep,
          em,
          et,
          es,
          er,
          ef,
          best_idl-none none_there,
          none_there "pumpfun",
          none_there "pumpfunamm",
          none_there "pumpfunfees",
        )
        (rw (buy_accounts, et, es, ef) refl)
