-- ===== src/PumpSwap/Mirror.antt =====
-- What the builders of PumpSwap instructions take over from the target, and what the parser reads
-- in what they write.
use girasolbot.Prelude.{
  ℕ, ◌+◌, ◌*◌, ◌/◌, ◌%◌, ◌^◌, ◌<◌, ◌≡◌, refl, ap, true, false, some, List, [], ◌∷◌, String, Pubkey,
  length, ltb, All, filter_map, map, take, replicate, Option, none, filter_by, drop, get_or,
  get_elem?, to_le_bytes, from_le_bytes-to_le_bytes, arith, if◌then◌else◌, Bool-cases, inl, inr,
  bytes_eq,
}
use girasolbot.Chain.{
  Error, ◌>>=◌, Chain, Result, ok, err, AccountMeta, writable, readonly, Instruction, Yields,
  Yields-bind, Yields→,
}
use girasolbot.CopyEngine.Types.{buy_discriminator, sell_discriminator, u64_at}
use girasolbot.PumpSwap.{
  PumpSwapAccounts, Keys, account, read_keys, extra_accounts, mirrored_accounts, swap_data,
  max_quote, build_buy_instructions, build_sell_instructions,
}
use girasolbot.PumpSwap.Parser.{amounts_of}

abbrev pub signers : List AccountMeta → List AccountMeta
signers metas = filter_by (λ a. a.is_signer) metas

abbrev pub key_at : List AccountMeta → ℕ → Pubkey
key_at metas i = (get_or metas i (readonly [] false)).pubkey

module _ (chain : Chain) where
  signers-extra_accounts : (names : List String) → signers (extra_accounts chain names) ≡ []
  unfolding extra_accounts
  signers-extra_accounts [] = refl
  signers-extra_accounts (name ∷ names) = ground (arith, signers-extra_accounts names)

  -- The addresses among some texts.
  abbrev pub addresses : List String → List Pubkey
  addresses names =
      filter_map (λ name. elim (chain.from_str name) [ ok pk ↦ some pk | err e ↦ none ]) names

  extras_step :
      (r : Result Pubkey) (rest : List AccountMeta) (keys : List Pubkey)
      → map (λ a. a.pubkey) rest ≡ keys
      → filter_by (λ a. a.is_writable) rest ≡ []
      → let metas : List AccountMeta = elim r [ ok pk ↦ readonly pk false ∷ rest | err e ↦ rest ] in
        let key : Option Pubkey = elim r [ ok pk ↦ some pk | err e ↦ none ] in
        (map (λ a. a.pubkey) metas ≡ elim key [ some y ↦ y ∷ keys | none ↦ keys ])
        × (filter_by (λ a. a.is_writable) metas ≡ [])
  extras_step (ok pk) rest keys same unwritten = (ap (λ ks. pk ∷ ks) same, unwritten)
  extras_step (err e) rest keys same unwritten = (same, unwritten)

  extras_lem :
      (names : List String)
      → (map (λ a. a.pubkey) (extra_accounts chain names) ≡ addresses names)
        × (filter_by (λ a. a.is_writable) (extra_accounts chain names) ≡ [])
  unfolding extra_accounts
  extras_lem [] = (refl, refl)
  extras_lem (name ∷ names) =
      let rest = extras_lem names in
      extras_step (chain.from_str name) (extra_accounts chain names) (addresses names) rest.0 rest.1

  -- The accounts of an instruction that mirrors the target's: the wallet signs, and it alone; the
  -- target's accounts at their places, with the two mints and the wallet's own token accounts; the
  -- system program, the program of token accounts and PumpSwap; which of these may be written; and
  -- after them the target's further accounts that are addresses, to be read only.
  abbrev pub IsMirror : PumpSwapAccounts → Pubkey → List AccountMeta → Type 0
  IsMirror target payer metas =
      (signers metas ≡ writable payer true ∷ [])
      × All (λ i. account chain target i ≡ ok (key_at metas i))
          (0 ∷ 2 ∷ 7 ∷ 8 ∷ 9 ∷ 10 ∷ 11 ∷ 12 ∷ 15 ∷ [])
      × (chain.from_str target.base_mint ≡ ok (key_at metas 3))
      × (chain.from_str target.quote_mint ≡ ok (key_at metas 4))
      × (key_at metas 5 ≡ chain.ata_with_program payer (key_at metas 3) (key_at metas 11))
      × (key_at metas 6 ≡ chain.ata_with_program payer (key_at metas 4) (key_at metas 12))
      × (key_at metas 13 ≡ replicate 32 0)
      × (chain.from_str "ATokenGPvbdGVxr1b2hvZbsiqW5xWH25efTNsLJA8knL" ≡ ok (key_at metas 14))
      × (chain.from_str "pAMMBay6oceH9fJKBRHGP5D4bD4sWpmSwMn52FMfXEA" ≡ ok (key_at metas 16))
      × (map (λ a. a.is_writable) (take 17 metas)
          ≡ false ∷ true ∷ false ∷ false ∷ false ∷ true ∷ true ∷ true ∷ true ∷ false ∷ true ∷ false
            ∷ false ∷ false ∷ false ∷ false ∷ false ∷ [])
      × (map (λ a. a.pubkey) (drop 17 metas) ≡ addresses (drop 17 target.accounts))
      × (filter_by (λ a. a.is_writable) (drop 17 metas) ≡ [])

  -- What `read_keys` returns.
  abbrev AreKeys : PumpSwapAccounts → Keys → Type 0
  AreKeys target k =
      (chain.from_str target.base_mint ≡ ok k.base_mint)
      × (chain.from_str target.quote_mint ≡ ok k.quote_mint)
      × (account chain target 11 ≡ ok k.base_token_program)
      × (account chain target 12 ≡ ok k.quote_token_program)
      × (chain.from_str "pAMMBay6oceH9fJKBRHGP5D4bD4sWpmSwMn52FMfXEA" ≡ ok k.program_id)

  read_keys-AreKeys : (target : PumpSwapAccounts) → Yields (AreKeys target) (read_keys chain target)
  unfolding read_keys
  read_keys-AreKeys target = Yields-bind _ (chain.from_str target.base_mint) _ (λ b eb.
      Yields-bind _ (chain.from_str target.quote_mint) _ (λ q eq.
        Yields-bind _ (account chain target 11) _ (λ bt ebt.
          Yields-bind _ (account chain target 12) _
            (λ qt eqt. Yields-bind _ (chain.from_str _) _ (λ p ep. (eb, eq, ebt, eqt, ep))))))

  mirrored_accounts-IsMirror :
      (target : PumpSwapAccounts) (payer : Pubkey) (k : Keys)
      → AreKeys target k
      → Yields (IsMirror target payer) (mirrored_accounts chain target payer k)
  unfolding mirrored_accounts
  mirrored_accounts-IsMirror target payer k h =
      let (base, quote, base_program, quote_program, program) = h in
      let extras = extras_lem (drop 17 target.accounts) in
      Yields-bind _ (account chain target 0) _ (λ a0 e0.
        Yields-bind _ (account chain target 2) _ (λ a2 e2.
          Yields-bind _ (account chain target 7) _ (λ a7 e7.
            Yields-bind _ (account chain target 8) _ (λ a8 e8.
              Yields-bind _ (account chain target 9) _ (λ a9 e9.
                Yields-bind _ (account chain target 10) _ (λ a10 e10.
                  Yields-bind _ (chain.from_str _) _ (λ ata eata.
                    Yields-bind _ (account chain target 15) _ (λ a15 e15. (
                      ap (λ ms. writable payer true ∷ ms)
                          (signers-extra_accounts (drop 17 target.accounts)),
                      (
                        e0,
                        (e2, (e7, (e8, (e9, (e10, (base_program, (quote_program, (e15, tt)))))))),
                      ),
                      base,
                      quote,
                      refl,
                      refl,
                      refl,
                      eata,
                      program,
                      refl,
                      extras.0,
                      extras.1,
                    )))))))))

-- The parser reads the two amounts back from the data that the builders write.
amounts_lem :
    (a b : ℕ)
    → a < 2 ^ 64
    → b < 2 ^ 64
    → (amounts_of (swap_data buy_discriminator a b) ≡ some (true, a, b))
      × (amounts_of (swap_data sell_discriminator a b) ≡ some (false, a, b))
unfolding amounts_of swap_data u64_at to_le_bytes bytes_eq
amounts_lem a b ha hb =
    let first = from_le_bytes-to_le_bytes 8 a (omega arith) in
    let second = from_le_bytes-to_le_bytes 8 b (omega arith) in
    (rw (first, second) refl, rw (first, second) refl)

-- The instruction at a place of the list.
abbrev pub HasAt : ℕ → (Instruction → Type 0) → List Instruction → Type 0
HasAt n P is = (i : Instruction) × (get_elem? is n ≡ some i) × P i

module _ (chain : Chain) where
  -- The common shape of the builders: the length, the keys, the accounts, and then the instructions.
  built-Yields :
      (Q : List Instruction → Type 0) (target : PumpSwapAccounts) (payer : Pubkey) (e : Error)
      (f : Keys → List AccountMeta → List Instruction)
      → ((k : Keys) (metas : List AccountMeta)
          → chain.from_str "pAMMBay6oceH9fJKBRHGP5D4bD4sWpmSwMn52FMfXEA" ≡ ok k.program_id
          → IsMirror chain target payer metas
          → Q (f k metas))
      → Yields Q (
          if ltb (length target.accounts) 17
          then err e
          else read_keys chain target >>= λ k.
              mirrored_accounts chain target payer k >>= λ metas. ok (f k metas))
  built-Yields Q target payer e f mirrors = elim (Bool-cases (ltb (length target.accounts) 17)) [
    | inl short ↦ rw short tt
    | inr enough ↦ rw enough (
        Yields-bind _ (read_keys chain target) _ (λ k ek.
          let keys = Yields→ _ (read_keys chain target) k (read_keys-AreKeys chain target) ek in
          Yields-bind _ (mirrored_accounts chain target payer k) _ (λ metas em.
            mirrors k metas keys.4 (
              Yields→ _ (mirrored_accounts chain target payer k) metas
                (mirrored_accounts-IsMirror chain target payer k keys) em))))
  ]

  -- The third instruction of a PumpSwap buy that is returned, and the one instruction of a sell that
  -- is returned, are for the PumpSwap program and mirror that of the target: our wallet is the one
  -- signer, the accounts for the two tokens are our wallet's own, the two mints are those of the
  -- request, at 13, 14 and 16 are the system program, the program of token accounts and PumpSwap, and
  -- every other account is the target's at its place; the wallet, its token accounts, the two of the
  -- pool and the one of the fee may be written, and no other; and the target's accounts past the
  -- seventeenth follow in their order, those that are addresses.
  -- The data read, by the parser of the copy engine, as a buy of the tokens that were asked for at most
  -- for the lamports with the slippage on them, and as a sell of the tokens for the given minimum.
  pub build_instructions-IsMirror :
      (target : PumpSwapAccounts) (our_sol_lamports token_amount slippage_bps min_sol_out : ℕ)
      (payer : Pubkey)
      → token_amount < 2 ^ 64
      → min_sol_out < 2 ^ 64
      → Yields
          (HasAt 2 (λ i.
            (chain.from_str "pAMMBay6oceH9fJKBRHGP5D4bD4sWpmSwMn52FMfXEA" ≡ ok i.program_id)
            × IsMirror chain target payer i.accounts
            × (amounts_of i.data_bytes
                ≡ some (
                  true,
                  token_amount,
                  (our_sol_lamports + our_sol_lamports * slippage_bps % 2 ^ 64 / 10000) % 2 ^ 64,
                ))))
          (build_buy_instructions chain target our_sol_lamports token_amount payer slippage_bps)
        × Yields
            (HasAt 0 (λ i.
              (chain.from_str "pAMMBay6oceH9fJKBRHGP5D4bD4sWpmSwMn52FMfXEA" ≡ ok i.program_id)
              × IsMirror chain target payer i.accounts
              × (amounts_of i.data_bytes ≡ some (false, token_amount, min_sol_out))))
            (build_sell_instructions chain target token_amount min_sol_out payer)
  unfolding build_buy_instructions build_sell_instructions max_quote
  build_instructions-IsMirror target lamports tokens bps min_out payer small small_out = (
    built-Yields _ target payer _ _ (λ k metas program mirror. (
      _,
      refl,
      (program, mirror, (amounts_lem tokens (max_quote lamports bps) small (omega arith)).0),
    )),
    built-Yields _ target payer _ _ (λ k metas program mirror.
        (_, refl, (program, mirror, (amounts_lem tokens min_out small small_out).1))),
  )
