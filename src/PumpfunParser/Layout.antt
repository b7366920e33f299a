-- ===== src/PumpfunParser/Layout.antt =====
-- What the readers of src/pumpfun_parser.rs find in accounts that are laid out as documented.
use girasolbot.Prelude.{
  ℕ, ◌+◌, ◌≡◌, refl, sym, ap, ◌∙◌, arith, Bool, true, false, Option, none, some, ◌++◌, ltb,
  if◌then◌else◌, Bytes, Pubkey, length, slice, take, drop, bytes_eq, slice_at, take-append,
  length-append,
}
use mathlib.Core.List.{append_assoc}
use girasolbot.Chain.{Result, ok, Chain}
use girasolbot.PumpfunParser.{
  default_key, pubkey_from_bytes, read_pubkey_at, first_entry, ◌or_else◌, GlobalBorsh,
  parse_fee_recipient_from_global, parse_creator_from_bonding_curve, decoded_creator,
  decoded_fee_recipient, or_canonical, pump_fee_recipient,
}

-- A key that is present is not the default one.
abbrev pub IsKey : Option Pubkey → Type 0
IsKey none = Unit
IsKey (some k) = bytes_eq k default_key ≡ false

pubkey_from_bytes-IsKey : (bs : Bytes) → IsKey (pubkey_from_bytes bs)
unfolding pubkey_from_bytes
pubkey_from_bytes-IsKey bs = ground arith

read_pubkey_at-IsKey : (bs : Bytes) (offset : ℕ) → IsKey (read_pubkey_at bs offset)
unfolding read_pubkey_at
read_pubkey_at-IsKey bs offset =
    ground (arith, pubkey_from_bytes-IsKey (slice bs offset (offset + 32)))

or_else-IsKey : (a b : Option Pubkey) → IsKey a → IsKey b → IsKey (a or_else b)
or_else-IsKey none b ha hb = hb
or_else-IsKey (some k) b ha hb = ha

-- What is read of a key inside an account.
read_pubkey_at-lem :
    (pre key rest : Bytes) (offset : ℕ)
    → offset ≡ length pre
    → length key ≡ 32
    → read_pubkey_at (pre ++ (key ++ rest)) offset
      ≡ (if bytes_eq key default_key then none else some key)
unfolding read_pubkey_at pubkey_from_bytes
read_pubkey_at-lem pre key rest offset eo size =
    let bs = pre ++ (key ++ rest) in
    let whole : take 32 (key ++ rest) ≡ key = rw (sym size) (take-append key rest) in
    let got : slice bs offset (offset + 32) ≡ key =
      slice_at pre (key ++ rest) 0 32 offset (offset + 32) (omega (arith, eo)) (omega (arith, eo))
      ∙ whole in
    let fits : ltb (length bs) (offset + 32) ≡ false =
      ground (arith, length-append pre (key ++ rest), length-append key rest, eo, size) in
    rw (fits, got) refl

present :
    (test default : Bool) (key : Pubkey) (a b : Option Pubkey)
    → test ≡ false
    → default ≡ false
    → a ≡ (if default then none else some key)
    → (if test then none else (a or_else b)) ≡ some key
present test default key a b et ed ea = rw (et, ea, ed) refl

chosen :
    (default : Bool) (recipient entry : Pubkey) (a b c d : Option Pubkey)
    (canonical : Result Pubkey)
    → a ≡ (if default then none else some recipient)
    → b ≡ some entry
    → or_canonical (a or_else (b or_else c) or_else d) canonical
      ≡ (if default then ok entry else ok recipient)
unfolding or_canonical
chosen true recipient entry a b c d canonical ea eb = rw (ea, eb) refl
chosen false recipient entry a b c d canonical ea eb = rw ea refl

none_if : (test : Bool) (o : Option Pubkey) → IsKey o → IsKey (if test then none else o)
none_if true o h = tt
none_if false o h = h

module _ (chain : Chain) (decode_global : Bytes → Option GlobalBorsh)
    (decode_creator : Bytes → Option Bytes) where
  decoded_creator-IsKey :
      (o : Option Bytes) → IsKey (decoded_creator chain decode_global decode_creator o)
  unfolding decoded_creator
  decoded_creator-IsKey none = tt
  decoded_creator-IsKey (some k) = pubkey_from_bytes-IsKey k

  -- A bonding curve with 49 bytes before its creator, whatever follows it: a creator that is not the
  -- default key is what the reader returns, and no account makes it return the default key.
  pub parse_creator_from_bonding_curve-layout :
      (pre creator rest other : Bytes)
      → length pre ≡ 49
      → length creator ≡ 32
      → bytes_eq creator default_key ≡ false
      → (parse_creator_from_bonding_curve chain decode_global decode_creator
            (pre ++ (creator ++ rest))
          ≡ some creator)
        × IsKey (parse_creator_from_bonding_curve chain decode_global decode_creator other)
  unfolding parse_creator_from_bonding_curve
  parse_creator_from_bonding_curve-layout pre creator rest other hp hc e =
      let bs = pre ++ (creator ++ rest) in
      let fits : ltb (length bs) 81 ≡ false =
        ground (arith, length-append pre (creator ++ rest), length-append creator rest, hp, hc) in
      (
        present (ltb (length bs) 81) (bytes_eq creator default_key) creator (read_pubkey_at bs 49)
            (decoded_creator chain decode_global decode_creator (decode_creator (drop 8 bs))) fits e
            (read_pubkey_at-lem pre creator rest 49 (sym hp) hc),
        none_if (ltb (length other) 81) _ (
            or_else-IsKey (read_pubkey_at other 49)
              (decoded_creator chain decode_global decode_creator (decode_creator (drop 8 other)))
              (read_pubkey_at-IsKey other 49)
              (decoded_creator-IsKey (decode_creator (drop 8 other)))),
      )

  -- A global account whose fee recipient, at byte 41, is not the default key yields it. One with the
  -- default key there yields the entry at byte 162, when that is not the default key.
  pub parse_fee_recipient_from_global-layout :
      (pre recipient between entry rest : Bytes)
      → length pre ≡ 41
      → length recipient ≡ 32
      → length between ≡ 89
      → length entry ≡ 32
      → bytes_eq entry default_key ≡ false
      → parse_fee_recipient_from_global chain decode_global decode_creator
          (pre ++ (recipient ++ (between ++ (entry ++ rest))))
        ≡ (if bytes_eq recipient default_key then ok entry else ok recipient)
  unfolding parse_fee_recipient_from_global
  parse_fee_recipient_from_global-layout pre recipient between entry rest hp hr hb he e =
      let bs = pre ++ (recipient ++ (between ++ (entry ++ rest))) in
      let front = pre ++ (recipient ++ between) in
      let same : front ++ (entry ++ rest) ≡ bs =
        append_assoc pre (recipient ++ between) (entry ++ rest)
        ∙ ap (λ l. pre ++ l) (append_assoc recipient between (entry ++ rest)) in
      let place : 162 ≡ length front = omega (
        arith,
        length-append pre (recipient ++ between),
        length-append recipient between,
        hp,
        hr,
        hb,
      ) in
      let second : read_pubkey_at bs 162 ≡ some entry =
        rw (← same, read_pubkey_at-lem front entry rest 162 place he, e) refl in
      chosen (bytes_eq recipient default_key) recipient entry (read_pubkey_at bs 41)
        (read_pubkey_at bs 162) (first_entry bs 194 6)
        (if ltb 8 (length bs) then decoded_fee_recipient (decode_global (drop 8 bs)) else none)
        (chain.from_str pump_fee_recipient)
        (read_pubkey_at-lem pre recipient (between ++ (entry ++ rest)) 41 (sym hp) hr) second
