-- ===== src/Tests/Toy/Files.antt =====
-- Functions that keep what the crates promise, simple enough to run: a cipher that hides nothing,
-- and vault files as texts.
use mathlib.Core.Option
use girasolbot.Prelude.{
  ℕ, ◌-◌, ◌≡◌, refl, Option, none, some, [], ◌∷◌, ◌++◌, String, Bytes, str_eq, if◌then◌else◌,
  length, length-append, replicate, take, take-append, arith, false,
}
use girasolbot.Prelude.Texts.{chars, collect, chars-collect}
use girasolbot.Prelude.Dict.{Dict}
use girasolbot.Json.{Json}
use girasolbot.ApiKeyVault.Cipher.{Crypto, CryptoLaws, SlotBlobV2}
use girasolbot.ApiKeyVault.File.{VaultFileV2, Formats, FormatsLaws}
use girasolbot.Tests.Toy.{
  collect-chars, Words, write_words, read_words, read-write_words, unary, length-unary, numbers,
  unaries, numbers-unaries, find_both, find_scalar, from_code, codes, characters, characters-codes,
}

unfoldable pub crypto : Crypto
unfolding write_words unaries unary numbers read_words codes characters from_code find_scalar
    find_both chars collect
crypto = record {
  hex_encode = λ b. collect (write_words (unaries b));
  hex_decode = λ s. some (numbers (read_words (chars s)));
  as_bytes = λ s. codes (chars s);
  from_utf8 = λ b. Option.map collect (characters b);
  sha256 = λ b. b;
  scrypt = λ n r p pass salt. some (pass ++ salt);
  encrypt = λ key nonce plain. some (plain ++ replicate 16 0);
  decrypt = λ key nonce out. some (take (length out - 16) out);
}

hex_lem : (b : Bytes) → crypto.hex_decode (crypto.hex_encode b) ≡ some b
unfolding crypto
hex_lem b =
    rw (chars-collect (write_words (unaries b)), read-write_words (unaries b), numbers-unaries b)
      refl

utf8_lem : (s : String) → crypto.from_utf8 (crypto.as_bytes s) ≡ some s
unfolding crypto
utf8_lem s = rw (characters-codes (chars s), collect-chars s) refl

without_tag :
    (plain : Bytes) → take (length (plain ++ replicate 16 0) - 16) (plain ++ replicate 16 0) ≡ plain
without_tag plain =
    let size : length (plain ++ replicate 16 0) - 16 ≡ length plain =
      omega (arith, length-append plain (replicate 16 0)) in
    rw (size) (take-append plain (replicate 16 0))

decrypts_lem :
    (plain out : Bytes)
    → some (plain ++ replicate 16 0) ≡ some out
    → some (take (length out - 16) out) ≡ some plain
decrypts_lem plain out h =
    let same : plain ++ replicate 16 0 ≡ out = cc in rw (← same, without_tag plain) refl

pub crypto_laws : CryptoLaws crypto
unfolding crypto
crypto_laws = record {
  hex = λ b. hex_lem b;
  utf8 = λ s. utf8_lem s;
  decrypts = λ key nonce plain out h. decrypts_lem plain out h;
  encrypts = λ key nonce plain. refl;
  valid_parameters = λ pass salt. refl;
}

-- A vault file as words: the fields, then four words for each slot.
slot_words : Dict SlotBlobV2 → Words
slot_words [] = []
slot_words ((slot, b) ∷ slots) =
    chars slot ∷ chars b.iv ∷ chars b.ct ∷ chars b.tag ∷ slot_words slots

file_words : VaultFileV2 → Words
file_words v =
    unary v.version
    ∷ chars v.kdf
    ∷ unary v.kdf_params.n
    ∷ unary v.kdf_params.r
    ∷ unary v.kdf_params.p
    ∷ chars v.salt
    ∷ slot_words v.slots

words_slots : Words → Dict SlotBlobV2
words_slots (slot ∷ iv ∷ ct ∷ tag ∷ ws) =
    (collect slot, record { iv = collect iv; ct = collect ct; tag = collect tag }) ∷ words_slots ws
words_slots _ = []

words_file : Words → Option VaultFileV2
words_file (version ∷ kdf ∷ n ∷ r ∷ p ∷ salt ∷ ws) = some (record {
  version = length version;
  kdf = collect kdf;
  kdf_params = record { n = length n; r = length r; p = length p };
  salt = collect salt;
  slots = words_slots ws;
})
words_file _ = none

words_slots-slot_words : (slots : Dict SlotBlobV2) → words_slots (slot_words slots) ≡ slots
unfolding words_slots slot_words
words_slots-slot_words [] = refl
words_slots-slot_words ((slot, b) ∷ slots) = simp (collect-chars, words_slots-slot_words slots)

words_file-file_words : (v : VaultFileV2) → words_file (file_words v) ≡ some v
unfolding words_file file_words
words_file-file_words v = simp (collect-chars, length-unary, words_slots-slot_words)

pub data Value : Type 0 where
  file : VaultFileV2 → Value
  number : ℕ → Value

abbrev version_of : Value → String → Option Value
version_of (file v) k = if str_eq k "version" then some (number v.version) else none
version_of (number n) k = none

abbrev number_of : Value → Option ℕ
number_of (file v) = none
number_of (number n) = some n

abbrev file_of : Value → Option VaultFileV2
file_of (file v) = some v
file_of (number n) = none

unfoldable pub json : Json
unfolding words_file words_slots read_words chars
json = record {
  Value = Value;
  from_str = λ s. Option.map file (words_file (read_words (chars s)));
  get = version_of;
  as_u64 = number_of;
  as_str = λ v. none;
  as_array = λ v. none;
  is_null = λ v. false;
  is_string = λ v. false;
  is_object = λ v. false;
}

unfoldable pub formats : Formats json
unfolding json write_words file_words unary slot_words
formats = record {
  to_v2 = file_of;
  to_v1_rust = λ v. none;
  to_v1_ts = λ v. none;
  to_string_pretty = λ v. some (collect (write_words (file_words v)));
}

printed : VaultFileV2 → String
printed v = collect (write_words (file_words v))

words_file-printed : (v : VaultFileV2) → words_file (read_words (chars (printed v))) ≡ some v
unfolding printed
words_file-printed v =
    rw (chars-collect (write_words (file_words v)), read-write_words (file_words v))
      (words_file-file_words v)

parsed :
    (v : VaultFileV2) (text : String)
    → some (printed v) ≡ some text
    → Option.map file (words_file (read_words (chars text))) ≡ some (file v)
parsed v text h = let same : printed v ≡ text = cc in rw (← same, words_file-printed v) refl

pub formats_laws : FormatsLaws json formats
unfolding formats printed
formats_laws = record {
  writes = λ v. refl;
  reads_back = λ v text h. (file v, parsed v text h, refl, refl);
}
