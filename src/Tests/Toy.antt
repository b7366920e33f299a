-- ===== src/Tests/Toy.antt =====
-- Lists of texts written as one text, and characters from their codes, for the tests.
pub mod Files
use Prim.Native.Char.{Char, char, code}
use Prim.Native.Nat.{compare, Ordering}
use mathlib.Core.Option
use girasolbot.Prelude.{
  ℕ, ◌-◌, ◌≡◌, refl, ap, ◌∙◌, Option, none, some, List, [], ◌∷◌, ◌++◌, String, Bytes, str_eq, ◌==◌,
  if◌then◌else◌, length, length-append, length-replicate, replicate, take, take-append, arith,
  false,
}
use girasolbot.Prelude.Options.{◌>>=◌}
use girasolbot.Prelude.Texts.{chars, collect, chars-collect}
use girasolbot.Prelude.Dict.{Dict}
use girasolbot.Json.{Json}
use girasolbot.ApiKeyVault.Cipher.{Crypto, CryptoLaws, SlotBlobV2}
use girasolbot.ApiKeyVault.File.{VaultFileV2, Formats, FormatsLaws}

pub collect-chars : (s : String) → collect (chars s) ≡ s
unfolding chars collect
collect-chars String.[] = refl
collect-chars (String.◌∷◌ c s) = ap (String.◌∷◌ c) (collect-chars s)

abbrev pub Words : Type 0
Words = List (List Char)

-- A character of a word is written after a 1, and a word ends in 00.
pub write_word : List Char → List Char → List Char
write_word [] rest = "0" ∷ "0" ∷ rest
write_word (c ∷ cs) rest = "1" ∷ c ∷ write_word cs rest

pub write_words : Words → List Char
unfolding write_word
write_words [] = []
write_words (w ∷ ws) = write_word w (write_words ws)

pub push : Char → Words → Words
push c [] = (c ∷ []) ∷ []
push c (w ∷ ws) = (c ∷ w) ∷ ws

pub read_words : List Char → Words
unfolding push
read_words [] = []
read_words (flag ∷ []) = []
read_words (flag ∷ c ∷ rest) =
    let later = read_words rest in if code flag == 48 then [] ∷ later else push c later

pub read-write_word : (w rest : List Char) → read_words (write_word w rest) ≡ w ∷ read_words rest
unfolding read_words write_word
read-write_word [] rest = refl
read-write_word (c ∷ cs) rest = ap (push c) (read-write_word cs rest)

pub read-write_words : (ws : Words) → read_words (write_words ws) ≡ ws
unfolding write_words read_words
read-write_words [] = refl
read-write_words (w ∷ ws) =
    read-write_word w (write_words ws) ∙ ap (λ r. w ∷ r) (read-write_words ws)

pub unary : ℕ → List Char
unary n = replicate n "1"

pub length-unary : (n : ℕ) → length (unary n) ≡ n
unfolding unary
length-unary n = length-replicate n "1"

pub numbers : Words → Bytes
numbers [] = []
numbers (w ∷ ws) = length w ∷ numbers ws

pub unaries : Bytes → Words
unaries [] = []
unaries (b ∷ bs) = unary b ∷ unaries bs

pub numbers-unaries : (bs : Bytes) → numbers (unaries bs) ≡ bs
unfolding numbers unaries
numbers-unaries [] = refl
numbers-unaries (b ∷ bs) = cc (length-unary b, numbers-unaries bs)

-- The character of a code, if there is one. `Scalar` is `IsScalar` at its three comparisons.
abbrev pub Both : Ordering → Ordering → Type 0
Both Ordering.lt Ordering.lt = Unit
Both Ordering.lt Ordering.eq = ⊥
Both Ordering.lt Ordering.gt = ⊥
Both Ordering.eq _ = ⊥
Both Ordering.gt _ = ⊥

abbrev pub Scalar : Ordering → Ordering → Ordering → Type 0
Scalar Ordering.lt _ _ = Unit
Scalar Ordering.eq p q = Both p q
Scalar Ordering.gt p q = Both p q

pub find_both : (p q : Ordering) → Option (Both p q)
find_both Ordering.lt Ordering.lt = some tt
find_both Ordering.lt Ordering.eq = none
find_both Ordering.lt Ordering.gt = none
find_both Ordering.eq _ = none
find_both Ordering.gt _ = none

pub find_scalar : (o p q : Ordering) → Option (Scalar o p q)
find_scalar Ordering.lt p q = some tt
find_scalar Ordering.eq p q = find_both p q
find_scalar Ordering.gt p q = find_both p q

pub find_both-some : (p q : Ordering) (h : Both p q) → find_both p q ≡ some h
unfolding find_both
find_both-some Ordering.lt Ordering.lt h = refl
find_both-some Ordering.lt Ordering.eq h = elim h [ ]
find_both-some Ordering.lt Ordering.gt h = elim h [ ]
find_both-some Ordering.eq q h = elim h [ ]
find_both-some Ordering.gt q h = elim h [ ]

pub find_scalar-some : (o p q : Ordering) (h : Scalar o p q) → find_scalar o p q ≡ some h
unfolding find_scalar
find_scalar-some Ordering.lt p q h = refl
find_scalar-some Ordering.eq p q h = find_both-some p q h
find_scalar-some Ordering.gt p q h = find_both-some p q h

pub from_code : ℕ → Option Char
from_code n =
    Option.map (char n) (find_scalar (compare n 55296) (compare 57343 n) (compare n 1114112))

pub from_code-code : (c : Char) → from_code (code c) ≡ some c
unfolding from_code
from_code-code (char n p) =
    ap (Option.map (char n))
      (find_scalar-some (compare n 55296) (compare 57343 n) (compare n 1114112) p)

pub codes : List Char → Bytes
codes [] = []
codes (c ∷ cs) = code c ∷ codes cs

pub characters : Bytes → Option (List Char)
characters [] = some []
characters (b ∷ bs) = do c ← from_code b; cs ← characters bs; some (c ∷ cs)

pub characters-codes : (cs : List Char) → characters (codes cs) ≡ some cs
unfolding characters codes
characters-codes [] = refl
characters-codes (c ∷ cs) = simp (from_code-code, characters-codes cs)
