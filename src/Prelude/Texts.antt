-- ===== src/Prelude/Texts.antt =====
-- Texts by their characters: `chars`, `collect`, `trim`, `contains`, `is_empty`.
use Prim.Native.Nat.{ℕ}
use Prim.Native.Char.{Char, code}
use Prim.Native.String.{String}
use mathlib.Core.Path.{◌≡◌, refl, ap, sym, ◌∙◌}
use mathlib.Core.Bool.{Bool, ◌&&◌, ◌||◌}
use mathlib.Core.List.{List, [], ◌∷◌, ◌++◌, append-nil, append_assoc}
use text.Mathlib.Text.{◌==◌ as str_eq, find?}
use girasolbot.Prelude.Tests.{leb, ◌==◌, if◌then◌else◌}
use girasolbot.Prelude.Lists.{is_some}

abbrev pub contains : String → String → Bool
contains text part = is_some (find? text part)

abbrev pub is_empty : String → Bool
is_empty s = str_eq s ""

unfoldable pub chars : String → List Char
chars String.[] = []
chars (String.◌∷◌ c s) = c ∷ chars s

unfoldable pub collect : List Char → String
collect [] = ""
collect (c ∷ cs) = String.◌∷◌ c (collect cs)

-- `char::is_whitespace`: the property White_Space of Unicode.
unfoldable pub is_whitespace : Char → Bool
is_whitespace c =
    let n = code c in
    leb 9 n && leb n 13
    || n == 32
    || n == 133
    || n == 160
    || n == 5760
    || leb 8192 n && leb n 8202
    || n == 8232
    || n == 8233
    || n == 8239
    || n == 8287
    || n == 12288

module _ {ℓ} {A : Type ℓ} where
  unfoldable pub reverse : List A → List A
  reverse [] = []
  reverse (x ∷ xs) = reverse xs ++ x ∷ []

  pub reverse-append : (xs ys : List A) → reverse (xs ++ ys) ≡ reverse ys ++ reverse xs
  unfolding reverse
  reverse-append [] ys = sym (append-nil (reverse ys))
  reverse-append (x ∷ xs) ys =
      ap (λ r. r ++ x ∷ []) (reverse-append xs ys) ∙ append_assoc (reverse ys) (reverse xs) (x ∷ [])

unfoldable pub skip_white : List Char → List Char
unfolding is_whitespace
skip_white [] = []
skip_white (c ∷ cs) = let rest = skip_white cs in if is_whitespace c then rest else c ∷ cs

unfoldable pub trim : String → String
unfolding chars collect reverse skip_white
trim s = collect (reverse (skip_white (reverse (skip_white (chars s)))))

-- `text.split(separator)` at a character, given by its code.
unfoldable pub split_on : ℕ → List Char → List Char → List String
unfolding collect reverse
split_on separator part [] = collect (reverse part) ∷ []
split_on separator part (c ∷ cs) =
    let rest = split_on separator [] cs in
    let longer = split_on separator (c ∷ part) cs in
    if code c == separator then collect (reverse part) ∷ rest else longer

pub chars-collect : (cs : List Char) → chars (collect cs) ≡ cs
unfolding chars collect
chars-collect [] = refl
chars-collect (c ∷ cs) = cc (chars-collect cs)
