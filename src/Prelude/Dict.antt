-- ===== src/Prelude/Dict.antt =====
-- A `HashMap` with text keys, as an association list. No caller depends on the order of entries.
use Prim.Native.String.{String}
use mathlib.Core.Path.{◌≡◌, refl}
use mathlib.Core.Bool.{Bool, true}
use mathlib.Core.List.{List, [], ◌∷◌}
use mathlib.Core.Option.{Option, none, some}
use mathlib.Core.Option
use native.Mathlib.Omega.{arith}
use text.Mathlib.Text.{◌==◌}
use text.Mathlib.TextEquality.{eq_iff}
use girasolbot.Prelude.Tests.{if◌then◌else◌, Bool-cases}
use girasolbot.Prelude.Lists.{length, is_some}
use mathlib.Core.Logic.{inl, inr}

abbrev pub Dict {ℓ} : Type ℓ → Type ℓ
Dict V = List (String × V)

module _ {ℓ} {V : Type ℓ} where
  unfoldable pub get : Dict V → String → Option V
  get [] k = none
  get ((j, v) ∷ m) k = if j == k then some v else get m k

  abbrev pub contains_key : Dict V → String → Bool
  contains_key m k = is_some (get m k)

  unfoldable pub insert : Dict V → String → V → Dict V
  insert [] k v = (k, v) ∷ []
  insert ((j, w) ∷ m) k v = if j == k then (k, v) ∷ m else (j, w) ∷ insert m k v

  unfoldable pub remove : Dict V → String → Dict V
  remove [] k = []
  remove ((j, w) ∷ m) k = let rest = remove m k in if j == k then rest else (j, w) ∷ rest

  -- `if let Some(v) = m.get_mut(k) { *v = f(v) }`
  unfoldable pub modify : Dict V → String → (V → V) → Dict V
  modify [] k f = []
  modify ((j, w) ∷ m) k f = (j, (if j == k then f w else w)) ∷ modify m k f

  -- `m.retain(|_, v| p(v))`
  unfoldable pub retain : (V → Bool) → Dict V → Dict V
  retain p [] = []
  retain p ((j, w) ∷ m) = let rest = retain p m in if p w then (j, w) ∷ rest else rest

  -- Every key has one entry, as in a `HashMap`.
  abbrev pub HasUniqueKeys : Dict V → Type ℓ
  HasUniqueKeys [] = Unit
  HasUniqueKeys ((k, v) ∷ m) = (get m k ≡ none) × HasUniqueKeys m

  pub get-insert :
      (m : Dict V) (k j : String) (v : V)
      → get (insert m k v) j ≡ (if k == j then some v else get m j)
  unfolding get insert
  get-insert [] k j v = refl
  get-insert ((i, w) ∷ m) k j v =
      ground (arith, eq_iff k j, eq_iff i k, eq_iff i j, get-insert m k j v)

  pub get-remove :
      (m : Dict V) (k j : String) → get (remove m k) j ≡ (if k == j then none else get m j)
  unfolding get remove
  get-remove [] k j = ground arith
  get-remove ((i, w) ∷ m) k j = ground (arith, eq_iff k j, eq_iff i k, eq_iff i j, get-remove m k j)

  pub get-modify :
      (m : Dict V) (k j : String) (f : V → V)
      → get (modify m k f) j ≡ (if k == j then Option.map f (get m j) else get m j)
  unfolding get modify
  get-modify [] k j f = ground arith
  get-modify ((i, w) ∷ m) k j f =
      ground (arith, eq_iff k j, eq_iff i k, eq_iff i j, get-modify m k j f)

  pub length-modify : (m : Dict V) (k : String) (f : V → V) → length (modify m k f) ≡ length m
  unfolding modify
  length-modify [] k f = refl
  length-modify ((i, w) ∷ m) k f = ground (arith, length-modify m k f)

  pub get-retain :
      (p : V → Bool) (m : Dict V) (k : String) (v : V)
      → get m k ≡ some v
      → p v ≡ true
      → get (retain p m) k ≡ some v
  unfolding get retain
  get-retain p [] k v found kept = cc
  get-retain p ((j, w) ∷ m) k v found kept = elim (Bool-cases (j == k)) [
    | inl same ↦ let here : some w ≡ some v = rw same at found in ground arith
    | inr other ↦
        let there : get m k ≡ some v = rw other at found in
        let rest = get-retain p m k v there kept in ground arith
  ]

pub ruleset dict_laws = (get-insert, get-remove, get-modify)
