-- ===== src/ApiKeyVault/Store/Masked.antt =====
-- What the panel sees of the keys.
use Prim.Native.Char.{Char}
use mathlib.Core.Option
use girasolbot.Prelude.{
  ◌≡◌, refl, Option, some, List, [], ◌∷◌, ◌++◌, String, is_some, length, length-append, leb,
  if◌then◌else◌, arith, take,
}
use girasolbot.Prelude.Texts.{chars, collect, reverse, trim, reverse-append}
use girasolbot.Json.{Json}
use girasolbot.ApiKeyVault.Slots.{ApiKeySlot, find_slot}
use girasolbot.ApiKeyVault.Cipher.{Crypto}
use girasolbot.ApiKeyVault.File.{Formats, Draws}
use girasolbot.ApiKeyVault.Store.{Disk, Io, mask_secret, get_api_key, status_of}

module _ (j : Json) (f : Formats j) (c : Crypto) (io : Io) (d : Draws)
    (env : String → Option String) where
  -- The row of a slot of the catalog says that a key is configured exactly when `get_api_key` finds
  -- one, and shows that key masked.
  pub status_of-get_api_key :
      (disk : Disk) (s : ApiKeySlot)
      → find_slot s.id ≡ some s
      → let row = (status_of j f c io d env disk s).1 in
        let key = (get_api_key j f c io d env disk s.id).1 in
        (row.configured ≡ is_some key) × (row.masked ≡ Option.map mask_secret key)
  unfolding status_of get_api_key
  status_of-get_api_key disk s e = rw e (refl, refl)

last_four :
    (front : List Char) (w x y z : Char)
    → reverse (take 4 (reverse (front ++ w ∷ x ∷ y ∷ z ∷ []))) ≡ w ∷ x ∷ y ∷ z ∷ []
unfolding reverse
last_four front w x y z = rw (reverse-append front (w ∷ x ∷ y ∷ z ∷ [])) refl

-- A key of nine characters or more is shown by its first two and its last four, and by nothing of
-- the characters between them; a shorter one is not shown at all.
pub mask_secret-hides :
    (a b w x y z : Char) (middle : List Char) (key : String)
    → chars (trim key) ≡ a ∷ b ∷ middle ++ w ∷ x ∷ y ∷ z ∷ []
    → mask_secret key ≡ (
        if leb (length middle) 2 then "••••" else collect (a ∷ b ∷ chars "…" ++ w ∷ x ∷ y ∷ z ∷ []))
unfolding mask_secret
mask_secret-hides a b w x y z middle key e =
    let tail = w ∷ x ∷ y ∷ z ∷ [] in
    let size : leb (length (a ∷ b ∷ middle ++ tail)) 8 ≡ leb (length middle) 2 =
      ground (arith, length-append middle tail) in
    rw (e, last_four (a ∷ b ∷ middle) w x y z, size) refl
