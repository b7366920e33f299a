-- ===== src/ApiKeyVault/Store.antt =====
-- src/api_key_vault.rs: the operations of the vault on its files.
pub mod Masked
pub mod Refinement
pub mod Failure
use girasolbot.Prelude.{
  ◌-◌, Bool, true, false, ◌&&◌, Option, none, some, List, [], ◌∷◌, ◌++◌, String, Bytes, length, leb,
  take, is_some, if◌then◌else◌,
}
use mathlib.Core.Option
use Prim.Native.Char.{Char}
use girasolbot.Prelude.Options.{◌>>=◌, ◌or_else◌, unwrap_or}
use girasolbot.Prelude.Texts.{chars, collect, reverse, trim, is_empty}
use girasolbot.Prelude.Dict
use girasolbot.Json.{Json}
use girasolbot.ApiKeyVault.Slots.{ApiKeySlot, pricing_name, network_name, api_key_slots, find_slot}
use girasolbot.ApiKeyVault.Cipher.{Crypto, encrypt_v2}
use girasolbot.ApiKeyVault.File.{
  VaultFileV2, VaultFileAny, v2, Formats, Draws, parse, empty_v2, read_slot, migrate,
}

-- What a process sees of its surroundings: the variable VAULT_PASSPHRASE, and the three files, each
-- with its text where it is readable.
pub record Disk : Type 0 where
  pub passphrase : Option String
  pub secret_file : Option String
  pub vault_file : Option String
  pub temp_file : Option String

-- How `fs::write` of a text ends: with all of it in the file, or with an error and whatever is in the
-- file then, which it truncates before it writes.
pub data Written : Type 0 where
  complete : Written
  broken : Option String → Written

-- How the calls that change files end: the creation of the directory, the two writes, and the renaming,
-- which replaces its target whole or not at all.
pub record Io : Type 0 where
  pub dir_ok : Bool
  pub secret : Written
  pub temp : Written
  pub rename_ok : Bool

-- The results of `set_api_key`; the texts of its errors are constructors.
pub data Answer : Type 0 where
  done unknown_slot no_secret encrypt_failed save_failed : Answer

abbrev pub is_done : Answer → Bool
is_done done = true
is_done _ = false

-- A text without the white space around it, unless that leaves nothing.
unfoldable pub non_empty : Option String → Option String
non_empty none = none
non_empty (some text) = if is_empty (trim text) then none else some (trim text)

abbrev pub known_secret : Disk → Option String
known_secret disk = non_empty disk.passphrase or_else non_empty disk.secret_file

unfoldable pub mask_secret : String → String
mask_secret value =
    let v = chars (trim value) in
    if leb (length v) 8
    then "••••"
    else collect (take 2 v ++ chars "…" ++ reverse (take 4 (reverse v)))

pub record ApiKeySlotStatus : Type 0 where
  pub id : String
  pub label : String
  pub purpose : String
  pub signup_url : String
  pub pricing : String
  pub env_var : String
  pub placeholder : String
  pub network : String
  pub configured : Bool
  pub masked : Option String
  pub source : Option String

module _ (j : Json) (f : Formats j) (c : Crypto) (io : Io) (d : Draws) where
  new_secret : Disk → Disk × Option String
  new_secret disk =
      let secret = c.hex_encode d.new_secret in
      if io.dir_ok
      then elim io.secret [
        | complete ↦ (record disk { secret_file = some secret }, some secret)
        | broken left ↦ (record disk { secret_file = left }, none)
      ]
      else (disk, none)

  unfoldable pub load_secret : Disk → Disk × Option String
  unfolding new_secret
  load_secret disk = elim (known_secret disk) [
    | some secret ↦ (disk, some secret)
    | none ↦ new_secret disk
  ]

  unfoldable pub load : Disk → VaultFileAny
  load disk = unwrap_or (disk.vault_file >>= parse j f) (v2 (empty_v2 c d.new_salt))

  unfoldable pub load_or_migrate : Disk → String → VaultFileV2
  unfolding load
  load_or_migrate disk secret = migrate c d secret (load disk)

  write_file : Disk → String → Disk × Answer
  write_file disk text = elim io.temp [
    | complete ↦
        if io.rename_ok
        then (record disk { vault_file = some text; temp_file = none }, done)
        else (record disk { temp_file = some text }, save_failed)
    | broken left ↦ (record disk { temp_file = left }, save_failed)
  ]

  unfoldable pub save : Disk → VaultFileV2 → Disk × Answer
  unfolding write_file
  save disk v = elim (f.to_string_pretty v) [
    | some text ↦ if io.dir_ok then write_file disk text else (disk, save_failed)
    | none ↦ (disk, save_failed)
  ]

  -- The write of one entry, with the secret at hand.
  unfoldable pub set_entry : Disk → String → String → String → Disk × Answer
  unfolding load_or_migrate save
  set_entry disk secret slot value =
      let v = load_or_migrate disk secret in
      if is_empty (trim value)
      then save disk (record v { slots = Dict.remove v.slots slot })
      else elim (encrypt_v2 c d.new_iv secret (trim value) v.salt) [
        | some blob ↦ save disk (record v { slots = Dict.insert v.slots slot blob })
        | none ↦ (disk, encrypt_failed)
      ]

  pub set_with : Disk × Option String → String → String → Disk × Answer
  unfolding set_entry
  set_with (disk, some secret) slot value = set_entry disk secret slot value
  set_with (disk, none) slot value = (disk, no_secret)

  unfoldable pub set_api_key : Disk → String → String → Disk × Answer
  unfolding load_secret set_with
  set_api_key disk slot value = elim (find_slot slot) [
    | some s ↦ set_with (load_secret disk) slot value
    | none ↦ (disk, unknown_slot)
  ]

  -- What the vault alone holds for a slot, with the disk after the look at the secret.
  unfoldable pub from_vault : Disk × Option String → String → Option String
  unfolding load
  from_vault (disk, none) slot = none
  from_vault (disk, some secret) slot = read_slot c (load disk) secret slot

  module _ (env : String → Option String) where
    unfoldable pub get_api_key : Disk → String → Disk × Option String
    unfolding load_secret from_vault non_empty
    get_api_key disk slot =
        let loaded = load_secret disk in
        (
          loaded.0,
          from_vault loaded slot or_else (do s ← find_slot slot; non_empty (env s.env_var)),
        )

    source_of : Option String → Option String → Option String
    source_of (some value) _ = some "vault"
    source_of none (some value) = some "env"
    source_of none none = none

    -- One row of `statuses`.
    unfoldable pub status_of : Disk → ApiKeySlot → Disk × ApiKeySlotStatus
    unfolding load_secret from_vault non_empty source_of mask_secret
    status_of disk s =
        let loaded = load_secret disk in
        let in_vault = from_vault loaded s.id in
        let env_val = non_empty (env s.env_var) in
        let value = in_vault or_else env_val in
        (
          loaded.0,
          record {
            id = s.id;
            label = s.label;
            purpose = s.purpose;
            signup_url = s.signup_url;
            pricing = pricing_name s.pricing;
            env_var = s.env_var;
            placeholder = s.placeholder;
            network = network_name s.network;
            configured = is_some value;
            masked = Option.map mask_secret value;
            source = source_of in_vault env_val;
          },
        )

    statuses_of : List ApiKeySlot → Disk → List ApiKeySlotStatus
    unfolding status_of
    statuses_of [] disk = []
    statuses_of (s ∷ slots) disk =
        let (after, row) = status_of disk s in row ∷ statuses_of slots after

    unfoldable pub statuses : Disk → List ApiKeySlotStatus
    unfolding statuses_of
    statuses disk = statuses_of api_key_slots disk
