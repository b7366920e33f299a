-- ===== src/Swqos/Providers.antt =====
-- src/swqos_sender.rs: the providers, their identities, and what the answer of each is taken for.
-- The signature that a send returns is an option: the texts of errors only reach the log. A POST
-- request and the two QUIC senders, which are of other crates and src/quic_sender.rs, are parameters.
use girasolbot.Prelude.{
  ℕ, Bool, Option, none, some, List, [], ◌∷◌, String, Pubkey, str_eq, length, ltb, if◌then◌else◌,
}
use Prim.Native.String.{◌++◌ as ◌<>◌}
use girasolbot.Prelude.Options.{◌>>=◌, ◌or_else◌}
use girasolbot.Prelude.Texts.{contains}
use mathlib.Core.Option
use girasolbot.Json.{Json}

pub data SwqosProvider : Type 0 where
  default_rpc : String → SwqosProvider
  jito : String → SwqosProvider
  helius : String → Option String → Bool → SwqosProvider
  bloxroute : String → List String → String → SwqosProvider
  next_block : String → String → SwqosProvider
  zero_slot : String → String → SwqosProvider
  temporal : String → String → SwqosProvider

unfoldable pub name : SwqosProvider → String
name (default_rpc url) = "default_rpc"
name (jito url) = "jito"
name (helius url key swqos_only) = "helius"
name (bloxroute url endpoints key) = "bloxroute"
name (next_block endpoint key) = "nextblock"
name (zero_slot endpoint key) = "zeroslot"
name (temporal endpoint key) = "temporal"

pub record LeaderMapping : Type 0 where
  pub helius_sender_endpoint_owner : Option String
  pub swqos_jito_endpoint_owner : Option String
  pub swqos_helius_endpoint_owner : Option String
  pub swqos_default_rpc_endpoint_owner : Option String
  pub swqos_bloxroute_endpoint_owner : Option String
  pub swqos_nextblock_endpoint_owner : Option String
  pub swqos_zeroslot_endpoint_owner : Option String
  pub swqos_temporal_endpoint_owner : Option String

unfoldable pub owner_of : LeaderMapping → SwqosProvider → Option String
owner_of m (default_rpc url) = m.swqos_default_rpc_endpoint_owner
owner_of m (jito url) = m.swqos_jito_endpoint_owner
owner_of m (helius url key swqos_only) = m.swqos_helius_endpoint_owner
owner_of m (bloxroute url endpoints key) = m.swqos_bloxroute_endpoint_owner
owner_of m (next_block endpoint key) = m.swqos_nextblock_endpoint_owner
owner_of m (zero_slot endpoint key) = m.swqos_zeroslot_endpoint_owner
owner_of m (temporal endpoint key) = m.swqos_temporal_endpoint_owner

-- `from_str` is `Pubkey::from_str`.
unfoldable pub identity_pubkey :
    (String → Option Pubkey) → SwqosProvider → LeaderMapping → Option Pubkey
unfolding owner_of
identity_pubkey from_str p m = owner_of m p >>= from_str

-- The settings that name and describe the providers.
pub record SwqosSettings : Type 0 where
  pub swqos_concurrent_send : Bool
  pub swqos_providers : List String
  pub solana_rpc_urls : List String
  pub swqos_jito_url : String
  pub helius_sender_endpoint : String
  pub helius_api_key : Option String
  pub helius_use_swqos_only : Bool
  pub bloxroute_http_url : String
  pub bloxroute_quic_endpoints : List String
  pub bloxroute_api_key : Option String
  pub nextblock_endpoint : String
  pub nextblock_api_key : Option String
  pub zeroslot_endpoint : String
  pub zeroslot_api_key2 : Option String
  pub temporal_endpoint : String
  pub temporal_api_key2 : Option String
  pub swqos_max_concurrent_sends : ℕ
  pub swqos_circuit_breaker_failures : ℕ
  pub swqos_circuit_breaker_cooldown_secs : ℕ
  pub leader_mapping : LeaderMapping
  pub own_leader_strategy_enabled : Bool
  pub swqos_skip_leader_provider : Bool
  pub own_leader_fallback_direct_rpc : Bool

abbrev pub head : List String → Option String
head [] = none
head (url ∷ urls) = some url

-- The provider of a configured name, unless its key is missing or the name is unknown.
unfoldable pub provider_named : SwqosSettings → String → Option SwqosProvider
provider_named s n =
    if str_eq n "default_rpc"
    then Option.map default_rpc (head s.solana_rpc_urls)
    else if str_eq n "jito"
    then some (jito s.swqos_jito_url)
    else if str_eq n "helius"
    then some (helius s.helius_sender_endpoint s.helius_api_key s.helius_use_swqos_only)
    else if str_eq n "bloxroute"
    then Option.map (bloxroute s.bloxroute_http_url s.bloxroute_quic_endpoints) s.bloxroute_api_key
    else if str_eq n "nextblock"
    then Option.map (next_block s.nextblock_endpoint) s.nextblock_api_key
    else if str_eq n "zeroslot"
    then Option.map (zero_slot s.zeroslot_endpoint) s.zeroslot_api_key2
    else if str_eq n "temporal"
    then Option.map (temporal s.temporal_endpoint) s.temporal_api_key2
    else none

unfoldable pub providers_named : SwqosSettings → List String → List SwqosProvider
unfolding provider_named
providers_named s [] = []
providers_named s (n ∷ names) =
    let rest = providers_named s names in
    elim (provider_named s n) [ some p ↦ p ∷ rest | none ↦ rest ]

-- The providers of `from_settings`, which returns nothing where there are none.
unfoldable pub from_settings : SwqosSettings → Option (List SwqosProvider)
unfolding providers_named
from_settings s =
    let providers = providers_named s s.swqos_providers in
    if s.swqos_concurrent_send
    then (if ltb 0 (length providers) then some providers else none)
    else none

-- The three kinds of requests, with the key that goes into a header.
pub data Request : Type 0 where
  rpc : String → Request
  submit_snipe submit : String → String → Request

-- The parameters of the address of Helius.
unfoldable pub helius_endpoint : String → Option String → Bool → String
helius_endpoint url key swqos_only =
    let sep : String = if contains url "?" then "&" else "?" in
    let with_key = λ (k : String). "api-key=" <> k in
    if swqos_only
    then elim key [
      | some k ↦ url <> sep <> "swqos_only=true" <> "&" <> with_key k
      | none ↦ url <> sep <> "swqos_only=true"
    ]
    else elim key [ some k ↦ url <> sep <> with_key k | none ↦ url ]

module _ (j : Json) where
  -- The signature in an answer, unless it has a field `error`.
  unfoldable pub rpc_result : j.Value → Option String
  rpc_result json = j.get json "result" >>= j.as_str

  unfoldable pub rpc_answer : j.Value → Option String
  unfolding rpc_result
  rpc_answer json = elim (j.get json "error") [ some e ↦ none | none ↦ rpc_result json ]

  -- bloXroute and NextBlock may give the signature in a field of its own.
  unfoldable pub snipe_answer : j.Value → Option String
  unfolding rpc_result
  snipe_answer json = elim (j.get json "error") [
    | some e ↦ none
    | none ↦ rpc_result json or_else (j.get json "signature" >>= j.as_str)
  ]

  module _ (post : Request → Option j.Value) where
    -- The QUIC senders are missing, or give a signature or an error.
    unfoldable pub send_to_provider :
        SwqosProvider → Option (Option String) → Option (Option String) → Option String
    unfolding rpc_answer snipe_answer helius_endpoint
    send_to_provider (default_rpc url) bxr_quic nb_quic = post (rpc url) >>= rpc_answer
    send_to_provider (jito url) bxr_quic nb_quic = post (rpc url) >>= rpc_answer
    send_to_provider (helius url key swqos_only) bxr_quic nb_quic =
        post (rpc (helius_endpoint url key swqos_only)) >>= rpc_answer
    send_to_provider (bloxroute url endpoints key) bxr_quic nb_quic =
        (bxr_quic >>= λ answer. answer) or_else (post (submit_snipe url key) >>= snipe_answer)
    send_to_provider (next_block endpoint key) bxr_quic nb_quic =
        (nb_quic >>= λ answer. answer) or_else (post (submit endpoint key) >>= snipe_answer)
    send_to_provider (zero_slot endpoint key) bxr_quic nb_quic =
        post (rpc (endpoint <> "?api-key=" <> key)) >>= rpc_answer
    send_to_provider (temporal endpoint key) bxr_quic nb_quic =
        post (rpc (endpoint <> "?c=" <> key)) >>= rpc_answer
