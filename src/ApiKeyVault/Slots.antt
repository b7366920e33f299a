-- ===== src/ApiKeyVault/Slots.antt =====
-- src/api_key_vault.rs: the catalog of the slots.
use girasolbot.Prelude.{Option, none, some, List, [], ◌∷◌, String, str_eq, if◌then◌else◌}

pub data SlotNetwork : Type 0 where
  evm solana both : SlotNetwork

abbrev pub network_name : SlotNetwork → String
network_name evm = "evm"
network_name solana = "solana"
network_name both = "both"

pub data Pricing : Type 0 where
  free tips freemium subscription : Pricing

abbrev pub pricing_name : Pricing → String
pricing_name free = "free"
pricing_name tips = "tips"
pricing_name freemium = "freemium"
pricing_name subscription = "subscription"

pub record ApiKeySlot : Type 0 where
  pub id : String
  pub label : String
  pub purpose : String
  pub signup_url : String
  pub pricing : Pricing
  pub env_var : String
  pub placeholder : String
  pub network : SlotNetwork

abbrev pub api_key_slots : List ApiKeySlot
api_key_slots =
    record {
      id = "rpc-http";
      label = "RPC (HTTP)";
      purpose = "JSON-RPC reads, getTransaction, price/liquidity lookups (config solana_rpc_urls)";
      signup_url = "https://solana.com/rpc";
      pricing = free;
      env_var = "SNIPER_RPC_URLS";
      placeholder = "https://<provider>/rpc/<key>";
      network = solana;
    }
    ∷ record {
      id = "rpc-wss";
      label = "RPC WSS feed";
      purpose = "logsSubscribe websocket feed for target-wallet detection (config solana_ws_urls)";
      signup_url = "https://solana.com/rpc";
      pricing = free;
      env_var = "SNIPER_WSS_URLS";
      placeholder = "wss://<provider>/rpc/<key>";
      network = solana;
    }
    ∷ record {
      id = "erpc";
      label = "ERPC (edge RPC)";
      purpose =
          "Low-latency edge RPC / WSS endpoints with api-key auth (config solana_rpc_urls / solana_ws_urls)";
      signup_url = "https://erpc.global";
      pricing = freemium;
      env_var = "ERPC_API_KEY";
      placeholder = "<api-key token>";
      network = solana;
    }
    ∷ record {
      id = "geyser";
      label = "Yellowstone gRPC Geyser";
      purpose = "Direct gRPC transaction stream, pre-confirmation (config geyser_url)";
      signup_url = "https://erpc.global";
      pricing = freemium;
      env_var = "SNIPER_GEYSER_URL";
      placeholder = "http(s)://<geyser-host>:<port>";
      network = solana;
    }
    ∷ record {
      id = "shreds";
      label = "ShredStream";
      purpose = "Raw shred stream before block formation (config shreds_url)";
      signup_url = "https://erpc.global";
      pricing = freemium;
      env_var = "SNIPER_SHREDS_URL";
      placeholder = "http(s)://<shredstream-host>:<port>";
      network = solana;
    }
    ∷ record {
      id = "jito";
      label = "Jito Block Engine";
      purpose = "SWQoS submission via block engine (config swqos_jito_url)";
      signup_url = "https://jito.wtf";
      pricing = tips;
      env_var = "SNIPER_JITO_URL";
      placeholder = "https://<region>.mainnet.block-engine.jito.wtf";
      network = solana;
    }
    ∷ record {
      id = "bloxroute";
      label = "bloXroute";
      purpose = "QUIC/HTTP SWQoS submission (config bloxroute_api_key)";
      signup_url = "https://bloxroute.com";
      pricing = subscription;
      env_var = "BLOXROUTE_API_KEY";
      placeholder = "<api-token>";
      network = solana;
    }
    ∷ record {
      id = "nextblock";
      label = "NextBlock";
      purpose = "QUIC SWQoS submission (config nextblock_api_key)";
      signup_url = "https://nextblock.io";
      pricing = tips;
      env_var = "NEXTBLOCK_API_KEY";
      placeholder = "<api-key>";
      network = solana;
    }
    ∷ record {
      id = "zeroslot";
      label = "ZeroSlot";
      purpose = "SWQoS submission (config zeroslot_api_key)";
      signup_url = "https://0slot.trade";
      pricing = tips;
      env_var = "ZEROSLOT_API_KEY";
      placeholder = "<api-key>";
      network = solana;
    }
    ∷ record {
      id = "nozomi";
      label = "Nozomi (Temporal)";
      purpose = "SWQoS submission (config nozomi_api_key)";
      signup_url = "https://temporal.xyz";
      pricing = tips;
      env_var = "NOZOMI_API_KEY";
      placeholder = "<api-key>";
      network = solana;
    }
    ∷ record {
      id = "zerox";
      label = "0x Swap API";
      purpose =
          "Swap-quote fallback when the primary router path reverts (EVM bot, config ZEROX_API_KEY)";
      signup_url = "https://0x.org";
      pricing = freemium;
      env_var = "ZEROX_API_KEY";
      placeholder = "0x API key (empty = free unauthenticated tier)";
      network = evm;
    }
    ∷ record {
      id = "dexscreener";
      label = "DexScreener";
      purpose =
          "Optional token metadata / pair enrichment, public endpoints need no key today (EVM bot)";
      signup_url = "https://docs.dexscreener.com";
      pricing = free;
      env_var = "DEXSCREENER_API_KEY";
      placeholder = "empty = use unauthenticated public endpoints";
      network = evm;
    }
    ∷ record {
      id = "coingecko";
      label = "CoinGecko";
      purpose = "Optional price/metadata lookups, public demo tier available (EVM bot)";
      signup_url = "https://www.coingecko.com/en/api";
      pricing = freemium;
      env_var = "COINGECKO_API_KEY";
      placeholder = "CG-<key> (empty = public demo tier)";
      network = evm;
    }
    ∷ record {
      id = "alchemy";
      label = "Alchemy";
      purpose = "Optional archive/enhanced RPC for backfill and route history (EVM bot)";
      signup_url = "https://alchemy.com";
      pricing = freemium;
      env_var = "ALCHEMY_API_KEY";
      placeholder = "https://<chain>.g.alchemy.com/v2/<key>";
      network = evm;
    }
    ∷ record {
      id = "quicknode";
      label = "QuickNode";
      purpose = "Optional dedicated RPC endpoint (EVM bot)";
      signup_url = "https://quicknode.com";
      pricing = freemium;
      env_var = "QUICKNODE_URL";
      placeholder = "https://<name>.<chain>.quiknode.pro/<token>/";
      network = evm;
    }
    ∷ record {
      id = "infura";
      label = "Infura";
      purpose = "Optional backup RPC provider (EVM bot)";
      signup_url = "https://infura.io";
      pricing = freemium;
      env_var = "INFURA_URL";
      placeholder = "https://<network>.infura.io/v3/<key>";
      network = evm;
    }
    ∷ record {
      id = "explorer";
      label = "Explorer API";
      purpose = "Optional Blockscout/explorer key for higher rate limits (EVM bot)";
      signup_url = "https://robinhoodchain.blockscout.com";
      pricing = free;
      env_var = "EXPLORER_API_KEY";
      placeholder = "empty = public rate limits";
      network = evm;
    }
    ∷ record {
      id = "helius";
      label = "Helius";
      purpose =
          "Shared slot: Solana sender/SWQoS + enhanced RPC (this bot) and EVM enhanced-index integrations (TS bot)";
      signup_url = "https://helius.dev";
      pricing = freemium;
      env_var = "HELIUS_API_KEY";
      placeholder = "<api-key>";
      network = both;
    }
    ∷ []

unfoldable pub find_in : String → List ApiKeySlot → Option ApiKeySlot
find_in id [] = none
find_in id (s ∷ slots) = if str_eq s.id id then some s else find_in id slots

abbrev pub find_slot : String → Option ApiKeySlot
find_slot id = find_in id api_key_slots
