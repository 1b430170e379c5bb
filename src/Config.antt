-- ===== src/Config.antt =====
-- crates/config/src/lib.rs: the configuration, its defaults, and how it is loaded. A duration is a
-- number of nanoseconds. YAML and humantime are other crates' parsers, arguments here.
pub mod Loading
use publisher.Base.{
  ℕ, ◌+◌, ◌*◌, Bool, true, false, ◌&&◌, ◌||◌, Option, none, some, [], ◌∷◌, ◌++◌, ite,
}
use publisher.Base.Tests.{ltb, leb, ◌==◌, if◌then◌else◌}
use publisher.Base.Lists.{is_empty, all}
use publisher.Base.Words.{u64_mod}
use publisher.Base.Results.{Result, ok, err}
use publisher.Spec.Primitives.{Text, text_discrete, codes}
use publisher.Coordinator.ChainIds.{is_ascii_digit, decimal_from}

pub record SettlementConfig : Type 0 where
  pub l1_rpc_url : Text
  pub l2oo_address : Text
  pub proposer_key : Text

pub record ServerConfig : Type 0 where
  pub listen_addr : Text
  pub max_message_size : ℕ

pub record ApiConfig : Type 0 where
  pub listen_addr : Text
  pub request_timeout : ℕ

pub record ConsensusConfig : Type 0 where
  pub timeout : ℕ
  pub period_duration : ℕ
  pub proof_window : ℕ

pub record MetricsConfig : Type 0 where
  pub enabled : Bool

pub record LogConfig : Type 0 where
  pub level : Text
  pub pretty : Bool

pub record Config : Type 0 where
  pub server : ServerConfig
  pub api : ApiConfig
  pub consensus : ConsensusConfig
  pub metrics : MetricsConfig
  pub log : LogConfig
  pub settlement : SettlementConfig
  pub mock_mode : Bool

abbrev pub from_secs : ℕ → ℕ
from_secs n = n * 1000000000

abbrev pub default_server : ServerConfig
default_server = record { listen_addr = codes ":8080"; max_message_size = 4 * 1024 * 1024 }

abbrev pub default_api : ApiConfig
default_api = record { listen_addr = codes ":8081"; request_timeout = from_secs 15 }

abbrev pub default_consensus : ConsensusConfig
default_consensus = record {
  timeout = from_secs 60;
  period_duration = from_secs 3840;
  proof_window = from_secs 7200;
}

abbrev pub default_metrics : MetricsConfig
default_metrics = record { enabled = true }

abbrev pub default_log : LogConfig
default_log = record { level = codes "info"; pretty = false }

abbrev pub default_settlement : SettlementConfig
default_settlement = record { l1_rpc_url = []; l2oo_address = []; proposer_key = [] }

abbrev pub default_config : Config
default_config = record {
  server = default_server;
  api = default_api;
  consensus = default_consensus;
  metrics = default_metrics;
  log = default_log;
  settlement = default_settlement;
  mock_mode = false;
}

-- What the process finds outside: `env::var`, `none` if it fails, `humantime::parse_duration` and
-- `serde_yaml::from_str`.
pub record Outside : Type 0 where
  pub var : Text → Option Text
  pub parse_duration : Text → Option ℕ
  pub from_str : Text → Result Text Config

-- `starts_with(':')`.
unfoldable pub starts_with_colon : Text → Bool
starts_with_colon [] = false
starts_with_colon (c ∷ cs) = c == b':'

unfoldable pub normalize_addr : Text → Text
unfolding starts_with_colon
normalize_addr addr = if starts_with_colon addr then codes "0.0.0.0" ++ addr else addr

-- `to_lowercase` on the ASCII letters. No other character has a lowercase letter of the six words
-- below for its own.
unfoldable pub to_lowercase : Text → Text
to_lowercase [] = []
to_lowercase (c ∷ cs) = (if leb b'A' c && leb c b'Z' then c + 32 else c) ∷ to_lowercase cs

abbrev is_text : Text → Text → Bool
is_text s t = ite (text_discrete s t) true false

-- The `match` of `env_bool`.
unfoldable pub parse_bool : Text → Bool → Bool
unfolding to_lowercase
parse_bool val target =
    let s = to_lowercase val in
    if is_text s (codes "true") || (is_text s (codes "1") || is_text s (codes "yes"))
    then true
    else if is_text s (codes "false") || (is_text s (codes "0") || is_text s (codes "no"))
    then false
    else target

-- `parse::<usize>` on 64 bits: one plus sign may lead, then there are digits only.
unfoldable pub parse_digits : Text → Option ℕ
unfolding decimal_from is_ascii_digit all
parse_digits s =
    let n = decimal_from 0 s in
    if is_empty s then none else if all is_ascii_digit s && ltb n u64_mod then some n else none

unfoldable pub parse_usize : Text → Option ℕ
unfolding parse_digits
parse_usize [] = none
parse_usize (c ∷ cs) = if c == b'+' then parse_digits cs else parse_digits (c ∷ cs)

-- What replaces the target, if anything does.
unfoldable pub unwrap_or {ℓ} : {A : Type ℓ} → Option A → A → A
unwrap_or none target = target
unwrap_or (some a) target = a

unfoldable and_then {ℓ κ} : {A : Type ℓ} {B : Type κ} → Option A → (A → Option B) → Option B
and_then none f = none
and_then (some a) f = f a

unfoldable pub parsed_bool : Option Text → Bool → Bool
unfolding parse_bool
parsed_bool none target = target
parsed_bool (some val) target = parse_bool val target

module _ (out : Outside) where
  unfoldable pub env_str : Text → Text → Text
  unfolding unwrap_or
  env_str key target = unwrap_or (out.var key) target

  unfoldable pub env_bool : Text → Bool → Bool
  unfolding parsed_bool
  env_bool key target = parsed_bool (out.var key) target

  unfoldable pub env_duration : Text → ℕ → ℕ
  unfolding unwrap_or and_then
  env_duration key target = unwrap_or (and_then (out.var key) out.parse_duration) target

  unfoldable pub env_usize : Text → ℕ → ℕ
  unfolding unwrap_or and_then parse_usize
  env_usize key target = unwrap_or (and_then (out.var key) parse_usize) target

  unfoldable pub apply_env_overrides : Config → Config
  unfolding env_str env_bool env_duration env_usize
  apply_env_overrides cfg = record {
    server = record {
      listen_addr = env_str (codes "SERVER_LISTEN_ADDR") cfg.server.listen_addr;
      max_message_size = env_usize (codes "SERVER_MAX_MESSAGE_SIZE") cfg.server.max_message_size;
    };
    api = record {
      listen_addr = env_str (codes "API_LISTEN_ADDR") cfg.api.listen_addr;
      request_timeout = env_duration (codes "API_REQUEST_TIMEOUT") cfg.api.request_timeout;
    };
    consensus = record {
      timeout = env_duration (codes "CONSENSUS_TIMEOUT") cfg.consensus.timeout;
      period_duration =
          env_duration (codes "CONSENSUS_PERIOD_DURATION") cfg.consensus.period_duration;
      proof_window = env_duration (codes "CONSENSUS_PROOF_WINDOW") cfg.consensus.proof_window;
    };
    metrics = record { enabled = env_bool (codes "METRICS_ENABLED") cfg.metrics.enabled };
    log = record {
      level = env_str (codes "LOG_LEVEL") cfg.log.level;
      pretty = env_bool (codes "LOG_PRETTY") cfg.log.pretty;
    };
    settlement = record {
      l1_rpc_url = env_str (codes "SETTLEMENT_L1_RPC_URL") cfg.settlement.l1_rpc_url;
      l2oo_address = env_str (codes "SETTLEMENT_L2OO_ADDRESS") cfg.settlement.l2oo_address;
      proposer_key = env_str (codes "SETTLEMENT_PROPOSER_KEY") cfg.settlement.proposer_key;
    };
    mock_mode = env_bool (codes "MOCK_MODE") cfg.mock_mode;
  }

unfoldable pub normalize : Config → Config
unfolding normalize_addr
normalize cfg = record cfg {
  server = record cfg.server { listen_addr = normalize_addr cfg.server.listen_addr };
  api = record cfg.api { listen_addr = normalize_addr cfg.api.listen_addr };
}

-- Why a configuration is not loaded; the last four are the messages of `validate`.
pub data LoadError : Type 0 where
  reading_failed : Text → LoadError
  parsing_failed : Text → LoadError
  listen_addr_empty : LoadError
  timeout_zero : LoadError
  period_duration_zero : LoadError
  proof_window_zero : LoadError

unfoldable pub validate : Config → Result LoadError Config
validate cfg =
    if is_empty cfg.server.listen_addr
    then err listen_addr_empty
    else if cfg.consensus.timeout == 0
    then err timeout_zero
    else if cfg.consensus.period_duration == 0
    then err period_duration_zero
    else if cfg.consensus.proof_window == 0
    then err proof_window_zero
    else ok cfg

module _ (out : Outside) where
  -- The last three steps of `load`.
  unfoldable pub settle : Config → Result LoadError Config
  unfolding apply_env_overrides normalize validate
  settle cfg = validate (normalize (apply_env_overrides out cfg))

  unfoldable pub settle_parsed : Result Text Config → Result LoadError Config
  unfolding settle
  settle_parsed (ok cfg) = settle cfg
  settle_parsed (err e) = err (parsing_failed e)

  unfoldable pub settle_read : Result Text Text → Result LoadError Config
  unfolding settle_parsed
  settle_read (ok contents) = settle_parsed (out.from_str contents)
  settle_read (err e) = err (reading_failed e)

  -- `file` is what reading the file gives, `none` if there is no file.
  unfoldable pub load : Option (Result Text Text) → Result LoadError Config
  unfolding settle settle_read
  load none = settle default_config
  load (some contents) = settle_read contents
