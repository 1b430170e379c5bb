-- ===== src/Config/Loading.antt =====
-- What a loaded configuration is.
use publisher.Base.{ℕ, ◌<◌, ◌≡◌, sym, ap, subst, ◌∙◌, Bool, false, Option, none, some, arith}
use publisher.Base.Lists.{is_empty}
use publisher.Base.Results.{Result, ok, err}
use publisher.Spec.Primitives.{Text, codes}
use publisher.Config.{
  Config, Outside, default_config, starts_with_colon, normalize_addr, env_str, env_bool,
  env_duration, env_usize, unwrap_or, apply_env_overrides, normalize, validate, settle,
  settle_parsed, settle_read, load,
}

pub record IsValid (cfg : Config) : Type 0 where
  pub addressed : is_empty cfg.server.listen_addr ≡ false
  pub hosted : starts_with_colon cfg.server.listen_addr ≡ false
  pub api_hosted : starts_with_colon cfg.api.listen_addr ≡ false
  pub timeout_positive : 0 < cfg.consensus.timeout
  pub period_positive : 0 < cfg.consensus.period_duration
  pub window_positive : 0 < cfg.consensus.proof_window

normalize_addr-hosted : (a : Text) → starts_with_colon (normalize_addr a) ≡ false
unfolding normalize_addr
normalize_addr-hosted a = ground arith

-- A host is written in front only once.
normalize_addr-normalize_addr : (a : Text) → normalize_addr (normalize_addr a) ≡ normalize_addr a
unfolding normalize_addr
normalize_addr-normalize_addr a = ground arith

validate-ok :
    (cfg got : Config)
    → validate cfg ≡ ok got
    → (got ≡ cfg)
      × (is_empty cfg.server.listen_addr ≡ false)
      × (0 < cfg.consensus.timeout)
      × (0 < cfg.consensus.period_duration)
      × (0 < cfg.consensus.proof_window)
unfolding validate
validate-ok cfg got e = ground arith

valid-validate : (cfg : Config) → IsValid cfg → validate cfg ≡ ok cfg
unfolding validate
valid-validate cfg v =
    ground (arith, v.addressed, v.timeout_positive, v.period_positive, v.window_positive)

settle-ok :
    (out : Outside) (cfg got : Config)
    → settle out cfg ≡ ok got
    → (got ≡ normalize (apply_env_overrides out cfg)) × IsValid got
unfolding settle normalize
settle-ok out cfg got e =
    let (same, addressed, timed, period, window) = validate-ok _ got e in
    (
      same,
      subst IsValid (sym same) (record {
        addressed = addressed;
        hosted = normalize_addr-hosted (apply_env_overrides out cfg).server.listen_addr;
        api_hosted = normalize_addr-hosted (apply_env_overrides out cfg).api.listen_addr;
        timeout_positive = timed;
        period_positive = period;
        window_positive = window;
      }),
    )

-- What is loaded is settled from some configuration.
settle_parsed-ok :
    (out : Outside) (r : Result Text Config) (got : Config)
    → settle_parsed out r ≡ ok got
    → (cfg : Config) × (settle out cfg ≡ ok got)
unfolding settle_parsed
settle_parsed-ok out (err m) got e = cc
settle_parsed-ok out (ok cfg) got e = (cfg, e)

load-settle :
    (out : Outside) (file : Option (Result Text Text)) (got : Config)
    → load out file ≡ ok got
    → (cfg : Config) × (settle out cfg ≡ ok got)
unfolding load settle_read
load-settle out none got e = (default_config, e)
load-settle out (some (err m)) got e = cc
load-settle out (some (ok contents)) got e = settle_parsed-ok out (out.from_str contents) got e

-- A configuration that is loaded has an address for the sidecars and positive times, and neither of
-- its addresses begins with a colon.
pub load-IsValid :
    (out : Outside) (file : Option (Result Text Text)) (got : Config)
    → load out file ≡ ok got
    → IsValid got
load-IsValid out file got e =
    let (cfg, s) = load-settle out file got e in (settle-ok out cfg got s).1

-- A variable overrides what it has overridden.
module _ (out : Outside) (key : Text) where
  env_str-env_str : (t : Text) → env_str out key (env_str out key t) ≡ env_str out key t
  unfolding env_str
  env_str-env_str t = ground arith

  env_usize-env_usize : (n : ℕ) → env_usize out key (env_usize out key n) ≡ env_usize out key n
  unfolding env_usize unwrap_or
  env_usize-env_usize n = ground arith

  env_duration-env_duration :
      (n : ℕ) → env_duration out key (env_duration out key n) ≡ env_duration out key n
  unfolding env_duration
  env_duration-env_duration n = ground arith

  env_bool-env_bool : (b : Bool) → env_bool out key (env_bool out key b) ≡ env_bool out key b
  unfolding env_bool
  env_bool-env_bool b = ground arith

  -- With an address the normal form stays, too.
  env_str-normalize_addr :
      (t : Text)
      → normalize_addr (env_str out key (normalize_addr (env_str out key t)))
        ≡ normalize_addr (env_str out key t)
  unfolding env_str
  env_str-normalize_addr t = ground (arith, normalize_addr-normalize_addr t)

settled_again :
    (out : Outside) (cfg : Config)
    → normalize (apply_env_overrides out (normalize (apply_env_overrides out cfg)))
      ≡ normalize (apply_env_overrides out cfg)
unfolding normalize apply_env_overrides env_str env_usize env_duration env_bool
settled_again out cfg = λ i. record {
  server = record {
    listen_addr = env_str-normalize_addr out (codes "SERVER_LISTEN_ADDR") cfg.server.listen_addr i;
    max_message_size =
        env_usize-env_usize out (codes "SERVER_MAX_MESSAGE_SIZE") cfg.server.max_message_size i;
  };
  api = record {
    listen_addr = env_str-normalize_addr out (codes "API_LISTEN_ADDR") cfg.api.listen_addr i;
    request_timeout =
        env_duration-env_duration out (codes "API_REQUEST_TIMEOUT") cfg.api.request_timeout i;
  };
  consensus = record {
    timeout = env_duration-env_duration out (codes "CONSENSUS_TIMEOUT") cfg.consensus.timeout i;
    period_duration =
        env_duration-env_duration out (codes "CONSENSUS_PERIOD_DURATION")
          cfg.consensus.period_duration i;
    proof_window =
        env_duration-env_duration out (codes "CONSENSUS_PROOF_WINDOW") cfg.consensus.proof_window i;
  };
  metrics = record {
    enabled = env_bool-env_bool out (codes "METRICS_ENABLED") cfg.metrics.enabled i;
  };
  log = record {
    level = env_str-env_str out (codes "LOG_LEVEL") cfg.log.level i;
    pretty = env_bool-env_bool out (codes "LOG_PRETTY") cfg.log.pretty i;
  };
  settlement = record {
    l1_rpc_url = env_str-env_str out (codes "SETTLEMENT_L1_RPC_URL") cfg.settlement.l1_rpc_url i;
    l2oo_address =
        env_str-env_str out (codes "SETTLEMENT_L2OO_ADDRESS") cfg.settlement.l2oo_address i;
    proposer_key =
        env_str-env_str out (codes "SETTLEMENT_PROPOSER_KEY") cfg.settlement.proposer_key i;
  };
  mock_mode = env_bool-env_bool out (codes "MOCK_MODE") cfg.mock_mode i;
}

settle_stable :
    (out : Outside) (cfg got : Config)
    → got ≡ normalize (apply_env_overrides out cfg)
    → IsValid got
    → settle out got ≡ ok got
unfolding settle
settle_stable out cfg got same v =
    ap validate
      (ap (λ c. normalize (apply_env_overrides out c)) same ∙ settled_again out cfg ∙ sym same)
    ∙ valid-validate got v

-- A loaded configuration that is written back, parsed and loaded in the same environment is loaded
-- unchanged.
pub load-load :
    (out : Outside) (file : Option (Result Text Text)) (got : Config) (contents : Text)
    → load out file ≡ ok got
    → out.from_str contents ≡ ok got
    → load out (some (ok contents)) ≡ ok got
unfolding load settle_read settle_parsed
load-load out file got contents loaded parsed =
    let (cfg, s) = load-settle out file got loaded in
    let (same, v) = settle-ok out cfg got s in
    ap (settle_parsed out) parsed ∙ settle_stable out cfg got same v
