-- ===== src/ClientSet/Endpoint.antt =====
-- What each constructor of internal/clientset makes of the configuration: the options that it hands
-- to its client library.
use poseidon_tests.Prelude.{
  text_eq, ℕ, ◌-◌, ◌≡◌, refl, ap, ◌∙◌, sym, Bool, List, [], ◌∷◌, ◌++◌, Option, none, some, Bytes,
  codes, is_neg, if◌then◌else◌, word,
}
use poseidon_tests.Go.Strconv.{format}
use poseidon_tests.ClientSet.Matrix.{
  regime_h3, regime_grpc, Impl, poseidon_h1, std_h1, poseidon_h2, std_h2, poseidon_h3, quic_go_h3,
  poseidon_grpc, grpc_go, std_h1_pooled, std_h2_pooled, new,
}
use poseidon_tests.ClientSet.Matrix.Cells.{new_lem, regime_of}

pub record Config : Type 0 where
  pub host : Bytes
  pub tls_port : ℕ  -- int
  pub h3_port : ℕ  -- int
  pub grpc_port : ℕ  -- int
  pub conns : ℕ  -- int
  pub max_streams_per_conn : ℕ  -- int
  pub insecure_skip_verify : Bool

-- `%d` of an int.
abbrev pub decimal : ℕ → Bytes
decimal n = if is_neg n then b'-' ∷ format (word - n) else format n

unfoldable pub addr : Bytes → ℕ → Bytes
addr host port = host ++ (b':' ∷ decimal port)

-- `tls.Config`; `min_version` is the minor version of TLS 1.
pub record TlsConfig : Type 0 where
  pub server_name : Bytes
  pub next_protos : List Bytes
  pub insecure_skip_verify : Bool
  pub min_version : ℕ

unfoldable pub tls_config : Config → List Bytes → TlsConfig
tls_config cfg protos = record {
  server_name = cfg.host;
  next_protos = protos;
  insecure_skip_verify = cfg.insecure_skip_verify;
  min_version = 2;
}

-- The limits are `none` where the constructor sets no such option.
pub record Options : Type 0 where
  pub address : Bytes
  pub tls : TlsConfig
  pub max_conns : Option ℕ
  pub max_streams : Option ℕ

-- One function for each constructor.
abbrev pub std_h1_options : Config → Options
std_h1_options cfg = record {
  address = addr cfg.host cfg.tls_port;
  tls = tls_config cfg (codes "http/1.1" ∷ []);
  max_conns = some cfg.conns;
  max_streams = none;
}

abbrev pub std_h2_options : Config → Options
std_h2_options cfg = record {
  address = addr cfg.host cfg.tls_port;
  tls = tls_config cfg (codes "h2" ∷ []);
  max_conns = none;
  max_streams = none;
}

abbrev pub poseidon_h1_options : Config → Options
poseidon_h1_options cfg = record {
  address = addr cfg.host cfg.tls_port;
  tls = tls_config cfg [];
  max_conns = some cfg.conns;
  max_streams = none;
}

abbrev pub poseidon_h2_options : Config → Options
poseidon_h2_options cfg = record {
  address = addr cfg.host cfg.tls_port;
  tls = tls_config cfg (codes "h2" ∷ []);
  max_conns = some cfg.conns;
  max_streams = some cfg.max_streams_per_conn;
}

abbrev pub poseidon_h3_options : Config → Options
poseidon_h3_options cfg = record {
  address = addr cfg.host cfg.h3_port;
  tls = tls_config cfg [];
  max_conns = some 1;
  max_streams = some cfg.max_streams_per_conn;
}

abbrev pub quic_go_h3_options : Config → Options
quic_go_h3_options cfg = record {
  address = addr cfg.host cfg.h3_port;
  tls = tls_config cfg [];
  max_conns = none;
  max_streams = none;
}

abbrev pub poseidon_grpc_options : Config → Options
poseidon_grpc_options cfg = record {
  address = addr cfg.host cfg.grpc_port;
  tls = tls_config cfg (codes "h2" ∷ []);
  max_conns = none;
  max_streams = none;
}

abbrev pub grpc_go_options : Config → Options
grpc_go_options cfg = record {
  address = addr cfg.host cfg.grpc_port;
  tls = tls_config cfg (codes "h2" ∷ []);
  max_conns = none;
  max_streams = none;
}

abbrev pub std_h1_pooled_options : Config → Options
std_h1_pooled_options cfg = std_h1_options cfg

abbrev pub std_h2_pooled_options : Config → Options
std_h2_pooled_options cfg = std_h2_options cfg

unfoldable pub options : Impl → Config → Options
options poseidon_h1 cfg = poseidon_h1_options cfg
options std_h1 cfg = std_h1_options cfg
options poseidon_h2 cfg = poseidon_h2_options cfg
options std_h2 cfg = std_h2_options cfg
options poseidon_h3 cfg = poseidon_h3_options cfg
options quic_go_h3 cfg = quic_go_h3_options cfg
options poseidon_grpc cfg = poseidon_grpc_options cfg
options grpc_go cfg = grpc_go_options cfg
options std_h1_pooled cfg = std_h1_pooled_options cfg
options std_h2_pooled cfg = std_h2_pooled_options cfg

-- The address and the part of the TLS configuration that the arms of a regime have to share.
abbrev pub Shared : Type 0
Shared = Bytes × Bytes × Bool × ℕ

abbrev pub shared : Options → Shared
shared o = (o.address, o.tls.server_name, o.tls.insecure_skip_verify, o.tls.min_version)

unfoldable pub expected : Bytes → Config → Shared
expected regime cfg =
    let port =
      if text_eq regime regime_h3
      then cfg.h3_port
      else if text_eq regime regime_grpc
      then cfg.grpc_port
      else cfg.tls_port in
    (addr cfg.host port, cfg.host, cfg.insecure_skip_verify, 2)

options-expected : (i : Impl) (cfg : Config) → shared (options i cfg) ≡ expected (regime_of i) cfg
unfolding options tls_config expected regime_of
options-expected poseidon_h1 cfg = refl
options-expected std_h1 cfg = refl
options-expected poseidon_h2 cfg = refl
options-expected std_h2 cfg = refl
options-expected poseidon_h3 cfg = refl
options-expected quic_go_h3 cfg = refl
options-expected poseidon_grpc cfg = refl
options-expected grpc_go cfg = refl
options-expected std_h1_pooled cfg = refl
options-expected std_h2_pooled cfg = refl

-- Any two arms that have a client for a regime dial the same address, with the same server name,
-- verification and least TLS version: the port is the one of the regime.
pub arms_agree :
    (regime arm arm' : Bytes) (i j : Impl) (cfg : Config)
    → new regime arm ≡ some i
    → new regime arm' ≡ some j
    → (shared (options i cfg) ≡ expected regime cfg)
      × (shared (options i cfg) ≡ shared (options j cfg))
arms_agree regime arm arm' i j cfg p q =
    let first = ((new_lem regime arm i).0 p).0 in
    let second = ((new_lem regime arm' j).0 q).0 in
    let dialled = options-expected i cfg ∙ ap (λ r. expected r cfg) first in
    (dialled, dialled ∙ sym (options-expected j cfg ∙ ap (λ r. expected r cfg) second))
