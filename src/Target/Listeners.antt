-- ===== src/Target/Listeners.antt =====
-- The servers of cmd/target/main.go: what each listens on and offers, and the order in which `main`
-- starts and drains them.
use poseidon_tests.Prelude.{ℕ, Bool, true, false, List, [], ◌∷◌, ◌++◌, Bytes, codes, ◌⊎◌, inl, inr}
use poseidon_tests.Target.Certificate.{Crypto, Certificate, self_signed}

-- The command line: the addresses, and the seed of the bodies.
pub record Flags : Type 0 where
  pub plain : Bytes
  pub tls : Bytes
  pub h3 : Bytes
  pub grpc : Bytes
  pub seed : ℕ

abbrev pub default_flags : Flags
default_flags = record {
  plain = codes ":8080";
  tls = codes ":8443";
  h3 = codes ":8444";
  grpc = codes ":9443";
  seed = 1;
}

-- `min_version` is the minor version of TLS 1.
pub record ServerTls (c : Crypto) : Type 0 where
  pub certificates : List (Certificate c)
  pub next_protos : List Bytes
  pub min_version : ℕ

pub record Server (c : Crypto) : Type 0 where
  pub address : Bytes
  pub tls : ServerTls c

-- The servers: those with TLS, and the cleartext one, which has an address only. The HTTP servers share
-- the handler of one seed; the cleartext and the TLS server have one timeout, in nanoseconds.
pub record Servers (c : Crypto) : Type 0 where
  pub handler_seed : ℕ
  pub read_header_timeout : ℕ
  -- `MaxConcurrentStreams` of the TLS server's HTTP/2
  pub max_concurrent_streams : ℕ
  pub plain_address : Bytes
  pub tls_server : Server c
  pub h3_server : Server c
  pub grpc_server : Server c

-- What `main` does to the outside, from its first server on.
pub data Action : Type 0 where
  fatal : Bytes → Action
  serves : (name address : Bytes) → Action
  draining : Action
  shuts_down : (name : Bytes) → Action

module _ (c : Crypto) where
  unfoldable pub tls_cfg : Certificate c → List Bytes → ServerTls c
  tls_cfg cert protos = record { certificates = cert ∷ []; next_protos = protos; min_version = 2 }

  unfoldable pub servers : Flags → Certificate c → Servers c
  servers flags cert = record {
    handler_seed = flags.seed;
    read_header_timeout = 10000000000;
    max_concurrent_streams = 1000;
    plain_address = flags.plain;
    tls_server = record {
      address = flags.tls;
      tls = tls_cfg cert (codes "h2" ∷ codes "http/1.1" ∷ []);
    };
    h3_server = record {
      address = flags.h3;
      tls = record (tls_cfg cert (codes "h3" ∷ [])) { min_version = 3 };
    };
    grpc_server = record { address = flags.grpc; tls = tls_cfg cert (codes "h2" ∷ []) };
  }

  unfoldable pub serve_all : Servers c → List Action
  serve_all s =
      serves (codes "cleartext") s.plain_address
      ∷ serves (codes "tls-alpn") s.tls_server.address
      ∷ serves (codes "h3") s.h3_server.address
      ∷ serves (codes "grpc-tls") s.grpc_server.address
      ∷ []

  unfoldable pub drain : List Action
  drain =
      draining
      ∷ shuts_down (codes "cleartext")
      ∷ shuts_down (codes "tls-alpn")
      ∷ shuts_down (codes "h3")
      ∷ shuts_down (codes "grpc-tls")
      ∷ []

  -- The second argument tells whether `http2.ConfigureServer` fails; `ctx` ends between the two parts.
  unfoldable pub start_servers : Flags → Bool → Certificate c → List Action
  start_servers flags true cert = fatal (codes "target: configure http2") ∷ []
  start_servers flags false cert = serve_all (servers flags cert) ++ drain

  unfoldable pub with_certificate : Flags → Bool → c.Error ⊎ Certificate c → List Action
  with_certificate flags refuses (inl e) = fatal (codes "target: generate cert") ∷ []
  with_certificate flags refuses (inr cert) = start_servers flags refuses cert

  unfoldable pub main : Flags → Bool → ℕ → List Action
  main flags refuses now = with_certificate flags refuses (self_signed c now)
