-- ===== src/Target/Tests.antt =====
-- The two legs of the echo scenario, and the handshakes, at concrete inputs.
use poseidon_tests.Prelude.{
  ℕ, List, Bytes, some, true, ◌+◌, ◌≡◌, refl, [], ◌∷◌, ◌++◌, inr, codes, length,
}
use poseidon_tests.Go.Strconv
use poseidon_tests.Go.Strconv.{format}
use poseidon_tests.ClientSet.Matrix.{
  Impl, poseidon_h1, std_h1, poseidon_h2, std_h2, poseidon_h3, quic_go_h3, poseidon_grpc, grpc_go,
  std_h1_pooled, std_h2_pooled, new, first_case, regime_h3, arm_standard,
}
use poseidon_tests.ClientSet.Endpoint.{Config, options}
use poseidon_tests.Target.Certificate.{Crypto, Certificate}
use poseidon_tests.Target.Listeners.{default_flags}
use poseidon_tests.Target.Negotiated.{
  Offers, PortsAgree, negotiate, server_for, protocol_of, negotiate-protocol_of,
}
use poseidon_tests.Samples.{counting, lenient_json, one_body}
use poseidon_tests.RawGrpc.{serve_unary}
use poseidon_tests.Api.Handlers.{echo_body, echo_handler}
use poseidon_tests.Api.Stream.{body_of}
use poseidon_tests.Target.{echo_rpc, echo_legs}

echo_legs_example :
    (serve_unary (echo_rpc counting lenient_json format) (codes "{}") ≡ inr (format 7))
    × (body_of (echo_handler counting lenient_json (inr one_body)) ≡ format 7 ++ (10 ∷ []))
    × (length (body_of (echo_handler counting lenient_json (inr one_body))) ≡ length (format 7) + 1)
unfolding echo_body
echo_legs_example =
    echo_legs counting lenient_json format (codes "{}") (format 7) one_body refl refl refl

-- Libraries that offer what they document.
unfoldable offered : Impl → List Bytes → List Bytes
offered i (p ∷ ps) = p ∷ ps
offered poseidon_h1 [] = codes "http/1.1" ∷ []
offered std_h1 [] = codes "http/1.1" ∷ []
offered std_h1_pooled [] = codes "http/1.1" ∷ []
offered poseidon_h3 [] = codes "h3" ∷ []
offered quic_go_h3 [] = codes "h3" ∷ []
offered poseidon_h2 [] = codes "h2" ∷ []
offered std_h2 [] = codes "h2" ∷ []
offered std_h2_pooled [] = codes "h2" ∷ []
offered poseidon_grpc [] = codes "h2" ∷ []
offered grpc_go [] = codes "h2" ∷ []

documented : Offers
unfolding offered
documented = record {
  offer = offered;
  fills_h1 = refl;
  fills_poseidon_h3 = refl;
  fills_quic_go = refl;
  keeps_h1 = refl;
  keeps_h1_pooled = refl;
  offers_poseidon_h2 = refl;
  offers_std_h2 = refl;
  offers_std_h2_pooled = refl;
  offers_poseidon_grpc = refl;
  offers_grpc_go = refl;
}

-- A library of certificates that never fails.
abbrev crypto : Crypto
crypto = record {
  Key = ℕ;
  Error = ℕ;
  generate_key = inr 5;
  random_serial = inr 77;
  create = λ tmpl parent key. inr (format tmpl.serial);
}

abbrev cert : Certificate crypto
cert = record { chain = codes "77" ∷ []; private_key = 5 }

-- The driver's defaults.
abbrev config : Config
config = record {
  host = codes "target";
  tls_port = 8443;
  h3_port = 8444;
  grpc_port = 9443;
  conns = 8;
  max_streams_per_conn = 250;
  insecure_skip_verify = true;
}

default-PortsAgree : PortsAgree default_flags config
unfolding format Strconv.digits
default-PortsAgree = record { tls_agrees = refl; h3_agrees = refl; grpc_agrees = refl }

negotiate-protocol_of_example :
    ((options quic_go_h3 config).address
      ≡ codes "target" ++ (server_for crypto default_flags cert regime_h3).address)
    × (negotiate
          (server_for crypto default_flags cert regime_h3).tls.next_protos
          (documented.offer quic_go_h3 (options quic_go_h3 config).tls.next_protos)
        ≡ some (protocol_of regime_h3))
unfolding new first_case
negotiate-protocol_of_example =
    negotiate-protocol_of documented crypto cert default_flags config default-PortsAgree regime_h3
      arm_standard quic_go_h3 refl
