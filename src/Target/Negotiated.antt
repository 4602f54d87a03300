-- ===== src/Target/Negotiated.antt =====
-- The driver's clients meet the target's listeners.
use poseidon_tests.Prelude.{
  ◌≡◌, refl, sym, ap, subst, Bool, true, false, List, [], ◌∷◌, ◌++◌, Option, none, some, Bytes,
  codes, text_eq, if◌then◌else◌,
}
use poseidon_tests.ClientSet.Matrix.{
  regime_h1, regime_h3, regime_grpc, Impl, poseidon_h1, std_h1, poseidon_h2, std_h2, poseidon_h3,
  quic_go_h3, poseidon_grpc, grpc_go, std_h1_pooled, std_h2_pooled, new,
}
use poseidon_tests.ClientSet.Matrix.Cells.{new_lem, regime_of}
use poseidon_tests.ClientSet.Endpoint.{Config, decimal, addr, tls_config, options}
use poseidon_tests.Target.Certificate.{Crypto, Certificate}
use poseidon_tests.Target.Listeners.{Flags, Server, servers, tls_cfg}

abbrev pub member : Bytes → List Bytes → Bool
member p [] = false
member p (q ∷ qs) = if text_eq p q then true else member p qs

-- What a client library offers for the protocols of its configuration. The dialer of poseidon over
-- HTTP/1.1 and the two HTTP/3 transports fill in their protocol where none is configured; the
-- transport of net/http keeps a configured http/1.1, to which it adds nothing, and the HTTP/2 and gRPC
-- clients offer the h2 that is configured, among what else they add.
pub record Offers : Type 0 where
  pub offer : Impl → List Bytes → List Bytes
  pub fills_h1 : offer poseidon_h1 [] ≡ codes "http/1.1" ∷ []
  pub fills_poseidon_h3 : member (codes "h3") (offer poseidon_h3 []) ≡ true
  pub fills_quic_go : member (codes "h3") (offer quic_go_h3 []) ≡ true
  pub keeps_h1 : offer std_h1 (codes "http/1.1" ∷ []) ≡ codes "http/1.1" ∷ []
  pub keeps_h1_pooled : offer std_h1_pooled (codes "http/1.1" ∷ []) ≡ codes "http/1.1" ∷ []
  pub offers_poseidon_h2 : member (codes "h2") (offer poseidon_h2 (codes "h2" ∷ [])) ≡ true
  pub offers_std_h2 : member (codes "h2") (offer std_h2 (codes "h2" ∷ [])) ≡ true
  pub offers_std_h2_pooled : member (codes "h2") (offer std_h2_pooled (codes "h2" ∷ [])) ≡ true
  pub offers_poseidon_grpc : member (codes "h2") (offer poseidon_grpc (codes "h2" ∷ [])) ≡ true
  pub offers_grpc_go : member (codes "h2") (offer grpc_go (codes "h2" ∷ [])) ≡ true

-- ALPN as crypto/tls selects it: the server's first protocol that the client offers.
unfoldable pub negotiate : List Bytes → List Bytes → Option Bytes
negotiate [] client = none
negotiate (p ∷ ps) client =
    let rest = negotiate ps client in if member p client then some p else rest

-- The listener that serves a regime, and its protocol.
unfoldable pub server_for : (c : Crypto) → Flags → Certificate c → Bytes → Server c
server_for c flags cert regime =
    if text_eq regime regime_h3
    then (servers c flags cert).h3_server
    else if text_eq regime regime_grpc
    then (servers c flags cert).grpc_server
    else (servers c flags cert).tls_server

unfoldable pub protocol_of : Bytes → Bytes
protocol_of regime =
    if text_eq regime regime_h1
    then codes "http/1.1"
    else if text_eq regime regime_h3
    then codes "h3"
    else codes "h2"

-- The two command lines name the same ports.
pub record PortsAgree (flags : Flags) (cfg : Config) : Type 0 where
  pub tls_agrees : flags.tls ≡ b':' ∷ decimal cfg.tls_port
  pub h3_agrees : flags.h3 ≡ b':' ∷ decimal cfg.h3_port
  pub grpc_agrees : flags.grpc ≡ b':' ∷ decimal cfg.grpc_port

module _ (o : Offers) (c : Crypto) (cert : Certificate c) (flags : Flags) (cfg : Config)
    (agree : PortsAgree flags cfg) where
  abbrev Meets : Impl → Bytes → Type 0
  Meets i regime =
      ((options i cfg).address ≡ cfg.host ++ (server_for c flags cert regime).address)
      × (negotiate (server_for c flags cert regime).tls.next_protos
            (o.offer i (options i cfg).tls.next_protos)
          ≡ some (protocol_of regime))

  meets : (i : Impl) → Meets i (regime_of i)
  unfolding options addr tls_config server_for servers tls_cfg protocol_of regime_of negotiate
  meets poseidon_h1 = rw o.fills_h1 (ap (λ a. cfg.host ++ a) (sym agree.tls_agrees), refl)
  meets std_h1 = rw o.keeps_h1 (ap (λ a. cfg.host ++ a) (sym agree.tls_agrees), refl)
  meets poseidon_h2 = rw o.offers_poseidon_h2 (ap (λ a. cfg.host ++ a) (sym agree.tls_agrees), refl)
  meets std_h2 = rw o.offers_std_h2 (ap (λ a. cfg.host ++ a) (sym agree.tls_agrees), refl)
  meets poseidon_h3 = rw o.fills_poseidon_h3 (ap (λ a. cfg.host ++ a) (sym agree.h3_agrees), refl)
  meets quic_go_h3 = rw o.fills_quic_go (ap (λ a. cfg.host ++ a) (sym agree.h3_agrees), refl)
  meets poseidon_grpc =
      rw o.offers_poseidon_grpc (ap (λ a. cfg.host ++ a) (sym agree.grpc_agrees), refl)
  meets grpc_go = rw o.offers_grpc_go (ap (λ a. cfg.host ++ a) (sym agree.grpc_agrees), refl)
  meets std_h1_pooled = rw o.keeps_h1_pooled (ap (λ a. cfg.host ++ a) (sym agree.tls_agrees), refl)
  meets std_h2_pooled =
      rw o.offers_std_h2_pooled (ap (λ a. cfg.host ++ a) (sym agree.tls_agrees), refl)

  -- Where the two command lines name the same ports, and the client libraries offer what they
  -- document, every client that `New` chooses for a regime dials the listener that serves it, and the
  -- handshake selects the regime's protocol: http/1.1 or h2 on the one shared listener, h3 over QUIC,
  -- and h2 for gRPC.
  pub negotiate-protocol_of :
      (regime arm : Bytes) (i : Impl)
      → new regime arm ≡ some i
      → ((options i cfg).address ≡ cfg.host ++ (server_for c flags cert regime).address)
        × (negotiate
              (server_for c flags cert regime).tls.next_protos
              (o.offer i (options i cfg).tls.next_protos)
            ≡ some (protocol_of regime))
  negotiate-protocol_of regime arm i e = subst (Meets i) ((new_lem regime arm i).0 e).0 (meets i)
