-- ===== src/Target.antt =====
-- cmd/target/main.go: the Echo handler that the target registers with its gRPC server, beside the HTTP
-- handler of the same name.
pub mod Certificate
pub mod Listeners
pub mod Negotiated
mod Tests
use poseidon_tests.Prelude.{
  append-nil, ◌+◌, ◌≡◌, refl, ap, ◌∙◌, [], ◌∷◌, ◌++◌, Bytes, ◌⊎◌, inl, inr, arith, length,
  length-append,
}
use poseidon_tests.Go.Rand.{Rand}
use poseidon_tests.Payload.{Body, Json}
use poseidon_tests.RawGrpc.{serve_unary, serve_unary_lem}
use poseidon_tests.Api.Handlers.{echo_body, echo_handler, write_json, encoded, json_head}
use poseidon_tests.Api.Stream.{body_of}

-- The text of an error, as `err.Error()` gives it.
module _ (r : Rand) (json : Json r) (text : json.Error → Bytes) where
  unfoldable pub or_text : json.Error ⊎ Bytes → Bytes ⊎ Bytes
  or_text (inl e) = inl (text e)
  or_text (inr b) = inr b

  unfoldable pub echo_decoded : json.Error ⊎ Body r → Bytes ⊎ Bytes
  echo_decoded (inl e) = inl (text e)
  echo_decoded (inr b) = or_text (json.marshal (echo_body r json b))

  unfoldable pub echo_rpc : Bytes → Bytes ⊎ Bytes
  echo_rpc req = echo_decoded (json.unmarshal req)

  -- On a request that both decoders read as the same body, and where the response has an encoding, the
  -- gRPC leg returns that encoding, and the HTTP leg writes it with a line feed behind it: its response
  -- is one byte longer.
  pub echo_legs :
      (req out : Bytes) (b : Body r)
      → json.unmarshal req ≡ inr b
      → json.decode req ≡ inr b
      → json.marshal (echo_body r json b) ≡ inr out
      → (serve_unary echo_rpc req ≡ inr out)
        × (body_of (echo_handler r json (json.decode req)) ≡ out ++ (10 ∷ []))
        × (length (body_of (echo_handler r json (json.decode req))) ≡ length out + 1)
  unfolding echo_rpc echo_decoded or_text echo_handler write_json encoded json_head body_of
  echo_legs req out b unmarshalled decoded marshalled =
      let served : serve_unary echo_rpc req ≡ inr out =
        serve_unary_lem echo_rpc req ∙ rw (unmarshalled, marshalled) refl in
      rw (decoded, marshalled)
        (
          served,
          append-nil (out ++ (10 ∷ [])),
          omega (arith, ap length (append-nil (out ++ (10 ∷ []))), length-append out (10 ∷ [])),
        )
