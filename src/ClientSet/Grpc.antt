-- ===== src/ClientSet/Grpc.antt =====
-- The two gRPC adapters of internal/clientset, `poseidonGRPC.Do` and `grpcGo.Do`, over what a unary
-- call on the wire gives: the response message of a method for a request message, or an error.
use poseidon_tests.Prelude.{◌≡◌, refl, ap, [], Option, none, some, Bytes, ◌⊎◌, inl, inr, length}
use poseidon_tests.RawGrpc.{Any, bytes_pointer, full_method_echo, marshal, unmarshal, request_of}
use poseidon_tests.ClientSet.{Call, Result}

-- A nil body is an empty message.
unfoldable pub message_of : Option Bytes → Bytes
message_of none = []
message_of (some b) = b

unfoldable pub grpc_result : Bytes ⊎ Bytes → Bytes ⊎ Result
grpc_result (inl e) = inl e
grpc_result (inr resp) = inr (record { status = 200; body_len = length resp })

-- What grpc-go's `Invoke` leaves in `resp`.
unfoldable pub received : Bytes ⊎ Any → Bytes ⊎ Bytes
received (inl e) = inl e
received (inr v) = inr (request_of v)

unfoldable pub decode_into : Any → Bytes ⊎ Bytes → Bytes ⊎ Any
decode_into v (inl e) = inl e
decode_into v (inr msg) = unmarshal msg v

module _ (unary : Bytes → Bytes → Bytes ⊎ Bytes) where
  -- `poseidonGRPC.Do`
  unfoldable pub poseidon_grpc_do : Call → Bytes ⊎ Result
  poseidon_grpc_do call = grpc_result (unary full_method_echo (message_of call.body))

  unfoldable pub invoke_encoded : Bytes ⊎ Bytes → Any → Bytes ⊎ Any
  invoke_encoded (inl e) reply = inl e
  invoke_encoded (inr msg) reply = decode_into reply (unary full_method_echo msg)

  -- `grpcGo.Do`: `Invoke` encodes what `&req` points at with the codec, and decodes into `&resp`.
  unfoldable pub grpc_go_do : Call → Bytes ⊎ Result
  grpc_go_do call = grpc_result (
      received (invoke_encoded (marshal (bytes_pointer (message_of call.body))) (bytes_pointer [])))

  decoded_reply : (x : Bytes ⊎ Bytes) → received (decode_into (bytes_pointer []) x) ≡ x
  unfolding received decode_into unmarshal request_of
  decoded_reply (inl e) = refl
  decoded_reply (inr msg) = refl

  -- The two gRPC arms put the same message on the wire, and report the same result for the same
  -- answer, error or not: the codec of the one makes no difference to the other, which has none.
  pub grpc_go_do-poseidon_grpc_do : (call : Call) → grpc_go_do call ≡ poseidon_grpc_do call
  unfolding grpc_go_do poseidon_grpc_do invoke_encoded marshal
  grpc_go_do-poseidon_grpc_do call =
      ap grpc_result (decoded_reply (unary full_method_echo (message_of call.body)))
