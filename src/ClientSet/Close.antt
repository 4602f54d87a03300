-- ===== src/ClientSet/Close.antt =====
-- `Close` of the adapters of internal/clientset.
use poseidon_tests.Prelude.{Option, none, Bytes}
use poseidon_tests.ClientSet.Matrix.{
  Impl, poseidon_h1, std_h1, poseidon_h2, std_h2, poseidon_h3, quic_go_h3, poseidon_grpc, grpc_go,
  std_h1_pooled, std_h2_pooled,
}

-- The call of the library that an adapter makes: `CloseIdleConnections` of net/http, which returns
-- nothing, or `Close` of the client or of the connection.
pub data Closing : Type 0 where
  idle_connections client connection : Closing

-- The call, and the error that `Close` returns; `failure` is that of the library's own `Close`.
unfoldable pub std_close : Closing × Option Bytes
std_close = (idle_connections, none)

unfoldable pub std_pooled_close : Closing × Option Bytes
std_pooled_close = (idle_connections, none)

unfoldable pub poseidon_close : (failure : Option Bytes) → Closing × Option Bytes
poseidon_close failure = (client, failure)

unfoldable pub poseidon_grpc_close : (failure : Option Bytes) → Closing × Option Bytes
poseidon_grpc_close failure = (connection, failure)

unfoldable pub grpc_go_close : (failure : Option Bytes) → Closing × Option Bytes
grpc_go_close failure = (connection, failure)

-- The method of the interface, at the client that a constructor of `New` returns.
unfoldable pub close : Impl → (failure : Option Bytes) → Closing × Option Bytes
close std_h1 failure = std_close
close std_h2 failure = std_close
close quic_go_h3 failure = std_close
close std_h1_pooled failure = std_pooled_close
close std_h2_pooled failure = std_pooled_close
close poseidon_h1 failure = poseidon_close failure
close poseidon_h2 failure = poseidon_close failure
close poseidon_h3 failure = poseidon_close failure
close poseidon_grpc failure = poseidon_grpc_close failure
close grpc_go failure = grpc_go_close failure
