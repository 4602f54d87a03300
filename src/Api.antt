-- ===== src/Api.antt =====
-- internal/api/api.go: the target's HTTP handlers, and the routes by which requests reach them.
pub mod Query
pub mod Handlers
pub mod Stream
pub mod Flushes
pub mod Fetch
pub mod Router
mod Tests
use poseidon_tests.Prelude.{Bytes, codes}

abbrev pub route_echo : Bytes
route_echo = codes "/v1/echo"

abbrev pub route_fetch : Bytes
route_fetch = codes "/v1/fetch"

abbrev pub route_ingest : Bytes
route_ingest = codes "/v1/ingest"

abbrev pub route_stream : Bytes
route_stream = codes "/v1/stream"

abbrev pub route_not_found : Bytes
route_not_found = codes "/v1/missing"

abbrev pub route_health : Bytes
route_health = codes "/healthz"
