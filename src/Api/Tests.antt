-- ===== src/Api/Tests.antt =====
-- The handlers' theorems at concrete inputs.
use poseidon_tests.Prelude.{false, ◌≡◌, List, ◌∷◌, ◌++◌, Bytes, codes, arith, true, []}
use poseidon_tests.Go.Outcome.{ok}
use poseidon_tests.Samples.{counting, plain_json}
use poseidon_tests.Scenario.{all, fetch, stream}
use poseidon_tests.Scenario.PathPool.Variants.{fetch_text, stream_text}
use poseidon_tests.Api.Handlers.{Event, fetch_handler, stream_handler}
use poseidon_tests.Api.Stream.{joined, elements}
use poseidon_tests.Api.Flushes.{pieces, stream_pieces, stream_handler-pieces}
use poseidon_tests.Api.Fetch.{IsFetchReply, fetch_handler-fetch_text}

fetch_handler-fetch_text_example :
    (query : Bytes) × (fetch_text 1203 ≡ (all fetch).path ++ (b'?' ∷ query))
    × (events : List Event) × (fetch_handler counting plain_json 1 query ≡ ok events)
    × IsFetchReply counting plain_json 7 1203 events
fetch_handler-fetch_text_example = fetch_handler-fetch_text counting plain_json 1 1203 (omega arith)

stream_handler-pieces_example :
    (query : Bytes) × (stream_text 20 ≡ (all stream).path ++ (b'?' ∷ query))
    × (pieces [] (stream_handler true query) ≡ stream_pieces 5)
    × (pieces [] (stream_handler false query)
        ≡ (codes "{\"chunks\":[" ++ (joined (elements 6 0) ++ codes "]}")) ∷ [])
stream_handler-pieces_example = stream_handler-pieces 20
