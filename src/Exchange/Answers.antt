-- ===== src/Exchange/Answers.antt =====
-- What the target answers to each of the driver's calls.
use poseidon_tests.Prelude.{
  ℕ, ◌<◌, ◌≡◌, refl, Bool, List, [], ◌∷◌, ◌++◌, Option, none, some, Bytes, codes, inl, inr, half,
}
use poseidon_tests.Go.Rand.{Rand}
use poseidon_tests.Go.Outcome.{ok}
use poseidon_tests.Go.Strings.{without_lem}
use poseidon_tests.Payload.{Body, Json}
use poseidon_tests.Api.{
  route_health, route_echo, route_fetch, route_ingest, route_stream, route_not_found,
}
use poseidon_tests.Api.Handlers.{
  Event, json_head, echo_handler, write_json, ingest_handler, stream_handler, not_found_handler,
  http_error,
}
use poseidon_tests.Api.Router.{
  Router, Route, routes, found, no_route, run_endpoint, respond, handler, status_of, at_echo,
  at_ingest, at_fetch, at_stream, at_health, Endpoint,
}
use poseidon_tests.Api.Fetch.{fetch_handler-fetch_text, IsFetchReply}
use poseidon_tests.Scenario.PathPool.Variants.{fetch_text}
use poseidon_tests.Scenario.{all}
use poseidon_tests.Exchange.{Urls, answer}

abbrev row : (method pattern : Bytes) → Endpoint → Route
row method pattern endpoint = record { method = method; pattern = pattern; endpoint = endpoint }

abbrev health_row : Route
health_row = row (codes "GET") route_health at_health

abbrev echo_row : Route
echo_row = row (codes "POST") route_echo at_echo

abbrev ingest_row : Route
ingest_row = row (codes "POST") route_ingest at_ingest

abbrev fetch_row : Route
fetch_row = row (codes "GET") route_fetch at_fetch

abbrev stream_row : Route
stream_row = row (codes "GET") route_stream at_stream

-- Where a driver's call goes.
module _ (router : Router) where
  echo_found : router.choose routes (codes "POST") route_echo ≡ found at_echo
  echo_found =
      router.chooses (health_row ∷ []) (ingest_row ∷ fetch_row ∷ stream_row ∷ []) echo_row
        (refl, (refl, (refl, (refl, tt))))

  ingest_found : router.choose routes (codes "POST") route_ingest ≡ found at_ingest
  ingest_found =
      router.chooses (health_row ∷ echo_row ∷ []) (fetch_row ∷ stream_row ∷ []) ingest_row
        (refl, (refl, (refl, (refl, tt))))

  fetch_found : router.choose routes (codes "GET") route_fetch ≡ found at_fetch
  fetch_found =
      router.chooses (health_row ∷ echo_row ∷ ingest_row ∷ []) (stream_row ∷ []) fetch_row
        (refl, (refl, (refl, (refl, tt))))

  stream_found : router.choose routes (codes "GET") route_stream ≡ found at_stream
  stream_found =
      router.chooses (health_row ∷ echo_row ∷ ingest_row ∷ fetch_row ∷ []) [] stream_row
        (refl, (refl, (refl, (refl, tt))))

  nothing_found : router.choose routes (codes "GET") route_not_found ≡ no_route
  nothing_found =
      router.misses routes (codes "GET") route_not_found (refl, (refl, (refl, (refl, (refl, tt)))))

module _ (r : Rand) (json : Json r) (seed : ℕ) (can_flush : Bool) (router : Router)
    (urls : Urls) where
  -- The target answers with this status.
  abbrev pub IsAnswered : (method target : Bytes) → Option Bytes → ℕ → Type 0
  IsAnswered method target body status =
      (events : List Event) × (answer r json seed can_flush router urls method target body
        ≡ ok events)
      × (status_of events ≡ status)

  pub echo_answer :
      (b : Bytes) (v : Body r)
      → json.decode b ≡ inr v
      → IsAnswered (codes "POST") route_echo (some b) 200
  unfolding handler respond run_endpoint echo_handler write_json json_head status_of
  echo_answer b v e =
      rw (urls.keeps route_echo (without_lem b'?' route_echo refl), echo_found router, e)
        (_, refl, refl)

  pub ingest_answer : (b : Bytes) → IsAnswered (codes "POST") route_ingest (some b) 200
  unfolding handler respond run_endpoint ingest_handler json_head status_of
  ingest_answer b =
      rw (urls.keeps route_ingest (without_lem b'?' route_ingest refl), ingest_found router)
        (_, refl, refl)

  pub missing_answer : IsAnswered (codes "GET") route_not_found none 404
  unfolding handler respond not_found_handler http_error status_of
  missing_answer =
      rw (urls.keeps route_not_found (without_lem b'?' route_not_found refl), nothing_found router)
        (_, refl, refl)

  pub stream_answer :
      (query : Bytes) → IsAnswered (codes "GET") (route_stream ++ (b'?' ∷ query)) none 200
  unfolding handler respond run_endpoint stream_handler json_head status_of
  stream_answer query =
      rw (urls.splits route_stream query (without_lem b'?' route_stream refl), stream_found router)
        (_, refl, refl)

  status_of-fetched :
      ((b : Body r) → (text : Bytes) × (json.marshal b ≡ inr text))
      → (n i : ℕ) (events : List Event) → IsFetchReply r json n i events
      → status_of events ≡ 200
  unfolding status_of json_head
  status_of-fetched encodes n i events (body, sized, inl (b, marshalled, same)) = rw same refl
  status_of-fetched encodes n i events (body, sized, inr (e, refused, same)) =
      let (text, marshalled) = encodes body in absurd (cc)

  pub fetch_answer :
      ((b : Body r) → (text : Bytes) × (json.marshal b ≡ inr text))
      → (i : ℕ) → i < half
      → IsAnswered (codes "GET") (fetch_text i) none 200
  unfolding handler respond run_endpoint all
  fetch_answer encodes i h =
      let (query, same, events, answered, reply) = fetch_handler-fetch_text r json seed i h in
      rw same (
        rw (urls.splits route_fetch query (without_lem b'?' route_fetch refl), fetch_found router)
          (events, answered, status_of-fetched encodes _ i events reply))
