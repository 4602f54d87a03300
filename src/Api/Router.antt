-- ===== src/Api/Router.antt =====
-- `Handler` of internal/api/api.go as a whole: the routes that it registers, over chi's router as a
-- parameter, and what a request is answered with.
use poseidon_tests.Prelude.{
  ℕ, Bool, false, List, [], ◌∷◌, ◌++◌, some, Bytes, codes, length, All, text_eq, ◌≡◌,
}
use poseidon_tests.Go.Rand.{Rand}
use poseidon_tests.Go.Outcome.{Outcome, ok}
use poseidon_tests.Payload.{Json}
use poseidon_tests.Api.{route_echo, route_fetch, route_ingest, route_stream, route_health}
use poseidon_tests.Api.Handlers.{
  Event, status_code, health, echo_handler, ingest_handler, fetch_handler, stream_handler,
  not_found_handler,
}

-- The handlers that are registered.
pub data Endpoint : Type 0 where
  at_health at_echo at_ingest at_fetch at_stream : Endpoint

pub record Route : Type 0 where
  pub method : Bytes
  pub pattern : Bytes
  pub endpoint : Endpoint

abbrev route : (method pattern : Bytes) → Endpoint → Route
route method pattern endpoint = record { method = method; pattern = pattern; endpoint = endpoint }

-- The calls of `r.Get` and `r.Post`, in order.
abbrev pub routes : List Route
routes =
    route (codes "GET") route_health at_health
    ∷ route (codes "POST") route_echo at_echo
    ∷ route (codes "POST") route_ingest at_ingest
    ∷ route (codes "GET") route_fetch at_fetch
    ∷ route (codes "GET") route_stream at_stream
    ∷ []

-- What a router finds for a method and a path.
pub data Found : Type 0 where
  found : Endpoint → Found
  no_method no_route : Found

-- chi, on patterns without parameters: a request reaches the route with its method and path, where no
-- other route has that path; and none where no route has it.
pub record Router : Type 0 where
  pub choose : List Route → (method path : Bytes) → Found
  pub chooses :
      (before after : List Route) (r : Route)
      → All (λ (o : Route). text_eq o.pattern r.pattern ≡ false) (before ++ after)
      → choose (before ++ (r ∷ after)) r.method r.pattern ≡ found r.endpoint
  pub misses :
      (table : List Route) (method path : Bytes)
      → All (λ (o : Route). text_eq o.pattern path ≡ false) table
      → choose table method path ≡ no_route

-- A request whose body can be read to its end.
pub record Request : Type 0 where
  pub method : Bytes
  pub path : Bytes
  pub query : Bytes
  pub body : Bytes

module _ (r : Rand) (json : Json r) (seed : ℕ) (can_flush : Bool) where
  unfoldable pub run_endpoint : Endpoint → Request → Outcome json.Error (List Event)
  run_endpoint at_health req = ok health
  run_endpoint at_echo req = ok (echo_handler r json (json.decode req.body))
  run_endpoint at_ingest req = ok (ingest_handler (some (length req.body)))
  run_endpoint at_fetch req = fetch_handler r json seed req.query
  run_endpoint at_stream req = ok (stream_handler can_flush req.query)

  -- The router's own answer to a wrong method is status 405.
  unfoldable pub respond : Found → Request → Outcome json.Error (List Event)
  respond (found e) req = run_endpoint e req
  respond no_method req = ok (status_code 405 ∷ [])
  respond no_route req = ok not_found_handler

  unfoldable pub handler : Router → Request → Outcome json.Error (List Event)
  handler router req = respond (router.choose routes req.method req.path) req

-- The status of a response: the first that is written, and 200 where none is.
unfoldable pub status_of : List Event → ℕ
status_of [] = 200
status_of (status_code code ∷ es) = code
status_of (e ∷ es) = status_of es
