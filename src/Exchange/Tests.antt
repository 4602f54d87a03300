-- ===== src/Exchange/Tests.antt =====
-- Witnesses of the closed loop: a router that takes the first route, targets cut by hand, and a client
-- that hands requests to the target.
use poseidon_tests.Prelude.{
  Option, drop, none, none, ℕ, ◌≡◌, ◌≢◌, refl, ap, true, false, List, [], ◌∷◌, ◌++◌, some, Bytes,
  codes, inl, inr, ◌⊎◌, arith, All, text_eq, text_eq_iff, if◌then◌else◌, ◌==◌, length, map,
}
use poseidon_tests.Samples.{counting, lenient_json, one_body, single, single_valid, pair}
use poseidon_tests.Go.Outcome.{Outcome, ok, err, panic}
use poseidon_tests.Payload.Generator.{
  new_generator, next, roll, pick_class, item_count, make_tags, make_item, make_items,
}
use poseidon_tests.Payload.Pool.{fill, fill_pool, new_pool}
use poseidon_tests.Payload.Pool.Filled.{IsFilled, built-IsFilled}
use poseidon_tests.Weighted.{pick, total, choose}
use poseidon_tests.Go.Strconv
use poseidon_tests.Scenario.PathPool.{PathPool, new_path_pool}
use poseidon_tests.Scenario.PathPool.Variants.{fitting_paths}
use poseidon_tests.Api.Handlers.{Event}
use poseidon_tests.Api.Stream.{body_of}
use poseidon_tests.Api.Router.{Route, Found, found, no_method, no_route, Router, status_of}
use poseidon_tests.ClientSet.{Call, Result}
use poseidon_tests.ClientSet.Adapters.{
  Http, HttpRequest, HttpResponse, with_type, std_do, poseidon_do, PoseidonRequest,
  PoseidonResponse,
}
use poseidon_tests.Driver.Counters.{Op}
use poseidon_tests.Driver.Worker.{run_worker}
use poseidon_tests.Driver.Race.Invariant.{starts}
use poseidon_tests.Api.{route_echo}
use poseidon_tests.RawGrpc.{serve_unary}
use poseidon_tests.Target.{echo_rpc}
use poseidon_tests.ClientSet.Grpc.{grpc_go_do, grpc_go_do-poseidon_grpc_do}
use poseidon_tests.Exchange.Rpc.{run_worker_closes_rpc}
use poseidon_tests.Exchange.{Urls, Codes, Delivers, HttpDelivers, answer}
use poseidon_tests.Exchange.Rounds.{Succeeds, errors, refusals, missing, reply_to}
use poseidon_tests.Exchange.Closed.{run_worker_closes}

choose_first : List Route → Bytes → Bytes → Found
choose_first [] method path = no_route
choose_first (r ∷ table) method path =
    let rest = choose_first table method path in
    if text_eq r.pattern path
    then (if text_eq r.method method then found r.endpoint else no_method)
    else rest

text_eq_same : (s : Bytes) → text_eq s s ≡ true
text_eq_same s = (text_eq_iff s s).1 refl

choose_first-append :
    (before after : List Route) (r : Route)
    → All (λ (o : Route). text_eq o.pattern r.pattern ≡ false) (before ++ after)
    → choose_first (before ++ (r ∷ after)) r.method r.pattern ≡ found r.endpoint
unfolding choose_first
choose_first-append [] after r h = rw (text_eq_same r.pattern, text_eq_same r.method) refl
choose_first-append (o ∷ before) after r h = rw h.0 (choose_first-append before after r h.1)

choose_first-none :
    (table : List Route) (method path : Bytes)
    → All (λ (o : Route). text_eq o.pattern path ≡ false) table
    → choose_first table method path ≡ no_route
unfolding choose_first
choose_first-none [] method path h = refl
choose_first-none (o ∷ table) method path h = rw h.0 (choose_first-none table method path h.1)

abbrev first_route : Router
first_route = record {
  choose = choose_first;
  chooses = choose_first-append;
  misses = choose_first-none;
}

cut : Bytes → Bytes × Bytes
cut [] = ([], [])
cut (c ∷ s) = let (path, query) = cut s in if c == b'?' then ([], s) else (c ∷ path, query)

unmarked : (c : ℕ) → c ≢ b'?' → (c == b'?') ≡ false
unmarked c h = ground arith

cut-append :
    (path query : Bytes) → All (λ c. c ≢ b'?') path → cut (path ++ (b'?' ∷ query)) ≡ (path, query)
unfolding cut
cut-append [] query h = refl
cut-append (c ∷ path) query h = rw (unmarked c h.0, cut-append path query h.1) refl

cut_whole : (path : Bytes) → All (λ c. c ≢ b'?') path → cut path ≡ (path, [])
unfolding cut
cut_whole [] h = refl
cut_whole (c ∷ path) h = rw (unmarked c h.0, cut_whole path h.1) refl

abbrev plain_urls : Urls
plain_urls = record { split = cut; splits = cut-append; keeps = cut_whole }

lenient-Codes : Codes lenient_json
lenient-Codes = record {
  encodes = λ b. (Strconv.format b.seq, refl);
  decodes = λ b text e. (one_body, refl);
  unmarshals = λ b text e. (one_body, refl);
}

abbrev handed : Outcome lenient_json.Error (List Event) → Bytes ⊎ PoseidonResponse
handed (ok events) = inr (record { status = status_of events; body = body_of events })
handed (err e) = inl (codes "closed")
handed panic = inl (codes "closed")

abbrev direct : PoseidonRequest → PoseidonResponse → Bytes ⊎ PoseidonResponse
direct req resp =
    handed (answer counting lenient_json 1 true first_route plain_urls req.method req.path req.body)

direct-Delivers : Delivers counting lenient_json 1 true first_route plain_urls direct
direct-Delivers = record { delivers = λ req events plain e. ap handed e }

lenient_built : new_pool counting lenient_json 1 0 single 2 ≡ ok pair
unfolding new_pool fill_pool fill next pick_class item_count make_items make_item make_tags roll
    new_generator total pick choose Strconv.format Strconv.digits
lenient_built = refl

lenient_pair-IsFilled : IsFilled counting lenient_json single 2 pair
lenient_pair-IsFilled = built-IsFilled counting lenient_json 1 0 single 2 single_valid lenient_built

lone_path : (p : PathPool) × (new_path_pool 1 ≡ some p)
lone_path = let (p, built, served) = fitting_paths 1 (omega arith) (omega arith) in (p, built)

-- net/http for the target behind `base`: the target is what follows it in the URL.
abbrev base : Bytes
base = codes "https://target:8443"

abbrev http_handed : Outcome lenient_json.Error (List Event) → Bytes ⊎ HttpResponse
http_handed (ok events) =
    inr (record { status_code = status_of events; body = inr (body_of events) })
http_handed (err e) = inl (codes "closed")
http_handed panic = inl (codes "closed")

abbrev direct_http : Http
direct_http = record {
  new_request = λ method url body.
      inr (record { method = method; url = url; body = body; content_type = none });
  round_trip = λ req. http_handed (
      answer counting lenient_json 1 true first_route plain_urls req.method (drop 19 req.url)
        req.body);
}

http_delivered :
    (method path : Bytes) (body : Option Bytes) (events : List Event)
    → answer counting lenient_json 1 true first_route plain_urls method path body ≡ ok events
    → (req : HttpRequest) × (direct_http.new_request method (base ++ path) body ≡ inr req)
      × (direct_http.round_trip (with_type body req)
          ≡ inr (record { status_code = status_of events; body = inr (body_of events) }))
unfolding with_type
http_delivered method path none events e = (_, refl, ap http_handed e)
http_delivered method path (some b) events e = (_, refl, ap http_handed e)

direct-HttpDelivers :
    HttpDelivers counting lenient_json 1 true first_route plain_urls direct_http base
direct-HttpDelivers = record {
  http_delivers = λ call events plain e. http_delivered call.method call.path call.body events e;
}

abbrev poseidon_arm : Call → Bytes ⊎ Result
poseidon_arm = poseidon_do direct (codes "target:8443") none

abbrev standard_arm : Call → Bytes ⊎ Result
standard_arm = std_do direct_http base

run_worker_closes_example :
    (calls : List Call) × (ops : List Op) × (run_worker counting pair lone_path.0 3 5
        (codes "h2")
        (map (reply_to poseidon_arm) calls)
      ≡ some (calls, ops))
    × (run_worker counting pair lone_path.0 3 5 (codes "h2") (map (reply_to standard_arm) calls)
        ≡ some (calls, ops))
    × (length calls ≡ 20)
    × (starts ops ≡ 20)
    × (errors ops ≡ 0)
    × (refusals ops ≡ missing calls)
    × All (Succeeds poseidon_arm) calls
run_worker_closes_example =
    run_worker_closes counting lenient_json lenient-Codes 1 true first_route plain_urls
      (codes "target:8443") direct-Delivers direct-HttpDelivers pair lone_path.0
      lenient_pair-IsFilled (omega arith) lone_path.1 3 5 (codes "h2") 20

abbrev carried : Bytes → Bytes → Bytes ⊎ Bytes
carried method msg = serve_unary (echo_rpc counting lenient_json (λ e. codes "invalid")) msg

run_worker_closes_rpc_example :
    (calls : List Call) × (ops : List Op) × (run_worker counting pair lone_path.0 3 5
        (codes "grpc")
        (map (reply_to (grpc_go_do carried)) calls)
      ≡ some (calls, ops))
    × (length calls ≡ 20)
    × (starts ops ≡ 20)
    × (errors ops ≡ 0)
    × (refusals ops ≡ 0)
    × All (λ (call : Call). call.path ≡ route_echo) calls
run_worker_closes_rpc_example =
    run_worker_closes_rpc counting lenient_json lenient-Codes (λ e. codes "invalid") carried
      (λ msg. refl) (grpc_go_do carried) (grpc_go_do-poseidon_grpc_do carried) pair lone_path.0
      lenient_pair-IsFilled 3 5 20
