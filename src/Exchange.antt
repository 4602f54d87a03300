-- ===== src/Exchange.antt =====
-- The driver's calls meet the target's handlers: `poseidonHTTP.Do` at one end, `Handler` at the other,
-- and between them a client library that delivers.
pub mod Plain
pub mod Answers
pub mod Arms
pub mod Rounds
pub mod Worker
pub mod Closed
pub mod Rpc
mod Tests
use poseidon_tests.Prelude.{
  ◌⊎◌, length, ℕ, Bool, List, [], ◌∷◌, ◌++◌, Option, none, some, Bytes, inr, All, ◌≡◌, ◌≢◌,
}
use poseidon_tests.Go.Rand.{Rand}
use poseidon_tests.Go.Outcome.{Outcome, ok}
use poseidon_tests.Payload.{Body, Json}
use poseidon_tests.Api.Handlers.{Event}
use poseidon_tests.Api.Stream.{body_of}
use poseidon_tests.Api.Router.{Router, handler, status_of}
use poseidon_tests.Exchange.Plain.{IsPlain}
use poseidon_tests.ClientSet.{Call, Result}
use poseidon_tests.ClientSet.Adapters.{Http, HttpRequest, with_type, PoseidonRequest, Client, blank}

-- net/url: a target is cut at its first question mark.
pub record Urls : Type 0 where
  pub split : Bytes → Bytes × Bytes
  pub splits :
      (path query : Bytes)
      → All (λ c. c ≢ b'?') path
      → split (path ++ (b'?' ∷ query)) ≡ (path, query)
  pub keeps : (path : Bytes) → All (λ c. c ≢ b'?') path → split path ≡ (path, [])

-- encoding/json: every body of the program has an encoding, and every encoding can be decoded.
pub record Codes {r : Rand} (json : Json r) : Type 0 where
  pub encodes : (b : Body r) → (text : Bytes) × (json.marshal b ≡ inr text)
  pub decodes :
      (b : Body r) (text : Bytes)
      → json.marshal b ≡ inr text
      → (b' : Body r) × (json.decode text ≡ inr b')
  pub unmarshals :
      (b : Body r) (text : Bytes)
      → json.marshal b ≡ inr text
      → (b' : Body r) × (json.unmarshal text ≡ inr b')

abbrev content_of : Option Bytes → Bytes
content_of none = []
content_of (some b) = b

module _ (r : Rand) (json : Json r) (seed : ℕ) (can_flush : Bool) (router : Router)
    (urls : Urls) where
  -- What the target does with a request.
  abbrev pub answer : (method target : Bytes) → Option Bytes → Outcome json.Error (List Event)
  answer method target body = handler r json seed can_flush router (record {
    method = method;
    path = (urls.split target).0;
    query = (urls.split target).1;
    body = content_of body;
  })

  -- An adapter that returns the status and the body's length of what the target answers to a plain
  -- request.
  abbrev pub Returns : (call_client : Call → Bytes ⊎ Result) → Type 0
  Returns call_client =
      (call : Call) (events : List Event)
      → IsPlain call.method call.path call.body
      → answer call.method call.path call.body ≡ ok events
      → call_client call
        ≡ inr (record { status = status_of events; body_len = length (body_of events) })

  -- A poseidon client that delivers: where the target answers a plain request, it returns the status
  -- and the whole body of the answer.
  pub record Delivers (client : Client) : Type 0 where
    pub delivers :
        (req : PoseidonRequest) (events : List Event)
        → IsPlain req.method req.path req.body
        → answer req.method req.path req.body ≡ ok events
        → client req blank ≡ inr (record { status = status_of events; body = body_of events })

  -- A net/http that delivers plain requests to the target that stands behind `base`.
  pub record HttpDelivers (http : Http) (base : Bytes) : Type 0 where
    pub http_delivers :
        (call : Call) (events : List Event)
        → IsPlain call.method call.path call.body
        → answer call.method call.path call.body ≡ ok events
        → (req : HttpRequest) × (http.new_request call.method (base ++ call.path) call.body
            ≡ inr req)
          × (http.round_trip (with_type call.body req)
              ≡ inr (record { status_code = status_of events; body = inr (body_of events) }))
