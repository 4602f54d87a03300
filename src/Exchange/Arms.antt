-- ===== src/Exchange/Arms.antt =====
-- The adapters of the HTTP arms over libraries that deliver.
use poseidon_tests.Prelude.{ℕ, refl, ◌∙◌, Bool, Option, none, Bytes}
use poseidon_tests.Go.Rand.{Rand}
use poseidon_tests.Payload.{Json}
use poseidon_tests.Api.Router.{Router}
use poseidon_tests.ClientSet.Adapters.{
  Client, Http, poseidon_do, response_of, to_request, to_result, std_do, std_pooled_do,
  std_pooled_do-std_do, on_request, on_response, read_all,
}
use poseidon_tests.Exchange.{Urls, Returns, Delivers, HttpDelivers}

module _ (r : Rand) (json : Json r) (seed : ℕ) (can_flush : Bool) (router : Router)
    (urls : Urls) where
  pub poseidon_do-Returns :
      (client : Client) (host : Bytes)
      → Delivers r json seed can_flush router urls client
      → Returns r json seed can_flush router urls (poseidon_do client host none)
  unfolding poseidon_do response_of to_request to_result
  poseidon_do-Returns client host d call events plain answered =
      rw (d.delivers (to_request host call) events plain answered) refl

  pub std_do-Returns :
      (http : Http) (base : Bytes)
      → HttpDelivers r json seed can_flush router urls http base
      → Returns r json seed can_flush router urls (std_do http base)
  unfolding std_do on_request on_response read_all
  std_do-Returns http base d call events plain answered =
      let (req, made, replied) = d.http_delivers call events plain answered in
      rw (made, replied) refl

  pub std_pooled_do-Returns :
      (http : Http) (base : Bytes) (got : Option Bytes)
      → HttpDelivers r json seed can_flush router urls http base
      → Returns r json seed can_flush router urls (λ call. (std_pooled_do http base got call).0)
  std_pooled_do-Returns http base got d call events plain answered =
      std_pooled_do-std_do http base got call
      ∙ std_do-Returns http base d call events plain answered
