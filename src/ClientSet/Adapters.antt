-- ===== src/ClientSet/Adapters.antt =====
-- The three HTTP adapters of internal/clientset: `stdHTTP.Do`, `stdHTTPPooled.Do` and
-- `poseidonHTTP.Do`, over the client libraries as parameters.
use poseidon_tests.Prelude.{
  ℕ, ◌≡◌, refl, [], ◌++◌, Option, none, some, Bytes, codes, ◌⊎◌, inl, inr, length,
}
use poseidon_tests.ClientSet.{Call, Result}

-- The request of net/http.
pub record HttpRequest : Type 0 where
  pub method : Bytes
  pub url : Bytes
  pub body : Option Bytes
  pub content_type : Option Bytes

-- The response of net/http: what reading the body to its end gives is a part of it.
pub record HttpResponse : Type 0 where
  pub status_code : ℕ
  pub body : Bytes ⊎ Bytes

-- What the adapters use of net/http; an error is on the left.
pub record Http : Type 0 where
  pub new_request : Bytes → Bytes → Option Bytes → Bytes ⊎ HttpRequest
  pub round_trip : HttpRequest → Bytes ⊎ HttpResponse

-- `if call.Body != nil { req.Header.Set("Content-Type", "application/json") }`
unfoldable pub with_type : Option Bytes → HttpRequest → HttpRequest
with_type none req = req
with_type (some b) req = record req { content_type = some (codes "application/json") }

unfoldable pub read_all : ℕ → Bytes ⊎ Bytes → Bytes ⊎ Result
read_all status (inl e) = inl e
read_all status (inr body) = inr (record { status = status; body_len = length body })

-- A buffer of the pool: nothing where the pool was empty, or one with what it holds.
unfoldable pub buffer_of : Option Bytes → Bytes
buffer_of none = []
buffer_of (some buf) = buf

-- `buf.ReadFrom`, which appends, and the buffer behind it; the result counts what was read.
unfoldable pub read_from : ℕ → Bytes → Bytes ⊎ Bytes → (Bytes ⊎ Result) × Bytes
read_from status buf (inl e) = (inl e, buf)
read_from status buf (inr body) =
    (inr (record { status = status; body_len = length body }), buf ++ body)

-- The deferred function: the buffer is emptied and put back.
unfoldable pub put_back : (Bytes ⊎ Result) × Bytes → (Bytes ⊎ Result) × Option Bytes
put_back (res, buf) = (res, some [])

module _ (http : Http) (base : Bytes) where
  unfoldable pub on_response : Bytes ⊎ HttpResponse → Bytes ⊎ Result
  on_response (inl e) = inl e
  on_response (inr resp) = read_all resp.status_code resp.body

  unfoldable pub on_request : Option Bytes → Bytes ⊎ HttpRequest → Bytes ⊎ Result
  on_request body (inl e) = inl e
  on_request body (inr req) = on_response (http.round_trip (with_type body req))

  -- `stdHTTP.Do`
  unfoldable pub std_do : Call → Bytes ⊎ Result
  std_do call = on_request call.body (http.new_request call.method (base ++ call.path) call.body)

  -- The result, and the buffer that is put into the pool, if one was taken.
  unfoldable pub pooled_response :
      Option Bytes → Bytes ⊎ HttpResponse → (Bytes ⊎ Result) × Option Bytes
  pooled_response got (inl e) = (inl e, none)
  pooled_response got (inr resp) = put_back (read_from resp.status_code (buffer_of got) resp.body)

  unfoldable pub pooled_request :
      Option Bytes → Option Bytes → Bytes ⊎ HttpRequest → (Bytes ⊎ Result) × Option Bytes
  pooled_request got body (inl e) = (inl e, none)
  pooled_request got body (inr req) = pooled_response got (http.round_trip (with_type body req))

  -- `stdHTTPPooled.Do`, where `got` is what `bufPool.Get` gives.
  unfoldable pub std_pooled_do : Option Bytes → Call → (Bytes ⊎ Result) × Option Bytes
  std_pooled_do got call =
      pooled_request got call.body (http.new_request call.method (base ++ call.path) call.body)

  read_from-read_all :
      (status : ℕ) (buf : Bytes) (body : Bytes ⊎ Bytes)
      → (put_back (read_from status buf body)).0 ≡ read_all status body
  unfolding put_back read_from read_all
  read_from-read_all status buf (inl e) = refl
  read_from-read_all status buf (inr body) = refl

  response-response :
      (got : Option Bytes) (x : Bytes ⊎ HttpResponse) → (pooled_response got x).0 ≡ on_response x
  unfolding pooled_response on_response
  response-response got (inl e) = refl
  response-response got (inr resp) = read_from-read_all resp.status_code (buffer_of got) resp.body

  request-request :
      (got body : Option Bytes) (x : Bytes ⊎ HttpRequest)
      → (pooled_request got body x).0 ≡ on_request body x
  unfolding pooled_request on_request
  request-request got body (inl e) = refl
  request-request got body (inr req) = response-response got (http.round_trip (with_type body req))

  -- The pooled adapter returns what the standard one returns, error or result, whatever the buffer
  -- holds that it got from the pool.
  pub std_pooled_do-std_do :
      (got : Option Bytes) (call : Call) → (std_pooled_do got call).0 ≡ std_do call
  unfolding std_pooled_do std_do
  std_pooled_do-std_do got call =
      request-request got call.body (http.new_request call.method (base ++ call.path) call.body)

-- The request and the response of the poseidon client.
pub record PoseidonRequest : Type 0 where
  pub method : Bytes
  pub scheme : Bytes
  pub authority : Bytes
  pub path : Bytes
  pub body : Option Bytes

pub record PoseidonResponse : Type 0 where
  pub status : ℕ
  pub body : Bytes

unfoldable pub to_request : Bytes → Call → PoseidonRequest
to_request host call = record {
  method = call.method;
  scheme = codes "https";
  authority = host;
  path = call.path;
  body = call.body;
}

unfoldable pub to_result : Bytes ⊎ PoseidonResponse → Bytes ⊎ Result
to_result (inl e) = inl e
to_result (inr resp) = inr (record { status = resp.status; body_len = length resp.body })

-- What the client library does with a request and the response it is given: an error, or the response
-- as it has filled it.
abbrev pub Client : Type 0
Client = PoseidonRequest → PoseidonResponse → Bytes ⊎ PoseidonResponse

-- `pclient.Response{}`, which is also what `Reset` leaves.
abbrev pub blank : PoseidonResponse
blank = record { status = 0; body = [] }

-- What the pool gives, or a new response where it gives nil.
unfoldable pub response_of : Option PoseidonResponse → PoseidonResponse
response_of none = blank
response_of (some resp) = resp

-- `poseidonHTTP.Do`, where `got` is what `respPool.Get` gives.
unfoldable pub poseidon_do : Client → Bytes → Option PoseidonResponse → Call → Bytes ⊎ Result
poseidon_do client host got call = to_result (client (to_request host call) (response_of got))

-- Two libraries that answer a call alike: they fail with one error, or both have the status and the
-- whole body.
pub data Alike : Bytes ⊎ HttpResponse → Bytes ⊎ PoseidonResponse → Type 0 where
  failed : (e : Bytes) → Alike (inl e) (inl e)
  answered :
      (status : ℕ) (body : Bytes)
      → Alike
          (inr (record { status_code = status; body = inr body }))
          (inr (record { status = status; body = body }))

Alike-result :
    (http : Http) (base : Bytes) {x : Bytes ⊎ HttpResponse} {y : Bytes ⊎ PoseidonResponse}
    → Alike x y
    → on_response http base x ≡ to_result y
unfolding on_response read_all to_result
Alike-result http base (failed e) = refl
Alike-result http base (answered status body) = refl

-- Where net/http makes a request of the call, and the two libraries answer it alike, the two arms
-- report the same result: the same status and the same number of body bytes, or the same error.
pub std_do-poseidon_do :
    (http : Http) (client : Client) (host : Bytes) (got : Option PoseidonResponse) (call : Call)
    (req : HttpRequest)
    → http.new_request call.method (codes "https://" ++ host ++ call.path) call.body ≡ inr req
    → Alike
        (http.round_trip (with_type call.body req))
        (client (to_request host call) (response_of got))
    → std_do http (codes "https://" ++ host) call ≡ poseidon_do client host got call
unfolding std_do on_request poseidon_do
std_do-poseidon_do http client host got call req made alike =
    rw made (Alike-result http (codes "https://" ++ host) alike)
