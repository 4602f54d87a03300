-- ===== src/Api/Handlers.antt =====
-- The handlers of internal/api/api.go, as the sequence of what they do to the response writer.
use poseidon_tests.Prelude.{
  Bool, ℕ, zero, suc, ◌+◌, ◌%◌, List, [], ◌∷◌, ◌++◌, Option, none, some, Bytes, codes, ◌⊎◌, inl,
  inr, if◌then◌else◌, is_neg, ltb,
}
use poseidon_tests.Go.Rand.{Rand}
use poseidon_tests.Go.Outcome.{Outcome, ok, err, panic}
use poseidon_tests.Go.Strconv.{format}
use poseidon_tests.Payload.{Body, Json, size_class}
use poseidon_tests.Payload.Generator
use poseidon_tests.Payload.Generator.{Generator}
use poseidon_tests.Api.Query.{int_param}

pub data Event : Type 0 where
  content_type : Bytes → Event
  status_code : ℕ → Event
  wrote : Bytes → Event
  flushed : Event

-- `http.Error`: the message is followed by a line feed.
unfoldable pub http_error : Bytes → ℕ → List Event
http_error msg code =
    content_type (codes "text/plain; charset=utf-8")
    ∷ status_code code
    ∷ wrote (msg ++ (10 ∷ []))
    ∷ []

unfoldable pub json_head : ℕ → List Event
json_head status = content_type (codes "application/json") ∷ status_code status ∷ []

unfoldable pub health : List Event
health = status_code 200 ∷ wrote (codes "ok") ∷ []

unfoldable pub not_found_handler : List Event
not_found_handler = http_error (codes "not found") 404

-- The number of bytes that `io.Copy` read, or nothing if it failed.
unfoldable pub ingest_handler : Option ℕ → List Event
ingest_handler none = http_error (codes "read") 400
ingest_handler (some n) =
    json_head 200 ++ (wrote (codes "{\"received\":" ++ (format n ++ codes "}")) ∷ [])

-- The bytes of the pad from index `i` on, `left` of them.
unfoldable pub pad_from : ℕ → ℕ → Bytes
pad_from zero i = []
pad_from (suc left) i = (b'a' + i % 26) ∷ pad_from left (i + 1)

unfoldable pub stream_pad : Bytes
stream_pad = pad_from 512 0

-- The round `i` of the loop over the chunks.
unfoldable pub chunk : Bool → ℕ → List Event
chunk can_flush i =
    (if ltb 0 i then wrote (codes ",") ∷ [] else [])
    ++ (wrote (codes "{\"i\":" ++ (format i ++ codes ",\"pad\":\""))
        ∷ wrote stream_pad
        ∷ wrote (codes "\"}")
        ∷ (if can_flush then flushed ∷ [] else []))

-- The rounds from `i` on, `left` of them.
unfoldable pub chunks_from : Bool → ℕ → ℕ → List Event
chunks_from can_flush zero i = []
chunks_from can_flush (suc left) i = chunk can_flush i ++ chunks_from can_flush left (i + 1)

unfoldable pub stream_handler : Bool → Bytes → List Event
stream_handler can_flush query =
    let chunks = int_param query (codes "chunks") 8 in
    json_head 200
    ++ (wrote (codes "{\"chunks\":[")
        ∷ (chunks_from can_flush (if is_neg chunks then 0 else chunks) 0
            ++ (wrote (codes "]}") ∷ [])))

module _ (r : Rand) (json : Json r) where
  -- `Encode` writes the encoding and a line feed, or nothing if it fails.
  unfoldable pub encoded : json.Error ⊎ Bytes → List Event
  encoded (inl e) = []
  encoded (inr b) = wrote (b ++ (10 ∷ [])) ∷ []

  unfoldable pub write_json : ℕ → Body r → List Event
  write_json status v = json_head status ++ encoded (json.marshal v)

  unfoldable pub echo_body : Body r → Body r
  echo_body b = record { seq = b.seq; scenario = codes "echo"; items = b.items }

  -- The argument is what `Decode` returned.
  unfoldable pub echo_handler : json.Error ⊎ Body r → List Event
  echo_handler (inl e) = http_error (codes "bad json") 400
  echo_handler (inr b) = write_json 200 (echo_body b)

  -- What `g.Next` makes of the response; a panic is handed to the server.
  unfoldable pub fetched :
      Outcome json.Error (Bytes × Generator r) → Outcome json.Error (List Event)
  fetched (ok (b, g)) = ok (json_head 200 ++ (wrote b ∷ []))
  fetched (err e) = ok (http_error (codes "gen") 500)
  fetched panic = panic

  unfoldable pub fetch_handler : ℕ → Bytes → Outcome json.Error (List Event)
  fetch_handler seed query =
      let n = int_param query (codes "n") 16 in
      let seq = int_param query (codes "seq") 0 in
      let g = Generator.new_generator r seed n (size_class n n 1 ∷ []) in
      fetched (Generator.next r json g seq (codes "fetch"))
