-- ===== src/Api/Stream.antt =====
-- What the stream handler writes.
use poseidon_tests.Prelude.{
  ◌*◌, Bool, true, false, ℕ, zero, suc, ◌+◌, ◌%◌, ◌≡◌, refl, sym, ap, ◌∙◌, List, [], ◌∷◌, ◌++◌,
  append_assoc, Bytes, codes, arith, half, is_neg, ltb, lt→leb,
}
use poseidon_tests.Go.Strconv.{format}
use poseidon_tests.Api.Query.{
  int_param, value_of, pair, IsPlain, format-IsPlain, get_only, value_of-format, int_param_lt,
}
use poseidon_tests.Api.Handlers.{
  Event, content_type, status_code, wrote, flushed, json_head, stream_pad, chunk, chunks_from,
  stream_handler,
}
use poseidon_tests.Scenario.{all, stream}
use poseidon_tests.Scenario.PathPool.Variants.{stream_text, chunks_at}

-- The response body, and the number of flushes.
unfoldable pub body_of : List Event → Bytes
body_of [] = []
body_of (wrote b ∷ es) = b ++ body_of es
body_of (e ∷ es) = body_of es

unfoldable pub flushes : List Event → ℕ
flushes [] = 0
flushes (flushed ∷ es) = suc (flushes es)
flushes (e ∷ es) = flushes es

-- Texts with commas in front of them, and between them.
unfoldable pub behind_commas : List Bytes → Bytes
behind_commas [] = []
behind_commas (x ∷ xs) = codes "," ++ (x ++ behind_commas xs)

unfoldable pub joined : List Bytes → Bytes
joined [] = []
joined (x ∷ xs) = x ++ behind_commas xs

abbrev pub element : ℕ → Bytes
element i = codes "{\"i\":" ++ (format i ++ (codes ",\"pad\":\"" ++ (stream_pad ++ codes "\"}")))

unfoldable pub elements : ℕ → ℕ → List Bytes
elements zero i = []
elements (suc left) i = element i ∷ elements left (i + 1)

body_of-append : (xs ys : List Event) → body_of (xs ++ ys) ≡ body_of xs ++ body_of ys
unfolding body_of
body_of-append [] ys = refl
body_of-append (wrote b ∷ xs) ys =
    rw (body_of-append xs ys) (sym (append_assoc b (body_of xs) (body_of ys)))
body_of-append (content_type t ∷ xs) ys = body_of-append xs ys
body_of-append (status_code c ∷ xs) ys = body_of-append xs ys
body_of-append (flushed ∷ xs) ys = body_of-append xs ys

flushes-append : (xs ys : List Event) → flushes (xs ++ ys) ≡ flushes xs + flushes ys
unfolding flushes
flushes-append [] ys = omega arith
flushes-append (wrote b ∷ xs) ys = flushes-append xs ys
flushes-append (content_type t ∷ xs) ys = flushes-append xs ys
flushes-append (status_code c ∷ xs) ys = flushes-append xs ys
flushes-append (flushed ∷ xs) ys = omega (arith, flushes-append xs ys)

-- How many flushes a round makes.
abbrev pub per_round : Bool → ℕ
per_round true = 1
per_round false = 0

written :
    (i : ℕ)
    → codes "{\"i\":" ++ ((format i ++ codes ",\"pad\":\"") ++ (stream_pad ++ codes "\"}"))
      ≡ element i
written i =
    ap (λ s. codes "{\"i\":" ++ s)
      (append_assoc (format i) (codes ",\"pad\":\"") (stream_pad ++ codes "\"}"))

chunk_zero : (f : Bool) → (body_of (chunk f 0) ≡ element 0) × (flushes (chunk f 0) ≡ per_round f)
unfolding chunk body_of flushes
chunk_zero true = (written 0, refl)
chunk_zero false = (written 0, refl)

chunk_suc :
    (f : Bool) (i : ℕ)
    → (body_of (chunk f (i + 1)) ≡ codes "," ++ element (i + 1))
      × (flushes (chunk f (i + 1)) ≡ per_round f)
unfolding chunk body_of flushes
chunk_suc true i =
    let later : ltb 0 (i + 1) ≡ true = ground arith in
    rw later (ap (λ s. codes "," ++ s) (written (i + 1)), refl)
chunk_suc false i =
    let later : ltb 0 (i + 1) ≡ true = ground arith in
    rw later (ap (λ s. codes "," ++ s) (written (i + 1)), refl)

chunks_from_lem :
    (f : Bool) (left i : ℕ)
    → (body_of (chunks_from f left (i + 1)) ≡ behind_commas (elements left (i + 1)))
      × (flushes (chunks_from f left (i + 1)) ≡ left * per_round f)
unfolding chunks_from elements behind_commas
chunks_from_lem f zero i = unfold body_of flushes in (refl, omega arith)
chunks_from_lem f (suc left) i =
    let (body, flushed_often) = chunks_from_lem f left (i + 1) in
    let (here, once) = chunk_suc f i in
    (
      body_of-append (chunk f (i + 1)) _
          ∙ rw (here, body) (append_assoc (codes ",") (element (i + 1)) _),
      flushes-append (chunk f (i + 1)) _ ∙ omega (arith, once, flushed_often),
    )

chunks_lem :
    (f : Bool) (n : ℕ)
    → (body_of (chunks_from f n 0) ≡ joined (elements n 0))
      × (flushes (chunks_from f n 0) ≡ n * per_round f)
unfolding chunks_from elements joined
chunks_lem f zero = unfold body_of flushes in (refl, omega arith)
chunks_lem f (suc n) =
    let (body, flushed_often) = chunks_from_lem f n 0 in
    let (here, once) = chunk_zero f in
    (
      body_of-append (chunk f 0) _ ∙ rw (here, body) refl,
      flushes-append (chunk f 0) _ ∙ omega (arith, once, flushed_often),
    )

-- For every query the response is the text of a JSON object whose `chunks` are the elements from 0
-- on, with commas between them, as many as the parameter says. There are as many flushes if the
-- writer can flush, and none if it cannot.
pub stream_handler_lem :
    (f : Bool) (query : Bytes)
    → let n = int_param query (codes "chunks") 8 in
      (body_of (stream_handler f query)
        ≡ codes "{\"chunks\":[" ++ (joined (elements n 0) ++ codes "]}"))
      × (flushes (stream_handler f query) ≡ n * per_round f)
unfolding stream_handler json_head
stream_handler_lem f query =
    let n = int_param query (codes "chunks") 8 in
    let small : is_neg n ≡ false =
      lt→leb half n (int_param_lt query (codes "chunks") 8 (omega arith)) in
    let (body, flushed_often) = chunks_lem f n in
    rw small (
      unfold body_of in
          ap (λ s. codes "{\"chunks\":[" ++ s)
            (body_of-append (chunks_from f n 0) (wrote (codes "]}") ∷ []) ∙ rw body refl),
      unfold flushes in
          flushes-append (chunks_from f n 0) (wrote (codes "]}") ∷ [])
          ∙ omega (arith, flushed_often),
    )

pub chunks-IsPlain : IsPlain (codes "chunks")
chunks-IsPlain = omega arith

-- The stream path `i` of the driver's pool is the stream route with a query that the handler reads
-- back: it writes 2 + i % 16 elements, from 0 on, with commas between them, and flushes as many times
-- if the writer can flush.
pub stream_handler-stream_text :
    (f : Bool) (i : ℕ)
    → (query : Bytes) × (stream_text i ≡ (all stream).path ++ (b'?' ∷ query))
      × (body_of (stream_handler f query)
          ≡ codes "{\"chunks\":[" ++ (joined (elements (2 + i % 16) 0) ++ codes "]}"))
      × (flushes (stream_handler f query) ≡ (2 + i % 16) * per_round f)
stream_handler-stream_text f i =
    let query = pair (codes "chunks") (format (chunks_at i)) in
    let read_back : int_param query (codes "chunks") 8 ≡ chunks_at i =
      unfold int_param in
      ap (λ s. value_of s 8)
        (get_only (codes "chunks") (format (chunks_at i)) chunks-IsPlain
          (format-IsPlain (chunks_at i)))
      ∙ value_of-format (chunks_at i) 8 (omega arith) in
    (
      query,
      unfold all in refl,
      (stream_handler_lem f query).0
          ∙ ap (λ n. codes "{\"chunks\":[" ++ (joined (elements n 0) ++ codes "]}")) read_back,
      (stream_handler_lem f query).1 ∙ ap (λ n. n * per_round f) read_back,
    )
