-- ===== src/Api/Flushes.antt =====
-- When the text of the stream handler leaves: what each flush sends.
use poseidon_tests.Prelude.{
  ℕ, zero, suc, ◌+◌, ◌%◌, ◌≡◌, refl, ap, ◌∙◌, sym, true, false, List, [], ◌∷◌, ◌++◌, append-nil,
  append_assoc, Bytes, codes, arith, is_neg, ltb,
}
use poseidon_tests.Go.Strconv.{format}
use poseidon_tests.Api.Query.{int_param, value_of, pair, get_only, value_of-format, format-IsPlain}
use poseidon_tests.Api.Handlers.{
  Event, content_type, status_code, wrote, flushed, json_head, stream_pad, chunk, chunks_from,
  stream_handler,
}
use poseidon_tests.Api.Stream.{
  body_of, flushes, joined, element, elements, chunks-IsPlain, stream_handler_lem,
}
use poseidon_tests.Scenario.{all, stream}
use poseidon_tests.Scenario.PathPool.Variants.{stream_text, chunks_at}

-- What is written up to each flush, behind the text that is held already, and what is written behind
-- the last.
unfoldable pub pieces : (held : Bytes) → List Event → List Bytes
pieces held [] = held ∷ []
pieces held (wrote b ∷ es) = pieces (held ++ b) es
pieces held (flushed ∷ es) = held ∷ pieces [] es
pieces held (e ∷ es) = pieces held es

-- A piece for each text, with a comma in front, and the end of the object.
unfoldable pub comma_pieces : List Bytes → List Bytes
comma_pieces [] = codes "]}" ∷ []
comma_pieces (x ∷ xs) = (codes "," ++ x) ∷ comma_pieces xs

-- The pieces of a stream of the elements 0 to `n`.
abbrev pub stream_pieces : ℕ → List Bytes
stream_pieces n = (codes "{\"chunks\":[" ++ element 0) ∷ comma_pieces (elements n 1)

regroup :
    (h b n c p q : Bytes) → ((h ++ (b ++ (n ++ c))) ++ p) ++ q ≡ h ++ (b ++ (n ++ (c ++ (p ++ q))))
regroup h b n c p q = simp (append_assoc)

pieces-chunk_zero :
    (held : Bytes) (es : List Event)
    → pieces held (chunk true 0 ++ es) ≡ (held ++ element 0) ∷ pieces [] es
unfolding pieces chunk
pieces-chunk_zero held es =
    ap (λ s. s ∷ pieces [] es)
      (regroup held (codes "{\"i\":") (format 0) (codes ",\"pad\":\"") stream_pad (codes "\"}"))

pieces-chunk_suc :
    (i : ℕ) (es : List Event)
    → pieces [] (chunk true (i + 1) ++ es) ≡ (codes "," ++ element (i + 1)) ∷ pieces [] es
unfolding pieces chunk
pieces-chunk_suc i es =
    let later : ltb 0 (i + 1) ≡ true = ground arith in
    rw later (
      ap (λ s. s ∷ pieces [] es)
        (regroup (codes ",") (codes "{\"i\":") (format (i + 1)) (codes ",\"pad\":\"") stream_pad
          (codes "\"}")))

pieces-chunks_from :
    (left i : ℕ)
    → pieces [] (chunks_from true left (i + 1) ++ (wrote (codes "]}") ∷ []))
      ≡ comma_pieces (elements left (i + 1))
unfolding chunks_from elements comma_pieces
pieces-chunks_from zero i = unfold pieces in refl
pieces-chunks_from (suc left) i =
    ap (pieces []) (append_assoc (chunk true (i + 1)) _ _)
    ∙ pieces-chunk_suc i _
    ∙ ap (λ ps. (codes "," ++ element (i + 1)) ∷ ps) (pieces-chunks_from left (i + 1))

pieces-chunks_zero :
    (n : ℕ)
    → pieces (codes "{\"chunks\":[") (chunks_from true (suc n) 0 ++ (wrote (codes "]}") ∷ []))
      ≡ stream_pieces n
unfolding chunks_from
pieces-chunks_zero n =
    ap (pieces (codes "{\"chunks\":[")) (append_assoc (chunk true 0) _ _)
    ∙ pieces-chunk_zero (codes "{\"chunks\":[") _
    ∙ ap (λ ps. (codes "{\"chunks\":[" ++ element 0) ∷ ps) (pieces-chunks_from n 0)

-- With no flush there is one piece, the body.
pieces-body_of :
    (held : Bytes) (es : List Event) → flushes es ≡ 0 → pieces held es ≡ (held ++ body_of es) ∷ []
unfolding pieces flushes body_of
pieces-body_of held [] h = ap (λ s. s ∷ []) (sym (append-nil held))
pieces-body_of held (wrote b ∷ es) h =
    pieces-body_of (held ++ b) es h ∙ ap (λ s. s ∷ []) (append_assoc held b (body_of es))
pieces-body_of held (flushed ∷ es) h = absurd (omega arith)
pieces-body_of held (content_type t ∷ es) h = pieces-body_of held es h
pieces-body_of held (status_code c ∷ es) h = pieces-body_of held es h

-- The stream path `i` of the driver's pool is the stream route with a query that the handler reads
-- back as 2 + i % 16 elements, from 0 on. If the writer can flush, it flushes after each element and
-- nowhere else: what leaves is the head of the object with the element 0, then each further element
-- behind its comma, and at last the end of the object. If it cannot, the whole text leaves at the end.
pub stream_handler-pieces :
    (i : ℕ)
    → (query : Bytes) × (stream_text i ≡ (all stream).path ++ (b'?' ∷ query))
      × (pieces [] (stream_handler true query) ≡ stream_pieces (1 + i % 16))
      × (pieces [] (stream_handler false query)
          ≡ (codes "{\"chunks\":[" ++ (joined (elements (2 + i % 16) 0) ++ codes "]}")) ∷ [])
stream_handler-pieces i =
    let query = pair (codes "chunks") (format (chunks_at i)) in
    let read_back : int_param query (codes "chunks") 8 ≡ 2 + i % 16 =
      unfold int_param in
      ap (λ s. value_of s 8)
        (get_only (codes "chunks") (format (chunks_at i)) chunks-IsPlain
          (format-IsPlain (chunks_at i)))
      ∙ value_of-format (chunks_at i) 8 (omega arith) in
    let one_more : 2 + i % 16 ≡ suc (1 + i % 16) = omega arith in
    let small : is_neg (suc (1 + i % 16)) ≡ false = ground arith in
    let (body, flushed_often) = stream_handler_lem false query in
    let none_flushed : flushes (stream_handler false query) ≡ 0 = omega (arith, flushed_often) in
    let text = λ (n : ℕ). codes "{\"chunks\":[" ++ (joined (elements n 0) ++ codes "]}") in
    (
      query,
      unfold all in refl,
      unfold stream_handler json_head pieces in
          rw (read_back, one_more, small) (pieces-chunks_zero (1 + i % 16)),
      pieces-body_of [] (stream_handler false query) none_flushed
          ∙ ap (λ s. s ∷ []) (body ∙ ap text read_back),
    )
