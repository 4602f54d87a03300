-- ===== src/Api/Fetch.antt =====
-- What the fetch handler serves for the paths that the driver requests.
use poseidon_tests.Prelude.{
  zero, suc, ℕ, ◌+◌, ◌%◌, ◌<◌, ◌≡◌, refl, sym, ap, ◌∙◌, subst, List, [], ◌∷◌, ◌++◌, some, Bytes,
  codes, ◌⊎◌, inl, inr, arith, length, half, get_elem?,
}
use poseidon_tests.Go.Rand.{Rand}
use poseidon_tests.Go.Outcome.{Outcome, ok, Ends, by_value, by_error}
use poseidon_tests.Go.Strconv.{format}
use poseidon_tests.Weighted.Choice.{sum}
use poseidon_tests.Payload.{Body, Json, SizeClass, size_class}
use poseidon_tests.Payload.Generator.{Generator, new_generator, next}
use poseidon_tests.Payload.Generator.Bodies.{
  ClassesAreValid, InClass, new_generator-IsValid, IsBody, IsNext, IsFailed, next-Ends,
}
use poseidon_tests.Api.Query.{
  int_param, value_of, pair, IsPlain, format-IsPlain, get_first, get_second, value_of-format,
  int_param_lt,
}
use poseidon_tests.Api.Handlers.{Event, wrote, http_error, json_head, fetched, fetch_handler}
use poseidon_tests.Scenario.{all, fetch}
use poseidon_tests.Scenario.PathPool.Variants.{fetch_text}

-- The query of a path of the pool.
abbrev pub fetch_query : ℕ → ℕ → Bytes
fetch_query n seq = pair (codes "n") (format n) ++ (b'&' ∷ pair (codes "seq") (format seq))

n-IsPlain : IsPlain (codes "n")
n-IsPlain = omega arith

seq-IsPlain : IsPlain (codes "seq")
seq-IsPlain = omega arith

int_param-n : (n seq : ℕ) → n < half → int_param (fetch_query n seq) (codes "n") 16 ≡ n
unfolding int_param
int_param-n n seq h =
    ap (λ s. value_of s 16)
      (get_first (codes "n") (format n) n-IsPlain (format-IsPlain n)
        (pair (codes "seq") (format seq)))
    ∙ value_of-format n 16 h

int_param-seq : (n seq : ℕ) → seq < half → int_param (fetch_query n seq) (codes "seq") 0 ≡ seq
unfolding int_param
int_param-seq n seq h =
    ap (λ s. value_of s 0)
      (get_second (codes "n") (format n) n-IsPlain (format-IsPlain n) (codes "seq") (format seq)
        seq-IsPlain (format-IsPlain seq) refl)
    ∙ value_of-format seq 0 h

module _ (r : Rand) (json : Json r) where
  -- A body with `n` items for the fetch scenario.
  pub record IsFetchBody (n seq : ℕ) (b : Body r) : Type 0 where
    pub seq_kept : b.seq ≡ seq
    pub scenario_kept : b.scenario ≡ codes "fetch"
    pub counted : length b.items ≡ n

  -- The encoding of such a body with status 200, or status 500 if it has none.
  abbrev pub IsFetchReply : ℕ → ℕ → List Event → Type 0
  IsFetchReply n seq events =
      (body : Body r) × IsFetchBody n seq body
      × (((b : Bytes) × (json.marshal body ≡ inr b) × (events ≡ json_head 200 ++ (wrote b ∷ [])))
          ⊎ ((e : json.Error) × (json.marshal body ≡ inl e)
              × (events ≡ http_error (codes "gen") 500)))

  fixed_class : (n : ℕ) → n < half → ClassesAreValid (size_class n n 1 ∷ [])
  unfolding sum
  fixed_class n h = record {
    positive = omega arith;
    bounded = omega arith;
    each = (record { min_bounded = h; max_bounded = h }, tt);
  }

  fixed_count :
      (n m i : ℕ) (c : SizeClass)
      → get_elem? (size_class n n 1 ∷ []) i ≡ some c
      → InClass c m
      → m ≡ n
  fixed_count n m zero c listed sized =
      let same : size_class n n 1 ≡ c = cc in
      let in_class : InClass (size_class n n 1) m = subst (λ d. InClass d m) (sym same) sized in
      omega arith
  fixed_count n m (suc i) c listed sized = cc

  body_fixed :
      (n seq : ℕ) (body : Body r)
      → IsBody r (size_class n n 1 ∷ []) seq (codes "fetch") body
      → IsFetchBody n seq body
  body_fixed n seq body h = record {
    seq_kept = h.seq_kept;
    scenario_kept = h.scenario_kept;
    counted = fixed_count n (length body.items) h.place h.class h.listed h.sized;
  }

  fetched_lem :
      (n seq : ℕ) (g : Generator r) (m : Outcome json.Error (Bytes × Generator r))
      → g.classes ≡ size_class n n 1 ∷ []
      → Ends
          (λ (made : Bytes × Generator r). IsNext r json g seq (codes "fetch") made.0 made.1)
          (IsFailed r json g.classes seq (codes "fetch"))
          m
      → (events : List Event) × (fetched r json m ≡ ok events) × IsFetchReply n seq events
  unfolding fetched
  fetched_lem n seq g _ e (by_value {a} made) = (
    json_head 200 ++ (wrote a.0 ∷ []),
    refl,
    (
      made.body,
      body_fixed n seq made.body
          (subst (λ cs. IsBody r cs seq (codes "fetch") made.body) e made.is_body),
      inl (a.0, made.marshalled, refl),
    ),
  )
  fetched_lem n seq g _ e (by_error {e = x} failed) = (
    http_error (codes "gen") 500,
    refl,
    (
      failed.body,
      body_fixed n seq failed.body
          (subst (λ cs. IsBody r cs seq (codes "fetch") failed.body) e failed.is_body),
      inr (x, failed.refused, refl),
    ),
  )

  -- The handler answers every query without a panic: with a body of exactly as many items and with
  -- the sequence number that the parameters `n` and `seq` give, or with status 500 if that body has
  -- no encoding.
  pub fetch_handler_total :
      (seed : ℕ) (query : Bytes)
      → (events : List Event) × (fetch_handler r json seed query ≡ ok events)
        × IsFetchReply (int_param query (codes "n") 16) (int_param query (codes "seq") 0) events
  unfolding fetch_handler new_generator
  fetch_handler_total seed query =
      let n = int_param query (codes "n") 16 in
      let seq = int_param query (codes "seq") 0 in
      let g = new_generator r seed n (size_class n n 1 ∷ []) in
      let small : n < half = int_param_lt query (codes "n") 16 (omega arith) in
      fetched_lem n seq g (next r json g seq (codes "fetch")) refl (
        next-Ends r json g seq (codes "fetch")
          (new_generator-IsValid r seed n (size_class n n 1 ∷ []) (fixed_class n small)))

  -- The `i`-th path of the driver's pool, for `i` below 2 ^ 63, is the fetch route with a query
  -- that the handler reads back: it serves a body with sequence number `i` and with 4 + i % 200
  -- items, or status 500 if that body has no encoding.
  pub fetch_handler-fetch_text :
      (seed i : ℕ)
      → i < half
      → (query : Bytes) × (fetch_text i ≡ (all fetch).path ++ (b'?' ∷ query))
        × (events : List Event) × (fetch_handler r json seed query ≡ ok events)
        × IsFetchReply (4 + i % 200) i events
  fetch_handler-fetch_text seed i h =
      let query = fetch_query (4 + i % 200) i in
      let (events, answered, reply) = fetch_handler_total seed query in
      let count_read : int_param query (codes "n") 16 ≡ 4 + i % 200 =
        int_param-n _ i (omega arith) in
      let seq_read : int_param query (codes "seq") 0 ≡ i = int_param-seq _ i h in
      (
        query,
        unfold all in refl,
        events,
        answered,
        subst (λ n. IsFetchReply n i events) count_read
            (subst (λ s. IsFetchReply (int_param query (codes "n") 16) s events) seq_read reply),
      )
