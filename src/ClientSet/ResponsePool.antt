-- ===== src/ClientSet/ResponsePool.antt =====
-- The responses that the calls of `poseidonHTTP.Do` share through its `sync.Pool`, as a store of
-- mutable objects: each call takes one, has the client fill it, reads its result from it, and resets
-- it and puts it back, in any interleaving with the other calls.
pub mod Copies
pub mod Invariant
pub mod Isolation
mod Tests
use poseidon_tests.Prelude.{
  ℕ, ◌+◌, ◌≡◌, List, [], ◌∷◌, ◌++◌, Option, none, some, Bytes, ◌⊎◌, inl, inr, ◌==◌, if◌then◌else◌,
}
use poseidon_tests.ClientSet.{Call, Result}
use poseidon_tests.ClientSet.Adapters.{PoseidonResponse, Client, blank, to_request, to_result}

-- A call waits for its client, or the client has returned, with an error or not.
pub data Progress : Type 0 where
  waiting : Progress
  ended : (error : Option Bytes) → Progress

-- A call between `Get` and `Put`, with what the library does in it.
pub record Taken : Type 0 where
  pub object : ℕ
  pub client : Client
  pub call : Call
  pub progress : Progress

-- A call that has returned.
pub record Done : Type 0 where
  pub client : Client
  pub call : Call
  pub result : Bytes ⊎ Result

-- `made` is the number of responses made; they are numbered from 0.
pub record System : Type 0 where
  pub contents : ℕ → PoseidonResponse
  pub pooled : List ℕ
  pub taken : List Taken
  pub made : ℕ
  pub done : List Done

unfoldable pub store : ℕ → PoseidonResponse → (ℕ → PoseidonResponse) → ℕ → PoseidonResponse
store o resp m i = if i == o then resp else m i

-- `if err := …; err != nil { return Result{}, err }` and the `return` behind it.
unfoldable pub result_of : Option Bytes → PoseidonResponse → Bytes ⊎ Result
result_of (some e) resp = to_result (inl e)
result_of none resp = to_result (inr resp)

-- `respPool.Get` gives object `o`, or nil.
unfoldable pub take_pooled : (o : ℕ) (pooled : List ℕ) → Client → Call → System → System
take_pooled o pooled client call s = record s {
  pooled = pooled;
  taken = record { object = o; client = client; call = call; progress = waiting } ∷ s.taken;
}

unfoldable pub take_new : Client → Call → System → System
take_new client call s = record s {
  contents = store s.made blank s.contents;
  taken = record { object = s.made; client = client; call = call; progress = waiting } ∷ s.taken;
  made = s.made + 1;
}

-- The client has left `resp` in the response of call `h`.
unfoldable pub fill :
    Taken → PoseidonResponse → Option Bytes → (xs ys : List Taken) → System → System
fill h resp error xs ys s = record s {
  contents = store h.object resp s.contents;
  taken = xs ++ (record h { progress = ended error } ∷ ys);
}

-- The return value, and then the deferred function.
unfoldable pub give_back : Taken → Option Bytes → (rest : List Taken) → System → System
give_back h error rest s = record s {
  contents = store h.object blank s.contents;
  pooled = h.object ∷ s.pooled;
  taken = rest;
  done =
      record { client = h.client; call = h.call; result = result_of error (s.contents h.object) }
      ∷ s.done;
}

module _ (host : Bytes) where
  pub data Step (s t : System) : Type 0 where
    reused :
        (xs ys : List ℕ) (o : ℕ) (client : Client) (call : Call)
        → s.pooled ≡ xs ++ (o ∷ ys)
        → t ≡ take_pooled o (xs ++ ys) client call s
        → Step s t
    allocated : (client : Client) (call : Call) → t ≡ take_new client call s → Step s t
    answered :
        (xs ys : List Taken) (h : Taken) (resp : PoseidonResponse)
        → s.taken ≡ xs ++ (h ∷ ys)
        → h.progress ≡ waiting
        → h.client (to_request host h.call) (s.contents h.object) ≡ inr resp
        → t ≡ fill h resp none xs ys s
        → Step s t
    -- An error leaves anything in the response.
    refused :
        (xs ys : List Taken) (h : Taken) (resp : PoseidonResponse) (e : Bytes)
        → s.taken ≡ xs ++ (h ∷ ys)
        → h.progress ≡ waiting
        → h.client (to_request host h.call) (s.contents h.object) ≡ inl e
        → t ≡ fill h resp (some e) xs ys s
        → Step s t
    returned :
        (xs ys : List Taken) (h : Taken) (error : Option Bytes)
        → s.taken ≡ xs ++ (h ∷ ys)
        → h.progress ≡ ended error
        → t ≡ give_back h error (xs ++ ys) s
        → Step s t
    -- The garbage collector empties pools.
    evicted :
        (xs ys : List ℕ) (o : ℕ)
        → s.pooled ≡ xs ++ (o ∷ ys)
        → t ≡ record s { pooled = xs ++ ys }
        → Step s t

  unfoldable pub start : System
  start = record { contents = λ i. blank; pooled = []; taken = []; made = 0; done = [] }

  -- The states of the adapter.
  pub data Reach : System → Type 0 where
    begun : Reach start
    moved : {s t : System} → Reach s → Step s t → Reach t
