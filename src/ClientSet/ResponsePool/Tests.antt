-- ===== src/ClientSet/ResponsePool/Tests.antt =====
-- Witnesses of the isolation of calls: one call returns, and the next one takes its response.
use poseidon_tests.Prelude.{ℕ, ◌+◌, ◌≤◌, ◌≡◌, refl, [], ◌++◌, none, Bytes, codes, ◌⊎◌, inr, All}
use poseidon_tests.ClientSet.{Call}
use poseidon_tests.ClientSet.Adapters.{PoseidonRequest, PoseidonResponse, blank, poseidon_do}
use poseidon_tests.ClientSet.ResponsePool.{
  store, Taken, Done, System, waiting, ended, take_new, take_pooled, fill, give_back, start, Reach,
  begun, moved, allocated, reused, answered, returned,
}
use poseidon_tests.ClientSet.ResponsePool.Copies.{copies, holders}
use poseidon_tests.ClientSet.ResponsePool.Isolation.{done_as_alone, never_shared}

-- A library that appends to the body of the response.
abbrev appending : PoseidonRequest → PoseidonResponse → Bytes ⊎ PoseidonResponse
appending req resp = inr (record { status = 200; body = resp.body ++ codes "ok" })

abbrev probe : Call
probe = record {
  scenario = codes "health";
  method = codes "GET";
  path = codes "/healthz";
  body = none;
}

abbrev host : Bytes
host = codes "target:8443"

abbrev first : System
first = take_new appending probe (start host)

abbrev asking : Taken
asking = record { object = 0; client = appending; call = probe; progress = waiting }

abbrev got : PoseidonResponse
got = record { status = 200; body = codes "ok" }

abbrev second : System
second = fill asking got none [] [] first

abbrev third : System
third = give_back (record asking { progress = ended none }) none [] second

abbrev fourth : System
fourth = take_pooled 0 [] appending probe third

fourth-Reach : Reach host fourth
unfolding start take_new fill give_back store
fourth-Reach =
    moved
      (moved
        (moved (moved begun (allocated appending probe refl))
          (answered [] [] asking got refl refl refl refl))
        (returned [] [] (record asking { progress = ended none }) none refl refl refl))
      (reused [] [] 0 appending probe refl refl)

done_as_alone_example :
    All (λ (d : Done). d.result ≡ poseidon_do d.client host none d.call) fourth.done
done_as_alone_example = done_as_alone host fourth-Reach

never_shared_example :
    ((i : ℕ) → copies i fourth.pooled + holders i fourth.taken ≤ 1)
    × All (λ o. fourth.contents o ≡ blank) fourth.pooled
never_shared_example = never_shared host fourth-Reach
