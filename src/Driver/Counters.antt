-- ===== src/Driver/Counters.antt =====
-- The driver's counters: the atomic operations of a worker on them, and the latch of `main`.
use poseidon_tests.Prelude.{
  ℕ, Bool, true, false, ◌||◌, not, List, [], ◌∷◌, ◌++◌, Option, none, some, ◌⊎◌, inl, inr, Bytes,
  codes, add64, sub64, slt, if◌then◌else◌,
}
use poseidon_tests.ClientSet.{Result}
use poseidon_tests.Scenario.{Scenario}

-- The fields are uint64; `first_err` is empty until an error is stored.
pub record Counters : Type 0 where
  pub total : ℕ
  pub errs : ℕ
  pub non2xx : ℕ
  pub body_byte : ℕ
  pub plateau_start_total : ℕ
  pub plateau_start_errs : ℕ
  pub plateau_start_non2xx : ℕ
  pub plateau_start_body : ℕ
  pub first_err : Option Bytes

unfoldable pub zero_counters : Counters
zero_counters = record {
  total = 0;
  errs = 0;
  non2xx = 0;
  body_byte = 0;
  plateau_start_total = 0;
  plateau_start_errs = 0;
  plateau_start_non2xx = 0;
  plateau_start_body = 0;
  first_err = none;
}

-- An atomic operation of a worker. `note_err` is the body of `errOnce.Do`.
pub data Op : Type 0 where
  add_total add_err add_non2xx : Op
  note_err : Bytes → Op
  add_body : ℕ → Op

-- `sync.Once`: a later call changes nothing.
abbrev pub keep_first : Option Bytes → Bytes → Option Bytes
keep_first none e = some e
keep_first (some e) _ = some e

unfoldable pub apply : Op → Counters → Counters
apply add_total c = record c { total = add64 c.total 1 }
apply add_err c = record c { errs = add64 c.errs 1 }
apply add_non2xx c = record c { non2xx = add64 c.non2xx 1 }
apply (note_err e) c = record c { first_err = keep_first c.first_err e }
apply (add_body n) c = record c { body_byte = add64 c.body_byte n }

-- What a worker is told of one call: the pair that `Do` returns, the text of an error on the left,
-- and whether `ctx.Err()` is set when it looks.
pub record Reply : Type 0 where
  pub answer : Bytes ⊎ Result
  pub cancelled : Bool

-- `res.Status < 200 || res.Status >= 300`
abbrev pub is_non2xx : ℕ → Bool
is_non2xx status = slt status 200 || not (slt status 300)

-- The operations of one round behind `Do`, and whether the loop goes on.
unfoldable pub tally_answer : Scenario → Bool → Bytes ⊎ Result → List Op × Bool
tally_answer sc true (inl e) = (add_total ∷ [], false)
tally_answer sc false (inl e) =
    (add_total ∷ add_err ∷ note_err (sc.name ++ (codes ": " ++ e)) ∷ [], true)
tally_answer sc cancelled (inr res) =
    if is_non2xx res.status
    then (add_total ∷ add_non2xx ∷ add_body res.body_len ∷ [], true)
    else (add_total ∷ add_body res.body_len ∷ [], true)

abbrev pub tally_reply : Scenario → Reply → List Op × Bool
tally_reply sc rep = tally_answer sc rep.cancelled rep.answer

-- The four stores by which `main` latches the baselines, in order.
unfoldable pub latch_total : Counters → Counters
latch_total c = record c { plateau_start_total = c.total }

unfoldable pub latch_errs : Counters → Counters
latch_errs c = record c { plateau_start_errs = c.errs }

unfoldable pub latch_non2xx : Counters → Counters
latch_non2xx c = record c { plateau_start_non2xx = c.non2xx }

unfoldable pub latch_body : Counters → Counters
latch_body c = record c { plateau_start_body = c.body_byte }

-- The deltas of `buildReport`.
unfoldable pub plateau_requests : Counters → ℕ
plateau_requests c = sub64 c.total c.plateau_start_total

unfoldable pub plateau_errors : Counters → ℕ
plateau_errors c = sub64 c.errs c.plateau_start_errs

unfoldable pub plateau_non2xx : Counters → ℕ
plateau_non2xx c = sub64 c.non2xx c.plateau_start_non2xx

unfoldable pub plateau_body_bytes : Counters → ℕ
plateau_body_bytes c = sub64 c.body_byte c.plateau_start_body
