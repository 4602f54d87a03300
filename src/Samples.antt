-- ===== src/Samples.antt =====
-- Concrete parameters for the tests: a counting generator, and an encoder that writes the sequence
-- number.
use poseidon_tests.Prelude.{
  ℕ, ◌+◌, ◌-◌, ◌*◌, ◌/◌, ◌≡◌, ltb, leb, ◌%◌, ◌<◌, inl, inr, arith, refl, List, [], ◌∷◌, codes,
}
use poseidon_tests.Go.Rand.{Rand}
use poseidon_tests.Go.Strconv
use poseidon_tests.Go.Floats.{Floats}
use poseidon_tests.SelfMetrics.{Snapshot}
use poseidon_tests.Payload.{Body, Json}
use poseidon_tests.Go.Outcome.{ok}
use poseidon_tests.Weighted.{pick, total, choose}
use poseidon_tests.Weighted.Choice.{sum}
use poseidon_tests.Payload.{SizeClass, default_size_classes, size_class}
use poseidon_tests.Payload.Generator.{
  new_generator, next, roll, pick_class, item_count, make_tags, make_item, make_items,
}
use poseidon_tests.Payload.Generator.Bodies.{ClassesAreValid}
use poseidon_tests.Payload.Pool.{Pool, fill, new_pool, fill_pool}
use poseidon_tests.Payload.Pool.Filled.{IsFilled, built-IsFilled}

pub rest_lt : (g n : ℕ) → 0 < n → g % n < n
rest_lt g n h = grind arith

abbrev pub counting : Rand
counting = record {
  Gen = ℕ;
  Float = ℕ;
  pcg = λ a b. a + b;
  int_n = λ g n. (g % n, g + 7);
  int64_n = λ g n. (g % n, g + 11);
  float64 = λ g. (g, g + 13);
  hundredfold = λ x. x;
  int_n-lt = rest_lt;
  int64_n-lt = rest_lt;
}

abbrev pub plain_json : Json counting
plain_json = record {
  Error = ℕ;
  marshal = λ b. inr (Strconv.format b.seq);
  unmarshal = λ s. inl 0;
  decode = λ s. inl 0;
}

-- Whole numbers in the place of floating point.
abbrev pub whole : Floats
whole = record {
  Float = ℕ;
  of_uint = λ n. n;
  of_int = λ n. n;
  lit = λ a b. a / b;
  add = λ a b. a + b;
  sub = λ a b. a - b;
  mul = λ a b. a * b;
  div = λ a b. a / b;
  lt = ltb;
  le = leb;
  to_int = λ n. n;
  seconds = λ n. n / 1000000000;
}

pub whole_interval :
    (x g : ℕ)
    → whole.to_int (whole.mul (whole.div (whole.sub x x) (whole.of_int g)) (whole.lit 1000000000 1))
      ≡ 0
whole_interval x g = omega arith

abbrev pub idle_snapshot : Snapshot whole
idle_snapshot = record {
  at = 5000000000;
  cpu_busy_seconds = 3;
  cpu_proc_user_seconds = 2;
  cpu_proc_sys_seconds = 1;
  cpu_runtime_seconds = 3;
  cpu_user_seconds = 2;
  cpu_gc_seconds = 1;
  cpu_stats_total_seconds = 40;
  cpu_stats_idle_seconds = 37;
  uptime_seconds = 5;
  gomaxprocs = 8;
  gc_cycles = 18446744073709551615;
  alloc_bytes = 1000;
  alloc_objects = 10;
  heap_objects_bytes = 300;
  total_mem_bytes = 900;
  rss_bytes = 700;
  goroutines = 4;
}

-- Ten seconds later, with no refresh of the runtime's total, and with a counter that has wrapped.
abbrev pub later_snapshot : Snapshot whole
later_snapshot = record idle_snapshot {
  at = 15000000000;
  gc_cycles = 2;
  alloc_bytes = 4000;
  alloc_objects = 25;
  rss_bytes = 800;
}

pub default_classes_valid : ClassesAreValid default_size_classes
unfolding sum
default_classes_valid = omega arith

abbrev pub single : List SizeClass
single = size_class 1 1 1 ∷ []

pub single_valid : ClassesAreValid single
unfolding sum
single_valid = omega arith

abbrev pub pair : Pool
pair = record { bodies = codes "0" ∷ codes "1" ∷ []; n = 2 }

pair_built : new_pool counting plain_json 1 0 single 2 ≡ ok pair
unfolding new_pool fill_pool fill next pick_class item_count make_items make_item make_tags roll
    new_generator total pick choose Strconv.format Strconv.digits
pair_built = refl

pub pair-IsFilled : IsFilled counting plain_json single 2 pair
pair-IsFilled = built-IsFilled counting plain_json 1 0 single 2 single_valid pair_built

-- Decoders that give one body for every text, where `plain_json` gives an error.
abbrev pub one_body : Body counting
one_body = record { seq = 7; scenario = codes "ingest"; items = [] }

abbrev pub lenient_json : Json counting
lenient_json = record plain_json { unmarshal = λ s. inr one_body; decode = λ s. inr one_body }
