-- ===== src/SelfMetrics/Reading.antt =====
-- `Read` of internal/selfmetrics/selfmetrics.go, over what the runtime and the system answer.
use poseidon_tests.Prelude.{
  ℕ, zero, suc, ◌≡◌, ap, List, [], ◌∷◌, Option, none, some, Bytes, codes, text_eq, text_eq_iff,
  if◌then◌else◌, sub64, map, get_elem?, Bool-cases, inl, inr,
}
use poseidon_tests.Go.Floats.{Floats}
use poseidon_tests.SelfMetrics.{Snapshot}
use poseidon_tests.SelfMetrics.Cpu.{process_cpu_split}
use poseidon_tests.SelfMetrics.Rss.{read_rss}

abbrev pub m_cpu_total : Bytes
m_cpu_total = codes "/cpu/classes/total:cpu-seconds"

abbrev pub m_cpu_idle : Bytes
m_cpu_idle = codes "/cpu/classes/idle:cpu-seconds"

abbrev pub m_cpu_user : Bytes
m_cpu_user = codes "/cpu/classes/user:cpu-seconds"

abbrev pub m_cpu_gc : Bytes
m_cpu_gc = codes "/cpu/classes/gc/total:cpu-seconds"

abbrev pub m_alloc_bytes : Bytes
m_alloc_bytes = codes "/gc/heap/allocs:bytes"

abbrev pub m_alloc_objs : Bytes
m_alloc_objs = codes "/gc/heap/allocs:objects"

abbrev pub m_heap_objects : Bytes
m_heap_objects = codes "/memory/classes/heap/objects:bytes"

abbrev pub m_mem_total : Bytes
m_mem_total = codes "/memory/classes/total:bytes"

abbrev pub m_goroutines : Bytes
m_goroutines = codes "/sched/goroutines:goroutines"

abbrev pub m_gc_cycles : Bytes
m_gc_cycles = codes "/gc/cycles/total:gc-cycles"

unfoldable pub sample_names : List Bytes
sample_names =
    m_cpu_total ∷ m_cpu_idle ∷ m_cpu_user ∷ m_cpu_gc ∷ m_alloc_bytes ∷ m_alloc_objs ∷ m_heap_objects
    ∷ m_mem_total ∷ m_goroutines ∷ m_gc_cycles ∷ []

module _ (fl : Floats) where
  -- The value of a runtime metric; `bad` is any other kind.
  pub data Value : Type 0 where
    float64 : fl.Float → Value
    uint64 : ℕ → Value
    bad : Value

  -- `get`: the sample of a name, or an empty one.
  pub get : List (Bytes × Value) → Bytes → Value
  get [] name = bad
  get ((n, v) ∷ samples) name = if text_eq n name then v else get samples name

  abbrev pub as_float : Value → fl.Float
  as_float (float64 x) = x
  as_float _ = fl.lit 0 1

  abbrev pub as_uint : Value → ℕ
  as_uint (uint64 n) = n
  as_uint _ = 0

  -- What the outside answers: `metrics.Read` for each name, the two files under /proc, the clock and
  -- `runtime.GOMAXPROCS(0)`.
  pub record Outside : Type 0 where
    pub metric : Bytes → Value
    pub stat_file : Option Bytes
    pub status_lines : Option (List Bytes)
    pub now : ℕ
    pub proc_start : ℕ
    pub gomaxprocs : ℕ

  unfoldable pub samples_of : (Bytes → Value) → List (Bytes × Value)
  samples_of metric = map (λ n. (n, metric n)) sample_names

  abbrev pub busy_of : Option (fl.Float × fl.Float) → fl.Float → fl.Float
  busy_of none runtime = runtime
  busy_of (some (pu, ps)) runtime = fl.add pu ps

  abbrev pub user_of : Option (fl.Float × fl.Float) → fl.Float
  user_of none = fl.lit 0 1
  user_of (some (pu, ps)) = pu

  abbrev pub sys_of : Option (fl.Float × fl.Float) → fl.Float
  sys_of none = fl.lit 0 1
  sys_of (some (pu, ps)) = ps

  unfoldable pub read : Outside → Snapshot fl
  read o =
      let samples = samples_of o.metric in
      let f = λ (name : Bytes). as_float (get samples name) in
      let u = λ (name : Bytes). as_uint (get samples name) in
      let runtime = fl.sub (f m_cpu_total) (f m_cpu_idle) in
      let split = process_cpu_split fl o.stat_file in
      record {
        at = o.now;
        cpu_busy_seconds = busy_of split runtime;
        cpu_proc_user_seconds = user_of split;
        cpu_proc_sys_seconds = sys_of split;
        cpu_runtime_seconds = runtime;
        cpu_user_seconds = f m_cpu_user;
        cpu_gc_seconds = f m_cpu_gc;
        cpu_stats_total_seconds = f m_cpu_total;
        cpu_stats_idle_seconds = f m_cpu_idle;
        uptime_seconds = fl.seconds (sub64 o.now o.proc_start);
        gomaxprocs = o.gomaxprocs;
        gc_cycles = u m_gc_cycles;
        alloc_bytes = u m_alloc_bytes;
        alloc_objects = u m_alloc_objs;
        heap_objects_bytes = u m_heap_objects;
        total_mem_bytes = u m_mem_total;
        rss_bytes = read_rss o.status_lines;
        goroutines = u m_goroutines;
      }

  get-map :
      (metric : Bytes → Value) (names : List Bytes) (i : ℕ) {name : Bytes}
      → get_elem? names i ≡ some name
      → get (map (λ n. (n, metric n)) names) name ≡ metric name
  unfolding get
  get-map metric [] i h = cc
  get-map metric (n ∷ names) zero {name} h =
      let same : n ≡ name = cc in rw ((text_eq_iff n name).1 same) (ap metric same)
  get-map metric (n ∷ names) (suc i) {name} h = elim (Bool-cases (text_eq n name)) [
    | inl here ↦ rw here (ap metric ((text_eq_iff n name).0 here))
    | inr there ↦ rw there (get-map metric names i h)
  ]

  -- Every name that `Read` asks for is answered by the runtime's value of that name.
  pub get-samples_of :
      (metric : Bytes → Value) (i : ℕ) {name : Bytes}
      → get_elem? sample_names i ≡ some name
      → get (samples_of metric) name ≡ metric name
  unfolding samples_of
  get-samples_of metric i h = get-map metric sample_names i h
