-- ===== src/SelfMetrics/Cpu.antt =====
-- The CPU time of the process: internal/selfmetrics/cpu_linux.go, cpu_windows.go and
-- cpu_fallback.go. A result `(user, sys, ok)` is an `Option`.
pub mod Stat
pub mod Filetime
use Prim.Native.Nat.{bit_or}
use poseidon_tests.Prelude.{
  ℕ, ◌+◌, ◌*◌, ◌%◌, ◌^◌, Option, none, some, ◌>>=◌, Bytes, List, length, drop, get_elem?, leb, ltb,
  if◌then◌else◌, word,
}
use poseidon_tests.Go.Floats.{Floats}
use poseidon_tests.Go.Strconv.{parse_uint}
use poseidon_tests.Go.Strings.{fields, last_index_byte}

-- The two tick counts in the fields behind the command name.
unfoldable pub ticks : List Bytes → Option (ℕ × ℕ)
ticks fs = do
  user ← get_elem? fs 11
  utime ← parse_uint user
  sys ← get_elem? fs 12
  stime ← parse_uint sys
  some (utime, stime)

-- utime and stime in the text of /proc/self/stat.
unfoldable pub parse_stat : Bytes → Option (ℕ × ℕ)
parse_stat b = do
  i ← last_index_byte b b')'
  let fs = fields (drop (i + 2) b)
  if leb (length b) (i + 2) then none else if ltb (length fs) 13 then none else ticks fs

module _ (fl : Floats) where
  abbrev pub user_hz : fl.Float
  user_hz = fl.lit 100 1

  -- `processCPUSplit` on Linux; the argument is what reading the file gave, if it could be read.
  unfoldable pub process_cpu_split : Option Bytes → Option (fl.Float × fl.Float)
  process_cpu_split file = do
    b ← file
    (utime, stime) ← parse_stat b
    some (fl.div (fl.of_uint utime) user_hz, fl.div (fl.of_uint stime) user_hz)

  -- `processCPUSeconds` on Linux and Windows: the sum of the split. (Go adds two zeros where the
  -- split is not ok, and the caller looks at `ok` first.)
  unfoldable pub process_cpu_seconds : Option (fl.Float × fl.Float) → Option fl.Float
  process_cpu_seconds split = do (u, s) ← split; some (fl.add u s)

  -- A FILETIME of two 32-bit halves, in 100-nanosecond ticks.
  unfoldable pub filetime_ticks : ℕ → ℕ → ℕ
  filetime_ticks high low = bit_or ((high * 2 ^ 32) % word) low

  -- `processCPUSplit` on Windows, from the kernel and user times that the system gave.
  unfoldable pub process_cpu_split_windows :
      Option ((ℕ × ℕ) × (ℕ × ℕ)) → Option (fl.Float × fl.Float)
  process_cpu_split_windows times = do
    (kernel, user) ← times
    let kt = filetime_ticks kernel.0 kernel.1
    let ut = filetime_ticks user.0 user.1
    some (fl.div (fl.of_uint ut) (fl.lit 10000000 1), fl.div (fl.of_uint kt) (fl.lit 10000000 1))

  -- `processCPUSplit` on any other platform.
  pub process_cpu_split_fallback : Option (fl.Float × fl.Float)
  process_cpu_split_fallback = none
