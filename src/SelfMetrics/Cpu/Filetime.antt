-- ===== src/SelfMetrics/Cpu/Filetime.antt =====
-- The CPU time that Windows reports, from the halves of its tick counts.
use poseidon_tests.Prelude.{ℕ, ◌+◌, ◌*◌, ◌^◌, ◌<◌, ◌≡◌, refl, ap, ◌∙◌, some, arith}
use poseidon_tests.Go.Floats.{Floats}
use poseidon_tests.Go.Bits.{bit_or-shifted}
use poseidon_tests.SelfMetrics.Cpu.{filetime_ticks, process_cpu_split_windows}
use Prim.Native.Nat.{bit_or}

module _ (fl : Floats) where
  filetime_ticks_lem :
      (high low : ℕ)
      → high < 2 ^ 32
      → low < 2 ^ 32
      → filetime_ticks fl high low ≡ high * 2 ^ 32 + low
  unfolding filetime_ticks
  filetime_ticks_lem high low h l =
      ap (λ n. bit_or n low) (omega arith) ∙ bit_or-shifted 32 high low l

  -- Where the halves of both counts are 32-bit words, the user time is returned first and the kernel
  -- time second, each the exact number of its 64-bit count of ticks in units of 100 nanoseconds.
  pub process_cpu_split_windows_lem :
      (kernel_high kernel_low user_high user_low : ℕ)
      → kernel_high < 2 ^ 32
      → kernel_low < 2 ^ 32
      → user_high < 2 ^ 32
      → user_low < 2 ^ 32
      → process_cpu_split_windows fl (some ((kernel_high, kernel_low), (user_high, user_low)))
        ≡ some (
          fl.div (fl.of_uint (user_high * 2 ^ 32 + user_low)) (fl.lit 10000000 1),
          fl.div (fl.of_uint (kernel_high * 2 ^ 32 + kernel_low)) (fl.lit 10000000 1),
        )
  unfolding process_cpu_split_windows
  process_cpu_split_windows_lem kernel_high kernel_low user_high user_low a b c d =
      rw (filetime_ticks_lem kernel_high kernel_low a b, filetime_ticks_lem user_high user_low c d)
        refl
