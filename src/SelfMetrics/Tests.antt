-- ===== src/SelfMetrics/Tests.antt =====
-- The theorems on snapshots at concrete inputs.
use poseidon_tests.Prelude.{
  ℕ, zero, suc, ap, length, ◌*◌, ◌%◌, ◌≡◌, refl, List, [], ◌∷◌, ◌++◌, some, false, Bytes, codes,
  arith, All, word, replicate,
}
use poseidon_tests.Go.Strconv
use poseidon_tests.Go.Strings.{IsWord, has_prefix}
use poseidon_tests.Samples.{whole, whole_interval, idle_snapshot, later_snapshot}
use poseidon_tests.SelfMetrics.{sub, runtime_cpu_usable}
use poseidon_tests.SelfMetrics.Cpu.{parse_stat}
use poseidon_tests.SelfMetrics.Cpu.Stat.{stat_text, LacksParen, parse_stat_lem}
use poseidon_tests.SelfMetrics.Rss.{read_rss, rss_text, max_token, read_rss_lem}
use poseidon_tests.SelfMetrics.Reading.{Value, uint64}
use poseidon_tests.SelfMetrics.Window.{frozen_window}

one-IsWord : IsWord (codes "1")
one-IsWord = (λ e. cc, (refl, tt))

forty-IsWord : IsWord (codes "40")
forty-IsWord = (λ e. cc, (refl, (refl, tt)))

one-LacksParen : LacksParen (codes "1")
one-LacksParen = omega arith

forty-LacksParen : LacksParen (codes "40")
forty-LacksParen = omega arith

abbrev some_fields : List Bytes
some_fields = replicate 11 (codes "1") ++ (codes "40" ∷ codes "1" ∷ [])

forty-format : codes "40" ≡ Strconv.format 40
unfolding Strconv.format Strconv.digits
forty-format = refl

All-fields : (P : Bytes → Type 0) → P (codes "1") → P (codes "40") → All P some_fields
All-fields P a b = (a, (a, (a, (a, (a, (a, (a, (a, (a, (a, (a, (b, (a, tt)))))))))))))

-- The command name holds a closing parenthesis and a space.
parse_stat_lem_example :
    parse_stat (stat_text (codes "7") (codes "a) 1 2 (") some_fields) ≡ some (40, 1)
unfolding Strconv.format Strconv.digits
parse_stat_lem_example =
    parse_stat_lem (codes "7") (codes "a) 1 2 (") some_fields 40 1
      (All-fields IsWord one-IsWord forty-IsWord)
      (All-fields LacksParen one-LacksParen forty-LacksParen) refl refl (omega arith) (omega arith)

-- Lines of any length.
ruler : ℕ → Bytes
ruler zero = []
ruler (suc n) = b'7' ∷ ruler n

length-ruler : (n : ℕ) → length (ruler n) ≡ n
unfolding ruler
length-ruler zero = refl
length-ruler (suc n) = ap suc (length-ruler n)

read_rss_lem_example :
    (read_rss (
        some
          ((codes "Name: driver" ∷ []) ++ (rss_text (codes "  ") 2048 ∷ codes "Threads: 9" ∷ [])))
      ≡ (2048 * 1024) % word)
    × (read_rss (some ((codes "Name: driver" ∷ []) ++ (ruler max_token ∷ codes "Threads: 9" ∷ [])))
        ≡ 0)
unfolding has_prefix Strconv.format Strconv.digits
read_rss_lem_example =
    read_rss_lem (codes "Name: driver" ∷ []) (codes "Threads: 9" ∷ []) (codes "  ")
      (ruler max_token) 2048 ((refl, omega arith), tt) (refl, (refl, tt)) (omega arith)
      (omega arith) (omega (arith, length-ruler max_token))

abbrev constant_metric : Bytes → Value whole
constant_metric name = uint64 17

frozen_window_example : runtime_cpu_usable whole (sub whole idle_snapshot later_snapshot) ≡ false
frozen_window_example =
    frozen_window whole idle_snapshot later_snapshot
      (λ g positive. whole_interval idle_snapshot.cpu_stats_total_seconds g) refl
