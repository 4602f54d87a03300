-- ===== src/Scenario/Tests.antt =====
-- Runs of the scenario package, and its theorems at concrete inputs.
use poseidon_tests.Go.Make.{max_alloc, string_width}
use poseidon_tests.Prelude.{◌⊎◌, ◌*◌, ◌≤◌, ◌<◌, none, ◌≡◌, refl, some, arith, codes}
use poseidon_tests.Samples.{counting}
use poseidon_tests.Weighted
use poseidon_tests.Weighted.Choice.{sum}
use poseidon_tests.Scenario.{stream, default_mix}
use poseidon_tests.Scenario.Itoa.{fill, itoa}
use poseidon_tests.Scenario.PathPool.{PathPool, new_path_pool, checked_size}
use poseidon_tests.Scenario.PathPool.Variants.{path-new_path_pool, AreServed}
use poseidon_tests.Scenario.Mix.{weight_of, new_mix}
use poseidon_tests.Scenario.Mix.Choices.{IsValid, new_mix-IsValid}
use poseidon_tests.Scenario.Mix.Frequency.{selections, kind_share, selections-kind_share}

itoa_runs : itoa 1203 ≡ some (codes "1203")
unfolding itoa fill
itoa_runs = refl

path-new_path_pool_example :
    (checked_size 5 * string_width ≤ max_alloc)
      × ((p : PathPool) × (new_path_pool 5 ≡ some p) × AreServed (checked_size 5) p)
    ⊎ (max_alloc < checked_size 5 * string_width) × (new_path_pool 5 ≡ none)
path-new_path_pool_example = path-new_path_pool 5 (omega arith)

default-IsValid : IsValid counting (new_mix counting 3 1 default_mix)
unfolding sum
default-IsValid = new_mix-IsValid counting 3 1 default_mix (omega arith) (omega arith)

selections-kind_share_example :
    selections stream default_mix (Weighted.total weight_of default_mix)
    ≡ kind_share stream default_mix
unfolding sum
selections-kind_share_example = selections-kind_share stream default_mix (omega arith)

stream_share : kind_share stream default_mix ≡ 10
unfolding sum
stream_share = refl
