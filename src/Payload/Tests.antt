-- ===== src/Payload/Tests.antt =====
-- The payload package's theorems at concrete inputs.
use poseidon_tests.Go.Make.{max_alloc, slice_width}
use poseidon_tests.Prelude.{◌≡◌, ◌⊎◌, ◌*◌, ◌≤◌, ◌<◌, [], codes, Bytes}
use poseidon_tests.Go.Outcome.{Ends, panic}
use poseidon_tests.Samples.{counting, plain_json, default_classes_valid}
use poseidon_tests.Payload.{default_size_classes}
use poseidon_tests.Payload.Generator.{Generator, new_generator, next}
use poseidon_tests.Payload.Generator.Bodies.{new_generator-IsValid, IsNext, IsFailed, next-Ends}
use poseidon_tests.Payload.Pool.{new_pool, checked_size}
use poseidon_tests.Payload.Pool.Filled.{IsFilled, IsRefusal, new_pool-Ends}

next-Ends_example :
    let g = new_generator counting 1 0 [] in
    Ends
      (λ (made : Bytes × Generator counting).
        IsNext counting plain_json g 4 (codes "echo") made.0 made.1)
      (IsFailed counting plain_json g.classes 4 (codes "echo"))
      (next counting plain_json g 4 (codes "echo"))
next-Ends_example =
    next-Ends counting plain_json (new_generator counting 1 0 []) 4 (codes "echo")
      (new_generator-IsValid counting 1 0 [] default_classes_valid)

new_pool-Ends_example :
    (checked_size 2 * slice_width ≤ max_alloc)
      × Ends
          (IsFilled counting plain_json default_size_classes 2)
          (IsRefusal counting plain_json default_size_classes)
          (new_pool counting plain_json 1 0 [] 2)
    ⊎ (max_alloc < checked_size 2 * slice_width) × (new_pool counting plain_json 1 0 [] 2 ≡ panic)
new_pool-Ends_example = new_pool-Ends counting plain_json 1 0 [] 2 default_classes_valid
