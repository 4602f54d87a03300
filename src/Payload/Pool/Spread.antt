-- ===== src/Payload/Pool/Spread.antt =====
-- How `For` spreads the workers over a pool of the default size.
use poseidon_tests.Prelude.{ℕ, ◌%◌, ◌≡◌, arith}
use poseidon_tests.Payload.Pool.{default_pool_size, mixed}

-- At the default size a worker finds the same place of the pool only at sequence numbers that agree
-- modulo the size.
pub mixed_seq_injective :
    (worker s t : ℕ)
    → mixed worker s % default_pool_size ≡ mixed worker t % default_pool_size
    → s % default_pool_size ≡ t % default_pool_size
unfolding mixed
mixed_seq_injective worker s t h = omega arith

-- At the default size two workers find the same place of the pool at the same sequence number only
-- if their ids agree modulo the size.
pub mixed_worker_injective :
    (v w seq : ℕ)
    → mixed v seq % default_pool_size ≡ mixed w seq % default_pool_size
    → v % default_pool_size ≡ w % default_pool_size
unfolding mixed
mixed_worker_injective v w seq h = omega arith
