-- ===== src/ClientSet/Tests.antt =====
-- The client set's theorems at concrete inputs.
use poseidon_tests.Prelude.{◌≡◌, refl, true, codes}
use poseidon_tests.ClientSet.Matrix.{
  poseidon_h2, std_h2, new, first_case, regime_h2, arm_poseidon, arm_standard,
}
use poseidon_tests.ClientSet.Endpoint.{Config, options, shared, expected, arms_agree}

abbrev config : Config
config = record {
  host = codes "target";
  tls_port = 8443;
  h3_port = 8444;
  grpc_port = 9443;
  conns = 8;
  max_streams_per_conn = 250;
  insecure_skip_verify = true;
}

arms_agree_example :
    (shared (options poseidon_h2 config) ≡ expected regime_h2 config)
    × (shared (options poseidon_h2 config) ≡ shared (options std_h2 config))
unfolding new first_case
arms_agree_example =
    arms_agree regime_h2 arm_poseidon arm_standard poseidon_h2 std_h2 config refl refl
