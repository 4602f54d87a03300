-- ===== src/Driver/Main/Tests.antt =====
-- Witnesses of the order of `main`, for a run of the standard client over HTTP/2.
use poseidon_tests.Prelude.{true, false, none, codes, ◌≡◌, ◌⊎◌}
use poseidon_tests.Samples.{counting, plain_json}
use poseidon_tests.Driver.Main.{Flags, World, wait_until, main}
use poseidon_tests.Driver.Main.Window.{reported, window, opened, window-main}

abbrev cell : Flags
cell = record {
  regime = codes "h2";
  arm = codes "standard";
  host = codes "target";
  tls_port = 8443;
  h3_port = 8444;
  grpc_port = 9443;
  workers = 2;
  conns = 8;
  streams = 250;
  seed = 1;
  pool_size = 2;
  profile_dir = codes "profiles";
}

abbrev machine : World
machine = record {
  build_client = λ i config. none;
  disk = record {
    mkdir_fails = λ dir. false;
    create_fails = λ name. false;
    write_fails = λ name. true;
  };
  to_plateau = 300;
  lasts = true;
  indent_fails = false;
  marshal_fails = false;
}

window-main_example :
    (reported (main machine cell counting plain_json) ≡ false)
    ⊎ (window (main machine cell counting plain_json) ≡ opened (wait_until 300 true))
window-main_example = window-main machine cell counting plain_json
