-- ===== src/Tests/Deploy.antt =====
-- A deployment of one target, with local binaries for amd64.
use contextq_server.Prelude.{◌≡◌, refl, true, [], none, some, ok, codes}
use contextq_server.Target.Data.{Named}
use contextq_server.Remote.Binary.{linux_binary_arch}
use contextq_server.App.{Surroundings}
use contextq_server.App.Ensures.{Ensures}
use contextq_server.App.Binaries.{resolve_bootstrap_binaries, resolve_bootstrap_binaries_lem}
use contextq_server.App.Deploy.{InitFlags, deploy}
use contextq_server.App.Deploy.Order.{Stopped, Completed, deploy-Ensures}
use contextq_server.Tests.Client.{parse, full_target, one_target, binaries, executor}
use contextq_server.Tests.Config.{codec, env}
use contextq_server.Tests.Setup.{net}

abbrev pub surroundings : Surroundings
surroundings = record {
  parse = parse;
  net = net;
  codec = codec;
  env = env;
  decode_issued = λ b. none;
  executor = λ calls. executor;
  binaries = binaries;
  executable = some (codes "/opt/contextq-server");
  look_path = none;
  hostname = none;
  control_dir = codes "/tmp/contextq-ssh-1";
}

abbrev flags : InitFlags
flags = record {
  config_path = [];
  target_name = [];
  apply = true;
  server_binary = codes "/x";
  contextq_binary = [];
  listen = [];
  label = [];
}

abbrev named : Named
named = record { name = codes "prod"; target = full_target }

binaries_ok :
    resolve_bootstrap_binaries surroundings (codes "amd64") (codes "/x") []
    ≡ ok (codes "/x", codes "/contextq")
unfolding resolve_bootstrap_binaries
binaries_ok = refl

resolve_bootstrap_binaries_lem_example :
    (linux_binary_arch (binaries (codes "/x")) ≡ ok (codes "amd64"))
    × (linux_binary_arch (binaries (codes "/contextq")) ≡ ok (codes "amd64"))
resolve_bootstrap_binaries_lem_example =
    resolve_bootstrap_binaries_lem surroundings (codes "amd64") (codes "/x") []
      (codes "/x", codes "/contextq") binaries_ok

deploy-Ensures_example :
    Ensures
      (λ c. c ≡ [])
      (Stopped surroundings [] one_target
        (codes "/h/targets")
        named
        flags
        (codes "/tmp/s")
        (codes "#"))
      (λ _.
        Completed surroundings [] one_target
          (codes "/h/targets")
          named
          flags
          (codes "/tmp/s")
          (codes "#"))
      (deploy surroundings one_target (codes "/h/targets") named flags (codes "/tmp/s") (codes "#"))
deploy-Ensures_example =
    deploy-Ensures surroundings [] one_target (codes "/h/targets") named flags (codes "/tmp/s")
      (codes "#")
