-- ===== src/Tests/Doctor.antt =====
-- `doctor` on a target where every check passes.
use contextq_server.Prelude.{◌≡◌, refl, true, [], ◌∷◌, List, ok, Text, codes}
use contextq_server.Os.{put, same_path}
use contextq_server.Names.{matches_name}
use contextq_server.Strings.{is_space}
use contextq_server.Target.Data.{Config, Named}
use contextq_server.Target.Validate.{validate, origin, check_fields, normalize, trim_right_slash}
use contextq_server.Target.Config.{validate_config, check_targets, lookup, has_target, resolve}
use contextq_server.Target.File.{resolve_target}
use contextq_server.App.Doctor.{Check, check, doctor}
use contextq_server.App.Doctor.Healthy.{Healthy, doctor-Healthy}
use contextq_server.Tests.Exec.{here, state, http}

abbrev all_passed : List Check
all_passed =
    check (codes "HTTPS health") true
    ∷ check (codes "SSH") true
    ∷ check (codes "systemd service") true
    ∷ check (codes "remote files") true
    ∷ check (codes "remote version") true
    ∷ check (codes "Caddy config") true
    ∷ check (codes "authenticated RPC") true
    ∷ []

doctor_ok : (doctor http (λ b. true) here (codes "/h/t") [] state).0 ≡ ok all_passed
unfolding doctor validate_config validate check_targets lookup has_target matches_name resolve
    origin check_fields normalize trim_right_slash is_space put same_path
doctor_ok = refl

doctor-Healthy_example :
    (found : Config × Text × Named) × ((resolve_target here.parse here.codec here.env
        (codes "/h/t")
        []
        state.world).0
      ≡ ok found)
    × Healthy http (λ b. true) here (found.2).target []
doctor-Healthy_example =
    doctor-Healthy http (λ b. true) here (codes "/h/t") [] state all_passed doctor_ok
