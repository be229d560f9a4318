-- ===== src/EnvTable/Tests.antt =====
-- Runs of the table of environments.
use fos_kernel.Prelude.{ℕ, ◌+◌, ◌*◌, ◌≡◌, refl, none, some, [], false, arith}
use fos_kernel.EnvTable.{EnvTable, blank, env_init, free_environment, bad_env, envid2env}
use fos_kernel.EnvTable.Init.{Started, create, env_init-Started}
use fos_kernel.EnvTable.Ids.{create-Started, envid2env_iff, free_environment-create}

abbrev at_power_on : EnvTable
at_power_on = record { envs = λ e. blank; env_free_list = []; curenv = none }

abbrev kernel_directory : ℕ → ℕ
kernel_directory i = i * 4096 + 3

booted-Started : Started 0 (env_init at_power_on)
booted-Started = env_init-Started at_power_on refl

-- Three environments are created after the boot.
three_created : (t : EnvTable) × Started 3 t
three_created =
    let (a, is_a, sa) =
      create-Started 0 kernel_directory 8192 (env_init at_power_on) (omega arith) booted-Started in
    let (b, is_b, sb) = create-Started 1 kernel_directory 8192 a (omega arith) sa in
    let (c, is_c, sc) = create-Started 2 kernel_directory 8192 b (omega arith) sb in (c, sc)

create_example :
    (j : EnvTable) × (create kernel_directory 8192 (env_init at_power_on) ≡ some (0, j))
    × Started 1 j
create_example =
    create-Started 0 kernel_directory 8192 (env_init at_power_on) (omega arith) booted-Started

-- The environment 2 has the id 4098, which is not found.
envid2env_example : envid2env 4098 false three_created.0 ≡ bad_env
envid2env_example = envid2env_iff 3 three_created.0 2 (omega arith) three_created.1 (omega arith)

reuse_example :
    (j : EnvTable) × (create kernel_directory 8192 (free_environment 7 at_power_on) ≡ some (7, j))
    × ((j.envs 7).env_id ≡ 4103)
reuse_example = free_environment-create 7 at_power_on kernel_directory 8192 (omega arith)
