-- ===== src/Cgroup/Commands/Tests.antt =====
-- Command lines for the container of process 12.
use device_mounter.Base.{
  ℕ, String, true, false, Option, none, some, List, [], ◌∷◌, ◌≡◌, refl, string_dec,
}
use device_mounter.Base.Int.{ℤ, pos}
use device_mounter.Api.{GoError, other_error, ok}
use device_mounter.Cgroup.Commands.{Config, build_command, kill_running_processes}

abbrev itoa : ℤ → String
itoa n = "12"

abbrev letter : ℕ → String
letter n = "c"

abbrev run : List String → Option GoError
run line = none

abbrev config : Config
config = record {
  cgroup = false;
  cgroup_file = "";
  follow_context = false;
  gid = pos 0;
  ipc = true;
  ipc_file = "";
  mount = true;
  mount_file = "";
  net = false;
  net_file = "";
  no_fork = false;
  pid = true;
  pid_file = "";
  preserve_credentials = false;
  root_directory = "";
  target = pos 12;
  uid = pos 0;
  user = false;
  user_file = "";
  uts = false;
  uts_file = "";
  working_directory = "";
}

built :
    build_command itoa letter run config
    ≡ ok ("nsenter" ∷ "--target" ∷ "12" ∷ "--ipc" ∷ "--mount" ∷ "--pid" ∷ [])
unfolding build_command string_dec
built = refl

-- nsenter's option for the namespace is `--ipc`.
wrong_option :
    build_command itoa letter run
      (record config { mount = false; pid = false; ipc_file = "/proc/12/ns/ipc" })
    ≡ ok ("nsenter" ∷ "--target" ∷ "12" ∷ "--ip=/proc/12/ns/ipc" ∷ [])
unfolding build_command string_dec
wrong_option = refl

no_target :
    kill_running_processes itoa letter run (record config { target = pos 0 }) (pos 12 ∷ [])
    ≡ some (other_error "Error while building command: Target must be specified  ")
unfolding kill_running_processes
no_target = refl
