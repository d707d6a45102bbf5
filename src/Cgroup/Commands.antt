-- ===== src/Cgroup/Commands.antt =====
-- pkg/util/cgroup.go: the commands that are run in a container by nsenter.
mod Tests
use device_mounter.Base.{
  ℕ, zero, suc, String, ◌<>◌, Bool, true, false, Option, none, some, List, [], ◌∷◌, ◌++◌, eqs, join,
  map, if◌then◌else◌,
}
use device_mounter.Base.Int.{ℤ, pos, negsuc}
use device_mounter.Api.{GoError, other_error, message, Result, ok, err, DeviceInfo}

-- `Config`; an empty text or a zero is the default.
pub record Config : Type 0 where
  pub cgroup : Bool
  pub cgroup_file : String
  pub follow_context : Bool
  pub gid : ℤ
  pub ipc : Bool
  pub ipc_file : String
  pub mount : Bool
  pub mount_file : String
  pub net : Bool
  pub net_file : String
  pub no_fork : Bool
  pub pid : Bool
  pub pid_file : String
  pub preserve_credentials : Bool
  pub root_directory : String
  pub target : ℤ
  pub uid : ℤ
  pub user : Bool
  pub user_file : String
  pub uts : Bool
  pub uts_file : String
  pub working_directory : String

-- The appended arguments, in their order.
abbrev flatten : List (List String) → List String
flatten [] = []
flatten (args ∷ rest) = args ++ flatten rest

abbrev flag : Bool → String → List String
flag false text = []
flag true text = text ∷ []

-- A namespace with its file, or with the one of the target process.
abbrev namespace_flag : Bool → String → String → String → List String
namespace_flag false file with_file alone = []
namespace_flag true file with_file alone =
    if eqs file "" then alone ∷ [] else (with_file <> file) ∷ []

abbrev directory_flag : String → String → List String
directory_flag text directory = if eqs directory "" then [] else text ∷ directory ∷ []

-- `strconv.Itoa`, the letter of `%c`, and the run of a command line by its error.
module _ (itoa : ℤ → String) (letter : ℕ → String) (run : List String → Option GoError) where
  abbrev id_flag : String → ℤ → List String
  id_flag text (pos zero) = []
  id_flag text (pos (suc n)) = text ∷ itoa (pos (suc n)) ∷ []
  id_flag text (negsuc n) = text ∷ itoa (negsuc n) ∷ []

  -- The arguments of `buildCommand` behind the target.
  unfoldable pub arguments : Config → List String
  arguments c = flatten (
      namespace_flag c.cgroup c.cgroup_file "--cgroup=" "--cgroup"
      ∷ flag c.follow_context "--follow-context"
      ∷ id_flag "--setgid" c.gid
      ∷ namespace_flag c.ipc c.ipc_file "--ip=" "--ipc"
      ∷ namespace_flag c.mount c.mount_file "--mount=" "--mount"
      ∷ namespace_flag c.net c.net_file "--net=" "--net"
      ∷ flag c.no_fork "--no-fork"
      ∷ namespace_flag c.pid c.pid_file "--pid=" "--pid"
      ∷ flag c.preserve_credentials "--preserve-credentials"
      ∷ directory_flag "--root" c.root_directory
      ∷ id_flag "--setuid" c.uid
      ∷ namespace_flag c.user c.user_file "--user=" "--user"
      ∷ namespace_flag c.uts c.uts_file "--uts=" "--uts"
      ∷ directory_flag "--wd" c.working_directory
      ∷ [])

  abbrev on_target : ℤ → List String → Result (List String)
  on_target (pos zero) rest = err (other_error "Target must be specified ")
  on_target (pos (suc n)) rest = ok ("nsenter" ∷ "--target" ∷ itoa (pos (suc n)) ∷ rest)
  on_target (negsuc n) rest = ok ("nsenter" ∷ "--target" ∷ itoa (negsuc n) ∷ rest)

  -- `buildCommand`
  unfoldable pub build_command : Config → Result (List String)
  unfolding arguments
  build_command c = on_target c.target (arguments c)

  abbrev pub on_run : Option GoError → Option GoError
  on_run none = none
  on_run (some e) = some (other_error ("Error while executing command: " <> (message e <> " ")))

  -- `Execute`, by its error; its outputs are only logged.
  unfoldable pub execute : Config → String → List String → Option GoError
  unfolding build_command
  execute c program args = elim (build_command c) [
    | err e ↦ some (other_error ("Error while building command: " <> (message e <> " ")))
    | ok line ↦ on_run (run (line ++ program ∷ args))
  ]

  -- `AddDeviceFile`
  unfoldable pub add_device_file : Config → DeviceInfo → Option GoError
  unfolding execute
  add_device_file c info =
      if info.rule.allow
      then execute c "sh" (
          "-c"
          ∷ join
              ("mknod -m 666"
                ∷ info.device_file_path
                ∷ letter info.rule.type
                ∷ itoa info.rule.major
                ∷ itoa info.rule.minor
                ∷ [])
              " "
          ∷ [])
      else none

  -- `RemoveDeviceFile`
  unfoldable pub remove_device_file : Config → DeviceInfo → Option GoError
  unfolding execute
  remove_device_file c info =
      if info.rule.allow
      then none
      else execute c "sh" ("-c" ∷ ("rm " <> info.device_file_path) ∷ [])

  -- `KillRunningProcesses`
  unfoldable pub kill_running_processes : Config → List ℤ → Option GoError
  unfolding execute
  kill_running_processes c processes =
      execute c "sh" ("-c" ∷ ("kill " <> join (map itoa processes) " ") ∷ [])
