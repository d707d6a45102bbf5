-- ===== src/NvidiaGpu.antt =====
-- pkg/devices/nvidia/gpu: the plugin that mounts whole GPUs. Here is what it keeps of them and what it
-- asks outside.
pub mod Status
pub mod Plugin
pub mod Claims
pub mod Refined
pub mod Sound
pub mod Owned
pub mod Mounted
mod Tests
use device_mounter.Base.{ℕ, String, ◌<>◌, List}
use device_mounter.Api.{Result}
use device_mounter.Vgpu.Nvml.{Nvml, Return}

-- The owner that the kubelet names for a device.
pub record Owner : Type 0 where
  pub pod_name : String
  pub pod_namespace : String
  pub container_name : String

pub data GpuState : Type 0 where
  free allocated : GpuState

-- `NvidiaGPU`, its three fields of the owner as one.
pub record NvidiaGpu : Type 0 where
  pub minor_number : ℕ
  pub device_file_path : String
  pub uuid : String
  pub state : GpuState
  pub owner : Owner

-- An answer of the kubelet: the devices of the containers of the pods.
pub record ContainerDevices : Type 0 where
  pub resource_name : String
  pub device_ids : List String

pub record ContainerResources : Type 0 where
  pub name : String
  pub devices : List ContainerDevices

pub record PodResources : Type 0 where
  pub name : String
  pub namespace : String
  pub containers : List ContainerResources

-- What is answered at one moment: NVML, with its handles by index, and the kubelet.
pub record Moment : Type 0 where
  pub nvml : Nvml
  pub device_count : Return ℕ
  pub handle_by_index : ℕ → Return ℕ
  pub uuid_of : ℕ → Return String
  pub list_pod_resources : Result (List PodResources)

pub record Host : Type 0 where
  -- What is answered to the n-th update of the collector.
  pub moment : ℕ → Moment
  pub show_number : ℕ → String
  -- `util.GetDeviceFileVersion`
  pub device_file_version : String → Result (ℕ × ℕ)
  -- `fmt.Errorf` of a format without arguments, and the sorted set of a list.
  pub errorf : String → String
  pub int_set : List ℕ → List ℕ
  pub slave_image : String
  pub slave_pull_policy : String

-- `GPUCollector`, with the number of its updates.
pub record Collector : Type 0 where
  pub updates : ℕ
  pub gpu_list : List NvidiaGpu

abbrev pub resource_name : String
resource_name = "nvidia.com/gpu"

abbrev pub no_owner : Owner
no_owner = record { pod_name = ""; pod_namespace = ""; container_name = "" }

module _ (host : Host) where
  -- `New`
  unfoldable pub new : ℕ → String → NvidiaGpu
  new minor uuid = record {
    minor_number = minor;
    device_file_path = "/dev/nvidia" <> host.show_number minor;
    uuid = uuid;
    state = GpuState.free;
    owner = no_owner;
  }
