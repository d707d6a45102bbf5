-- ===== src/Lib.antt =====
-- Device mounter: mounting and unmounting devices in running pods.
--
-- The mounter runs on each node as a gRPC server. A request to mount asks a device plugin for
-- slave pods that occupy the devices, creates them and waits until they are ready, allows the
-- devices in the cgroup of the target container (cgroup v2: by editing the eBPF program attached
-- to it), and makes the device files in the container. A failure on the way is rolled back. An
-- unmount goes the other way.
--
-- Files and the code that they model (paths from the repository's root):
-- - Base and its children: naturals, lists, texts, dictionaries, and the 32-bit conversions of Go.
-- - Api: pkg/api, pkg/config/constants.go, and the fields of Kubernetes objects that are read.
-- - Ebpf: pkg/util/ebpf/device.go (LoadInstructions, AppendRule, groups, Finalize). Ebpf/Machine is
--   an interpreter of the instructions, Ebpf/Block runs one rule, Ebpf/Groups and Ebpf/Update see
--   AppendRule as an update of a list of rules, Ebpf/Filter runs a list of rules, and Ebpf/Program
--   is the edit in pkg/util/cgroupv2.go, loadAttachCgroupDeviceFilter.
-- - Server/World, Server/Cluster: the history of a handler, and what it calls outside the code.
-- - Server/Requests, Server/Pods, Server/Wait, Server/Rules: pkg/server/mounter/util.go.
-- - Server/Mount, Server/Unmount: pkg/server/mounter/server.go, MountDevice and UnMountDevice.
-- - Framework: the registry of the plugins in pkg/framework/mounter.go.
-- - Util: pkg/util/util.go. Cgroup: the path of a container in pkg/util/cgroup.go;
--   Cgroup/Commands: the command lines of nsenter.
-- - CgroupV2: setting the rules in pkg/util/cgroupv2.go. CgroupV2/Attach: the search for the attached
--   program (ten tries), the load of the edited one in its place, and the rollback.
-- - Controller: the metadata cache of pkg/controller/types.go. Controller/Events, Controller/Repair and
--   Controller/Work: the informer's handlers, the repair and the workers of
--   pkg/controller/pod_controller.go.
-- - Vgpu: pkg/devices/volcano/vgpu. Vgpu itself is the annotation with the devices of a pod (util.go).
--   Vgpu/Region is the shared cache of a container and its mutations; Vgpu/Nvml, Vgpu/Plugin and
--   Vgpu/Devices are the operations of the plugin that read; Vgpu/Envs, Vgpu/Actions and Vgpu/Hooks
--   are what is done behind a mount and an unmount (device_info.go). A panic (an index out of range) is
--   the value none.
-- - AuthConfig: pkg/authConfig/authConfig.go, the cached reader of the request headers' names.
-- - ApiServer: pkg/server/apiserver. ApiServer/Headers, ApiServer/Params and ApiServer/Selector are what
--   is read of a request and of a flag, ApiServer/Handlers the two handlers, whose common part behind
--   the parameters is written once (serve). Its calls of the mounter are the requests of
--   Server/Requests.
-- - NvidiaGpu: pkg/devices/nvidia/gpu. NvidiaGpu/Status is the collector (collector.go) and
--   NvidiaGpu/Plugin the plugin (device_info.go). NvidiaGpu/Claims sees the nested loops of an update as
--   one loop over the GPUs that the kubelet lists.
-- - AscendNpu: pkg/devices/ascend/npu. AscendNpu/Allocated finds the devices of the slave pods
--   (collector.go), AscendNpu/Plugin is the plugin (device_info.go, ascend910.go, dynamic.go).
-- - TlsConfig: pkg/tlsconfig/tlsconfig.go, the watch whose two halves are loaded again when a file changes.
-- - NodeLabeller: pkg/watchdog/node_labeller.go, the JSON patches of the node's labels.
--   NodeLabeller/JsonPatch is what the API server makes of such a patch, a parameter with laws.
-- - Server/Traces and the Atomic modules: the ledger of what a handler made and undid.
--
-- The state of a handler is a World: a clock and the trace of its changes. Every call of the
-- Kubernetes API, the kernel, a command in a container or a plugin is a function of the World in the
-- record Cluster (the plugin: DeviceMounter), so nothing is assumed of its answers. A pod is deleted,
-- a rule restored and a descriptor closed when the call is made; a call that fails without an effect
-- (and is ignored by the code) is in the trace too. The vGPU plugin has a record Host for what it
-- reads and a World of its own for its actions; the GPU plugin has a record of what is answered to each
-- update of its collector (Moment); the API server has a clock, the calls that it sent, and what it
-- calls as functions of the clock (Environment); the kernel's programs are the record Kernel, the
-- work queue is the record WorkQueue, and what these document is a record of laws (Attaches, Counts,
-- Schedules).
--
-- Bounds and fuel: the wait polls as often as the context allows, which is a function of the World
-- (poll_rounds); when it is used up the wait returns the context's error. Loops over lists are
-- structural. Integers are naturals or ℤ with Go's conversions to 32 bits written out.
--
-- The prologue of a filter program, which loads the request into registers, is at least five
-- instructions whose effect on the registers is a parameter (load); the blocks follow it.
-- Bounds of the kernel and of the caches: ten tries of the query of the attached programs, 16 slots of
-- a shared region.
--
-- Not modelled: the test whether the kernel can replace a program (a parameter), retries of API
-- calls (the answer after the retries is the parameter), logging, locks, the start of
-- the Ascend plugin, cgroup v1, the file watch, the Kubernetes clients and the programs' flags.
pub mod Base
pub mod Ebpf
pub mod Api
pub mod ApiServer
pub mod AscendNpu
pub mod AuthConfig
pub mod Cgroup
pub mod CgroupV2
pub mod Controller
pub mod Framework
pub mod NodeLabeller
pub mod NvidiaGpu
pub mod Server
pub mod TlsConfig
pub mod Util
pub mod Vgpu
