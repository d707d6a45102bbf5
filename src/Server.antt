-- ===== src/Server.antt =====
-- pkg/server/mounter: the gRPC server that mounts and unmounts devices.
pub mod World
pub mod Cluster
pub mod Requests
pub mod Pods
pub mod Wait
pub mod Rules
pub mod Mount
pub mod Unmount
pub mod Traces
mod Tests
