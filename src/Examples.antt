-- ===== src/Examples.antt =====
-- The theorems at concrete inputs.
mod Mesh
mod Subnets
mod Cluster
mod Deploys
mod Coordination
mod Routing
mod Containers
mod Sessions
