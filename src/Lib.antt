-- ===== src/Lib.antt =====
-- A model of ployz, a cluster manager that joins machines in a WireGuard mesh and deploys
-- services on them, and the properties of the code that decides.
--
-- The parts and the files. Model has the records that the parts share (crates/ployz-types/src:
-- model.rs, error.rs, spec.rs). Manifest is `validate` of DeployManifest, ServiceSpec and
-- ReadinessProbe, `parse_duration` and, in Hash, the hashes of a manifest and of a revision, of
-- spec.rs. The files of crates/ployz-orchestrator/src are modelled by Liveness
-- (machine_liveness.rs), Phase (mesh/phase.rs), Ipam (ipam.rs), Peer (mesh/peer.rs), PeerState
-- (mesh/peer_state.rs; Device has what a device or a probe does to one peer, Peers the map of
-- all peers), SelfRecord and Participation (self_record.rs and participation.rs of mesh/tasks)
-- and Deploy (deploy/mod.rs: its machines and slots; Plan and Preview have `preview`, Apply the
-- steps of `apply`, Coordinator the whole of it, Effects what they call). Store is MemoryStore
-- of crates/ployz-store-api/src/memory.rs. Dns is snapshot.rs and resolve.rs of
-- crates/ployz-dns/src, and Gateway is routes.rs of crates/ployz-gateway/src (Project has its
-- `project`). Runtime is diff.rs, spec.rs, labels.rs and engine.rs of
-- crates/ployz-runtime-backends/src/runtime and deploy/local.rs beside it, and Session is
-- locks.rs and remote.rs (Agent and Commands have its DeployAgent, Client its TcpDeploySession)
-- of crates/ployzd/src/daemon/deploy_control. Prelude has the shared helpers, Examples the
-- theorems at concrete inputs.
--
-- How they interact. The store sends an event for every change of a machine; the mesh keeps a
-- PeerStateMap from them (`apply_event`), which the device's reports
-- (`refresh_from_device_peers`) and the probes (`apply_probe_results`, here `probe_peers` for
-- the map) reorder, and plans the device's peers from it (`plan_mesh_peers`). The participation
-- task asks the writer of the local record to change it, which writes it to the store. A deploy
-- reads the machines and the releases, opens a session on every participant, starts its
-- candidates there, ends with `apply_deploy_commit` and removes the instances that are no longer
-- in use. Its calls are made to a world that answers each by the list of the calls so far, so
-- that what is shown of a deploy holds with any store, any machines and any other deploys beside
-- it. A machine takes a session when it gets the lock of the namespace (`open_session`), answers
-- the frames of the session (`handle_session_frame`), and starts a candidate by `ensure`, which
-- compares the container that Docker reports (`observe`, `eval_spec_change`) with the one that
-- is asked for.
--
-- Conventions. A text is the list of its code points, in the order of which Rust's strings are
-- ordered too. A hash or tree map is an association list; what depends on the order of a hash
-- map holds for every order. An instant is a number of nanoseconds, and a difference of instants
-- that would be negative is 0, as in the code. Numbers are natural numbers, and arithmetic of
-- u32 wraps as in a release build. A function that changes its receiver returns the new one. A
-- subnet type is a parameter `Net`: the allocators take ipnet's operations as an interface with
-- its documented laws. Channels of tokio, the store behind the writer and Docker are interfaces.
-- The loop of `Ipam.allocate` has 2^32 rounds of fuel, which is enough since every round but the
-- last has an address of its own; all other loops recurse on a list or a count of the code's.
--
-- Not modelled: sockets, timers, channels and tasks around these functions; the Corrosion store,
-- the drivers of Docker, WireGuard and eBPF, the daemon's handlers, and serialisation. The
-- revision of a service is read from JSON by a parameter of `project`.
pub mod Prelude
pub mod Model
pub mod Manifest
pub mod Liveness
pub mod Store
pub mod SelfRecord
pub mod Phase
pub mod Ipam
pub mod Peer
pub mod PeerState
pub mod Participation
pub mod Deploy
pub mod Dns
pub mod Gateway
pub mod Runtime
pub mod Session
pub mod Examples
