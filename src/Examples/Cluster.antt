-- ===== src/Examples/Cluster.antt =====
-- The store and the tasks of a machine at concrete inputs. The subnets are numbers.
use ployz.Prelude.{
  All, ℕ, ◌+◌, ◌≡◌, ap, ◌≢◌, ◌↔◌, ◌⊎◌, refl, true, none, some, List, [], ◌∷◌, arith, nat_eq,
  text_eq,
}
use ployz.Prelude.Text.{codes}
use ployz.Prelude.Map
use ployz.Prelude.Map.{Map}
use ployz.Model.Error.{ok}
use ployz.Model.Machine.{enabled, MachineId, MachineRecord, OverlayIp, seed, same_record}
use ployz.Model.Service.{InviteRecord, ServiceReleaseRecord, direct, DeployCommit, DeployState}
use ployz.Liveness.{machine_is_fresh}
use ployz.Liveness.Fresh.{IsFresh, machine_is_fresh_iff}
use ployz.SelfRecord.{
  MachineStoreApi, SelfRecordMutation, set_endpoints, refresh_liveness, Writer, write,
  apply_mutation,
}
use ployz.SelfRecord.Acknowledged.{
  run, fold, acknowledged, IsDurable, run-authoritative_self, write-stored,
}
use ployz.Store.{ChannelApi, Channels, StoreInner, new, consume_invite, sent}
use ployz.Store.Invites.{
  Request, create, consume, Consumes, total_made, total_used, open_invites, serve_all,
  total_used-total_made, consume_invite-Consumes,
}
use ployz.Store.Events.{
  MachineChange, upsert, delete, IsNamed, change_all, all_events, replay_all, broadcast_all,
  change_all-events,
}
use ployz.Store.Commit.{Committed, apply_deploy_commit-Committed}
use ployz.Participation.{
  Round, healthy, unhealthy, sample, round_health, required_peers_health,
  required_peers_for_participation,
}
use ployz.Participation.Hysteresis.{Decides, next_participation-Decides}
use ployz.Participation.Health.{IsRequired, Reached, round_health-healthy_iff}
use ployz.PeerState.{TcpProbeResult, reachable}
use ployz.PeerState.Mirror.{Mirrors, apply_events, no_peers, subscription-Mirrors}
use ployz.PeerState.Peers.{init_from_snapshot}
use ployz.Store.{list_machines}

abbrev machine : MachineRecord ℕ
machine = seed (codes "m1") (7 ∷ []) 1 (some 5) (codes "192.0.2.1:51820" ∷ [])

abbrev other : MachineRecord ℕ
other = seed (codes "m2") (8 ∷ []) 2 (some 6) []

machine_is_fresh_iff_example :
    (machine_is_fresh (record machine { last_heartbeat = 90 }) 100 ≡ true)
    ↔ IsFresh (record machine { last_heartbeat = 90 }) 100
machine_is_fresh_iff_example = machine_is_fresh_iff (record machine { last_heartbeat = 90 }) 100

-- A store that takes every record.
abbrev Accepting : MachineStoreApi ℕ
Accepting = record {
  State = Map MachineId (MachineRecord ℕ);
  upsert_self_machine = λ s r. (Map.insert r.id r s, ok tt);
  machine = λ s id. Map.get id s;
}

Accepting-IsDurable : IsDurable Accepting
Accepting-IsDurable = record { accepted = λ s r h. ground (arith, Map.get-insert r.id r.id r s) }

abbrev writer : Writer Accepting
writer = record { current = machine; authoritative_self = machine; store = [] }

abbrev mutations : List (SelfRecordMutation ℕ)
mutations = refresh_liveness 100 none ∷ set_endpoints [] ∷ set_endpoints [] ∷ []

run-authoritative_self_example :
    (run Accepting writer mutations).authoritative_self
    ≡ fold machine (acknowledged Accepting writer mutations)
run-authoritative_self_example = run-authoritative_self Accepting writer mutations refl

abbrev alive : MachineRecord ℕ
alive = apply_mutation machine (refresh_liveness 100 none)

written : (write Accepting writer (refresh_liveness 100 none)).1 ≡ some alive
unfolding write same_record apply_mutation nat_eq text_eq
written = refl

changed : alive ≢ machine
unfolding apply_mutation
changed e = let same = ap (λ (r : MachineRecord ℕ). r.last_heartbeat) e in cc

write-stored_example :
    Accepting.machine (write Accepting writer (refresh_liveness 100 none)).0.store alive.id
    ≡ some alive
write-stored_example =
    write-stored Accepting Accepting-IsDurable writer (refresh_liveness 100 none) alive written
      changed

-- Channels that count their messages.
abbrev counting : {E : Type 0} → ChannelApi E
counting = record { Sender = ℕ; channel = λ capacity. 0; try_send = λ s e. (s + 1, sent) }

abbrev channels : Channels ℕ
channels = record { machine_events = counting; invalidations = counting }

abbrev store : StoreInner channels
store = record (new channels) {
  machines = (codes "m1", machine) ∷ [];
  machine_subscribers = 0 ∷ [];
}

store-IsNamed : IsNamed store.machines
store-IsNamed = record { named = (refl, tt); unique = (refl, tt) }

abbrev changes : List (MachineChange ℕ)
changes = upsert other ∷ delete (codes "m1") ∷ []

change_all-events_example :
    ((change_all store changes).machines ≡ replay_all store.machines (all_events store changes))
    × ((change_all store changes).machine_subscribers
        ≡ broadcast_all channels store.machine_subscribers (all_events store changes))
    × IsNamed (change_all store changes).machines
change_all-events_example = change_all-events store changes store-IsNamed

subscription-Mirrors_example :
    Mirrors
      (apply_events
        (init_from_snapshot no_peers (list_machines store) 1)
        (all_events store changes)
        2).stored_peers
      (change_all store changes).machines
subscription-Mirrors_example = subscription-Mirrors store changes 1 2 store-IsNamed

abbrev invite : InviteRecord
invite = record { id = codes "inv"; expires_at = 50 }

abbrev requests : List Request
requests = create invite ∷ consume (codes "inv") 10 ∷ consume (codes "inv") 11 ∷ []

total_used-total_made_example :
    total_made (codes "inv") store requests + open_invites (codes "inv") store
    ≡ total_used (codes "inv") store requests
      + open_invites (codes "inv") (serve_all store requests)
total_used-total_made_example = total_used-total_made (codes "inv") store requests

consume_invite-Consumes_example :
    Consumes store (codes "inv") 10 (consume_invite store (codes "inv") 10)
consume_invite-Consumes_example = consume_invite-Consumes store (codes "inv") 10

abbrev release : ServiceReleaseRecord
release = record {
  namespace = codes "prod";
  service = codes "api";
  release = record {
    primary_revision_hash = codes "r1";
    referenced_revision_hashes = codes "r1" ∷ [];
    routing = direct (codes "r1");
    slots = [];
    updated_by_deploy_id = codes "d1";
    updated_at = 1;
  };
}

abbrev commit : DeployCommit
commit = record {
  namespace = codes "prod";
  removed_services = codes "old" ∷ [];
  releases = release ∷ [];
  deploy = record {
    deploy_id = codes "d1";
    namespace = codes "prod";
    coordinator_machine_id = codes "m1";
    manifest_hash = [];
    state = DeployState.committed;
    started_at = 1;
    committed_at = some 2;
    finished_at = some 2;
    summary_json = [];
  };
}

apply_deploy_commit-Committed_example : Committed store commit
apply_deploy_commit-Committed_example = apply_deploy_commit-Committed store commit

next_participation-Decides_example : Decides (healthy ∷ healthy ∷ healthy ∷ unhealthy ∷ [])
next_participation-Decides_example =
    next_participation-Decides (healthy ∷ healthy ∷ healthy ∷ unhealthy ∷ [])

abbrev probes : Map OverlayIp TcpProbeResult
probes = (1, record { status = reachable; rtt = some 3 }) ∷ []

abbrev round : Round ℕ
round = record {
  machines = ok (machine ∷ other ∷ []);
  now = 100;
  current = machine;
  readable = true;
  results = probes;
}

-- The local machine, one that is probed, and one that is down for long.
abbrev seen_machines : List (MachineRecord ℕ)
seen_machines =
    machine
    ∷ record other { overlay_ip = 1; participation = enabled; last_heartbeat = 90 }
    ∷ other
    ∷ []

round_health-healthy_iff_example :
    (sample (round_health (codes "m1") round seen_machines) ≡ healthy) ↔ (
      All (λ (m : MachineRecord ℕ). ¬ IsRequired (codes "m1") 100 m) seen_machines
      ⊎ ((true ≡ true)
          × All
              (λ (m : MachineRecord ℕ). IsRequired (codes "m1") 100 m → Reached probes m)
              seen_machines))
round_health-healthy_iff_example = round_health-healthy_iff (codes "m1") round seen_machines

round_test : sample (round_health (codes "m1") round seen_machines) ≡ healthy
unfolding required_peers_health required_peers_for_participation
round_test = refl
