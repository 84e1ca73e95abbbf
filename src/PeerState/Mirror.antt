-- ===== src/PeerState/Mirror.antt =====
-- The stored peers of a mesh mirror the machines of the store that it is subscribed to.
use ployz.Prelude.{
  ◌≡◌, refl, sym, ap, ◌∙◌, true, false, Option, none, some, List, [], ◌∷◌, ◌==◌, text_eq, ==_true,
  if◌then◌else◌, Option-cases, Bool-cases, inl, inr, All,
}
use ployz.Prelude.Text.{Text}
use ployz.Prelude.Map
use ployz.Prelude.Map.{Map}
use ployz.Model.Machine.{
  MachineId, MachineRecord, MachineEvent, PublicKey, OverlayIp, added, removed,
}
use ployz.Model.Machine
use ployz.Peer.{Instant, update_endpoints, kept_position}
use ployz.Peer
use ployz.PeerState.{PeerState, from_record, update_from_record}
use ployz.PeerState.Peers.{
  Peers, PeerStateMap, upsert, insert_new, init_from_snapshot, upsert_stored, remove_stored,
  apply_event,
}
use ployz.PeerState.Consistent.{endpoints-update_endpoints}
use ployz.Store.{Channels, StoreInner, list_machines}
use ployz.Store.Events.{
  Machines, MachineChange, IsNamed, replay, replay_all, all_events, change_all, change_all-events,
}

-- What a peer and a machine record have in common.
pub record Identity (Net : Type 0) : Type 0 where
  pub public_key : PublicKey
  pub overlay_ip : OverlayIp
  pub subnet : Option Net
  pub bridge_ip : Option OverlayIp
  pub endpoints : List Text

module _ {Net : Type 0} where
  abbrev pub of_peer : PeerState Net → Identity Net
  of_peer ps = record {
    public_key = ps.public_key;
    overlay_ip = ps.overlay_ip;
    subnet = ps.subnet;
    bridge_ip = ps.bridge_ip;
    endpoints = ps.runtime.endpoints;
  }

  abbrev pub of_machine : MachineRecord Net → Identity Net
  of_machine r = record {
    public_key = r.public_key;
    overlay_ip = r.overlay_ip;
    subnet = r.subnet;
    bridge_ip = r.bridge_ip;
    endpoints = r.endpoints;
  }

  abbrev pub peer_identity : Option (PeerState Net) → Option (Identity Net)
  peer_identity none = none
  peer_identity (some ps) = some (of_peer ps)

  abbrev pub machine_identity : Option (MachineRecord Net) → Option (Identity Net)
  machine_identity none = none
  machine_identity (some r) = some (of_machine r)

  -- For every id, the stored peer and the machine are both missing or have the same identity.
  abbrev pub Mirrors : Peers Net → Machines Net → Type 0
  Mirrors peers m =
      (id : MachineId) → peer_identity (Map.get id peers) ≡ machine_identity (Map.get id m)

  identity-from_record :
      (r : MachineRecord Net) (now : Instant) → of_peer (from_record r now) ≡ of_machine r
  unfolding from_record Peer.new
  identity-from_record r now = refl

  identity-update :
      (ps : PeerState Net) (r : MachineRecord Net)
      → of_peer (update_from_record ps r) ≡ of_machine r
  unfolding update_from_record
  identity-update ps r = rw (endpoints-update_endpoints ps.runtime r.endpoints) refl

  identity-insert :
      (id key : MachineId) (ps : PeerState Net) (r : MachineRecord Net) (m : Peers Net)
      → of_peer ps ≡ of_machine r
      → peer_identity (Map.get id (Map.insert key ps m))
        ≡ (if id == key then some (of_machine r) else peer_identity (Map.get id m))
  identity-insert id key ps r m e =
      rw (Map.get-insert id key ps m)
        (elim (Bool-cases (id == key)) [ inl q ↦ rw q (ap some e) | inr q ↦ rw q refl ])

  identity-upsert :
      (id : MachineId) (r : MachineRecord Net) (now : Instant) (m : Peers Net)
      → peer_identity (Map.get id (upsert r now m))
        ≡ (if id == r.id then some (of_machine r) else peer_identity (Map.get id m))
  unfolding upsert
  identity-upsert id r now m = elim (Option-cases (Map.get r.id m)) [
    | inl e ↦
        rw (e, upsert)
          (identity-insert id r.id (from_record r now) r m (identity-from_record r now))
    | inr (ps, e) ↦
        rw (e, upsert)
          (identity-insert id r.id (update_from_record ps r) r m (identity-update ps r))
  ]

  get-replay-insert :
      (id : MachineId) (r : MachineRecord Net) (m : Machines Net)
      → machine_identity (Map.get id (Map.insert r.id r m))
        ≡ (if id == r.id then some (of_machine r) else machine_identity (Map.get id m))
  get-replay-insert id r m =
      rw (Map.get-insert id r.id r m)
        (elim (Bool-cases (id == r.id)) [ inl q ↦ rw q refl | inr q ↦ rw q refl ])

  upsert-Mirrors :
      (r : MachineRecord Net) (now : Instant) (peers : Peers Net) (m : Machines Net)
      → Mirrors peers m
      → Mirrors (upsert r now peers) (Map.insert r.id r m)
  upsert-Mirrors r now peers m h id =
      identity-upsert id r now peers
      ∙ ap (λ x. if id == r.id then some (of_machine r) else x) (h id)
      ∙ sym (get-replay-insert id r m)

  remove-Mirrors :
      (key : MachineId) (peers : Peers Net) (m : Machines Net)
      → Mirrors peers m
      → Mirrors (Map.remove key peers) (Map.remove key m)
  remove-Mirrors key peers m h id =
      rw (Map.get-remove id key peers, Map.get-remove id key m)
        (elim (Bool-cases (id == key)) [ inl q ↦ rw q refl | inr q ↦ rw q (h id) ])

  abbrev pub apply_events : PeerStateMap Net → List (MachineEvent Net) → Instant → PeerStateMap Net
  apply_events s [] now = s
  apply_events s (e ∷ es) now = apply_events (apply_event s e now) es now

  apply_event-Mirrors :
      (s : PeerStateMap Net) (e : MachineEvent Net) (now : Instant) (m : Machines Net)
      → Mirrors s.stored_peers m
      → Mirrors (apply_event s e now).stored_peers (replay m e)
  unfolding apply_event upsert_stored remove_stored
  apply_event-Mirrors s (added r) now m h = upsert-Mirrors r now s.stored_peers m h
  apply_event-Mirrors s (Machine.updated r) now m h = upsert-Mirrors r now s.stored_peers m h
  apply_event-Mirrors s (removed r) now m h = remove-Mirrors r.id s.stored_peers m h

  apply_events-Mirrors :
      (s : PeerStateMap Net) (es : List (MachineEvent Net)) (now : Instant) (m : Machines Net)
      → Mirrors s.stored_peers m
      → Mirrors (apply_events s es now).stored_peers (replay_all m es)
  apply_events-Mirrors s [] now m h = h
  apply_events-Mirrors s (e ∷ es) now m h =
      apply_events-Mirrors (apply_event s e now) es now (replay m e)
        (apply_event-Mirrors s e now m h)

  abbrev first_of : MachineId → Option (Identity Net) → Machines Net → Option (Identity Net)
  first_of id (some x) m = some x
  first_of id none m = machine_identity (Map.get id m)

  first_of-skip :
      (id : MachineId) (r : MachineRecord Net) (x : Option (Identity Net)) (m : Machines Net)
      → (id == r.id) ≡ false
      → first_of id x m ≡ first_of id x ((r.id, r) ∷ m)
  unfolding Map.get
  first_of-skip id r none m q = rw q refl
  first_of-skip id r (some x) m q = refl

  first_of-here :
      (id : MachineId) (r : MachineRecord Net) (x : Option (Identity Net)) (m : Machines Net)
      → (id == r.id) ≡ true
      → x ≡ none
      → first_of id (some (of_machine r)) m ≡ first_of id x ((r.id, r) ∷ m)
  unfolding Map.get
  first_of-here id r x m q e = rw (e, q, first_of) refl

  first_of-some :
      (id : MachineId) (x : Option (Identity Net)) (y : Identity Net) (m n : Machines Net)
      → x ≡ some y
      → first_of id x m ≡ first_of id x n
  first_of-some id x y m n e = rw (e, first_of) refl

  same_get :
      (id key : MachineId) (peers : Peers Net) (o : Option (PeerState Net))
      → (id == key) ≡ true
      → Map.get key peers ≡ o
      → peer_identity (Map.get id peers) ≡ peer_identity o
  same_get id key peers o q e = rw (==_true id key q, e) refl

  identity-insert_new :
      (id : MachineId) (r : MachineRecord Net) (now : Instant) (peers : Peers Net)
      (m : Machines Net)
      → first_of id (peer_identity (Map.get id (insert_new r now peers))) m
        ≡ first_of id (peer_identity (Map.get id peers)) ((r.id, r) ∷ m)
  unfolding insert_new
  identity-insert_new id r now peers m = elim (Option-cases (Map.get r.id peers)) [
    | inl e ↦
        rw
          (
            e,
            insert_new,
            identity-insert id r.id (from_record r now) r peers (identity-from_record r now),
          )
          (elim (Bool-cases (id == r.id)) [
            | inl q ↦ rw q (first_of-here id r _ m q (same_get id r.id peers _ q e))
            | inr q ↦ rw q (first_of-skip id r _ m q)
          ])
    | inr (ps, e) ↦
        rw (e, insert_new)
          (elim (Bool-cases (id == r.id)) [
            | inl q ↦ first_of-some id _ (of_peer ps) m _ (same_get id r.id peers _ q e)
            | inr q ↦ first_of-skip id r _ m q
          ])
  ]

  first_of-empty : (id : MachineId) (x : Option (Identity Net)) → x ≡ first_of id x []
  unfolding Map.get
  first_of-empty id none = refl
  first_of-empty id (some x) = refl

  init-identity :
      (s : PeerStateMap Net) (m : Machines Net) (now : Instant) (id : MachineId)
      → All (λ (e : MachineId × MachineRecord Net). e.1.id ≡ e.0) m
      → peer_identity (Map.get id (init_from_snapshot s (Map.values m) now).stored_peers)
        ≡ first_of id (peer_identity (Map.get id s.stored_peers)) m
  unfolding init_from_snapshot
  init-identity s [] now id h = first_of-empty id _
  init-identity s ((k, r) ∷ m) now id h =
      init-identity (record s { stored_peers = insert_new r now s.stored_peers }) m now id h.1
      ∙ identity-insert_new id r now s.stored_peers m
      ∙ ap (λ key. first_of id (peer_identity (Map.get id s.stored_peers)) ((key, r) ∷ m)) h.0

  abbrev pub no_peers : PeerStateMap Net
  no_peers = record { stored_peers = []; transient_peers = [] }

  -- The machines of the store stand under their own ids. A mesh takes the snapshot of its
  -- subscription, from no peers, and then applies the events that the store sends while its
  -- machines change: afterwards every machine of the store is a stored peer with the same key,
  -- addresses, subnet and endpoints, and there are no others.
  pub subscription-Mirrors :
      {C : Channels Net} (s : StoreInner C) (cs : List (MachineChange Net)) (start later : Instant)
      → IsNamed s.machines
      → Mirrors
          (apply_events
            (init_from_snapshot no_peers (list_machines s) start)
            (all_events s cs)
            later).stored_peers
          (change_all s cs).machines
  unfolding Map.get
  subscription-Mirrors s cs start later h = rw (change_all-events s cs h).0 (
      apply_events-Mirrors _ (all_events s cs) later s.machines
        (λ id. init-identity no_peers s.machines start id h.named))
