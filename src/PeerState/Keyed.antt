-- ===== src/PeerState/Keyed.antt =====
-- The maps of the peers stay keyed by the ids of their peers, whatever happens to them.
use ployz.Prelude.{
  ◌≡◌, refl, sym, ap, ◌∙◌, Option, none, some, List, [], ◌∷◌, arith, text_eq, All, Distinct,
  Bool-cases, Option-cases, inl, inr, subst,
}
use ployz.Prelude.Text.{Text}
use ployz.Prelude.Map
use ployz.Prelude.Map.{Map}
use ployz.Model.Machine.{MachineId, MachineRecord, MachineEvent, PublicKey, added, removed}
use ployz.Model.Machine
use ployz.Peer.{Instant}
use ployz.PeerState.{PeerState, TcpProbeResult, from_record, update_from_record}
use ployz.PeerState.Device.{
  DevicePeer, seed_from_device, seed_endpoint, adopt, refresh_from_device, observe, settle,
  fall_back, rerank, apply_probe_results,
}
use ployz.PeerState.Peers.{
  Peers, PeerStateMap, for_values, upsert, insert_new, init_from_snapshot, upsert_stored,
  upsert_transient, remove_stored, remove_transient, apply_event, seed_from_device_peers,
  refresh_from_device_peers, probe_peers, seed_with, refresh_with, peers_by_key,
}
use ployz.PeerState.Shadowing.{IsKeyed}

module _ {Net : Type 0} where
  id-seed :
      (ps : PeerState Net) (d : DevicePeer) (now : Instant) → (seed_from_device ps d now).id ≡ ps.id
  unfolding seed_from_device seed_endpoint adopt
  id-seed ps d now = ground arith

  id-refresh :
      (ps : PeerState Net) (d : Option DevicePeer) (now : Instant)
      → (refresh_from_device ps d now).0.id ≡ ps.id
  unfolding refresh_from_device settle fall_back observe
  id-refresh ps none now = ground arith
  id-refresh ps (some d) now = ground (arith, id-seed ps d now)

  id-probed :
      (ps : PeerState Net) (results : Map Text TcpProbeResult) (now : Instant)
      → (apply_probe_results ps results now).0.id ≡ ps.id
  unfolding apply_probe_results rerank
  id-probed ps results now = ground arith

  insert-IsKeyed :
      (id : MachineId) (ps : PeerState Net) (m : Peers Net)
      → ps.id ≡ id
      → IsKeyed m
      → IsKeyed (Map.insert id ps m)
  insert-IsKeyed id ps m e h = record {
    named = Map.All-insert (λ p. p.1.id ≡ p.0) id ps m e h.named;
    unique = Map.insert-DistinctKeys id ps m h.unique;
  }

  remove-IsKeyed : (id : MachineId) (m : Peers Net) → IsKeyed m → IsKeyed (Map.remove id m)
  remove-IsKeyed id m h = record {
    named = Map.All-remove (λ p. p.1.id ≡ p.0) id m h.named;
    unique = Map.remove-DistinctKeys id m h.unique;
  }

  keys-for_values :
      (f : PeerState Net → PeerState Net) (m : Peers Net) → Map.keys (for_values f m) ≡ Map.keys m
  keys-for_values f [] = refl
  keys-for_values f ((k, ps) ∷ m) = ap (◌∷◌ k) (keys-for_values f m)

  for_values-named :
      (f : PeerState Net → PeerState Net) (same : (ps : PeerState Net) → (f ps).id ≡ ps.id)
      (m : Peers Net)
      → All (λ (p : MachineId × PeerState Net). p.1.id ≡ p.0) m
      → All (λ (p : MachineId × PeerState Net). p.1.id ≡ p.0) (for_values f m)
  for_values-named f same [] h = tt
  for_values-named f same ((k, ps) ∷ m) h = (same ps ∙ h.0, for_values-named f same m h.1)

  for_values-IsKeyed :
      (f : PeerState Net → PeerState Net) (same : (ps : PeerState Net) → (f ps).id ≡ ps.id)
      (m : Peers Net)
      → IsKeyed m
      → IsKeyed (for_values f m)
  for_values-IsKeyed f same m h = record {
    named = for_values-named f same m h.named;
    unique = subst Distinct (sym (keys-for_values f m)) h.unique;
  }

  upsert-IsKeyed :
      (r : MachineRecord Net) (now : Instant) (m : Peers Net) → IsKeyed m → IsKeyed (upsert r now m)
  unfolding upsert update_from_record from_record
  upsert-IsKeyed r now m h = elim (Option-cases (Map.get r.id m)) [
    | inl e ↦ rw (e, upsert) (insert-IsKeyed r.id (from_record r now) m refl h)
    | inr (ps, e) ↦
        rw (e, upsert)
          (insert-IsKeyed r.id (update_from_record ps r) m
            (Map.All-get (λ p. p.1.id ≡ p.0) r.id ps m h.named e) h)
  ]

  insert_new-IsKeyed :
      (r : MachineRecord Net) (now : Instant) (m : Peers Net)
      → IsKeyed m
      → IsKeyed (insert_new r now m)
  unfolding insert_new from_record
  insert_new-IsKeyed r now m h = elim (Option-cases (Map.get r.id m)) [
    | inl e ↦ rw (e, insert_new) (insert-IsKeyed r.id (from_record r now) m refl h)
    | inr (ps, e) ↦ rw (e, insert_new) h
  ]

  -- Both maps are keyed by the ids of their peers.
  pub record AreKeyed (s : PeerStateMap Net) : Type 0 where
    pub stored : IsKeyed s.stored_peers
    pub transient : IsKeyed s.transient_peers

  pub init_from_snapshot-AreKeyed :
      (s : PeerStateMap Net) (rs : List (MachineRecord Net)) (now : Instant)
      → AreKeyed s
      → AreKeyed (init_from_snapshot s rs now)
  unfolding init_from_snapshot
  init_from_snapshot-AreKeyed s [] now h = h
  init_from_snapshot-AreKeyed s (r ∷ rs) now h =
      init_from_snapshot-AreKeyed (record s { stored_peers = insert_new r now s.stored_peers }) rs
        now
        (record {
          stored = insert_new-IsKeyed r now s.stored_peers h.stored;
          transient = h.transient;
        })

  upsert_stored-AreKeyed :
      (s : PeerStateMap Net) (r : MachineRecord Net) (now : Instant)
      → AreKeyed s
      → AreKeyed (upsert_stored s r now)
  unfolding upsert_stored
  upsert_stored-AreKeyed s r now h = record {
    stored = upsert-IsKeyed r now s.stored_peers h.stored;
    transient = remove-IsKeyed r.id s.transient_peers h.transient;
  }

  pub upsert_transient-AreKeyed :
      (s : PeerStateMap Net) (r : MachineRecord Net) (now : Instant)
      → AreKeyed s
      → AreKeyed (upsert_transient s r now)
  unfolding upsert_transient
  upsert_transient-AreKeyed s r now h = elim (Bool-cases (Map.contains_key r.id s.stored_peers)) [
    | inl e ↦ rw e h
    | inr e ↦ rw e (record {
      stored = h.stored;
      transient = upsert-IsKeyed r now s.transient_peers h.transient;
    })
  ]

  remove_stored-AreKeyed :
      (s : PeerStateMap Net) (id : MachineId) → AreKeyed s → AreKeyed (remove_stored s id)
  unfolding remove_stored
  remove_stored-AreKeyed s id h = record {
    stored = remove-IsKeyed id s.stored_peers h.stored;
    transient = h.transient;
  }

  pub remove_transient-AreKeyed :
      (s : PeerStateMap Net) (id : MachineId) → AreKeyed s → AreKeyed (remove_transient s id)
  unfolding remove_transient
  remove_transient-AreKeyed s id h = record {
    stored = h.stored;
    transient = remove-IsKeyed id s.transient_peers h.transient;
  }

  pub apply_event-AreKeyed :
      (s : PeerStateMap Net) (e : MachineEvent Net) (now : Instant)
      → AreKeyed s
      → AreKeyed (apply_event s e now)
  unfolding apply_event
  apply_event-AreKeyed s (added r) now h = upsert_stored-AreKeyed s r now h
  apply_event-AreKeyed s (Machine.updated r) now h = upsert_stored-AreKeyed s r now h
  apply_event-AreKeyed s (removed r) now h = remove_stored-AreKeyed s r.id h

  for_values-AreKeyed :
      (f : PeerState Net → PeerState Net) (same : (ps : PeerState Net) → (f ps).id ≡ ps.id)
      (s : PeerStateMap Net)
      → AreKeyed s
      → AreKeyed (record {
        stored_peers = for_values f s.stored_peers;
        transient_peers = for_values f s.transient_peers;
      })
  for_values-AreKeyed f same s h = record {
    stored = for_values-IsKeyed f same s.stored_peers h.stored;
    transient = for_values-IsKeyed f same s.transient_peers h.transient;
  }

  seed_with-id :
      (by_key : Map PublicKey DevicePeer) (now : Instant) (ps : PeerState Net)
      → (seed_with by_key now ps).id ≡ ps.id
  seed_with-id by_key now ps = elim (Option-cases (Map.get ps.public_key by_key)) [
    | inl e ↦ rw (e, seed_with) refl
    | inr (d, e) ↦ rw (e, seed_with) (id-seed ps d now)
  ]

  pub seed-AreKeyed :
      (s : PeerStateMap Net) (ds : List DevicePeer) (now : Instant)
      → AreKeyed s
      → AreKeyed (seed_from_device_peers s ds now)
  unfolding seed_from_device_peers
  seed-AreKeyed s ds now h =
      for_values-AreKeyed (seed_with (peers_by_key ds []) now) (seed_with-id _ now) s h

  pub refresh-AreKeyed :
      (s : PeerStateMap Net) (ds : List DevicePeer) (now : Instant)
      → AreKeyed s
      → AreKeyed (refresh_from_device_peers s ds now).0
  unfolding refresh_from_device_peers
  refresh-AreKeyed s ds now h =
      for_values-AreKeyed (λ ps. (refresh_with (peers_by_key ds []) now ps).0)
        (λ ps. id-refresh ps _ now) s h

  pub probe-AreKeyed :
      (s : PeerStateMap Net) (id : MachineId) (results : Map Text TcpProbeResult) (now : Instant)
      → AreKeyed s
      → AreKeyed (probe_peers s id results now).0
  unfolding probe_peers
  probe-AreKeyed s id results now h = elim (Option-cases (Map.get id s.stored_peers)) [
    | inr (ps, e) ↦
        rw (e, probe_peers)
          (record {
            stored =
                insert-IsKeyed id (apply_probe_results ps results now).0 s.stored_peers
                  (id-probed ps results now
                    ∙ Map.All-get (λ p. p.1.id ≡ p.0) id ps _ h.stored.named e)
                  h.stored;
            transient = h.transient;
          })
    | inl e ↦ elim (Option-cases (Map.get id s.transient_peers)) [
      | inr (ps, q) ↦
          rw (e, q, probe_peers)
            (record {
              stored = h.stored;
              transient =
                  insert-IsKeyed id (apply_probe_results ps results now).0 s.transient_peers
                    (id-probed ps results now
                      ∙ Map.All-get (λ p. p.1.id ≡ p.0) id ps _ h.transient.named q)
                    h.transient;
            })
      | inl q ↦ rw (e, q, probe_peers) h
    ]
  ]
