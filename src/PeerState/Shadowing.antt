-- ===== src/PeerState/Shadowing.antt =====
-- Which peers are planned for the device: each once, never the local machine, a stored one before a
-- transient one of the same machine.
use mathlib.Core.List.{map-append}
use ployz.Prelude.{
  ◌≡◌, refl, sym, ap, ◌∙◌, Bool, true, false, Option, none, some, List, [], ◌∷◌, ◌++◌, map, not,
  ◌&&◌, ◌||◌, ◌==◌, is_empty, arith, text_eq, keep, contains, contains-append, Distinct, All,
  Option-cases, inl, inr,
}
use ployz.Prelude.Text.{Text}
use ployz.Prelude.Map
use ployz.Prelude.Map.{Map}
use ployz.Model.Machine.{MachineId, MachineRecord}
use ployz.PeerState.{PeerState}
use ployz.PeerState.Peers.{
  Peers, PeerStateMap, plan_mesh_peers, peer_state_to_planned_record, is_candidate_peer,
  is_shadowed,
}

-- Each entry's key is the id of its peer, and no key has two entries.
pub record IsKeyed {Net : Type 0} (m : Peers Net) : Type 0 where
  pub named : All (λ (e : MachineId × PeerState Net). e.1.id ≡ e.0) m
  pub unique : Map.DistinctKeys m

Distinct-append :
    (xs ys : List Text)
    → Distinct xs
    → Distinct ys
    → ((a : Text) → contains xs a ≡ true → contains ys a ≡ false)
    → Distinct (xs ++ ys)
Distinct-append [] ys dx dy h = dy
Distinct-append (x ∷ xs) ys dx dy h = (
  contains-append xs ys x ∙ ground (arith, h x),
  Distinct-append xs ys dx.1 dy (λ a m. h a (ground arith)),
)

module _ {Net : Type 0} where
  abbrev pub ids_of : List (PeerState Net) → List MachineId
  ids_of = map (λ (ps : PeerState Net). ps.id)

  abbrev pub planned_ids : List (MachineRecord Net) → List MachineId
  planned_ids = map (λ (r : MachineRecord Net). r.id)

  -- A kept entry of a key, if there is one.
  abbrev pub kept_at : (PeerState Net → Bool) → Option (PeerState Net) → Bool
  kept_at p none = false
  kept_at p (some ps) = p ps

  contains-ids_of :
      (p : PeerState Net → Bool) (m : Peers Net) (id : MachineId)
      → IsKeyed m
      → contains (ids_of (keep p (Map.values m))) id ≡ kept_at p (Map.get id m)
  unfolding Map.get
  contains-ids_of p [] id h = refl
  contains-ids_of p ((k, ps) ∷ m) id h = ground (
    arith,
    contains-ids_of p m id (record { named = h.named.1; unique = h.unique.1 }),
    Map.contains-keys k m,
    h.named.0,
    h.unique.0,
  )

  Distinct-ids_of :
      (p : PeerState Net → Bool) (m : Peers Net)
      → IsKeyed m
      → Distinct (ids_of (keep p (Map.values m)))
  Distinct-ids_of p [] h = tt
  Distinct-ids_of p ((k, ps) ∷ m) h =
      let rest : IsKeyed m = record { named = h.named.1; unique = h.unique.1 } in
      ground (
        arith,
        contains-ids_of p m k rest,
        Map.contains-keys k m,
        Distinct-ids_of p m rest,
        h.named.0,
        h.unique.0,
      )

  ids-planned :
      (xs : List (PeerState Net)) → planned_ids (map peer_state_to_planned_record xs) ≡ ids_of xs
  unfolding peer_state_to_planned_record
  ids-planned [] = refl
  ids-planned (x ∷ xs) = ap (◌∷◌ x.id) (ids-planned xs)

  -- The peer of a machine that counts: the stored one, else the transient one.
  abbrev pub effective : PeerStateMap Net → MachineId → Option (PeerState Net)
  effective s id = elim (Map.get id s.stored_peers) [
    | some ps ↦ some ps
    | none ↦ Map.get id s.transient_peers
  ]

  -- Whether a machine is to be planned.
  abbrev pub is_planned : PeerStateMap Net → MachineId → MachineId → Bool
  is_planned s local id =
      kept_at (λ ps. not (ps.id == local) && not (is_empty ps.runtime.endpoints)) (effective s id)

  -- The transient peers that no stored one stands before.
  abbrev is_unshadowed : PeerStateMap Net → MachineId → PeerState Net → Bool
  is_unshadowed s local ps = not (is_shadowed s ps) && is_candidate_peer local ps

  plan-ids :
      (s : PeerStateMap Net) (local : MachineId)
      → planned_ids (plan_mesh_peers s local)
        ≡ ids_of (keep (is_candidate_peer local) (Map.values s.stored_peers))
          ++ ids_of (keep (is_unshadowed s local) (Map.values s.transient_peers))
  unfolding plan_mesh_peers
  plan-ids s local =
      rw
        (
          map-append (λ (r : MachineRecord Net). r.id),
          ids-planned (keep (is_candidate_peer local) (Map.values s.stored_peers)),
          ids-planned (keep (is_unshadowed s local) (Map.values s.transient_peers)),
        )
        refl

  id_at :
      (m : Peers Net) (id : MachineId) (ps : PeerState Net)
      → IsKeyed m
      → Map.get id m ≡ some ps
      → ps.id ≡ id
  id_at m id ps h = Map.All-get (λ e. e.1.id ≡ e.0) id ps m h.named

  kept_unshadowed :
      (s : PeerStateMap Net) (local id : MachineId)
      → IsKeyed s.transient_peers
      → kept_at (is_unshadowed s local) (Map.get id s.transient_peers) ≡ (
          not (Map.contains_key id s.stored_peers)
          && kept_at (is_candidate_peer local) (Map.get id s.transient_peers))
  kept_unshadowed s local id h = elim (Option-cases (Map.get id s.transient_peers)) [
    | inl e ↦ rw e (ground arith)
    | inr (ps, e) ↦ rw (e, id_at s.transient_peers id ps h e) refl
  ]

  abbrev is_some : Option (PeerState Net) → Bool
  is_some o = elim o [ none ↦ false | some ps ↦ true ]

  kept_either :
      (p : PeerState Net → Bool) (o t : Option (PeerState Net))
      → (kept_at p o || (not (is_some o) && kept_at p t))
        ≡ kept_at p (elim o [ some ps ↦ some ps | none ↦ t ])
  kept_either p none t = refl
  kept_either p (some ps) t = ground arith

  not_both :
      (p q : PeerState Net → Bool) (o t : Option (PeerState Net))
      → kept_at p o ≡ true
      → (not (is_some o) && kept_at q t) ≡ false
  not_both p q none t h = ground arith
  not_both p q (some ps) t h = refl

  module _ (s : PeerStateMap Net) (local : MachineId) (stored : IsKeyed s.stored_peers)
      (transient : IsKeyed s.transient_peers) where
    -- Of a map whose entries are keyed by the ids of their peers, `plan_mesh_peers` plans a machine
    -- just when it is not the local one and its stored peer, or with no stored peer its transient
    -- one, has an endpoint; and it plans no machine twice.
    pub plan_mesh_peers-ids :
        ((id : MachineId)
          → contains (planned_ids (plan_mesh_peers s local)) id ≡ is_planned s local id)
        × Distinct (planned_ids (plan_mesh_peers s local))
    plan_mesh_peers-ids =
        let at_stored =
          λ (id : MachineId). contains-ids_of (is_candidate_peer local) s.stored_peers id stored in
        let at_transient = λ (id : MachineId).
          contains-ids_of (is_unshadowed s local) s.transient_peers id transient
          ∙ kept_unshadowed s local id transient in
        (
          λ id.
              rw (plan-ids s local, contains-append, at_stored id, at_transient id)
                (kept_either (is_candidate_peer local) (Map.get id s.stored_peers)
                  (Map.get id s.transient_peers)),
          rw (plan-ids s local) (
              Distinct-append _ _ (Distinct-ids_of (is_candidate_peer local) s.stored_peers stored)
                (Distinct-ids_of (is_unshadowed s local) s.transient_peers transient)
                (λ id m.
                  at_transient id
                  ∙ not_both (is_candidate_peer local) (is_candidate_peer local)
                      (Map.get id s.stored_peers) (Map.get id s.transient_peers)
                      (sym (at_stored id) ∙ m))),
        )
