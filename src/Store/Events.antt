-- ===== src/Store/Events.antt =====
-- The events that the store sends about its machines, and that they tell the whole of its changes.
use ployz.Prelude.{
  ◌≡◌, refl, sym, ap, ◌∙◌, Option, none, some, List, [], ◌∷◌, ◌++◌, arith, text_eq, Option-cases,
  inl, inr, All,
}
use ployz.Prelude.Map
use ployz.Prelude.Map.{Map}
use ployz.Model.Machine.{MachineId, MachineRecord, MachineEvent, added, updated, removed}
use ployz.Store.{Channels, StoreInner, broadcast, upsert_self_machine, delete_machine, upsert_event}

pub data MachineChange (Net : Type 0) : Type 0 where
  upsert : MachineRecord Net → MachineChange Net
  delete : MachineId → MachineChange Net

abbrev pub Machines : Type 0 → Type 0
Machines Net = Map MachineId (MachineRecord Net)

-- What a subscriber makes of one event.
abbrev pub replay : {Net : Type 0} → Machines Net → MachineEvent Net → Machines Net
replay m (added r) = Map.insert r.id r m
replay m (updated r) = Map.insert r.id r m
replay m (removed r) = Map.remove r.id m

abbrev pub replay_all : {Net : Type 0} → Machines Net → List (MachineEvent Net) → Machines Net
replay_all m [] = m
replay_all m (e ∷ es) = replay_all (replay m e) es

-- Each machine stands under its own id.
pub record IsNamed {Net : Type 0} (m : Machines Net) : Type 0 where
  pub named : All (λ (e : MachineId × MachineRecord Net). e.1.id ≡ e.0) m
  pub unique : Map.DistinctKeys m

abbrev pub removal : {Net : Type 0} → Option (MachineRecord Net) → List (MachineEvent Net)
removal none = []
removal (some r) = removed r ∷ []

-- The events of a change, by what the store has before it.
abbrev pub events_of : {Net : Type 0} → Machines Net → MachineChange Net → List (MachineEvent Net)
events_of m (upsert r) = upsert_event (Map.contains_key r.id m) r ∷ []
events_of m (delete id) = removal (Map.get id m)

abbrev pub broadcast_all :
    {Net : Type 0} (C : Channels Net)
    → List C.machine_events.Sender
    → List (MachineEvent Net)
    → List C.machine_events.Sender
broadcast_all C ss [] = ss
broadcast_all C ss (e ∷ es) = broadcast_all C (broadcast C.machine_events ss e) es

replay_all-append :
    {Net : Type 0} (m : Machines Net) (es fs : List (MachineEvent Net))
    → replay_all m (es ++ fs) ≡ replay_all (replay_all m es) fs
replay_all-append m [] fs = refl
replay_all-append m (e ∷ es) fs = replay_all-append (replay m e) es fs

broadcast_all-append :
    {Net : Type 0} (C : Channels Net) (ss : List C.machine_events.Sender)
    (es fs : List (MachineEvent Net))
    → broadcast_all C ss (es ++ fs) ≡ broadcast_all C (broadcast_all C ss es) fs
broadcast_all-append C ss [] fs = refl
broadcast_all-append C ss (e ∷ es) fs =
    broadcast_all-append C (broadcast C.machine_events ss e) es fs

module _ {Net : Type 0} {C : Channels Net} where
  abbrev pub change : StoreInner C → MachineChange Net → StoreInner C
  change s (upsert r) = upsert_self_machine s r
  change s (delete id) = delete_machine s id

  abbrev pub change_all : StoreInner C → List (MachineChange Net) → StoreInner C
  change_all s [] = s
  change_all s (c ∷ cs) = change_all (change s c) cs

  abbrev pub all_events : StoreInner C → List (MachineChange Net) → List (MachineEvent Net)
  all_events s [] = []
  all_events s (c ∷ cs) = events_of s.machines c ++ all_events (change s c) cs

  pub record Announced (s : StoreInner C) (c : MachineChange Net) : Type 0 where
    pub machines : (change s c).machines ≡ replay_all s.machines (events_of s.machines c)
    pub subscribers :
        (change s c).machine_subscribers
        ≡ broadcast_all C s.machine_subscribers (events_of s.machines c)
    pub named : IsNamed (change s c).machines

  upsert-Announced :
      (s : StoreInner C) (r : MachineRecord Net) → IsNamed s.machines → Announced s (upsert r)
  unfolding upsert_self_machine
  upsert-Announced s r h = record {
    machines = ground arith;
    subscribers = refl;
    named = record {
      named = Map.All-insert (λ e. e.1.id ≡ e.0) r.id r s.machines refl h.named;
      unique = Map.insert-DistinctKeys r.id r s.machines h.unique;
    };
  }

  delete-Announced :
      (s : StoreInner C) (id : MachineId) → IsNamed s.machines → Announced s (delete id)
  unfolding delete_machine
  delete-Announced s id h = elim (Option-cases (Map.get id s.machines)) [
    | inl e ↦ record {
      machines = rw (e, delete_machine) refl;
      subscribers = rw (e, delete_machine) refl;
      named = rw (e, delete_machine) h;
    }
    | inr (r, e) ↦ record {
      machines =
          rw (e, delete_machine, Map.All-get (λ x. x.1.id ≡ x.0) id r s.machines h.named e) refl;
      subscribers = rw (e, delete_machine) refl;
      named =
          rw (e, delete_machine)
            (record {
              named = Map.All-remove (λ x. x.1.id ≡ x.0) id s.machines h.named;
              unique = Map.remove-DistinctKeys id s.machines h.unique;
            });
    }
  ]

  change-Announced : (s : StoreInner C) (c : MachineChange Net) → IsNamed s.machines → Announced s c
  change-Announced s (upsert r) h = upsert-Announced s r h
  change-Announced s (delete id) h = delete-Announced s id h

  pub change_all-events :
      (s : StoreInner C) (cs : List (MachineChange Net))
      → IsNamed s.machines
      → ((change_all s cs).machines ≡ replay_all s.machines (all_events s cs))
        × ((change_all s cs).machine_subscribers
            ≡ broadcast_all C s.machine_subscribers (all_events s cs))
        × IsNamed (change_all s cs).machines
  change_all-events s [] h = (refl, refl, h)
  change_all-events s (c ∷ cs) h =
      let first = change-Announced s c h in
      let (m, ss, named) = change_all-events (change s c) cs first.named in
      (
        m
            ∙ ap (λ x. replay_all x (all_events (change s c) cs)) first.machines
            ∙ sym (
                replay_all-append s.machines (events_of s.machines c) (all_events (change s c) cs)),
        ss
            ∙ ap (λ x. broadcast_all C x (all_events (change s c) cs)) first.subscribers
            ∙ sym (
                broadcast_all-append C s.machine_subscribers (events_of s.machines c)
                  (all_events (change s c) cs)),
        named,
      )
