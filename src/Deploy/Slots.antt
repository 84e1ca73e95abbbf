-- ===== src/Deploy/Slots.antt =====
-- The slots of a service: every one once, on the machine that has it or else in turn.
use ployz.Prelude.{
  ℕ, zero, suc, ◌+◌, ◌%◌, ◌≤◌, ◌<◌, ◌≡◌, refl, ap, false, Option, none, some, List, [], ◌∷◌, ◌++◌,
  map, arith, ◌==◌, text_eq, ==_ne, is_empty, get_elem?, get_elem?-some, length, contains, Distinct,
  subst, Option-cases, inl, inr,
}
use native.Mathlib.Nat.{mod-lt, add-zero}
use mathlib.Core.Option.{some-injective}
use ployz.Prelude.Text.{Text, codes}
use ployz.Prelude.Text.Decimal.{decimal4_injective}
use ployz.Model.Error.{ok}
use ployz.Model.Machine.{MachineId}
use ployz.Model.Service.{SlotId, ServiceReleaseSlot}
use ployz.Model.Spec.{global, replicated, ServiceSpec}
use ployz.Deploy.{
  DesiredSlot, replica_slot, global_slot, current_machine, replica_machine, replicas, candidates_of,
  slots_for, desired_slots,
}

abbrev pub slot_ids : List DesiredSlot → List SlotId
slot_ids = map (λ (d : DesiredSlot). d.slot_id)

positive : (xs : List MachineId) → is_empty xs ≡ false → 1 ≤ length xs
positive [] h = cc
positive (x ∷ xs) h = omega arith

cancel_slot : (a b : Text) → codes "slot-" ++ a ≡ codes "slot-" ++ b → a ≡ b
cancel_slot a b h = cc

==_sym_false : (a b : SlotId) → (a == b) ≡ false → (b == a) ≡ false
==_sym_false a b h = ==_ne b a (λ e. ground (arith, e))

replica_slot_ne : (i j : ℕ) → i < j → j < 65536 → (replica_slot i == replica_slot j) ≡ false
replica_slot_ne i j lt bound = ==_ne (replica_slot i) (replica_slot j) (λ e.
    let same = decimal4_injective (i + 1) (j + 1) (omega arith) (omega arith) (cancel_slot _ _ e) in
    omega arith)

module _ (candidates : List MachineId) (current : Option (List ServiceReleaseSlot)) where
  -- The machine that a replica belongs on.
  abbrev pub home : ℕ → Option MachineId
  home index = elim (current_machine current (replica_slot index)) [
    | some machine ↦ some machine
    | none ↦ get_elem? candidates (index % length candidates)
  ]

  -- The slots of the replicas from an index on, in order.
  abbrev pub ArePlaced : ℕ → List DesiredSlot → Type 0
  ArePlaced index [] = Unit
  ArePlaced index (d ∷ ds) =
      (d.slot_id ≡ replica_slot index) × (home index ≡ some d.machine_id) × ArePlaced (suc index) ds

  home-replica_machine :
      (index : ℕ)
      → is_empty candidates ≡ false
      → (m : MachineId) × (replica_machine candidates current index ≡ ok m) × (home index ≡ some m)
  home-replica_machine index h =
      elim (Option-cases (current_machine current (replica_slot index))) [
        | inr (m, e) ↦ (m, rw (e, replica_machine) refl, rw (e, home) refl)
        | inl e ↦
            let (m, g) =
              get_elem?-some candidates (index % length candidates)
                (mod-lt index (positive candidates h)) in
            (m, rw (e, replica_machine, g) refl, rw (e, home) g)
      ]

  replicas_lem :
      (left index : ℕ)
      → is_empty candidates ≡ false
      → (ds : List DesiredSlot) × (replicas candidates current left index ≡ ok ds)
        × (length ds ≡ left)
        × ArePlaced index ds
  unfolding replicas
  replicas_lem zero index h = ([], refl, refl, tt)
  replicas_lem (suc left) index h =
      let (m, e, p) = home-replica_machine index h in
      let (ds, r, n, placed) = replicas_lem left (suc index) h in
      (
        record { slot_id = replica_slot index; machine_id = m } ∷ ds,
        rw (e, r, replicas) refl,
        ap suc n,
        (refl, p, placed),
      )

  later_ids :
      (i index : ℕ) (ds : List DesiredSlot)
      → i < index
      → index + length ds ≤ 65536
      → ArePlaced index ds
      → contains (slot_ids ds) (replica_slot i) ≡ false
  later_ids i index [] lt b h = refl
  later_ids i index (d ∷ ds) lt b h =
      rw
        (
          h.0,
          ==_sym_false (replica_slot i) (replica_slot index)
              (replica_slot_ne i index (omega arith) (omega arith)),
        )
        (later_ids i (suc index) ds (omega arith) (omega arith) h.2)

  Distinct-slot_ids :
      (index : ℕ) (ds : List DesiredSlot)
      → index + length ds ≤ 65536
      → ArePlaced index ds
      → Distinct (slot_ids ds)
  Distinct-slot_ids index [] b h = tt
  Distinct-slot_ids index (d ∷ ds) b h = (
    rw h.0 (later_ids index (suc index) ds (omega arith) (omega arith) h.2),
    Distinct-slot_ids (suc index) ds (omega arith) h.2,
  )

  ArePlaced-get :
      (index : ℕ) (ds : List DesiredSlot) (i : ℕ) (d : DesiredSlot)
      → ArePlaced index ds
      → get_elem? ds i ≡ some d
      → (d.slot_id ≡ replica_slot (index + i)) × (home (index + i) ≡ some d.machine_id)
  ArePlaced-get index [] i d h e = cc
  ArePlaced-get index (x ∷ ds) zero d h e =
      let same = some-injective x d e in
      rw (add-zero index) (
        subst (λ y. y.slot_id ≡ replica_slot index) same h.0,
        subst (λ y. home index ≡ some y.machine_id) same h.1,
      )
  ArePlaced-get index (x ∷ ds) (suc i) d h e =
      subst (λ k. (d.slot_id ≡ replica_slot k) × (home k ≡ some d.machine_id)) (omega arith)
        (ArePlaced-get (suc index) ds i d h.2 e)

not_empty-candidates_of : (machines : List MachineId) → is_empty (candidates_of machines) ≡ false
not_empty-candidates_of [] = refl
not_empty-candidates_of (m ∷ ms) = refl

abbrev on_each : List MachineId → List DesiredSlot
on_each = map (λ m. record { slot_id = global_slot m; machine_id = m })

machines-on_each : (ms : List MachineId) → map (λ (d : DesiredSlot). d.machine_id) (on_each ms) ≡ ms
machines-on_each [] = refl
machines-on_each (m ∷ ms) = ap (◌∷◌ m) (machines-on_each ms)

contains-on_each :
    (ms : List MachineId) (m : MachineId)
    → contains ms m ≡ false
    → contains (slot_ids (on_each ms)) (global_slot m) ≡ false
contains-on_each [] m h = refl
contains-on_each (x ∷ ms) m h =
    let apart =
      ==_ne (global_slot x) (global_slot m)
        (λ e. let same = cancel_slot x m e in ground (arith, same)) in
    ground (arith, apart, contains-on_each ms m)

Distinct-on_each : (ms : List MachineId) → Distinct ms → Distinct (slot_ids (on_each ms))
Distinct-on_each [] h = tt
Distinct-on_each (m ∷ ms) h = (contains-on_each ms m h.0, Distinct-on_each ms h.1)

module _ (spec : ServiceSpec) (machines : List MachineId)
    (current : Option (List ServiceReleaseSlot)) where
  -- A list of slots, each once, the i-th one of the name `slot-` and i + 1 on its home.
  pub record Replicated (count : ℕ) (ds : List DesiredSlot) : Type 0 where
    pub found : desired_slots spec machines current ≡ ok ds
    pub counted : length ds ≡ count
    pub distinct : Distinct (slot_ids ds)
    pub placed :
        (i : ℕ) (d : DesiredSlot)
        → get_elem? ds i ≡ some d
        → (d.slot_id ≡ replica_slot i)
          × (home (candidates_of machines) current i ≡ some d.machine_id)

  -- For a service of one to 65535 replicas `desired_slots` succeeds, whatever the machines and the
  -- current slots are: with as many slots as replicas, no two with one id, the i-th of them on the
  -- machine that has its slot now, or without one on the machine at i modulo their number.
  pub desired_slots-Replicated :
      (count : ℕ)
      → spec.placement ≡ replicated count
      → 1 ≤ count
      → count < 65536
      → (ds : List DesiredSlot) × Replicated count ds
  unfolding desired_slots slots_for
  desired_slots-Replicated count p lo hi =
      let cs = candidates_of machines in
      let some_machine = not_empty-candidates_of machines in
      let (ds, r, n, placed) = replicas_lem cs current count 0 some_machine in
      (
        ds,
        record {
          found = rw (some_machine, p, slots_for, ==_ne count 0 (λ e. omega arith)) r;
          counted = n;
          distinct = Distinct-slot_ids cs current 0 ds (omega arith) placed;
          placed = λ i d e.
              let at : 0 + i ≡ i = omega arith in
              subst (λ k. (d.slot_id ≡ replica_slot k) × (home cs current k ≡ some d.machine_id)) at
                (ArePlaced-get cs current 0 ds i d placed e);
        },
      )

  -- A service that is to run everywhere gets one slot on each of the machines, in their order, and
  -- no two slots have one id if no two machines have.
  pub desired_slots-global :
      spec.placement ≡ global
      → (ds : List DesiredSlot) × (desired_slots spec machines current ≡ ok ds)
        × (map (λ (d : DesiredSlot). d.machine_id) ds ≡ candidates_of machines)
        × (Distinct (candidates_of machines) → Distinct (slot_ids ds))
  unfolding desired_slots slots_for
  desired_slots-global p =
      let cs = candidates_of machines in
      (
        on_each cs,
        rw (not_empty-candidates_of machines, p, slots_for) refl,
        machines-on_each cs,
        Distinct-on_each cs,
      )
