-- ===== src/SelfRecord/Acknowledged.antt =====
-- The record of the local machine is what the acknowledged mutations make of it.
use ployz.Prelude.{
  ◌≡◌, ◌⊎◌, inl, inr, refl, sym, ◌∙◌, Option, none, some, List, [], ◌∷◌, Eq, Bool-cases, subst, ◌≢◌,
  if◌then◌else◌,
}
use mathlib.Core.Option.{some-injective}
use ployz.Model.Error.{Error, Result, ok, err}
use ployz.Model.Machine.{MachineRecord, same_record, same_record-eq}
use ployz.SelfRecord.{SelfRecordMutation, MachineStoreApi, apply_mutation, Writer, write, settle}

Result-cases :
    {A : Type 0} (x : A × Result Error (Unit {0}))
    → ((a : A) × (x ≡ (a, ok tt))) ⊎ ((a : A) × (y : Error) × (x ≡ (a, err y)))
Result-cases (a, ok tt) = inl (a, refl)
Result-cases (a, err y) = inr (a, y, refl)

-- The record after a list of mutations.
abbrev pub fold :
    {Net : Type 0} → MachineRecord Net → List (SelfRecordMutation Net) → MachineRecord Net
fold r [] = r
fold r (m ∷ ms) = fold (apply_mutation r m) ms

module _ {Net : Type 0} ⦃e : Eq Net⦄ (S : MachineStoreApi Net) where
  abbrev pub run : Writer S → List (SelfRecordMutation Net) → Writer S
  run w [] = w
  run w (m ∷ ms) = run (write S w m).0 ms

  abbrev pub acknowledge :
      SelfRecordMutation Net
      → Option (MachineRecord Net)
      → List (SelfRecordMutation Net)
      → List (SelfRecordMutation Net)
  acknowledge m none rest = rest
  acknowledge m (some r) rest = m ∷ rest

  -- The mutations of a run that are answered with a record.
  abbrev pub acknowledged : Writer S → List (SelfRecordMutation Net) → List (SelfRecordMutation Net)
  acknowledged w [] = []
  acknowledged w (m ∷ ms) = acknowledge m (write S w m).1 (acknowledged (write S w m).0 ms)

  pub record Outcome (w : Writer S) (m : SelfRecordMutation Net) : Type 0 where
    pub agree : (write S w m).0.authoritative_self ≡ (write S w m).0.current
    pub effect :
        (((write S w m).1 ≡ none) × ((write S w m).0.current ≡ w.current))
        ⊎ (((write S w m).1 ≡ some (apply_mutation w.current m))
            × ((write S w m).0.current ≡ apply_mutation w.current m))

  write_lem :
      (w : Writer S) (m : SelfRecordMutation Net) → w.authoritative_self ≡ w.current → Outcome w m
  unfolding write
  write_lem w m h =
      let next = apply_mutation w.current m in
      elim (Bool-cases (same_record next w.current)) [
        | inl q ↦ record {
          agree = rw (q, write) h;
          effect = rw (q, write) (inr (refl, sym (same_record-eq next w.current q)));
        }
        | inr q ↦ elim (Result-cases (S.upsert_self_machine w.store next)) [
          | inl (s, p) ↦ record {
            agree = rw (q, p, write) refl;
            effect = rw (q, p, write) (inr (refl, refl));
          }
          | inr (s, x, p) ↦ record {
            agree = rw (q, p, write) h;
            effect = rw (q, p, write) (inl (refl, refl));
          }
        ]
      ]

  fold_step :
      (w : Writer S) (m : SelfRecordMutation Net) (rest : List (SelfRecordMutation Net))
      → Outcome w m
      → fold (write S w m).0.current rest ≡ fold w.current (acknowledge m (write S w m).1 rest)
  fold_step w m rest h = elim h.effect [ inl (q, c) ↦ rw (q, c) refl | inr (q, c) ↦ rw (q, c) refl ]

  -- When the shared record is the writer's own, after any commands, whatever the store answers to
  -- the writes, the shared record is what the mutations that were answered with a record make of
  -- the first one, in their order, and the others have left no trace in it.
  pub run-authoritative_self :
      (w : Writer S) (ms : List (SelfRecordMutation Net))
      → w.authoritative_self ≡ w.current
      → (run w ms).authoritative_self ≡ fold w.current (acknowledged w ms)
  run-authoritative_self w [] h = h
  run-authoritative_self w (m ∷ ms) h =
      let o = write_lem w m h in
      run-authoritative_self (write S w m).0 ms o.agree
      ∙ fold_step w m (acknowledged (write S w m).0 ms) o

  -- A write that the store accepts is what the store then has for the machine.
  pub record IsDurable : Type 0 where
    pub accepted :
        (s : S.State) (r : MachineRecord Net)
        → (S.upsert_self_machine s r).1 ≡ ok tt
        → S.machine (S.upsert_self_machine s r).0 r.id ≡ some r

  settle_stored :
      (w : Writer S) (next r : MachineRecord Net) (x : S.State × Result Error (Unit {0}))
      → (x.1 ≡ ok tt → S.machine x.0 next.id ≡ some next)
      → (settle S w next x).1 ≡ some r
      → S.machine (settle S w next x).0.store r.id ≡ some r
  settle_stored w next r (s, ok tt) d h = subst (λ z. S.machine s z.id ≡ some z) (cc) (d refl)
  settle_stored w next r (s, err x) d h = cc

  -- With a store that has what it accepts, a command that is answered with a record other than the
  -- one before it leaves that record in the store.
  pub write-stored :
      (d : IsDurable) (w : Writer S) (m : SelfRecordMutation Net) (r : MachineRecord Net)
      → (write S w m).1 ≡ some r
      → r ≢ w.current
      → S.machine (write S w m).0.store r.id ≡ some r
  unfolding write
  write-stored d w m r h n =
      let next = apply_mutation w.current m in
      elim (Bool-cases (same_record next w.current)) [
        | inl q ↦ absurd (
            n (
              some-injective r next (sym h ∙ rw (q, write) refl) ∙ same_record-eq next w.current q))
        | inr q ↦
            rw (q, write)
              (settle_stored w next r (S.upsert_self_machine w.store next) (d.accepted w.store next)
                (subst
                  (λ b.
                    (if b
                      then (w, some next)
                      else settle S w next (S.upsert_self_machine w.store next)).1
                    ≡ some r)
                  q h))
      ]
