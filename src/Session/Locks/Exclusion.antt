-- ===== src/Session/Locks/Exclusion.antt =====
-- Mutual exclusion of deploys in a namespace, for any order of openings and ends.
use ployz.Prelude.{
  ◌≡◌, refl, sym, ap, subst, ◌∙◌, true, false, Option, none, some, List, [], ◌∷◌, ◌++◌, map, ◌==◌,
  text_eq, ==_refl, contains, Distinct, arith, Option-cases, inl, inr, ◌↔◌, if◌then◌else◌,
}
use ployz.Prelude.Map
use ployz.Prelude.Map.{get-insert, get-remove}
use ployz.Model.Error.{Error, Result, ok, err, is_ok, ok_injective}
use ployz.Model.Service.{DeployId}
use ployz.Model.Spec.{Namespace}
use ployz.Session.Locks.{Held, NamespaceLock, try_acquire, drop, already_locked}

-- A session that is open: its lock and its deploy.
pub record Open : Type 0 where
  pub lock : NamespaceLock
  pub deploy_id : DeployId

pub record Sessions : Type 0 where
  pub held : Held
  pub opens : List Open

abbrev pub namespace_of : Open → Namespace
namespace_of o = o.lock.namespace

-- The sessions without the one of a position.
abbrev pub end_of : List Open → List Open → List Open
end_of before after = before ++ after

-- A session is opened when it gets its lock; any open session may end, by its close or by its failure.
pub data Step : Sessions → Sessions → Type 0 where
  opened :
      {s : Sessions} (ns : Namespace) (d : DeployId) (held : Held) (lock : NamespaceLock)
      → try_acquire s.held ns d ≡ (held, ok lock)
      → Step s (record { held = held; opens = record { lock = lock; deploy_id = d } ∷ s.opens })
  refused :
      {s : Sessions} (ns : Namespace) (d : DeployId) (held : Held) (e : Error)
      → try_acquire s.held ns d ≡ (held, err e)
      → Step s (record s { held = held })
  ended :
      {s : Sessions} (before : List Open) (o : Open) (after : List Open)
      → s.opens ≡ before ++ (o ∷ after)
      → Step s (record { held = drop s.held o.lock; opens = before ++ after })

pub data Reach : Sessions → Type 0 where
  start : Reach (record { held = []; opens = [] })
  later : {s t : Sessions} → Reach s → Step s t → Reach t

-- The session of a namespace, by the list of the open ones.
abbrev deploy_of : List Open → Namespace → Option DeployId
deploy_of [] ns = none
deploy_of (o ∷ os) ns =
    let rest = deploy_of os ns in if namespace_of o == ns then some o.deploy_id else rest

abbrev pub namespaces : List Open → List Namespace
namespaces = map namespace_of

-- The table is the list of the open sessions, of which there is one for a namespace at most.
record IsExclusive (s : Sessions) : Type 0 where
  table : (ns : Namespace) → Map.get ns s.held ≡ deploy_of s.opens ns
  distinct : Distinct (namespaces s.opens)

deploy_of-none :
    (os : List Open) (ns : Namespace) → deploy_of os ns ≡ none → contains (namespaces os) ns ≡ false
deploy_of-none [] ns h = refl
deploy_of-none (o ∷ os) ns h = ground (arith, deploy_of-none os ns)

none-deploy_of :
    (os : List Open) (ns : Namespace) → contains (namespaces os) ns ≡ false → deploy_of os ns ≡ none
none-deploy_of [] ns h = refl
none-deploy_of (o ∷ os) ns h = ground (arith, none-deploy_of os ns)

try_acquire-free :
    (held : Held) (ns : Namespace) (d : DeployId)
    → Map.get ns held ≡ none
    → try_acquire held ns d ≡ (Map.insert ns d held, ok (record { namespace = ns }))
unfolding try_acquire
try_acquire-free held ns d free = rw (free, try_acquire) refl

try_acquire-taken :
    (held : Held) (ns : Namespace) (d current : DeployId)
    → Map.get ns held ≡ some current
    → try_acquire held ns d ≡ (held, err (already_locked ns current))
unfolding try_acquire
try_acquire-taken held ns d current taken = rw (taken, try_acquire) refl

abbrev Outcome : Type 0
Outcome = Held × Result Error NamespaceLock

acquired :
    (held held' : Held) (ns : Namespace) (d : DeployId) (lock : NamespaceLock)
    → try_acquire held ns d ≡ (held', ok lock)
    → (Map.get ns held ≡ none) × (Map.insert ns d held ≡ held') × (ns ≡ lock.namespace)
acquired held held' ns d lock h = elim (Option-cases (Map.get ns held)) [
  | inl free ↦
      let same = sym (try_acquire-free held ns d free) ∙ h in
      (
        free,
        ap (λ (x : Outcome). x.0) same,
        ap (λ (l : NamespaceLock). l.namespace) (ok_injective (ap (λ (x : Outcome). x.1) same)),
      )
  | inr (current, taken) ↦
      let other = ap (λ (x : Outcome). x.1) (sym (try_acquire-taken held ns d current taken) ∙ h) in
      cc other
]

rejected :
    (held held' : Held) (ns : Namespace) (d : DeployId) (e : Error)
    → try_acquire held ns d ≡ (held', err e)
    → held ≡ held'
rejected held held' ns d e h = elim (Option-cases (Map.get ns held)) [
  | inl free ↦
      let other = ap (λ (x : Outcome). x.1) (sym (try_acquire-free held ns d free) ∙ h) in cc other
  | inr (current, taken) ↦
      ap (λ (x : Outcome). x.0) (sym (try_acquire-taken held ns d current taken) ∙ h)
]

contains-without :
    (before : List Open) (o : Open) (after : List Open) (ns : Namespace)
    → contains (namespaces (before ++ (o ∷ after))) ns ≡ false
    → contains (namespaces (before ++ after)) ns ≡ false
contains-without [] o after ns h = ground arith
contains-without (b ∷ before) o after ns h = ground (arith, contains-without before o after ns)

ended-Distinct :
    (before : List Open) (o : Open) (after : List Open)
    → Distinct (namespaces (before ++ (o ∷ after)))
    → Distinct (namespaces (before ++ after))
ended-Distinct [] o after u = u.1
ended-Distinct (b ∷ before) o after u =
    (contains-without before o after (namespace_of b) u.0, ended-Distinct before o after u.1)

contains-ended :
    (before : List Open) (o : Open) (after : List Open)
    → contains (namespaces (before ++ (o ∷ after))) (namespace_of o) ≡ true
contains-ended [] o after = ground (arith, ==_refl (namespace_of o))
contains-ended (b ∷ before) o after = ground (arith, contains-ended before o after)

deploy_of-ended :
    (before : List Open) (o : Open) (after : List Open) (ns : Namespace)
    → Distinct (namespaces (before ++ (o ∷ after)))
    → deploy_of (before ++ after) ns
      ≡ (if ns == namespace_of o then none else deploy_of (before ++ (o ∷ after)) ns)
deploy_of-ended [] o after ns u = ground (arith, none-deploy_of after ns)
deploy_of-ended (b ∷ before) o after ns u =
    ground (arith, deploy_of-ended before o after ns u.1, contains-ended before o after)

ended-table :
    (held : Held) (before : List Open) (o : Open) (after : List Open) (k : Namespace)
    → Distinct (namespaces (before ++ (o ∷ after)))
    → Map.get k held ≡ deploy_of (before ++ (o ∷ after)) k
    → Map.get k (Map.remove (namespace_of o) held) ≡ deploy_of (before ++ after) k
ended-table held before o after k u h =
    ground (arith, get-remove k (namespace_of o) held, deploy_of-ended before o after k u)

opened-table :
    (held : Held) (os : List Open) (ns : Namespace) (d : DeployId) (lock : NamespaceLock)
    (k : Namespace)
    → Map.get k held ≡ deploy_of os k
    → ns ≡ lock.namespace
    → Map.get k (Map.insert ns d held) ≡ deploy_of (record { lock = lock; deploy_id = d } ∷ os) k
opened-table held os ns d lock k h same = ground (arith, get-insert k ns d held)

Step-IsExclusive : {s t : Sessions} → Step s t → IsExclusive s → IsExclusive t
unfolding drop
Step-IsExclusive {s} (Step.opened ns d held lock h) x =
    let (free, inserted, same) = acquired s.held held ns d lock h in
    record {
      table = λ k.
          subst (λ m. Map.get k m ≡ deploy_of (record { lock = lock; deploy_id = d } ∷ s.opens) k)
            inserted (opened-table s.held s.opens ns d lock k (x.table k) same);
      distinct = (
        subst (λ n. contains (namespaces s.opens) n ≡ false) same
            (deploy_of-none s.opens ns (sym (x.table ns) ∙ free)),
        x.distinct,
      );
    }
Step-IsExclusive {s} (Step.refused ns d held e h) x = record {
  table = λ k.
      subst (λ m. Map.get k m ≡ deploy_of s.opens k) (rejected s.held held ns d e h) (x.table k);
  distinct = x.distinct;
}
Step-IsExclusive {s} (Step.ended before o after e) x =
    let u = subst (λ os. Distinct (namespaces os)) e x.distinct in
    record {
      table = λ k. ended-table s.held before o after k u (x.table k ∙ ap (λ os. deploy_of os k) e);
      distinct = ended-Distinct before o after u;
    }

Reach-IsExclusive : {s : Sessions} → Reach s → IsExclusive s
unfolding Map.get
Reach-IsExclusive Reach.start = record { table = λ ns. refl; distinct = tt }
Reach-IsExclusive (Reach.later r st) = Step-IsExclusive st (Reach-IsExclusive r)

acquires_iff :
    (held : Held) (ns : Namespace) (d : DeployId)
    → (is_ok (try_acquire held ns d).1 ≡ true) ↔ (Map.get ns held ≡ none)
acquires_iff held ns d = elim (Option-cases (Map.get ns held)) [
  | inl free ↦ (λ h. free, λ h. ap (λ (x : Outcome). is_ok x.1) (try_acquire-free held ns d free))
  | inr (current, taken) ↦ (
    λ h. absurd (
        ground
          (arith, h, ap (λ (x : Outcome). is_ok x.1) (try_acquire-taken held ns d current taken))),
    λ h. absurd (ground (arith, h, taken)),
  )
]

-- After any openings, refusals and ends of sessions, in any order, no namespace has two open sessions,
-- and a deploy can get the lock of a namespace exactly when no session of it is open (so that an end,
-- by a close or by a failure, always frees it).
pub Reach-exclusive :
    {s : Sessions}
    → Reach s
    → Distinct (namespaces s.opens)
      × ((ns : Namespace) (d : DeployId)
          → (is_ok (try_acquire s.held ns d).1 ≡ true) ↔ (contains (namespaces s.opens) ns ≡ false))
Reach-exclusive {s} r =
    let x = Reach-IsExclusive r in
    (
      x.distinct,
      λ ns d.
          let free = acquires_iff s.held ns d in
          (
            λ h. deploy_of-none s.opens ns (sym (x.table ns) ∙ free.0 h),
            λ h. free.1 (x.table ns ∙ none-deploy_of s.opens ns h),
          ),
    )
