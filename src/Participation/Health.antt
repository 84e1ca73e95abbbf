-- ===== src/Participation/Health.antt =====
-- When a round of the participation task counts as a healthy one.
use ployz.Prelude.{
  nat_eq, ℕ, ◌≡◌, ◌≢◌, ◌↔◌, ◌⊎◌, inl, inr, refl, sym, ap, ◌∙◌, subst, Bool, true, false, Option,
  none, some, List, [], ◌∷◌, arith, not, ◌&&◌, ◌==◌, ==_true, ==_ne, ==_refl, text_eq, keep,
  is_empty, All, All-mono, Bool-cases, if◌then◌else◌,
}
use ployz.Prelude.Map
use ployz.Prelude.Map.{Map}
use ployz.Model.Machine.{MachineId, MachineRecord, OverlayIp, disabled, participation_eq}
use ployz.Liveness.{machine_is_fresh}
use ployz.Liveness.Fresh.{IsFresh, machine_is_fresh_iff}
use ployz.PeerState.{TcpProbeResult, reachable, probe_status_eq}
use ployz.Participation.{
  Round, healthy, unhealthy, sample, round_health, takes_part, required_peers_for_participation,
  required_peers_health, required_peer_is_healthy, is_healthy, machine_ids,
}

module _ {ℓ} {A : Type ℓ} where
  keep-keep : (p q : A → Bool) (xs : List A) → keep p (keep q xs) ≡ keep (λ x. q x && p x) xs
  keep-keep p q [] = refl
  keep-keep p q (x ∷ xs) = ground (arith, keep-keep p q xs)

  keep-none : (t : A → Bool) (xs : List A) → (keep t xs ≡ []) ↔ All (λ x. t x ≡ false) xs
  keep-none t [] = (λ h. tt, λ h. refl)
  keep-none t (x ∷ xs) =
      let rest = keep-none t xs in
      elim (Bool-cases (t x)) [
        | inl kept ↦ (λ h. ground arith, λ h. ground arith)
        | inr dropped ↦ (λ h. (dropped, rest.0 (ground arith)), λ h. ground (arith, rest.1 h.1))
      ]

  kept_if {κ μ} :
      (P : A → Type κ) (b : Bool) (x : A) (xs : List A) {Q : Type μ}
      → (All P xs ↔ Q)
      → All P (if b then x ∷ xs else xs) ↔ ((b ≡ true → P x) × Q)
  kept_if P true x xs rest = (λ h. (λ e. h.0, rest.0 h.1), λ h. (h.0 refl, rest.1 h.1))
  kept_if P false x xs rest = (λ h. (λ e. cc e, rest.0 h), λ h. rest.1 h.1)

  All-kept_iff {κ} :
      (P : A → Type κ) (t : A → Bool) (xs : List A)
      → All P (keep t xs) ↔ All (λ x. t x ≡ true → P x) xs
  All-kept_iff P t [] = (λ h. tt, λ h. tt)
  All-kept_iff P t (x ∷ xs) = kept_if P (t x) x (keep t xs) (All-kept_iff P t xs)

-- The probe of the machine's address reached it.
pub record Reached {Net : Type 0} (results : Map OverlayIp TcpProbeResult) (m : MachineRecord Net)
    : Type 0 where
  pub result : TcpProbeResult
  pub probed : Map.get m.overlay_ip results ≡ some result
  pub answered : result.status ≡ reachable

-- The machine counts for the local one's participation: it is another one, takes part, and is fresh.
pub record IsRequired {Net : Type 0} (machine_id : MachineId) (now : ℕ) (m : MachineRecord Net)
    : Type 0 where
  pub other : m.id ≢ machine_id
  pub takes_part : m.participation ≢ disabled
  pub fresh : IsFresh m now

reachable_iff :
    (o : Option TcpProbeResult)
    → ((elim o [ none ↦ false | some r ↦ r.status == reachable ]) ≡ true)
      ↔ ((r : TcpProbeResult) × (o ≡ some r) × (r.status ≡ reachable))
reachable_iff none = (λ h. cc h, λ h. cc (h.1))
reachable_iff (some r) = (
  λ h. (r, refl, ==_true r.status reachable h),
  λ (q, e, up).
      let same =
        ap (λ (o : Option TcpProbeResult). elim o [ none ↦ r.status | some x ↦ x.status ]) e in
      rw (same, up) (==_refl reachable),
)

module _ {Net : Type 0} (results : Map OverlayIp TcpProbeResult) where
  required_peer_is_healthy_iff :
      (m : MachineRecord Net) → (required_peer_is_healthy m results ≡ true) ↔ Reached results m
  unfolding required_peer_is_healthy
  required_peer_is_healthy_iff m =
      let same = reachable_iff (Map.get m.overlay_ip results) in
      (
        λ h.
            let (r, probed, up) = same.0 h in record { result = r; probed = probed; answered = up },
        λ r. same.1 (r.result, r.probed, r.answered),
      )

  abbrev AllHealthy : List (MachineRecord Net) → Type 0
  AllHealthy = All (λ (m : MachineRecord Net). required_peer_is_healthy m results ≡ true)

  kept_none :
      (peers : List (MachineRecord Net))
      → (is_empty (machine_ids (keep (λ m. not (required_peer_is_healthy m results)) peers)) ≡ true)
        ↔ AllHealthy peers
  kept_none [] = (λ h. tt, λ h. refl)
  kept_none (m ∷ peers) =
      let rest = kept_none peers in
      elim (Bool-cases (required_peer_is_healthy m results)) [
        | inl q ↦ (λ h. (q, rest.0 (ground arith)), λ h. ground (arith, rest.1 h.1))
        | inr q ↦ (λ h. ground arith, λ h. ground arith)
      ]

  required_peers_health_lem :
      (readable : Bool) (peers : List (MachineRecord Net))
      → (is_healthy (required_peers_health readable results peers) ≡ true)
        ↔ ((peers ≡ []) ⊎ ((readable ≡ true) × AllHealthy peers))
  unfolding required_peers_health
  required_peers_health_lem readable [] = (λ h. inl refl, λ h. refl)
  required_peers_health_lem false (m ∷ peers) = (λ h. ground arith, λ h. ground arith)
  required_peers_health_lem true (m ∷ peers) =
      let step = kept_none (m ∷ peers) in
      (λ h. inr (refl, step.0 h), λ h. elim h [ inl e ↦ cc | inr (q, a) ↦ step.1 a ])

module _ {Net : Type 0} (machine_id : MachineId) (now : ℕ) where
  abbrev is_required : MachineRecord Net → Bool
  is_required m = (not (m.id == machine_id) && takes_part m) && machine_is_fresh m now

  required_lem :
      (machines : List (MachineRecord Net))
      → required_peers_for_participation machines machine_id now ≡ keep is_required machines
  unfolding required_peers_for_participation
  required_lem machines =
      ap (keep (λ (m : MachineRecord Net). machine_is_fresh m now))
        (keep-keep takes_part (λ m. not (m.id == machine_id)) machines)
      ∙ keep-keep (λ (m : MachineRecord Net). machine_is_fresh m now)
          (λ m. not (m.id == machine_id) && takes_part m) machines

  is_required_iff : (m : MachineRecord Net) → (is_required m ≡ true) ↔ IsRequired machine_id now m
  is_required_iff m =
      let fresh = machine_is_fresh_iff m now in
      (
        λ h. record {
          other = λ e.
              let named : (m.id == machine_id) ≡ true = rw e (==_refl machine_id) in
              absurd (ground (arith, h, named));
          takes_part = λ e.
              let named : (m.participation == disabled) ≡ true = rw e (==_refl disabled) in
              absurd (ground (arith, h, named));
          fresh = fresh.0 (ground arith);
        },
        λ r.
            rw
              (
                ==_ne m.id machine_id r.other,
                ==_ne m.participation disabled r.takes_part,
                fresh.1 r.fresh,
              )
              refl,
      )

healthy_if : (b : Bool) → ((if b then healthy else unhealthy) ≡ healthy) ↔ (b ≡ true)
healthy_if true = (λ e. refl, λ e. refl)
healthy_if false = (λ e. cc e, λ e. cc e)

module _ {Net : Type 0} (machine_id : MachineId) (round : Round Net) where
  abbrev pub IsNeeded : MachineRecord Net → Type 0
  IsNeeded = IsRequired machine_id round.now

  none_required_iff :
      (machines : List (MachineRecord Net))
      → (keep (is_required machine_id round.now) machines ≡ []) ↔ All (λ m. ¬ IsNeeded m) machines
  none_required_iff machines =
      let nothing = keep-none (is_required machine_id round.now) machines in
      (
        λ h.
            All-mono _ _ machines
              (λ m dropped r.
                let wrong = sym ((is_required_iff machine_id round.now m).1 r) ∙ dropped in
                cc wrong)
              (nothing.0 h),
        λ h. nothing.1 (All-mono _ _ machines (λ m other. dropped_if m other) h),
      )
    where
      dropped_if :
          (m : MachineRecord Net) → ¬ IsNeeded m → is_required machine_id round.now m ≡ false
      dropped_if m other = elim (Bool-cases (is_required machine_id round.now m)) [
        | inl q ↦ absurd (other ((is_required_iff machine_id round.now m).0 q))
        | inr q ↦ q
      ]

  all-Reached_iff :
      (machines : List (MachineRecord Net))
      → AllHealthy round.results (keep (is_required machine_id round.now) machines)
        ↔ All (λ m. IsNeeded m → Reached round.results m) machines
  all-Reached_iff machines =
      let kept =
        All-kept_iff (λ (m : MachineRecord Net). required_peer_is_healthy m round.results ≡ true)
          (is_required machine_id round.now) machines in
      (
        λ h.
            All-mono _ _ machines
              (λ m good r.
                (required_peer_is_healthy_iff round.results m).0
                  (good ((is_required_iff machine_id round.now m).1 r)))
              (kept.0 h),
        λ h. kept.1 (
            All-mono _ _ machines
              (λ m reached q.
                (required_peer_is_healthy_iff round.results m).1
                  (reached ((is_required_iff machine_id round.now m).0 q)))
              h),
      )

-- A round counts as healthy just when no machine of the store is required, or the device can be read
-- and the probes of all the required ones reached them. Required are the other machines that are not
-- disabled, not down, and have sent a heartbeat in the last thirty seconds.
pub round_health-healthy_iff :
    {Net : Type 0} (machine_id : MachineId) (round : Round Net)
    (machines : List (MachineRecord Net))
    → (sample (round_health machine_id round machines) ≡ healthy) ↔ (
        All (λ (m : MachineRecord Net). ¬ IsRequired machine_id round.now m) machines
        ⊎ ((round.readable ≡ true)
            × All
                (λ (m : MachineRecord Net).
                  IsRequired machine_id round.now m → Reached round.results m)
                machines))
round_health-healthy_iff machine_id round machines =
    let sampled = healthy_if (is_healthy (round_health machine_id round machines)) in
    let peers = required_lem machine_id round.now machines in
    let health =
      required_peers_health_lem round.results round.readable
        (required_peers_for_participation machines machine_id round.now) in
    let nothing = none_required_iff machine_id round machines in
    let reached = all-Reached_iff machine_id round machines in
    (
      λ h. elim (health.0 (sampled.0 h)) [
        | inl e ↦ inl (nothing.0 (sym peers ∙ e))
        | inr (q, a) ↦ inr (q, reached.0 (subst (AllHealthy round.results) peers a))
      ],
      λ h. sampled.1 (
          health.1 (elim h [
            | inl a ↦ inl (peers ∙ nothing.1 a)
            | inr (q, a) ↦ inr (q, subst (AllHealthy round.results) (sym peers) (reached.1 a))
          ])),
    )
