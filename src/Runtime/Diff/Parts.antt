-- ===== src/Runtime/Diff/Parts.antt =====
-- When two entry points, networks, process modes, maps of ports or restart policies agree.
use ployz.Prelude.{
  both_true, ℕ, ◌≡◌, refl, sym, ap, ◌∙◌, subst, Bool, true, false, Option, none, some, List, [],
  ◌∷◌, ◌++◌, ◌==◌, Eq, ==_true, ==_refl, text_eq, option_eq, nat_eq, arith, Bool-cases, ◌⊎◌, inl,
  inr, ◌↔◌, if◌then◌else◌,
}
use ployz.Prelude.Int.{ℤ, pos, int_eq}
use ployz.Prelude.Map.{same_map}
use ployz.Prelude.Text.{Text, codes, starts_with}
use ployz.Runtime.{PolicyNames, RestartPolicy, PortMap, or_value}
use ployz.Runtime.Diff.{
  texts_eq, bindings_eq, entrypoint_equal, in_container, both_in_container, network_mode_equal,
  normalize_optional_string, pid_mode_equal, same_ports, policy_eq, never_restarts,
  normalize_restart_policy, restart_policy_equal,
}

pub ==_iff {ℓ} : {A : Type ℓ} ⦃e : Eq A⦄ (a b : A) → ((a == b) ≡ true) ↔ (a ≡ b)
==_iff a b = (==_true a b, λ p. rw p (==_refl b))

pub entrypoint_equal_iff :
    (o d : Option (List Text)) → (entrypoint_equal o d ≡ true) ↔ ((d ≡ none) ⊎ (o ≡ d))
entrypoint_equal_iff o none = (λ h. inl refl, λ h. refl)
entrypoint_equal_iff o (some d) =
    (λ h. inr (==_true o (some d) h), λ h. elim h [ inl e ↦ cc | inr e ↦ rw e (==_refl (some d)) ])

starts_with_iff : (s p : Text) → (starts_with s p ≡ true) ↔ ((rest : Text) × (s ≡ p ++ rest))
unfolding starts_with
starts_with_iff s [] = (λ h. (s, refl), λ h. refl)
starts_with_iff [] (c ∷ p) = (λ h. cc, λ h. cc (h.1))
starts_with_iff (b ∷ s) (c ∷ p) =
    let rest = starts_with_iff s p in
    (
      λ h.
          let (same, onward) = both_true (b == c) (starts_with s p) h in
          let head = ap (λ x. x ∷ s) (==_true b c same) in
          ((rest.0 onward).0, head ∙ ap (λ t. c ∷ t) (rest.0 onward).1),
      λ h.
          let same : b ≡ c = cc (h.1) in
          let onward : s ≡ p ++ h.0 = cc (h.1) in rw (same, ==_refl c) (rest.1 (h.0, onward)),
    )

-- The network of the container that the mode names.
abbrev pub JoinsContainer : Option Text → Type 0
JoinsContainer mode = (name : Text) × (mode ≡ some (codes "container:" ++ name))

-- The same mode, or the networks of two containers, whichever they are.
abbrev pub NetworkAgrees : Option Text → Option Text → Type 0
NetworkAgrees o d = (o ≡ d) ⊎ (JoinsContainer o × JoinsContainer d)

in_container_iff : (mode : Text) → (in_container mode ≡ true) ↔ JoinsContainer (some mode)
in_container_iff mode =
    let prefix = starts_with_iff mode (codes "container:") in
    (
      λ h. let (name, e) = prefix.0 h in (name, ap (λ m. some m) e),
      λ h. prefix.1 (h.0, ap (or_value []) h.1),
    )

both_in_container_iff :
    (o d : Option Text) → (both_in_container o d ≡ true) ↔ (JoinsContainer o × JoinsContainer d)
both_in_container_iff none d = (λ h. cc, λ h. cc (h.0.1))
both_in_container_iff (some o) none = (λ h. cc, λ h. cc (h.1.1))
both_in_container_iff (some o) (some d) =
    let first = in_container_iff o in
    let second = in_container_iff d in
    (
      λ h. (first.0 (ground arith), second.0 (ground arith)),
      λ h. rw (first.1 h.0, second.1 h.1) refl,
    )

pub network_mode_equal_iff :
    (o d : Option Text) → (network_mode_equal o d ≡ true) ↔ NetworkAgrees o d
unfolding network_mode_equal
network_mode_equal_iff o d =
    let both = both_in_container_iff o d in
    elim (Bool-cases (o == d)) [
      | inl same ↦ rw same (λ h. inl (==_true o d same), λ h. refl)
      | inr other ↦ rw other (
        λ h. inr (both.0 h),
        λ h. elim h [ inl e ↦ absurd (ground (arith, e, ==_refl d)) | inr joined ↦ both.1 joined ],
      )
    ]

-- No mode, or the empty one.
abbrev pub IsUnset : Option Text → Type 0
IsUnset mode = (mode ≡ none) ⊎ (mode ≡ some [])

abbrev pub PidAgrees : Option Text → Option Text → Type 0
PidAgrees o d = (o ≡ d) ⊎ (IsUnset o × IsUnset d)

set_mode : (c : ℕ) (cs : Text) → ¬ IsUnset (some (c ∷ cs))
set_mode c cs h = elim h [ inl e ↦ cc e | inr e ↦ cc e ]

normalized :
    (o d : Option Text)
    → (normalize_optional_string o ≡ normalize_optional_string d) ↔ PidAgrees o d
normalized none none = (λ h. inl refl, λ h. refl)
normalized none (some []) = (λ h. inr (inl refl, inr refl), λ h. refl)
normalized none (some (c ∷ d)) =
    (λ h. inl h, λ h. elim h [ inl e ↦ e | inr (u, v) ↦ absurd (set_mode c d v) ])
normalized (some []) none = (λ h. inr (inr refl, inl refl), λ h. refl)
normalized (some []) (some []) = (λ h. inl refl, λ h. refl)
normalized (some []) (some (c ∷ d)) =
    (λ h. cc h, λ h. elim h [ inl e ↦ cc e | inr (u, v) ↦ absurd (set_mode c d v) ])
normalized (some (b ∷ o)) none =
    (λ h. inl h, λ h. elim h [ inl e ↦ e | inr (u, v) ↦ absurd (set_mode b o u) ])
normalized (some (b ∷ o)) (some []) =
    (λ h. cc h, λ h. elim h [ inl e ↦ cc e | inr (u, v) ↦ absurd (set_mode b o u) ])
normalized (some (b ∷ o)) (some (c ∷ d)) =
    (λ h. inl h, λ h. elim h [ inl e ↦ e | inr (u, v) ↦ absurd (set_mode b o u) ])

pub pid_mode_equal_iff : (o d : Option Text) → (pid_mode_equal o d ≡ true) ↔ PidAgrees o d
unfolding pid_mode_equal
pid_mode_equal_iff o d =
    let same = ==_iff (normalize_optional_string o) (normalize_optional_string d) in
    let agree = normalized o d in (λ h. agree.0 (same.0 h), λ h. same.1 (agree.1 h))

-- No ports for both, or maps with the same entries.
abbrev pub PortsAgree : Option PortMap → Option PortMap → Type 0
PortsAgree o d =
    ((o ≡ none) × (d ≡ none))
    ⊎ ((a : PortMap) × (b : PortMap) × (o ≡ some a) × (d ≡ some b) × (same_map a b ≡ true))

pub same_ports_iff : (o d : Option PortMap) → (same_ports o d ≡ true) ↔ PortsAgree o d
unfolding same_ports
same_ports_iff none none = (λ h. inl (refl, refl), λ h. refl)
same_ports_iff none (some b) =
    (λ h. cc, λ h. elim h [ inl e ↦ cc (e.1) | inr (a, c, e, f, same) ↦ cc e ])
same_ports_iff (some a) none =
    (λ h. cc, λ h. elim h [ inl e ↦ cc (e.0) | inr (b, c, e, f, same) ↦ cc f ])
same_ports_iff (some a) (some b) = (
  λ h. inr (a, b, refl, refl, h),
  λ h. elim h [
    | inl e ↦ cc (e.0)
    | inr (a', b', e, f, same) ↦ rw (ap (or_value []) e, ap (or_value []) f) same
  ],
)

no_retries :
    (count : Option ℤ)
    → ((or_value (pos 0) count == pos 0) ≡ true) ↔ ((count ≡ none) ⊎ (count ≡ some (pos 0)))
no_retries none = (λ h. inl refl, λ h. ==_refl (pos 0))
no_retries (some k) = (
  λ h. inr (ap (λ k. some k) (==_true k (pos 0) h)),
  λ h. elim h [ inl e ↦ cc e | inr e ↦ rw (ap (or_value k) e) (==_refl (pos 0)) ],
)

module _ {N : PolicyNames} where
  -- A policy that never restarts a container: "no", without retries.
  abbrev pub NeverRestarts : RestartPolicy N → Type 0
  NeverRestarts p =
      (p.name ≡ some N.no)
      × ((p.maximum_retry_count ≡ none) ⊎ (p.maximum_retry_count ≡ some (pos 0)))

  -- The policies agree when none is asked for and the container has none or never restarts, or when
  -- they are the same one, which restarts.
  abbrev pub RestartAgrees : Option (RestartPolicy N) → Option (RestartPolicy N) → Type 0
  RestartAgrees o none = (p : RestartPolicy N) → o ≡ some p → NeverRestarts p
  RestartAgrees o (some d) = (o ≡ some d) × ¬ NeverRestarts d

  never_restarts_iff : (p : RestartPolicy N) → (never_restarts p ≡ true) ↔ NeverRestarts p
  never_restarts_iff p =
      let named = ==_iff ⦃e = option_eq ⦃e = N.name_eq⦄⦄ p.name (some N.no) in
      let counted = no_retries p.maximum_retry_count in
      (
        λ h. (named.0 (ground arith), counted.0 (ground arith)),
        λ h. rw (named.1 h.0, counted.1 h.1) refl,
      )

  normalized_if :
      (never : Bool) (p : RestartPolicy N) (d : Option (RestartPolicy N))
      → ((never ≡ true) ↔ NeverRestarts p)
      → ((if never then none else some p) ≡ d) ↔ RestartAgrees (some p) d
  normalized_if true p none same =
      (λ h q e. subst NeverRestarts (ap (or_value p) e) (same.0 refl), λ h. refl)
  normalized_if true p (some d) same =
      (λ h. cc h, λ h. absurd (h.1 (subst NeverRestarts (ap (or_value p) h.0) (same.0 refl))))
  normalized_if false p none same = (λ h. cc h, λ h. let wrong = same.1 (h p refl) in cc wrong)
  normalized_if false p (some d) same = (
    λ h. (h, λ n. let wrong = same.1 (subst NeverRestarts (sym (ap (or_value p) h)) n) in cc wrong),
    λ h. h.0,
  )

  normalized_policy :
      (o d : Option (RestartPolicy N)) → (normalize_restart_policy o ≡ d) ↔ RestartAgrees o d
  normalized_policy none none = (λ h p e. cc e, λ h. refl)
  normalized_policy none (some d) = (λ h. cc h, λ h. cc (h.0))
  normalized_policy (some p) d = normalized_if (never_restarts p) p d (never_restarts_iff p)

  pub restart_policy_equal_iff :
      (o d : Option (RestartPolicy N)) → (restart_policy_equal o d ≡ true) ↔ RestartAgrees o d
  unfolding restart_policy_equal
  restart_policy_equal_iff o d =
      let same = ==_iff (normalize_restart_policy o) d in
      let agree = normalized_policy o d in (λ h. agree.0 (same.0 h), λ h. same.1 (agree.1 h))

  pub RestartAgrees-refl :
      (d : Option (RestartPolicy N))
      → ((p : RestartPolicy N) → d ≡ some p → ¬ NeverRestarts p)
      → RestartAgrees d d
  RestartAgrees-refl none h = λ p e. cc e
  RestartAgrees-refl (some p) h = (refl, h p refl)
