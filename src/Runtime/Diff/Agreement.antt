-- ===== src/Runtime/Diff/Agreement.antt =====
-- When a container agrees with its specification.
use ployz.Prelude.{
  ◌≡◌, refl, ap, Bool, true, false, none, some, List, [], ◌∷◌, ◌==◌, ==_true, ==_refl, text_eq,
  option_eq, bool_eq, pair_eq, nat_eq, length, not, arith, ◌⊎◌, inl, inr, ◌↔◌, Bool-cases,
  if◌then◌else◌, sym, ◌∙◌,
}
use mathlib.Core.List.{Perm}
use ployz.Prelude.Int.{int_eq}
use ployz.Prelude.Map.{same_map}
use ployz.Prelude.Text.{Text}
use ployz.Prelude.Compare.{
  compare_text, compare_text-IsOrder, compare_text-eq, then-IsOrder, by_key-IsOrder, is_le_total,
  IsOrder, then_with,
}
use ployz.Prelude.Sort.{sort_by}
use ployz.Prelude.Sort.Unique.{sort_by-eq_iff, length-sort_by}
use ployz.Runtime.{PolicyNames, RuntimeContainerSpec, ObservedContainer}
use ployz.Runtime.Diff.Environment.{EnvAgrees, compared_env-EnvAgrees, EnvAgrees-compared_env}
use ployz.Runtime.Diff.Parts.{
  ==_iff, entrypoint_equal_iff, NetworkAgrees, network_mode_equal_iff, PidAgrees,
  pid_mode_equal_iff, PortsAgree, same_ports_iff, RestartAgrees, restart_policy_equal_iff,
}
use ployz.Runtime.Diff.{
  ChangedField, in_sync, missing, texts_eq, entrypoint_equal, pair_le, text_le, compared_env,
  env_equal, sorted_eq, network_mode_equal, pid_mode_equal, changed, change_of, same_ports,
  policy_eq, restart_policy_equal, changed_fields, eval_spec_change,
}

-- The first field that does not agree is the head of the list.
changed-nil :
    (same : Bool) (field : ChangedField) (rest : List ChangedField)
    → changed same field rest ≡ []
    → (same ≡ true) × (rest ≡ [])
changed-nil true field rest h = (refl, h)
changed-nil false field rest h = cc

text_antisym : (a b : Text) → text_le a b ≡ true → text_le b a ≡ true → a ≡ b
text_antisym a b h k = ground (arith, compare_text-IsOrder.swap a b, compare_text-eq a b)

pair_antisym : (a b : Text × Text) → pair_le a b ≡ true → pair_le b a ≡ true → a ≡ b
pair_antisym (a, b) (c, d) h k = ground (
  arith,
  compare_text-IsOrder.swap a c,
  compare_text-IsOrder.swap b d,
  compare_text-eq a c,
  compare_text-eq b d,
)

text_sort :
    (a b : List Text)
    → (◌==◌ ⦃e = texts_eq⦄ (sort_by text_le a) (sort_by text_le b) ≡ true) ↔ Perm a b
text_sort =
    sort_by-eq_iff text_le (is_le_total compare_text-IsOrder) compare_text-IsOrder.trans
      text_antisym

sorted_lengths : (a b : List Text) → sort_by text_le a ≡ sort_by text_le b → length a ≡ length b
sorted_lengths a b e = sym (length-sort_by text_le a) ∙ ap length e ∙ length-sort_by text_le b

pair-IsOrder :
    IsOrder (λ (a b : Text × Text). then_with (compare_text a.0 b.0) (compare_text a.1 b.1))
pair-IsOrder =
    then-IsOrder (by_key-IsOrder (λ (a : Text × Text). a.0) compare_text-IsOrder)
      (by_key-IsOrder (λ (a : Text × Text). a.1) compare_text-IsOrder)

sorted_eq_iff : (a b : List Text) → (sorted_eq a b ≡ true) ↔ Perm a b
unfolding sorted_eq
sorted_eq_iff a b =
    let same = text_sort a b in
    elim (Bool-cases (length a == length b)) [
      | inl long ↦ rw long same
      | inr other ↦ rw other (
        λ h. cc,
        λ p. absurd (
            ground (
              arith,
              other,
              ==_refl (length b),
              sorted_lengths a b (==_true ⦃e = texts_eq⦄ _ _ (same.1 p)),
            )),
      )
    ]

env_equal_iff : (o d : List (Text × Text)) → (env_equal o d ≡ true) ↔ EnvAgrees o d
unfolding env_equal
env_equal_iff o d =
    let same =
      sort_by-eq_iff pair_le (is_le_total pair-IsOrder) pair-IsOrder.trans pair_antisym
        (compared_env o d) d in
    (λ h. compared_env-EnvAgrees o d (same.0 h), λ h. same.1 (EnvAgrees-compared_env o d h))

change_of-in_sync : (fields : List ChangedField) → change_of fields ≡ in_sync → fields ≡ []
change_of-in_sync [] h = refl
change_of-in_sync (f ∷ fs) h = cc

in_sync_iff :
    (running : Bool) (fields : List ChangedField)
    → ((if not running then missing else change_of fields) ≡ in_sync)
      ↔ ((running ≡ true) × (fields ≡ []))
in_sync_iff true fields = (λ h. (refl, change_of-in_sync fields h), λ h. rw (h.1) refl)
in_sync_iff false fields = (λ h. cc, λ h. cc (h.0))

module _ {N : PolicyNames} where
  -- Lists of texts agree up to their order, maps when they have the same entries, and an entry point
  -- when it is the one asked for, if any is.
  pub record Agrees (o : ObservedContainer N) (d : RuntimeContainerSpec N) : Type 0 where
    pub image : o.image ≡ d.image
    pub cmd : o.cmd ≡ d.cmd
    pub entrypoint : (d.entrypoint ≡ none) ⊎ (o.entrypoint ≡ d.entrypoint)
    pub env : EnvAgrees o.env d.env
    pub binds : Perm o.binds d.binds
    pub tmpfs : same_map o.tmpfs d.tmpfs ≡ true
    pub dns_servers : Perm o.dns_servers d.dns_servers
    pub network_mode : NetworkAgrees o.network_mode d.network_mode
    pub port_bindings : PortsAgree o.port_bindings d.port_bindings
    pub cap_add : Perm o.cap_add d.cap_add
    pub cap_drop : Perm o.cap_drop d.cap_drop
    pub privileged : o.privileged ≡ d.privileged
    pub user : o.user ≡ d.user
    pub restart_policy : RestartAgrees o.restart_policy d.restart_policy
    pub memory_bytes : o.memory_bytes ≡ d.memory_bytes
    pub nano_cpus : o.nano_cpus ≡ d.nano_cpus
    pub sysctls : same_map o.sysctls d.sysctls ≡ true
    pub stop_timeout : o.stop_timeout ≡ d.stop_timeout
    pub pid_mode : PidAgrees o.pid_mode d.pid_mode

  agrees :
      (o : ObservedContainer N) (d : RuntimeContainerSpec N) → changed_fields o d ≡ [] → Agrees o d
  unfolding changed_fields
  agrees o d h0 =
      let (t1, h1) = changed-nil (o.image == d.image) ChangedField.image _ h0 in
      let (t2, h2) = changed-nil (o.cmd == d.cmd) ChangedField.cmd _ h1 in
      let (t3, h3) =
        changed-nil (entrypoint_equal o.entrypoint d.entrypoint) ChangedField.entrypoint _ h2 in
      let (t4, h4) = changed-nil (env_equal o.env d.env) ChangedField.env _ h3 in
      let (t5, h5) = changed-nil (sorted_eq o.binds d.binds) ChangedField.binds _ h4 in
      let (t6, h6) = changed-nil (same_map o.tmpfs d.tmpfs) ChangedField.tmpfs _ h5 in
      let (t7, h7) =
        changed-nil (sorted_eq o.dns_servers d.dns_servers) ChangedField.dns_servers _ h6 in
      let (t8, h8) =
        changed-nil (network_mode_equal o.network_mode d.network_mode) ChangedField.network_mode _
          h7 in
      let (t9, h9) =
        changed-nil (same_ports o.port_bindings d.port_bindings) ChangedField.port_bindings _ h8 in
      let (t10, h10) = changed-nil (sorted_eq o.cap_add d.cap_add) ChangedField.cap_add _ h9 in
      let (t11, h11) = changed-nil (sorted_eq o.cap_drop d.cap_drop) ChangedField.cap_drop _ h10 in
      let (t12, h12) = changed-nil (o.privileged == d.privileged) ChangedField.privileged _ h11 in
      let (t13, h13) = changed-nil (o.user == d.user) ChangedField.user _ h12 in
      let (t14, h14) =
        changed-nil (restart_policy_equal o.restart_policy d.restart_policy)
          ChangedField.restart_policy _ h13 in
      let (t15, h15) =
        changed-nil (o.memory_bytes == d.memory_bytes) ChangedField.memory_bytes _ h14 in
      let (t16, h16) = changed-nil (o.nano_cpus == d.nano_cpus) ChangedField.nano_cpus _ h15 in
      let (t17, h17) = changed-nil (same_map o.sysctls d.sysctls) ChangedField.sysctls _ h16 in
      let (t18, h18) =
        changed-nil (o.stop_timeout == d.stop_timeout) ChangedField.stop_timeout _ h17 in
      let (t19, h19) =
        changed-nil (pid_mode_equal o.pid_mode d.pid_mode) ChangedField.pid_mode _ h18 in
      record {
        image = (==_iff (o.image) (d.image)).0 t1;
        cmd = (==_iff (o.cmd) (d.cmd)).0 t2;
        entrypoint = (entrypoint_equal_iff o.entrypoint d.entrypoint).0 t3;
        env = (env_equal_iff o.env d.env).0 t4;
        binds = (sorted_eq_iff o.binds d.binds).0 t5;
        tmpfs = t6;
        dns_servers = (sorted_eq_iff o.dns_servers d.dns_servers).0 t7;
        network_mode = (network_mode_equal_iff o.network_mode d.network_mode).0 t8;
        port_bindings = (same_ports_iff o.port_bindings d.port_bindings).0 t9;
        cap_add = (sorted_eq_iff o.cap_add d.cap_add).0 t10;
        cap_drop = (sorted_eq_iff o.cap_drop d.cap_drop).0 t11;
        privileged = (==_iff (o.privileged) (d.privileged)).0 t12;
        user = (==_iff (o.user) (d.user)).0 t13;
        restart_policy = (restart_policy_equal_iff o.restart_policy d.restart_policy).0 t14;
        memory_bytes = (==_iff (o.memory_bytes) (d.memory_bytes)).0 t15;
        nano_cpus = (==_iff (o.nano_cpus) (d.nano_cpus)).0 t16;
        sysctls = t17;
        stop_timeout = (==_iff (o.stop_timeout) (d.stop_timeout)).0 t18;
        pid_mode = (pid_mode_equal_iff o.pid_mode d.pid_mode).0 t19;
      }

  no_changes :
      (o : ObservedContainer N) (d : RuntimeContainerSpec N) → Agrees o d → changed_fields o d ≡ []
  unfolding changed_fields
  no_changes o d a =
      rw
        (
          (==_iff (o.image) (d.image)).1 a.image,
          (==_iff (o.cmd) (d.cmd)).1 a.cmd,
          (entrypoint_equal_iff o.entrypoint d.entrypoint).1 a.entrypoint,
          (env_equal_iff o.env d.env).1 a.env,
          (sorted_eq_iff o.binds d.binds).1 a.binds,
          a.tmpfs,
          (sorted_eq_iff o.dns_servers d.dns_servers).1 a.dns_servers,
          (network_mode_equal_iff o.network_mode d.network_mode).1 a.network_mode,
          (same_ports_iff o.port_bindings d.port_bindings).1 a.port_bindings,
          (sorted_eq_iff o.cap_add d.cap_add).1 a.cap_add,
          (sorted_eq_iff o.cap_drop d.cap_drop).1 a.cap_drop,
          (==_iff (o.privileged) (d.privileged)).1 a.privileged,
          (==_iff (o.user) (d.user)).1 a.user,
          (restart_policy_equal_iff o.restart_policy d.restart_policy).1 a.restart_policy,
          (==_iff (o.memory_bytes) (d.memory_bytes)).1 a.memory_bytes,
          (==_iff (o.nano_cpus) (d.nano_cpus)).1 a.nano_cpus,
          a.sysctls,
          (==_iff (o.stop_timeout) (d.stop_timeout)).1 a.stop_timeout,
          (pid_mode_equal_iff o.pid_mode d.pid_mode).1 a.pid_mode,
        )
        refl

  -- A container that is there is in sync exactly when it runs and agrees with its specification: in the
  -- image, the command, the user, the privileges, the limits and the stop timeout; in the binds, the
  -- name servers and the capabilities up to their order; in the maps up to theirs; in the entry point
  -- when one is asked for; in the variables up to their order, and up to values for PATH when it is not
  -- asked for; in the network mode, where any two that join a container agree; in the process mode,
  -- where none agrees with the empty text; and in the restart policy, where one that never restarts
  -- agrees with none asked for, and is never agreed with when it is asked for itself.
  pub eval_spec_change-in_sync_iff :
      (o : ObservedContainer N) (d : RuntimeContainerSpec N)
      → (eval_spec_change (some o) d ≡ in_sync) ↔ ((o.running ≡ true) × Agrees o d)
  unfolding eval_spec_change
  eval_spec_change-in_sync_iff o d =
      let same = in_sync_iff o.running (changed_fields o d) in
      (λ h. ((same.0 h).0, agrees o d (same.0 h).1), λ h. same.1 (h.0, no_changes o d h.1))
