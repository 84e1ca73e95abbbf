-- ===== src/Runtime/Diff.antt =====
-- The drift of a container from its specification:
-- crates/ployz-runtime-backends/src/runtime/diff.rs.
pub mod Environment
pub mod Parts
pub mod Agreement
use mathlib.Core.Logic.{dite}
use ployz.Prelude.{
  ◌≡◌, ap, ℕ, Bool, true, false, Option, none, some, List, [], ◌∷◌, map, not, ◌||◌, ◌&&◌, ◌==◌, Eq,
  text_eq, nat_eq, pair_eq, option_eq, list_eq, bool_eq, any, keep, is_empty, length, if◌then◌else◌,
}
use ployz.Prelude.Int.{ℤ, pos, int_eq}
use ployz.Prelude.Map
use ployz.Prelude.Map.{same_map}
use ployz.Prelude.Text.{Text, codes, starts_with}
use ployz.Prelude.Compare.{compare_text, then_with, is_le}
use ployz.Prelude.Sort.{sort_by}
use ployz.Runtime.{
  PolicyNames, RestartPolicy, PortBinding, PortMap, RuntimeContainerSpec, ObservedContainer,
  or_value,
}
use ployz.Runtime.Labels.{
  label_key, label_managed, label_kind, label_parent_id, legacy_label_config_hash,
  legacy_label_parent_id,
}

pub data ChangedField : Type 0 where
  image cmd entrypoint env binds tmpfs dns_servers network_mode port_bindings cap_add cap_drop
        privileged user restart_policy memory_bytes nano_cpus sysctls stop_timeout pid_mode :
      ChangedField

pub data SpecChange : Type 0 where
  in_sync : SpecChange
  missing : SpecChange
  drifted : (fields : List ChangedField) → SpecChange

abbrev pub is_in_sync : SpecChange → Bool
is_in_sync in_sync = true
is_in_sync missing = false
is_in_sync (drifted fields) = false

instance abbrev pub texts_eq : Eq (List Text)
texts_eq = list_eq

instance abbrev pub bindings_eq : Eq (List PortBinding)
bindings_eq = list_eq

abbrev pub entrypoint_equal : Option (List Text) → Option (List Text) → Bool
entrypoint_equal observed none = true
entrypoint_equal observed (some desired) = observed == some desired

-- The order of pairs of texts.
abbrev pub pair_le : Text × Text → Text × Text → Bool
pair_le (a, b) (c, d) = is_le (then_with (compare_text a c) (compare_text b d))

abbrev pub text_le : Text → Text → Bool
text_le a b = is_le (compare_text a b)

abbrev pub path_name : Text
path_name = codes "PATH"

abbrev pub names_path : Text × Text → Bool
names_path (key, value) = key == path_name

-- The variables of the environment that are compared.
abbrev pub compared_env : List (Text × Text) → List (Text × Text) → List (Text × Text)
compared_env observed desired =
    let ignore_path = not (any names_path desired) in
    keep (λ e. not (ignore_path && names_path e)) observed

unfoldable pub env_equal : List (Text × Text) → List (Text × Text) → Bool
unfolding sort_by compare_text list_eq pair_eq text_eq
env_equal observed desired =
    ◌==◌ ⦃e = list_eq⦄ (sort_by pair_le (compared_env observed desired)) (sort_by pair_le desired)

unfoldable pub sorted_eq : List Text → List Text → Bool
unfolding sort_by compare_text list_eq text_eq nat_eq
sorted_eq a b =
    if not (length a == length b)
    then false
    else ◌==◌ ⦃e = texts_eq⦄ (sort_by text_le a) (sort_by text_le b)

abbrev pub in_container : Text → Bool
in_container mode = starts_with mode (codes "container:")

abbrev pub both_in_container : Option Text → Option Text → Bool
both_in_container (some observed) (some desired) = in_container observed && in_container desired
both_in_container _ _ = false

unfoldable pub network_mode_equal : Option Text → Option Text → Bool
unfolding option_eq text_eq starts_with
network_mode_equal observed desired =
    if observed == desired then true else both_in_container observed desired

-- `Some("")` is as none.
abbrev pub normalize_optional_string : Option Text → Option Text
normalize_optional_string none = none
normalize_optional_string (some []) = none
normalize_optional_string (some (c ∷ cs)) = some (c ∷ cs)

unfoldable pub pid_mode_equal : Option Text → Option Text → Bool
unfolding option_eq text_eq
pid_mode_equal observed desired =
    normalize_optional_string observed == normalize_optional_string desired

-- Whether the labels are those of a container from before the unified ones.
unfoldable pub is_legacy_container : {N : PolicyNames} → ObservedContainer N → Bool
unfolding Map.get text_eq
is_legacy_container o =
    let has_legacy =
      Map.contains_key legacy_label_config_hash o.labels
      || (Map.contains_key label_managed o.labels || Map.contains_key label_kind o.labels) in
    not (Map.contains_key label_key o.labels) && (has_legacy || not (is_empty o.labels))

unfoldable pub has_new_labels : {N : PolicyNames} → ObservedContainer N → Bool
unfolding Map.get text_eq
has_new_labels o =
    Map.contains_key label_key o.labels
    && (Map.contains_key label_managed o.labels && Map.contains_key label_kind o.labels)

abbrev pub or_else : Option Text → Option Text → Option Text
or_else (some a) o = some a
or_else none o = o

abbrev pub stored_equals : Option Text → Text → Bool
stored_equals none expected = false
stored_equals (some stored) expected = stored == expected

unfoldable pub parent_id_matches : {N : PolicyNames} → ObservedContainer N → Option Text → Bool
unfolding Map.get text_eq
parent_id_matches o none = true
parent_id_matches o (some expected) =
    stored_equals
      (or_else (Map.get label_parent_id o.labels) (Map.get legacy_label_parent_id o.labels))
      expected

-- `if test { fields.push(field) }`, before the fields of the tests that follow.
abbrev pub changed : Bool → ChangedField → List ChangedField → List ChangedField
changed same field rest = if same then rest else field ∷ rest

abbrev pub change_of : List ChangedField → SpecChange
change_of [] = in_sync
change_of (f ∷ fs) = drifted (f ∷ fs)

-- `==` of two optional port maps.
unfoldable pub same_ports : Option PortMap → Option PortMap → Bool
unfolding same_map text_eq option_eq list_eq pair_eq
same_ports none none = true
same_ports none (some b) = false
same_ports (some a) none = false
same_ports (some a) (some b) = same_map a b

module _ {N : PolicyNames} where
  same_policy :
      (a b : RestartPolicy N)
      → a.name ≡ b.name
      → a.maximum_retry_count ≡ b.maximum_retry_count
      → a ≡ b
  same_policy a b p q = λ i. record { name = p i; maximum_retry_count = q i }

  policy_dec : Discrete (RestartPolicy N)
  policy_dec a b =
      dite ((option_eq ⦃e = N.name_eq⦄).dec a.name b.name)
        (λ p.
          dite ((option_eq ⦃e = int_eq⦄).dec a.maximum_retry_count b.maximum_retry_count)
            (λ q. yes (same_policy a b p q))
            (λ n. no (λ e. n (ap (λ (r : RestartPolicy N). r.maximum_retry_count) e))))
        (λ n. no (λ e. n (ap (λ (r : RestartPolicy N). r.name) e)))

  instance unfoldable pub policy_eq : Eq (RestartPolicy N)
  unfolding policy_dec same_policy
  policy_eq = record { dec = policy_dec }

  -- A policy that never restarts is as none.
  abbrev pub never_restarts : RestartPolicy N → Bool
  never_restarts p =
      ◌==◌ ⦃e = option_eq ⦃e = N.name_eq⦄⦄ p.name (some N.no)
      && or_value (pos 0) p.maximum_retry_count == pos 0

  abbrev pub normalize_restart_policy : Option (RestartPolicy N) → Option (RestartPolicy N)
  normalize_restart_policy none = none
  normalize_restart_policy (some p) = if never_restarts p then none else some p

  unfoldable pub restart_policy_equal : Option (RestartPolicy N) → Option (RestartPolicy N) → Bool
  unfolding option_eq policy_eq int_eq
  restart_policy_equal observed desired = normalize_restart_policy observed == desired

  -- The tests, in their order.
  unfoldable pub changed_fields : ObservedContainer N → RuntimeContainerSpec N → List ChangedField
  unfolding text_eq option_eq int_eq env_equal sorted_eq same_map network_mode_equal same_ports
      restart_policy_equal pid_mode_equal list_eq pair_eq
  changed_fields o d = changed (o.image == d.image) image (
      changed (o.cmd == d.cmd) cmd (
        changed (entrypoint_equal o.entrypoint d.entrypoint) entrypoint (
          changed (env_equal o.env d.env) env (
            changed (sorted_eq o.binds d.binds) binds (
              changed (same_map o.tmpfs d.tmpfs) tmpfs (
                changed (sorted_eq o.dns_servers d.dns_servers) dns_servers (
                  changed (network_mode_equal o.network_mode d.network_mode) network_mode (
                    changed (same_ports o.port_bindings d.port_bindings) port_bindings (
                      changed (sorted_eq o.cap_add d.cap_add) cap_add (
                        changed (sorted_eq o.cap_drop d.cap_drop) cap_drop (
                          changed (o.privileged == d.privileged) privileged (
                            changed (o.user == d.user) user (
                              changed (restart_policy_equal o.restart_policy d.restart_policy)
                                restart_policy
                                (changed (o.memory_bytes == d.memory_bytes) memory_bytes (
                                  changed (o.nano_cpus == d.nano_cpus) nano_cpus (
                                    changed (same_map o.sysctls d.sysctls) sysctls (
                                      changed (o.stop_timeout == d.stop_timeout) stop_timeout (
                                        changed (pid_mode_equal o.pid_mode d.pid_mode) pid_mode
                                          []))))))))))))))))))

  unfoldable pub eval_spec_change :
      Option (ObservedContainer N) → RuntimeContainerSpec N → SpecChange
  unfolding changed_fields
  eval_spec_change none desired = missing
  eval_spec_change (some observed) desired =
      if not observed.running then missing else change_of (changed_fields observed desired)
