-- ===== src/Runtime/Labels.antt =====
-- The labels of containers: crates/ployz-runtime-backends/src/runtime/labels.rs.
pub mod Extracted
use ployz.Prelude.{Option, none, some, List, [], ◌∷◌, text_eq}
use ployz.Prelude.Map
use ployz.Prelude.Map.{Map}
use ployz.Prelude.Text.{Text, codes}

abbrev pub label_managed : Text
label_managed = codes "dev.ployz.managed"

abbrev pub label_kind : Text
label_kind = codes "dev.ployz.kind"

abbrev pub label_key : Text
label_key = codes "dev.ployz.key"

abbrev pub label_parent_id : Text
label_parent_id = codes "dev.ployz.parent-id"

abbrev pub label_namespace : Text
label_namespace = codes "dev.ployz.namespace"

abbrev pub label_service : Text
label_service = codes "dev.ployz.service"

abbrev pub label_revision : Text
label_revision = codes "dev.ployz.revision"

abbrev pub label_deploy : Text
label_deploy = codes "dev.ployz.deploy"

abbrev pub label_instance : Text
label_instance = codes "dev.ployz.instance"

abbrev pub label_slot : Text
label_slot = codes "dev.ployz.slot"

abbrev pub label_machine : Text
label_machine = codes "dev.ployz.machine"

abbrev pub legacy_label_config_hash : Text
legacy_label_config_hash = codes "ployz.config-hash"

abbrev pub legacy_label_parent_id : Text
legacy_label_parent_id = codes "ployz.parent-container-id"

pub record WorkloadMeta : Type 0 where
  pub namespace : Text
  pub service : Text
  pub revision : Text
  pub deploy_id : Text
  pub instance_id : Text
  pub slot_id : Text
  pub machine_id : Text

pub record WorkloadLabels : Type 0 where
  pub instance_id : Text
  pub service : Text
  pub slot_id : Text
  pub machine_id : Text
  pub revision_hash : Text
  pub deploy_id : Text

abbrev pub with_parent : Option Text → Map Text Text → Map Text Text
with_parent none labels = labels
with_parent (some id) labels = Map.insert label_parent_id id labels

unfoldable pub build_system_labels : Text → Option Text → Map Text Text
unfolding Map.insert text_eq
build_system_labels key parent_id = with_parent parent_id (
    Map.insert label_key key
      (Map.insert label_kind (codes "system") (Map.insert label_managed (codes "true") [])))

-- `for (k, v) in extra { labels.insert(k, v) }`
unfoldable pub insert_entries : Map Text Text → Map Text Text → Map Text Text
unfolding Map.insert text_eq
insert_entries [] labels = labels
insert_entries ((k, v) ∷ extra) labels = insert_entries extra (Map.insert k v labels)

-- The labels that a workload has of itself, in the order of their insertion.
abbrev pub own_labels : Text → WorkloadMeta → Map Text Text
own_labels key meta =
    insert_entries
      ((label_managed, codes "true")
        ∷ (label_kind, codes "workload")
        ∷ (label_key, key)
        ∷ (label_namespace, meta.namespace)
        ∷ (label_service, meta.service)
        ∷ (label_revision, meta.revision)
        ∷ (label_deploy, meta.deploy_id)
        ∷ (label_instance, meta.instance_id)
        ∷ (label_slot, meta.slot_id)
        ∷ (label_machine, meta.machine_id)
        ∷ [])
      []

unfoldable pub build_workload_labels : Text → WorkloadMeta → Map Text Text → Map Text Text
unfolding insert_entries text_eq
build_workload_labels key meta extra = insert_entries extra (own_labels key meta)

abbrev pub parse_key : Map Text Text → Option Text
parse_key labels = Map.get label_key labels

-- `?` on an option.
infixr 5 ◌>>=◌
abbrev ◌>>=◌ : {A B : Type 0} → Option A → (A → Option B) → Option B
none >>= f = none
some a >>= f = f a

unfoldable pub extract_workload_labels : Map Text Text → Option WorkloadLabels
unfolding Map.get text_eq
extract_workload_labels labels = Map.get label_instance labels >>= λ instance_id.
    Map.get label_service labels >>= λ service. Map.get label_slot labels >>= λ slot_id.
    Map.get label_machine labels >>= λ machine_id.
    Map.get label_revision labels >>= λ revision_hash. Map.get label_deploy labels >>= λ deploy_id.
    some (record {
      instance_id = instance_id;
      service = service;
      slot_id = slot_id;
      machine_id = machine_id;
      revision_hash = revision_hash;
      deploy_id = deploy_id;
    })
