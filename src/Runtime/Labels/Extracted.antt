-- ===== src/Runtime/Labels/Extracted.antt =====
-- What is read back from the labels of a workload.
use ployz.Prelude.{
  ◌≡◌, refl, false, Option, none, some, [], ◌∷◌, text_eq, contains, arith, inl, inr, Option-cases,
}
use ployz.Prelude.Map
use ployz.Prelude.Map.{Map, DistinctKeys, get-insert, contains-keys}
use ployz.Prelude.Text.{Text}
use ployz.Runtime.{or_value}
use ployz.Runtime.Labels.{
  WorkloadMeta, insert_entries, own_labels, build_workload_labels, extract_workload_labels,
  label_instance, label_service, label_slot, label_machine, label_revision, label_deploy,
}

-- The first option that has a value.
abbrev or_else : Option Text → Option Text → Option Text
or_else none o = o
or_else (some a) o = some a

absent : (k : Text) (m : Map Text Text) → contains (Map.keys m) k ≡ false → Map.get k m ≡ none
absent k m h = elim (Option-cases (Map.get k m)) [
  | inl e ↦ e
  | inr (v, e) ↦ ground (arith, contains-keys k m)
]

get-insert_entries :
    (k : Text) (extra labels : Map Text Text)
    → DistinctKeys extra
    → Map.get k (insert_entries extra labels) ≡ or_else (Map.get k extra) (Map.get k labels)
unfolding insert_entries Map.get
get-insert_entries k [] labels u = refl
get-insert_entries k ((j, v) ∷ extra) labels u = ground (
  arith,
  get-insert_entries k extra (Map.insert j v labels) u.1,
  get-insert k j v labels,
  absent k extra,
)

-- The value that a workload's container carries under a label: the service's own label of that name
-- when it has one.
abbrev pub carried : Text → Map Text Text → Text → Text
carried label extra own = or_value own (Map.get label extra)

get_of :
    (label : Text) (extra labels : Map Text Text) (own : Text)
    → DistinctKeys extra
    → Map.get label labels ≡ some own
    → Map.get label (insert_entries extra labels) ≡ some (carried label extra own)
get_of label extra labels own u e = elim (Option-cases (Map.get label extra)) [
  | inl n ↦ rw (get-insert_entries label extra labels u, n) e
  | inr (v, q) ↦ rw (get-insert_entries label extra labels u, q) refl
]

own_instance :
    (key : Text) (meta : WorkloadMeta)
    → Map.get label_instance (own_labels key meta) ≡ some meta.instance_id
unfolding Map.get insert_entries
own_instance key meta = refl

own_service :
    (key : Text) (meta : WorkloadMeta)
    → Map.get label_service (own_labels key meta) ≡ some meta.service
unfolding Map.get insert_entries
own_service key meta = refl

own_slot :
    (key : Text) (meta : WorkloadMeta)
    → Map.get label_slot (own_labels key meta) ≡ some meta.slot_id
unfolding Map.get insert_entries
own_slot key meta = refl

own_machine :
    (key : Text) (meta : WorkloadMeta)
    → Map.get label_machine (own_labels key meta) ≡ some meta.machine_id
unfolding Map.get insert_entries
own_machine key meta = refl

own_revision :
    (key : Text) (meta : WorkloadMeta)
    → Map.get label_revision (own_labels key meta) ≡ some meta.revision
unfolding Map.get insert_entries
own_revision key meta = refl

own_deploy :
    (key : Text) (meta : WorkloadMeta)
    → Map.get label_deploy (own_labels key meta) ≡ some meta.deploy_id
unfolding Map.get insert_entries
own_deploy key meta = refl

-- What is extracted from the labels built for a workload is what they were built from, but for each of
-- the six that the service's own labels name too, whose value there replaces it.
pub extract-build_workload_labels :
    (key : Text) (meta : WorkloadMeta) (extra : Map Text Text)
    → DistinctKeys extra
    → extract_workload_labels (build_workload_labels key meta extra)
      ≡ some (record {
        instance_id = carried label_instance extra meta.instance_id;
        service = carried label_service extra meta.service;
        slot_id = carried label_slot extra meta.slot_id;
        machine_id = carried label_machine extra meta.machine_id;
        revision_hash = carried label_revision extra meta.revision;
        deploy_id = carried label_deploy extra meta.deploy_id;
      })
unfolding extract_workload_labels build_workload_labels
extract-build_workload_labels key meta extra u =
    rw
      (
        get_of label_instance extra (own_labels key meta) meta.instance_id u
            (own_instance key meta),
        get_of label_service extra (own_labels key meta) meta.service u (own_service key meta),
        get_of label_slot extra (own_labels key meta) meta.slot_id u (own_slot key meta),
        get_of label_machine extra (own_labels key meta) meta.machine_id u (own_machine key meta),
        get_of label_revision extra (own_labels key meta) meta.revision u (own_revision key meta),
        get_of label_deploy extra (own_labels key meta) meta.deploy_id u (own_deploy key meta),
      )
      refl
