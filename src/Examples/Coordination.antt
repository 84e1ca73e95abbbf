-- ===== src/Examples/Coordination.antt =====
-- A deploy of three replicas on two machines, with a store that has nothing yet. The subnets are
-- numbers, and serde prints the names only.
use ployz.Prelude.{
  ℕ, length, ◌≡◌, refl, true, none, some, [], ◌∷◌, ◌++◌, ◌||◌, nat_eq, any, contains, text_eq, ◌⊎◌,
}
use ployz.Prelude.Text.{Text, codes}
use ployz.Model.Error.{ok}
use ployz.Model.Service.{DeployPreview, SlotPlan, create, InstanceStatusRecord}
use ployz.Manifest.Hash.{Json, stable_hash_hex}
use ployz.Deploy.{deployable_machines}
use ployz.Deploy.Effects.{World, next}
use ployz.Deploy.Plan.{preview_of}
use ployz.Deploy.Plan.Covered.{uses, holds, current_slots, preview_of-participants}
use ployz.Deploy.Coordinator.{apply}
use ployz.Deploy.Coordinator.Rules.{Makes, open_in}
use ployz.Deploy.Coordinator.Safe.{IsSafe}
use ployz.Deploy.Coordinator.Opening.{is_opening}
use ployz.Deploy.Coordinator.Whole.{calls, apply-IsSafe, apply-closes}
use ployz.Examples.Deploys.{manifest, inventory}
use ployz.Examples.Routing.{instance_at}

abbrev pub json : Json
json = record {
  spec = λ s. ok s.name;
  manifest = λ m. ok m.namespace;
  preview = λ p. ok p.manifest_hash;
}

-- An instance that an earlier deploy has left behind.
abbrev old : InstanceStatusRecord
old = record (instance_at 8) { instance_id = codes "old" }

abbrev world : World ℕ
world = record {
  releases = λ h. ok [];
  machines = λ h. ok inventory;
  clock = λ h. 100;
  uuid = λ h. codes "u";
  opened = λ h. ok [];
  started = λ h. ok (instance_at 7);
  statuses = λ h. ok (instance_at 7 ∷ old ∷ []);
  done = λ h. ok tt;
}

apply-IsSafe_example : Makes (IsSafe world) [] (calls world json (codes "m1") manifest)
apply-IsSafe_example = apply-IsSafe world json (codes "m1") manifest

apply-closes_example :
    (open_in world (calls world json (codes "m1") manifest) ≡ [])
    ⊎ Makes (λ c _. is_opening c ≡ true) [] (calls world json (codes "m1") manifest)
apply-closes_example = apply-closes world json (codes "m1") manifest

abbrev created : Text → Text → SlotPlan
created slot machine = record {
  slot_id = codes "slot-" ++ slot;
  machine_id = machine;
  current_instance_id = none;
  next_instance_id = none;
  current_revision_hash = none;
  next_revision_hash = some (stable_hash_hex (codes "api"));
  action = create;
}

abbrev plan : DeployPreview
plan = record {
  namespace = codes "prod";
  manifest_hash = stable_hash_hex (codes "prod");
  participants = codes "m1" ∷ codes "m2" ∷ [];
  services =
      record {
        service = codes "api";
        current_revision_hash = none;
        next_revision_hash = some (stable_hash_hex (codes "api"));
        slots =
            created (codes "0001") (codes "m1")
            ∷ created (codes "0002") (codes "m2")
            ∷ created (codes "0003") (codes "m1")
            ∷ [];
        action = create;
      }
      ∷ [];
  warnings = [];
}

planned : preview_of json (codes "m1") manifest [] inventory 100 ≡ ok plan
unfolding preview_of nat_eq
planned = refl

preview_of-participants_example : contains plan.participants (codes "m2") ≡ (
    contains (deployable_machines inventory (codes "m1") 100) (codes "m2")
    || (any (uses (codes "m2")) plan.services
        || any (holds (current_slots []) (codes "m2")) manifest.services))
preview_of-participants_example =
    preview_of-participants json (codes "m1") manifest [] inventory 100 plan (codes "m2") planned

-- With the draining and the removal of the old instance, 32 calls are made.
thirty_two_calls : length (calls world json (codes "m1") manifest) ≡ 32
unfolding apply next
thirty_two_calls = refl
