-- ===== src/Store/Commit.antt =====
-- What a deploy's commit leaves in the store.
use ployz.Prelude.{
  both_true, both_true, contains-append, ◌≡◌, ◌≢◌, refl, sym, ap, ◌∙◌, Bool, true, false, Option,
  none, some, List, [], ◌∷◌, map, not, ◌&&◌, ◌||◌, ◌⊎◌, inl, inr, ◌↔◌, All, contains, if◌then◌else◌,
  ◌==◌, ==_true, ==_refl, ==_ne, Bool-cases, text_eq, pair_eq,
}
use ployz.Prelude.Text.{Text}
use ployz.Prelude.Map
use ployz.Prelude.Map.{Map}
use ployz.Model.Service.{ServiceReleaseRecord, DeployCommit, DeployId}
use ployz.Model.Spec.{Namespace}
use ployz.Store.{Channels, StoreInner}
use ployz.Store.Deploys.{
  touched_services, services_of, insert_releases, release_key, is_kept, apply_deploy_commit,
  get_deploy,
}

-- The last of the releases under a key, else the other one.
abbrev pub last_release :
    List ServiceReleaseRecord
    → Namespace × Text
    → Option ServiceReleaseRecord
    → Option ServiceReleaseRecord
last_release [] key old = old
last_release (r ∷ rs) key old =
    last_release rs key (if key == (r.namespace, r.service) then some r else old)

get-insert_releases :
    (rs : List ServiceReleaseRecord) (m : Map (Namespace × Text) ServiceReleaseRecord)
    (key : Namespace × Text)
    → Map.get key (insert_releases rs m) ≡ last_release rs key (Map.get key m)
unfolding insert_releases
get-insert_releases [] m key = refl
get-insert_releases (r ∷ rs) m key =
    get-insert_releases rs (Map.insert (release_key r) r m) key
    ∙ rw (Map.get-insert key (release_key r) r m) refl

either_true : (a b : Bool) → (a || b) ≡ true → (a ≡ true) ⊎ (b ≡ true)
either_true true b h = inl refl
either_true false b h = inr h

true_either : (a b : Bool) → (a ≡ true) ⊎ (b ≡ true) → (a || b) ≡ true
true_either true b h = refl
true_either false b h = elim h [ inl e ↦ cc e | inr e ↦ e ]

-- A commit replaces the release of a service, or takes it away: the service is in the commit's own
-- namespace, and is one of those that it removes or has a release for.
abbrev pub Touches : DeployCommit → Namespace × Text → Type 0
Touches commit key =
    (key.0 ≡ commit.namespace)
    × ((contains commit.removed_services key.1 ≡ true)
        ⊎ (contains (map (λ (r : ServiceReleaseRecord). r.service) commit.releases) key.1 ≡ true))

touched_iff :
    (commit : DeployCommit) (key : Namespace × Text)
    → ((key.0 == commit.namespace && contains (touched_services commit) key.1) ≡ true)
      ↔ Touches commit key
touched_iff commit key =
    let split = contains-append commit.removed_services (services_of commit.releases) key.1 in
    (
      λ h.
          let (same, touched) = both_true _ _ h in
          (==_true key.0 commit.namespace same, either_true _ _ (sym split ∙ touched)),
      λ h.
          let named : (key.0 == commit.namespace) ≡ true = rw (h.0) (==_refl commit.namespace) in
          rw (named, split ∙ true_either _ _ h.1) refl,
    )

module _ {Net : Type 0} {C : Channels Net} (s : StoreInner C) (commit : DeployCommit) where
  after_lem :
      (key : Namespace × Text) (kept : Bool)
      → is_kept commit key ≡ kept
      → Map.get key (apply_deploy_commit s commit).service_releases
        ≡ last_release commit.releases key (if kept then Map.get key s.service_releases else none)
  unfolding apply_deploy_commit
  after_lem key kept e =
      get-insert_releases commit.releases _ key
      ∙ rw (Map.get-retain key (is_kept commit) s.service_releases, e) refl

  pub record Committed : Type 0 where
    pub touched :
        (key : Namespace × Text)
        → Touches commit key
        → Map.get key (apply_deploy_commit s commit).service_releases
          ≡ last_release commit.releases key none
    pub untouched :
        (key : Namespace × Text)
        → ¬ Touches commit key
        → Map.get key (apply_deploy_commit s commit).service_releases
          ≡ last_release commit.releases key (Map.get key s.service_releases)
    -- With releases of its own namespace only, a commit leaves the other namespaces alone.
    pub elsewhere :
        All (λ (r : ServiceReleaseRecord). r.namespace ≡ commit.namespace) commit.releases
        → (key : Namespace × Text) → key.0 ≢ commit.namespace
        → Map.get key (apply_deploy_commit s commit).service_releases
          ≡ Map.get key s.service_releases
    pub deploy :
        (id : DeployId)
        → get_deploy (apply_deploy_commit s commit) id
          ≡ (if id == commit.deploy.deploy_id then some commit.deploy else get_deploy s id)
    pub others :
        ((apply_deploy_commit s commit).service_revisions ≡ s.service_revisions)
        × ((apply_deploy_commit s commit).instance_status ≡ s.instance_status)
        × ((apply_deploy_commit s commit).machines ≡ s.machines)
        × ((apply_deploy_commit s commit).invites ≡ s.invites)

  after-touched :
      (key : Namespace × Text)
      → Touches commit key
      → Map.get key (apply_deploy_commit s commit).service_releases
        ≡ last_release commit.releases key none
  after-touched key t = after_lem key false (ap not ((touched_iff commit key).1 t))

  after-untouched :
      (key : Namespace × Text)
      → ¬ Touches commit key
      → Map.get key (apply_deploy_commit s commit).service_releases
        ≡ last_release commit.releases key (Map.get key s.service_releases)
  after-untouched key n =
      elim (Bool-cases (key.0 == commit.namespace && contains (touched_services commit) key.1)) [
        | inl q ↦ absurd (n ((touched_iff commit key).0 q))
        | inr q ↦ after_lem key true (ap not q)
      ]

  -- A release of another namespace does not stand under the key.
  no_release :
      (rs : List ServiceReleaseRecord) (key : Namespace × Text) (old : Option ServiceReleaseRecord)
      → key.0 ≢ commit.namespace
      → All (λ (r : ServiceReleaseRecord). r.namespace ≡ commit.namespace) rs
      → last_release rs key old ≡ old
  no_release [] key old other own = refl
  no_release (r ∷ rs) key old other own =
      let different : (key == (r.namespace, r.service)) ≡ false =
        ==_ne key (r.namespace, r.service)
          (λ e. other (ap (λ (k : Namespace × Text). k.0) e ∙ own.0)) in
      ap (λ b. last_release rs key (if b then some r else old)) different
      ∙ no_release rs key old other own.1

  -- After a commit, a service that it touches (one of its own namespace that it removes or has a
  -- release for) has the last of the commit's releases under its key, or none; any other key has the
  -- last of the commit's releases under it, or else the release from before. When the releases are of
  -- the commit's namespace, the releases of other namespaces are as before. The deploy is recorded,
  -- and no other deploy, no revision, no instance, no machine and no invite is changed.
  pub apply_deploy_commit-Committed : Committed
  unfolding apply_deploy_commit
  apply_deploy_commit-Committed = record {
    touched = after-touched;
    untouched = after-untouched;
    elsewhere = λ own key other.
        after-untouched key (λ t. other t.0) ∙ no_release commit.releases key _ other own;
    deploy = λ id. Map.get-insert id commit.deploy.deploy_id commit.deploy s.deploys;
    others = (refl, refl, refl, refl);
  }
