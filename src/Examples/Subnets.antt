-- ===== src/Examples/Subnets.antt =====
-- A pair of a first address and a number of further ones in the place of a subnet type, and the
-- allocators at small inputs.
use ployz.Prelude.{
  ℕ, ◌+◌, ◌-◌, ◌≤◌, ◌<◌, ◌≡◌, refl, true, Option, none, some, [], ◌∷◌, arith, leb, if◌then◌else◌,
  pair_eq, nat_eq, All, contains, ◌⊎◌,
}
use ployz.Ipam.{
  Ipv4NetApi, IsLawful, size, Ipam, SubnetIpam, with_allocated, allocate, allocate_host, release,
}
use ployz.Ipam.Bounds.{CanServe, Answer, allocate-Answer, size_pos}
use ployz.Ipam.Disjoint.{IsBlock, IsDisjoint, allocate-IsDisjoint}
use ployz.Ipam.Hosts.{IsHost, allocate_host-cases, release-allocate_host}

-- The last address there is, or the one given.
abbrev capped : ℕ → ℕ
capped a = if leb a 4294967295 then a else 4294967295

abbrev at_least : ℕ → ℕ → ℕ
at_least a b = if leb a b then b else a

-- An interval of addresses.
abbrev Interval : Ipv4NetApi
Interval = record {
  Net = ℕ × ℕ;
  net_eq = pair_eq;
  new = λ a len. some (a, size len - 1);
  network = λ n. capped n.0;
  broadcast = λ n. at_least (capped n.0) (capped (n.0 + n.1));
}

Interval-IsLawful : IsLawful Interval
Interval-IsLawful = record {
  new_valid = λ a len le al fits. (
    (a, size len - 1),
    refl,
    (let pos = size_pos len in ground (arith, pos, fits)),
    (let pos = size_pos len in ground (arith, pos, fits)),
  );
  network_le = λ n. ground arith;
  broadcast_lt = λ n. ground arith;
}

-- Four subnets of 256 addresses, the first of them allocated.
abbrev cluster : Ipam Interval
cluster = record { cluster = (1024, 1023); prefix_len = 24; allocated = (1024, 255) ∷ [] }

cluster-CanServe : CanServe Interval Interval-IsLawful cluster
cluster-CanServe = record {
  prefix_pos = omega arith;
  prefix_le = omega arith;
  blocks = 4;
  covers = refl;
  aligned = refl;
  below_top = omega arith;
}

allocate-Answer_example :
    (out : Ipam Interval × Option (ℕ × ℕ)) × (allocate Interval cluster ≡ some out)
    × Answer Interval Interval-IsLawful cluster 1024 out
allocate-Answer_example = allocate-Answer Interval Interval-IsLawful cluster cluster-CanServe

abbrev cluster_after : Ipam Interval
cluster_after = record cluster { allocated = (1280, 255) ∷ (1024, 255) ∷ [] }

allocated_now : allocate Interval cluster ≡ some (cluster_after, some (1280, 255))
unfolding allocate pair_eq nat_eq ployz.Ipam.step_of
allocated_now = refl

allocate-IsDisjoint_example :
    All (λ m. IsDisjoint Interval Interval-IsLawful m (1280, 255)) cluster.allocated
    × All (IsBlock Interval Interval-IsLawful 24) cluster_after.allocated
allocate-IsDisjoint_example =
    allocate-IsDisjoint Interval Interval-IsLawful cluster cluster-CanServe cluster_after
      (1280, 255) (record { rebuilt = refl; aligned = refl; ends = refl }, tt) allocated_now

-- A subnet with its first host taken.
abbrev hosts : SubnetIpam Interval
hosts = record { subnet = (1024, 255); taken = 1027 ∷ [] }

allocate_host-cases_example :
    ((ip : ℕ) × IsHost Interval hosts (omega arith) ip
      × (allocate_host Interval hosts ≡ (record hosts { taken = ip ∷ 1027 ∷ [] }, some ip)))
    ⊎ (((j : ℕ) → 3 ≤ j → j < 255 → contains (1027 ∷ []) (1024 + j) ≡ true)
        × (allocate_host Interval hosts ≡ (hosts, none)))
allocate_host-cases_example = allocate_host-cases Interval hosts (omega arith)

abbrev hosts_after : SubnetIpam Interval
hosts_after = record hosts { taken = 1028 ∷ 1027 ∷ [] }

host_now : allocate_host Interval hosts ≡ (hosts_after, some 1028)
unfolding allocate_host
host_now = refl

release-allocate_host_example :
    contains (release Interval hosts_after 1028).taken 1028 ≡ contains hosts.taken 1028
release-allocate_host_example =
    release-allocate_host Interval hosts hosts_after 1028 1028 (omega arith) host_now
