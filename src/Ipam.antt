-- ===== src/Ipam.antt =====
-- Allocation of machine subnets and of addresses within one: crates/ployz-orchestrator/src/ipam.rs.
-- The type `Ipv4Net` is of the crate ipnet: its constructor and its accessors are the parameter
-- `Ipv4NetApi`, and `IsLawful` states what ipnet documents of them. Addresses are numbers of 32 bits,
-- whose sums wrap as in a release build.
pub mod Bounds
pub mod Disjoint
pub mod Hosts
use ployz.Prelude.{
  ℕ, zero, suc, ◌+◌, ◌-◌, ◌*◌, ◌%◌, ◌^◌, ◌≤◌, ◌<◌, ◌≡◌, Bool, true, false, Option, none, some, List,
  [], ◌∷◌, ltb, not, if◌then◌else◌, Eq, ◌==◌, nat_eq, contains, keep,
}

pub record Ipv4NetApi : Type 1 where
  pub Net : Type 0
  pub net_eq : Eq Net
  -- `Ipv4Net::new(addr, prefix_len)`, with `none` for its error
  pub new : ℕ → ℕ → Option Net
  pub network : Net → ℕ
  pub broadcast : Net → ℕ

-- The number of addresses of a subnet with a prefix of `len` bits.
abbrev pub size : ℕ → ℕ
size len = 2 ^ (32 - len)

pub record IsLawful (N : Ipv4NetApi) : Type 0 where
  pub new_valid :
      (a len : ℕ)
      → len ≤ 32
      → a % size len ≡ 0
      → a + size len ≤ 2 ^ 32
      → (n : N.Net) × (N.new a len ≡ some n)
        × (N.network n ≡ a)
        × (N.broadcast n + 1 ≡ a + size len)
  pub network_le : (n : N.Net) → N.network n ≤ N.broadcast n
  pub broadcast_lt : (n : N.Net) → N.broadcast n < 2 ^ 32

-- The sum of two `u32`.
abbrev pub add_u32 : ℕ → ℕ → ℕ
add_u32 a b = (a + b) % 2 ^ 32

-- `1u32 << (32 - prefix_len)` for a `u8`: the subtraction wraps and the shift takes five bits.
unfoldable pub step_of : ℕ → ℕ
step_of prefix_len = 2 ^ ((288 - prefix_len) % 32)

module _ (N : Ipv4NetApi) where
  pub record Ipam : Type 0 where
    pub cluster : N.Net
    pub prefix_len : ℕ
    pub allocated : List N.Net

  unfoldable pub new : N.Net → ℕ → Ipam
  new cluster prefix_len = record { cluster = cluster; prefix_len = prefix_len; allocated = [] }

  unfoldable pub with_allocated : N.Net → ℕ → List N.Net → Ipam
  with_allocated cluster prefix_len allocated = record {
    cluster = cluster;
    prefix_len = prefix_len;
    allocated = allocated;
  }

  unfoldable pub is_allocated : Ipam → N.Net → Bool
  is_allocated i n = contains ⦃e = N.net_eq⦄ i.allocated n

  -- The subnet at an address, unless it is taken or the constructor refuses it.
  unfoldable pub free_at : Ipam → ℕ → Option N.Net
  unfolding is_allocated
  free_at i addr = elim (N.new addr i.prefix_len) [
    | none ↦ none
    | some subnet ↦ if is_allocated i subnet then none else some subnet
  ]

  -- The loop of `allocate` from an address on; without fuel it gives no answer.
  unfoldable pub allocate_from : ℕ → ℕ → Ipam → Option (Ipam × Option N.Net)
  unfolding free_at
  allocate_from zero addr i = none
  allocate_from (suc fuel) addr i =
      let rest = allocate_from fuel (add_u32 addr (step_of i.prefix_len)) i in
      if ltb addr (N.broadcast i.cluster)
      then elim (free_at i addr) [
        | none ↦ rest
        | some subnet ↦ some (record i { allocated = subnet ∷ i.allocated }, some subnet)
      ]
      else some (i, none)

  -- Each round but the last has an address of its own.
  unfoldable pub allocate : Ipam → Option (Ipam × Option N.Net)
  unfolding allocate_from
  allocate i = allocate_from (2 ^ 32) (N.network i.cluster) i

  unfoldable pub machine_ip : N.Net → ℕ
  machine_ip subnet = add_u32 (N.network subnet) 1

  unfoldable pub container_ip : N.Net → ℕ
  container_ip subnet = add_u32 (N.network subnet) 2

  pub record SubnetIpam : Type 0 where
    pub subnet : N.Net
    pub taken : List ℕ

  -- The loop over the offsets: `left` are to come, from `offset` on.
  unfoldable pub next_free : ℕ → ℕ → ℕ → List ℕ → Option ℕ
  unfolding nat_eq
  next_free zero offset base taken = none
  next_free (suc left) offset base taken =
      let rest = next_free left (offset + 1) base taken in
      if contains taken (add_u32 base offset) then rest else some (add_u32 base offset)

  -- The end of the loop: a free address is recorded and returned.
  unfoldable pub take_host : SubnetIpam → Option ℕ → SubnetIpam × Option ℕ
  take_host s none = (s, none)
  take_host s (some ip) = (record s { taken = ip ∷ s.taken }, some ip)

  unfoldable pub allocate_host : SubnetIpam → SubnetIpam × Option ℕ
  unfolding next_free take_host
  allocate_host s = take_host s (next_free 252 3 (N.network s.subnet) s.taken)

  unfoldable pub release : SubnetIpam → ℕ → SubnetIpam
  unfolding nat_eq
  release s ip = record s { taken = keep (λ other. not (other == ip)) s.taken }
