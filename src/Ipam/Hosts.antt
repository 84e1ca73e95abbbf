-- ===== src/Ipam/Hosts.antt =====
-- The addresses that `SubnetIpam` hands out within one subnet.
use native.Mathlib.Nat.{mod-eq_of_lt}
use ployz.Prelude.{
  ℕ, zero, suc, ◌+◌, ◌^◌, ◌≤◌, ◌<◌, ◌≡◌, ◌≢◌, true, false, Option, none, some, List, [], ◌∷◌, not,
  if◌then◌else◌, dec_lt, arith, contains, keep, Bool-cases, ◌⊎◌, inl, inr, refl, ◌==◌, nat_eq,
}
use ployz.Ipam.{
  Ipv4NetApi, add_u32, SubnetIpam, next_free, take_host, allocate_host, release, machine_ip,
  container_ip,
}

module _ (N : Ipv4NetApi) where
  -- The search over `left` offsets from `offset` on: the first free address, or none and all are taken.
  pub data HostSearch (base : ℕ) (taken : List ℕ) (offset left : ℕ) : Option ℕ → Type 0 where
    found :
        (k : ℕ)
        → offset ≤ k
        → k < offset + left
        → contains taken (base + k) ≡ false
        → ((j : ℕ) → offset ≤ j → j < k → contains taken (base + j) ≡ true)
        → HostSearch base taken offset left (some (base + k))
    full :
        ((j : ℕ) → offset ≤ j → j < offset + left → contains taken (base + j) ≡ true)
        → HostSearch base taken offset left none

  below_step :
      (base : ℕ) (taken : List ℕ) (offset limit : ℕ)
      → contains taken (base + offset) ≡ true
      → ((j : ℕ) → offset + 1 ≤ j → j < limit → contains taken (base + j) ≡ true)
      → (j : ℕ) → offset ≤ j
      → j < limit
      → contains taken (base + j) ≡ true
  below_step base taken offset limit here later j h k = elim (dec_lt offset j) [
    | yes lt ↦ later j (omega arith) k
    | no ge ↦ let same : j ≡ offset = omega arith in rw same here
  ]

  HostSearch-back :
      (base : ℕ) (taken : List ℕ) (offset left : ℕ) {out : Option ℕ}
      → contains taken (base + offset) ≡ true
      → HostSearch base taken (offset + 1) left out
      → HostSearch base taken offset (suc left) out
  HostSearch-back base taken offset left here (found k h l free before) =
      found k (omega arith) (omega arith) free (below_step base taken offset k here before)
  HostSearch-back base taken offset left here (full all) = full (λ j h l.
      below_step base taken offset (offset + suc left) here (λ m p q. all m p (omega arith)) j h l)

  add_u32-eq : (base offset : ℕ) → base + offset < 2 ^ 32 → add_u32 base offset ≡ base + offset
  add_u32-eq base offset h = mod-eq_of_lt h

  search :
      (left offset base : ℕ) (taken : List ℕ)
      → base + offset + left ≤ 2 ^ 32
      → HostSearch base taken offset left (next_free N left offset base taken)
  unfolding next_free
  search zero offset base taken h = full (λ j p q. absurd (omega arith))
  search (suc left) offset base taken h = elim (Bool-cases (contains taken (base + offset))) [
    | inl used ↦
        rw (add_u32-eq base offset (omega arith), used)
          (HostSearch-back base taken offset left used
            (search left (offset + 1) base taken (omega arith)))
    | inr free ↦
        rw (add_u32-eq base offset (omega arith), free)
          (found offset (omega arith) (omega arith) free (λ j p q. absurd (omega arith)))
  ]

  module _ (s : SubnetIpam N) (room : N.network s.subnet + 255 ≤ 2 ^ 32) where
    -- What is known of an address that was handed out: it is one of the 252 between the container's
    -- and the broadcast address, is not that of the machine or its container, and was free.
    pub record IsHost (ip : ℕ) : Type 0 where
      pub from_third : N.network s.subnet + 3 ≤ ip
      pub to_last : ip ≤ N.network s.subnet + 254
      pub not_machine : ip ≢ machine_ip N s.subnet
      pub not_container : ip ≢ container_ip N s.subnet
      pub was_free : contains s.taken ip ≡ false

    found-IsHost :
        (k : ℕ)
        → 3 ≤ k
        → k < 255
        → contains s.taken (N.network s.subnet + k) ≡ false
        → IsHost (N.network s.subnet + k)
    unfolding machine_ip container_ip
    found-IsHost k h l free = record {
      from_third = omega arith;
      to_last = omega arith;
      not_machine = rw (add_u32-eq (N.network s.subnet) 1 (omega arith)) (omega arith);
      not_container = rw (add_u32-eq (N.network s.subnet) 2 (omega arith)) (omega arith);
      was_free = free;
    }

    take_host-cases :
        {o : Option ℕ}
        → HostSearch (N.network s.subnet) s.taken 3 252 o
        → ((ip : ℕ) × IsHost ip × (take_host N s o ≡ (record s { taken = ip ∷ s.taken }, some ip)))
          ⊎ (((j : ℕ) → 3 ≤ j → j < 255 → contains s.taken (N.network s.subnet + j) ≡ true)
              × (take_host N s o ≡ (s, none)))
    unfolding take_host
    take_host-cases (found k h l free before) =
        inl (N.network s.subnet + k, found-IsHost k h l free, refl)
    take_host-cases (full all) = inr (all, refl)

    -- In a subnet that starts at least 255 addresses below 2^32, an allocation hands out and
    -- records a free address, at an offset of 3 to 254, which is not that of the machine or the
    -- container; or all the addresses at these offsets are taken and nothing changes.
    pub allocate_host-cases :
        ((ip : ℕ) × IsHost ip × (allocate_host N s ≡ (record s { taken = ip ∷ s.taken }, some ip)))
        ⊎ (((j : ℕ) → 3 ≤ j → j < 255 → contains s.taken (N.network s.subnet + j) ≡ true)
            × (allocate_host N s ≡ (s, none)))
    unfolding allocate_host
    allocate_host-cases = take_host-cases (search 252 3 (N.network s.subnet) s.taken (omega arith))

  contains-release :
      (taken : List ℕ) (ip j : ℕ)
      → contains (keep (λ other. not (other == ip)) taken) j
        ≡ (if j == ip then false else contains taken j)
  unfolding nat_eq
  contains-release [] ip j = ground arith
  contains-release (x ∷ taken) ip j = ground (arith, contains-release taken ip j)

  -- In a subnet that starts at least 255 addresses below 2^32, once an address that an allocation
  -- handed out is released, each address is taken just when it was before the allocation.
  pub release-allocate_host :
      (s t : SubnetIpam N) (ip j : ℕ)
      → N.network s.subnet + 255 ≤ 2 ^ 32
      → allocate_host N s ≡ (t, some ip)
      → contains (release N t ip).taken j ≡ contains s.taken j
  unfolding release nat_eq
  release-allocate_host s t ip j room e = elim (allocate_host-cases s room) [
    | inl (other, host, made) ↦
        let same : ip ≡ other = ground arith in
        let now : t.taken ≡ ip ∷ s.taken = ground arith in
        rw (now, contains-release (ip ∷ s.taken) ip j) (ground (arith, host.was_free))
    | inr (all, made) ↦ ground arith
  ]
