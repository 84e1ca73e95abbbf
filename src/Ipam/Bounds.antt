-- ===== src/Ipam/Bounds.antt =====
-- What `Ipam.allocate` finds, in a cluster that is cut into whole subnets.
use native.Mathlib.Nat.{mod-eq_of_lt, add-mod_right, one-le-pow}
use ployz.Prelude.{
  ℕ, zero, suc, ◌+◌, ◌-◌, ◌*◌, ◌%◌, ◌^◌, ◌≤◌, ◌<◌, ◌≡◌, ap, ◌∙◌, subst, inl, inr, true, false,
  Option, none, some, ◌∷◌, ltb, arith, Bool-cases,
}
use ployz.Ipam.{
  Ipv4NetApi, IsLawful, size, step_of, add_u32, Ipam, is_allocated, allocate_from, allocate,
}

-- For a prefix of 1 to 32 bits the shift gives the size of a subnet.
pub step_of-size : (len : ℕ) → 1 ≤ len → len ≤ 32 → step_of len ≡ size len
unfolding step_of
step_of-size len h k = ap (λ e. 2 ^ e) (omega arith)

pub size_pos : (len : ℕ) → 1 ≤ size len
size_pos len = one-le-pow (32 - len) 2 (omega arith)

module _ (N : Ipv4NetApi) (lawful : IsLawful N) where
  -- The cluster is a whole number of subnets, from an aligned address on, below the last address.
  pub record CanServe (i : Ipam N) : Type 0 where
    pub prefix_pos : 1 ≤ i.prefix_len
    pub prefix_le : i.prefix_len ≤ 32
    pub blocks : ℕ
    pub covers : N.broadcast i.cluster + 1 ≡ N.network i.cluster + blocks * size i.prefix_len
    pub aligned : N.network i.cluster % size i.prefix_len ≡ 0
    pub below_top : N.broadcast i.cluster + 1 < 2 ^ 32

  module _ (i : Ipam N) where
    -- The subnet at an address is allocated.
    abbrev pub Taken : ℕ → Type 0
    Taken addr = (n : N.Net) × (N.new addr i.prefix_len ≡ some n) × (is_allocated N i n ≡ true)

    -- `n` is the first subnet from `addr` on that is free.
    pub record IsFirstFree (addr : ℕ) (n : N.Net) : Type 0 where
      pub index : ℕ
      pub made : N.new (addr + index * size i.prefix_len) i.prefix_len ≡ some n
      pub starts : N.network n ≡ addr + index * size i.prefix_len
      pub ends : N.broadcast n + 1 ≡ N.network n + size i.prefix_len
      pub inside : N.broadcast n ≤ N.broadcast i.cluster
      pub free : is_allocated N i n ≡ false
      pub first : (k : ℕ) → k < index → Taken (addr + k * size i.prefix_len)

    -- What a search from `addr` answers: the first free subnet, which is then recorded, or that every
    -- subnet below the cluster's last address is taken.
    pub data Answer (addr : ℕ) : Ipam N × Option N.Net → Type 0 where
      found :
          {n : N.Net}
          → IsFirstFree addr n
          → Answer addr (record i { allocated = n ∷ i.allocated }, some n)
      exhausted :
          ((k : ℕ)
            → addr + k * size i.prefix_len < N.broadcast i.cluster
            → Taken (addr + k * size i.prefix_len))
          → Answer addr (i, none)

    next-address :
        (addr k : ℕ)
        → addr + size i.prefix_len + k * size i.prefix_len ≡ addr + suc k * size i.prefix_len
    next-address addr k = omega arith

    Taken-from :
        (addr : ℕ)
        → Taken addr
        → (limit : ℕ)
        → ((k : ℕ) → k < limit → Taken (addr + size i.prefix_len + k * size i.prefix_len))
        → (k : ℕ) → k < suc limit
        → Taken (addr + k * size i.prefix_len)
    Taken-from addr t limit later zero h = subst Taken (omega arith) t
    Taken-from addr t limit later (suc k) h =
        subst Taken (next-address addr k) (later k (omega arith))

    all-Taken_from :
        (addr : ℕ)
        → Taken addr
        → ((k : ℕ)
            → addr + size i.prefix_len + k * size i.prefix_len < N.broadcast i.cluster
            → Taken (addr + size i.prefix_len + k * size i.prefix_len))
        → (k : ℕ) → addr + k * size i.prefix_len < N.broadcast i.cluster
        → Taken (addr + k * size i.prefix_len)
    all-Taken_from addr t later zero h = subst Taken (omega arith) t
    all-Taken_from addr t later (suc k) h =
        subst Taken (next-address addr k) (later k (omega (arith, next-address addr k)))

    -- Past a subnet that is taken the search goes on at the next one.
    Answer-back :
        {out : Ipam N × Option N.Net} (addr : ℕ)
        → Taken addr
        → Answer (addr + size i.prefix_len) out
        → Answer addr out
    Answer-back addr t (found {n = n} f) = found (record {
      index = suc f.index;
      made = subst (λ a. N.new a i.prefix_len ≡ some n) (next-address addr f.index) f.made;
      starts = f.starts ∙ next-address addr f.index;
      ends = f.ends;
      inside = f.inside;
      free = f.free;
      first = Taken-from addr t f.index f.first;
    })
    Answer-back addr t (exhausted all) = exhausted (all-Taken_from addr t all)

    -- One address of the loop: its subnet exists, lies in the cluster, and is free or taken.
    module _ (c : CanServe i) where
      subnet_at :
          (addr left : ℕ)
          → addr % size i.prefix_len ≡ 0
          → N.broadcast i.cluster + 1 ≡ addr + left * size i.prefix_len
          → addr < N.broadcast i.cluster
          → (n : N.Net) × (N.new addr i.prefix_len ≡ some n)
            × (N.network n ≡ addr)
            × (N.broadcast n + 1 ≡ N.network n + size i.prefix_len)
            × (N.broadcast n ≤ N.broadcast i.cluster)
      subnet_at addr zero al cov lt = absurd (omega arith)
      subnet_at addr (suc left) al cov lt =
          let (n, made, starts, ends) =
            lawful.new_valid addr i.prefix_len c.prefix_le al (omega (arith, c.below_top)) in
          (n, made, starts, omega arith, omega arith)

      add_u32_step :
          (addr : ℕ)
          → addr < N.broadcast i.cluster
          → addr + size i.prefix_len ≤ N.broadcast i.cluster + 1
          → add_u32 addr (step_of i.prefix_len) ≡ addr + size i.prefix_len
      add_u32_step addr lt fits =
          rw (step_of-size i.prefix_len c.prefix_pos c.prefix_le)
            (mod-eq_of_lt (omega (arith, c.below_top)))

      round_taken :
          (fuel addr : ℕ) (out : Ipam N × Option N.Net) (n : N.Net)
          → ltb addr (N.broadcast i.cluster) ≡ true
          → N.new addr i.prefix_len ≡ some n
          → is_allocated N i n ≡ true
          → add_u32 addr (step_of i.prefix_len) ≡ addr + size i.prefix_len
          → allocate_from N fuel (addr + size i.prefix_len) i ≡ some out
          → allocate_from N (suc fuel) addr i ≡ some out
      unfolding allocate_from
      round_taken fuel addr out n more made full sum rest = rw (more, made, full, sum) rest

      round_free :
          (fuel addr : ℕ) (n : N.Net)
          → ltb addr (N.broadcast i.cluster) ≡ true
          → N.new addr i.prefix_len ≡ some n
          → is_allocated N i n ≡ false
          → allocate_from N (suc fuel) addr i
            ≡ some (record i { allocated = n ∷ i.allocated }, some n)
      unfolding allocate_from
      round_free fuel addr n more made open_ = rw (more, made, open_)

      round_past :
          (fuel addr : ℕ)
          → ltb addr (N.broadcast i.cluster) ≡ false
          → allocate_from N (suc fuel) addr i ≡ some (i, none)
      unfolding allocate_from
      round_past fuel addr past = rw past

      free_here :
          (addr : ℕ) (n : N.Net)
          → N.new addr i.prefix_len ≡ some n
          → N.network n ≡ addr
          → N.broadcast n + 1 ≡ N.network n + size i.prefix_len
          → N.broadcast n ≤ N.broadcast i.cluster
          → is_allocated N i n ≡ false
          → IsFirstFree addr n
      free_here addr n made starts ends inside open_ =
          let here : addr ≡ addr + 0 * size i.prefix_len = omega arith in
          record {
            index = 0;
            made = subst (λ a. N.new a i.prefix_len ≡ some n) here made;
            starts = starts ∙ here;
            ends = ends;
            inside = inside;
            free = open_;
            first = λ k h. absurd (omega arith);
          }

      search_answers :
          (fuel addr left : ℕ)
          → addr % size i.prefix_len ≡ 0
          → N.broadcast i.cluster + 1 ≡ addr + left * size i.prefix_len
          → N.broadcast i.cluster + 1 < addr + fuel
          → (out : Ipam N × Option N.Net) × (allocate_from N fuel addr i ≡ some out)
            × Answer addr out
      search_answers zero addr left al cov fuel_ok = absurd (omega arith)
      search_answers (suc fuel) addr zero al cov fuel_ok =
          ((i, none), round_past fuel addr (ground arith), exhausted (λ k h. absurd (omega arith)))
      search_answers (suc fuel) addr (suc left) al cov fuel_ok =
          elim (Bool-cases (ltb addr (N.broadcast i.cluster))) [
            | inr past ↦
                ((i, none), round_past fuel addr past, exhausted (λ k h. absurd (ground arith)))
            | inl more ↦
                let lt : addr < N.broadcast i.cluster = ground arith in
                let (n, made, starts, ends, inside) = subnet_at addr (suc left) al cov lt in
                elim (Bool-cases (is_allocated N i n)) [
                  | inl full ↦
                      let (out, e, a) =
                        search_answers fuel (addr + size i.prefix_len) left
                          (add-mod_right addr (size i.prefix_len) ∙ al) (omega arith)
                          (omega (arith, size_pos i.prefix_len)) in
                      (
                        out,
                        round_taken fuel addr out n more made full
                            (add_u32_step addr lt (omega arith)) e,
                        Answer-back addr (n, made, full) a,
                      )
                  | inr open_ ↦ (
                    (record i { allocated = n ∷ i.allocated }, some n),
                    round_free fuel addr n more made open_,
                    found (free_here addr n made starts ends inside open_),
                  )
                ]
          ]

      -- In a cluster of whole subnets below the last address the search ends. It gives the first
      -- subnet that is not allocated, which lies in the cluster and is recorded, or, with nothing
      -- changed, none, and then every subnet below the cluster's last address is allocated.
      pub allocate-Answer :
          (out : Ipam N × Option N.Net) × (allocate N i ≡ some out)
          × Answer (N.network i.cluster) out
      unfolding allocate
      allocate-Answer =
          search_answers (2 ^ 32) (N.network i.cluster) c.blocks c.aligned c.covers
            (omega (arith, c.below_top))
