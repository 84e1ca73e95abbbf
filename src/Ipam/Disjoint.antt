-- ===== src/Ipam/Disjoint.antt =====
-- Subnets that `Ipam.allocate` hands out do not overlap.
use native.Mathlib.Nat.{mod-add-div', add-mul-mod_self_right}
use ployz.Prelude.{
  ℕ, ◌+◌, ◌%◌, ◌≤◌, ◌<◌, ◌≡◌, ◌≢◌, ◌⊎◌, inl, inr, refl, ◌∙◌, ap, subst, false, Option, some, List,
  [], ◌∷◌, arith, All, contains, Eq, dec_lt,
}
use ployz.Ipam.{Ipv4NetApi, IsLawful, size, Ipam, is_allocated, allocate}
use ployz.Ipam.Bounds.{CanServe, Answer, found, exhausted, IsFirstFree, allocate-Answer}

-- Of two multiples of a size the larger is at least that size away.
multiples-apart : (a b s : ℕ) → a % s ≡ 0 → b % s ≡ 0 → a < b → a + s ≤ b
multiples-apart a b s ha hb h = grind (arith, mod-add-div' a s, mod-add-div' b s)

module _ {A : Type 0} ⦃e : Eq A⦄ where
  All_ne_of_not-contains : (xs : List A) (a : A) → contains xs a ≡ false → All (λ x. x ≢ a) xs
  All_ne_of_not-contains [] a h = tt
  All_ne_of_not-contains (x ∷ xs) a h = (ground arith, All_ne_of_not-contains xs a (ground arith))

module _ (N : Ipv4NetApi) (lawful : IsLawful N) where
  -- A subnet that the constructor gives back at its own address, aligned to its size.
  pub record IsBlock (len : ℕ) (m : N.Net) : Type 0 where
    pub rebuilt : N.new (N.network m) len ≡ some m
    pub aligned : N.network m % size len ≡ 0
    pub ends : N.broadcast m + 1 ≡ N.network m + size len

  -- The two ranges of addresses have none in common.
  abbrev pub IsDisjoint : N.Net → N.Net → Type 0
  IsDisjoint m n = (N.broadcast m < N.network n) ⊎ (N.broadcast n < N.network m)

  network_ne :
      (len : ℕ) (m n : N.Net) → IsBlock len m → IsBlock len n → m ≢ n → N.network m ≢ N.network n
  network_ne len m n bm bn d e = d (cc (bm.rebuilt, bn.rebuilt))

  IsBlock-IsDisjoint :
      (len : ℕ) (m n : N.Net) → IsBlock len m → IsBlock len n → m ≢ n → IsDisjoint m n
  IsBlock-IsDisjoint len m n bm bn d =
      let ne = network_ne len m n bm bn d in
      elim (dec_lt (N.network m) (N.network n)) [
        | yes lt ↦
            inl (omega (arith, multiples-apart _ _ (size len) bm.aligned bn.aligned lt, bm.ends))
        | no ge ↦ inr (
            omega (
              arith,
              multiples-apart (N.network n) (N.network m) (size len) bn.aligned bm.aligned,
              bn.ends,
              ne,
            ))
      ]

  All-IsDisjoint :
      (len : ℕ) (ms : List N.Net) (n : N.Net)
      → All (IsBlock len) ms
      → IsBlock len n
      → All (λ m. m ≢ n) ms
      → All (λ m. IsDisjoint m n) ms
  All-IsDisjoint len [] n bs b ds = tt
  All-IsDisjoint len (m ∷ ms) n bs b ds =
      (IsBlock-IsDisjoint len m n bs.0 b ds.0, All-IsDisjoint len ms n bs.1 b ds.1)

  module _ (i : Ipam N) (c : CanServe N lawful i) where
    first-IsBlock :
        (n : N.Net) → IsFirstFree N lawful i (N.network i.cluster) n → IsBlock i.prefix_len n
    first-IsBlock n f = record {
      rebuilt = ap (λ a. N.new a i.prefix_len) f.starts ∙ f.made;
      aligned =
          ap (λ a. a % size i.prefix_len) f.starts
          ∙ add-mul-mod_self_right (N.network i.cluster) f.index (size i.prefix_len)
          ∙ c.aligned;
      ends = f.ends;
    }

    Answer-split :
        (addr : ℕ) {out : Ipam N × Option N.Net}
        → Answer N lawful i addr out
        → (n : N.Net) → out.1 ≡ some n
        → IsFirstFree N lawful i addr n × (out.0.allocated ≡ n ∷ i.allocated)
    Answer-split addr (found {n = m} f) n e =
        let same : m ≡ n = cc in
        (subst (IsFirstFree N lawful i addr) same f, ap (λ x. x ∷ i.allocated) same)
    Answer-split addr (exhausted all) n e = cc

    answered :
        (out : Ipam N) (n : N.Net)
        → allocate N i ≡ some (out, some n)
        → IsFirstFree N lawful i (N.network i.cluster) n × (out.allocated ≡ n ∷ i.allocated)
    answered out n h =
        let (found_out, e, a) = allocate-Answer N lawful i c in
        let same : found_out ≡ (out, some n) = cc in
        Answer-split (N.network i.cluster) {out = (out, some n)}
          (subst (Answer N lawful i (N.network i.cluster)) same a) n refl

    -- In a cluster of whole subnets below the last address, and when the allocated subnets are
    -- blocks of its prefix length: a subnet that is handed out overlaps none of those allocated
    -- before, and all that are allocated then are such blocks.
    pub allocate-IsDisjoint :
        (out : Ipam N) (n : N.Net)
        → All (IsBlock i.prefix_len) i.allocated
        → allocate N i ≡ some (out, some n)
        → All (λ m. IsDisjoint m n) i.allocated × All (IsBlock i.prefix_len) out.allocated
    unfolding is_allocated
    allocate-IsDisjoint out n bs h =
        let (f, e) = answered out n h in
        let b = first-IsBlock n f in
        (
          All-IsDisjoint i.prefix_len i.allocated n bs b
              (All_ne_of_not-contains ⦃e = N.net_eq⦄ i.allocated n f.free),
          rw e (b, bs),
        )
