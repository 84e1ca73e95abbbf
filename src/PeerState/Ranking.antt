-- ===== src/PeerState/Ranking.antt =====
-- The ranking of endpoints by the TCP probes.
use mathlib.Core.List.{Perm}
use ployz.Prelude.{
  ◌≡◌, refl, ap, ◌∙◌, Bool, true, false, ◌||◌, some, List, [], ◌∷◌, map, arith, any, Bool-cases,
  All, inl, inr, text_eq,
}
use ployz.Prelude.Text.{Text}
use ployz.Prelude.Compare.{
  IsOrder, then-IsOrder, by_key-IsOrder, reverse-IsOrder, compare-IsOrder, some_first-IsOrder,
  is_le_total, is_le, flip,
}
use ployz.Prelude.Map.{Map}
use ployz.Prelude.Sort.{sort_by, insert_sorted, IsSorted, sort_by-IsSorted, sort_by-perm}
use ployz.Peer.{Instant, active}
use ployz.PeerState.{
  TcpProbeResult, TcpProbeStatus, probe_status_eq, EndpointCandidateState, PeerState,
  compare_candidates, compare_probe_status,
}
use ployz.PeerState.Device.{apply_probe_results, rerank, candidate_le, is_reachable, probed}

probe_status_swap :
    (a b : TcpProbeStatus) → compare_probe_status b a ≡ flip (compare_probe_status a b)
probe_status_swap a b = ground arith

probe_status_trans :
    (a b c : TcpProbeStatus)
    → is_le (compare_probe_status a b) ≡ true
    → is_le (compare_probe_status b c) ≡ true
    → is_le (compare_probe_status a c) ≡ true
probe_status_trans a b c h k = ground arith

probe_status-IsOrder : IsOrder compare_probe_status
probe_status-IsOrder = record { swap = probe_status_swap; trans = probe_status_trans }

-- The comparison of candidates is a total preorder, so the sort puts a best one first.
pub compare_candidates-IsOrder : IsOrder compare_candidates
unfolding compare_candidates
compare_candidates-IsOrder =
    then-IsOrder
      (by_key-IsOrder (λ (c : EndpointCandidateState). c.tcp_probe_status) probe_status-IsOrder)
      (then-IsOrder
        (by_key-IsOrder (λ (c : EndpointCandidateState). c.last_tcp_probe_rtt)
          (some_first-IsOrder compare-IsOrder))
        (then-IsOrder
          (by_key-IsOrder (λ (c : EndpointCandidateState). c.last_wg_success)
            (some_first-IsOrder (reverse-IsOrder compare-IsOrder)))
          (by_key-IsOrder (λ (c : EndpointCandidateState). c.advertised_index) compare-IsOrder)))

pub candidates-IsSorted :
    (cs : List EndpointCandidateState) → IsSorted candidate_le (sort_by candidate_le cs)
candidates-IsSorted cs =
    sort_by-IsSorted candidate_le (is_le_total compare_candidates-IsOrder)
      compare_candidates-IsOrder.trans cs

any-insert_sorted :
    (p : EndpointCandidateState → Bool) (c : EndpointCandidateState)
    (cs : List EndpointCandidateState)
    → any p (insert_sorted candidate_le c cs) ≡ (p c || any p cs)
unfolding insert_sorted
any-insert_sorted p c [] = refl
any-insert_sorted p c (d ∷ cs) = ground (arith, any-insert_sorted p c cs)

any-sort_by :
    (p : EndpointCandidateState → Bool) (cs : List EndpointCandidateState)
    → any p (sort_by candidate_le cs) ≡ any p cs
unfolding sort_by
any-sort_by p [] = refl
any-sort_by p (c ∷ cs) =
    any-insert_sorted p c (sort_by candidate_le cs) ∙ ap (λ b. p c || b) (any-sort_by p cs)

-- A candidate that is not reachable is before no reachable one.
reachable_first :
    (c d : EndpointCandidateState)
    → candidate_le c d ≡ true
    → is_reachable d ≡ true
    → is_reachable c ≡ true
unfolding compare_candidates probe_status_eq
reachable_first c d h k = ground arith

reachable_before :
    (c : EndpointCandidateState) (cs : List EndpointCandidateState)
    → All (λ d. candidate_le c d ≡ true) cs
    → any is_reachable cs ≡ true
    → is_reachable c ≡ true
reachable_before c [] h k = cc
reachable_before c (d ∷ cs) h k = elim (Bool-cases (is_reachable d)) [
  | inl e ↦ reachable_first c d h.0 e
  | inr e ↦ reachable_before c cs h.1 (ground arith)
]

-- The candidates with what the probes found.
abbrev pub probed_candidates :
    {Net : Type 0} → PeerState Net → Map Text TcpProbeResult → List EndpointCandidateState
probed_candidates ps results = map (probed results) ps.candidates

-- `best` leads `cs`: it is reachable and no worse than any other.
pub record Leads (best : EndpointCandidateState) (cs : List EndpointCandidateState) : Type 0 where
  pub others : List EndpointCandidateState
  pub first : cs ≡ best ∷ others
  pub reaches : is_reachable best ≡ true
  pub best_of : All (λ c. candidate_le best c ≡ true) others

leader :
    (cs : List EndpointCandidateState)
    → IsSorted candidate_le cs
    → any is_reachable cs ≡ true
    → (best : EndpointCandidateState) × Leads best cs
leader [] s h = cc
leader (c ∷ cs) s h = (
  c,
  record {
    others = cs;
    first = refl;
    reaches = elim (Bool-cases (is_reachable c)) [
      | inl e ↦ e
      | inr e ↦ reachable_before c cs s.0 (ground arith)
    ];
    best_of = s.0;
  },
)

module _ {Net : Type 0} (ps : PeerState Net) (results : Map Text TcpProbeResult)
    (now : Instant) where
  rerank_lem :
      (cs : List EndpointCandidateState)
      → any is_reachable cs ≡ true
      → Perm (rerank ps cs now).0.candidates cs
        × ((best : EndpointCandidateState) × Leads best (rerank ps cs now).0.candidates
            × (active (rerank ps cs now).0.runtime ≡ some best.endpoint))
  unfolding rerank
  rerank_lem cs h =
      let (best, leads) =
        leader (sort_by candidate_le cs) (candidates-IsSorted cs)
          (any-sort_by is_reachable cs ∙ h) in
      (sort_by-perm candidate_le cs, (best, leads, rw leads.first))

  -- Where a probe reached an endpoint, the active endpoint afterwards is that of a reachable candidate
  -- which no other candidate beats, and the candidates are the same with the probes' results.
  pub apply_probe_results-best :
      any is_reachable (probed_candidates ps results) ≡ true
      → Perm (apply_probe_results ps results now).0.candidates (probed_candidates ps results)
        × ((best : EndpointCandidateState) × Leads best
              (apply_probe_results ps results now).0.candidates
            × (active (apply_probe_results ps results now).0.runtime ≡ some best.endpoint))
  unfolding apply_probe_results
  apply_probe_results-best h = rw h (rerank_lem (probed_candidates ps results) h)

  -- Where no probe reached one, the peer keeps its endpoints and its health, its candidates only
  -- take the results of the probes, it is not due for another ranking, and no change of the active
  -- endpoint is reported.
  apply_probe_results-none :
      any is_reachable (probed_candidates ps results) ≡ false
      → ((apply_probe_results ps results now).0.runtime ≡ ps.runtime)
        × ((apply_probe_results ps results now).0.candidates ≡ probed_candidates ps results)
        × ((apply_probe_results ps results now).0.needs_ranking ≡ false)
        × ((apply_probe_results ps results now).1 ≡ false)
  unfolding apply_probe_results
  apply_probe_results-none h = ground arith
