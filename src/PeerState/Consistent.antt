-- ===== src/PeerState/Consistent.antt =====
-- The candidates and the endpoints of a peer stay the same list, and the active index in it.
use ployz.Prelude.{
  ℕ, suc, ◌<◌, ◌≡◌, refl, sym, ◌∙◌, inl, inr, Option, none, some, List, [], ◌∷◌, map, arith,
  Option-cases, List-cases, length, position, position-get, text_eq,
}
use ployz.Prelude.Text.{Text}
use ployz.Prelude.Map.{Map}
use ployz.Prelude.Sort.{sort_by}
use ployz.Model.Machine.{MachineRecord}
use ployz.Peer.{Instant, WireGuardPeer, calculate_status, rotate_endpoint, update_endpoints}
use ployz.Peer
use ployz.Peer.Endpoints.{InRange, rotate_endpoint-InRange, update_endpoints-InRange}
use ployz.PeerState.{
  TcpProbeResult, EndpointCandidateState, candidate_for, build_candidates, build_from,
  update_candidate, PeerState, from_record, update_from_record,
}
use ployz.PeerState.Device.{
  DevicePeer, set_success, set_failure, seed_endpoint, seed_from_device, adopt, observe, settle,
  fall_back, refresh_from_device, rerank, apply_probe_results, candidate_le, probed, recalculate,
  ranked_runtime, note_handshake, note_failure,
}

abbrev pub endpoints_of : List EndpointCandidateState → List Text
endpoints_of = map (λ (c : EndpointCandidateState). c.endpoint)

pub record IsConsistent {Net : Type 0} (ps : PeerState Net) : Type 0 where
  pub listed : endpoints_of ps.candidates ≡ ps.runtime.endpoints
  pub in_range : InRange ps.runtime

candidate_for-endpoint :
    (e : Text) (i : ℕ) (existing : List EndpointCandidateState)
    → (candidate_for e i existing).endpoint ≡ e
unfolding candidate_for
candidate_for-endpoint e i [] = refl
candidate_for-endpoint e i (c ∷ existing) = ground (arith, candidate_for-endpoint e i existing)

endpoints_of-build_from :
    (i : ℕ) (es : List Text) (existing : List EndpointCandidateState)
    → endpoints_of (build_from i es existing) ≡ es
unfolding build_from
endpoints_of-build_from i [] existing = refl
endpoints_of-build_from i (e ∷ es) existing =
    cc (candidate_for-endpoint e i existing, endpoints_of-build_from (suc i) es existing)

pub endpoints_of-build_candidates :
    (es : List Text) (existing : List EndpointCandidateState)
    → endpoints_of (build_candidates es existing) ≡ es
unfolding build_candidates
endpoints_of-build_candidates es existing = endpoints_of-build_from 0 es existing

endpoints_of-update :
    (f : EndpointCandidateState → EndpointCandidateState)
    → ((c : EndpointCandidateState) → (f c).endpoint ≡ c.endpoint)
    → (e : Text) (cs : List EndpointCandidateState)
    → endpoints_of (update_candidate f e cs) ≡ endpoints_of cs
unfolding update_candidate
endpoints_of-update f same e [] = refl
endpoints_of-update f same e (c ∷ cs) = ground (arith, same c, endpoints_of-update f same e cs)

endpoints_of-note_handshake :
    (e : Option Text) (t : Option Instant) (cs : List EndpointCandidateState)
    → endpoints_of (note_handshake e t cs) ≡ endpoints_of cs
endpoints_of-note_handshake (some e) (some t) cs =
    endpoints_of-update (set_success t) (λ c. refl) e cs
endpoints_of-note_handshake (some e) none cs = refl
endpoints_of-note_handshake none t cs = refl

endpoints_of-note_failure :
    (e : Option Text) (now : Instant) (cs : List EndpointCandidateState)
    → endpoints_of (note_failure e now cs) ≡ endpoints_of cs
endpoints_of-note_failure (some e) now cs = endpoints_of-update (set_failure now) (λ c. refl) e cs
endpoints_of-note_failure none now cs = refl

endpoints_of-probed :
    (results : Map Text TcpProbeResult) (cs : List EndpointCandidateState)
    → endpoints_of (map (probed results) cs) ≡ endpoints_of cs
endpoints_of-probed results [] = refl
endpoints_of-probed results (c ∷ cs) = ground (arith, endpoints_of-probed results cs)

InRange-zero : (p : WireGuardPeer) → p.active_endpoint ≡ 0 → InRange p
InRange-zero p h = elim (List-cases p.endpoints) [
  | inl e ↦ inr (e, h)
  | inr (x, xs, e) ↦ inl (ground arith)
]

pub endpoints-update_endpoints :
    (p : WireGuardPeer) (es : List Text) → (update_endpoints p es).endpoints ≡ es
unfolding update_endpoints
endpoints-update_endpoints p [] = refl
endpoints-update_endpoints p (e ∷ es) = refl

endpoints-rotate_endpoint :
    (p : WireGuardPeer) (now : Instant) → (rotate_endpoint p now).endpoints ≡ p.endpoints
unfolding rotate_endpoint
endpoints-rotate_endpoint p now = ground arith

module _ {Net : Type 0} where
  pub from_record-IsConsistent :
      (r : MachineRecord Net) (now : Instant) → IsConsistent (from_record r now)
  unfolding from_record
  from_record-IsConsistent r now = record {
    listed = endpoints_of-build_candidates r.endpoints [];
    in_range = InRange-zero (Peer.new r.endpoints now) refl;
  }

  pub update_from_record-IsConsistent :
      (ps : PeerState Net) (r : MachineRecord Net) → IsConsistent (update_from_record ps r)
  unfolding update_from_record
  update_from_record-IsConsistent ps r = record {
    listed =
        endpoints_of-build_candidates r.endpoints ps.candidates
        ∙ sym (endpoints-update_endpoints ps.runtime r.endpoints);
    in_range = update_endpoints-InRange ps.runtime r.endpoints;
  }

  adopt-IsConsistent :
      (ps : PeerState Net) (e : Text) (t now : Instant) (pos : ℕ)
      → IsConsistent ps
      → pos < length ps.runtime.endpoints
      → IsConsistent (adopt ps e t now pos)
  unfolding adopt
  adopt-IsConsistent ps e t now pos h lt = record {
    listed = endpoints_of-update (set_success t) (λ c. refl) e ps.candidates ∙ h.listed;
    in_range = inl lt;
  }

  seed_endpoint-IsConsistent :
      (ps : PeerState Net) (e : Option Text) (t : Option Instant) (now : Instant)
      → IsConsistent ps
      → IsConsistent (seed_endpoint ps e t now)
  unfolding seed_endpoint
  seed_endpoint-IsConsistent ps none t now h = h
  seed_endpoint-IsConsistent ps (some e) none now h = h
  seed_endpoint-IsConsistent ps (some e) (some t) now h =
      elim (Option-cases (position ps.runtime.endpoints e)) [
        | inl q ↦ ground arith
        | inr (pos, q) ↦ ground (
          arith,
          adopt-IsConsistent ps e t now pos h (position-get ps.runtime.endpoints e pos q).1,
        )
      ]

  pub seed_from_device-IsConsistent :
      (ps : PeerState Net) (d : DevicePeer) (now : Instant)
      → IsConsistent ps
      → IsConsistent (seed_from_device ps d now)
  unfolding seed_from_device
  seed_from_device-IsConsistent ps d now h =
      seed_endpoint-IsConsistent ps d.endpoint d.last_handshake now h

  observe-IsConsistent :
      (ps : PeerState Net) (d : Option DevicePeer) (now : Instant)
      → IsConsistent ps
      → IsConsistent (observe ps d now)
  unfolding observe
  observe-IsConsistent ps none now h = record { listed = h.listed; in_range = h.in_range }
  observe-IsConsistent ps (some d) now h =
      let s = seed_from_device-IsConsistent ps d now h in
      record {
        listed = endpoints_of-note_handshake d.endpoint d.last_handshake _ ∙ s.listed;
        in_range = s.in_range;
      }

  fall_back-IsConsistent :
      (ps : PeerState Net) (now : Instant) → IsConsistent ps → IsConsistent (fall_back ps now).0
  unfolding fall_back
  fall_back-IsConsistent ps now h = record {
    listed =
        endpoints_of-note_failure _ now ps.candidates
        ∙ h.listed
        ∙ sym (endpoints-rotate_endpoint ps.runtime now);
    in_range = rotate_endpoint-InRange ps.runtime now h.in_range;
  }

  settle-IsConsistent :
      (ps : PeerState Net) (now : Instant) → IsConsistent ps → IsConsistent (settle ps now).0
  unfolding settle
  settle-IsConsistent ps now h = ground (arith, fall_back-IsConsistent ps now h)

  pub refresh_from_device-IsConsistent :
      (ps : PeerState Net) (d : Option DevicePeer) (now : Instant)
      → IsConsistent ps
      → IsConsistent (refresh_from_device ps d now).0
  unfolding refresh_from_device calculate_status
  refresh_from_device-IsConsistent ps d now h =
      let s = observe-IsConsistent ps d now h in
      settle-IsConsistent (recalculate (observe ps d now) now) now
        (record { listed = s.listed; in_range = s.in_range })

  rerank-IsConsistent :
      (ps : PeerState Net) (cs : List EndpointCandidateState) (now : Instant)
      → IsConsistent (rerank ps cs now).0
  unfolding rerank
  rerank-IsConsistent ps cs now = record {
    listed = refl;
    in_range =
        InRange-zero (ranked_runtime ps.runtime (endpoints_of (sort_by candidate_le cs)) now) refl;
  }

  pub apply_probe_results-IsConsistent :
      (ps : PeerState Net) (results : Map Text TcpProbeResult) (now : Instant)
      → IsConsistent ps
      → IsConsistent (apply_probe_results ps results now).0
  unfolding apply_probe_results
  apply_probe_results-IsConsistent ps results now h =
      let same = endpoints_of-probed results ps.candidates in
      ground (arith, same, rerank-IsConsistent ps (map (probed results) ps.candidates) now)

  -- What happens to the state of one peer, in any order.
  pub data Step (ps : PeerState Net) : PeerState Net → Type 0 where
    updated : (r : MachineRecord Net) → Step ps (update_from_record ps r)
    seeded : (d : DevicePeer) (now : Instant) → Step ps (seed_from_device ps d now)
    refreshed : (d : Option DevicePeer) (now : Instant) → Step ps (refresh_from_device ps d now).0
    ranked :
        (results : Map Text TcpProbeResult) (now : Instant)
        → Step ps (apply_probe_results ps results now).0

  pub data Reach (r : MachineRecord Net) (now : Instant) : PeerState Net → Type 0 where
    start : Reach r now (from_record r now)
    onward : {ps next : PeerState Net} → Reach r now ps → Step ps next → Reach r now next

  Step-IsConsistent : {ps next : PeerState Net} → Step ps next → IsConsistent ps → IsConsistent next
  Step-IsConsistent {ps} (updated r) h = update_from_record-IsConsistent ps r
  Step-IsConsistent {ps} (seeded d now) h = seed_from_device-IsConsistent ps d now h
  Step-IsConsistent {ps} (refreshed d now) h = refresh_from_device-IsConsistent ps d now h
  Step-IsConsistent {ps} (ranked results now) h = apply_probe_results-IsConsistent ps results now h

  -- Whatever the updates, the device and the probes do to a peer that was made from a record, its
  -- candidates are those of its endpoints, in the same order, and its active endpoint is one of
  -- them.
  pub Reach-IsConsistent :
      {r : MachineRecord Net} {now : Instant} {ps : PeerState Net}
      → Reach r now ps
      → IsConsistent ps
  Reach-IsConsistent {r} {now} start = from_record-IsConsistent r now
  Reach-IsConsistent (onward rest step) = Step-IsConsistent step (Reach-IsConsistent rest)
