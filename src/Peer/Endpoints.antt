-- ===== src/Peer/Endpoints.antt =====
-- The rotation and the renewal of a peer's endpoints.
use native.Mathlib.Nat.{mod-lt, mod-eq_of_lt, mod-add-mod, add-zero}
use ployz.Prelude.{
  ◌+◌, ◌%◌, ◌<◌, ◌≡◌, refl, sym, ap, ◌∙◌, Option, none, some, List, [], ◌∷◌, arith, length,
  get_elem?, contains, position, position-get, position-none, contains_of_position, List-cases,
  text_eq, inl, inr, ◌⊎◌, Option-cases, if◌then◌else◌,
}
use ployz.Prelude.Text.{Text}
use ployz.Peer.{Instant, WireGuardPeer, active, rotate_endpoint, update_endpoints, kept_position}

-- The active index points into the list, or is 0 for an empty list.
abbrev pub InRange : WireGuardPeer → Type 0
InRange p =
    (p.active_endpoint < length p.endpoints) ⊎ ((p.endpoints ≡ []) × (p.active_endpoint ≡ 0))

pub rotate_endpoint-InRange :
    (p : WireGuardPeer) (now : Instant) → InRange p → InRange (rotate_endpoint p now)
unfolding rotate_endpoint
rotate_endpoint-InRange p now h = elim (List-cases p.endpoints) [
  | inl e ↦ ground arith
  | inr (x, xs, e) ↦ inl (ground (arith, mod-lt (p.active_endpoint + 1) {m = length p.endpoints}))
]

-- `rotate_endpoint` at each of the instants in turn.
pub rotations : List Instant → WireGuardPeer → WireGuardPeer
rotations [] p = p
rotations (now ∷ later) p = rotations later (rotate_endpoint p now)

rotate_endpoint-fields :
    (p : WireGuardPeer) (now : Instant)
    → 0 < length p.endpoints
    → ((rotate_endpoint p now).endpoints ≡ p.endpoints)
      × ((rotate_endpoint p now).active_endpoint ≡ (p.active_endpoint + 1) % length p.endpoints)
unfolding rotate_endpoint
rotate_endpoint-fields p now h = elim (List-cases p.endpoints) [
  | inl e ↦ ground arith
  | inr (x, xs, e) ↦ ground arith
]

-- Rotations go round the list: from an index in it, as many rotations as there are instants move
-- on by so many places, and leave the endpoints as they are.
pub rotations-active :
    (times : List Instant) (p : WireGuardPeer)
    → p.active_endpoint < length p.endpoints
    → ((rotations times p).endpoints ≡ p.endpoints)
      × ((rotations times p).active_endpoint
          ≡ (p.active_endpoint + length times) % length p.endpoints)
unfolding rotations
rotations-active [] p h = (refl, sym (rw add-zero (mod-eq_of_lt h)))
rotations-active (now ∷ times) p h =
    let (same, moved) = rotate_endpoint-fields p now (omega arith) in
    let (kept, reached) =
      rotations-active times (rotate_endpoint p now)
        (rw (same, moved) (mod-lt (p.active_endpoint + 1) (omega arith))) in
    (
      kept ∙ same,
      reached
          ∙ rw (same, moved)
              (mod-add-mod (p.active_endpoint + 1) (length p.endpoints) (length times)
                ∙ ap (λ k. k % length p.endpoints) (omega arith)),
    )

kept_position-lt :
    (o : Option Text) (es : List Text) → 0 < length es → kept_position o es < length es
unfolding kept_position
kept_position-lt none es h = h
kept_position-lt (some current) es h = elim (Option-cases (position es current)) [
  | inl q ↦ rw (q, kept_position) h
  | inr (i, q) ↦ rw (q, kept_position) (position-get es current i q).1
]

pub update_endpoints-InRange :
    (p : WireGuardPeer) (new : List Text) → InRange (update_endpoints p new)
unfolding update_endpoints
update_endpoints-InRange p [] = inr (refl, refl)
update_endpoints-InRange p (e ∷ es) = inl (kept_position-lt (active p) (e ∷ es) (omega arith))

kept_position-get :
    (es : List Text) (current : Text)
    → get_elem? es (kept_position (some current) es)
      ≡ (if contains es current then some current else get_elem? es 0)
unfolding kept_position
kept_position-get es current = elim (Option-cases (position es current)) [
  | inl q ↦ rw (q, kept_position, position-none es current q)
  | inr (i, q) ↦
      rw (q, kept_position, contains_of_position es current i q) (position-get es current i q).0
]

-- The endpoint that is active after a renewal: the one that was active where the new list has it, else
-- the first of the new list, if any.
abbrev pub renewed : Option Text → List Text → Option Text
renewed none new = get_elem? new 0
renewed (some current) new = if contains new current then some current else get_elem? new 0

active-kept_position :
    (o : Option Text) (es : List Text) → get_elem? es (kept_position o es) ≡ renewed o es
unfolding kept_position
active-kept_position none es = refl
active-kept_position (some current) es = kept_position-get es current

renewed-empty : (o : Option Text) → renewed o [] ≡ none
renewed-empty none = refl
renewed-empty (some current) = refl

-- A renewal, of any peer by any list, takes the new list and keeps the last handshake, the time of the
-- last change of endpoint and the status. The endpoint that was active stays active where the new list has it; otherwise, or when none was active,
-- the first of the list is active, and none for the empty list. The index it leaves is in the list, or
-- is 0 for the empty list.
pub active-update_endpoints :
    (p : WireGuardPeer) (new : List Text)
    → ((update_endpoints p new).endpoints ≡ new)
      × (active (update_endpoints p new) ≡ renewed (active p) new)
      × InRange (update_endpoints p new)
      × ((update_endpoints p new).last_handshake ≡ p.last_handshake)
      × ((update_endpoints p new).last_endpoint_change ≡ p.last_endpoint_change)
      × ((update_endpoints p new).status ≡ p.status)
unfolding update_endpoints
active-update_endpoints p [] =
    (refl, sym (renewed-empty (active p)), update_endpoints-InRange p [], refl, refl, refl)
active-update_endpoints p (e ∷ es) = (
  refl,
  active-kept_position (active p) (e ∷ es),
  update_endpoints-InRange p (e ∷ es),
  refl,
  refl,
  refl,
)
