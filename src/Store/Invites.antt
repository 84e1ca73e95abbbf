-- ===== src/Store/Invites.antt =====
-- An invite admits one machine, and none after it has expired.
use ployz.Prelude.{
  ℕ, ◌+◌, ◌≤◌, ◌<◌, ltb→lt, ◌≡◌, Bool, true, false, none, some, List, [], ◌∷◌, arith, ltb,
  if◌then◌else◌, ◌==◌, text_eq, Option-cases, Bool-cases, inl, inr,
}
use ployz.Prelude.Text.{Text}
use ployz.Prelude.Map
use ployz.Model.Error.{Error, Result, ok, err, is_ok}
use ployz.Model.Service.{InviteRecord}
use ployz.Store.{
  Channels, StoreInner, create_invite, consume_invite, invite_expired, invite_not_found,
}

pub data Request : Type 0 where
  create : InviteRecord → Request
  consume : Text → ℕ → Request

abbrev count : Bool → ℕ
count true = 1
count false = 0

module _ {Net : Type 0} {C : Channels Net} where
  abbrev pub serve : StoreInner C → Request → StoreInner C × Result Error (Unit {0})
  serve s (create invite) = create_invite s invite
  serve s (consume id now) = consume_invite s id now

  abbrev pub serve_all : StoreInner C → List Request → StoreInner C
  serve_all s [] = s
  serve_all s (q ∷ qs) = serve_all (serve s q).0 qs

  -- One, when a request succeeds that makes the invite `id`, or that uses it up.
  abbrev pub makes : Text → StoreInner C → Request → ℕ
  makes id s (create invite) =
      if invite.id == id then count (is_ok (create_invite s invite).1) else 0
  makes id s (consume other now) = 0

  abbrev pub uses : Text → StoreInner C → Request → ℕ
  uses id s (create invite) = 0
  uses id s (consume other now) =
      if other == id then count (is_ok (consume_invite s other now).1) else 0

  abbrev pub total_made : Text → StoreInner C → List Request → ℕ
  total_made id s [] = 0
  total_made id s (q ∷ qs) = makes id s q + total_made id (serve s q).0 qs

  abbrev pub total_used : Text → StoreInner C → List Request → ℕ
  total_used id s [] = 0
  total_used id s (q ∷ qs) = uses id s q + total_used id (serve s q).0 qs

  -- One while the store has the invite.
  abbrev pub open_invites : Text → StoreInner C → ℕ
  open_invites id s = count (Map.contains_key id s.invites)

  serve_lem :
      (id : Text) (s : StoreInner C) (q : Request)
      → makes id s q + open_invites id s ≡ uses id s q + open_invites id (serve s q).0
  unfolding create_invite consume_invite
  serve_lem id s (create invite) = ground (arith, Map.get-insert id invite.id invite s.invites)
  serve_lem id s (consume other now) = ground (arith, Map.get-remove id other s.invites)

  -- Over any creations and uses of invites, in any order, and for any id: the successful creations,
  -- and one if the store has the invite at the start, are as many as the successful uses, and one
  -- if the store has it at the end. So an invite is used at most once for each creation.
  pub total_used-total_made :
      (id : Text) (s : StoreInner C) (qs : List Request)
      → total_made id s qs + open_invites id s
        ≡ total_used id s qs + open_invites id (serve_all s qs)
  total_used-total_made id s [] = omega arith
  total_used-total_made id s (q ∷ qs) =
      omega (arith, serve_lem id s q, total_used-total_made id (serve s q).0 qs)

  -- What a use of an invite finds and answers.
  pub data Consumes (s : StoreInner C) (id : Text) (now : ℕ)
      : StoreInner C × Result Error (Unit {0}) → Type 0 where
    missing : Map.get id s.invites ≡ none → Consumes s id now (s, err (invite_not_found id))
    late :
        (invite : InviteRecord)
        → Map.get id s.invites ≡ some invite
        → invite.expires_at < now
        → Consumes s id now (s, err (invite_expired id))
    accepted :
        (invite : InviteRecord)
        → Map.get id s.invites ≡ some invite
        → now ≤ invite.expires_at
        → Consumes s id now (record s { invites = Map.remove id s.invites }, ok tt)

  -- The use of an invite succeeds just when the store has it and it has not expired, and then takes
  -- it away; otherwise the store is unchanged and the error says which of the two failed.
  pub consume_invite-Consumes :
      (s : StoreInner C) (id : Text) (now : ℕ) → Consumes s id now (consume_invite s id now)
  unfolding consume_invite
  consume_invite-Consumes s id now = elim (Option-cases (Map.get id s.invites)) [
    | inl e ↦ rw (e, consume_invite) (missing e)
    | inr (invite, e) ↦ elim (Bool-cases (ltb invite.expires_at now)) [
      | inl q ↦ rw (e, q, consume_invite) (late invite e (ltb→lt _ _ q))
      | inr q ↦ rw (e, q, consume_invite) (accepted invite e (ground arith))
    ]
  ]
