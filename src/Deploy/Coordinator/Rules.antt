-- ===== src/Deploy/Coordinator/Rules.antt =====
-- Histories of a deploy, and rules for what its steps do to them.
use ployz.Prelude.{◌≡◌, refl, sym, ◌∙◌, List, [], ◌∷◌, not, ◌==◌, text_eq, keep}
use ployz.Prelude.Set
use ployz.Model.Error.{Error, Result, ok, err}
use ployz.Model.Machine.{MachineId}
use ployz.Deploy.Effects.{World, Run, History, Call, next}

abbrev pub without : MachineId → List MachineId → List MachineId
without m = keep (λ (x : MachineId). not (x == m))

-- The machines with an open session after a history.
unfoldable pub open_in : {Net : Type 0} → World Net → History → List MachineId
unfolding Set.insert text_eq
open_in w [] = []
open_in w (Call.open_session m ns d coordinator ∷ h) =
    elim (w.opened (Call.open_session m ns d coordinator ∷ h)) [
      | ok _ ↦ Set.insert m (open_in w h)
      | err _ ↦ open_in w h
    ]
open_in w (Call.close_session m ∷ h) = without m (open_in w h)
open_in w (c ∷ h) = open_in w h

-- One history goes on from another by calls that have a property where they are made.
pub data Makes (P : Call → History → Type 0) (from : History) : History → Type 0 where
  nothing : Makes P from from
  more : {h : History} {c : Call} → Makes P from h → P c h → Makes P from (c ∷ h)

pub Makes-mono :
    {P Q : Call → History → Type 0} {from to : History}
    → ((c : Call) (h : History) → P c h → Q c h)
    → Makes P from to
    → Makes Q from to
Makes-mono f nothing = nothing
Makes-mono f (more made p) = more (Makes-mono f made) (f _ _ p)

pub Makes-trans :
    {P : Call → History → Type 0} {a b c : History} → Makes P a b → Makes P b c → Makes P a c
Makes-trans first nothing = first
Makes-trans first (more made p) = more (Makes-trans first made) p

-- What a step comes to: a result with a property of it and of the run, or an error with one of the run.
pub data Ends {A : Type 0} (Q : A → Run → Type 0) (E : Run → Type 0)
    : Run × Result Error A → Type 0 where
  returned : {a : A} {run : Run} → Q a run → Ends Q E (run, ok a)
  failed : {e : Error} {run : Run} → E run → Ends Q E (run, err e)

pub Ends-mono :
    {A : Type 0} {Q R : A → Run → Type 0} {E : Run → Type 0} {out : Run × Result Error A}
    → Ends Q E out
    → ((a : A) (run : Run) → Q a run → R a run)
    → Ends R E out
Ends-mono (returned {a} {run} q) f = returned (f a run q)
Ends-mono (failed x) f = failed x

pub Ends-map :
    {A : Type 0} {Q R : A → Run → Type 0} {E F : Run → Type 0} {out : Run × Result Error A}
    → Ends Q E out
    → ((a : A) (run : Run) → Q a run → R a run)
    → ((run : Run) → E run → F run)
    → Ends R F out
Ends-map (returned {a} {run} q) f g = returned (f a run q)
Ends-map (failed {e} {run} x) f g = failed (g run x)

-- What holds of the run, however the step ended.
pub Ends-run :
    {A : Type 0} {Q : A → Run → Type 0} {E : Run → Type 0} {out : Run × Result Error A}
    (Z : Run → Type 0)
    → Ends Q E out
    → ((a : A) (run : Run) → Q a run → Z run)
    → ((run : Run) → E run → Z run)
    → Z out.0
Ends-run Z (returned {a} {run} q) f g = f a run q
Ends-run Z (failed {e} {run} x) f g = g run x

module _ {A B : Type 0} {Q : A → Run → Type 0} {R : B → Run → Type 0} {E : Run → Type 0}
    (f : A → Run → Run × Result Error B) where
  -- A step, then another.
  pub Ends-next :
      {out : Run × Result Error A}
      → Ends Q E out
      → ((a : A) (run : Run) → Q a run → Ends R E (f a run))
      → Ends R E (next out f)
  unfolding next
  Ends-next (returned {a} {run} q) k = k a run q
  Ends-next (failed x) k = failed x

module _ {A B : Type 0} {R : B → Run → Type 0} {E : Run → Type 0}
    (f : A → Run → Run × Result Error B) where
  -- A value or an error, then a step.
  pub next-Ends :
      (r : Result Error A) (run : Run)
      → E run
      → ((a : A) → r ≡ ok a → Ends R E (f a run))
      → Ends R E (next (run, r) f)
  unfolding next
  next-Ends (ok a) run x k = k a refl
  next-Ends (err e) run x k = failed x

  -- The same, where the error tells something of the run.
  pub next-Ends_err :
      (r : Result Error A) (run : Run)
      → ((e : Error) → r ≡ err e → E run)
      → ((a : A) → r ≡ ok a → Ends R E (f a run))
      → Ends R E (next (run, r) f)
  unfolding next
  next-Ends_err (ok a) run x k = k a refl
  next-Ends_err (err e) run x k = failed (x e refl)

  -- A step that always goes on.
  pub ok-Ends : (a : A) (run : Run) → Ends R E (f a run) → Ends R E (next (run, ok a) f)
  unfolding next
  ok-Ends a run k = k

module _ {Net : Type 0} (w : World Net) (P : Call → History → Type 0) where
  -- The calls have the property, and the sessions are those that they opened.
  pub record IsGood (h : History) (sessions : List MachineId) : Type 0 where
    pub made : Makes P [] h
    pub in_step : sessions ≡ open_in w h

  -- A call that opens and closes no session.
  pub call-IsGood :
      {h : History} {sessions : List MachineId} (c : Call)
      → open_in w (c ∷ h) ≡ open_in w h
      → P c h
      → IsGood h sessions
      → IsGood (c ∷ h) sessions
  call-IsGood c same p g = record { made = Makes.more g.made p; in_step = g.in_step ∙ sym same }

  abbrev pub Good : Run → Type 0
  Good run = IsGood run.history run.sessions

  -- The run is good, and goes on from an earlier history.
  pub record Since (from : History) (run : Run) : Type 0 where
    pub good : Good run
    pub longer : Makes (λ _ _. Unit) from run.history

  pub since : {run : Run} → Good run → Since run.history run
  since g = record { good = g; longer = Makes.nothing }

  pub Since-trans : {h : History} {b c : Run} → Since h b → Since b.history c → Since h c
  Since-trans first second = record {
    good = second.good;
    longer = Makes-trans first.longer second.longer;
  }

  -- What goes on from a call goes on from before it.
  pub after_call : {h : History} {c : Call} {run : Run} → Since (c ∷ h) run → Since h run
  after_call s = record { good = s.good; longer = Makes-trans (more nothing tt) s.longer }

  -- A value or an error of which the run knows nothing.
  pub result-Ends :
      {A : Type 0} {h : History} (r : Result Error A) (run : Run)
      → Since h run
      → Ends (λ _ r'. Since h r') Good (run, r)
  result-Ends (ok a) run s = returned s
  result-Ends (err e) run s = failed s.good
