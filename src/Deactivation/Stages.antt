-- ===== src/Deactivation/Stages.antt =====
-- What holds of the orchestration between two stages, and the rules by which it is carried on.
use golden_retriever.Prelude.{
  ℕ, suc, ◌≤◌, String, ◌≡◌, refl, ◌∙◌, ap, List, [], ◌∷◌, ◌++◌, take, arith,
}
use golden_retriever.Prelude.Result.{Result, ok, err}
use golden_retriever.Models.Operations.{OperationStatus}
use golden_retriever.Models.Lifecycle.{OperationStatusEvent, DeactivationPhase}
use golden_retriever.Task.{returned, raised, Post}
use golden_retriever.Deactivation.Guard.{DeactivationAction, deactivation_plan, advance}
use golden_retriever.Deactivation.Server.{
  Request, begins, resumes, signals_fenced, cancels, invalidates, waits, cleans_users,
  removes_objects, marks_inactive, marks_failed, signals_status, Run, advance_order,
}

-- The place of a request in the plan; a failure is recorded, and then a status told, at the end.
abbrev pub rank : Request → ℕ
rank (begins c) = 0
rank (resumes c) = 0
rank (signals_fenced id e) = 1
rank (cancels id) = 2
rank (invalidates id c) = 3
rank (waits ids) = 4
rank (cleans_users i) = 5
rank (removes_objects i) = 6
rank (marks_inactive g) = 7
rank (marks_failed g) = 8
rank (signals_status id e) = 9

abbrev pub NotBefore : ℕ → List Request → Type 0
NotBefore lo [] = Unit {0}
NotBefore lo (q ∷ qs) = (lo ≤ rank q) × NotBefore lo qs

abbrev pub NotAfter : ℕ → List Request → Type 0
NotAfter hi [] = Unit {0}
NotAfter hi (q ∷ qs) = (rank q ≤ hi) × NotAfter hi qs

-- No request comes after one of a later place.
abbrev pub InOrder : List Request → Type 0
InOrder [] = Unit {0}
InOrder (q ∷ qs) = NotBefore (rank q) qs × InOrder qs

-- The operation statuses that the controller was told.
abbrev pub statuses : List Request → List OperationStatus
statuses [] = []
statuses (signals_status id e ∷ qs) = e.status ∷ statuses qs
statuses (_ ∷ qs) = statuses qs

NotBefore-snoc :
    (lo : ℕ) (qs : List Request) (q : Request)
    → NotBefore lo qs
    → lo ≤ rank q
    → NotBefore lo (qs ++ q ∷ [])
NotBefore-snoc lo [] q h b = (b, tt)
NotBefore-snoc lo (p ∷ qs) q h b = (h.0, NotBefore-snoc lo qs q h.1 b)

NotAfter-snoc :
    (hi : ℕ) (qs : List Request) (q : Request)
    → NotAfter hi qs
    → hi ≤ rank q
    → NotAfter (rank q) (qs ++ q ∷ [])
NotAfter-snoc hi [] q h b = (omega arith, tt)
NotAfter-snoc hi (p ∷ qs) q h b = (omega (arith, h.0, b), NotAfter-snoc hi qs q h.1 b)

pub NotAfter-weaken : (hi top : ℕ) (qs : List Request) → hi ≤ top → NotAfter hi qs → NotAfter top qs
NotAfter-weaken hi top [] b h = tt
NotAfter-weaken hi top (p ∷ qs) b h = (omega (arith, h.0, b), NotAfter-weaken hi top qs b h.1)

InOrder-snoc :
    (hi : ℕ) (qs : List Request) (q : Request)
    → InOrder qs
    → NotAfter hi qs
    → hi ≤ rank q
    → InOrder (qs ++ q ∷ [])
InOrder-snoc hi [] q o h b = (tt, tt)
InOrder-snoc hi (p ∷ qs) q o h b =
    (NotBefore-snoc (rank p) qs q o.0 (omega (arith, h.0, b)), InOrder-snoc hi qs q o.1 h.1 b)

statuses-append : (qs ps : List Request) → statuses (qs ++ ps) ≡ statuses qs ++ statuses ps
statuses-append [] ps = refl
statuses-append (begins c ∷ qs) ps = statuses-append qs ps
statuses-append (resumes c ∷ qs) ps = statuses-append qs ps
statuses-append (signals_fenced id e ∷ qs) ps = statuses-append qs ps
statuses-append (cancels id ∷ qs) ps = statuses-append qs ps
statuses-append (invalidates id c ∷ qs) ps = statuses-append qs ps
statuses-append (waits ids ∷ qs) ps = statuses-append qs ps
statuses-append (cleans_users i ∷ qs) ps = statuses-append qs ps
statuses-append (removes_objects i ∷ qs) ps = statuses-append qs ps
statuses-append (marks_inactive g ∷ qs) ps = statuses-append qs ps
statuses-append (marks_failed g ∷ qs) ps = statuses-append qs ps
statuses-append (signals_status id e ∷ qs) ps = ap (◌∷◌ e.status) (statuses-append qs ps)

module _ {W : Type 0} where
  -- After `n` actions of the plan: the requests are in order and none is after place `hi`, the
  -- controller was told the statuses `told`, and `Inv` holds of the world.
  pub record At (n hi : ℕ) (told : List OperationStatus) (Inv : W → Type 0) (s : Run W)
      : Type 0 where
    pub completed_is : s.completed ≡ take n deactivation_plan
    pub ordered : InOrder s.requests
    pub bounded : NotAfter hi s.requests
    pub told_is : statuses s.requests ≡ told
    pub world_is : Inv s.world

  pub At-weaken :
      (n hi top : ℕ) (told : List OperationStatus) (Inv K : W → Type 0) (s : Run W)
      → hi ≤ top
      → ((w : W) → Inv w → K w)
      → At n hi told Inv s
      → At n top told K s
  At-weaken n hi top told Inv K s b k a = record {
    completed_is = a.completed_is;
    ordered = a.ordered;
    bounded = NotAfter-weaken hi top s.requests b a.bounded;
    told_is = a.told_is;
    world_is = k s.world a.world_is;
  }

  pub At-phase :
      (n hi : ℕ) (told : List OperationStatus) (Inv : W → Type 0) (phase : DeactivationPhase)
      (s : Run W)
      → At n hi told Inv s
      → At n hi told Inv (record s { phase = phase })
  At-phase n hi told Inv phase s a = record {
    completed_is = a.completed_is;
    ordered = a.ordered;
    bounded = a.bounded;
    told_is = a.told_is;
    world_is = a.world_is;
  }

  -- A request that tells no status, at or after the place of those before it.
  pub asked :
      (n hi top : ℕ) (Inv After : W → Type 0) (q : Request) (w : W) (s : Run W)
      → hi ≤ rank q
      → rank q ≤ top
      → statuses (q ∷ []) ≡ []
      → After w
      → At n hi [] Inv s
      → At n top [] After (record s { requests = s.requests ++ q ∷ []; world = w })
  asked n hi top Inv After q w s b t silent h a = record {
    completed_is = a.completed_is;
    ordered = InOrder-snoc hi s.requests q a.ordered a.bounded b;
    bounded =
        NotAfter-weaken (rank q) top (s.requests ++ q ∷ []) t
          (NotAfter-snoc hi s.requests q a.bounded b);
    told_is =
        statuses-append s.requests (q ∷ []) ∙ ap (λ l. l ++ statuses (q ∷ [])) a.told_is ∙ silent;
    world_is = h;
  }

  -- The one request that tells a status.
  pub told_status :
      (n hi : ℕ) (Inv After : W → Type 0) (id : String) (e : OperationStatusEvent) (w : W)
      (s : Run W)
      → hi ≤ 9
      → After w
      → At n hi [] Inv s
      → At n 9
          (e.status ∷ [])
          After
          (record s { requests = s.requests ++ signals_status id e ∷ []; world = w })
  told_status n hi Inv After id e w s b h a = record {
    completed_is = a.completed_is;
    ordered = InOrder-snoc hi s.requests (signals_status id e) a.ordered a.bounded b;
    bounded = NotAfter-snoc hi s.requests (signals_status id e) a.bounded b;
    told_is =
        statuses-append s.requests (signals_status id e ∷ [])
        ∙ ap (λ l. l ++ e.status ∷ []) a.told_is;
    world_is = h;
  }

  -- The guard lets the next action of the plan pass.
  pub advance-Post :
      (n hi : ℕ) (told : List OperationStatus) (Inv : W → Type 0) (E C : Run W → Type 0)
      (action : DeactivationAction) (s : Run W)
      → advance action (take n deactivation_plan) ≡ ok (take (suc n) deactivation_plan)
      → At n hi told Inv s
      → Post (λ _. At (suc n) hi told Inv) E C (advance_order action s)
  unfolding advance_order
  advance-Post n hi told Inv E C action s next a =
      go (advance action s.completed) (ap (advance action) a.completed_is ∙ next)
    where
      go :
          (x : Result String (List DeactivationAction))
          → x ≡ ok (take (suc n) deactivation_plan)
          → Post {A = Unit {0}}
              (λ _. At (suc n) hi told Inv)
              E
              C
              (elim x [
                | err message ↦ (raised message, s)
                | ok completed ↦ (returned tt, record s { completed = completed })
              ])
      go (err message) e = ground (arith, e)
      go (ok completed) e = record {
        completed_is = ground (arith, e);
        ordered = a.ordered;
        bounded = a.bounded;
        told_is = a.told_is;
        world_is = a.world_is;
      }
