-- ===== src/Gate/Approval.antt =====
-- The approvals behind `should_run_solver` and `check_access` (skv-analyzer/src/main.rs).
use sentinel_kv.Prelude.{
  ℕ, ◌≡◌, ◌≢◌, refl, ◌∙◌, true, ◌||◌, List, [], ◌∷◌, ◌++◌, Text, contains, text_eq, arith,
}
use sentinel_kv.Policy.{off, require}
use sentinel_kv.Prelude.Int.{ℤ}
use sentinel_kv.Gate.{HitlGate, is_off, should_run_solver, check_access, Formula, SatResult}

-- Each condition of the first list has an approval, of its own or of its class in the second list;
-- the lists are equally long.
abbrev pub Approved : HitlGate → List Text → List Text → Type 0
Approved g [] [] = Unit
Approved g (v ∷ vs) (c ∷ cs) =
    ((contains v g.approved || contains c g.approved_classes) ≡ true) × Approved g vs cs
Approved g [] (c ∷ cs) = ⊥
Approved g (v ∷ vs) [] = ⊥

-- `g` is the gate `start` after some questions: the mode and the approvals are those of the start;
-- with the gate off nothing is blocked; and if nothing is blocked all that was asked is approved.
pub record IsHonest (start g : HitlGate) : Type 0 where
  pub same_mode : g.mode ≡ start.mode
  pub same_ids : g.approved ≡ start.approved
  pub same_classes : g.approved_classes ≡ start.approved_classes
  pub off_open : start.mode ≡ off → g.blocked ≡ []
  pub asked_approved : start.mode ≡ require → g.blocked ≡ [] → Approved start g.seen g.seen_classes

Approved-append :
    (g : HitlGate) (vs cs : List Text) (v c : Text)
    → Approved g vs cs
    → (contains v g.approved || contains c g.approved_classes) ≡ true
    → Approved g (vs ++ v ∷ []) (cs ++ c ∷ [])
Approved-append g [] [] v c h k = (k, tt)
Approved-append g (x ∷ vs) (y ∷ cs) v c h k = (h.0, Approved-append g vs cs v c h.1 k)
Approved-append g [] (y ∷ cs) v c h k = absurd h
Approved-append g (x ∷ vs) [] v c h k = absurd h

append-ne-nil : (l : List Text) (x : Text) → l ++ x ∷ [] ≢ []
append-ne-nil [] x e = cc
append-ne-nil (y ∷ l) x e = cc

module _ (v c : Text) (g : HitlGate) where
  pub seen-ask : (should_run_solver v c g).1.seen ≡ g.seen ++ v ∷ []
  unfolding should_run_solver
  seen-ask = ground arith

  pub seen_classes-ask : (should_run_solver v c g).1.seen_classes ≡ g.seen_classes ++ c ∷ []
  unfolding should_run_solver
  seen_classes-ask = ground arith

  -- where nothing is blocked behind a question, it was approved and nothing was blocked before
  open-ask :
      g.mode ≡ require
      → (should_run_solver v c g).1.blocked ≡ []
      → ((contains v g.approved || contains c g.approved_classes) ≡ true) × (g.blocked ≡ [])
  unfolding should_run_solver is_off
  open-ask e b = ground (arith, append-ne-nil g.blocked v)

module _ (start : HitlGate) (v c : Text) (g : HitlGate) (h : IsHonest start g) where
  -- One more question keeps the gate honest.
  pub should_run_solver-IsHonest : IsHonest start (should_run_solver v c g).1
  unfolding should_run_solver is_off
  should_run_solver-IsHonest = record {
    same_mode = ground (arith, h.same_mode);
    same_ids = ground (arith, h.same_ids);
    same_classes = ground (arith, h.same_classes);
    off_open = λ e. ground (arith, h.same_mode, h.off_open e);
    asked_approved = λ e b.
        let (yes_id, open_before) = open-ask v c g (h.same_mode ∙ e) b in
        rw (seen-ask v c g, seen_classes-ask v c g)
          (Approved-append start g.seen g.seen_classes v c (h.asked_approved e open_before)
            (rw (← h.same_ids, ← h.same_classes) yes_id));
  }

pub IsHonest-refl :
    (g : HitlGate) → g.blocked ≡ [] → g.seen ≡ [] → g.seen_classes ≡ [] → IsHonest g g
IsHonest-refl g b s c = record {
  same_mode = refl;
  same_ids = refl;
  same_classes = refl;
  off_open = λ _. b;
  asked_approved = λ _ _. rw (s, c) tt;
}

gate-check_access :
    (solver : Formula → SatResult) (total offset : ℤ) (size : ℕ) (v c : Text) (g : HitlGate)
    → (check_access solver total offset size v c g).1 ≡ (should_run_solver v c g).1
unfolding check_access
gate-check_access solver total offset size v c g = ground arith

pub check_access-IsHonest :
    (start g : HitlGate) (h : IsHonest start g) (solver : Formula → SatResult) (total offset : ℤ)
    (size : ℕ) (v c : Text)
    → IsHonest start (check_access solver total offset size v c g).1
check_access-IsHonest start g h solver total offset size v c =
    rw (gate-check_access solver total offset size v c g) (should_run_solver-IsHonest start v c g h)
