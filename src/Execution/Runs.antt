-- ===== src/Execution/Runs.antt =====
-- Sequences of steps, one critical section each, as the threads of src/execution interleave them.

pub data Reach {W : Type 0} (Step : W → W → Type 0) (s : W) : W → Type 0 where
  here : Reach Step s s
  next : {t u : W} → Reach Step s t → Step t u → Reach Step s u

pub Reach-keeps :
    {W : Type 0} {Step : W → W → Type 0} (P : W → Type 0)
    → ((t u : W) → Step t u → P t → P u)
    → {s t : W} → P s
    → Reach Step s t
    → P t
Reach-keeps P step h here = h
Reach-keeps P step h (next r st) = step _ _ st (Reach-keeps P step h r)

pub Reach-trans :
    {W : Type 0} {Step : W → W → Type 0} {s t u : W}
    → Reach Step s t
    → Reach Step t u
    → Reach Step s u
Reach-trans r here = r
Reach-trans r (next k st) = next (Reach-trans r k) st
