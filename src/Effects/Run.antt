-- ===== src/Effects/Run.antt =====
-- Runs against an oracle: the result of a program that goes on with the result of another.
use dataprotection.Base.{◌≡◌, refl, Option, none, some}
use dataprotection.Effects.{Request, Response, Prog, ret, panic, call, ◌>>=◌, run}

abbrev pub Oracle : Type 0
Oracle = (r : Request) → Response r

abbrev pub run_on : {A B : Type 0} → Oracle → (A → Prog B) → Option A → Option B
run_on o f none = none
run_on o f (some a) = run o (f a)

pub run-bind :
    {A B : Type 0} (o : Oracle) (m : Prog A) (f : A → Prog B)
    → run o (m >>= f) ≡ run_on o f (run o m)
unfolding ◌>>=◌
run-bind o (ret a) f = refl
run-bind o panic f = refl
run-bind o (call r k) f = run-bind o (k (o r)) f
