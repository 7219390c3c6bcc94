-- ===== src/Effects/Ends.antt =====
-- Programs that end: whatever answers meet the rely condition, the run has a result, with the postcondition,
-- and does not panic.
use dataprotection.Base.{◌≡◌, refl, some, Bool, true, false, if◌then◌else◌}
use dataprotection.Effects.{
  Request, Response, Reply, ok, err, ApiError, Prog, ret, panic, call, ◌>>=◌, after, try, run,
}
use dataprotection.Effects.Obeys.{Rely, Good}
use dataprotection.Effects.Run.{Oracle}

abbrev pub Ends : {A : Type 0} → Rely → (A → Type 0) → Prog A → Type 0
Ends R Q (ret a) = Q a
Ends R Q panic = ⊥
Ends R Q (call r k) = (x : Response r) → R r x → Ends R Q (k x)

pub run-Ends :
    {A : Type 0} (R : Rely) (Q : A → Type 0) (o : Oracle) (m : Prog A)
    → ((r : Request) → R r (o r))
    → Ends R Q m
    → (a : A) × (run o m ≡ some a) × Q a
run-Ends R Q o (ret a) f h = (a, refl, h)
run-Ends R Q o panic f h = elim h [ ]
run-Ends R Q o (call r k) f h = run-Ends R Q o (k (o r)) f (h (o r) (f r))

pub Ends-bind :
    {A B : Type 0} (R : Rely) (P : A → Type 0) (Q : B → Type 0) (m : Prog A) (f : A → Prog B)
    → Ends R P m
    → ((a : A) → P a → Ends R Q (f a))
    → Ends R Q (m >>= f)
unfolding ◌>>=◌
Ends-bind R P Q (ret a) f h k = k a h
Ends-bind R P Q panic f h k = h
Ends-bind R P Q (call r c) f h k = λ x rx. Ends-bind R P Q (c x) f (h x rx) k

pub Ends-after :
    {A B : Type 0} (R : Rely) (P : A → Type 0) (Q : Reply B → Type 0) (f : A → Prog (Reply B))
    → ((a : A) → P a → Ends R Q (f a))
    → ((e : ApiError) → Q (err e))
    → (x : Reply A) → Good P x
    → Ends R Q (after f x)
Ends-after R P Q f k stop (ok a) h = k a h
Ends-after R P Q f k stop (err e) h = stop e

pub Ends-try :
    {A B : Type 0} (R : Rely) (P : A → Type 0) (Q : Reply B → Type 0) (m : Prog (Reply A))
    (f : A → Prog (Reply B))
    → Ends R (Good P) m
    → ((a : A) → P a → Ends R Q (f a))
    → ((e : ApiError) → Q (err e))
    → Ends R Q (try m f)
Ends-try R P Q m f h k stop = Ends-bind R (Good P) Q m (after f) h (Ends-after R P Q f k stop)

pub Ends-if :
    {A : Type 0} (R : Rely) (Q : A → Type 0) (b : Bool) (m n : Prog A)
    → Ends R Q m
    → Ends R Q n
    → Ends R Q (if b then m else n)
Ends-if R Q true m n h k = h
Ends-if R Q false m n h k = k

-- What RetryOnConflict keeps: it calls its body a bounded number of times, and returns what a call of the
-- body returned.
pub record IsBoundedRetry (retry : Prog (Reply Unit) → Prog (Reply Unit)) : Type 1 where
  pub ends :
      (R : Rely) (Q : Reply Unit → Type 0) (m : Prog (Reply Unit)) → Ends R Q m → Ends R Q (retry m)
