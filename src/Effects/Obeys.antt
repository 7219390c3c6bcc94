-- ===== src/Effects/Obeys.antt =====
-- Rely and guarantee for programs of requests: whatever answers meet the rely condition, every
-- request meets the guarantee and every result the postcondition. A run that panics has no result.
use dataprotection.Base.{◌≡◌, refl, subst, some, Bool, true, false, if◌then◌else◌}
use dataprotection.Effects.{
  run, ApiError, Request, Response, Reply, ok, err, Prog, ret, panic, call, ◌>>=◌, after, try,
}

pub some-inj : {A : Type 0} (b a : A) → some b ≡ some a → b ≡ a
some-inj b a e = cc

-- What the answers may be.
abbrev pub Rely : Type 1
Rely = (r : Request) → Response r → Type 0

-- Any answer at all.
abbrev pub Anything : Rely
Anything r x = Unit

abbrev pub Obeys : {A : Type 0} → Rely → (Request → Type 0) → (A → Type 0) → Prog A → Type 0
Obeys R G Q (ret a) = Q a
Obeys R G Q panic = Unit
Obeys R G Q (call r k) = G r × ((x : Response r) → R r x → Obeys R G Q (k x))

pub Obeys-bind :
    {A B : Type 0} (R : Rely) (G : Request → Type 0) (P : A → Type 0) (Q : B → Type 0) (m : Prog A)
    (f : A → Prog B)
    → Obeys R G P m
    → ((a : A) → P a → Obeys R G Q (f a))
    → Obeys R G Q (m >>= f)
unfolding ◌>>=◌
Obeys-bind R G P Q (ret a) f h k = k a h
Obeys-bind R G P Q panic f h k = tt
Obeys-bind R G P Q (call r c) f h k = (h.0, λ x rx. Obeys-bind R G P Q (c x) f (h.1 x rx) k)

pub Obeys-weaken :
    {A : Type 0} (R : Rely) (G : Request → Type 0) (P Q : A → Type 0) (m : Prog A)
    → ((a : A) → P a → Q a)
    → Obeys R G P m
    → Obeys R G Q m
Obeys-weaken R G P Q (ret a) f h = f a h
Obeys-weaken R G P Q panic f h = tt
Obeys-weaken R G P Q (call r c) f h = (h.0, λ x rx. Obeys-weaken R G P Q (c x) f (h.1 x rx))

-- A property of the value that is returned where nothing failed.
abbrev pub Good : {A : Type 0} → (A → Type 0) → Reply A → Type 0
Good P (ok a) = P a
Good P (err e) = Unit

-- A guarantee that allows every request, and a postcondition that holds of every result.
pub Obeys-any :
    {A : Type 0} (R : Rely) (Q : A → Type 0)
    → ((a : A) → Q a)
    → (m : Prog A) → Obeys R (λ r. Unit) Q m
Obeys-any R Q h (ret a) = h a
Obeys-any R Q h panic = tt
Obeys-any R Q h (call r c) = (tt, λ x rx. Obeys-any R Q h (c x))

pub Good-any : {A : Type 0} (x : Reply A) → Good (λ a. Unit) x
Good-any (ok a) = tt
Good-any (err e) = tt

-- Both branches of a test, each with what the test says.
pub Obeys-if :
    {A : Type 0} (R : Rely) (G : Request → Type 0) (Q : A → Type 0) (b : Bool) (m n : Prog A)
    → (b ≡ true → Obeys R G Q m)
    → (b ≡ false → Obeys R G Q n)
    → Obeys R G Q (if b then m else n)
Obeys-if R G Q true m n h k = h refl
Obeys-if R G Q false m n h k = k refl

pub Obeys-after :
    {A B : Type 0} (R : Rely) (G : Request → Type 0) (P : A → Type 0) (Q : Reply B → Type 0)
    (f : A → Prog (Reply B))
    → ((a : A) → P a → Obeys R G Q (f a))
    → ((e : ApiError) → Q (err e))
    → (x : Reply A) → Good P x
    → Obeys R G Q (after f x)
Obeys-after R G P Q f k stop (ok a) h = k a h
Obeys-after R G P Q f k stop (err e) h = stop e

pub Obeys-try :
    {A B : Type 0} (R : Rely) (G : Request → Type 0) (P : A → Type 0) (Q : Reply B → Type 0)
    (m : Prog (Reply A)) (f : A → Prog (Reply B))
    → Obeys R G (Good P) m
    → ((a : A) → P a → Obeys R G Q (f a))
    → ((e : ApiError) → Q (err e))
    → Obeys R G Q (try m f)
Obeys-try R G P Q m f h k stop =
    Obeys-bind R G (Good P) Q m (after f) h (Obeys-after R G P Q f k stop)

-- A program that obeys a stronger guarantee under a weaker rely condition.
pub Obeys-mono :
    {A : Type 0} (R R' : Rely) (G G' : Request → Type 0) (Q : A → Type 0) (m : Prog A)
    → ((r : Request) (x : Response r) → R' r x → R r x)
    → ((r : Request) → G r → G' r)
    → Obeys R G Q m
    → Obeys R' G' Q m
Obeys-mono R R' G G' Q (ret a) f g h = h
Obeys-mono R R' G G' Q panic f g h = tt
Obeys-mono R R' G G' Q (call r c) f g h =
    (g r h.0, λ x rx. Obeys-mono R R' G G' Q (c x) f g (h.1 x (f r x rx)))

-- The postcondition holds of the result under an oracle that meets the rely condition.
pub run-Obeys :
    {A : Type 0} (R : Rely) (G : Request → Type 0) (Q : A → Type 0) (o : (r : Request) → Response r)
    (m : Prog A) (a : A)
    → ((r : Request) → R r (o r))
    → Obeys R G Q m
    → run o m ≡ some a
    → Q a
run-Obeys R G Q o (ret b) a f h e = subst Q (some-inj b a e) h
run-Obeys R G Q o panic a f h e = cc
run-Obeys R G Q o (call r c) a f h e = run-Obeys R G Q o (c (o r)) a f (h.1 (o r) (f r)) e

-- Programs whose requests are all of a kind, whatever answers and whatever they return.
abbrev pub Within : {A : Type 0} → (Request → Type 0) → Prog A → Type 0
Within G m = Obeys Anything G (λ a. Unit) m

pub Within-bind :
    {A B : Type 0} (G : Request → Type 0) (m : Prog A) (f : A → Prog B)
    → Within G m
    → ((a : A) → Within G (f a))
    → Within G (m >>= f)
Within-bind G m f h k = Obeys-bind Anything G (λ a. Unit) (λ b. Unit) m f h (λ a u. k a)

pub Within-after :
    {A B : Type 0} (G : Request → Type 0) (f : A → Prog (Reply B))
    → ((a : A) → Within G (f a))
    → (x : Reply A) → Within G (after f x)
Within-after G f k (ok a) = k a
Within-after G f k (err e) = tt

pub Within-try :
    {A B : Type 0} (G : Request → Type 0) (m : Prog (Reply A)) (f : A → Prog (Reply B))
    → Within G m
    → ((a : A) → Within G (f a))
    → Within G (try m f)
Within-try G m f h k = Within-bind G m (after f) h (Within-after G f k)

pub Within-if :
    {A : Type 0} (G : Request → Type 0) (b : Bool) (m n : Prog A)
    → Within G m
    → Within G n
    → Within G (if b then m else n)
Within-if G true m n h k = h
Within-if G false m n h k = k

-- Requests of a kind that the guarantee allows, under any rely condition.
pub Within-Obeys :
    {A : Type 0} (R : Rely) (G G' : Request → Type 0) (Q : A → Type 0) (m : Prog A)
    → ((r : Request) → G r → G' r)
    → ((a : A) → Q a)
    → Within G m
    → Obeys R G' Q m
Within-Obeys R G G' Q m g q h =
    Obeys-weaken R G' (λ a. Unit) Q m (λ a u. q a)
      (Obeys-mono Anything R G G' (λ a. Unit) m (λ r x h. tt) g h)

-- The guarantee replaced by one that the requests meet in any case.
pub Obeys-Within :
    {A : Type 0} (R : Rely) (G G' : Request → Type 0) (Q : A → Type 0) (m : Prog A)
    → Obeys R G Q m
    → Within G' m
    → Obeys R G' Q m
Obeys-Within R G G' Q (ret a) h w = h
Obeys-Within R G G' Q panic h w = tt
Obeys-Within R G G' Q (call r c) h w =
    (w.0, λ x rx. Obeys-Within R G G' Q (c x) (h.1 x rx) (w.1 x tt))
