-- ===== src/Execution/Terminal.antt =====
-- When a native job has ended, and how.
use dataprotection.Base.{
  List, [], ◌∷◌, Option, none, some, Bool, true, false, ◌&&◌, Text, is_empty, trim_space, any, ◌≡◌,
  refl, sym, subst,
}
use dataprotection.Kube.Batch.{
  JobConditionType, job_complete, job_failed, other_condition, JobCondition, Job,
}
use dataprotection.Api.Common.{ResourcePhase}
use dataprotection.Execution.{
  is_true, or_message, terminal_condition, terminal_state_of, job_terminal_state, first,
}

abbrev completes : JobConditionType → Bool
completes job_complete = true
completes job_failed = false
completes (other_condition type) = false

abbrev fails : JobConditionType → Bool
fails job_complete = false
fails job_failed = true
fails (other_condition type) = false

-- A condition of the type that the test accepts, and that is true.
abbrev pub reports : (JobConditionType → Bool) → List JobCondition → Bool
reports test conditions = any (λ c. test c.type && is_true c.status) conditions

abbrev pub IsComplete : Job → Type 0
IsComplete job = reports completes job.status.conditions ≡ true

abbrev pub IsFailed : Job → Type 0
IsFailed job = reports fails job.status.conditions ≡ true

-- What a terminal state says of the conditions it was read from.
abbrev pub Says : List JobCondition → Option (ResourcePhase × Text) → Type 0
Says cs none = (reports completes cs ≡ false) × (reports fails cs ≡ false)
Says cs (some (ResourcePhase.succeeded, m)) = (reports completes cs ≡ true) × (is_empty m ≡ false)
Says cs (some (ResourcePhase.failed, m)) = (reports fails cs ≡ true) × (is_empty m ≡ false)
Says cs (some (phase, m)) = ⊥

or_message_nonempty : (m d : Text) → is_empty d ≡ false → is_empty (or_message m d) ≡ false
or_message_nonempty [] d h = h
or_message_nonempty (c ∷ m) d h = refl

skip :
    (c : JobCondition) (cs : List JobCondition) (s : Option (ResourcePhase × Text))
    → (completes c.type && is_true c.status) ≡ false
    → (fails c.type && is_true c.status) ≡ false
    → Says cs s
    → Says (c ∷ cs) s
skip c cs none h k says = (rw (h) says.0, rw (k) says.1)
skip c cs (some (ResourcePhase.succeeded, m)) h k says = (rw (h) says.0, says.1)
skip c cs (some (ResourcePhase.failed, m)) h k says = (rw (k) says.0, says.1)
skip c cs (some (ResourcePhase.unset, m)) h k says = says
skip c cs (some (ResourcePhase.pending, m)) h k says = says
skip c cs (some (ResourcePhase.configured, m)) h k says = says
skip c cs (some (ResourcePhase.running, m)) h k says = says
skip c cs (some (ResourcePhase.paused, m)) h k says = says

step-Says :
    (type : JobConditionType) (status : Bool) (c : JobCondition) (cs : List JobCondition)
    → type ≡ c.type
    → status ≡ is_true c.status
    → Says cs (terminal_state_of cs)
    → Says (c ∷ cs) (first (terminal_condition type status c.message) (terminal_state_of cs))
unfolding terminal_condition
step-Says job_complete true c cs e f says =
    ((rw (sym e, sym f) refl), or_message_nonempty (trim_space c.message) _ refl)
step-Says job_failed true c cs e f says =
    ((rw (sym e, sym f) refl), or_message_nonempty (trim_space c.message) _ refl)
step-Says job_complete false c cs e f says =
    skip c cs _ (rw (sym e, sym f) refl) (rw (sym e) refl) says
step-Says job_failed false c cs e f says =
    skip c cs _ (rw (sym e) refl) (rw (sym e, sym f) refl) says
step-Says (other_condition t) true c cs e f says =
    skip c cs _ (rw (sym e) refl) (rw (sym e) refl) says
step-Says (other_condition t) false c cs e f says =
    skip c cs _ (rw (sym e) refl) (rw (sym e) refl) says

terminal_state_of-Says : (cs : List JobCondition) → Says cs (terminal_state_of cs)
unfolding terminal_state_of
terminal_state_of-Says [] = (refl, refl)
terminal_state_of-Says (c ∷ cs) =
    step-Says c.type (is_true c.status) c cs refl refl (terminal_state_of-Says cs)

-- A native job that counts as not ended has no true condition Complete or Failed; one that counts as
-- succeeded has a true condition Complete, and one that counts as failed a true condition Failed, and
-- each of the two has a message; it never counts as anything else.
pub job_terminal_state-Says : (job : Job) → Says job.status.conditions (job_terminal_state job)
unfolding job_terminal_state
job_terminal_state-Says job = terminal_state_of-Says job.status.conditions

-- A job that counts as succeeded has completed.
pub succeeded-IsComplete :
    (job : Job) (m : Text)
    → job_terminal_state job ≡ some (ResourcePhase.succeeded, m)
    → IsComplete job
succeeded-IsComplete job m e =
    (subst (Says job.status.conditions) e (job_terminal_state-Says job)).0
