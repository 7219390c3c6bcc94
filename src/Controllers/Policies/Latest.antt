-- ===== src/Controllers/Policies/Latest.antt =====
-- The last schedule time that the reconciler of a policy records.
use dataprotection.Base.{
  List, [], ◌∷◌, Option, none, some, Bool, true, false, Text, ltb, if◌then◌else◌, All, Among, ◌≡◌,
  refl, ◌≤◌, ◌⊎◌, inl, inr, Bool-cases, arith,
}
use dataprotection.Kube.Meta.{Time}
use dataprotection.Kube.Batch.{CronJob}
use dataprotection.Controllers.Policies.{is_among, later, latest_loop, latest_cron_schedule_time}

abbrev listed : Option Time → List Time → List Time
listed none ts = ts
listed (some t) ts = t ∷ ts

-- The last schedule times of the cron jobs with one of the names.
abbrev pub schedule_times : List CronJob → List Text → List Time
schedule_times [] names = []
schedule_times (item ∷ items) names =
    if is_among item.name names
    then listed item.last_schedule_time (schedule_times items names)
    else schedule_times items names

-- The greatest of the times, if there is one.
abbrev pub IsGreatest : List Time → Option Time → Type 0
IsGreatest ts none = ts ≡ []
IsGreatest ts (some t) = Among t ts × All (λ u. u ≤ t) ts

-- The times of a list that come after one that is known.
abbrev IsGreatestFrom : Option Time → List Time → Option Time → Type 0
IsGreatestFrom latest ts r = IsGreatest (listed latest ts) r

le_trans : (l t m : Time) → ltb l t ≡ true → t ≤ m → l ≤ m
le_trans l t m e h = ground arith

le_other : (l t m : Time) → ltb l t ≡ false → l ≤ m → t ≤ m
le_other l t m e h = ground arith

later-Greatest :
    (latest : Option Time) (t : Time) (ts : List Time) (r : Option Time)
    → IsGreatestFrom (later latest (some t)) ts r
    → IsGreatestFrom latest (t ∷ ts) r
unfolding later
later-Greatest none t ts r h = h
later-Greatest (some l) t ts none h = elim (Bool-cases (ltb l t)) [ inl e ↦ cc | inr e ↦ cc ]
later-Greatest (some l) t ts (some m) h = greatest (ltb l t) refl h
  where
    grow : (m ≡ l) ⊎ Among m ts → (m ≡ l) ⊎ (m ≡ t) ⊎ Among m ts
    grow (inl e) = inl e
    grow (inr a) = inr (inr a)

    greatest :
        (b : Bool)
        → ltb l t ≡ b
        → IsGreatestFrom (if b then some t else some l) ts (some m)
        → IsGreatest (l ∷ t ∷ ts) (some m)
    greatest true e g = (inr g.0, (le_trans l t m e g.1.0, g.1))
    greatest false e g = (grow g.0, (g.1.0, (le_other l t m e g.1.0, g.1.1)))

-- One step of the loop.
listed-Greatest :
    (latest : Option Time) (b : Bool) (t : Option Time) (ts : List Time) (r : Option Time)
    → IsGreatestFrom (if b then later latest t else latest) ts r
    → IsGreatestFrom latest (if b then listed t ts else ts) r
unfolding later
listed-Greatest latest false t ts r h = h
listed-Greatest latest true none ts r h = h
listed-Greatest latest true (some t) ts r h = later-Greatest latest t ts r h

latest_loop-Greatest :
    (latest : Option Time) (items : List CronJob) (names : List Text)
    → IsGreatestFrom latest (schedule_times items names) (latest_loop latest items names)
unfolding latest_loop
latest_loop-Greatest none [] names = refl
latest_loop-Greatest (some l) [] names = (inl refl, (omega arith, tt))
latest_loop-Greatest latest (item ∷ items) names =
    listed-Greatest latest (is_among item.name names) item.last_schedule_time
      (schedule_times items names) _
      (latest_loop-Greatest
        (if is_among item.name names then later latest item.last_schedule_time else latest) items
        names)

-- The last schedule time that is recorded is the greatest one of the listed cron jobs with one of the names,
-- and there is none only if none of them has been scheduled.
pub latest_cron_schedule_time-Greatest :
    (items : List CronJob) (names : List Text)
    → IsGreatest (schedule_times items names) (latest_cron_schedule_time items names)
unfolding latest_cron_schedule_time
latest_cron_schedule_time-Greatest items names = latest_loop-Greatest none items names
