-- ===== src/Retention/Order.antt =====
-- The sort puts newer snapshots first.
use dataprotection.Base.{
  ℕ, ◌<◌, ◌==◌, ltb, if◌then◌else◌, List, [], ◌∷◌, none, some, Bool, true, false, Text, text_lt,
  All, All-map, ◌≡◌, refl, ◌⊎◌, inl, inr, subst, arith,
}
use dataprotection.Kube.Meta.{Time}
use dataprotection.Base.Sort.{IsSorted, sort-perm, sort-IsSorted}
use dataprotection.Retention.{snapshot_sort_time, is_newer, sort_snapshots_newest_first}
use dataprotection.Api.Execution.{Snapshot}
use mathlib.Core.List.{Perm}

pub text_lt-asym : (s t : Text) → text_lt s t ≡ true → text_lt t s ≡ false
unfolding text_lt
text_lt-asym [] [] h = refl
text_lt-asym [] (d ∷ t) h = refl
text_lt-asym (c ∷ s) [] h = cc
text_lt-asym (c ∷ s) (d ∷ t) h = ground (arith, text_lt-asym s t)

-- What is not smaller than a text that is not smaller than a third is not smaller than the third.
pub text_lt_trans : (a b c : Text) → text_lt b a ≡ false → text_lt c b ≡ false → text_lt c a ≡ false
unfolding text_lt
text_lt_trans [] [] [] h k = refl
text_lt_trans [] [] (z ∷ c) h k = k
text_lt_trans [] (y ∷ b) [] h k = refl
text_lt_trans [] (y ∷ b) (z ∷ c) h k = refl
text_lt_trans (x ∷ a) [] c h k = cc
text_lt_trans (x ∷ a) (y ∷ b) [] h k = cc
text_lt_trans (x ∷ a) (y ∷ b) (z ∷ c) h k = ground (arith, text_lt_trans a b c)

is_newer-asym : (x y : Snapshot) → is_newer x y ≡ true → is_newer y x ≡ false
unfolding is_newer
is_newer-asym x y h = ground (arith, text_lt-asym y.name x.name)

is_newer_trans :
    (x y z : Snapshot) → is_newer y x ≡ false → is_newer z y ≡ false → is_newer z x ≡ false
unfolding is_newer
is_newer_trans x y z h k = ground (arith, text_lt_trans z.name y.name x.name)

-- The time by which a snapshot is placed: that of its completion; where that is not set, of its start; and
-- where neither is, of its creation.
abbrev pub IsPlacedAt : Snapshot → Time → Type 0
IsPlacedAt s t =
    (s.status.completed_at ≡ some t)
    ⊎ ((s.status.completed_at ≡ none)
        × ((s.status.started_at ≡ some t)
            ⊎ ((s.status.started_at ≡ none) × (s.creation_timestamp ≡ t))))

-- The first snapshot is placed later than the second, or at the same time and its name is not the smaller one.
abbrev pub StandsBefore : Snapshot → Snapshot → Type 0
StandsBefore x y =
    (t u : Time)
    → IsPlacedAt x t
    → IsPlacedAt y u
    → (u < t) ⊎ ((u ≡ t) × (text_lt x.name y.name ≡ false))

-- Every snapshot stands before all that follow it.
abbrev pub NewestFirst : List Snapshot → Type 0
NewestFirst [] = Unit
NewestFirst (x ∷ xs) = All (StandsBefore x) xs × NewestFirst xs

-- The same snapshots, the newest first.
abbrev pub Arranges : List Snapshot → List Snapshot → Type 0
Arranges items order = Perm order items × NewestFirst order

IsPlacedAt-eq : (s : Snapshot) (t : Time) → IsPlacedAt s t → snapshot_sort_time s ≡ t
unfolding snapshot_sort_time
IsPlacedAt-eq s t (inl e) = rw e refl
IsPlacedAt-eq s t (inr (e, inl f)) = rw (e, f) refl
IsPlacedAt-eq s t (inr (e, inr (f, g))) = rw (e, f) g

placed_before :
    (t u : ℕ) (b : Bool)
    → (if u == t then b else ltb t u) ≡ false
    → (u < t) ⊎ ((u ≡ t) × (b ≡ false))
placed_before t u b h = ground arith

StandsBefore-not_newer : (x y : Snapshot) → is_newer y x ≡ false → StandsBefore x y
unfolding is_newer
StandsBefore-not_newer x y h t u p q = placed_before t u (text_lt x.name y.name) (
    subst (λ v. (if v == t then text_lt x.name y.name else ltb t v) ≡ false) (IsPlacedAt-eq y u q)
      (subst
        (λ w.
          (if snapshot_sort_time y == w
            then text_lt x.name y.name
            else ltb w (snapshot_sort_time y))
          ≡ false)
        (IsPlacedAt-eq x t p) h))

IsSorted-NewestFirst : (items : List Snapshot) → IsSorted is_newer items → NewestFirst items
IsSorted-NewestFirst [] h = tt
IsSorted-NewestFirst (x ∷ xs) h =
    (All-map (StandsBefore-not_newer x) xs h.0, IsSorted-NewestFirst xs h.1)

-- The sorted snapshots are those given, and of any two the one that is placed later stands first, or, where both
-- are placed at the same time, the one with the greater name. A snapshot is placed by its completion, by its
-- start where it has no completion, and by its creation where it has neither.
pub sort_snapshots_newest_first-Arranges :
    (items : List Snapshot) → Arranges items (sort_snapshots_newest_first items)
unfolding sort_snapshots_newest_first
sort_snapshots_newest_first-Arranges items = (
  sort-perm is_newer items,
  IsSorted-NewestFirst _ (sort-IsSorted is_newer is_newer-asym is_newer_trans items),
)
