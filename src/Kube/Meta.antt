-- ===== src/Kube/Meta.antt =====
-- metav1: times, conditions, the metadata of an object; and the string maps of labels.
use dataprotection.Base.{
  ℕ, ◌≡◌, List, [], ◌∷◌, Option, none, some, arith, Text, text_eq, text_eq_iff, if◌then◌else◌,
}

-- A time, in nanoseconds since the epoch.
abbrev pub Time : Type 0
Time = ℕ

-- A map[string]string. A nil map and an empty one are one list.
abbrev pub TextMap : Type 0
TextMap = List (Text × Text)

-- values[key], or the empty string
unfoldable pub lookup : Text → TextMap → Text
lookup k [] = []
lookup k ((j, v) ∷ m) = if text_eq j k then v else lookup k m

-- The value of a key that is there.
unfoldable pub entry : Text → TextMap → Option Text
entry k [] = none
entry k ((j, v) ∷ m) = if text_eq j k then some v else entry k m

-- values[key] = value
unfoldable pub insert : Text → Text → TextMap → TextMap
insert k v [] = (k, v) ∷ []
insert k v ((j, w) ∷ m) = if text_eq j k then (k, v) ∷ m else (j, w) ∷ insert k v m

pub lookup-insert :
    (k j v : Text) (m : TextMap) → lookup j (insert k v m) ≡ (if text_eq k j then v else lookup j m)
unfolding lookup insert
lookup-insert k j v [] = ground arith
lookup-insert k j v ((i, w) ∷ m) =
    ground (arith, text_eq_iff k j, text_eq_iff i k, text_eq_iff i j, lookup-insert k j v m)

pub entry-insert :
    (k j v : Text) (m : TextMap)
    → entry j (insert k v m) ≡ (if text_eq k j then some v else entry j m)
unfolding entry insert
entry-insert k j v [] = ground arith
entry-insert k j v ((i, w) ∷ m) =
    ground (arith, text_eq_iff k j, text_eq_iff i k, text_eq_iff i j, entry-insert k j v m)

pub data ConditionStatus : Type 0 where
  condition_true condition_false condition_unknown : ConditionStatus

pub record Condition : Type 0 where
  pub type : Text
  pub status : ConditionStatus
  pub reason : Text
  pub message : Text
  pub observed_generation : ℕ
  pub last_transition_time : Time

pub record OwnerReference : Type 0 where
  pub kind : Text
  pub name : Text

pub record ObjectMeta : Type 0 where
  pub name : Text
  pub namespace : Text
  pub generation : ℕ
  pub labels : TextMap
  pub annotations : TextMap
  pub finalizers : List Text
  pub owner_references : List OwnerReference
  pub creation_timestamp : Time
  pub deletion_timestamp : Option Time

-- The metadata of a new object with a name, a namespace, labels and annotations.
abbrev pub new_meta : Text → Text → TextMap → TextMap → ObjectMeta
new_meta name namespace labels annotations = record {
  name = name;
  namespace = namespace;
  generation = 0;
  labels = labels;
  annotations = annotations;
  finalizers = [];
  owner_references = [];
  creation_timestamp = 0;
  deletion_timestamp = none;
}
