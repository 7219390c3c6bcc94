-- ===== src/Platform.antt =====
-- What the program takes from its platform and does not implement: the Unicode tables of Go's
-- package unicode, the SHA-1 digest, the process environment, the encoding and decoding of
-- termination messages as JSON, the RFC 3339 form of a time, SetStatusCondition of apimachinery, and
-- SetControllerReference and RetryOnConflict of the client libraries. The laws state documented
-- behaviour.
use dataprotection.Base.{
  ℕ, ◌+◌, ◌-◌, ◌≡◌, ◌<◌, List, [], ◌∷◌, Option, Bool, ◌&&◌, Text, leb, if◌then◌else◌, length, All,
  arith, refl,
}
use dataprotection.Base.Utf8.{IsAscii}
use dataprotection.Kube.Meta.{Condition, Time, ObjectMeta}
use dataprotection.Summary.{PodExecutionSummary}
use dataprotection.Effects.{Reply, Prog}
use dataprotection.Effects.Obeys.{Good}

abbrev pub ascii_lower : ℕ → Bool
ascii_lower c = leb b'a' c && leb c b'z'

abbrev pub ascii_upper : ℕ → Bool
ascii_upper c = leb b'A' c && leb c b'Z'

abbrev pub ascii_digit : ℕ → Bool
ascii_digit c = leb b'0' c && leb c b'9'

pub record Unicode : Type 0 where
  pub is_lower : ℕ → Bool
  pub is_digit : ℕ → Bool
  pub to_lower : ℕ → ℕ
  pub to_upper : ℕ → ℕ
  -- The digest of the UTF-8 bytes of a text.
  pub sha1 : Text → List ℕ

-- The tables agree with ASCII on the first 128 code points, and a digest has 20 bytes.
pub record IsStandard (u : Unicode) : Type 0 where
  pub is_lower_ascii : (c : ℕ) → IsAscii c → u.is_lower c ≡ ascii_lower c
  pub is_digit_ascii : (c : ℕ) → IsAscii c → u.is_digit c ≡ ascii_digit c
  pub to_lower_ascii : (c : ℕ) → IsAscii c → u.to_lower c ≡ (if ascii_upper c then c + 32 else c)
  pub to_upper_ascii : (c : ℕ) → IsAscii c → u.to_upper c ≡ (if ascii_lower c then c - 32 else c)
  pub length-sha1 : (s : Text) → length (u.sha1 s) ≡ 20
  pub sha1_bytes : (s : Text) → All (λ b. b < 256) (u.sha1 s)

-- Tables that know ASCII alone, and a digest that is a constant.
abbrev pub ascii_tables : Unicode
ascii_tables = record {
  is_lower = ascii_lower;
  is_digit = ascii_digit;
  to_lower = λ c. if ascii_upper c then c + 32 else c;
  to_upper = λ c. if ascii_lower c then c - 32 else c;
  sha1 = λ s.
      1 ∷ 2 ∷ 3 ∷ 4 ∷ 5 ∷ 6 ∷ 7 ∷ 8 ∷ 9 ∷ 10 ∷ 11 ∷ 12 ∷ 13 ∷ 14 ∷ 15 ∷ 16 ∷ 17 ∷ 18 ∷ 19 ∷ 20 ∷ [];
}

pub ascii_tables-IsStandard : IsStandard ascii_tables
ascii_tables-IsStandard = record {
  is_lower_ascii = λ c h. refl;
  is_digit_ascii = λ c h. refl;
  to_lower_ascii = λ c h. refl;
  to_upper_ascii = λ c h. refl;
  length-sha1 = λ s. refl;
  sha1_bytes = λ s. omega arith;
}

pub record Platform : Type 0 where
  pub unicode : Unicode
  -- os.Getenv
  pub getenv : Text → Text
  -- json.Marshal and json.Unmarshal of a summary; an error is `none`.
  pub marshal : PodExecutionSummary → Option Text
  pub unmarshal : Text → Option PodExecutionSummary
  -- t.Format(time.RFC3339)
  pub format_time : Time → Text
  pub set_status_condition : List Condition → Condition → List Condition
  -- The owner's kind and metadata, and the metadata of the object that it is to own.
  pub set_controller_reference : Text → ObjectMeta → ObjectMeta → Reply ObjectMeta
  -- retry.RetryOnConflict with the default backoff
  pub retry_on_conflict : Prog (Reply Unit) → Prog (Reply Unit)

-- SetControllerReference keeps the object's name and namespace.
abbrev pub KeepsNames : Platform → Type 0
KeepsNames p =
    (kind : Text) (owner meta : ObjectMeta)
    → Good (λ m. (m.name ≡ meta.name) × (m.namespace ≡ meta.namespace))
        (p.set_controller_reference kind owner meta)
