-- ===== src/Runtime/EnvNames.antt =====
-- The names of environment variables that are built from the names of parameters and secrets.
use dataprotection.Base.{
  ℕ, ◌≡◌, refl, [], ◌∷◌, map, Bool, true, false, ◌||◌, Text, if◌then◌else◌, is_empty, Bool-cases,
  inl, inr, arith, All, All-append, trim_space, trim_suffix, has_suffix, reverse, behind,
  trim_prefix, has_prefix,
}
use dataprotection.Base.Trim.{trim-All, All-reverse}
use dataprotection.Platform.{Unicode, ascii_upper, ascii_digit}
use dataprotection.Runtime.Env.{env_key, env_key_loop, is_underscore, underscore, or_prefix}

-- A character of an environment variable's name.
abbrev pub IsEnvChar : ℕ → Type 0
IsEnvChar c = (ascii_upper c || ascii_digit c || is_underscore c) ≡ true

env_key_loop-All : (b : Bool) (raw : Text) → All IsEnvChar (env_key_loop b raw)
unfolding env_key_loop
env_key_loop-All b [] = tt
env_key_loop-All b (r ∷ raw) = elim (Bool-cases (ascii_upper r || ascii_digit r)) [
  | inl h ↦ rw h (is_env_char r h, env_key_loop-All false raw)
  | inr h ↦ rw h (skipped b (env_key_loop-All true raw))
]
  where
    is_env_char : (c : ℕ) → (ascii_upper c || ascii_digit c) ≡ true → IsEnvChar c
    is_env_char c h = ground arith

    skipped :
        (b : Bool)
        → All IsEnvChar (env_key_loop true raw)
        → All IsEnvChar (if b then env_key_loop true raw else 95 ∷ env_key_loop true raw)
    skipped true k = k
    skipped false k = (refl, k)

behind-All : (P : ℕ → Type 0) (s t : Text) → All P s → All P (behind s t)
unfolding behind
behind-All P s [] h = h
behind-All P [] (d ∷ t) h = tt
behind-All P (c ∷ s) (d ∷ t) h = behind-All P s t h.1

trim_prefix-All : (P : ℕ → Type 0) (s t : Text) → All P s → All P (trim_prefix s t)
unfolding trim_prefix
trim_prefix-All P s t h = elim (Bool-cases (has_prefix s t)) [
  | inl e ↦ rw e (behind-All P s t h)
  | inr e ↦ rw e h
]

trim_suffix-All : (P : ℕ → Type 0) (s t : Text) → All P s → All P (trim_suffix s t)
unfolding trim_suffix
trim_suffix-All P s t h =
    All-reverse P _ (trim_prefix-All P (reverse s) (reverse t) (All-reverse P s h))

or_prefix-All :
    (prefix result : Text)
    → All IsEnvChar prefix
    → All IsEnvChar result
    → All IsEnvChar (or_prefix prefix result)
or_prefix-All prefix [] h k = trim_suffix-All IsEnvChar prefix underscore h
or_prefix-All prefix (c ∷ s) h k = k

-- With a prefix of capital letters, digits and underscores, the environment variable of any
-- parameter or secret has a name of capital letters, digits and underscores, whatever the raw name.
pub env_key-All :
    (u : Unicode) (prefix raw : Text) → All IsEnvChar prefix → All IsEnvChar (env_key u prefix raw)
unfolding env_key
env_key-All u prefix raw h = elim (Bool-cases (is_empty (map u.to_upper (trim_space raw)))) [
  | inl e ↦ rw e (trim_suffix-All IsEnvChar prefix underscore h)
  | inr e ↦ rw e (
      or_prefix-All prefix _ h (
        trim-All is_underscore IsEnvChar _ (
          All-append IsEnvChar prefix _ h
            (env_key_loop-All (has_suffix prefix underscore) (map u.to_upper (trim_space raw))))))
]
