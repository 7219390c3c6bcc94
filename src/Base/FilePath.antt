-- ===== src/Base/FilePath.antt =====
-- Go's package path: Clean, Base, Join and IsAbs.
use Prim.Native.Nat.{ℕ}
use mathlib.Core.Bool.{Bool, not, ◌||◌}
use mathlib.Core.List.{List, [], ◌∷◌, reverse}
use mathlib.Core.Path.{◌≡◌, refl}
use dataprotection.Base.Tests.{◌==◌, if◌then◌else◌}
use dataprotection.Base.Lists.{is_empty, select}
use dataprotection.Base.Strings.{Text, codes, text_eq, split, join, has_prefix, trim_left}

abbrev pub dot : Text
dot = codes "."

abbrev pub dot_dot : Text
dot_dot = codes ".."

abbrev pub slash : Text
slash = codes "/"

abbrev pub is_slash : ℕ → Bool
is_slash c = c == b'/'

-- path.IsAbs
unfoldable pub is_abs : Text → Bool
unfolding has_prefix
is_abs s = has_prefix s slash

-- A `..` against the names kept so far, the last name first.
unfoldable pub back_up : Bool → List Text → List Text
back_up rooted [] = if rooted then [] else dot_dot ∷ []
back_up rooted (top ∷ rest) = if text_eq top dot_dot then dot_dot ∷ top ∷ rest else rest

unfoldable pub clean_step : Bool → List Text → Text → List Text
unfolding back_up
clean_step rooted kept name =
    if is_empty name || text_eq name dot
    then kept
    else if text_eq name dot_dot
    then back_up rooted kept
    else name ∷ kept

unfoldable pub clean_loop : Bool → List Text → List Text → List Text
unfolding clean_step
clean_loop rooted kept [] = kept
clean_loop rooted kept (name ∷ names) = clean_loop rooted (clean_step rooted kept name) names

abbrev pub or_dot : Text → Text
or_dot s = if is_empty s then dot else s

-- path.Clean, by the four rules of its documentation
unfoldable pub clean : Text → Text
unfolding clean_loop is_abs
clean s =
    let rooted = is_abs s in
    let body = join (reverse (clean_loop rooted [] (split s b'/'))) slash in
    if is_empty s then dot else if rooted then b'/' ∷ body else or_dot body

unfoldable pub final : List Text → Text
final [] = []
final (p ∷ []) = p
final (p ∷ q ∷ ps) = final (q ∷ ps)

-- path.Base: the last name, with the slashes at the end left out
unfoldable pub last_name : Text → Text
unfolding final
last_name s =
    let stripped = reverse (trim_left is_slash (reverse s)) in
    if is_empty s then dot else if is_empty stripped then slash else final (split stripped b'/')

-- path.Join
unfoldable pub join_path : List Text → Text
unfolding clean
join_path elems =
    let named = select (λ e. not (is_empty e)) elems in
    if is_empty named then [] else clean (join named slash)

clean_examples :
    (clean (codes "a//b/./c/../d") ≡ codes "a/b/d")
    × (clean (codes "../../x/..") ≡ codes "../..")
    × (clean (codes "/../a/") ≡ codes "/a")
    × (clean (codes "a/..") ≡ codes ".")
unfolding clean split join text_eq has_prefix
clean_examples = (refl, refl, refl, refl)

base_examples : (last_name (codes "a/b.tgz/") ≡ codes "b.tgz") × (last_name (codes "//") ≡ slash)
unfolding last_name split trim_left
base_examples = (refl, refl)
