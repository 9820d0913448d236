-- ===== src/Base/Paths.antt =====
-- The functions of Go's package path/filepath that the program applies to absolute Unix paths.
use Prim.Native.Nat.{ℕ}
use mathlib.Core.Path.{◌≡◌, refl}
use mathlib.Core.Logic.{◌≢◌}
use mathlib.Core.Bool.{◌||◌}
use mathlib.Core.List.{List, [], ◌∷◌, ◌++◌}
use native.Mathlib.Omega.{arith}
use localproxy.Base.Tests.{if◌then◌else◌}
use localproxy.Base.Lists.{Bytes, codes}
use localproxy.Base.Equality.{bytes_beq, bytes_beq_iff}
use localproxy.Base.Text.{split, join}

abbrev pub slash : ℕ
slash = b'/'

abbrev pub dot_dot : Bytes
dot_dot = codes ".."

-- `parts` without its last element.
abbrev pub drop_last : List Bytes → List Bytes
drop_last [] = []
drop_last (p ∷ []) = []
drop_last (p ∷ q ∷ parts) = p ∷ drop_last (q ∷ parts)

-- One element of an absolute path that `filepath.Clean` passes, after those it has kept.
abbrev pub push_element : List Bytes → Bytes → List Bytes
push_element kept p =
    if bytes_beq p [] || bytes_beq p (codes ".")
    then kept
    else if bytes_beq p dot_dot
    then drop_last kept
    else kept ++ (p ∷ [])

abbrev pub push_elements : List Bytes → List Bytes → List Bytes
push_elements kept [] = kept
push_elements kept (p ∷ parts) = push_elements (push_element kept p) parts

-- The elements of `filepath.Clean(path)`, for an absolute path.
unfoldable pub elements : Bytes → List Bytes
unfolding split
elements path = push_elements [] (split slash path)

abbrev pub ups : List Bytes → List Bytes
ups [] = []
ups (p ∷ parts) = dot_dot ∷ ups parts

-- The elements of the way from one directory to another.
unfoldable pub way : List Bytes → List Bytes → List Bytes
way [] targets = targets
way (b ∷ bases) [] = dot_dot ∷ ups bases
way (b ∷ bases) (t ∷ targets) =
    let rest = way bases targets in
    if bytes_beq b t then rest else dot_dot ∷ (ups bases ++ (t ∷ targets))

-- `filepath.Rel(base, target)` for absolute paths, where it has no error.
unfoldable pub rel : Bytes → Bytes → Bytes
unfolding elements way join
rel base target = elim (way (elements base) (elements target)) [
  | [] ↦ codes "."
  | p ∷ parts ↦ join slash (p ∷ parts)
]

-- From a directory to one below it the way is what follows.
pub way-append : (bases rest : List Bytes) → way bases (bases ++ rest) ≡ rest
unfolding way
way-append [] rest = refl
way-append (b ∷ bases) rest = ground (arith, way-append bases rest, bytes_beq_iff b b)

-- Where the last element of a directory differs, the way starts upwards.
pub way-sibling :
    (bases : List Bytes) (b c : Bytes) (rest : List Bytes)
    → b ≢ c
    → way (bases ++ (b ∷ [])) (bases ++ (c ∷ rest)) ≡ dot_dot ∷ c ∷ rest
unfolding way
way-sibling [] b c rest ne = ground (arith, bytes_beq_iff b c)
way-sibling (a ∷ bases) b c rest ne = ground (arith, way-sibling bases b c rest, bytes_beq_iff a a)
