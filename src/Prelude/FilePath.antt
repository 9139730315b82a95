-- ===== src/Prelude/FilePath.antt =====
-- The package `path`: `Clean` and `Join`, on the components of a path.
pub mod Laws
use Prim.Native.Nat.{ℕ}
use mathlib.Core.Bool.{Bool, true, false, ◌||◌}
use mathlib.Core.Path.{◌≡◌, refl}
use mathlib.Core.List.{List, [], ◌∷◌, reverse}
use host_scanner.Prelude.Tests.{◌==◌, if◌then◌else◌}
use host_scanner.Prelude.Bytes.{Bytes, codes, bytes_eq, split, join}

abbrev pub slash : ℕ
slash = b'/'

abbrev pub dot_dot : Bytes
dot_dot = b'.' ∷ b'.' ∷ []

-- `..` drops the component before it; at the root it stays there, and at the start of a relative
-- path it is kept.
back : Bool → List Bytes → List Bytes
back true [] = []
back false [] = dot_dot ∷ []
back rooted (c ∷ stack) = if bytes_eq c dot_dot then dot_dot ∷ c ∷ stack else stack

-- One component of the path, onto the stack of the components that are kept.
enter : Bool → List Bytes → Bytes → List Bytes
unfolding back bytes_eq
enter rooted stack c =
    if bytes_eq c [] || bytes_eq c (b'.' ∷ [])
    then stack
    else if bytes_eq c dot_dot
    then back rooted stack
    else c ∷ stack

unfoldable pub walk : Bool → List Bytes → List Bytes → List Bytes
unfolding enter back bytes_eq
walk rooted stack [] = stack
walk rooted stack (c ∷ cs) = walk rooted (enter rooted stack c) cs

abbrev or_dot : Bytes → Bytes
or_dot [] = b'.' ∷ []
or_dot (c ∷ s) = c ∷ s

-- `path.Clean`.
unfoldable pub clean : Bytes → Bytes
unfolding walk split join
clean [] = b'.' ∷ []
clean (c ∷ s) =
    if c == slash
    then slash ∷ join (reverse (walk true [] (split slash s))) (slash ∷ [])
    else or_dot (join (reverse (walk false [] (split slash (c ∷ s)))) (slash ∷ []))

-- `path.Join`: leading empty elements are passed over, and with nothing left the result is empty.
unfoldable pub path_join : List Bytes → Bytes
unfolding clean
path_join [] = []
path_join ([] ∷ elems) = path_join elems
path_join ((c ∷ s) ∷ elems) = clean (join ((c ∷ s) ∷ elems) (slash ∷ []))

join_plain :
    path_join (codes "/host_fs" ∷ codes "/etc//kubernetes/" ∷ []) ≡ codes "/host_fs/etc/kubernetes"
unfolding path_join
join_plain = refl
