-- ===== src/FilePath.antt =====
-- package path/filepath on Unix, over bytes: Clean, Join, Base, IsAbs, Dir and Rel.
pub mod Clean
use dck.Base.{
  ℕ, Bool, true, false, ◌&&◌, ◌||◌, not, Option, none, some, List, [], ◌∷◌, ◌++◌, keep,
  if◌then◌else◌, ◌==◌,
}
use dck.Base.Bytes.{Bytes, codes, str_eq}
use dck.Base.Split.{split_byte, join_byte}

abbrev pub slash : ℕ
slash = b'/'

abbrev pub dot : Bytes
dot = codes "."

abbrev pub dot_dot : Bytes
dot_dot = codes ".."

unfoldable pub is_abs : Bytes → Bool
is_abs [] = false
is_abs (c ∷ s) = c == slash

-- The parts kept so far are in reverse order. A rooted path stays at the root on "..".
unfoldable pub pop : Bool → List Bytes → List Bytes
pop rooted [] = if rooted then [] else dot_dot ∷ []
pop rooted (p ∷ kept) = if str_eq p dot_dot then dot_dot ∷ p ∷ kept else kept

unfoldable pub push : Bool → List Bytes → Bytes → List Bytes
unfolding pop
push rooted kept p =
    if str_eq p [] || str_eq p dot
    then kept
    else if str_eq p dot_dot
    then pop rooted kept
    else p ∷ kept

unfoldable pub resolve : Bool → List Bytes → List Bytes → List Bytes
unfolding push
resolve rooted kept [] = kept
resolve rooted kept (p ∷ ps) = resolve rooted (push rooted kept p) ps

abbrev pub rev_onto : List Bytes → List Bytes → List Bytes
rev_onto [] acc = acc
rev_onto (p ∷ ps) acc = rev_onto ps (p ∷ acc)

unfoldable pub render : Bool → List Bytes → Bytes
unfolding join_byte
render true ps = slash ∷ join_byte slash ps
render false [] = dot
render false (p ∷ ps) = join_byte slash (p ∷ ps)

unfoldable pub clean : Bytes → Bytes
clean s = render (is_abs s) (rev_onto (resolve (is_abs s) [] (split_byte slash s)) [])

-- Join drops empty elements at the front, and cleans.
unfoldable pub path_join : List Bytes → Bytes
path_join [] = []
path_join ([] ∷ es) = path_join es
path_join ((c ∷ e) ∷ es) = clean (join_byte slash ((c ∷ e) ∷ es))

abbrev drop_slashes : Bytes → Bytes
drop_slashes [] = []
drop_slashes (c ∷ s) = elim (drop_slashes s) [
  | [] ↦ (if c == slash then [] else c ∷ [])
  | d ∷ r ↦ c ∷ d ∷ r
]

abbrev last_part : List Bytes → Bytes
last_part [] = []
last_part (p ∷ []) = p
last_part (p ∷ q ∷ ps) = last_part (q ∷ ps)

-- Base strips slashes at the end and takes what stands behind the last slash.
unfoldable pub base : Bytes → Bytes
base [] = dot
base (c ∷ s) = elim (drop_slashes (c ∷ s)) [
  | [] ↦ slash ∷ []
  | d ∷ r ↦ last_part (split_byte slash (d ∷ r))
]

abbrev pub up_to_last : List Bytes → Bytes
up_to_last [] = []
up_to_last (p ∷ []) = []
up_to_last (p ∷ q ∷ ps) = p ++ (slash ∷ up_to_last (q ∷ ps))

-- Dir cleans what stands up to the last slash.
unfoldable pub dir : Bytes → Bytes
dir path = clean (up_to_last (split_byte slash path))

-- filepath.Rel, on the parts of two clean paths that are both absolute or both relative.
unfoldable pub up_from : List Bytes → List Bytes → List Bytes
up_from [] targ = targ
up_from (b ∷ base) targ = dot_dot ∷ up_from base targ

unfoldable pub rel_parts : List Bytes → List Bytes → Option (List Bytes)
unfolding up_from
rel_parts [] targ = some targ
rel_parts (b ∷ base) [] = some (up_from (b ∷ base) [])
rel_parts (b ∷ base) (t ∷ targ) =
    let rest = rel_parts base targ in
    if str_eq t b
    then rest
    else if str_eq b dot_dot
    then none
    else some (up_from (b ∷ base) (t ∷ targ))

abbrev pub path_parts : Bytes → List Bytes
path_parts path = keep (λ p. not (str_eq p [])) (split_byte slash path)

abbrev pub spelled : Option (List Bytes) → Option Bytes
spelled none = none
spelled (some ps) = some (join_byte slash ps)

unfoldable pub rel : Bytes → Bytes → Option Bytes
unfolding rel_parts
rel base targ =
    let b = clean base in
    let t = clean targ in
    if str_eq t b
    then some dot
    else if (is_abs b && not (is_abs t)) || (not (is_abs b) && is_abs t)
    then none
    else spelled (rel_parts (if str_eq b dot then [] else path_parts b) (path_parts t))
