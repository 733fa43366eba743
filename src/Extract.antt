-- ===== src/Extract.antt =====
-- Where an entry of an uploaded archive is written: `_resolve_within` of
-- orchestrator/services/rootfs_tar.py, with `os.path.join` and `os.path.normpath`.
pub mod Inside
pub mod Tests
use hack_bento.Base.{
  ℕ, Bool, true, false, not, ◌&&◌, ◌||◌, List, [], ◌∷◌, ◌++◌, Option, none, some, Text, text_eq,
  starts_with, codes, if◌then◌else◌, ◌==◌, where_is, split_on,
}

abbrev pub slash : ℕ
slash = b'/'

-- `os.path.isabs`
abbrev pub isabs : Text → Bool
isabs [] = false
isabs (c ∷ s) = c == slash

abbrev pub ends_in_slash : Text → Bool
ends_in_slash [] = false
ends_in_slash (c ∷ []) = c == slash
ends_in_slash (c ∷ d ∷ s) = ends_in_slash (d ∷ s)

-- `os.path.join(a, b)`
abbrev pub glued : Text → Text → Text
glued [] b = b
glued (c ∷ a) b = if ends_in_slash (c ∷ a) then (c ∷ a) ++ b else (c ∷ a) ++ (slash ∷ b)

unfoldable pub join_path : Text → Text → Text
join_path a b = if isabs b then b else glued a b

abbrev pub is_part : Text → Bool
is_part p = not (text_eq p [] || text_eq p (codes "."))

-- One component for `os.path.normpath`; the components so far, the last one first.
unfoldable pub norm_step : Bool → List Text → Text → List Text
norm_step rooted [] comp = if text_eq comp (codes "..") && rooted then [] else comp ∷ []
norm_step rooted (last ∷ rest) comp =
    if not (text_eq comp (codes "..")) || text_eq last (codes "..")
    then comp ∷ last ∷ rest
    else rest

unfoldable pub norm_parts : Bool → List Text → List Text → List Text
norm_parts rooted stack [] = stack
norm_parts rooted stack (comp ∷ comps) = norm_parts rooted (norm_step rooted stack comp) comps

-- `"/".join(reversed(stack))`, in front of `tail`
unfoldable pub joined : List Text → Text → Text
joined [] tail = tail
joined (p ∷ []) tail = p ++ tail
joined (p ∷ q ∷ stack) tail = joined (q ∷ stack) (slash ∷ (p ++ tail))

-- The slashes that a path keeps in front: POSIX leaves exactly two alone.
abbrev pub leading : Text → Text
leading s =
    if starts_with s (codes "//") && not (starts_with s (codes "///"))
    then codes "//"
    else if starts_with s (codes "/")
    then codes "/"
    else []

abbrev pub or_dot : Text → Text
or_dot [] = codes "."
or_dot (c ∷ s) = c ∷ s

-- `os.path.normpath`
unfoldable pub normpath : Text → Text
unfolding norm_step norm_parts joined
normpath s =
    or_dot (leading s ++ joined (norm_parts (isabs s) [] (where_is is_part (split_on slash s))) [])

-- What the file system answers: the target of a symbolic link, `os.path.exists` and
-- `os.path.realpath`.
pub record Files : Type 0 where
  pub link : Text → Option Text
  pub exists : Text → Bool
  pub realpath : Text → Text

-- `resolved == dest_real or resolved.startswith(dest_real + os.sep)`
abbrev pub is_inside : Text → Text → Bool
is_inside dest p = text_eq p dest || starts_with p (dest ++ (slash ∷ []))

abbrev real : Files → Text → Text
real fs p = if fs.exists p then fs.realpath p else p

-- Where a link in the directory `current` leads.
unfoldable pub link_end : Files → Text → Text → Text
unfolding normpath
link_end fs current target =
    real fs (normpath (if isabs target then target else join_path current target))

-- One component: the next directory, or `TarError`.
followed : Files → Text → Text → Text → Option Text → Option Text
unfolding link_end
followed fs dest current candidate none = some candidate
followed fs dest current candidate (some target) =
    if is_inside dest (link_end fs current target) then some (link_end fs current target) else none

unfoldable pub resolve_part : Files → Text → Text → Text → Option Text
unfolding followed join_path
resolve_part fs dest current part =
    followed fs dest current (join_path current part) (fs.link (join_path current part))

unfoldable pub resolve_parts : Files → Text → Text → List Text → Option Text
unfolding resolve_part
resolve_parts fs dest current [] = some current
resolve_parts fs dest current (part ∷ parts) = elim (resolve_part fs dest current part) [
  | none ↦ none
  | some reached ↦ resolve_parts fs dest reached parts
]

-- `_resolve_within`; `none` is `TarError`.
unfoldable pub resolve_within : Files → Text → Text → Option Text
unfolding resolve_parts
resolve_within fs dest norm = resolve_parts fs dest dest (where_is is_part (split_on slash norm))
