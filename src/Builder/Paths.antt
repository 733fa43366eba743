-- ===== src/Builder/Paths.antt =====
-- docker/docker-base-builder/server.py: where `dest_filename` is put, by `os.path.normpath`.
use hack_bento.Base.{
  ◌≡◌, refl, ap, ◌∙◌, true, false, List, [], ◌∷◌, ◌++◌, Text, codes, text_eq, lacks, split_on,
  split_on-lacks, where_is,
}
use hack_bento.Extract.{slash, is_part, norm_step, norm_parts, joined, or_dot, normpath}
use hack_bento.Builder.{basename, is_bad_filename, output_path}

append_nil : (s : Text) → s ++ [] ≡ s
append_nil [] = refl
append_nil (c ∷ s) = ap (λ (t : Text). c ∷ t) (append_nil s)

output_parts :
    (name : Text)
    → lacks slash name ≡ true
    → split_on slash (output_path name) ≡ [] ∷ (codes "output" ∷ (name ∷ []))
unfolding output_path split_on
output_parts name h =
    ap (λ (parts : List Text). [] ∷ (codes "output" ∷ parts)) (split_on-lacks slash name h)

kept_part :
    (name : Text)
    → text_eq name [] ≡ false
    → text_eq name (codes ".") ≡ false
    → where_is is_part ([] ∷ (codes "output" ∷ (name ∷ []))) ≡ codes "output" ∷ (name ∷ [])
kept_part name empty here = rw (empty, here) refl

stacked :
    (name : Text)
    → text_eq name (codes "..") ≡ false
    → norm_parts true [] (codes "output" ∷ (name ∷ [])) ≡ name ∷ (codes "output" ∷ [])
unfolding norm_parts norm_step
stacked name up = rw up refl

-- A name of one part, other than `.` and `..`, is that of a file in the directory itself.
pub normpath-output_path :
    (name : Text)
    → lacks slash name ≡ true
    → text_eq name [] ≡ false
    → text_eq name (codes ".") ≡ false
    → text_eq name (codes "..") ≡ false
    → normpath (output_path name) ≡ output_path name
unfolding normpath output_path joined
normpath-output_path name h empty here up =
    let parts = ap (where_is is_part) (output_parts name h) ∙ kept_part name empty here in
    ap (λ (ps : List Text). or_dot (codes "/" ++ joined (norm_parts true [] ps) [])) parts
    ∙ ap (λ (stack : List Text). or_dot (codes "/" ++ joined stack [])) (stacked name up)
    ∙ ap (λ (t : Text). codes "/output/" ++ t) (append_nil name)

pub good_filename-nonempty : (s : Text) → is_bad_filename s ≡ false → text_eq s [] ≡ false
unfolding is_bad_filename basename split_on
good_filename-nonempty [] h = cc
good_filename-nonempty (c ∷ s) h = refl
