-- ===== src/Dist/Checksums.antt =====
-- ParseChecksums of internal/store/dist.go on files as sha256sum writes them.
use s3_registry.Prelude.{
  if◌then◌else◌, subst, ◌≡◌, refl, sym, ap, ◌∙◌, Bool, true, false, not, ◌&&◌, ◌||◌, List, [], ◌∷◌,
  ◌++◌, append_assoc, append-nil, map, arith, ℕ, false, eqb,
}
use s3_registry.Text.{Str, codes, has_prefix}
use s3_registry.Text.Unicode.{Unicode, lower_byte}
use s3_registry.Dict.{Dict, insert}
use s3_registry.Result.{ok}
use s3_registry.Dist.{scan_lines, trim_star, base_from, parse_lines, parse_checksums, base_name}
use s3_registry.Dist.Lines.{
  line_of, scan_lines-line_of, drop_cr-line_of, short_enough, parse_line_of, IsLine,
}

-- A slash of either style
abbrev is_slash : ℕ → Bool
is_slash c = eqb c b'/' || eqb c 92

abbrev pub no_slash : Str → Bool
no_slash [] = true
no_slash (c ∷ s) = not (is_slash c) && no_slash s

-- A directory: nothing, or a text that ends with a slash
abbrev pub is_dir : Str → Bool
is_dir [] = true
is_dir (c ∷ []) = is_slash c
is_dir (c ∷ d ∷ s) = is_dir (d ∷ s)

-- A line's digest, whether a star marks the file, its directory and its name
pub record Line : Type 0 where
  pub hash : Str
  pub marked : Bool
  pub dir : Str
  pub file : Str

abbrev pub star : Bool → Str
star true = b'*' ∷ []
star false = []

abbrev pub path_of : Line → Str
path_of l = star l.marked ++ (l.dir ++ l.file)

-- A checksums file with two spaces after each digest, and the map that it stands for
abbrev pub render : List Line → Str
render [] = []
render (l ∷ ls) = line_of l.hash (path_of l) ++ 10 ∷ render ls

abbrev pub checksums_of : List Line → Dict Str → Dict Str
checksums_of [] out = out
checksums_of (l ∷ ls) out = checksums_of ls (insert l.file (map lower_byte l.hash) out)

abbrev pub AllLines : List Line → Type 0
AllLines [] = Unit
AllLines (l ∷ ls) =
    IsLine l.hash (path_of l)
    × (is_dir l.dir ≡ true)
    × (no_slash l.file ≡ true)
    × (has_prefix (l.dir ++ l.file) (codes "*") ≡ false)
    × AllLines ls

base_from-file : (seg file : Str) → no_slash file ≡ true → base_from seg file ≡ seg ++ file
unfolding base_from
base_from-file seg [] h = sym (append-nil seg)
base_from-file seg (c ∷ s) h =
    let ih : base_from (seg ++ c ∷ []) s ≡ (seg ++ c ∷ []) ++ s =
      base_from-file (seg ++ c ∷ []) s (ground arith) in
    let plain : (eqb c 47 || eqb c 92) ≡ false = ground arith in
    rw plain (ih ∙ append_assoc seg (c ∷ []) s)

base_from-dir :
    (c : ℕ) (dir seg file : Str)
    → is_dir (c ∷ dir) ≡ true
    → no_slash file ≡ true
    → base_from seg ((c ∷ dir) ++ file) ≡ file
unfolding base_from
base_from-dir c [] seg file h k =
    let slash : (eqb c 47 || eqb c 92) ≡ true = ground arith in
    subst (λ t. base_from t file ≡ file)
      (sym (ap (λ (t : Bool). if t then [] else seg ++ c ∷ []) slash)) (base_from-file [] file k)
base_from-dir c (d ∷ dir) seg file h k = base_from-dir d dir _ file h k

base_name-file :
    (dir file : Str) → is_dir dir ≡ true → no_slash file ≡ true → base_name (dir ++ file) ≡ file
unfolding base_name
base_name-file [] file h k = base_from-file [] file k
base_name-file (c ∷ dir) file h k = base_from-dir c dir [] file h k

trim_star-unmarked : (s : Str) → has_prefix s (codes "*") ≡ false → trim_star s ≡ s
unfolding trim_star has_prefix
trim_star-unmarked [] h = refl
trim_star-unmarked (c ∷ s) h = ground arith

name_lem :
    (l : Line)
    → is_dir l.dir ≡ true
    → no_slash l.file ≡ true
    → has_prefix (l.dir ++ l.file) (codes "*") ≡ false
    → base_name (trim_star (path_of l)) ≡ l.file
unfolding trim_star
name_lem l d f p = ap base_name (trimmed_path l.marked) ∙ base_name-file l.dir l.file d f
  where
    trimmed_path : (m : Bool) → trim_star (star m ++ (l.dir ++ l.file)) ≡ l.dir ++ l.file
    trimmed_path true = refl
    trimmed_path false = trim_star-unmarked (l.dir ++ l.file) p

parse_lines-render :
    (u : Unicode) (es : List Line) (out : Dict Str)
    → AllLines es
    → parse_lines u (scan_lines (render es)) out ≡ ok (checksums_of es out)
unfolding parse_lines scan_lines
parse_lines-render u [] out h = refl
parse_lines-render u (e ∷ es) out (l, d, f, p, h) =
    let path = path_of e in
    ap (λ ls. parse_lines u ls out)
      (scan_lines-line_of e.hash path (render es) l.hash_word l.path_word)
    ∙ rw
        (
          short_enough u e.hash path l,
          drop_cr-line_of e.hash path l.path_word,
          parse_line_of u e.hash path l,
          name_lem e d f p,
        )
        (parse_lines-render u es (insert e.file (map lower_byte e.hash) out) h)

-- A file of lines of a digest, two spaces and a path, all ASCII without white space, where a star may stand
-- before the path, the lines fit into the scanner's buffer and are no comments, and no
-- path starts with a star of its own, parses to the map from each file's name, without its directory
-- of slashes of either style, to its digest in lower case; of two lines for one name the later one
-- counts.
pub parse_checksums-render :
    (u : Unicode) (es : List Line)
    → AllLines es
    → parse_checksums u (render es) ≡ ok (checksums_of es [])
unfolding parse_checksums
parse_checksums-render u es h = parse_lines-render u es [] h
