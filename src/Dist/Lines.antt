-- ===== src/Dist/Lines.antt =====
-- A line of a checksums file, as ParseChecksums of internal/store/dist.go reads it.
use s3_registry.Prelude.{
  ◌+◌, ◌<◌, ◌≡◌, ◌≢◌, refl, sym, ap, ◌∙◌, Bool, true, false, not, ◌&&◌, ◌||◌, some, [], ◌∷◌, ◌++◌,
  append_assoc, append-nil, map, arith, length, length-append, leb, false,
}
use s3_registry.Text.{Str, codes, ◌==◌, has_prefix}
use s3_registry.Text.Unicode.{
  Unicode, all_ascii, is_space, trim_left, push_back, trim_right, trim_space, fields_from, fields,
  lower_byte, to_lower,
}
use s3_registry.Result.{ok}
use s3_registry.Dist.{scan_lines, first_line, drop_cr, trim_star, parse_line, base_name, max_token}

-- ASCII without white space
abbrev pub is_word : Str → Bool
is_word [] = true
is_word (c ∷ s) = leb c 127 && (not (is_space c) && is_word s)

scan_lines-line :
    (w rest : Str) → is_word w ≡ true → scan_lines (w ++ 10 ∷ rest) ≡ w ∷ scan_lines rest
unfolding scan_lines is_space
scan_lines-line [] rest h = refl
scan_lines-line (c ∷ w) rest h = ground (arith, scan_lines-line w rest)

-- A line of two words with two spaces between
abbrev pub line_of : Str → Str → Str
line_of a b = a ++ 32 ∷ 32 ∷ b

pub scan_lines-line_of :
    (a b rest : Str)
    → is_word a ≡ true
    → is_word b ≡ true
    → scan_lines (line_of a b ++ 10 ∷ rest) ≡ line_of a b ∷ scan_lines rest
unfolding scan_lines is_space
scan_lines-line_of [] b rest h k =
    ap (λ ls. first_line 32 (first_line 32 ls)) (scan_lines-line b rest k)
scan_lines-line_of (c ∷ a) b rest h k = ground (arith, scan_lines-line_of a b rest)

drop_cr-word : (w : Str) → is_word w ≡ true → drop_cr w ≡ w
unfolding drop_cr is_space
drop_cr-word [] h = refl
drop_cr-word (c ∷ []) h = ground arith
drop_cr-word (c ∷ d ∷ w) h = ground (arith, drop_cr-word (d ∷ w))

pub drop_cr-line_of : (a b : Str) → is_word b ≡ true → drop_cr (line_of a b) ≡ line_of a b
unfolding drop_cr is_space
drop_cr-line_of [] [] h = refl
drop_cr-line_of [] (d ∷ b) h = ap (λ s. 32 ∷ 32 ∷ s) (drop_cr-word (d ∷ b) h)
drop_cr-line_of (c ∷ []) b h = ap (λ s. c ∷ s) (drop_cr-line_of [] b h)
drop_cr-line_of (c ∷ d ∷ a) b h = ap (λ s. c ∷ s) (drop_cr-line_of (d ∷ a) b h)

all_ascii-word : (w : Str) → is_word w ≡ true → all_ascii w ≡ true
unfolding all_ascii
all_ascii-word [] h = refl
all_ascii-word (c ∷ w) h = ground (arith, all_ascii-word w)

all_ascii-line_of :
    (a b : Str) → is_word a ≡ true → is_word b ≡ true → all_ascii (line_of a b) ≡ true
unfolding all_ascii
all_ascii-line_of [] b h k = all_ascii-word b k
all_ascii-line_of (c ∷ a) b h k = ground (arith, all_ascii-line_of a b)

trim_right-word : (w : Str) → is_word w ≡ true → trim_right w ≡ w
unfolding trim_right
trim_right-word [] h = refl
trim_right-word (c ∷ []) h = ground arith
trim_right-word (c ∷ d ∷ w) h = ground (arith, trim_right-word (d ∷ w))

trim_right-line_of :
    (a b : Str) → b ≢ [] → is_word b ≡ true → trim_right (line_of a b) ≡ line_of a b
unfolding trim_right
trim_right-line_of a [] ne k = absurd (ne refl)
trim_right-line_of [] (d ∷ b) ne k =
    ap (λ t. push_back 32 (push_back 32 t)) (trim_right-word (d ∷ b) k)
trim_right-line_of (c ∷ []) (d ∷ b) ne k =
    ap (λ t. push_back c (push_back 32 (push_back 32 t))) (trim_right-word (d ∷ b) k)
trim_right-line_of (c ∷ e ∷ a) (d ∷ b) ne k = rw (trim_right-line_of (e ∷ a) (d ∷ b) ne k) refl

fields_from-word :
    (w a rest : Str) → is_word a ≡ true → fields_from w (a ++ rest) ≡ fields_from (w ++ a) rest
unfolding fields_from
fields_from-word w [] rest h = rw append-nil refl
fields_from-word w (c ∷ a) rest h =
    let step : fields_from (w ++ c ∷ []) (a ++ rest) ≡ fields_from (w ++ c ∷ [] ++ a) rest =
      fields_from-word (w ++ c ∷ []) a rest (ground arith) in
    let spaced : is_space c ≡ false = ground arith in
    rw spaced (step ∙ ap (λ t. fields_from t rest) (append_assoc w (c ∷ []) a))

fields_from-last : (w : Str) → w ≢ [] → is_word w ≡ true → fields_from [] w ≡ w ∷ []
unfolding fields_from
fields_from-last [] n i = absurd (n refl)
fields_from-last (c ∷ w) n i =
    ap (fields_from []) (sym (append-nil (c ∷ w))) ∙ fields_from-word [] (c ∷ w) [] i

fields_from-gap : (w b : Str) → w ≢ [] → fields_from w (32 ∷ 32 ∷ b) ≡ w ∷ fields_from [] b
unfolding fields_from is_space
fields_from-gap [] b n = absurd (n refl)
fields_from-gap (c ∷ w) b n = refl

fields_from-line_of :
    (a b : Str)
    → a ≢ []
    → b ≢ []
    → is_word a ≡ true
    → is_word b ≡ true
    → fields_from [] (line_of a b) ≡ a ∷ b ∷ []
fields_from-line_of a b na nb h k =
    fields_from-word [] a (32 ∷ 32 ∷ b) h
    ∙ fields_from-gap a b na
    ∙ ap (λ ws. a ∷ ws) (fields_from-last b nb k)

trim_left-line_of : (a b : Str) → a ≢ [] → is_word a ≡ true → trim_left (line_of a b) ≡ line_of a b
unfolding trim_left
trim_left-line_of [] b n h = absurd (n refl)
trim_left-line_of (c ∷ a) b n h = ground arith

-- A line of a checksums file: a digest and a path, and room for it in the buffer of the scanner.
pub record IsLine (hash path : Str) : Type 0 where
  pub hash_given : hash ≢ []
  pub path_given : path ≢ []
  pub hash_word : is_word hash ≡ true
  pub path_word : is_word path ≡ true
  pub no_comment : has_prefix hash (codes "#") ≡ false
  pub fits : length hash + (2 + length path) < max_token

kept :
    (a b : Str)
    → a ≢ []
    → has_prefix a (codes "#") ≡ false
    → (line_of a b == [] || has_prefix (line_of a b) (codes "#")) ≡ false
unfolding ◌==◌ has_prefix
kept [] b n h = absurd (n refl)
kept (c ∷ a) b n h = h

module _ (u : Unicode) (hash path : Str) (l : IsLine hash path) where
  trimmed : trim_space u (line_of hash path) ≡ line_of hash path
  unfolding trim_space
  trimmed = rw (all_ascii-line_of hash path l.hash_word l.path_word) (
      ap trim_right (trim_left-line_of hash path l.hash_given l.hash_word)
      ∙ trim_right-line_of hash path l.path_given l.path_word)

  two_fields : fields u (line_of hash path) ≡ hash ∷ path ∷ []
  unfolding fields
  two_fields =
      rw (all_ascii-line_of hash path l.hash_word l.path_word)
        (fields_from-line_of hash path l.hash_given l.path_given l.hash_word l.path_word)

  lowered : to_lower u hash ≡ map lower_byte hash
  unfolding to_lower
  lowered = rw (all_ascii-word hash l.hash_word) refl

  pub short_enough : leb max_token (length (line_of hash path)) ≡ false
  short_enough =
      let n : length (line_of hash path) ≡ length hash + length (32 ∷ 32 ∷ path) =
        length-append hash (32 ∷ 32 ∷ path) in
      ground (arith, n, l.fits)

  pub parse_line_of :
      parse_line u (line_of hash path) ≡ ok (some (base_name (trim_star path), map lower_byte hash))
  unfolding parse_line
  parse_line_of =
      rw (trimmed, kept hash path l.hash_given l.no_comment, two_fields, lowered, parse_line) refl
