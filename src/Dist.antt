-- ===== src/Dist.antt =====
-- internal/store/dist.go: archives of a dist directory, the os and arch in their names, and checksums files.
pub mod Bounded
pub mod Permuted
pub mod Order
pub mod Span
pub mod Lines
pub mod Checksums
use mathlib.Core.Option
use s3_registry.Prelude.{
  ◌*◌, ℕ, zero, suc, ◌+◌, Bool, true, false, ◌&&◌, ◌||◌, Option, none, some, List, [], ◌∷◌, ◌++◌,
  map, if◌then◌else◌, eqb, leb, ltb, length, drop, get_elem?,
}
use s3_registry.Text.Unicode.{Unicode, to_lower, trim_space, fields}
use s3_registry.Dict.{Dict, insert}
use s3_registry.Result.{Result, ok, err, malformed_checksum, file_error, ◌>>=◌}
use s3_registry.Text.{Str, codes, ◌==◌, has_prefix, has_suffix}

-- archiveExts
abbrev pub archive_exts : List Str
archive_exts =
    codes ".tar.gz"
    ∷ codes ".tgz"
    ∷ codes ".tar.xz"
    ∷ codes ".tar.bz2"
    ∷ codes ".zip"
    ∷ codes ".tar"
    ∷ []

unfoldable pub any_suffix : Str → List Str → Bool
any_suffix s [] = false
any_suffix s (ext ∷ exts) = if has_suffix s ext then true else any_suffix s exts

-- IsArchive
unfoldable pub is_archive : Unicode → Str → Bool
unfolding to_lower any_suffix
is_archive u name = any_suffix (to_lower u name) archive_exts

-- isDelim
unfoldable pub is_delim : ℕ → Bool
is_delim b = eqb b b'_' || (eqb b b'-' || eqb b b'.')

-- strings.Index, from a position on
unfoldable pub index_from : Str → Str → ℕ → Option ℕ
unfolding has_prefix
index_from [] tok n = if has_prefix [] tok then some n else none
index_from (c ∷ s) tok n =
    let rest = index_from s tok (suc n) in if has_prefix (c ∷ s) tok then some n else rest

-- i is 0, or s[i - 1] is a delimiter; `none` is the panic of an index out of range.
unfoldable pub left_ok : Str → ℕ → Option Bool
unfolding is_delim
left_ok s zero = some true
left_ok s (suc i) = Option.map is_delim (get_elem? s i)

-- end is the length, or s[end] is a delimiter; `none` is the panic of an index out of range.
unfoldable pub right_ok : Str → ℕ → Option Bool
unfolding is_delim
right_ok s end = if eqb end (length s) then some true else Option.map is_delim (get_elem? s end)

-- leftOK and rightOK, both of which are computed
abbrev pub both_ok : Option Bool → Option Bool → Option Bool
both_ok none r = none
both_ok (some l) none = none
both_ok (some l) (some r) = some (l && r)

-- boundedIndex: the loop from `from` on, with fuel for its rounds; the outer `none` is a loop that
-- still runs or has panicked, the inner one is -1.
unfoldable pub bounded_from : ℕ → Str → Str → ℕ → Option (Option ℕ)
unfolding index_from left_ok right_ok
bounded_from zero s tok from = none
bounded_from (suc fuel) s tok from = elim (index_from (drop from s) tok from) [
  | none ↦ some none
  | some i ↦ elim (both_ok (left_ok s i) (right_ok s (i + length tok))) [
    | none ↦ none
    | some true ↦ some (some i)
    | some false ↦ bounded_from fuel s tok (i + 1)
  ]
]

-- boundedIndex, with fuel for a round at each position of the text and beyond it
unfoldable pub bounded_index : Str → Str → Option ℕ
unfolding bounded_from
bounded_index s tok = elim (bounded_from (length s + 2) s tok 0) [ none ↦ none | some r ↦ r ]

-- firstToken: bestIdx, where -1 is `none`, and best
pub record Best : Type 0 where
  pub index : Option ℕ
  pub value : Str

-- bestIdx == -1 || i < bestIdx
abbrev pub improves : ℕ → Option ℕ → Bool
improves i none = true
improves i (some j) = ltb i j

unfoldable pub consider : Str → Str → Str → Best → Best
unfolding bounded_index
consider s tok val best = elim (bounded_index s tok) [
  | none ↦ best
  | some i ↦ if improves i best.index then record { index = some i; value = val } else best
]

-- the loop of firstToken; the order of the table is the order that `range` takes
unfoldable pub first_from : Str → List (Str × Str) → Best → Best
unfolding consider
first_from s [] best = best
first_from s ((tok, val) ∷ tokens) best = first_from s tokens (consider s tok val best)

-- firstToken
unfoldable pub first_token : Str → List (Str × Str) → Str
unfolding first_from
first_token s tokens = (first_from s tokens (record { index = none; value = [] })).value

abbrev pub os_tokens : List (Str × Str)
os_tokens =
    (codes "darwin", codes "darwin")
    ∷ (codes "macos", codes "darwin")
    ∷ (codes "mac", codes "darwin")
    ∷ (codes "linux", codes "linux")
    ∷ (codes "windows", codes "windows")
    ∷ (codes "win", codes "windows")
    ∷ []

abbrev pub arch_tokens : List (Str × Str)
arch_tokens =
    (codes "amd64", codes "amd64")
    ∷ (codes "x86_64", codes "amd64")
    ∷ (codes "x8664", codes "amd64")
    ∷ (codes "arm64", codes "arm64")
    ∷ (codes "aarch64", codes "arm64")
    ∷ []

-- goos == "" || goarch == "" is ok=false
abbrev pub both_found : Str → Str → Option (Str × Str)
both_found goos goarch = if goos == [] || goarch == [] then none else some (goos, goarch)

-- InferOSArch, with the orders in which its two loops take the entries of the tables
unfoldable pub infer_in : Unicode → List (Str × Str) → List (Str × Str) → Str → Option (Str × Str)
unfolding to_lower first_token
infer_in u os arch filename =
    let lower = to_lower u filename in both_found (first_token lower os) (first_token lower arch)

-- InferOSArch
unfoldable pub infer_os_arch : Unicode → Str → Option (Str × Str)
unfolding infer_in
infer_os_arch u filename = infer_in u os_tokens arch_tokens filename

-- baseName: `\` is read as `/`, and what follows the last one is kept.
unfoldable pub base_from : Str → Str → Str
base_from seg [] = seg
base_from seg (c ∷ p) = base_from (if eqb c 47 || eqb c 92 then [] else seg ++ c ∷ []) p

unfoldable pub base_name : Str → Str
unfolding base_from
base_name p = base_from [] p

-- bufio.Scanner over the text, before the "\r" of a line is dropped: the lines that "\n" ends, and what
-- follows the last one, if that is not empty.
abbrev pub first_line : ℕ → List Str → List Str
first_line c [] = (c ∷ []) ∷ []
first_line c (line ∷ lines) = (c ∷ line) ∷ lines

unfoldable pub scan_lines : Str → List Str
scan_lines [] = []
scan_lines (c ∷ s) = let rest = scan_lines s in if eqb c 10 then [] ∷ rest else first_line c rest

-- the "\r" at the end of a line
unfoldable pub drop_cr : Str → Str
drop_cr [] = []
drop_cr (c ∷ []) = if eqb c 13 then [] else c ∷ []
drop_cr (c ∷ d ∷ s) = c ∷ drop_cr (d ∷ s)

-- bufio.MaxScanTokenSize: the buffer is full with a line of so many bytes, and the scan ends in ErrTooLong.
abbrev pub max_token : ℕ
max_token = 64 * 1024

-- strings.Join at " "
unfoldable pub join_space : List Str → Str
join_space [] = []
join_space (w ∷ []) = w
join_space (w ∷ v ∷ ws) = w ++ 32 ∷ join_space (v ∷ ws)

-- strings.TrimPrefix at "*"
unfoldable pub trim_star : Str → Str
trim_star [] = []
trim_star (c ∷ s) = if eqb c 42 then s else c ∷ s

-- from `len(fields) < 2` on: the name and the hash of a line
unfoldable pub entry_of : Unicode → Str → List Str → Result (Str × Str)
unfolding to_lower join_space trim_star base_name
entry_of u line [] = err (malformed_checksum line)
entry_of u line (hash ∷ []) = err (malformed_checksum line)
entry_of u line (hash ∷ w ∷ ws) = ok (base_name (trim_star (join_space (w ∷ ws))), to_lower u hash)

-- one round of the loop; `none` is a line that is skipped
unfoldable pub parse_line : Unicode → Str → Result (Option (Str × Str))
unfolding trim_space has_prefix fields entry_of
parse_line u text =
    let line = trim_space u text in
    if line == [] || has_prefix line (codes "#")
    then ok none
    else (do e ← entry_of u line (fields u line); ok (some e))

abbrev pub put_entry : Option (Str × Str) → Dict Str → Dict Str
put_entry none out = out
put_entry (some (name, hash)) out = insert name hash out

-- the loop of ParseChecksums
unfoldable pub parse_lines : Unicode → List Str → Dict Str → Result (Dict Str)
unfolding drop_cr parse_line
parse_lines u [] out = ok out
parse_lines u (line ∷ lines) out =
    if leb max_token (length line)
    then err (file_error (codes "token too long"))
    else (do e ← parse_line u (drop_cr line); parse_lines u lines (put_entry e out))

-- ParseChecksums, on all that the reader yields
unfoldable pub parse_checksums : Unicode → Str → Result (Dict Str)
unfolding scan_lines parse_lines
parse_checksums u text = parse_lines u (scan_lines text) []
