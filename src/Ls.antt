-- ===== src/Ls.antt =====
-- cmd/s3reg/ls.go: the tools, or the versions and artifacts of one. What is printed is the list of tools
-- or the rows of the table; text/tabwriter's columns are left out. The entries of a version's map stand
-- in the order in which `range` gives them.
pub mod Table
pub mod Printed
use mathlib.Core.Option
use s3_registry.Prelude.{
  ℕ, Bool, true, false, Option, none, some, List, [], ◌∷◌, ◌++◌, map, if◌then◌else◌, take, length,
  ltb,
}
use s3_registry.Prelude.Int.{ℤ, pos}
use s3_registry.Text.{Str, codes, ◌==◌}
use s3_registry.Text.Sorting.{sort_strings}
use s3_registry.Dict.{Dict, lookup}
use s3_registry.Result.{Result, ok, err, ◌>>=◌}
use s3_registry.Index.{Artifact, Version, Index, entries}
use s3_registry.Store.{Service, Codec, get_index}
use s3_registry.Store.Listing.{list_tools}

-- A row of the table
pub record Row : Type 0 where
  pub version : Str
  pub os_arch : Str
  pub size : ℤ
  pub short : Str

pub data Output : Type 0 where
  tools : List Str → Output
  table : List Row → Output

-- short[:12], of a digest that is longer
unfoldable pub shorten : Str → Str
shorten sum = if ltb 12 (length sum) then take 12 sum else sum

-- a read of a missing key gives the zero Artifact
abbrev pub artifact_or_zero : Option Artifact → Artifact
artifact_or_zero none = record { key = []; sha256 = []; size = pos 0 }
artifact_or_zero (some a) = a

abbrev pub keys : Dict Artifact → List Str
keys = map (λ (e : Str × Artifact). e.0)

unfoldable pub row_of : Str → Dict Artifact → Str → Row
unfolding shorten
row_of version m oa =
    let a = artifact_or_zero (lookup oa m) in
    record { version = version; os_arch = oa; size = a.size; short = shorten a.sha256 }

-- the body of the loop over the versions
unfoldable pub rows_of : Version → List Row
unfolding row_of
rows_of v = let m = entries v.artifacts in map (row_of v.version m) (sort_strings (keys m))

-- the loop over the versions
unfoldable pub all_rows : List Version → List Row
unfolding rows_of
all_rows [] = []
all_rows (v ∷ vs) = rows_of v ++ all_rows vs

abbrev pub sorted_tools : Result (List Str) → Result Output
sorted_tools r = do ts ← r; ok (tools (sort_strings ts))

-- runLs, with fuel for the pages of ListTools; `none` is a listing that still runs.
unfoldable pub run_ls : (S : Service) → Codec → ℕ → Str → S.Bucket → Option (Result Output)
unfolding list_tools get_index all_rows
run_ls S C fuel tool b =
    let listing = Option.map sorted_tools (list_tools S fuel none [] b) in
    if tool == []
    then listing
    else some (do (idx, etag) ← get_index S C tool b; ok (table (all_rows idx.versions)))
