-- ===== src/Tests/IndexCases.antt =====
-- internal/index at concrete indexes.
use s3_registry.Prelude.{◌≡◌, refl, Bool, false, some, List, [], ◌∷◌, arith}
use s3_registry.Prelude.Int.{pos}
use s3_registry.Text.{Str, codes, ◌==◌, count, contains, eq_iff}
use s3_registry.Result.{ok}
use s3_registry.Dict.{lookup, insert}
use s3_registry.Semver.{sort_ascending}
use s3_registry.Index.{
  Artifact, Version, Index, sort_versions, upsert, remove, resolve_version, find_version, modify,
  cut, new,
}
use s3_registry.Index.Made.{Made, Made-IsOrdered}
use s3_registry.Index.View.{names, artifact_at, IsDistinct}
use s3_registry.Index.Folding.{latest_artifact}
use s3_registry.Index.Sorted.{IsOrdered, IsSortedForm, sort_versions-sorts}
use s3_registry.Index.Upsert.{IsUpsert, upsert_lem}
use s3_registry.Index.Shadowed.{upsert_shadowed}
use s3_registry.Index.Removal.{IsRemoval}
use s3_registry.Index.Remove.{remove_lem}
use s3_registry.Index.Resolution.{IsDownload, resolve_version-IsDownload}
use s3_registry.Tests.Numbers.{numbers, numbers-IsLawful}

abbrev art : Str → Artifact
art k = record { key = k; sha256 = codes "aa"; size = pos 1 }

abbrev linux : Str
linux = codes "linux-amd64"

abbrev entry : Str → Str → Version
entry v key = record { version = v; created = 5; artifacts = some ((linux, art key) ∷ []) }

abbrev index_of : List Version → Index
index_of vs = record { name = codes "tool"; updated = 1; versions = vs }

-- a hand-edited index: two entries of version 7, and one that is no version
abbrev doubled : Index
doubled = index_of (
    entry (codes "7") (codes "a")
    ∷ entry (codes "x") (codes "b")
    ∷ entry (codes "7") (codes "c")
    ∷ entry (codes "3") (codes "d")
    ∷ [])

abbrev plain : Index
plain = index_of (entry (codes "3") (codes "d") ∷ entry (codes "7") (codes "a") ∷ [])

plain-IsDistinct : IsDistinct plain.versions
unfolding count
plain-IsDistinct k = ground (arith, eq_iff (codes "3") k, eq_iff (codes "7") k)

sort_versions-sorts_example :
    (j : Index) × (sort_versions numbers doubled ≡ ok j)
    × (j.name ≡ doubled.name)
    × (j.updated ≡ doubled.updated)
    × IsSortedForm numbers doubled.versions j.versions
sort_versions-sorts_example = sort_versions-sorts numbers numbers-IsLawful doubled

upsert_lem_example :
    (j : Index) × (upsert numbers 9 (codes "5") linux (art (codes "e")) plain ≡ ok j)
    × IsUpsert numbers 9 (codes "5") linux (art (codes "e")) plain j
upsert_lem_example =
    upsert_lem numbers numbers-IsLawful 9 (codes "5") linux (art (codes "e")) plain plain-IsDistinct

remove_lem_example :
    (j : Index) × (done : Bool) × (remove 9 (codes "7") linux plain ≡ ok (j, done))
    × IsRemoval 9 (codes "7") linux plain j done
remove_lem_example = remove_lem 9 (codes "7") linux plain plain-IsDistinct

resolve_version-IsDownload_example :
    IsDownload numbers (codes "5") linux plain (resolve_version numbers (codes "5") linux plain)
resolve_version-IsDownload_example =
    resolve_version-IsDownload numbers (codes "5") linux plain numbers-IsLawful

seven_once : contains (codes "7") (names []) ≡ false
unfolding contains
seven_once = refl

seven_later :
    latest_artifact
      (codes "7")
      linux
      (entry (codes "x") (codes "b") ∷ entry (codes "7") (codes "c") ∷ [])
    ≡ some (art (codes "c"))
unfolding latest_artifact ◌==◌ s3_registry.Dict.lookup
seven_later = refl

upsert_shadowed_example :
    (j : Index) × (upsert numbers 9 (codes "7") linux (art (codes "e")) (
        index_of (
          entry (codes "7") (codes "a")
          ∷ entry (codes "x") (codes "b")
          ∷ entry (codes "7") (codes "c")
          ∷ []))
      ≡ ok j)
    × (artifact_at (codes "7") linux j.versions ≡ some (art (codes "c")))
upsert_shadowed_example =
    upsert_shadowed numbers numbers-IsLawful 9 (codes "7") linux (art (codes "e")) (art (codes "c"))
      _ [] (entry (codes "7") (codes "a"))
      (entry (codes "x") (codes "b") ∷ entry (codes "7") (codes "c") ∷ []) refl seven_once refl
      seven_later

-- 7 and 3 are published, and 7 is removed again.
left : Index
left = index_of (record (entry (codes "3") (codes "d")) { created = 8 } ∷ [])

made : Made numbers (record left { updated = 9 })
unfolding left upsert remove sort_versions sort_ascending find_version modify cut lookup insert
    contains new ◌==◌
made =
    Made.removed 9 (codes "7") []
      (Made.upserted 8 (codes "3") linux (art (codes "d"))
        (Made.upserted 7 (codes "7") linux (art (codes "a")) (Made.created (codes "tool")) refl)
        refl)
      refl

Made-IsOrdered_example : IsOrdered numbers (names left.versions) × IsDistinct left.versions
Made-IsOrdered_example = Made-IsOrdered numbers numbers-IsLawful made
