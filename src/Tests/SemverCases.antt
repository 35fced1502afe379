-- ===== src/Tests/SemverCases.antt =====
-- internal/semver at concrete versions.
use s3_registry.Prelude.{◌≡◌, refl, List, [], ◌∷◌, if◌then◌else◌}
use s3_registry.Text.{Str, codes, ◌==◌, count}
use s3_registry.Result.{ok}
use s3_registry.Semver.{sort_ascending, resolve}
use s3_registry.Semver.Order.{parseable, IsAscending}
use s3_registry.Semver.Sorting.{sort_ascending-sorts}
use s3_registry.Semver.Highest.{resolve-IsResolution}
use s3_registry.Semver.Walk.{IsResolution}
use s3_registry.Tests.Numbers.{numbers, numbers-IsLawful}

abbrev given : List Str
given = codes "7" ∷ codes "beta" ∷ codes "12" ∷ codes "3" ∷ []

resolved_latest : resolve numbers given (codes "latest") ≡ ok (codes "12")
unfolding resolve ◌==◌
resolved_latest = refl

sort_ascending-sorts_example :
    IsAscending numbers (sort_ascending numbers given)
    × ((s : Str)
        → count s (sort_ascending numbers given)
          ≡ (if parseable numbers s then count s given else 0))
sort_ascending-sorts_example = sort_ascending-sorts numbers numbers-IsLawful given

resolve-IsResolution_example :
    IsResolution numbers (codes "5") given (resolve numbers given (codes "5"))
resolve-IsResolution_example = resolve-IsResolution numbers numbers-IsLawful (codes "5") given
