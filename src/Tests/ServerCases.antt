-- ===== src/Tests/ServerCases.antt =====
-- internal/server at concrete requests.
use s3_registry.Prelude.{◌≡◌, ◌↔◌, ◌⊎◌, refl, true, false, some, [], ◌∷◌, ◌||◌}
use s3_registry.Prelude.Int.{pos}
use s3_registry.Text.{codes, ◌==◌, has_prefix}
use s3_registry.Text.Unicode.{Unicode}
use s3_registry.Result.{ok, err, unsatisfied}
use s3_registry.Index.{Index, version_strings}
use s3_registry.Semver.{resolve}
use s3_registry.Server.{passes, get_artifact, resolve_range, error}
use s3_registry.Server.Auth.{Presents, passes_iff}
use s3_registry.Semver.Walk.{IsResolution}
use s3_registry.Semver.Highest.{resolve-IsResolution}
use s3_registry.Index.View.{names}
use mathlib.Core.Path.{subst}
use s3_registry.Server.Answers.{IsServedFrom, get_artifact_lem, unsatisfied_lem}
use s3_registry.Tests.Numbers.{numbers, numbers-IsLawful}

abbrev ascii : Unicode
ascii = record { trim = λ s. s; fields = λ s. s ∷ []; to_lower = λ s. s }

passes_iff_example :
    (passes ascii (codes "key") (codes "/tools/x") (codes "Bearer key ") ≡ true) ↔ (
      (codes "key" ≡ [])
      ⊎ ((has_prefix (codes "/tools/x") (codes "/tools") ≡ false)
          ⊎ Presents ascii (codes "key") (codes "Bearer key ")))
passes_iff_example = passes_iff ascii (codes "key") (codes "/tools/x") (codes "Bearer key ")

abbrev filled : Index
filled = record {
  name = codes "tool";
  updated = 1;
  versions =
      record {
        version = codes "7";
        created = 5;
        artifacts = some (
            (codes "linux-amd64", record { key = codes "k"; sha256 = codes "aa"; size = pos 1 })
            ∷ []);
      }
      ∷ [];
}

get_artifact_lem_example :
    IsServedFrom numbers
      (codes "5")
      (codes "linux")
      (codes "amd64")
      ok
      filled
      (get_artifact numbers (codes "5") (codes "linux") (codes "amd64") ok (ok filled))
get_artifact_lem_example =
    get_artifact_lem numbers (codes "5") (codes "linux") (codes "amd64") ok filled numbers-IsLawful

nine_unsatisfied :
    resolve numbers (version_strings filled) (codes "9") ≡ err (unsatisfied (codes "9"))
unfolding resolve version_strings ◌==◌
nine_unsatisfied = refl

none_satisfies :
    IsResolution numbers (codes "9") (names filled.versions) (err (unsatisfied (codes "9")))
unfolding version_strings
none_satisfies =
    subst (IsResolution numbers (codes "9") (names filled.versions)) nine_unsatisfied
      (resolve-IsResolution numbers numbers-IsLawful (codes "9") (names filled.versions))

names_given : codes "linux" == [] || codes "amd64" == [] ≡ false
unfolding ◌==◌
names_given = refl

unsatisfied_lem_example :
    (resolve_range numbers (codes "9") (ok filled) ≡ error 422)
    × (get_artifact numbers (codes "9") (codes "linux") (codes "amd64") ok (ok filled) ≡ error 404)
unsatisfied_lem_example =
    unsatisfied_lem numbers (codes "9") (codes "linux") (codes "amd64") ok filled numbers-IsLawful
      names_given none_satisfies
