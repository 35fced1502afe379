-- ===== src/Publish/Change.antt =====
-- The change of the index that publish asks for: one Upsert after the other.
use s3_registry.Prelude.{
  ℕ, suc, ◌≡◌, refl, ◌∙◌, Bool, true, false, not, ◌&&◌, ◌||◌, Option, some, List, [], ◌∷◌, arith,
  if◌then◌else◌,
}
use s3_registry.Text.{Str, ◌==◌, contains}
use s3_registry.Instant.{Instant}
use s3_registry.Result.{ok}
use s3_registry.Semver.{Library, IsLawful}
use s3_registry.Index.{Artifact, Index}
use s3_registry.Index.View.{names, version_at, artifact_at, created_in, IsDistinct}
use s3_registry.Index.Upsert.{upsert_lem}
use s3_registry.Publish.{StagedArtifact, upsert_all, publish_change}

abbrev pub is_empty : List StagedArtifact → Bool
is_empty [] = true
is_empty (_ ∷ _) = false

-- The last staged artifact of an os-arch, or what was there before.
abbrev pub staged_or : Str → List StagedArtifact → Option Artifact → Option Artifact
staged_or x [] o = o
staged_or x (s ∷ ss) o = staged_or x ss (if s.os_arch == x then some s.art else o)

-- What publish promises of the index that it writes.
pub record IsPublished (version : Str) (staged : List StagedArtifact) (now : Instant) (i j : Index)
    : Type 0 where
  pub name : j.name ≡ i.name
  pub distinct : IsDistinct j.versions
  pub same :
      (v : Str)
      → contains v (names j.versions)
        ≡ ((not (is_empty staged) && version == v) || contains v (names i.versions))
  pub artifacts :
      (v x : Str)
      → artifact_at v x j.versions ≡ (
          if version == v
          then staged_or x staged (artifact_at v x i.versions)
          else artifact_at v x i.versions)
  pub created :
      (v : Str)
      → created_in (version_at v j.versions) ≡ (
          if not (is_empty staged) && (version == v && not (contains v (names i.versions)))
          then now
          else created_in (version_at v i.versions))

module _ (L : Library) (law : IsLawful L) (clock : ℕ → Instant) (version : Str) where
  upsert_all_lem :
      (n : ℕ) (staged : List StagedArtifact) (i : Index)
      → IsDistinct i.versions
      → (j : Index) × (upsert_all L clock n version staged i ≡ ok j)
        × IsPublished version staged (clock n) i j
  unfolding upsert_all
  upsert_all_lem n [] i d = (
    i,
    refl,
    record {
      name = refl;
      distinct = d;
      same = λ v. refl;
      artifacts = λ v x. ground arith;
      created = λ v. refl;
    },
  )
  upsert_all_lem n (s ∷ ss) i d =
      let (k, run, up) = upsert_lem L law (clock n) version s.os_arch s.art i d in
      let (j, rest, pub') = upsert_all_lem (suc n) ss k up.distinct in
      (
        j,
        rw run rest,
        record {
          name = pub'.name ∙ up.name;
          distinct = pub'.distinct;
          same = λ v. ground (arith, pub'.same v, up.same v);
          artifacts = λ v x. ground (arith, pub'.artifacts v x, up.artifacts v x);
          created = λ v. ground (arith, pub'.created v, up.created v, up.same v);
        },
      )

-- On an index without duplicate versions the change of publish never fails. Its result has the tool's
-- name and no duplicates; under the published version each os-arch has its last staged artifact,
-- and otherwise all artifacts and versions are as before. A new version has the time of the first
-- Upsert, and one that was there keeps its time.
pub publish_change_lem :
    (L : Library) (clock : ℕ → ℕ → Instant) (tool version : Str) (staged : List StagedArtifact)
    (n : ℕ) (i : Index)
    → IsLawful L
    → IsDistinct i.versions
    → (j : Index) × (publish_change L clock tool version staged n i ≡ ok j)
      × IsPublished version staged (clock n 0) (record i { name = tool }) j
unfolding publish_change
publish_change_lem L clock tool version staged n i law d =
    upsert_all_lem L law (clock n) version 0 staged (record i { name = tool }) d
