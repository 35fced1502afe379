-- ===== src/Registry.antt =====
-- The registry as its users see it: a map from a version and an os-arch to an artifact, which publishers
-- and removers (cmd/s3reg/publish.go, rm.go) change by their updates of the index.
pub mod Replay
pub mod Download
pub mod Sound
use s3_registry.Prelude.{ℕ, ◌&&◌, ◌||◌, Option, none, some, List, [], ◌∷◌, if◌then◌else◌, ◌≡◌}
use s3_registry.Text.{Str, ◌==◌}
use s3_registry.Instant.{Instant}
use s3_registry.Result.{Result, ok}
use s3_registry.Semver.{Library}
use s3_registry.Index.{Artifact, Index}
use s3_registry.Index.View.{artifact_at, IsDistinct}
use s3_registry.Store.{Codec, load}
use s3_registry.Publish.{StagedArtifact, publish_change}
use s3_registry.Publish.Change.{staged_or}
use s3_registry.Rm.{rm_change}
use s3_registry.Update.Interleaved.{Commit}

-- What one call of updateIndex is for
pub data Job : Type 0 where
  publishing : Str → List StagedArtifact → Job
  -- a version, and an os-arch or the empty text
  removing : Str → Str → Job

-- The `mutate` of the job
unfoldable pub change_of : Library → (ℕ → ℕ → Instant) → Str → Job → ℕ → Index → Result Index
unfolding publish_change rm_change
change_of L clock tool (publishing version staged) = publish_change L clock tool version staged
change_of L clock tool (removing version os_arch) = rm_change (λ n. clock n 0) version os_arch

-- The artifact of a version and an os-arch
abbrev pub View : Type 0
View = Str → Str → Option Artifact

-- The job on the map
unfoldable pub effect : Job → View → View
effect (publishing version staged) m v x =
    if version == v then staged_or x staged (m v x) else m v x
effect (removing version os_arch) m v x =
    if version == v && (os_arch == [] || os_arch == x) then none else m v x

-- The jobs of the writes one after the other, the last write first.
unfoldable pub replay : (ℕ → Job) → List Commit → View → View
unfolding effect
replay jobs [] m = m
replay jobs (c ∷ log) m = effect (jobs c.writer) (replay jobs log m)

-- What an index is written as is read as an index with the same artifacts, and without duplicates as
-- before. encoding/json does so for texts in valid UTF-8, which version, os and arch are taken to be.
pub record KeepsView (C : Codec) : Type 0 where
  pub kept :
      (i : Index) (text : Str)
      → C.marshal i ≡ some text
      → IsDistinct i.versions
      → (j : Index) × (load C text ≡ ok j)
        × IsDistinct j.versions
        × ((v x : Str) → artifact_at v x j.versions ≡ artifact_at v x i.versions)
