-- ===== src/Tests/SoundCases.antt =====
-- publish, rm and publish of cmd/s3reg from an empty bucket in memory, and verify after it.
use s3_registry.Prelude.{◌≡◌, refl, some, [], ◌∷◌, ◌++◌}
use s3_registry.Text.{Str, codes, ◌==◌, contains, has_suffix}
use s3_registry.Dict.{Dict, insert, lookup, erase}
use s3_registry.Result.{ok}
use s3_registry.Index.{new, sort_versions}
use s3_registry.Semver.{sort_ascending}
use s3_registry.Store.{get_index, put_index, index_key}
use s3_registry.Publish.{run_publish}
use s3_registry.Rm.{run_rm}
use s3_registry.Reindex.{parse_artifact_key}
use s3_registry.Verify.{run_verify}
use s3_registry.Verify.Matching.{artifact_count}
use s3_registry.Registry.Sound.{IsSound}
use s3_registry.Registry.Sound.Pending.{AllParsed}
use s3_registry.Registry.Sound.History.{Ran, fresh, publishes, removes, Ran-IsVerified}
use s3_registry.Tests.Numbers.{numbers, numbers-IsLawful}
use s3_registry.Tests.Memory.{
  memory, memory-S3, memory-S3_absent, memory-S3_held, memory-IsUp, memory-IsExact,
}
use s3_registry.Tests.LongCodec.{long_codec, long_codec-KeepsView, long_codec-DecodesMaps}
use s3_registry.Tests.PublishCases.{machine, ascii, flags, key, archive, quiet, staged}

abbrev pub index_text : Str
index_text =
    (1 ∷ codes "7")
    ++ (39 ∷ key)
    ++ (20 ∷ codes "tool_linux_amd64.zip")
    ++ (20 ∷ codes "linux-amd64")

abbrev pub landed : Dict Str
landed = (key, codes "tool_linux_amd64.zip") ∷ (codes "tool/index.json", index_text) ∷ []

published :
    run_publish machine memory numbers long_codec ascii quiet (λ n m. 9) flags [] ≡ (landed, ok tt)
unfolding run_publish ◌==◌ lookup insert has_suffix get_index new sort_versions sort_ascending
    contains put_index
published = refl

abbrev emptied : Dict Str
emptied = (codes "tool/index.json", []) ∷ []

removed :
    run_rm memory long_codec quiet (λ n. 9) (codes "tool") (codes "7") [] [] landed
    ≡ (emptied, ok tt)
unfolding run_rm get_index put_index lookup insert erase ◌==◌
removed = refl

abbrev again : Dict Str
again = (codes "tool/index.json", index_text) ∷ (key, codes "tool_linux_amd64.zip") ∷ []

republished :
    run_publish machine memory numbers long_codec ascii quiet (λ n m. 9) flags emptied
    ≡ (again, ok tt)
unfolding run_publish ◌==◌ lookup insert has_suffix get_index new sort_versions sort_ascending
    contains put_index
republished = refl

pub parsed : AllParsed (codes "tool") (codes "7") (archive ∷ [])
unfolding parse_artifact_key ◌==◌
parsed = (refl, tt)

abbrev At : Dict Str → Type 0
At = Ran numbers memory memory-S3 long_codec (λ s. s) (codes "tool")

from_nothing : At []
unfolding index_key lookup
from_nothing = fresh [] (memory-S3_absent [] (index_key (codes "tool")) refl)

publish_then :
    (b b' : Dict Str)
    → At b
    → run_publish machine memory numbers long_codec ascii quiet (λ n m. 9) flags b ≡ (b', ok tt)
    → At b'
publish_then b b' r h =
    publishes r machine flags ascii (archive ∷ []) quiet (λ n m. 9) b' refl refl refl staged
      (tt, tt) parsed (refl, tt) (record { on_read = λ n b p. p; on_write = λ n b p. p })
      (λ n b k p. refl) h

-- published, removed and published again
ran : At again
ran =
    publish_then emptied again
      (removes (publish_then [] landed from_nothing published) quiet (λ n. 9) (codes "7") [] []
        emptied (record { on_read = λ n b p. p; on_write = λ n b p. p }) (λ n b k p. refl) removed)
      republished

held :
    memory-S3.content again (index_key (codes "tool"))
    ≡ some (record { body = index_text; etag = 34 ∷ index_text })
unfolding lookup ◌==◌ index_key
held = memory-S3_held again (index_key (codes "tool")) index_text refl

Ran-IsVerified_example :
    (s : IsSound long_codec (λ s. s) (codes "tool") [] (memory-S3.content again)) × ((version : Str)
      → run_verify memory (λ s. s) again long_codec (codes "tool") version
        ≡ ok (artifact_count memory (λ s. s) again version s.idx.versions))
Ran-IsVerified_example =
    Ran-IsVerified numbers memory memory-S3 long_codec (λ s. s) (codes "tool")
      (record { body = index_text; etag = 34 ∷ index_text }) numbers-IsLawful long_codec-KeepsView
      long_codec-DecodesMaps memory-IsExact memory-IsUp ran held
