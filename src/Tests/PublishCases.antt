-- ===== src/Tests/PublishCases.antt =====
-- publish of cmd/s3reg at a directory with one archive.
use s3_registry.Prelude.{◌≡◌, refl, false, [], ◌∷◌, All, if◌then◌else◌, arith}
use s3_registry.Prelude.Int.{pos}
use s3_registry.Text.{Str, codes, ◌==◌, count, has_suffix, contains}
use s3_registry.Dict.{Dict, insert, lookup}
use s3_registry.Result.{ok}
use s3_registry.Index.{Index, new, sort_versions}
use s3_registry.Semver.{sort_ascending}
use s3_registry.Index.View.{IsDistinct}
use s3_registry.Text.Unicode.{Unicode}
use s3_registry.Store.{get_index, put_index}
use s3_registry.Update.{Others}
use s3_registry.Publish.{
  Machine, PublishFlags, StagedArtifact, stage_publish, read_checksums, run_publish, publish_change,
}
use s3_registry.Publish.Change.{IsPublished, publish_change_lem}
use s3_registry.Publish.Staging.{IsStaged, AllStaged, sums_of, stage_publish-AllStaged}
use s3_registry.Publish.Upload.{IsLanded, run_publish-IsLanded}
use s3_registry.Tests.Numbers.{numbers, numbers-IsLawful}
use s3_registry.Tests.Memory.{memory, memory-S3, toy_codec}

abbrev sums_text : Str
sums_text = codes "tool_linux_amd64.zip  tool_linux_amd64.zip\n"

-- Every file but the checksums file holds its own name, and the digest of a text is the text.
abbrev pub machine : Machine
machine = record {
  read = λ p. ok (if p == codes "checksums.txt" then sums_text else p);
  reopen = λ p. ok (if p == codes "checksums.txt" then sums_text else p);
  read_dir = λ d. ok (record { name = codes "tool_linux_amd64.zip"; is_dir = false } ∷ []);
  base = λ p. p;
  join = λ d n. n;
  digest = λ s. s;
}

abbrev pub ascii : Unicode
ascii = record { trim = λ s. s; fields = λ s. s ∷ []; to_lower = λ s. s }

abbrev pub flags : PublishFlags
flags = record {
  tool = codes "tool";
  version = codes "7";
  os = [];
  arch = [];
  file = [];
  dist = codes "dist";
  checksums = codes "checksums.txt";
  dry_run = false;
}

abbrev pub key : Str
key = codes "tool/7/linux-amd64/tool_linux_amd64.zip"

abbrev pub archive : StagedArtifact
archive = record {
  os_arch = codes "linux-amd64";
  key = key;
  path = codes "tool_linux_amd64.zip";
  art = record { key = key; sha256 = codes "tool_linux_amd64.zip"; size = pos 20 };
}

abbrev pub quiet : Others (Dict Str)
quiet = record { before_read = λ n b. b; before_write = λ n b. b; before_object = λ n b. b }

pub staged :
    stage_publish machine flags ascii (read_checksums machine flags ascii) ≡ ok (archive ∷ [])
unfolding stage_publish read_checksums ◌==◌ lookup insert has_suffix
staged = refl

abbrev pub after : Dict Str
after = (key, codes "tool_linux_amd64.zip") ∷ (codes "tool/index.json", codes "tool") ∷ []

published :
    run_publish machine memory numbers toy_codec ascii quiet (λ n m. 9) flags [] ≡ (after, ok tt)
unfolding run_publish ◌==◌ lookup insert has_suffix get_index new sort_versions sort_ascending
    contains put_index
published = refl

stage_publish-AllStaged_example :
    AllStaged machine flags
      (sums_of flags (read_checksums machine flags ascii))
      (stage_publish machine flags ascii (read_checksums machine flags ascii))
stage_publish-AllStaged_example =
    stage_publish-AllStaged machine flags ascii (read_checksums machine flags ascii)

run_publish-IsLanded_example :
    All (IsStaged machine flags (sums_of flags (read_checksums machine flags ascii))) (archive ∷ [])
    × IsLanded machine memory memory-S3 numbers toy_codec quiet
        (λ n m. 9)
        flags
        (λ k. Unit)
        (archive ∷ [])
        []
        after
run_publish-IsLanded_example =
    run_publish-IsLanded machine memory memory-S3 numbers toy_codec ascii quiet (λ n m. 9) flags
      (λ k. Unit) (archive ∷ []) [] after (λ n b k p. refl) (tt, tt) refl staged (tt, tt) published

abbrev old : Index
old = record { name = codes "tool"; updated = 1; versions = [] }

old-IsDistinct : IsDistinct old.versions
unfolding count
old-IsDistinct k = omega arith

publish_change_lem_example :
    (j : Index) × (publish_change numbers (λ n m. 9) (codes "tool") (codes "7") (archive ∷ []) 0 old
      ≡ ok j)
    × IsPublished (codes "7") (archive ∷ []) 9 (record old { name = codes "tool" }) j
publish_change_lem_example =
    publish_change_lem numbers (λ n m. 9) (codes "tool") (codes "7") (archive ∷ []) 0 old
      numbers-IsLawful old-IsDistinct
