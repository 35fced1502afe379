-- ===== src/Tests/CommandCases.antt =====
-- The commands of cmd/s3reg against the bucket in memory.
use s3_registry.Prelude.{◌≡◌, ◌↔◌, refl, some, [], ◌∷◌, if◌then◌else◌}
use s3_registry.Prelude.Int.{ℤ, pos}
use s3_registry.Text.{Str, codes, ◌==◌}
use s3_registry.Dict.{Dict, erase, insert, lookup}
use s3_registry.Result.{ok, err, not_found, failed_verification}
use s3_registry.Index.{Index}
use s3_registry.Store.{Codec, get_index, put_index}
use s3_registry.Update.{Others}
use s3_registry.Reindex.{parse_artifact_key, current_times, rebuild, write_rounds}
use s3_registry.Reindex.Times.{time_in}
use s3_registry.Reindex.Rebuilt.{IsRebuilt, rebuild_lem}
use s3_registry.Reindex.Overwriting.{replace, write_rounds-replaces}
use s3_registry.Store.{index_key}
use s3_registry.Store.Listing.{Object}
use s3_registry.Store.Laws.{Stored}
use s3_registry.Update.Atomic.{Committed}
use s3_registry.Update.{max_attempts}
use s3_registry.Prelude.{zero, suc, List}
use s3_registry.Reindex.Keys.{IsKeyOf, parse_artifact_key_iff}
use s3_registry.Rm.{run_rm}
use s3_registry.Rm.Deletion.{IsRmRun, run_rm-IsRmRun}
use s3_registry.Verify.{run_verify}
use s3_registry.Verify.Matching.{every_match, artifact_count, run_verify_lem}
use s3_registry.Tests.Numbers.{numbers, numbers-IsLawful}
use s3_registry.Tests.Memory.{memory, memory-S3, toy_codec}
use s3_registry.Tests.PublishCases.{key, archive, after, quiet}

parse_artifact_key_iff_example :
    (parse_artifact_key (codes "tool") key ≡ some (codes "7", codes "linux-amd64"))
    ↔ IsKeyOf (codes "tool") key (codes "7") (codes "linux-amd64")
parse_artifact_key_iff_example =
    parse_artifact_key_iff (codes "tool") key (codes "7") (codes "linux-amd64")

-- A codec whose every text is an index with the archive at version 7.
abbrev one_codec : Codec
one_codec = record {
  unmarshal = λ s. some (record {
    name = codes "tool";
    updated = 1;
    versions = some (
        record {
          version = codes "7";
          created = 5;
          artifacts = some ((codes "linux-amd64", archive.art) ∷ []);
        }
        ∷ []);
  });
  marshal = λ i. some i.name;
}

abbrev listed : Index
listed = record {
  name = codes "tool";
  updated = 1;
  versions =
      record {
        version = codes "7";
        created = 5;
        artifacts = some ((codes "linux-amd64", archive.art) ∷ []);
      }
      ∷ [];
}

read_listed : get_index memory one_codec (codes "tool") after ≡ ok (listed, 34 ∷ codes "tool")
unfolding get_index lookup ◌==◌
read_listed = refl

verified : run_verify memory (λ s. s) after one_codec (codes "tool") [] ≡ ok 1
unfolding run_verify get_index lookup ◌==◌
verified = refl

run_verify_lem_example : run_verify memory (λ s. s) after one_codec (codes "tool") [] ≡ (
    if every_match memory (λ s. s) after [] listed.versions
    then ok (artifact_count memory (λ s. s) after [] listed.versions)
    else err failed_verification)
run_verify_lem_example =
    run_verify_lem memory (λ s. s) after one_codec (codes "tool") [] (34 ∷ codes "tool") listed
      read_listed

removed :
    (run_rm memory one_codec quiet (λ n. 9) (codes "tool") (codes "7") [] [] after).0
    ≡ (codes "tool/index.json", codes "tool") ∷ []
unfolding run_rm get_index put_index lookup insert erase ◌==◌
removed = refl

run_rm-IsRmRun_example :
    IsRmRun memory memory-S3 one_codec quiet
      (λ n. 9)
      (codes "tool")
      (codes "7")
      []
      []
      after
      (run_rm memory one_codec quiet (λ n. 9) (codes "tool") (codes "7") [] [] after)
run_rm-IsRmRun_example =
    run_rm-IsRmRun memory memory-S3 one_codec quiet (λ n. 9) (codes "tool") (codes "7") [] [] after

abbrev objects : List Object
objects =
    record { key = key; last_modified = 7 }
    ∷ record { key = codes "tool/index.json"; last_modified = 8 }
    ∷ []

abbrev hashed : Str → Str × ℤ
hashed k = (k, pos 20)

no_current : current_times (err not_found) ≡ ok []
unfolding current_times
no_current = refl

rebuild_lem_example :
    (idx : Index) × (rebuild numbers
        (λ k. ok (hashed k))
        (λ n. 9)
        (codes "tool")
        objects
        (err not_found)
      ≡ ok idx)
    × IsRebuilt (codes "tool") hashed numbers (time_in (err not_found)) objects idx
rebuild_lem_example =
    rebuild_lem (codes "tool") hashed numbers numbers-IsLawful (λ k. ok (hashed k)) (λ n. 9) objects
      (err not_found) [] (refl, (refl, tt)) no_current

-- Another publisher writes the index before the first write of reindex.
abbrev intruding : Others (Dict Str)
intruding = record {
  before_read = λ n b. b;
  before_object = λ n b. b;
  before_write =
      λ n b. elim n [ zero ↦ insert (index_key (codes "tool")) (codes "theirs") b | suc m ↦ b ];
}

overwritten :
    write_rounds memory one_codec intruding (codes "tool") listed max_attempts 0 after
    ≡ ((key, codes "tool_linux_amd64.zip") ∷ (codes "tool/index.json", codes "tool") ∷ [], ok tt)
unfolding write_rounds lookup insert ◌==◌
overwritten = refl

write_rounds-replaces_example :
    (text : Str) × (o : Stored) × (toy_codec.marshal listed ≡ some text)
    × (memory-S3.content after (index_key (codes "tool")) ≡ some o)
    × (o.body ≡ text)
    × Committed memory memory-S3 one_codec
        (codes "tool")
        (replace memory one_codec intruding (codes "tool") listed)
        after
write_rounds-replaces_example =
    write_rounds-replaces memory one_codec intruding (codes "tool") listed memory-S3 after after
      overwritten
