-- ===== src/Tests/ReindexCases.antt =====
-- reindex against a bucket in memory that lists one archive and the index.
use s3_registry.Prelude.{◌≡◌, refl, some, none, List, [], ◌∷◌}
use s3_registry.Prelude.Int.{ℤ, pos}
use s3_registry.Text.{Str, codes, ◌==◌, contains}
use s3_registry.Dict.{Dict, insert, lookup}
use s3_registry.Result.{ok}
use s3_registry.Index.{Index, new}
use s3_registry.Semver.{sort_ascending}
use s3_registry.Store.{Service, done, get_index}
use s3_registry.Store.Listing.{Object, list_objects}
use s3_registry.Store.Laws.{S3}
use s3_registry.Update.{Others}
use s3_registry.Verify.{hash_object}
use s3_registry.Reindex.{current_times, run_reindex}
use s3_registry.Reindex.Times.{time_in}
use s3_registry.Reindex.Rebuilt.{IsRebuilt}
use s3_registry.Reindex.Run.{HoldsIndex, run_reindex_lem}
use s3_registry.Tests.Numbers.{numbers, numbers-IsLawful}
use s3_registry.Tests.Memory.{memory, memory-S3, toy_codec}

abbrev key : Str
key = codes "tool/7/linux-amd64/a.zip"

abbrev listing : Service
listing = record memory {
  list_objects = λ b p d t. done (record {
    common_prefixes = [];
    contents = record { key = some key; last_modified = some 7 } ∷ [];
    is_truncated = none;
    next = none;
  });
}

abbrev listing-S3 : S3 listing
listing-S3 = record {
  content = memory-S3.content;
  get_done = memory-S3.get_done;
  get_missing = memory-S3.get_missing;
  put_done = memory-S3.put_done;
  etag_body = memory-S3.etag_body;
  etag_nonempty = memory-S3.etag_nonempty;
}

abbrev quiet : Others (Dict Str)
quiet = record { before_read = λ n b. b; before_write = λ n b. b; before_object = λ n b. b }

abbrev before : Dict Str
before = (key, codes "zip") ∷ (codes "tool/index.json", codes "old") ∷ []

abbrev after : Dict Str
after = (key, codes "zip") ∷ (codes "tool/index.json", codes "tool") ∷ []

abbrev objects : List Object
objects = record { key = key; last_modified = 7 } ∷ []

abbrev sums : Str → Str × ℤ
sums k = (codes "zip", pos 3)

listed : list_objects listing 1 (codes "tool/") none [] before ≡ some (ok objects)
unfolding list_objects
listed = refl

hashed : hash_object listing (λ s. s) before key ≡ ok (sums key)
unfolding hash_object lookup ◌==◌
hashed = refl

no_times : current_times (get_index listing toy_codec (codes "tool") before) ≡ ok []
unfolding current_times get_index lookup ◌==◌
no_times = refl

reindexed :
    run_reindex numbers listing toy_codec (λ s. s) quiet (λ n. 9) (codes "tool") 1 before
    ≡ some (after, ok tt)
unfolding run_reindex lookup insert ◌==◌ new sort_ascending contains
reindexed = refl

run_reindex_lem_example :
    (idx : Index) × IsRebuilt
      (codes "tool")
      sums
      numbers
      (time_in (get_index listing toy_codec (codes "tool") before))
      objects
      idx
    × HoldsIndex listing listing-S3 toy_codec (codes "tool") after idx
run_reindex_lem_example =
    run_reindex_lem numbers numbers-IsLawful listing listing-S3 toy_codec (λ s. s) quiet (λ n. 9)
      (codes "tool") sums 1 objects [] before after listed (hashed, tt) no_times reindexed
