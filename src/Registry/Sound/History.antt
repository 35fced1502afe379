-- ===== src/Registry/Sound/History.antt =====
-- Any history of publish, rm and reindex of cmd/s3reg for a tool, and verify after it.
use s3_registry.Prelude.{ℕ, ◌≡◌, sym, ap, subst, false, none, some, List, [], ◌++◌, inl, inr, arith}
use s3_registry.Text.{Str, codes, count}
use s3_registry.Text.Unicode.{Unicode}
use s3_registry.Instant.{Instant}
use s3_registry.Result.{Result, ok}
use s3_registry.Semver.{Library, IsLawful}
use s3_registry.Index.{new}
use s3_registry.Index.View.{version_at}
use s3_registry.Store.{Service, Codec, index_key, get_index}
use s3_registry.Store.Listing.{Object, list_objects}
use s3_registry.Reindex.{current_times, run_reindex}
use s3_registry.Dict.{Dict}
use s3_registry.Store.Laws.{Stored, S3, IsUp, index_in}
use s3_registry.Update.{Others}
use s3_registry.Update.Relied.{Keep, Spares}
use s3_registry.Publish.{
  Machine, PublishFlags, StagedArtifact, stage_publish, read_checksums, run_publish,
}
use s3_registry.Publish.Upload.{DistinctKeys}
use s3_registry.Rm.{run_rm}
use s3_registry.Verify.{run_verify}
use s3_registry.Verify.Matching.{artifact_count}
use s3_registry.Registry.{KeepsView}
use s3_registry.Registry.Sound.{IsSound, IsExact, DecodesMaps}
use s3_registry.Registry.Sound.Pending.{AllParsed}
use s3_registry.Registry.Sound.Moved.{Under}
use s3_registry.Registry.Sound.Publishing.{IsStable, IsUploaded, run_publish-IsSound}
use s3_registry.Registry.Sound.Removing.{IsSoundAt, run_rm-IsSound}
use s3_registry.Registry.Sound.Reindexing.{IsAtRest, AreThere, run_reindex-IsSound}
use s3_registry.Registry.Sound.Verifying.{run_verify-passes}

module _ (L : Library) (S : Service) (s3 : S3 S) (C : Codec) (digest : Str → Str) (tool : Str) where
  -- The buckets that successful runs of publish, rm and reindex for the tool lead to, one after the other,
  -- from a bucket without an index or from a reindex of any bucket. In the update of a run others do
  -- what the run relies on, and before an upload or a deletion what leaves the objects of the tool.
  pub data Ran : S.Bucket → Type 0 where
    fresh : (b : S.Bucket) → s3.content b (index_key tool) ≡ none → Ran b
    publishes :
        {b : S.Bucket}
        → Ran b
        → (M : Machine) (f : PublishFlags) (u : Unicode) (staged : List StagedArtifact)
          (others : Others S.Bucket) (clock : ℕ → ℕ → Instant) (b' : S.Bucket)
        → M.digest ≡ digest
        → f.tool ≡ tool
        → f.dry_run ≡ false
        → stage_publish M f u (read_checksums M f u) ≡ ok staged
        → DistinctKeys staged
        → AllParsed f.tool f.version staged
        → IsStable M staged
        → Keep (IsUploaded M S s3 C f staged) others
        → Spares S s3 others (Under f.tool)
        → run_publish M S L C u others clock f b ≡ (b', ok tt)
        → Ran b'
    removes :
        {b : S.Bucket}
        → Ran b
        → (others : Others S.Bucket) (clock : ℕ → Instant) (version os arch : Str) (b' : S.Bucket)
        → Keep (IsSoundAt S s3 C digest clock tool version os arch) others
        → Spares S s3 others (Under tool)
        → run_rm S C others clock tool version os arch b ≡ (b', ok tt)
        → Ran b'
    -- reindex asks nothing of the bucket.
    reindexes :
        (b : S.Bucket) (up : IsUp S s3) (law : IsLawful L) (others : Others S.Bucket)
        (clock : ℕ → Instant) (fuel : ℕ) (objs : List Object) (created : Dict Instant)
        (b' : S.Bucket)
        → Keep (IsAtRest L law S s3 up C digest clock tool b) others
        → list_objects S fuel (tool ++ codes "/") none [] b ≡ some (ok objs)
        → AreThere L law S s3 up C digest clock tool b objs
        → current_times (get_index S C tool b) ≡ ok created
        → run_reindex L S C digest others clock tool fuel b ≡ some (b', ok tt)
        → Ran b'

  pub fresh-IsSound :
      (b : S.Bucket)
      → s3.content b (index_key tool) ≡ none
      → IsSound C digest tool [] (s3.content b)
  unfolding new version_at count
  fresh-IsSound b h = record {
    idx = new tool;
    read = ap (index_in C tool) h;
    distinct = λ k. omega arith;
    keyed = λ v x a n. absurd (cc);
    backed = λ v x a n. absurd (cc);
  }

  module _ (law : IsLawful L) (keeps : KeepsView C) (maps : DecodesMaps C)
      (exact : IsExact S s3) where
    Ran-IsSound : {b : S.Bucket} → Ran b → IsSound C digest tool [] (s3.content b)
    Ran-IsSound (fresh b h) = fresh-IsSound b h
    Ran-IsSound
          (publishes {b = b} r M f u staged others clock b' same_digest same_tool wet run d parsed
            stable keep spares h) =
        subst (λ g. IsSound C g tool [] (s3.content b')) same_digest
          (subst (λ t. IsSound C M.digest t [] (s3.content b')) same_tool
            (run_publish-IsSound M S s3 C f staged parsed stable L u others clock b b' law keeps
              exact wet run d keep spares
              (subst (λ t. IsSound C M.digest t [] (s3.content b)) (sym same_tool)
                (subst (λ g. IsSound C g tool [] (s3.content b)) (sym same_digest) (Ran-IsSound r)))
              h))
    Ran-IsSound (reindexes b up law' others clock fuel objs created b' keep listing there times h) =
        run_reindex-IsSound L law' S s3 up C digest clock tool b keeps exact others keep fuel objs
          created b' listing there times h
    Ran-IsSound (removes {b = b} r others clock version os arch b' keep spares h) =
        elim (run_rm-IsSound S s3 C digest clock tool version os arch others b keeps maps exact keep
          spares (Ran-IsSound r)) [
            | inl s ↦
                subst
                  (λ (x : S.Bucket × Result (Unit {0})). IsSound C digest tool [] (s3.content x.0))
                  h s
            | inr (e, _, failed') ↦
                absurd (cc (failed', ap (λ (x : S.Bucket × Result (Unit {0})). x.1) h))
          ]

-- However publish, rm and reindex succeed one after the other, on a bucket without an index of the
-- tool or after a reindex of any bucket, every artifact that the index names is there with its
-- digest and size, at a key of its version and os-arch; so verify then succeeds for every version,
-- if the bucket has an index and the service answers, and checks all that the index names. Others
-- do before each read and each write of a run's update only what the run relies on, before each
-- upload and each deletion what leaves the objects below the tool's name, and nothing while a
-- reindex lists and hashes objects; the keys of an upload are apart and read as their version and
-- os-arch, its files do not change while they are published, and a listing names objects that are
-- there. S3, the version library and the codec are as documented, the codec on every index that is
-- written.
pub Ran-IsVerified :
    (L : Library) (S : Service) (s3 : S3 S) (C : Codec) (digest : Str → Str) (tool : Str)
    {b : S.Bucket} (o : Stored)
    → IsLawful L
    → KeepsView C
    → DecodesMaps C
    → IsExact S s3
    → IsUp S s3
    → Ran L S s3 C digest tool b
    → s3.content b (index_key tool) ≡ some o
    → (s : IsSound C digest tool [] (s3.content b)) × ((version : Str)
        → run_verify S digest b C tool version
          ≡ ok (artifact_count S digest b version s.idx.versions))
Ran-IsVerified L S s3 C digest tool {b} o law keeps maps exact up r at =
    let s = Ran-IsSound L S s3 C digest tool law keeps maps exact r in
    (s, λ version. run_verify-passes S s3 up digest b C tool version s o maps at)
