-- ===== src/Publish/Upload.antt =====
-- What the bucket holds when publish writes the index.
use s3_registry.Prelude.{
  suc, ℕ, ◌≡◌, refl, sym, subst, ap, ◌∙◌, false, some, List, [], ◌∷◌, All, arith,
}
use s3_registry.Text.{Str, ◌==◌, eq_iff}
use s3_registry.Instant.{Instant}
use s3_registry.Result.{Result, ok, err}
use s3_registry.Semver.{Library}
use s3_registry.Store.{Service, Codec, Api, done, failed, unconditional, put_artifact, plain_answer}
use s3_registry.Store.Laws.{Stored, S3}
use s3_registry.Update.{Others, update_index}
use s3_registry.Update.Relied.{Spares}
use s3_registry.Update.Atomic.{Committed, update_index-Committed}
use s3_registry.Publish.{
  Machine, PublishFlags, StagedArtifact, upload, upload_next, upload_and_index, publish_change,
  run_publish, stage_publish, read_checksums,
}
use s3_registry.Publish.Staging.{IsStaged, AllStaged, sums_of, stage_publish-AllStaged}
use s3_registry.Text.Unicode.{Unicode}

-- No two staged artifacts have one key.
abbrev pub DistinctKeys : List StagedArtifact → Type 0
DistinctKeys [] = Unit
DistinctKeys (s ∷ ss) = All (λ (t : StagedArtifact). s.key == t.key ≡ false) ss × DistinctKeys ss

pub eq_swap : (k l : Str) → k == l ≡ false → l == k ≡ false
eq_swap k l h = ground (arith, eq_iff k l, eq_iff l k)

module _ (M : Machine) (S : Service) (s3 : S3 S) where
  -- The bucket holds the file of a staged artifact, as the upload opened it, at its key.
  abbrev pub HasFile : S.Bucket → StagedArtifact → Type 0
  HasFile b s = (o : Stored) × (s3.content b s.key ≡ some o) × (M.reopen s.path ≡ ok o.body)

  plain_done :
      {B : Type 0} (x : B × Api (Unit {0})) (b' : B)
      → x.0 ≡ b'
      → plain_answer x.1 ≡ ok tt
      → x ≡ (b', done tt)
  plain_done (b, done u) b' h k = ground arith
  plain_done (b, failed e) b' h k = ground arith

  put_artifact_done :
      (key body : Str) (b b' : S.Bucket)
      → put_artifact S key body b ≡ (b', ok tt)
      → S.put_object b key body unconditional ≡ (b', done tt)
  unfolding put_artifact
  put_artifact_done key body b b' h =
      plain_done _ b' (ap (λ (x : S.Bucket × Result (Unit {0})). x.0) h)
        (ap (λ (x : S.Bucket × Result (Unit {0})). x.1) h)

  pub next_ok :
      {B : Type 0} (next : B → B × Result (Unit {0})) (x : B × Result (Unit {0})) (b' : B)
      → upload_next next x ≡ (b', ok tt)
      → (mid : B) × (x ≡ (mid, ok tt)) × (next mid ≡ (b', ok tt))
  next_ok next (b, err e) b' h = absurd (ground arith)
  next_ok next (b, ok u) b' h = (b, refl, h)

  upload_step :
      (others : Others S.Bucket) (n : ℕ) (s : StagedArtifact) (ss : List StagedArtifact)
      (b b' : S.Bucket) (r : Result Str)
      → M.reopen s.path ≡ r
      → upload M S others n (s ∷ ss) b ≡ (b', ok tt)
      → (body : Str) × (mid : S.Bucket) × (r ≡ ok body)
        × (S.put_object (others.before_object n b) s.key body unconditional ≡ (mid, done tt))
        × (upload M S others (suc n) ss mid ≡ (b', ok tt))
  unfolding upload
  upload_step others n s ss b b' (err e) q h = absurd (ground (arith, q))
  upload_step others n s ss b b' (ok body) q h =
      let (mid, put, rest) = next_ok (upload M S others (suc n) ss) _ b' (rw (q, upload) at h) in
      (body, mid, refl, put_artifact_done s.key body (others.before_object n b) mid put, rest)

  -- The files are in the bucket, and at the keys that others spare nothing else changed.
  pub upload_lem :
      (others : Others S.Bucket) (K : Str → Type 0) (spares : Spares S s3 others K) (n : ℕ)
      (staged : List StagedArtifact) (b b' : S.Bucket)
      → All (λ (t : StagedArtifact). K t.key) staged
      → DistinctKeys staged
      → upload M S others n staged b ≡ (b', ok tt)
      → All (HasFile b') staged
        × ((k : Str)
            → K k
            → All (λ (t : StagedArtifact). k == t.key ≡ false) staged
            → s3.content b' k ≡ s3.content b k)
  unfolding upload
  upload_lem others K spares n [] b b' p d h =
      (tt, λ k _ _. ap (λ (x : S.Bucket × Result (Unit {0})). s3.content x.0 k) (sym h))
  upload_lem others K spares n (s ∷ ss) b b' (p, ps) (apart, d) h =
      let (body, mid, read, put, rest) = upload_step others n s ss b b' _ refl h in
      let (_, (o, at, same), unchanged) =
        s3.put_done (others.before_object n b) s.key body unconditional mid put in
      let (files, kept) = upload_lem others K spares (suc n) ss mid b' ps d rest in
      (
        ((o, kept s.key p apart ∙ at, read ∙ ap ok (sym same)), files),
        λ k q (m, ms). kept k q ms ∙ unchanged k (eq_swap k s.key m) ∙ spares n b k q,
      )

  -- Where publish ended with success: what it uploaded is in the bucket before the index is written.
  pub record IsLanded (L : Library) (C : Codec) (others : Others S.Bucket) (clock : ℕ → ℕ → Instant)
      (f : PublishFlags) (K : Str → Type 0) (staged : List StagedArtifact) (b final : S.Bucket)
      : Type 0 where
    pub uploaded : S.Bucket
    pub files : All (HasFile uploaded) staged
    pub kept :
        (k : Str)
        → K k
        → All (λ (t : StagedArtifact). k == t.key ≡ false) staged
        → s3.content uploaded k ≡ s3.content b k
    pub written :
        update_index S C others f.tool (publish_change L clock f.tool f.version staged) uploaded
        ≡ (final, ok tt)
    pub index : Committed S s3 C f.tool (publish_change L clock f.tool f.version staged) final

  landed :
      (L : Library) (C : Codec) (others : Others S.Bucket) (clock : ℕ → ℕ → Instant)
      (f : PublishFlags) (K : Str → Type 0) (staged : List StagedArtifact) (b b' : S.Bucket)
      → Spares S s3 others K
      → All (λ (t : StagedArtifact). K t.key) staged
      → DistinctKeys staged
      → f.dry_run ≡ false
      → upload_and_index M S L C others clock f staged b ≡ (b', ok tt)
      → IsLanded L C others clock f K staged b b'
  unfolding upload_and_index
  landed L C others clock f K staged b b' spares p d wet h =
      let (mid, up, idx) =
        next_ok (update_index S C others f.tool (publish_change L clock f.tool f.version staged))
          (upload M S others 0 staged b) b' (rw (wet, upload_and_index) at h) in
      let (files, kept) = upload_lem others K spares 0 staged b mid p d up in
      record {
        uploaded = mid;
        files = files;
        kept = kept;
        written = idx;
        index =
            update_index-Committed S s3 C f.tool others
              (publish_change L clock f.tool f.version staged) mid b' idx;
      }

  -- If publish succeeds, and not as a dry run, then at some moment each staged artifact's file, as
  -- it was when the upload opened it, stood in the bucket at its key, and at the other keys that
  -- others spare between the uploads the objects were as at the start; the index was written after
  -- that, by one atomic change to the bucket that the uploads left. Each staged entry describes its
  -- file as it was read for its digest. No two staged artifacts have one key, and others spare the
  -- staged keys between the uploads.
  pub run_publish-IsLanded :
      (L : Library) (C : Codec) (u : Unicode) (others : Others S.Bucket) (clock : ℕ → ℕ → Instant)
      (f : PublishFlags) (K : Str → Type 0) (staged : List StagedArtifact) (b b' : S.Bucket)
      → Spares S s3 others K
      → All (λ (t : StagedArtifact). K t.key) staged
      → f.dry_run ≡ false
      → stage_publish M f u (read_checksums M f u) ≡ ok staged
      → DistinctKeys staged
      → run_publish M S L C u others clock f b ≡ (b', ok tt)
      → All (IsStaged M f (sums_of f (read_checksums M f u))) staged
        × IsLanded L C others clock f K staged b b'
  unfolding run_publish
  run_publish-IsLanded L C u others clock f K staged b b' spares p wet run d h = (
    subst (AllStaged M f (sums_of f (read_checksums M f u))) run
        (stage_publish-AllStaged M f u (read_checksums M f u)),
    landed L C others clock f K staged b b' spares p d wet (rw (run, run_publish) at h),
  )
