-- ===== src/Registry/Sound/Publishing.antt =====
-- publish of cmd/s3reg on a sound bucket. Between the first upload and the write of the index the keys
-- of the upload are pending: an object there may already be the new one.
use s3_registry.Prelude.{
  ℕ, ◌≡◌, refl, sym, ◌∙◌, ap, subst, true, false, ◌&&◌, Option, some, List, [], ◌∷◌, All, All-map,
  All-of, length, inl, inr, Bool-cases, if◌then◌else◌,
}
use s3_registry.Text.{Str, ◌==◌, eq_iff, contains}
use s3_registry.Prelude.Int.{pos}
use s3_registry.Text.Unicode.{Unicode}
use s3_registry.Instant.{Instant}
use s3_registry.Result.{ok, ok_inj}
use s3_registry.Semver.{Library, IsLawful}
use s3_registry.Index.{Artifact, Index}
use s3_registry.Index.View.{artifact_at, IsDistinct}
use s3_registry.Store.{Service, Codec, load, index_key}
use s3_registry.Store.Laws.{S3, index_in}
use s3_registry.Update.{Others, update_index}
use s3_registry.Update.Atomic.{Committed}
use s3_registry.Update.Relied.{Keep, Spares, update_index-IsKept}
use s3_registry.Publish.{
  Machine, PublishFlags, StagedArtifact, upload, upload_and_index, publish_change, run_publish,
  stage_publish, read_checksums,
}
use s3_registry.Publish.Change.{staged_or, publish_change_lem}
use s3_registry.Publish.Staging.{IsStaged, AllStaged, sums_of, stage_publish-AllStaged}
use s3_registry.Publish.Upload.{DistinctKeys, HasFile, next_ok, upload_lem}
use s3_registry.Reindex.{parse_artifact_key}
use s3_registry.Dict.{Dict}
use s3_registry.Registry.{KeepsView}
use s3_registry.Registry.Sound.{IsBacked, IsSound, IsExact}
use s3_registry.Registry.Sound.Moved.{
  Under, index_key-Under, parsed-Under, index_key-ne, IsSound-moved, IsBacked-moved,
}
use s3_registry.Registry.Sound.Pending.{keys_of, AllParsed, pending_or, staged_or-elim, unpending}

-- The staged files are opened for the upload as hashFile read them.
abbrev pub IsStable : Machine → List StagedArtifact → Type 0
IsStable M = All (λ (t : StagedArtifact). M.reopen t.path ≡ M.read t.path)

module _ (M : Machine) (S : Service) (s3 : S3 S) (C : Codec) (f : PublishFlags)
    (staged : List StagedArtifact) where
  -- Sound but for the keys of the upload, which hold the files that are staged for them
  abbrev pub IsUploaded : S.Bucket → Type 0
  IsUploaded b =
      IsSound C M.digest f.tool (keys_of staged) (s3.content b) × All (HasFile M S s3 b) staged

  module _ (parsed : AllParsed f.tool f.version staged) (stable : IsStable M staged) where
    uploaded :
        (others : Others S.Bucket) (b mid : S.Bucket)
        → Spares S s3 others (Under f.tool)
        → DistinctKeys staged
        → IsSound C M.digest f.tool [] (s3.content b)
        → upload M S others 0 staged b ≡ (mid, ok tt)
        → IsUploaded mid
    uploaded others b mid spares d s h =
        let (files, kept) =
          upload_lem M S s3 others (Under f.tool) spares 0 staged b mid
            (All-map _ _ (λ (t : StagedArtifact) p. parsed-Under f.tool t.key f.version t.os_arch p)
              staged parsed)
            d h in
        (
          IsSound-moved C M.digest f.tool [] (keys_of staged) (s3.content b) (s3.content mid) s
              (kept (index_key f.tool) (index_key-Under f.tool) (
                All-map _ _
                  (λ (t : StagedArtifact) p. index_key-ne f.tool t.key f.version t.os_arch p) staged
                  parsed))
              (λ k p. absurd (unfold contains in (cc)))
              (λ v x a h. elim (pending_or a.key staged) [
                | inl p ↦ inl p
                | inr n ↦ inr (kept a.key (parsed-Under f.tool a.key v x (s.keyed v x a h)) n)
              ]),
          files,
        )

    module _ (sums : Option (Dict Str)) (L : Library) (clock : ℕ → ℕ → Instant) (final : S.Bucket)
        (c : Committed S s3 C f.tool (publish_change L clock f.tool f.version staged) final) where
      abbrev IsGood : Str → Str → Artifact → Type 0
      IsGood v x a =
          (parse_artifact_key f.tool a.key ≡ some (v, x)) × IsBacked M.digest (s3.content final) a

      staged-IsGood :
          (x : Str) (s : StagedArtifact)
          → parse_artifact_key f.tool s.key ≡ some (f.version, s.os_arch)
          → IsStaged M f sums s
          → HasFile M S s3 c.at_write s
          → M.reopen s.path ≡ M.read s.path
          → s.os_arch == x ≡ true
          → IsGood f.version x s.art
      staged-IsGood x s p (body, read, key, sum, size, _) (o, at, held) q e =
          let same : o.body ≡ body = ok_inj (sym held ∙ q ∙ read) in
          (
            ap (parse_artifact_key f.tool) key
                ∙ p
                ∙ ap (λ y. some (f.version, y)) ((eq_iff s.os_arch x).0 e),
            (
              o,
              ap (s3.content final) key
                  ∙ c.rest s.key (index_key-ne f.tool s.key f.version s.os_arch p)
                  ∙ at,
              ap M.digest same ∙ sym sum,
              size ∙ ap (λ (t : Str). pos (length t)) (sym same),
            ),
          )

      all-IsGood :
          (x : Str) (ss : List StagedArtifact)
          → AllParsed f.tool f.version ss
          → All (IsStaged M f sums) ss
          → All (HasFile M S s3 c.at_write) ss
          → IsStable M ss
          → All (λ (s : StagedArtifact). s.os_arch == x ≡ true → IsGood f.version x s.art) ss
      all-IsGood x [] _ _ _ _ = tt
      all-IsGood x (s ∷ ss) (p, ps) (h, hs) (g, gs) (q, qs) =
          (staged-IsGood x s p h g q, all-IsGood x ss ps hs gs qs)

      module _ (s : IsSound C M.digest f.tool (keys_of staged) (s3.content c.at_write)) where
        -- an artifact that the index named before and still names
        kept-IsGood :
            (v x : Str) (a : Artifact)
            → artifact_at v x s.idx.versions ≡ some a
            → All (λ (t : StagedArtifact). (f.version == v && t.os_arch == x) ≡ false) staged
            → IsGood v x a
        kept-IsGood v x a h apart =
            let p = s.keyed v x a h in
            (
              p,
              elim (s.backed v x a h) [
                | inl open' ↦
                    absurd (cc (open', unpending f.tool f.version a.key v x staged parsed p apart))
                | inr b ↦
                    IsBacked-moved C M.digest f.tool a (s3.content c.at_write) (s3.content final)
                      (c.rest a.key (index_key-ne f.tool a.key v x p)) b
              ],
            )

        -- an artifact of the published index
        named-IsGood :
            (hs : All (IsStaged M f sums) staged)
            → (gs : All (HasFile M S s3 c.at_write) staged) → (v x : Str) (a : Artifact)
            → (if f.version == v
                then staged_or x staged (artifact_at v x s.idx.versions)
                else artifact_at v x s.idx.versions)
              ≡ some a
            → IsGood v x a
        named-IsGood hs gs v x a h = elim (Bool-cases (f.version == v)) [
          | inl y ↦
              let same = (eq_iff f.version v).0 y in
              subst (λ w. IsGood w x a) same
                (staged_or-elim (IsGood f.version x) x staged (artifact_at v x s.idx.versions)
                  (all-IsGood x staged parsed hs gs stable)
                  (λ b apart e.
                    subst (λ w. IsGood w x b) (sym same)
                      (kept-IsGood v x b e
                        (All-map _ _ (λ (t : StagedArtifact) n. rw (y, n) refl) staged apart)))
                  a (rw y at h))
          | inr n ↦
              kept-IsGood v x a (rw n at h) (All-of _ (λ (t : StagedArtifact). rw n refl) staged)
        ]

      -- The write of the index makes the bucket sound.
      published :
          IsLawful L
          → KeepsView C
          → All (IsStaged M f sums) staged
          → IsUploaded c.at_write
          → IsSound C M.digest f.tool [] (s3.content final)
      published law keeps hs (s, gs) =
          let same : s.idx ≡ c.old = ok_inj (sym s.read ∙ c.was) in
          let (j, run, pub') =
            publish_change_lem L clock f.tool f.version staged c.round c.old law
              (subst (λ (i : Index). IsDistinct i.versions) same s.distinct) in
          let changed : j ≡ c.changed = ok_inj (sym run ∙ c.change) in
          let (k, loaded, distinct, view) =
            keeps.kept c.changed c.text c.encoded
              (subst (λ (i : Index). IsDistinct i.versions) changed pub'.distinct) in
          let (o, at, body) = c.stored in
          let good = λ (v x : Str) (a : Artifact) (h : artifact_at v x k.versions ≡ some a).
            named-IsGood s hs gs v x a (
              subst
                (λ (i : Index).
                  (if f.version == v
                    then staged_or x staged (artifact_at v x i.versions)
                    else artifact_at v x i.versions)
                  ≡ some a)
                (sym same)
                (sym (pub'.artifacts v x)
                  ∙ ap (λ (i : Index). artifact_at v x i.versions) changed
                  ∙ sym (view v x)
                  ∙ h)) in
          record {
            idx = k;
            read = ap (index_in C f.tool) at ∙ ap (load C) body ∙ loaded;
            distinct = distinct;
            keyed = λ v x a h. (good v x a h).0;
            backed = λ v x a h. inr (good v x a h).1;
          }

    refused_keeps :
        (b b' : S.Bucket)
        → ((j : Str) → s3.content b' j ≡ s3.content b j)
        → IsUploaded b
        → IsUploaded b'
    refused_keeps b b' same (s, files) = (
      IsSound-moved C M.digest f.tool (keys_of staged) (keys_of staged) (s3.content b)
          (s3.content b') s (same (index_key f.tool)) (λ k p. p) (λ v x a _. inr (same a.key)),
      All-map (HasFile M S s3 b) (HasFile M S s3 b')
          (λ (t : StagedArtifact) (o, at, held). (o, same t.key ∙ at, held)) staged files,
    )

    -- A publish that succeeds, and not as a dry run, leaves a sound bucket sound. Others may do
    -- what they want before each read and each write that keeps the bucket sound but for the keys
    -- of the upload, and the uploaded files, and before each upload what leaves the objects below
    -- the tool's name. No two staged artifacts have one key, each key is read as the version and
    -- its os-arch, and the files do not change while they are published. S3, the version library
    -- and the codec are as documented.
    pub run_publish-IsSound :
        (L : Library) (u : Unicode) (others : Others S.Bucket) (clock : ℕ → ℕ → Instant)
        (b b' : S.Bucket)
        → IsLawful L
        → KeepsView C
        → IsExact S s3
        → f.dry_run ≡ false
        → stage_publish M f u (read_checksums M f u) ≡ ok staged
        → DistinctKeys staged
        → Keep IsUploaded others
        → Spares S s3 others (Under f.tool)
        → IsSound C M.digest f.tool [] (s3.content b)
        → run_publish M S L C u others clock f b ≡ (b', ok tt)
        → IsSound C M.digest f.tool [] (s3.content b')
    unfolding run_publish upload_and_index
    run_publish-IsSound L u others clock b b' law keeps exact wet run d keep spares s h =
        let change = publish_change L clock f.tool f.version staged in
        let (mid, up, idx) =
          next_ok M S s3 (update_index S C others f.tool change) (upload M S others 0 staged b) b'
            (rw (run, run_publish, upload_and_index, wet) at h) in
        let (c, at_write) =
          update_index-IsKept S s3 C f.tool others change IsUploaded keep
            (λ w t k w' e put y.
              refused_keeps w w' (exact.refused w (index_key f.tool) t k w' e put y))
            mid b' (uploaded others b mid spares d s up) idx in
        published (sums_of f (read_checksums M f u)) L clock b' c law keeps
          (subst (AllStaged M f (sums_of f (read_checksums M f u))) run
            (stage_publish-AllStaged M f u (read_checksums M f u)))
          at_write
