-- ===== src/Registry/Sound/Verifying.antt =====
-- verify of cmd/s3reg on a sound bucket.
use s3_registry.Prelude.{◌≡◌, refl, sym, ◌∙◌, ap, true, some, List, [], ◌∷◌, inl, inr, arith}
use s3_registry.Text.{Str, eq_iff, contains}
use s3_registry.Dict.{Dict}
use s3_registry.Result.{ok}
use s3_registry.Index.{Artifact, Version, entries}
use s3_registry.Store.{Service, Codec, index_key, get_index, get_object, load}
use s3_registry.Store.Laws.{Stored, S3, IsUp, index_in}
use s3_registry.Verify.{run_verify}
use s3_registry.Verify.Matching.{matches, all_match, every_match, artifact_count, run_verify_lem}
use s3_registry.Registry.Sound.{IsBacked, IsSound, DecodesMaps}
use s3_registry.Registry.Sound.Entries.{Each, EachOf, Each-artifact_at, index_in-IsMaps}

module _ (S : Service) (s3 : S3 S) (up : IsUp S s3) (digest : Str → Str) (b : S.Bucket) where
  abbrev Matches : Str → Str → Artifact → Type 0
  Matches v x a = matches S digest b a ≡ true

  -- An object that is as the index says passes the check.
  backed-matches : (a : Artifact) → IsBacked digest (s3.content b) a → matches S digest b a ≡ true
  unfolding get_object
  backed-matches a (o, at, sum, size) =
      ground (arith, (up.reads b a.key o at).1, (eq_iff (digest o.body) a.sha256).1 sum)

  all_match-EachOf :
      (v : Str) (m : Dict Artifact) → EachOf Matches v m → all_match S digest b m ≡ true
  all_match-EachOf v [] h = refl
  all_match-EachOf v ((x, a) ∷ m) (h, hs) = rw (h, all_match-EachOf v m hs) refl

  every_match-Each :
      (version : Str) (vs : List Version)
      → Each Matches vs
      → every_match S digest b version vs ≡ true
  every_match-Each version [] h = refl
  every_match-Each version (v ∷ vs) (h, hs) =
      ground
        (arith, all_match-EachOf v.version (entries v.artifacts) h, every_match-Each version vs hs)

  -- verify of a sound bucket with an index succeeds, at a service that answers: it checks every artifact
  -- of the index, or of the one version that is asked for.
  pub run_verify-passes :
      (C : Codec) (tool version : Str) (s : IsSound C digest tool [] (s3.content b)) (o : Stored)
      → DecodesMaps C
      → s3.content b (index_key tool) ≡ some o
      → run_verify S digest b C tool version ≡ ok (artifact_count S digest b version s.idx.versions)
  unfolding get_index
  run_verify-passes C tool version s o maps at =
      let loaded : load C o.body ≡ ok s.idx = sym (ap (index_in C tool) at) ∙ s.read in
      let got : get_index S C tool b ≡ ok (s.idx, o.etag) =
        rw ((up.reads b (index_key tool) o at).1, loaded) refl in
      run_verify_lem S digest b C tool version o.etag s.idx got
      ∙ rw
          (every_match-Each version s.idx.versions (
            Each-artifact_at Matches s.idx.versions s.distinct
              (index_in-IsMaps C tool (s3.content b (index_key tool)) s.idx maps s.read)
              (λ v x a h. elim (s.backed v x a h) [
                | inl p ↦ absurd (unfold contains in (cc p))
                | inr k ↦ backed-matches a k
              ])))
          refl
