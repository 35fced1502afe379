-- ===== src/Registry/Sound/Reindexing.antt =====
-- reindex of cmd/s3reg makes any bucket sound, at rest but for the index.
use s3_registry.Prelude.{
  ℕ, ◌≡◌, refl, sym, subst, ap, ◌∙◌, true, Option, none, some, some-injective, List, [], ◌∷◌, ◌++◌,
  All, All-map, length, arith, Bool-cases, inl, inr,
}
use s3_registry.Prelude.Int.{ℤ, pos}
use s3_registry.Text.{Str, codes, eq_iff}
use s3_registry.Dict.{Dict}
use s3_registry.Instant.{Instant}
use s3_registry.Result.{ok, ok_inj}
use s3_registry.Semver.{Library, IsLawful}
use s3_registry.Index.{Artifact, Index}
use s3_registry.Index.View.{artifact_at, IsDistinct}
use s3_registry.Store.{Service, Codec, index_key, get_index, get_object, load}
use s3_registry.Store.Listing.{Object, list_objects}
use s3_registry.Store.Laws.{Stored, S3, IsUp, index_in}
use s3_registry.Update.{Others, update_index, max_attempts}
use s3_registry.Update.Atomic.{Committed}
use s3_registry.Update.Relied.{Keep, update_index-IsKept}
use s3_registry.Verify.{hash_object}
use s3_registry.Reindex.{parse_artifact_key, current_times, rebuild, reindex_listed, run_reindex}
use s3_registry.Reindex.Objects.{is_at, last_artifact, described}
use s3_registry.Reindex.Rebuilt.{IsRebuilt, rebuild_lem}
use s3_registry.Reindex.Overwriting.{replace, write_rounds_lem}
use s3_registry.Registry.{KeepsView}
use s3_registry.Registry.Sound.{IsBacked, IsSound, IsExact}
use s3_registry.Registry.Sound.Moved.{index_key-ne}

-- What the objects name is the artifact of one of them.
last_artifact-elim {κ} :
    (tool : Str) (sums : Str → Str × ℤ) (P : Artifact → Type κ) (v x : Str) (objs : List Object)
    (o : Option Artifact)
    → All
        (λ (obj : Object).
          is_at tool sums v x (parse_artifact_key tool obj.key) ≡ true
          → P (described tool sums obj))
        objs
    → ((a : Artifact) → o ≡ some a → P a)
    → (a : Artifact) → last_artifact tool sums v x objs o ≡ some a
    → P a
last_artifact-elim tool sums P v x [] o new old a h = old a h
last_artifact-elim tool sums P v x (obj ∷ objs) o (n, new) old a h =
    last_artifact-elim tool sums P v x objs _ new
      (λ c e. elim (Bool-cases (is_at tool sums v x (parse_artifact_key tool obj.key))) [
        | inl y ↦ subst P (some-injective _ _ (rw y at e)) (n y)
        | inr z ↦ old c (rw z at e)
      ])
      a h

is_at-eq :
    (tool : Str) (sums : Str → Str × ℤ) (v x : Str) (o : Option (Str × Str))
    → is_at tool sums v x o ≡ true
    → o ≡ some (v, x)
is_at-eq tool sums v x none h = absurd (cc)
is_at-eq tool sums v x (some (w, y)) h = ground (arith, eq_iff w v, eq_iff y x)

module _ (L : Library) (law : IsLawful L) (S : Service) (s3 : S3 S) (up : IsUp S s3) (C : Codec)
    (digest : Str → Str) (clock : ℕ → Instant) (tool : Str) (b : S.Bucket) where
  -- The objects at the keys of the tool's artifacts are those of the start.
  abbrev pub IsAtRest : S.Bucket → Type 0
  IsAtRest c =
      (k : Str) (p : Str × Str)
      → parse_artifact_key tool k ≡ some p
      → s3.content c k ≡ s3.content b k

  -- The objects of a listing are there.
  abbrev pub AreThere : List Object → Type 0
  AreThere = All (λ (obj : Object). (o : Stored) × (s3.content b obj.key ≡ some o))

  abbrev sum_of : Option Stored → Str × ℤ
  sum_of none = ([], pos 0)
  sum_of (some o) = (digest o.body, pos (length o.body))

  abbrev sums : Str → Str × ℤ
  sums k = sum_of (s3.content b k)

  hashed : (k : Str) (o : Stored) → s3.content b k ≡ some o → hash_object S digest b k ≡ ok (sums k)
  unfolding hash_object get_object
  hashed k o at = rw at (ground (arith, (up.reads b k o at).1))

  module _ (keeps : KeepsView C) (exact : IsExact S s3) (objs : List Object) (there : AreThere objs)
      (idx : Index) (known : Str → Option Instant) (built : IsRebuilt tool sums L known objs idx)
      (final : S.Bucket) (others : Others S.Bucket)
      (c : Committed S s3 C tool (replace S C others tool idx) final)
      (rest : IsAtRest c.at_write) where
    abbrev IsGood : Str → Str → Artifact → Type 0
    IsGood v x a =
        (parse_artifact_key tool a.key ≡ some (v, x)) × IsBacked digest (s3.content final) a

    object-IsGood :
        (v x : Str) (obj : Object)
        → ((o : Stored) × (s3.content b obj.key ≡ some o))
        → is_at tool sums v x (parse_artifact_key tool obj.key) ≡ true
        → IsGood v x (described tool sums obj)
    object-IsGood v x obj (o, at) h =
        let p = is_at-eq tool sums v x (parse_artifact_key tool obj.key) h in
        (
          p,
          (
            o,
            c.rest obj.key (index_key-ne tool obj.key v x p) ∙ rest obj.key (v, x) p ∙ at,
            ap (λ o. (sum_of o).0) (sym at),
            ap (λ o. (sum_of o).1) at,
          ),
        )

    rewritten : IsSound C digest tool [] (s3.content final)
    rewritten =
        let same : idx ≡ c.changed = ok_inj c.change in
        let (k, loaded, distinct, view) =
          keeps.kept c.changed c.text c.encoded
            (subst (λ (i : Index). IsDistinct i.versions) same built.distinct) in
        let (o, at, body) = c.stored in
        let good = λ (v x : Str) (a : Artifact) (h : artifact_at v x k.versions ≡ some a).
          last_artifact-elim tool sums (IsGood v x) v x objs none
            (All-map _
              (λ (obj : Object).
                is_at tool sums v x (parse_artifact_key tool obj.key) ≡ true
                → IsGood v x (described tool sums obj))
              (λ obj t. object-IsGood v x obj t) objs there)
            (λ d e. absurd (cc e)) a
            (sym (built.artifacts v x)
              ∙ ap (λ (i : Index). artifact_at v x i.versions) same
              ∙ sym (view v x)
              ∙ h) in
        record {
          idx = k;
          read = ap (index_in C tool) at ∙ ap (load C) body ∙ loaded;
          distinct = distinct;
          keyed = λ v x a h. (good v x a h).0;
          backed = λ v x a h. inr (good v x a h).1;
        }

  module _ (keeps : KeepsView C) (exact : IsExact S s3) (others : Others S.Bucket)
      (rely : Keep IsAtRest others) where
    listed-IsSound :
        (objs : List Object) (idx : Index) (known : Str → Option Instant) (b' : S.Bucket)
        → AreThere objs
        → rebuild L (hash_object S digest b) clock tool objs (get_index S C tool b) ≡ ok idx
        → IsRebuilt tool sums L known objs idx
        → reindex_listed L S C digest others clock tool objs b ≡ (b', ok tt)
        → IsSound C digest tool [] (s3.content b')
    unfolding reindex_listed update_index
    listed-IsSound objs idx known b' there run built h =
        let (c, rest) =
          update_index-IsKept S s3 C tool others (replace S C others tool idx) IsAtRest rely
            (λ w t k w' e put y at_rest j p q.
              exact.refused w (index_key tool) t k w' e put y j ∙ at_rest j p q)
            b b' (λ k p q. refl)
            (sym (write_rounds_lem S C others tool idx max_attempts 0 b)
              ∙ rw (run, reindex_listed) at h) in
        rewritten keeps exact objs there idx known built b' others c rest

    -- A reindex that succeeds makes any bucket sound, at a service that answers, if the listing ends and
    -- names objects that are there, and the current index, where there is one, can be read. Others may
    -- do before each read and each write of its loop what leaves the objects at the keys of the tool's
    -- artifacts. S3, the version library and the codec are as documented.
    pub run_reindex-IsSound :
        (fuel : ℕ) (objs : List Object) (created : Dict Instant) (b' : S.Bucket)
        → list_objects S fuel (tool ++ codes "/") none [] b ≡ some (ok objs)
        → AreThere objs
        → current_times (get_index S C tool b) ≡ ok created
        → run_reindex L S C digest others clock tool fuel b ≡ some (b', ok tt)
        → IsSound C digest tool [] (s3.content b')
    unfolding run_reindex
    run_reindex-IsSound fuel objs created b' listing there times h =
        let (idx, run, built) =
          rebuild_lem tool sums L law (hash_object S digest b) clock objs (get_index S C tool b)
            created
            (All-map _ (λ (obj : Object). hash_object S digest b obj.key ≡ ok (sums obj.key))
              (λ (obj : Object) t. hashed obj.key t.0 t.1) objs there)
            times in
        listed-IsSound objs idx _ b' there run built
          (some-injective _ _ (rw (listing, run_reindex) at h))
