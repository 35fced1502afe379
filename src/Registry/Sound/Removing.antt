-- ===== src/Registry/Sound/Removing.antt =====
-- rm of cmd/s3reg on a sound bucket: what it deletes is named by the index no more.
use s3_registry.Prelude.{
  ℕ, ◌≡◌, refl, sym, ◌∙◌, ap, subst, true, false, Bool, ◌&&◌, ◌||◌, Option, none, some, List, [],
  ◌∷◌, All, All-map, ◌⊎◌, inl, inr, arith, if◌then◌else◌,
}
use s3_registry.Text.{Str, ◌==◌, eq_iff, contains}
use s3_registry.Instant.{Instant}
use s3_registry.Result.{Error, Result, ok, err, ok_inj}
use s3_registry.Index.{Artifact, Index}
use s3_registry.Index.View.{artifact_at, IsDistinct}
use s3_registry.Index.Remove.{remove_lem}
use s3_registry.Store.{Service, Codec, load, index_key, get_index}
use s3_registry.Store.Laws.{S3, index_in}
use s3_registry.Update.{Others, update_index}
use s3_registry.Update.Atomic.{Committed}
use s3_registry.Update.Reading.{index_in-get_index}
use s3_registry.Update.Relied.{Keep, Spares, update_index-IsKept}
use s3_registry.Reindex.{parse_artifact_key}
use s3_registry.Publish.Upload.{eq_swap}
use s3_registry.Rm.{removed_keys, rm_change, delete_all, run_rm, os_arch_of}
use s3_registry.Rm.Deletion.{IsRmRun, run_rm-IsRmRun}
use s3_registry.Registry.{KeepsView}
use s3_registry.Registry.Sound.{IsSound, IsExact, DecodesMaps}
use s3_registry.Registry.Sound.Entries.{Each-artifact_at, index_in-IsMaps}
use s3_registry.Registry.Sound.Moved.{
  Under, index_key-Under, parsed-Under, index_key-ne, parsed-ne, IsSound-moved, IsBacked-moved,
}
use s3_registry.Registry.Sound.Deleting.{
  IsRemovedKey, IsKeyed, removed_keys-IsRemovedKey, delete_all_kept,
}

-- What is left where a test removes
left_over :
    {A : Type 0} (t : Bool) (o : Option A) (a : A)
    → (if t then none else o) ≡ some a
    → (t ≡ false) × (o ≡ some a)
left_over true o a h = absurd (cc)
left_over false o a h = (refl, h)

module _ (S : Service) (s3 : S3 S) (C : Codec) (digest : Str → Str) (clock : ℕ → Instant)
    (tool version os arch : Str) where
  abbrev os_arch : Str
  os_arch = os_arch_of os arch

  abbrev pub IsSoundAt : S.Bucket → Type 0
  IsSoundAt b = IsSound C digest tool [] (s3.content b)

  -- The index names nothing that the removal means.
  abbrev IsRid : {b : S.Bucket} → IsSoundAt b → Type 0
  IsRid s =
      (v x : Str) (a : Artifact)
      → artifact_at v x s.idx.versions ≡ some a
      → (version == v && (os_arch == [] || os_arch == x)) ≡ false

  -- The write of the index keeps the bucket sound, and rids the index of what is removed.
  removed :
      (final : S.Bucket) (c : Committed S s3 C tool (rm_change clock version os_arch) final)
      → KeepsView C
      → IsSoundAt c.at_write
      → (s : IsSoundAt final) × IsRid {b = final} s
  unfolding rm_change
  removed final c keeps s =
      let same : s.idx ≡ c.old = ok_inj (sym s.read ∙ c.was) in
      let (j, done', run, p) =
        remove_lem (clock c.round) version os_arch c.old
          (subst (λ (i : Index). IsDistinct i.versions) same s.distinct) in
      let ran : rm_change clock version os_arch c.round c.old ≡ ok j = rw (run, rm_change) refl in
      let changed : j ≡ c.changed = ok_inj (sym ran ∙ c.change) in
      let (k, loaded, distinct, view) =
        keeps.kept c.changed c.text c.encoded
          (subst (λ (i : Index). IsDistinct i.versions) changed p.distinct) in
      let (o, at, body) = c.stored in
      let left = λ (v x : Str) (a : Artifact) (h : artifact_at v x k.versions ≡ some a).
        left_over (version == v && (os_arch == [] || os_arch == x)) (artifact_at v x s.idx.versions)
          a
          (subst
            (λ (i : Index).
              (if version == v && (os_arch == [] || os_arch == x)
                then none
                else artifact_at v x i.versions)
              ≡ some a)
            (sym same)
            (sym (p.artifacts v x)
              ∙ ap (λ (i : Index). artifact_at v x i.versions) changed
              ∙ sym (view v x)
              ∙ h)) in
      (
        record {
          idx = k;
          read = ap (index_in C tool) at ∙ ap (load C) body ∙ loaded;
          distinct = distinct;
          keyed = λ v x a h. s.keyed v x a (left v x a h).1;
          backed = λ v x a h.
              let old = (left v x a h).1 in
              elim (s.backed v x a old) [
                | inl p ↦ absurd (unfold contains in (cc p))
                | inr b ↦ inr (
                    IsBacked-moved C digest tool a (s3.content c.at_write) (s3.content final)
                      (c.rest a.key (index_key-ne tool a.key v x (s.keyed v x a old))) b)
              ];
        },
        λ v x a h. (left v x a h).0,
      )

  -- A key of the removal differs from the key of what the index still names.
  unremoved :
      (v x : Str) (a : Artifact) (k : Str)
      → parse_artifact_key tool a.key ≡ some (v, x)
      → (version == v && (os_arch == [] || os_arch == x)) ≡ false
      → IsRemovedKey tool version os_arch k
      → k == a.key ≡ false
  unremoved v x a k p rid (y, q, meant) =
      parsed-ne tool k a.key version y v x q p (ground (arith, rid, meant, eq_iff y x))

  -- The deletions after that leave the bucket sound, wherever they end.
  deleted :
      (others : Others S.Bucket) (spares : Spares S s3 others (Under tool)) (mid : S.Bucket)
      (ks : List Str) (s : IsSoundAt mid)
      → IsExact S s3
      → IsRid {b = mid} s
      → All (IsRemovedKey tool version os_arch) ks
      → IsSoundAt (delete_all S others 0 ks mid).0
  deleted others spares mid ks s exact rid meant =
      IsSound-moved C digest tool [] [] (s3.content mid)
        (s3.content (delete_all S others 0 ks mid).0) s
        (delete_all_kept S s3 exact others (Under tool) spares (index_key tool)
          (index_key-Under tool) 0 ks mid
          (All-map (IsRemovedKey tool version os_arch) (λ k. k == index_key tool ≡ false)
            (λ k (y, q, _). eq_swap (index_key tool) k (index_key-ne tool k version y q)) ks meant))
        (λ k p. p)
        (λ v x a h. inr (
          delete_all_kept S s3 exact others (Under tool) spares a.key
            (parsed-Under tool a.key v x (s.keyed v x a h)) 0 ks mid
            (All-map (IsRemovedKey tool version os_arch) (λ k. k == a.key ≡ false)
              (λ k q. unremoved v x a k (s.keyed v x a h) (rid v x a h) q) ks meant)))

  module _ (others : Others S.Bucket) (b : S.Bucket) where
    abbrev IsFailedUpdate : S.Bucket × Result (Unit {0}) → Type 0
    IsFailedUpdate (b', r) =
        (e : Error) × (update_index S C others tool (rm_change clock version os_arch) b
          ≡ (b', err e))
        × (r ≡ err e)

    start_keys :
        (idx : Index) (etag : Str)
        → DecodesMaps C
        → (s : IsSoundAt b) → get_index S C tool b ≡ ok (idx, etag)
        → All (IsRemovedKey tool version os_arch) (removed_keys version os_arch idx.versions)
    start_keys idx etag maps s g =
        let read = index_in-get_index S s3 C tool b idx etag g in
        let same : s.idx ≡ idx = ok_inj (sym s.read ∙ read) in
        removed_keys-IsRemovedKey tool version os_arch idx.versions (
          Each-artifact_at (IsKeyed tool) idx.versions
            (subst (λ (i : Index). IsDistinct i.versions) same s.distinct)
            (index_in-IsMaps C tool (s3.content b (index_key tool)) idx maps read)
            (λ v x a h.
              s.keyed v x a
                (subst (λ (i : Index). artifact_at v x i.versions ≡ some a) (sym same) h)))

    after_run :
        (x : S.Bucket × Result (Unit {0}))
        → KeepsView C
        → DecodesMaps C
        → IsExact S s3
        → Keep IsSoundAt others
        → Spares S s3 others (Under tool)
        → IsSoundAt b
        → IsRmRun S s3 C others clock tool version os arch b x
        → IsSoundAt x.0 ⊎ IsFailedUpdate x
    after_run (b', r) keeps maps exact keep spares s (inl (same, _)) =
        inl (subst IsSoundAt (sym same) s)
    after_run (b', r) keeps maps exact keep spares s (inr (inl failed')) = inr failed'
    after_run (b', r) keeps maps exact keep spares s
          (inr (inr (idx, etag, mid, g, k, ks, named, up, _, run))) =
        let (c, at_write) =
          update_index-IsKept S s3 C tool others (rm_change clock version os_arch) IsSoundAt keep
            (λ w t k' w' e put y s'.
              IsSound-moved C digest tool [] [] (s3.content w) (s3.content w') s'
                (exact.refused w (index_key tool) t k' w' e put y (index_key tool)) (λ _ p. p)
                (λ v x a _. inr (exact.refused w (index_key tool) t k' w' e put y a.key)))
            b mid s up in
        let (s', rid) = removed mid c keeps at_write in
        let meant =
          subst (All (IsRemovedKey tool version os_arch)) named (start_keys idx etag maps s g) in
        inl (
          subst IsSoundAt (ap (λ (x : S.Bucket × Result (Unit {0})). x.0) run)
            (deleted others spares mid (k ∷ ks) s' exact rid meant))

    -- rm leaves a sound bucket sound, whatever it returns, unless its update of the index fails. Others may
    -- do what keeps the bucket sound, until the index is written, and before each deletion what leaves the
    -- objects below the tool's name. S3 and the codec are as documented.
    pub run_rm-IsSound :
        KeepsView C
        → DecodesMaps C
        → IsExact S s3
        → Keep IsSoundAt others
        → Spares S s3 others (Under tool)
        → IsSoundAt b
        → IsSoundAt (run_rm S C others clock tool version os arch b).0
          ⊎ IsFailedUpdate (run_rm S C others clock tool version os arch b)
    run_rm-IsSound keeps maps exact keep spares s =
        after_run _ keeps maps exact keep spares s
          (run_rm-IsRmRun S s3 C others clock tool version os arch b)
