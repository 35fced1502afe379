-- ===== src/Rm/Deletion.antt =====
-- What runRm deletes, and when.
use s3_registry.Prelude.{
  ℕ, ◌≡◌, ◌≢◌, refl, not, ◌&&◌, ◌||◌, List, [], ◌∷◌, ◌⊎◌, inl, inr, Bool-cases,
}
use s3_registry.Text.{Str, ◌==◌}
use s3_registry.Instant.{Instant}
use s3_registry.Result.{Error, Result, ok, err}
use s3_registry.Index.{Index}
use s3_registry.Store.{Service, Codec, get_index}
use s3_registry.Store.Laws.{S3}
use s3_registry.Update.{Others, update_index}
use s3_registry.Update.Atomic.{Committed, update_index-Committed}
use s3_registry.Rm.{
  os_arch_of, removed_keys, rm_change, delete_next, delete_all, remove_then_delete, run_rm,
}

module _ (S : Service) (s3 : S3 S) (C : Codec) (others : Others S.Bucket) (clock : ℕ → Instant)
    (tool version os arch : Str) (b : S.Bucket) where
  abbrev pub os_arch : Str
  os_arch = os_arch_of os arch

  abbrev pub change : ℕ → Index → Result Index
  change = rm_change clock version os_arch

  -- How runRm may end: before any write; with an update that failed, and nothing deleted; or with the
  -- deletion of the keys that the index named at the start, after the update committed.
  abbrev pub IsRmRun : S.Bucket × Result (Unit {0}) → Type 0
  IsRmRun (b', r) =
      ((b' ≡ b) × (r ≢ ok tt))
      ⊎ (((e : Error) × (update_index S C others tool change b ≡ (b', err e)) × (r ≡ err e))
          ⊎ ((idx : Index) × (etag : Str) × (mid : S.Bucket) × (get_index S C tool b
                ≡ ok (idx, etag))
              × (k : Str) × (ks : List Str) × (removed_keys version os_arch idx.versions ≡ k ∷ ks)
              × (update_index S C others tool change b ≡ (mid, ok tt))
              × Committed S s3 C tool change mid
              × (delete_all S others 0 (k ∷ ks) mid ≡ (b', r))))

  updated :
      (idx : Index) (etag k : Str) (ks : List Str) (x : S.Bucket × Result (Unit {0}))
      → get_index S C tool b ≡ ok (idx, etag)
      → removed_keys version os_arch idx.versions ≡ k ∷ ks
      → update_index S C others tool change b ≡ x
      → IsRmRun (delete_next S (delete_all S others 0 (k ∷ ks)) x)
  updated idx etag k ks (mid, err e) g named u = inr (inl (e, u, refl))
  updated idx etag k ks (mid, ok t) g named u = inr (
      inr (
        idx,
        etag,
        mid,
        g,
        k,
        ks,
        named,
        u,
        update_index-Committed S s3 C tool others change b mid u,
        refl,
      ))

  with_keys :
      (idx : Index) (etag : Str) (ks : List Str)
      → get_index S C tool b ≡ ok (idx, etag)
      → removed_keys version os_arch idx.versions ≡ ks
      → IsRmRun (remove_then_delete S C others clock tool version os_arch ks b)
  unfolding remove_then_delete
  with_keys idx etag [] g named = inl (refl, λ e. cc e)
  with_keys idx etag (k ∷ ks) g named = updated idx etag k ks _ g named refl

  with_index :
      (r : Result (Index × Str))
      → get_index S C tool b ≡ r
      → IsRmRun (elim r [
        | err e ↦ (b, err e)
        | ok (idx, etag) ↦
            remove_then_delete S C others clock tool version os_arch
              (removed_keys version os_arch idx.versions)
              b
      ])
  with_index (err e) g = inl (refl, λ h. cc h)
  with_index (ok (idx, etag)) g = with_keys idx etag _ g refl

  -- A run of rm that writes anything deletes objects only after the index was written without them: an
  -- update that fails leaves all objects, and a deletion follows an atomic removal from the index.
  pub run_rm-IsRmRun : IsRmRun (run_rm S C others clock tool version os arch b)
  unfolding run_rm
  run_rm-IsRmRun =
      elim (Bool-cases ((os == [] && not (arch == [])) || (not (os == []) && arch == []))) [
        | inl y ↦ rw y (inl (refl, λ h. cc h))
        | inr n ↦ rw n (with_index (get_index S C tool b) refl)
      ]
