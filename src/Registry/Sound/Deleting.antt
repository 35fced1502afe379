-- ===== src/Registry/Sound/Deleting.antt =====
-- The keys that rm of cmd/s3reg deletes, and what a deletion leaves.
use s3_registry.Prelude.{
  ℕ, suc, ◌≡◌, refl, ◌∙◌, subst, true, false, ◌||◌, some, List, [], ◌∷◌, All, All-append, inl, inr,
  Bool-cases, arith,
}
use s3_registry.Text.{Str, ◌==◌, eq_iff}
use s3_registry.Dict.{Dict}
use s3_registry.Result.{Result, ok, err}
use s3_registry.Index.{Artifact, Version, entries}
use s3_registry.Store.{Service, delete_object}
use s3_registry.Store.Laws.{S3}
use s3_registry.Reindex.{parse_artifact_key}
use s3_registry.Update.{Others}
use s3_registry.Update.Relied.{Spares}
use s3_registry.Rm.{artifact_keys, removed_keys, delete_next, delete_all}
use s3_registry.Registry.Sound.{IsExact}
use s3_registry.Registry.Sound.Entries.{Each, EachOf}

-- A key of the version, and of the os-arch where one is given
abbrev pub IsRemovedKey : Str → Str → Str → Str → Type 0
IsRemovedKey tool version os_arch k =
    (x : Str) × (parse_artifact_key tool k ≡ some (version, x))
    × ((os_arch == [] || os_arch == x) ≡ true)

-- The index names each artifact at a key of its version and os-arch.
abbrev pub IsKeyed : Str → Str → Str → Artifact → Type 0
IsKeyed tool v x a = parse_artifact_key tool a.key ≡ some (v, x)

artifact_keys-IsRemovedKey :
    (tool version os_arch : Str) (m : Dict Artifact)
    → EachOf (IsKeyed tool) version m
    → All (IsRemovedKey tool version os_arch) (artifact_keys os_arch m)
unfolding artifact_keys
artifact_keys-IsRemovedKey tool version os_arch [] h = tt
artifact_keys-IsRemovedKey tool version os_arch ((x, a) ∷ m) (h, hs) =
    let rest = artifact_keys-IsRemovedKey tool version os_arch m hs in
    elim (Bool-cases (os_arch == [] || x == os_arch)) [
      | inl y ↦ rw y ((x, h, ground (arith, y, eq_iff x os_arch, eq_iff os_arch x)), rest)
      | inr n ↦ rw n rest
    ]

pub removed_keys-IsRemovedKey :
    (tool version os_arch : Str) (vs : List Version)
    → Each (IsKeyed tool) vs
    → All (IsRemovedKey tool version os_arch) (removed_keys version os_arch vs)
unfolding removed_keys
removed_keys-IsRemovedKey tool version os_arch [] h = tt
removed_keys-IsRemovedKey tool version os_arch (v ∷ vs) (h, hs) =
    let rest = removed_keys-IsRemovedKey tool version os_arch vs hs in
    elim (Bool-cases (v.version == version)) [
      | inl y ↦ rw y (
          All-append (IsRemovedKey tool version os_arch)
            (artifact_keys os_arch (entries v.artifacts)) _
            (artifact_keys-IsRemovedKey tool version os_arch (entries v.artifacts) (
              subst (λ w. EachOf (IsKeyed tool) w (entries v.artifacts))
                ((eq_iff v.version version).0 y) h))
            rest)
      | inr n ↦ rw n rest
    ]

module _ (S : Service) (s3 : S3 S) (exact : IsExact S s3) (others : Others S.Bucket)
    (K : Str → Type 0) (spares : Spares S s3 others K) where
  next_kept :
      (j : Str) (next : S.Bucket → S.Bucket × Result (Unit {0})) (x : S.Bucket × Result (Unit {0}))
      → ((b : S.Bucket) → s3.content (next b).0 j ≡ s3.content b j)
      → s3.content (delete_next S next x).0 j ≡ s3.content x.0 j
  next_kept j next (b, err e) h = refl
  next_kept j next (b, ok u) h = h b

  -- Deletions, however they end, leave the other objects that others spare.
  pub delete_all_kept :
      (j : Str)
      → K j
      → (n : ℕ) (ks : List Str) (b : S.Bucket) → All (λ k. k == j ≡ false) ks
      → s3.content (delete_all S others n ks b).0 j ≡ s3.content b j
  unfolding delete_all delete_object
  delete_all_kept j p i [] b h = refl
  delete_all_kept j p i (k ∷ ks) b (n, ns) =
      next_kept j (delete_all S others (suc i) ks) (delete_object S k (others.before_object i b))
        (λ c. delete_all_kept j p (suc i) ks c ns)
      ∙ exact.deleted (others.before_object i b) k j n
      ∙ spares i b j p
