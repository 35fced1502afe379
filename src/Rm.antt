-- ===== src/Rm.antt =====
-- cmd/s3reg/rm.go: the keys of what is removed, the change of the index and the deletions after it.
-- `rest` of the index's map is read in the order in which `range` gives its entries.
pub mod Deletion
pub mod Removed
use s3_registry.Prelude.{
  ℕ, suc, Bool, true, false, not, ◌&&◌, ◌||◌, List, [], ◌∷◌, ◌++◌, if◌then◌else◌,
}
use s3_registry.Text.{Str, codes, ◌==◌}
use s3_registry.Dict.{Dict}
use s3_registry.Instant.{Instant}
use s3_registry.Result.{Result, ok, err, usage, nothing_to_remove, ◌>>=◌}
use s3_registry.Index.{Artifact, Version, Index, entries, remove}
use s3_registry.Store.{Service, Codec, get_index, delete_object}
use s3_registry.Update.{Others, update_index}

-- osName + "-" + arch, or empty without them
unfoldable pub os_arch_of : Str → Str → Str
os_arch_of os arch = if os == [] then [] else os ++ codes "-" ++ arch

-- the inner loop: the keys of the artifacts of a version that are meant
unfoldable pub artifact_keys : Str → Dict Artifact → List Str
artifact_keys os_arch [] = []
artifact_keys os_arch ((oa, a) ∷ rest) =
    let keys = artifact_keys os_arch rest in
    if os_arch == [] || oa == os_arch then a.key ∷ keys else keys

-- the outer loop, over the versions
unfoldable pub removed_keys : Str → Str → List Version → List Str
unfolding artifact_keys
removed_keys version os_arch [] = []
removed_keys version os_arch (v ∷ vs) =
    let keys = removed_keys version os_arch vs in
    if v.version == version then artifact_keys os_arch (entries v.artifacts) ++ keys else keys

-- the change of the index, with the clock at each attempt
unfoldable pub rm_change : (ℕ → Instant) → Str → Str → ℕ → Index → Result Index
unfolding remove
rm_change clock version os_arch attempt i = do
  (j, removed) ← remove (clock attempt) version os_arch i
  ok j

module _ (S : Service) where
  open S use {Bucket}

  abbrev pub delete_next :
      (Bucket → Bucket × Result (Unit {0}))
      → Bucket × Result (Unit {0})
      → Bucket × Result (Unit {0})
  delete_next next (b, err e) = (b, err e)
  delete_next next (b, ok _) = next b

  -- the loop over the keys, from a number on, with what others do before each deletion
  unfoldable pub delete_all : Others Bucket → ℕ → List Str → Bucket → Bucket × Result (Unit {0})
  unfolding delete_object
  delete_all others n [] b = (b, ok tt)
  delete_all others n (k ∷ ks) b =
      delete_next (delete_all others (suc n) ks) (delete_object S k (others.before_object n b))

  module _ (C : Codec) (others : Others Bucket) (clock : ℕ → Instant) (tool version : Str) where
    -- from `len(keys) == 0` on
    unfoldable pub remove_then_delete : Str → List Str → Bucket → Bucket × Result (Unit {0})
    unfolding rm_change update_index delete_all
    remove_then_delete os_arch [] b = (b, err (nothing_to_remove tool version os_arch))
    remove_then_delete os_arch (k ∷ ks) b =
        delete_next (delete_all others 0 (k ∷ ks))
          (update_index S C others tool (rm_change clock version os_arch) b)

    -- runRm
    unfoldable pub run_rm : Str → Str → Bucket → Bucket × Result (Unit {0})
    unfolding os_arch_of removed_keys remove_then_delete get_index
    run_rm os arch b =
        if (os == [] && not (arch == [])) || (not (os == []) && arch == [])
        then (b, err (usage (codes "--os and --arch must be given together")))
        else elim (get_index S C tool b) [
          | err e ↦ (b, err e)
          | ok (idx, etag) ↦
              remove_then_delete (os_arch_of os arch)
                (removed_keys version (os_arch_of os arch) idx.versions) b
        ]
