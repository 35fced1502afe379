-- ===== src/Publish/Staging.antt =====
-- What publish stages: the entries of a dist directory, or one file.
use s3_registry.Prelude.{
  ◌≡◌, refl, sym, subst, ap, ◌∙◌, true, false, not, ◌||◌, Option, none, some, List, [], ◌∷◌, ◌++◌,
  Option-cases, Bool-cases, inl, inr, length, All, arith, if◌then◌else◌,
}
use s3_registry.Prelude.Int.{pos}
use s3_registry.Text.{Str, codes, ◌==◌, eq_iff}
use s3_registry.Dict.{Dict, lookup}
use s3_registry.Result.{Result, ok, err, ◌>>=◌}
use s3_registry.Text.Unicode.{Unicode}
use s3_registry.Dist.{is_archive, infer_os_arch}
use s3_registry.Publish.{
  Machine, PublishFlags, StagedArtifact, DirEntry, artifact_key, check_sum, staged_with, hash_file,
  stage, stage_single, stage_archive, stage_entry, stage_entries, stage_dist, stage_publish,
  some_staged,
}

-- An entry that is staged agrees with the checksums file, where one is given.
abbrev pub Agrees : Option (Dict Str) → Str → Str → Type 0
Agrees none name sum = Unit
Agrees (some sums) name sum = lookup name sums ≡ some sum

-- A staged artifact describes the file that it uploads, at a key of the published version.
abbrev pub IsStaged : Machine → PublishFlags → Option (Dict Str) → StagedArtifact → Type 0
IsStaged M f sums s =
    (body : Str) × (M.read s.path ≡ ok body)
    × (s.art.key ≡ s.key)
    × (s.art.sha256 ≡ M.digest body)
    × (s.art.size ≡ pos (length body))
    × ((name : Str) × (s.key ≡ artifact_key f.tool f.version s.os_arch name)
        × Agrees sums name s.art.sha256)

abbrev pub AllStaged :
    Machine → PublishFlags → Option (Dict Str) → Result (List StagedArtifact) → Type 0
AllStaged M f sums (err e) = Unit
AllStaged M f sums (ok ss) = All (IsStaged M f sums) ss

-- The checksums that count: those of the file in dist mode, and none for a single file.
abbrev pub sums_of : PublishFlags → Result (Option (Dict Str)) → Option (Dict Str)
sums_of f (err e) = none
sums_of f (ok sums) = if f.file == [] then sums else none

check_sum-Agrees :
    (c : Option (Dict Str)) (name sum : Str) → check_sum c name sum ≡ ok tt → Agrees c name sum
unfolding check_sum
check_sum-Agrees none name sum h = tt
check_sum-Agrees (some sums) name sum h = elim (Option-cases (lookup name sums)) [
  | inl e ↦ absurd (ground (arith, e))
  | inr (want, e) ↦ e ∙ ap some ((eq_iff want sum).0 (ground (arith, e)))
]

module _ (M : Machine) (f : PublishFlags) where
  stage-IsStaged :
      (os_arch name path body : Str) (sums : Option (Dict Str))
      → M.read path ≡ ok body
      → Agrees sums name (M.digest body)
      → IsStaged M f sums (stage M f os_arch name path (M.digest body) (pos (length body)))
  unfolding stage
  stage-IsStaged os_arch name path body sums h a = (body, h, refl, refl, refl, (name, refl, a))

  single_staged : AllStaged M f none (stage_single M f)
  unfolding stage_single hash_file
  single_staged = elim (Bool-cases (f.os == [] || f.arch == [])) [
    | inl y ↦ rw y tt
    | inr n ↦ rw n (go (M.read f.file) refl)
  ]
    where
      go :
          (r : Result Str)
          → M.read f.file ≡ r
          → AllStaged M f none (do
            (sum, size) ← (do body ← r; ok (M.digest body, pos (length body)))
            ok (stage M f (f.os ++ codes "-" ++ f.arch) (M.base f.file) f.file sum size ∷ []))
      go (err e) q = tt
      go (ok body) q =
          (stage-IsStaged (f.os ++ codes "-" ++ f.arch) (M.base f.file) f.file body none q tt, tt)

  -- One entry of the directory: skipped, refused, or staged.
  abbrev EntryStaged : Option (Dict Str) → Result (Option StagedArtifact) → Type 0
  EntryStaged sums (err e) = Unit
  EntryStaged sums (ok none) = Unit
  EntryStaged sums (ok (some s)) = IsStaged M f sums s

  archive_staged :
      (sums : Option (Dict Str)) (name goos goarch : Str)
      → EntryStaged sums (stage_archive M f sums name (goos, goarch))
  unfolding stage_archive hash_file
  archive_staged sums name goos goarch = go (M.read (M.join f.dist name)) refl
    where
      staged : Str → StagedArtifact
      staged body =
          stage M f (goos ++ codes "-" ++ goarch) name (M.join f.dist name) (M.digest body)
            (pos (length body))

      checked :
          (body : Str) (c : Result (Unit {0}))
          → M.read (M.join f.dist name) ≡ ok body
          → check_sum sums name (M.digest body) ≡ c
          → EntryStaged sums (do _ ← c; ok (some (staged body)))
      checked body (err e) q k = tt
      checked body (ok u) q k =
          stage-IsStaged (goos ++ codes "-" ++ goarch) name (M.join f.dist name) body sums q
            (check_sum-Agrees sums name (M.digest body) k)

      go :
          (r : Result Str)
          → M.read (M.join f.dist name) ≡ r
          → EntryStaged sums (do
            (computed, size) ← (do body ← r; ok (M.digest body, pos (length body)))
            _ ← check_sum sums name computed
            ok (
                some (
                  stage M f (goos ++ codes "-" ++ goarch) name (M.join f.dist name) computed size)))
      go (err e) q = tt
      go (ok body) q = checked body _ q refl

  entry_staged :
      (u : Unicode) (sums : Option (Dict Str)) (e : DirEntry)
      → EntryStaged sums (stage_entry M f u sums e)
  unfolding stage_entry
  entry_staged u sums e = elim (Bool-cases (e.is_dir || not (is_archive u e.name))) [
    | inl y ↦ rw y tt
    | inr n ↦ elim (Option-cases (infer_os_arch u e.name)) [
      | inl q ↦ rw (n, q) tt
      | inr ((goos, goarch), q) ↦ rw (n, q) (archive_staged sums e.name goos goarch)
    ]
  ]

  entries_staged :
      (u : Unicode) (sums : Option (Dict Str)) (es : List DirEntry)
      → AllStaged M f sums (stage_entries M f u sums es)
  unfolding stage_entries
  entries_staged u sums [] = tt
  entries_staged u sums (e ∷ es) =
      go (stage_entry M f u sums e) (stage_entries M f u sums es) (entry_staged u sums e)
        (entries_staged u sums es)
    where
      go :
          (x : Result (Option StagedArtifact)) (r : Result (List StagedArtifact))
          → EntryStaged sums x
          → AllStaged M f sums r
          → AllStaged M f sums (do s ← x; rest ← r; ok (staged_with s rest))
      go (err e) r h k = tt
      go (ok s) (err e) h k = tt
      go (ok none) (ok rest) h k = k
      go (ok (some s)) (ok rest) h k = (h, k)

  dist_staged :
      (u : Unicode) (checksums : Result (Option (Dict Str)))
      → f.file == [] ≡ true
      → AllStaged M f (sums_of f checksums) (stage_dist M f u checksums)
  unfolding stage_dist
  dist_staged u (err e) y = tt
  dist_staged u (ok sums) y = rw y (go (M.read_dir f.dist))
    where
      nonempty :
          (r : Result (List StagedArtifact))
          → AllStaged M f sums r
          → AllStaged M f sums (do staged ← r; some_staged M f staged)
      nonempty (err e) h = tt
      nonempty (ok []) h = tt
      nonempty (ok (s ∷ ss)) h = h

      go :
          (d : Result (List DirEntry))
          → AllStaged M f sums
              (do entries ← d; staged ← stage_entries M f u sums entries; some_staged M f staged)
      go (err e) = tt
      go (ok es) = nonempty (stage_entries M f u sums es) (entries_staged u sums es)

  single_sums :
      (checksums : Result (Option (Dict Str))) → f.file == [] ≡ false → sums_of f checksums ≡ none
  single_sums (err e) n = refl
  single_sums (ok sums) n = rw n refl

  -- Everything that publish stages describes the file that it will upload: the entry for the index has
  -- the file's digest and size and the key of the upload, which lies under the tool, the version and
  -- the os-arch. In dist mode with a checksums file, that names each staged file with this digest.
  pub stage_publish-AllStaged :
      (u : Unicode) (checksums : Result (Option (Dict Str)))
      → AllStaged M f (sums_of f checksums) (stage_publish M f u checksums)
  unfolding stage_publish
  stage_publish-AllStaged u checksums = elim (Bool-cases (f.file == [])) [
    | inl y ↦ elim (Bool-cases (f.dist == [])) [
      | inl z ↦ rw (y, z) tt
      | inr z ↦ rw (y, z) (dist_staged u checksums y)
    ]
    | inr n ↦ elim (Bool-cases (f.dist == [])) [
      | inl z ↦
          rw (n, z)
            (subst (λ c. AllStaged M f c (stage_single M f)) (sym (single_sums checksums n))
              single_staged)
      | inr z ↦ rw (n, z) tt
    ]
  ]
