-- ===== src/Publish.antt =====
-- cmd/s3reg/publish.go: staging of files, their upload and the change of the index. The files of the
-- machine, package path/filepath and SHA-256 are parameters; a file stays as it is during a run.
pub mod Change
pub mod Staging
pub mod Upload
use s3_registry.Prelude.{
  ℕ, suc, Bool, true, false, not, ◌&&◌, ◌||◌, Option, none, some, List, [], ◌∷◌, ◌++◌, length,
  if◌then◌else◌,
}
use s3_registry.Prelude.Int.{ℤ, pos}
use s3_registry.Text.{Str, codes, ◌==◌}
use s3_registry.Dict.{Dict, lookup}
use s3_registry.Instant.{Instant}
use s3_registry.Result.{Result, ok, err, usage, checksum_missing, checksum_mismatch, ◌>>=◌}
use s3_registry.Semver.{Library}
use s3_registry.Index.{Artifact, Index, upsert}
use s3_registry.Text.Unicode.{Unicode}
use s3_registry.Dist.{is_archive, infer_os_arch, parse_checksums}
use s3_registry.Store.{Service, Codec, put_artifact}
use s3_registry.Update.{Others, update_index}

pub record DirEntry : Type 0 where
  pub name : Str
  pub is_dir : Bool

-- The machine: reading a file, listing a directory, filepath.Base and Join, and the hexadecimal
-- SHA-256 digest of a text.
pub record Machine : Type 0 where
  pub read : Str → Result Str
  pub reopen : Str → Result Str
  pub read_dir : Str → Result (List DirEntry)
  pub base : Str → Str
  pub join : Str → Str → Str
  pub digest : Str → Str

pub record PublishFlags : Type 0 where
  pub tool : Str
  pub version : Str
  pub os : Str
  pub arch : Str
  pub file : Str
  pub dist : Str
  pub checksums : Str
  pub dry_run : Bool

pub record StagedArtifact : Type 0 where
  pub os_arch : Str
  pub key : Str
  pub path : Str
  pub art : Artifact

-- fmt.Sprintf("%s/%s/%s/%s", tool, version, osArch, name)
unfoldable pub artifact_key : Str → Str → Str → Str → Str
artifact_key tool version os_arch name =
    tool ++ codes "/" ++ version ++ codes "/" ++ os_arch ++ codes "/" ++ name

-- The two ends of a comparison with the checksums file, where one is given.
unfoldable pub check_sum : Option (Dict Str) → Str → Str → Result (Unit {0})
check_sum none name computed = ok tt
check_sum (some sums) name computed = elim (lookup name sums) [
  | none ↦ err (checksum_missing name)
  | some want ↦ if want == computed then ok tt else err (checksum_mismatch name)
]

abbrev pub staged_with : Option StagedArtifact → List StagedArtifact → List StagedArtifact
staged_with none rest = rest
staged_with (some s) rest = s ∷ rest

-- hashFile
unfoldable pub hash_file : Machine → Str → Result (Str × ℤ)
hash_file M path = do body ← M.read path; ok (M.digest body, pos (length body))

module _ (M : Machine) (f : PublishFlags) where
  -- A file as it is staged under a name.
  unfoldable pub stage : Str → Str → Str → Str → ℤ → StagedArtifact
  unfolding artifact_key
  stage os_arch name path sum size =
      let key = artifact_key f.tool f.version os_arch name in
      record {
        os_arch = os_arch;
        key = key;
        path = path;
        art = record { key = key; sha256 = sum; size = size };
      }

  -- publishSingle, up to the upload
  unfoldable pub stage_single : Result (List StagedArtifact)
  unfolding hash_file stage
  stage_single =
      if f.os == [] || f.arch == []
      then err (usage (codes "--os and --arch are required in single mode"))
      else (do
        (sum, size) ← hash_file M f.file
        ok (stage (f.os ++ codes "-" ++ f.arch) (M.base f.file) f.file sum size ∷ []))

  -- one entry of the directory, with its os and arch
  unfoldable pub stage_archive :
      Option (Dict Str) → Str → Str × Str → Result (Option StagedArtifact)
  unfolding hash_file stage check_sum
  stage_archive checksums name (goos, goarch) = do
    (computed, size) ← hash_file M (M.join f.dist name)
    _ ← check_sum checksums name computed
    ok (some (stage (goos ++ codes "-" ++ goarch) name (M.join f.dist name) computed size))

  -- a directory, a file that is no archive and a name without an os and arch are skipped
  unfoldable pub stage_entry :
      Unicode → Option (Dict Str) → DirEntry → Result (Option StagedArtifact)
  unfolding is_archive infer_os_arch stage_archive
  stage_entry u checksums e =
      if e.is_dir || not (is_archive u e.name) then ok none else elim (infer_os_arch u e.name) [
        | none ↦ ok none
        | some p ↦ stage_archive checksums e.name p
      ]

  -- the loop of publishDist
  unfoldable pub stage_entries :
      Unicode → Option (Dict Str) → List DirEntry → Result (List StagedArtifact)
  unfolding stage_entry
  stage_entries u checksums [] = ok []
  stage_entries u checksums (e ∷ es) = do
    s ← stage_entry u checksums e
    rest ← stage_entries u checksums es
    ok (staged_with s rest)

  abbrev pub some_staged : List StagedArtifact → Result (List StagedArtifact)
  some_staged [] = err (usage (codes "no matching archives found"))
  some_staged (s ∷ ss) = ok (s ∷ ss)

  -- the head of publishDist: the checksums file, if one is given
  unfoldable pub read_checksums : Unicode → Result (Option (Dict Str))
  unfolding parse_checksums
  read_checksums u =
      if f.checksums == []
      then ok none
      else (do text ← M.read f.checksums; sums ← parse_checksums u text; ok (some sums))

  -- publishDist, up to the upload, with what its head yields
  unfoldable pub stage_dist : Unicode → Result (Option (Dict Str)) → Result (List StagedArtifact)
  unfolding stage_entries
  stage_dist u checksums = do
    sums ← checksums
    entries ← M.read_dir f.dist
    staged ← stage_entries u sums entries
    some_staged staged

  -- runPublish, up to the upload
  unfoldable pub stage_publish : Unicode → Result (Option (Dict Str)) → Result (List StagedArtifact)
  unfolding stage_single stage_dist
  stage_publish u checksums =
      if not (f.file == []) && not (f.dist == [])
      then err (usage (codes "--file and --dist are mutually exclusive"))
      else if f.file == [] && f.dist == []
      then err (usage (codes "one of --file or --dist is required"))
      else if not (f.file == [])
      then stage_single
      else stage_dist u checksums

module _ (L : Library) where
  -- the loop of uploadAndIndex over Upsert; `clock` is the time of each
  unfoldable pub upsert_all : (ℕ → Instant) → ℕ → Str → List StagedArtifact → Index → Result Index
  unfolding upsert
  upsert_all clock n version [] i = ok i
  upsert_all clock n version (s ∷ ss) i = do
    j ← upsert L (clock n) version s.os_arch s.art i
    upsert_all clock (suc n) version ss j

  -- the change of the index, with the clock at each attempt
  unfoldable pub publish_change :
      (ℕ → ℕ → Instant) → Str → Str → List StagedArtifact → ℕ → Index → Result Index
  unfolding upsert_all
  publish_change clock tool version staged attempt i =
      upsert_all (clock attempt) 0 version staged (record i { name = tool })

-- `return err` or what follows
abbrev pub upload_next :
    {B : Type 0} → (B → B × Result (Unit {0})) → B × Result (Unit {0}) → B × Result (Unit {0})
upload_next next (b, err e) = (b, err e)
upload_next next (b, ok _) = next b

module _ (M : Machine) (S : Service) where
  open S use {Bucket}

  -- the loop of uploadAndIndex over the files, from a number on, with what others do before each
  -- upload. `reopen` is what the file has when it is opened for the upload, after hashFile.
  unfoldable pub upload :
      Others Bucket → ℕ → List StagedArtifact → Bucket → Bucket × Result (Unit {0})
  unfolding put_artifact
  upload others n [] b = (b, ok tt)
  upload others n (s ∷ ss) b = elim (M.reopen s.path) [
    | err e ↦ (b, err e)
    | ok body ↦
        upload_next (upload others (suc n) ss)
          (put_artifact S s.key body (others.before_object n b))
  ]

  -- uploadAndIndex
  unfoldable pub upload_and_index :
      Library
      → Codec
      → Others Bucket
      → (ℕ → ℕ → Instant)
      → PublishFlags
      → List StagedArtifact
      → Bucket
      → Bucket × Result (Unit {0})
  unfolding upload publish_change update_index
  upload_and_index L C others clock f staged b =
      if f.dry_run
      then (b, ok tt)
      else upload_next
          (update_index S C others f.tool (publish_change L clock f.tool f.version staged))
          (upload others 0 staged b)

  -- runPublish; in single mode `stage_publish` does not look at the checksums file.
  unfoldable pub run_publish :
      Library
      → Codec
      → Unicode
      → Others Bucket
      → (ℕ → ℕ → Instant)
      → PublishFlags
      → Bucket
      → Bucket × Result (Unit {0})
  unfolding stage_publish read_checksums upload_and_index
  run_publish L C u others clock f b = elim (stage_publish M f u (read_checksums M f u)) [
    | err e ↦ (b, err e)
    | ok staged ↦ upload_and_index L C others clock f staged b
  ]
