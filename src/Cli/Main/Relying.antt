-- ===== src/Cli/Main/Relying.antt =====
-- What the commands of cmd/s3reg rely on to leave a sound bucket sound, and runs that do not write.
use mathlib.Core.Option
use s3_registry.Prelude.{ℕ, ◌≡◌, subst, ap, Option, none, some, some-injective, List, [], ◌++◌}
use s3_registry.Text.{Str, codes}
use s3_registry.Dict.{Dict}
use s3_registry.Instant.{Instant}
use s3_registry.Result.{Result, ok, err}
use s3_registry.Semver.{IsLawful}
use s3_registry.Store.{Service, get_index}
use s3_registry.Store.Client.{Store}
use s3_registry.Store.Listing.{Object, list_objects}
use s3_registry.Store.Laws.{S3, IsUp}
use s3_registry.Update.{Others}
use s3_registry.Update.Relied.{Keep, Spares}
use s3_registry.Publish.{PublishFlags, StagedArtifact, stage_publish, read_checksums}
use s3_registry.Publish.Upload.{DistinctKeys}
use s3_registry.Reindex.{current_times}
use s3_registry.Cli.{Flags, new_store}
use s3_registry.Cli.Commands.{Action, serves, publishes, lists, removes, reindexes, verifies}
use s3_registry.Cli.Main.{World, forget, Outcome, after_opening, with_store}
use s3_registry.Registry.Sound.{IsSound}
use s3_registry.Registry.Sound.Pending.{AllParsed}
use s3_registry.Registry.Sound.Moved.{Under}
use s3_registry.Registry.Sound.Publishing.{IsStable, IsUploaded}
use s3_registry.Registry.Sound.Removing.{IsSoundAt}
use s3_registry.Registry.Sound.Reindexing.{IsAtRest, AreThere}

module _ (w : World) (S : Service) (s3 : S3 S) (up : IsUp S s3) (law : IsLawful w.library)
    (others : Others S.Bucket) (tool : Str) where
  abbrev pub clock : ℕ → Instant
  clock n = w.clock n 0

  abbrev pub IsSoundNow : S.Bucket → Type 0
  IsSoundNow b = IsSound w.codec w.machine.digest tool [] (s3.content b)

  -- What publish relies on, of what it stages and of others
  abbrev pub UploadRelies : PublishFlags → List StagedArtifact → Type 0
  UploadRelies f staged =
      DistinctKeys staged
      × AllParsed f.tool f.version staged
      × IsStable w.machine staged
      × Keep (IsUploaded w.machine S s3 w.codec f staged) others
      × Spares S s3 others (Under f.tool)

  -- What a command relies on: it is about the tool, and others leave what it needs.
  abbrev pub Relies : Action → S.Bucket → Type 0
  Relies (serves addr) b = Unit
  Relies (publishes f) b =
      (f.tool ≡ tool)
      × ((staged : List StagedArtifact)
          → stage_publish w.machine f w.unicode (read_checksums w.machine f w.unicode) ≡ ok staged
          → UploadRelies f staged)
  Relies (lists t) b = Unit
  Relies (removes t version os arch) b =
      (t ≡ tool)
      × Keep (IsSoundAt S s3 w.codec w.machine.digest clock t version os arch) others
      × Spares S s3 others (Under t)
  Relies (reindexes t) b =
      (t ≡ tool)
      × (objs : List Object) × (created : Dict Instant) × Keep
          (IsAtRest w.library law S s3 up w.codec w.machine.digest clock t b) others
      × (list_objects S w.fuel (t ++ codes "/") none [] b ≡ some (ok objs))
      × AreThere w.library law S s3 up w.codec w.machine.digest clock t b objs
      × (current_times (get_index S w.codec t b) ≡ ok created)
  Relies (verifies t version) b = Unit

  -- An outcome that is a success leaves a sound bucket.
  abbrev pub Leaves : Outcome w S others → Type 0
  Leaves o = (b' : S.Bucket) → o ≡ some (b', ok tt) → IsSoundNow b'

  pub unchanged : (b : S.Bucket) (r : Result (Unit {0})) → IsSoundNow b → Leaves (some (b, r))
  unchanged b r s b' h =
      subst IsSoundNow (ap (λ (x : S.Bucket × Result (Unit {0})). x.0) (some-injective _ _ h)) s

  pub mapped :
      {A : Type 0} (b : S.Bucket) (o : Option (Result A))
      → IsSoundNow b
      → Leaves (Option.map (λ r. (b, forget r)) o)
  mapped b none s b' h = absurd (cc)
  mapped b (some r) s b' h = unchanged b (forget r) s b' h

  pub opened :
      (g : Flags) (b : S.Bucket) (next : Outcome w S others)
      → IsSoundNow b
      → Leaves next
      → Leaves (with_store w S others g b next)
  unfolding with_store
  opened g b next s h = go (new_store w.sdk g)
    where
      go : (r : Result (Store w.sdk)) → Leaves (after_opening w S others r b next)
      go (err e) = unchanged b (err e) s
      go (ok st) = h
