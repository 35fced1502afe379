-- ===== src/Cli/Main/Soundness.antt =====
-- What a process of cmd/s3reg that exits with 0 leaves of a sound bucket.
use mathlib.Core.Option
use s3_registry.Prelude.{
  ◌≡◌, refl, sym, subst, ap, Bool, true, false, not, ◌&&◌, ◌||◌, Option, none, some, some-injective,
  List, [], arith, Bool-cases, inl, inr, if◌then◌else◌,
}
use s3_registry.Text.{Str, codes, ◌==◌}
use s3_registry.Result.{Result, ok, err, usage}
use s3_registry.Semver.{IsLawful}
use s3_registry.Store.{Service}
use s3_registry.Store.Laws.{S3, IsUp}
use s3_registry.Update.{Others}
use s3_registry.Publish.{
  PublishFlags, StagedArtifact, stage_publish, read_checksums, upload_and_index, run_publish,
}
use s3_registry.Rm.{run_rm}
use s3_registry.Verify.{run_verify}
use s3_registry.Ls.{run_ls}
use s3_registry.Cli.{Flags, root_flags}
use s3_registry.Cli.Commands.{
  Action, serves, publishes, lists, removes, reindexes, verifies, Invocation, root_commands,
  action_of,
}
use s3_registry.Cli.Main.{
  Parsed, invoked, printed, World, forget, Outcome, with_store, publish_process, rm_process,
  run_action, run_found, with_code, execute, main,
}
use s3_registry.Registry.{KeepsView}
use s3_registry.Registry.Sound.{IsSound, IsExact, DecodesMaps}
use s3_registry.Registry.Sound.Publishing.{run_publish-IsSound}
use s3_registry.Registry.Sound.Removing.{run_rm-IsSound}
use s3_registry.Registry.Sound.Reindexing.{run_reindex-IsSound}
use s3_registry.Cli.Main.Relying.{
  clock, IsSoundNow, UploadRelies, Relies, Leaves, unchanged, mapped, opened,
}

module _ (w : World) (S : Service) (s3 : S3 S) (up : IsUp S s3) (law : IsLawful w.library)
    (others : Others S.Bucket) (tool : Str) where
  module _ (keeps : KeepsView w.codec) (maps : DecodesMaps w.codec) (exact : IsExact S s3) where
    uploaded :
        (f : PublishFlags) (b : S.Bucket) (staged : List StagedArtifact)
        → f.tool ≡ tool
        → f.dry_run ≡ false
        → stage_publish w.machine f w.unicode (read_checksums w.machine f w.unicode) ≡ ok staged
        → UploadRelies w S s3 up law others tool f staged
        → IsSoundNow w S s3 up law others tool b
        → Leaves w S s3 up law others tool
            (some (upload_and_index w.machine S w.library w.codec others w.clock f staged b))
    unfolding run_publish
    uploaded f b staged same wet run (d, parsed, stable, keep, spares) s b' h =
        subst (λ t. IsSound w.codec w.machine.digest t [] (s3.content b')) same
          (run_publish-IsSound w.machine S s3 w.codec f staged parsed stable w.library w.unicode
            others w.clock b b' law keeps exact wet run d keep spares
            (subst (λ t. IsSound w.codec w.machine.digest t [] (s3.content b)) (sym same) s)
            (rw (run, run_publish) (some-injective _ _ h)))

    published :
        (g : Flags) (f : PublishFlags) (b : S.Bucket)
        → Relies w S s3 up law others tool (publishes f) b
        → IsSoundNow w S s3 up law others tool b
        → Leaves w S s3 up law others tool (publish_process w S others g f b)
    unfolding publish_process
    published g f b (same, rely) s =
        go (stage_publish w.machine f w.unicode (read_checksums w.machine f w.unicode)) refl
      where
        go :
            (r : Result (List StagedArtifact))
            → stage_publish w.machine f w.unicode (read_checksums w.machine f w.unicode) ≡ r
            → Leaves w S s3 up law others tool (elim r [
              | err e ↦ some (b, err e)
              | ok staged ↦
                  if f.dry_run
                  then some (b, ok tt)
                  else with_store w S others g b (
                      some
                        (upload_and_index w.machine S w.library w.codec others w.clock f staged b))
            ])
        go (err e) q = unchanged w S s3 up law others tool b (err e) s
        go (ok staged) q = dry_or f.dry_run refl
          where
            dry_or :
                (d : Bool)
                → f.dry_run ≡ d
                → Leaves w S s3 up law others tool (
                    if d
                    then some (b, ok tt)
                    else with_store w S others g b (
                        some (
                          upload_and_index w.machine S w.library w.codec others w.clock f staged
                            b)))
            dry_or true y = unchanged w S s3 up law others tool b (ok tt) s
            dry_or false n =
                opened w S s3 up law others tool g b _ s
                  (uploaded f b staged same n q (rely staged q) s)

    removed :
        (g : Flags) (t version os arch : Str) (b : S.Bucket)
        → Relies w S s3 up law others tool (removes t version os arch) b
        → IsSoundNow w S s3 up law others tool b
        → Leaves w S s3 up law others tool (rm_process w S others g t version os arch b)
    unfolding rm_process
    removed g t version os arch b (same, keep, spares) s =
        elim (Bool-cases ((os == [] && not (arch == [])) || (not (os == []) && arch == []))) [
          | inl y ↦ rw y (
              unchanged w S s3 up law others tool b
                (err (usage (codes "--os and --arch must be given together"))) s)
          | inr n ↦ rw n (opened w S s3 up law others tool g b _ s done')
        ]
      where
        done' :
            Leaves w S s3 up law others tool
              (some (run_rm S w.codec others (clock w S s3 up law others tool) t version os arch b))
        done' b' h =
            let run = some-injective _ _ h in
            elim (run_rm-IsSound S s3 w.codec w.machine.digest (clock w S s3 up law others tool) t
              version os arch others b keeps maps exact keep spares
              (subst (λ u. IsSound w.codec w.machine.digest u [] (s3.content b)) (sym same) s)) [
                | inl x ↦
                    subst (IsSoundNow w S s3 up law others tool)
                      (ap (λ (x : S.Bucket × Result (Unit {0})). x.0) run)
                      (subst
                        (λ u. IsSound w.codec w.machine.digest u [] (
                          s3.content
                            (run_rm S w.codec others (clock w S s3 up law others tool) t version os
                              arch b).0))
                        same x)
                | inr (e, _, failed') ↦
                    absurd (cc (failed', ap (λ (x : S.Bucket × Result (Unit {0})). x.1) run))
              ]

    reindexed :
        (g : Flags) (t : Str) (b : S.Bucket)
        → Relies w S s3 up law others tool (reindexes t) b
        → IsSoundNow w S s3 up law others tool b
        → Leaves w S s3 up law others tool (run_action w S others g (reindexes t) b)
    unfolding run_action
    reindexed g t b (same, objs, created, keep, listing, there, times) s =
        opened w S s3 up law others tool g b _ s λ b' h.
          subst (λ u. IsSound w.codec w.machine.digest u [] (s3.content b')) same
            (run_reindex-IsSound w.library law S s3 up w.codec w.machine.digest
              (clock w S s3 up law others tool) t b keeps exact others keep w.fuel objs created b'
              listing there times h)

    ran :
        (g : Flags) (a : Action) (b : S.Bucket)
        → Relies w S s3 up law others tool a b
        → IsSoundNow w S s3 up law others tool b
        → Leaves w S s3 up law others tool (run_action w S others g a b)
    unfolding run_action
    ran g (serves addr) b rely s =
        opened w S s3 up law others tool g b _ s (unchanged w S s3 up law others tool b w.served s)
    ran g (publishes f) b rely s = published g f b rely s
    ran g (lists t) b rely s =
        opened w S s3 up law others tool g b _ s
          (mapped w S s3 up law others tool b (run_ls S w.codec w.fuel t b) s)
    ran g (removes t version os arch) b rely s = removed g t version os arch b rely s
    ran g (reindexes t) b rely s = reindexed g t b rely s
    ran g (verifies t version) b rely s = opened w S s3 up law others tool g b _ s (
        unchanged w S s3 up law others tool b
          (forget (run_verify S w.machine.digest b w.codec t version)) s)

    found_ran :
        (i : Invocation) (o : Option Action) (b : S.Bucket)
        → ((a : Action) → o ≡ some a → Relies w S s3 up law others tool a b)
        → IsSoundNow w S s3 up law others tool b
        → Leaves w S s3 up law others tool (run_found w S others i o b)
    found_ran i none b rely s = unchanged w S s3 up law others tool b (ok tt) s
    found_ran i (some a) b rely s = ran (root_flags w.env.getenv i.root) a b (rely a refl) s

    -- What the command that the arguments invoke relies on
    abbrev pub AllRelies : Result Parsed → S.Bucket → Type 0
    AllRelies (err e) b = Unit
    AllRelies (ok printed) b = Unit
    AllRelies (ok (invoked i)) b =
        (a : Action)
        → action_of w.env i.command i.own ≡ some a
        → Relies w S s3 up law others tool a b

    executed :
        (p : Result Parsed) (b : S.Bucket)
        → AllRelies p b
        → IsSoundNow w S s3 up law others tool b
        → Leaves w S s3 up law others tool (execute w S others p b)
    unfolding execute
    executed (err e) b rely s = unchanged w S s3 up law others tool b (err e) s
    executed (ok printed) b rely s = unchanged w S s3 up law others tool b (ok tt) s
    executed (ok (invoked i)) b rely s = found_ran i (action_of w.env i.command i.own) b rely s

    succeeded :
        (o : Outcome w S others) (b' : S.Bucket)
        → Option.map (with_code w S others) o ≡ some (b', 0)
        → o ≡ some (b', ok tt)
    succeeded none b' h = absurd (cc)
    succeeded (some (c, ok u)) b' h = ground arith
    succeeded (some (c, err e)) b' h = absurd (ground arith)

    -- Whatever command a process of the program runs, if it exits with 0 it leaves a sound bucket
    -- of the tool sound: the index can be read, has no duplicates, and each of its artifacts is
    -- there with its digest and size at a key of its version and os-arch. A command that writes is
    -- about the tool, others do before each read and each write of its update only what it relies
    -- on, before each upload and each deletion what leaves the objects below the tool's name, and
    -- nothing while it lists and hashes objects, the keys of an upload are apart and read as their
    -- version and os-arch, its files do not change while they are published, and the listing of a
    -- reindex ends and names objects that are there. S3, the version library and the codec are as
    -- documented, the codec on every index that is written.
    pub main-IsSound :
        (args : List Str) (b b' : S.Bucket)
        → AllRelies (w.cobra.parse (root_commands w.env) args) b
        → IsSoundNow w S s3 up law others tool b
        → main w S others args b ≡ some (b', 0)
        → IsSoundNow w S s3 up law others tool b'
    unfolding main
    main-IsSound args b b' rely s h =
        executed (w.cobra.parse (root_commands w.env) args) b rely s b' (succeeded _ b' h)
