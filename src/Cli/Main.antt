-- ===== src/Cli/Main.antt =====
-- main of cmd/s3reg: a process of the program, from its arguments to its exit code. What runServe ends with is
-- an input, its life being that of Serve; `none` is a listing that still runs. What is printed is left
-- out, and so are the bucket's name and the SDK's client, which stand for the service.
pub mod Relying
pub mod Soundness
use mathlib.Core.Option
use s3_registry.Prelude.{
  ℕ, Bool, true, false, not, ◌&&◌, ◌||◌, Option, none, some, List, [], ◌∷◌, if◌then◌else◌,
}
use s3_registry.Text.{Str, codes, ◌==◌}
use s3_registry.Text.Unicode.{Unicode}
use s3_registry.Instant.{Instant}
use s3_registry.Result.{Result, ok, err, usage}
use s3_registry.Semver.{Library}
use s3_registry.Store.{Service, Codec}
use s3_registry.Store.Client.{Sdk, Store}
use s3_registry.Update.{Others}
use s3_registry.Publish.{Machine, PublishFlags, stage_publish, read_checksums, upload_and_index}
use s3_registry.Rm.{run_rm}
use s3_registry.Reindex.{run_reindex}
use s3_registry.Verify.{run_verify}
use s3_registry.Ls.{run_ls}
use s3_registry.Serve.{Env}
use s3_registry.Cli.{Flags, root_flags, new_store}
use s3_registry.Cli.Commands.{
  Command, Action, serves, publishes, lists, removes, reindexes, verifies, Invocation,
  root_commands, action_of,
}

-- What cobra makes of the arguments: a run of a command, or the printing of a help or a version
pub data Parsed : Type 0 where
  invoked : Invocation → Parsed
  printed : Parsed

pub record Cobra : Type 0 where
  pub parse : List Command → List Str → Result Parsed

-- What a process meets, but for the bucket
pub record World : Type 1 where
  pub env : Env
  pub cobra : Cobra
  pub sdk : Sdk
  pub machine : Machine
  pub unicode : Unicode
  pub library : Library
  pub codec : Codec
  pub clock : ℕ → ℕ → Instant
  pub fuel : ℕ
  -- what runServe ends with
  pub served : Result (Unit {0})

-- os.Exit(1) on an error
abbrev pub exit_code : Result (Unit {0}) → ℕ
exit_code (ok u) = 0
exit_code (err e) = 1

abbrev pub forget {ℓ} : {A : Type ℓ} → Result A → Result (Unit {0})
forget (ok a) = ok tt
forget (err e) = err e

module _ (w : World) (S : Service) (others : Others S.Bucket) where
  -- What a run leaves and returns
  abbrev pub Outcome : Type 0
  Outcome = Option (S.Bucket × Result (Unit {0}))

  -- st, err := newStore(ctx); if err != nil { return err }
  abbrev pub after_opening : Result (Store w.sdk) → S.Bucket → Outcome → Outcome
  after_opening (err e) b next = some (b, err e)
  after_opening (ok st) b next = next

  unfoldable pub with_store : Flags → S.Bucket → Outcome → Outcome
  with_store g b next = after_opening (new_store w.sdk g) b next

  -- runPublish, which opens the store where it uploads
  unfoldable pub publish_process : Flags → PublishFlags → S.Bucket → Outcome
  unfolding with_store
  publish_process g f b =
      elim (stage_publish w.machine f w.unicode (read_checksums w.machine f w.unicode)) [
        | err e ↦ some (b, err e)
        | ok staged ↦
            if f.dry_run
            then some (b, ok tt)
            else with_store g b
                (some (upload_and_index w.machine S w.library w.codec others w.clock f staged b))
      ]

  -- runRm, which opens the store after the check of its flags
  unfoldable pub rm_process : Flags → Str → Str → Str → Str → S.Bucket → Outcome
  unfolding with_store
  rm_process g tool version os arch b =
      if (os == [] && not (arch == [])) || (not (os == []) && arch == [])
      then some (b, err (usage (codes "--os and --arch must be given together")))
      else with_store g b (some (run_rm S w.codec others (λ n. w.clock n 0) tool version os arch b))

  -- the RunE of a command
  unfoldable pub run_action : Flags → Action → S.Bucket → Outcome
  unfolding publish_process rm_process
  run_action g (serves addr) b = with_store g b (some (b, w.served))
  run_action g (publishes f) b = publish_process g f b
  run_action g (lists tool) b =
      with_store g b (Option.map (λ r. (b, forget r)) (run_ls S w.codec w.fuel tool b))
  run_action g (removes tool version os arch) b = rm_process g tool version os arch b
  run_action g (reindexes tool) b =
      with_store g b
        (run_reindex w.library S w.codec w.machine.digest others (λ n. w.clock n 0) tool w.fuel b)
  run_action g (verifies tool version) b =
      with_store g b (some (b, forget (run_verify S w.machine.digest b w.codec tool version)))

  abbrev pub run_found : Invocation → Option Action → S.Bucket → Outcome
  run_found i none b = some (b, ok tt)
  run_found i (some a) b = run_action (root_flags w.env.getenv i.root) a b

  -- newRootCmd().Execute()
  unfoldable pub execute : Result Parsed → S.Bucket → Outcome
  unfolding run_action action_of root_flags
  execute (err e) b = some (b, err e)
  execute (ok printed) b = some (b, ok tt)
  execute (ok (invoked i)) b = run_found i (action_of w.env i.command i.own) b

  abbrev pub with_code : S.Bucket × Result (Unit {0}) → S.Bucket × ℕ
  with_code (b, r) = (b, exit_code r)

  -- main
  unfoldable pub main : List Str → S.Bucket → Option (S.Bucket × ℕ)
  unfolding execute root_commands
  main args b = Option.map with_code (execute (w.cobra.parse (root_commands w.env) args) b)
