-- ===== src/Tests/ProcessCases.antt =====
-- A process of cmd/s3reg that publishes a directory with one archive to an empty bucket.
use s3_registry.Prelude.{
  ◌≡◌, refl, sym, ◌∙◌, some-injective, subst, Option, none, some, [], ◌∷◌, ◌++◌,
}
use s3_registry.Text.{Str, codes, ◌==◌, contains, has_suffix}
use s3_registry.Dict.{Dict, insert, lookup}
use s3_registry.Result.{ok, ok_inj}
use s3_registry.Index.{new, sort_versions}
use s3_registry.Semver.{sort_ascending}
use s3_registry.Store.{get_index, put_index, index_key}
use s3_registry.Store.Client.{Sdk}
use s3_registry.Publish.{upload_and_index, stage_publish, read_checksums}
use s3_registry.Registry.Sound.History.{fresh-IsSound}
use s3_registry.Cli.{new_store, root_flags}
use s3_registry.Cli.Commands.{Found, Action, action_of, publishes}
use s3_registry.Cli.Main.{World, invoked, main}
use s3_registry.Cli.Main.Relying.{Relies, UploadRelies, IsSoundNow}
use s3_registry.Cli.Main.Soundness.{main-IsSound}
use s3_registry.Tests.Numbers.{numbers, numbers-IsLawful}
use s3_registry.Tests.Memory.{memory, memory-S3, memory-S3_absent, memory-IsUp, memory-IsExact}
use s3_registry.Tests.LongCodec.{long_codec, long_codec-KeepsView, long_codec-DecodesMaps}
use s3_registry.Tests.PublishCases.{machine, ascii, flags, quiet, staged}
use s3_registry.Tests.SoundCases.{landed, parsed}

abbrev sdk : Sdk
sdk = record {
  Aws = Option Str;
  Client = Option Str;
  load_default_config = ok;
  new_from_config = λ aws configure. aws;
  presign_get_object = λ client bucket key ttl. ok (bucket ++ key);
}

abbrev given : Dict Str
given =
    (codes "tool", codes "tool")
    ∷ (codes "version", codes "7")
    ∷ (codes "dist", codes "dist")
    ∷ (codes "checksums", codes "checksums.txt")
    ∷ []

abbrev own : Found
own = record { text = λ name. lookup name given; switch = λ name. none }

abbrev world : World
world = record {
  env = record { getenv = λ k. []; parse_duration = λ s. none };
  cobra = record {
    parse = λ commands args. ok (
        invoked (record {
          command = codes "publish";
          root = record {
            bucket = some (codes "tools");
            region = none;
            endpoint = none;
            path_style = none;
          };
          own = own;
        }));
  };
  sdk = sdk;
  machine = machine;
  unicode = ascii;
  library = numbers;
  codec = long_codec;
  clock = λ n m. 9;
  fuel = 1;
  served = ok tt;
}

exited : main world memory quiet [] [] ≡ some (landed, 0)
unfolding main new_store root_flags stage_publish read_checksums upload_and_index ◌==◌ lookup insert
    has_suffix get_index new sort_versions sort_ascending contains put_index action_of
exited = refl

acted : action_of world.env (codes "publish") own ≡ some (publishes flags)
unfolding action_of lookup ◌==◌
acted = refl

abbrev SoundTool : Dict Str → Type 0
SoundTool = IsSoundNow world memory memory-S3 memory-IsUp numbers-IsLawful quiet (codes "tool")

from_nothing : SoundTool []
unfolding index_key lookup
from_nothing =
    fresh-IsSound numbers memory memory-S3 long_codec (λ s. s) (codes "tool") []
      (memory-S3_absent [] (index_key (codes "tool")) refl)

relied :
    (a : Action)
    → action_of world.env (codes "publish") own ≡ some a
    → Relies world memory memory-S3 memory-IsUp numbers-IsLawful quiet (codes "tool") a []
relied a h =
    subst
      (λ a. Relies world memory memory-S3 memory-IsUp numbers-IsLawful quiet (codes "tool") a [])
      (some-injective _ _ (sym acted ∙ h))
      (
        refl,
        λ ss run.
            subst
              (UploadRelies world memory memory-S3 memory-IsUp numbers-IsLawful quiet (codes "tool")
                flags)
              (ok_inj (sym staged ∙ run))
              (
                (tt, tt),
                parsed,
                (refl, tt),
                record { on_read = λ n b p. p; on_write = λ n b p. p },
                λ n b k p. refl,
              ),
      )

main-IsSound_example : SoundTool landed
main-IsSound_example =
    main-IsSound world memory memory-S3 memory-IsUp numbers-IsLawful quiet (codes "tool")
      long_codec-KeepsView long_codec-DecodesMaps memory-IsExact [] [] landed relied from_nothing
      exited
