-- ===== src/Tests/DownloadCases.antt =====
-- A download from a server on the bucket that publishers have changed.
use s3_registry.Prelude.{false, ◌≡◌, refl, none, some, [], ◌∷◌}
use s3_registry.Prelude.Int.{pos}
use s3_registry.Text.{codes, ◌==◌, contains}
use s3_registry.Dict.{lookup, insert}
use s3_registry.Result.{ok}
use s3_registry.Index.{resolve_version, new, sort_versions}
use s3_registry.Index.View.{artifact_at}
use s3_registry.Store.{get_index}
use s3_registry.Semver.{sort_ascending, resolve}
use s3_registry.Registry.{replay}
use s3_registry.Tests.Numbers.{numbers, numbers-IsLawful}
use s3_registry.Text.Unicode.{Unicode}
use s3_registry.BuildInfo.{defaults}
use s3_registry.Server.{success, Download, get_artifact, cache_get}
use s3_registry.Server.Cached.{IsGood}
use s3_registry.Server.Routes.{Request, Mux}
use s3_registry.Server.Routes as Routes
use s3_registry.Server.Serving.{
  Server, World, download, handle, answer, answer_artifact, cached_index,
}
use s3_registry.Registry.Download.{IsOf, handle-IsOf}
use s3_registry.Tests.Memory.{memory, memory-S3}
use s3_registry.Tests.ShortCodec.{short_codec, short_codec-KeepsView}
use s3_registry.Tests.RegistryCases.{jobs, after_7, reached, absent, new-IsDistinct}

abbrev ascii : Unicode
ascii = record { trim = λ s. s; fields = λ s. s ∷ []; to_lower = λ s. s }

-- a router that leads every request to the download
abbrev mux : Mux
mux = record { match_ = λ routes r. some Routes.get_artifact }

abbrev server : Server
server = record {
  cfg = record {
    api_token = [];
    presign_ttl = pos 5;
    cache_ttl = pos 60;
    health = record {
      liveness_deadline = pos 1;
      readiness_deadline = pos 1;
      status_deadline = pos 1;
      status_cache_ttl = pos 5;
      readiness_startup_grace = pos 3;
    };
  };
  entries = [];
  health = record {
    cfg = record {
      liveness_deadline = pos 1;
      readiness_deadline = pos 1;
      status_deadline = pos 1;
      status_cache_ttl = pos 5;
      readiness_startup_grace = pos 3;
    };
    start = 1;
    draining = false;
    cached = none;
  };
}

abbrev world : World
world = record {
  vars = defaults;
  now = 100;
  began = 100;
  ended = 101;
  later = 101;
  answered = 102;
  get_index = λ tool. get_index memory short_codec tool after_7.bucket;
  presign_get = λ key ttl. ok key;
  list_tools = ok [];
  head_bucket = none;
  probe_late = false;
  incomplete = false;
  tool = codes "t";
  version = codes "5";
  range = codes "5";
  os = codes "o";
  arch = codes "a";
}

abbrev request : Request
request = record {
  method = codes "GET";
  path = codes "/tools/t";
  raw_path = [];
  authorization = [];
}

abbrev served : Download
served = record { url = codes "a"; sha256 = []; size = pos 3; version = codes "7" }

answered : (handle numbers world ascii mux [] request server).1 ≡ download (success served)
unfolding handle answer answer_artifact get_artifact cached_index cache_get ◌==◌ lookup get_index
    sort_versions sort_ascending insert contains resolve_version resolve
answered = refl

server-IsGood : IsGood numbers server.entries
unfolding lookup
server-IsGood k e h = absurd (cc)

nothing_cached : lookup (codes "t") server.entries ≡ none
unfolding lookup
nothing_cached = refl

handle-IsOf_example :
    IsOf
      (replay jobs after_7.log (λ v x. artifact_at v x (new (codes "t")).versions))
      world
      server
      served
handle-IsOf_example =
    handle-IsOf numbers memory memory-S3 short_codec (λ n m. 9) jobs [] (new (codes "t")) world
      server ascii mux [] request served numbers-IsLawful short_codec-KeepsView absent
      new-IsDistinct reached refl server-IsGood nothing_cached answered
