-- ===== src/BuildInfo.antt =====
-- internal/buildinfo/buildinfo.go: the variables that the linker may set, and their snapshot.
use s3_registry.Prelude.{Bool, false, Option, none}
use s3_registry.Text.{Str, codes}

pub record Vars : Type 0 where
  pub version : Str
  pub commit : Str
  pub built_at : Str
  pub git_tag : Str
  pub service : Str

-- the values without the linker
abbrev pub defaults : Vars
defaults = record {
  version = codes "dev";
  commit = codes "unknown";
  built_at = codes "unknown";
  git_tag = codes "unknown";
  service = codes "s3reg";
}

pub record Info : Type 0 where
  pub service : Str
  pub version : Str
  pub commit : Str
  pub built_at : Str
  pub git_tag : Str
  pub dirty : Bool
  pub source_repo_url : Option Str

-- Get
unfoldable pub get : Vars → Info
get v = record {
  service = v.service;
  version = v.version;
  commit = v.commit;
  built_at = v.built_at;
  git_tag = v.git_tag;
  dirty = false;
  source_repo_url = none;
}
