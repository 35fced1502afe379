-- ===== src/Cli/Commands.antt =====
-- The commands of cmd/s3reg: their flags (newPublishCmd, newRmCmd and so on) and what they run. cobra's parsing
-- is a parameter: what it found of each flag.
use s3_registry.Prelude.{Bool, false, Option, none, some, List, [], ◌∷◌, if◌then◌else◌}
use s3_registry.Text.{Str, codes, ◌==◌}
use s3_registry.Dict.{Dict, lookup}
use s3_registry.Cli.{Given, given_or}
use s3_registry.Publish.{PublishFlags}
use s3_registry.Serve.{Env, serve_addr}

-- A cobra.Command: its name, the flags of StringVar and BoolVar with their defaults, and those of
-- MarkFlagRequired
pub record Command : Type 0 where
  pub name : Str
  pub texts : Dict Str
  pub switches : Dict Bool
  pub required : List Str

-- What the command line gives for the flags of a command
pub record Found : Type 0 where
  pub text : Str → Option Str
  pub switch : Str → Option Bool

-- The variable of a flag once the command line is parsed
unfoldable pub text_flag : Command → Found → Str → Str
unfolding lookup
text_flag c found name = given_or (found.text name) (given_or (lookup name c.texts) [])

unfoldable pub switch_flag : Command → Found → Str → Bool
unfolding lookup
switch_flag c found name = given_or (found.switch name) (given_or (lookup name c.switches) false)

abbrev pub publish_cmd : Command
publish_cmd = record {
  name = codes "publish";
  texts =
      (codes "tool", [])
      ∷ (codes "version", [])
      ∷ (codes "os", [])
      ∷ (codes "arch", [])
      ∷ (codes "file", [])
      ∷ (codes "dist", [])
      ∷ (codes "checksums", [])
      ∷ [];
  switches = (codes "dry-run", false) ∷ [];
  required = codes "tool" ∷ codes "version" ∷ [];
}

abbrev pub rm_cmd : Command
rm_cmd = record {
  name = codes "rm";
  texts = (codes "tool", []) ∷ (codes "version", []) ∷ (codes "os", []) ∷ (codes "arch", []) ∷ [];
  switches = [];
  required = codes "tool" ∷ codes "version" ∷ [];
}

abbrev pub ls_cmd : Command
ls_cmd = record { name = codes "ls"; texts = (codes "tool", []) ∷ []; switches = []; required = [] }

abbrev pub reindex_cmd : Command
reindex_cmd = record {
  name = codes "reindex";
  texts = (codes "tool", []) ∷ [];
  switches = [];
  required = codes "tool" ∷ [];
}

abbrev pub verify_cmd : Command
verify_cmd = record {
  name = codes "verify";
  texts = (codes "tool", []) ∷ (codes "version", []) ∷ [];
  switches = [];
  required = codes "tool" ∷ [];
}

-- newServeCmd; the default of --addr is from the environment.
unfoldable pub serve_cmd : Env → Command
unfolding serve_addr
serve_cmd e = record {
  name = codes "serve";
  texts = (codes "addr", serve_addr e) ∷ [];
  switches = [];
  required = [];
}

-- root.AddCommand
unfoldable pub root_commands : Env → List Command
unfolding serve_cmd
root_commands e = serve_cmd e ∷ publish_cmd ∷ ls_cmd ∷ rm_cmd ∷ reindex_cmd ∷ verify_cmd ∷ []

-- What the RunE of a command calls, with its arguments
pub data Action : Type 0 where
  serves : Str → Action
  publishes : PublishFlags → Action
  lists : Str → Action
  -- tool, version, os and arch
  removes : Str → Str → Str → Str → Action
  reindexes : Str → Action
  -- tool and version
  verifies : Str → Str → Action

unfoldable pub publish_flags : Found → PublishFlags
unfolding text_flag switch_flag
publish_flags found = record {
  tool = text_flag publish_cmd found (codes "tool");
  version = text_flag publish_cmd found (codes "version");
  os = text_flag publish_cmd found (codes "os");
  arch = text_flag publish_cmd found (codes "arch");
  file = text_flag publish_cmd found (codes "file");
  dist = text_flag publish_cmd found (codes "dist");
  checksums = text_flag publish_cmd found (codes "checksums");
  dry_run = switch_flag publish_cmd found (codes "dry-run");
}

unfoldable pub rm_action : Found → Action
unfolding text_flag
rm_action found =
    removes (text_flag rm_cmd found (codes "tool")) (text_flag rm_cmd found (codes "version"))
      (text_flag rm_cmd found (codes "os")) (text_flag rm_cmd found (codes "arch"))

-- The RunE of the command of a name; cobra itself refuses a name that no command has.
unfoldable pub action_of : Env → Str → Found → Option Action
unfolding publish_flags rm_action serve_cmd
action_of e name found =
    if name == codes "serve"
    then some (serves (text_flag (serve_cmd e) found (codes "addr")))
    else if name == codes "publish"
    then some (publishes (publish_flags found))
    else if name == codes "ls"
    then some (lists (text_flag ls_cmd found (codes "tool")))
    else if name == codes "rm"
    then some (rm_action found)
    else if name == codes "reindex"
    then some (reindexes (text_flag reindex_cmd found (codes "tool")))
    else if name == codes "verify"
    then some (
        verifies (text_flag verify_cmd found (codes "tool"))
          (text_flag verify_cmd found (codes "version")))
    else none

-- The command line as cobra leaves it: the flags of the root and those of the command
pub record Invocation : Type 0 where
  pub command : Str
  pub root : Given
  pub own : Found
