-- ===== src/Tests/ListingCases.antt =====
-- The listings of internal/store and cmd/s3reg/ls.go against two pages of S3.
use s3_registry.Prelude.{
  take, map, ◌≤◌, ◌≡◌, ◌↔◌, refl, true, false, Option, none, some, List, [], ◌∷◌, arith,
}
use s3_registry.Text.{Str, codes, ◌==◌}
use s3_registry.Dict.{lookup}
use s3_registry.Result.{Result, ok}
use s3_registry.Store.{Service, done, ListOutput, get_index}
use s3_registry.Store.Listing.{Object, list_keys, list_objects, list_tools, objects_of, tools_of}
use s3_registry.Store.Paging.{
  Pages, last, more, calls, ending, gather, object_page, tool_page, list_objects-ends,
  list_tools-Pages,
}
use s3_registry.Ls.{Output, Row, tools, table, run_ls}
use s3_registry.Ls.Printed.{named, IsPrinted, run_ls-IsPrinted}
use s3_registry.Text.Sorting.{sort_strings}
use s3_registry.Prelude.Int.{pos}
use s3_registry.Tests.LongCodec.{long_codec}
use s3_registry.Tests.SoundCases.{landed}
use s3_registry.Tests.Memory.{memory}

abbrev page_of : Option Str → ListOutput
page_of none = record {
  common_prefixes = some (codes "b/") ∷ [];
  contents = record { key = some (codes "t/1"); last_modified = some 7 } ∷ [];
  is_truncated = some true;
  next = some (codes "x");
}
page_of (some t) = record {
  common_prefixes = some (codes "a/") ∷ [];
  contents = record { key = some (codes "t/2"); last_modified = none } ∷ [];
  is_truncated = none;
  next = none;
}

abbrev paged : Service
paged = record memory { list_objects = λ b p d t. done (page_of t) }

abbrev both : List ListOutput
both = page_of none ∷ page_of (some (codes "x")) ∷ []

objects_paged : Pages (object_page paged [] (codes "t/")) none both none
objects_paged = more _ refl refl (last _ refl refl)

list_objects-ends_example :
    (list_objects paged 5 (codes "t/") none [] []
      ≡ some (ending none (gather (λ (out : ListOutput). objects_of out.contents) both)))
    × (list_keys paged 5 (codes "t/") []
        ≡ some (
            ending none (
              map
                (λ (o : Object). o.key)
                (gather (λ (out : ListOutput). objects_of out.contents) both))))
list_objects-ends_example = list_objects-ends paged [] 5 (codes "t/") objects_paged (omega arith)

list_tools-Pages_example :
    (list_tools paged 2 none [] [] ≡ some (ok (codes "b" ∷ codes "a" ∷ []))) ↔ (
      (outs : List ListOutput) × (end : Option _) × Pages (tool_page paged []) none outs end
      × (calls outs end ≤ 2)
      × (ok (codes "b" ∷ codes "a" ∷ [])
          ≡ ending end (gather (λ (out : ListOutput). tools_of out.common_prefixes) outs)))
list_tools-Pages_example = list_tools-Pages paged [] 2 (ok (codes "b" ∷ codes "a" ∷ []))

named_tool : codes "tool" == [] ≡ false
unfolding ◌==◌
named_tool = refl

run_ls-IsPrinted_example :
    (r : Result Output) × (run_ls memory long_codec 1 (codes "tool") landed ≡ some r)
    × IsPrinted memory long_codec landed (codes "tool") r
run_ls-IsPrinted_example =
    run_ls-IsPrinted memory long_codec landed 1 (codes "tool") (named named_tool)

-- the row of the published artifact
row : Row
row = record {
  version = codes "7";
  os_arch = codes "linux-amd64";
  size = pos 20;
  short = take 12 (codes "tool_linux_amd64.zip");
}

ls_test : run_ls memory long_codec 1 (codes "tool") landed ≡ some (ok (table (row ∷ [])))
unfolding run_ls row get_index lookup ◌==◌ sort_strings
ls_test = refl

-- two pages, in ascending order
tools_test : run_ls paged long_codec 2 [] [] ≡ some (ok (tools (codes "a" ∷ codes "b" ∷ [])))
unfolding run_ls ◌==◌ sort_strings
tools_test = refl
