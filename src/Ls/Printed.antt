-- ===== src/Ls/Printed.antt =====
-- What runLs of cmd/s3reg/ls.go prints, with and without a tool.

use s3_registry.Prelude.{ℕ, ◌≤◌, ◌≡◌, refl, false, Option, none, some, List, []}
use s3_registry.Text.{Str, ◌==◌, eq_refl, count}
use s3_registry.Text.Sorting.{
  sort_strings, IsAscending, sort_strings-IsAscending, count-sort_strings,
}
use s3_registry.Result.{Error, Result, ok, err, service}
use s3_registry.Index.{Index}
use s3_registry.Store.{Service, Codec, ApiError, ListOutput, get_index}
use s3_registry.Store.Listing.{list_tools, tools_of}
use s3_registry.Store.Paging.{Pages, calls, ending, gather, tool_page, list_tools-Pages}
use s3_registry.Ls.{Output, tools, table, Row, run_ls, sorted_tools}
use s3_registry.Ls.Table.{IsTable, run_ls-IsTable}

-- The tools of all pages, in the order of the bucket
abbrev pub all_tools : List ListOutput → List Str
all_tools = gather (λ (out : ListOutput). tools_of out.common_prefixes)

module _ (S : Service) (C : Codec) (b : S.Bucket) where
  -- Either a tool is named, or the pages of the tools end within some number of calls.
  pub data Ends (fuel : ℕ) : Str → Type 0 where
    named : {tool : Str} → tool == [] ≡ false → Ends fuel tool
    paged :
        {outs : List ListOutput} {end : Option ApiError}
        → Pages (tool_page S b) none outs end
        → calls outs end ≤ fuel
        → Ends fuel []

  -- What is printed for a tool, or for the empty name of none: the error of the read that failed, or
  -- else the tools of all pages in ascending order, or the table of the tool's index.
  pub data IsPrinted : Str → Result Output → Type 0 where
    printed_tools :
        {outs : List ListOutput} {ts : List Str}
        → Pages (tool_page S b) none outs none
        → IsAscending ts
        → ((t : Str) → count t ts ≡ count t (all_tools outs))
        → IsPrinted [] (ok (tools ts))
    unlisted :
        {outs : List ListOutput} {e : ApiError}
        → Pages (tool_page S b) none outs (some e)
        → IsPrinted [] (err (service e.message))
    printed_table :
        {tool etag : Str} {idx : Index} {rows : List Row}
        → tool == [] ≡ false
        → get_index S C tool b ≡ ok (idx, etag)
        → IsTable idx.versions rows
        → IsPrinted tool (ok (table rows))
    unread :
        {tool : Str} {e : Error}
        → tool == [] ≡ false
        → get_index S C tool b ≡ err e
        → IsPrinted tool (err e)

  abbrev Prints : ℕ → Str → Type 0
  Prints fuel tool = (r : Result Output) × (run_ls S C fuel tool b ≡ some r) × IsPrinted tool r

  run_ls-tools :
      (fuel : ℕ) (r : Result (List Str))
      → list_tools S fuel none [] b ≡ some r
      → run_ls S C fuel [] b ≡ some (sorted_tools r)
  unfolding run_ls
  run_ls-tools fuel r h = rw (eq_refl, h) refl

  print_tools :
      (fuel : ℕ) (outs : List ListOutput) (end : Option ApiError)
      → Pages (tool_page S b) none outs end
      → calls outs end ≤ fuel
      → Prints fuel []
  print_tools fuel outs end p n =
      let run = run_ls-tools fuel _ ((list_tools-Pages S b fuel _).1 (outs, end, p, n, refl)) in
      go end p run
    where
      go :
          (end : Option ApiError)
          → Pages (tool_page S b) none outs end
          → run_ls S C fuel [] b ≡ some (sorted_tools (ending end (all_tools outs)))
          → Prints fuel []
      go none p run = (
        ok (tools (sort_strings (all_tools outs))),
        run,
        printed_tools p (sort_strings-IsAscending (all_tools outs))
            (λ t. count-sort_strings t (all_tools outs)),
      )
      go (some e) p run = (err (service e.message), run, unlisted p)

  print_table : (fuel : ℕ) (tool : Str) → tool == [] ≡ false → Prints fuel tool
  unfolding run_ls
  print_table fuel tool n = go (get_index S C tool b) refl
    where
      go : (x : Result (Index × Str)) → get_index S C tool b ≡ x → Prints fuel tool
      go (err e) q = (err e, rw (n, q) refl, unread n q)
      go (ok (idx, etag)) q =
          let (rows, run, is) = run_ls-IsTable S C fuel tool etag idx b n q in
          (ok (table rows), run, printed_table n q is)

-- `ls` for a tool always returns, and without one it returns within the calls that the pages of
-- ListTools take. It prints then, without a tool, the tools of all pages, each as often as the pages
-- name it and in ascending order. For a tool it prints, version by version in the order of its index,
-- one row for each os-arch of the version, ascending, with the size of its artifact and the first
-- twelve bytes of the digest. Where the read fails, it prints nothing and returns that error.
pub run_ls-IsPrinted :
    (S : Service) (C : Codec) (b : S.Bucket) (fuel : ℕ) (tool : Str)
    → Ends S C b fuel tool
    → (r : Result Output) × (run_ls S C fuel tool b ≡ some r) × IsPrinted S C b tool r
run_ls-IsPrinted S C b fuel tool (named n) = print_table S C b fuel tool n
run_ls-IsPrinted S C b fuel tool (paged p n) = print_tools S C b fuel _ _ p n
