-- ===== src/Server/Flights.antt =====
-- indexCache.Get of internal/server under requests that run at the same time. The function that Get
-- hands to singleflight is two steps, the return of GetIndex and what follows it, between which any
-- other step may stand. Of singleflight only this is used: what it gives to a caller is what a run of
-- the function for the caller's key has returned.
pub mod Fetching
pub mod Logged
use mathlib.Core.List.{Memᴰ}
use mathlib.Core.List.Memᴰ
use s3_registry.Prelude.{
  ◌≡◌, refl, sym, subst, ◌∙◌, Bool, true, false, none, some, List, [], ◌∷◌, arith, ◌⊎◌, inl, inr,
  Bool-cases, Option-cases,
}
use s3_registry.Prelude.Int.{ltb_ℤ}
use s3_registry.Text.{Str, ◌==◌, eq_iff}
use s3_registry.Dict.{Dict, lookup, insert, lookup-insert}
use s3_registry.Instant.{Instant, Duration, sub}
use s3_registry.Result.{Result, ok, err}
use s3_registry.Semver.{Library, IsLawful}
use s3_registry.Index.{Index, sort_versions}
use s3_registry.Index.View.{names, IsDistinct}
use s3_registry.Index.Sorted.{IsOrdered, IsSortedForm, sort_versions-sorts}
use s3_registry.Server.{CacheEntry, fresh, fetch, cache_get}

-- A return of GetIndex
pub record Read : Type 0 where
  pub tool : Str
  pub upstream : Result (Index × Str)

-- The end of a run of the function
pub record Run : Type 0 where
  pub tool : Str
  pub stored : Instant
  pub result : Result Index

-- The return of a Get: `shared` where it came through singleflight.
pub record Answered : Type 0 where
  pub tool : Str
  pub now : Instant
  pub result : Result Index
  pub shared : Bool

-- The entries of the cache, and what has happened so far.
pub record State : Type 0 where
  pub entries : Dict CacheEntry
  pub reads : List Read
  pub runs : List Run
  pub answers : List Answered

abbrev pub initial : State
initial = record { entries = []; reads = []; runs = []; answers = [] }

module _ (L : Library) (ttl : Duration) where
  -- The rest of the function after a read, under the lock
  unfoldable pub complete : Read → Instant → State → State
  unfolding fetch
  complete r stored s =
      let (entries, result) = fetch L r.tool r.upstream stored s.entries in
      record s {
        entries = entries;
        runs = record { tool = r.tool; stored = stored; result = result } ∷ s.runs;
      }

  pub data Step (s : State) : State → Type 0 where
    -- GetIndex returns in a run for a tool.
    reads : (r : Read) → Step s (record s { reads = r ∷ s.reads })
    completes : (r : Read) (stored : Instant) → Memᴰ r s.reads → Step s (complete r stored s)
    -- A request finds an entry within its time.
    hits :
        (tool : Str) (now : Instant) (idx : Index)
        → fresh ttl now (lookup tool s.entries) ≡ some idx
        → Step s (record s {
          answers = record { tool = tool; now = now; result = ok idx; shared = false } ∷ s.answers;
        })
    -- A request that has missed gets what a run for its tool returned.
    shares :
        (now : Instant) (r : Run)
        → Memᴰ r s.runs
        → Step s (record s {
          answers =
              record { tool = r.tool; now = now; result = r.result; shared = true } ∷ s.answers;
        })

  pub data Reach : State → Type 0 where
    start : Reach initial
    next : {s t : State} → Reach s → Step s t → Reach t

-- An index in the sorted form of what was read, under its name; or the error that was read.
abbrev pub IsReadAs : Library → Result (Index × Str) → Result Index → Type 0
IsReadAs L upstream (ok idx) =
    (raw : Index) × (etag : Str) × (upstream ≡ ok (raw, etag))
    × (idx.name ≡ raw.name)
    × IsSortedForm L raw.versions idx.versions
IsReadAs L upstream (err e) = upstream ≡ err e

-- A read of the tool yields the result.
pub record IsFrom (L : Library) (reads : List Read) (tool : Str) (result : Result Index)
    : Type 0 where
  pub read : Read
  pub logged : Memᴰ read reads
  pub same_tool : read.tool ≡ tool
  pub read_as : IsReadAs L read.upstream result

-- A request is answered by a run for its tool: one that ended within the time to live before, or one that
-- singleflight shares.
pub record IsAnswer (L : Library) (ttl : Duration) (reads : List Read) (runs : List Run)
    (a : Answered) : Type 0 where
  pub run : Run
  pub logged : Memᴰ run runs
  pub same_tool : run.tool ≡ a.tool
  pub same_result : run.result ≡ a.result
  pub in_time : (a.shared ≡ true) ⊎ (ltb_ℤ (sub a.now run.stored) ttl ≡ true)
  pub from_read : IsFrom L reads a.tool a.result
