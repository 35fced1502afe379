-- ===== src/Store/Listing.antt =====
-- ListTools, ListObjects and ListKeys of internal/store/store.go.
use mathlib.Core.Option
use s3_registry.Prelude.{
  Bool, true, false, Option, none, some, List, [], ◌∷◌, ◌++◌, if◌then◌else◌, map, ℕ, zero, suc,
}
use s3_registry.Text.{Str, codes, ◌==◌}
use s3_registry.Instant.{Instant, zero_time}
use s3_registry.Result.{Result, ok, err, service, ◌>>=◌}
use s3_registry.Store.{Service, done, failed, Listed}

abbrev pub time_of : Option Instant → Instant
time_of none = zero_time
time_of (some t) = t

-- strings.TrimSuffix(p, "/")
unfoldable pub trim_slash : Str → Str
trim_slash [] = []
trim_slash (c ∷ []) = if c ∷ [] == codes "/" then [] else c ∷ []
trim_slash (c ∷ d ∷ s) = c ∷ trim_slash (d ∷ s)

-- Object
pub record Object : Type 0 where
  pub key : Str
  pub last_modified : Instant

-- the loops over the two lists of a page
unfoldable pub tools_of : List (Option Str) → List Str
unfolding trim_slash
tools_of [] = []
tools_of (none ∷ ps) = tools_of ps
tools_of (some p ∷ ps) = trim_slash p ∷ tools_of ps

abbrev listed : Option Str → Instant → List Object → List Object
listed none t objs = objs
listed (some k) t objs = record { key = k; last_modified = t } ∷ objs

unfoldable pub objects_of : List Listed → List Object
objects_of [] = []
objects_of (o ∷ os) = listed o.key (time_of o.last_modified) (objects_of os)

-- out.IsTruncated != nil && *out.IsTruncated
abbrev pub is_more : Option Bool → Bool
is_more none = false
is_more (some b) = b

-- the keys of the objects, in their order
abbrev pub keys_of : Result (List Object) → Result (List Str)
keys_of r = do objs ← r; ok (map (λ (o : Object). o.key) objs)

module _ (S : Service) where
  open S use {Bucket}

  -- The loops of ListTools and ListObjects, on fuel for the pages; `none` is a loop still running.
  unfoldable pub list_tools : ℕ → Option Str → List Str → Bucket → Option (Result (List Str))
  unfolding tools_of
  list_tools zero token tools b = none
  list_tools (suc fuel) token tools b = elim (S.list_objects b none (some (codes "/")) token) [
    | failed e ↦ some (err (service e.message))
    | done out ↦ elim (is_more out.is_truncated) [
      | true ↦ list_tools fuel out.next (tools ++ tools_of out.common_prefixes) b
      | false ↦ some (ok (tools ++ tools_of out.common_prefixes))
    ]
  ]

  unfoldable pub list_objects :
      ℕ → Str → Option Str → List Object → Bucket → Option (Result (List Object))
  unfolding objects_of
  list_objects zero prefix token objs b = none
  list_objects (suc fuel) prefix token objs b = elim (S.list_objects b (some prefix) none token) [
    | failed e ↦ some (err (service e.message))
    | done out ↦ elim (is_more out.is_truncated) [
      | true ↦ list_objects fuel prefix out.next (objs ++ objects_of out.contents) b
      | false ↦ some (ok (objs ++ objects_of out.contents))
    ]
  ]

  -- ListKeys
  unfoldable pub list_keys : ℕ → Str → Bucket → Option (Result (List Str))
  unfolding list_objects
  list_keys fuel prefix b = Option.map keys_of (list_objects fuel prefix none [] b)
