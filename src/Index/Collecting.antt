-- ===== src/Index/Collecting.antt =====
-- The second part of SortVersions: the merged versions in the order of a list of texts.
use mathlib.Core.Path.{ap₂}
use s3_registry.Prelude.{
  ◌≡◌, refl, true, none, some, List, [], ◌∷◌, arith, if◌then◌else◌, All, Option-cases, inl, inr,
}
use s3_registry.Text.{Str, eq_iff, count, contains}
use s3_registry.Dict.{Dict, lookup}
use s3_registry.Result.{ok}
use s3_registry.Index.{Version, collect, not_in}
use s3_registry.Index.View.{is_some, names, version_at}

-- Each key of the map is the text of its version.
abbrev pub KeyedByVersion : Dict Version → Type 0
KeyedByVersion merged = (k : Str) (v : Version) → lookup k merged ≡ some v → v.version ≡ k

-- A collection that panics nowhere.
pub record Collected (merged : Dict Version) (ks : List Str) : Type 0 where
  pub out : List Version
  pub done : collect merged ks ≡ ok out
  pub names_out : names out ≡ ks
  pub found : (k : Str) → version_at k out ≡ (if contains k ks then lookup k merged else none)

pub collect_all :
    (merged : Dict Version) (ks : List Str)
    → KeyedByVersion merged
    → All (λ k. is_some (lookup k merged) ≡ true) ks
    → Collected merged ks
unfolding collect contains version_at
collect_all merged [] keyed h = record {
  out = [];
  done = refl;
  names_out = refl;
  found = λ k. refl;
}
collect_all merged (j ∷ ks) keyed h =
    let rest = collect_all merged ks keyed h.1 in
    elim (Option-cases (lookup j merged)) [
      | inl e ↦ absurd (cc (rw e at (h.0)))
      | inr (v, e) ↦ record {
        out = v ∷ rest.out;
        done = rw (e, rest.done) refl;
        names_out = ap₂ ◌∷◌ (keyed j v e) rest.names_out;
        found = λ k. ground (arith, e, keyed j v e, rest.found k, eq_iff v.version k, eq_iff j k);
      }
    ]

pub count-not_in :
    (k : Str) (sorted ks : List Str)
    → count k (not_in sorted ks) ≡ (if contains k sorted then 0 else count k ks)
unfolding count not_in
count-not_in k sorted [] = ground arith
count-not_in k sorted (j ∷ ks) = ground (arith, count-not_in k sorted ks, eq_iff j k)
