-- ===== src/Index/Merging.antt =====
-- The first loop of SortVersions: what it holds of each version, and in which order it met them.
use s3_registry.Prelude.{
  ◌≤◌, ◌≡◌, refl, ap, ◌∙◌, ◌||◌, Option, none, some, List, [], ◌∷◌, ◌++◌, arith, if◌then◌else◌,
}
use s3_registry.Text.{
  Str, ◌==◌, eq_iff, count, contains, contains-append, contains-eq-count, count-append,
}
use s3_registry.Dict.{Dict, lookup, lookup-insert}
use s3_registry.Index.{Artifact, Version, copy_into, absorb, Merge, merge_one, merge_all}
use s3_registry.Index.View.{is_some, names}

-- Of two readings of an artifact the later one, if it is there.
abbrev pub or_else : Option Artifact → Option Artifact → Option Artifact
or_else none b = b
or_else (some a) b = some a

pub or_else-none : (a : Option Artifact) → or_else a none ≡ a
or_else-none none = refl
or_else-none (some a) = refl

pub lookup-copy_into :
    (k : Str) (r m : Dict Artifact) → lookup k (copy_into r m) ≡ or_else (lookup k r) (lookup k m)
unfolding copy_into lookup
lookup-copy_into k [] m = refl
lookup-copy_into k ((oa, a) ∷ r) m = rw lookup-insert (ground (arith, lookup-copy_into k r m))

-- The entries of one version, folded in the order of the list.
unfoldable pub fold_version : Str → Option Version → List Version → Option Version
fold_version k o [] = o
fold_version k o (v ∷ vs) = fold_version k (if v.version == k then some (absorb o v) else o) vs

lookup-merge_one :
    (k : Str) (v : Version) (s : Merge)
    → lookup k (merge_one v s).merged
      ≡ (if v.version == k then some (absorb (lookup k s.merged) v) else lookup k s.merged)
unfolding merge_one
lookup-merge_one k v s = rw lookup-insert (ground (arith, eq_iff v.version k))

pub lookup-merge_all :
    (k : Str) (vs : List Version) (s : Merge)
    → lookup k (merge_all vs s).merged ≡ fold_version k (lookup k s.merged) vs
unfolding merge_all fold_version
lookup-merge_all k [] s = refl
lookup-merge_all k (v ∷ vs) s =
    lookup-merge_all k vs (merge_one v s) ∙ ap (λ o. fold_version k o vs) (lookup-merge_one k v s)

-- The texts not met before, in the order in which they come.
pub add_new : List Str → List Str → List Str
add_new seen [] = seen
add_new seen (k ∷ ks) = add_new (if contains k seen then seen else seen ++ k ∷ []) ks

-- `seen` holds the keys of `merged`.
abbrev Agrees : Merge → Type 0
Agrees s = (k : Str) → contains k s.seen ≡ is_some (lookup k s.merged)

merge_one-Agrees : (v : Version) (s : Merge) → Agrees s → Agrees (merge_one v s)
unfolding merge_one contains
merge_one-Agrees v s h k = rw lookup-insert (
    ground (arith, contains-append k s.seen (v.version ∷ []), h k, h v.version, eq_iff v.version k))

seen-merge_one :
    (v : Version) (s : Merge)
    → Agrees s
    → (merge_one v s).seen
      ≡ (if contains v.version s.seen then s.seen else s.seen ++ v.version ∷ [])
unfolding merge_one
seen-merge_one v s h = ground (arith, h v.version)

pub seen-merge_all :
    (vs : List Version) (s : Merge) → Agrees s → (merge_all vs s).seen ≡ add_new s.seen (names vs)
unfolding merge_all add_new
seen-merge_all [] s h = refl
seen-merge_all (v ∷ vs) s h =
    seen-merge_all vs (merge_one v s) (merge_one-Agrees v s h)
    ∙ ap (λ l. add_new l (names vs)) (seen-merge_one v s h)

pub contains-add_new :
    (k : Str) (seen ks : List Str)
    → contains k (add_new seen ks) ≡ (contains k seen || contains k ks)
unfolding add_new contains
contains-add_new k seen [] = ground arith
contains-add_new k seen (j ∷ ks) =
    contains-add_new k (if contains j seen then seen else seen ++ j ∷ []) ks
    ∙ ground (arith, contains-append k seen (j ∷ []), eq_iff j k)

pub count-add_new :
    (k : Str) (seen ks : List Str) → ((j : Str) → count j seen ≤ 1) → count k (add_new seen ks) ≤ 1
unfolding add_new
count-add_new k seen [] h = h k
count-add_new k seen (j ∷ ks) h =
    count-add_new k (if contains j seen then seen else seen ++ j ∷ []) ks (λ i.
      unfold count in
      ground (arith, count-append i seen (j ∷ []), contains-eq-count j seen, h i, eq_iff j i))
