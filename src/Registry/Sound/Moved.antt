-- ===== src/Registry/Sound/Moved.antt =====
-- Changes of a bucket that leave it sound: what the program's keys are to one another, by
-- parseArtifactKey of cmd/s3reg/reindex.go.
use s3_registry.Prelude.{
  ◌≡◌, refl, sym, ◌∙◌, ap, true, false, ◌&&◌, none, some, List, ◌++◌, append_assoc, ◌⊎◌, inl, inr,
  Bool-cases, Option-cases, arith,
}
use s3_registry.Text.{Str, codes, ◌==◌, eq_iff, eq_refl, strip_prefix-append, contains}
use s3_registry.Index.{Artifact}
use s3_registry.Index.View.{artifact_at}
use s3_registry.Store.{Codec, index_key}
use s3_registry.Store.Laws.{index_in}
use s3_registry.Reindex.{below_tool, parse_artifact_key}
use s3_registry.Registry.Sound.{Content, IsBacked, IsSound}

index_below : (tool : Str) → below_tool tool (index_key tool) ≡ some (codes "index.json")
unfolding below_tool index_key
index_below tool =
    ap (λ k. below_tool tool k) (sym (append_assoc tool (codes "/") (codes "index.json")))
    ∙ strip_prefix-append (tool ++ codes "/") (codes "index.json")

index_key-unparsed : (tool : Str) → parse_artifact_key tool (index_key tool) ≡ none
unfolding parse_artifact_key
index_key-unparsed tool =
    rw (index_below tool, parse_artifact_key) (rw (eq_refl (codes "index.json")) refl)

-- The keys below the tool's name
abbrev pub Under : Str → Str → Type 0
Under tool k = (rest : Str) × (below_tool tool k ≡ some rest)

pub index_key-Under : (tool : Str) → Under tool (index_key tool)
index_key-Under tool = (codes "index.json", index_below tool)

pub parsed-Under : (tool k v x : Str) → parse_artifact_key tool k ≡ some (v, x) → Under tool k
unfolding parse_artifact_key
parsed-Under tool k v x h = elim (Option-cases (below_tool tool k)) [
  | inl e ↦ absurd (ground (arith, h, e))
  | inr (rest, e) ↦ (rest, e)
]

-- The index does not stand at the key of an artifact.
pub index_key-ne :
    (tool k v x : Str) → parse_artifact_key tool k ≡ some (v, x) → index_key tool == k ≡ false
index_key-ne tool k v x h = elim (Bool-cases (index_key tool == k)) [
  | inl y ↦ absurd (cc (h, index_key-unparsed tool, (eq_iff (index_key tool) k).0 y))
  | inr n ↦ n
]

-- Keys of different versions or os-archs are different.
pub parsed-ne :
    (tool k l v x w y : Str)
    → parse_artifact_key tool k ≡ some (v, x)
    → parse_artifact_key tool l ≡ some (w, y)
    → (v == w && x == y) ≡ false
    → k == l ≡ false
parsed-ne tool k l v x w y h g d = elim (Bool-cases (k == l)) [
  | inl e ↦
      let same : some (v, x) ≡ some (w, y) =
        sym h ∙ ap (parse_artifact_key tool) ((eq_iff k l).0 e) ∙ g in
      absurd (ground (arith, same, eq_iff v w, eq_iff x y))
  | inr n ↦ n
]

module _ (C : Codec) (digest : Str → Str) (tool : Str) where
  pub IsBacked-moved :
      (a : Artifact) (at at' : Content)
      → at' a.key ≡ at a.key
      → IsBacked digest at a
      → IsBacked digest at' a
  IsBacked-moved a at at' e (o, h, d, n) = (o, e ∙ h, d, n)

  -- A change that leaves the index and every object that is not pending.
  pub IsSound-moved :
      (pending pending' : List Str) (at at' : Content) (s : IsSound C digest tool pending at)
      → at' (index_key tool) ≡ at (index_key tool)
      → ((k : Str) → contains k pending ≡ true → contains k pending' ≡ true)
      → ((v x : Str) (a : Artifact)
          → artifact_at v x s.idx.versions ≡ some a
          → (contains a.key pending' ≡ true) ⊎ (at' a.key ≡ at a.key))
      → IsSound C digest tool pending' at'
  IsSound-moved pending pending' at at' s same more kept = record {
    idx = s.idx;
    read = ap (index_in C tool) same ∙ s.read;
    distinct = s.distinct;
    keyed = s.keyed;
    backed = λ v x a h. elim (s.backed v x a h) [
      | inl p ↦ inl (more a.key p)
      | inr b ↦ elim (kept v x a h) [ inl p ↦ inl p | inr e ↦ inr (IsBacked-moved a at at' e b) ]
    ];
  }
