-- ===== src/Text/Sorting.antt =====
-- sort.Strings on Go's strings, which compare byte by byte: the one ascending arrangement of a slice.
use mathlib.Core.List.{Permᴰ}
use s3_registry.Prelude.{
  ◌+◌, ◌≡◌, refl, ap, ◌∙◌, Bool, true, false, ◌&&◌, ◌||◌, List, [], ◌∷◌, arith, if◌then◌else◌, ltb,
  eqb, All, All-map, Bool-cases, inl, inr,
}
use s3_registry.Text.{Str, ◌==◌, count}

-- s <= t
unfoldable pub leb_str : Str → Str → Bool
leb_str [] t = true
leb_str (a ∷ s) [] = false
leb_str (a ∷ s) (b ∷ t) = ltb a b || (eqb a b && leb_str s t)

pub leb_str_total : (s t : Str) → leb_str s t ≡ false → leb_str t s ≡ true
unfolding leb_str
leb_str_total [] t h = absurd (cc)
leb_str_total (a ∷ s) [] h = refl
leb_str_total (a ∷ s) (b ∷ t) h = ground (arith, leb_str_total s t)

pub leb_str_trans : (r s t : Str) → leb_str r s ≡ true → leb_str s t ≡ true → leb_str r t ≡ true
unfolding leb_str
leb_str_trans [] s t h k = refl
leb_str_trans (a ∷ r) [] t h k = absurd (cc)
leb_str_trans (a ∷ r) (b ∷ s) [] h k = absurd (cc)
leb_str_trans (a ∷ r) (b ∷ s) (c ∷ t) h k = ground (arith, leb_str_trans r s t)

pub leb_str_antisym : (s t : Str) → leb_str s t ≡ true → leb_str t s ≡ true → s ≡ t
unfolding leb_str
leb_str_antisym [] [] h k = refl
leb_str_antisym [] (b ∷ t) h k = absurd (cc)
leb_str_antisym (a ∷ s) [] h k = absurd (cc)
leb_str_antisym (a ∷ s) (b ∷ t) h k = ground (arith, leb_str_antisym s t)

unfoldable pub place : Str → List Str → List Str
unfolding leb_str
place s [] = s ∷ []
place s (t ∷ ts) = let rest = place s ts in if leb_str s t then s ∷ t ∷ ts else t ∷ rest

-- sort.Strings
unfoldable pub sort_strings : List Str → List Str
unfolding place
sort_strings [] = []
sort_strings (s ∷ ss) = place s (sort_strings ss)

-- Every text is at most each later one.
abbrev pub IsAscending : List Str → Type 0
IsAscending [] = Unit
IsAscending (s ∷ ss) = All (λ t. leb_str s t ≡ true) ss × IsAscending ss

place-All :
    (r s : Str) (ts : List Str)
    → leb_str r s ≡ true
    → All (λ t. leb_str r t ≡ true) ts
    → All (λ t. leb_str r t ≡ true) (place s ts)
unfolding place
place-All r s [] h k = (h, tt)
place-All r s (t ∷ ts) h (k, ks) = elim (Bool-cases (leb_str s t)) [
  | inl y ↦ rw y (h, (k, ks))
  | inr n ↦ rw n (k, place-All r s ts h ks)
]

place-IsAscending : (s : Str) (ts : List Str) → IsAscending ts → IsAscending (place s ts)
unfolding place
place-IsAscending s [] a = (tt, tt)
place-IsAscending s (t ∷ ts) (a, hs) = elim (Bool-cases (leb_str s t)) [
  | inl y ↦ rw y ((y, All-map _ _ (λ u h. leb_str_trans s t u y h) ts a), (a, hs))
  | inr n ↦ rw n (place-All t s ts (leb_str_total s t n) a, place-IsAscending s ts hs)
]

pub sort_strings-IsAscending : (ss : List Str) → IsAscending (sort_strings ss)
unfolding sort_strings
sort_strings-IsAscending [] = tt
sort_strings-IsAscending (s ∷ ss) =
    place-IsAscending s (sort_strings ss) (sort_strings-IsAscending ss)

count-place :
    (k s : Str) (ts : List Str) → count k (place s ts) ≡ (if s == k then 1 else 0) + count k ts
unfolding place count
count-place k s [] = refl
count-place k s (t ∷ ts) = ground (arith, count-place k s ts)

pub count-sort_strings : (k : Str) (ss : List Str) → count k (sort_strings ss) ≡ count k ss
unfolding sort_strings count
count-sort_strings k [] = refl
count-sort_strings k (s ∷ ss) =
    count-place k s (sort_strings ss)
    ∙ ap (λ n. (if s == k then 1 else 0) + n) (count-sort_strings k ss)

place_comm : (s t : Str) (us : List Str) → place s (place t us) ≡ place t (place s us)
unfolding place
place_comm s t [] = ground (arith, leb_str_antisym s t, leb_str_total s t, leb_str_total t s)
place_comm s t (u ∷ us) = ground (
  arith,
  place_comm s t us,
  leb_str_antisym s t,
  leb_str_total s t,
  leb_str_total t s,
  leb_str_trans s t u,
  leb_str_trans t s u,
)

-- The order of the slice does not matter.
pub sort_strings-Permᴰ : {ss ts : List Str} → Permᴰ ss ts → sort_strings ss ≡ sort_strings ts
unfolding sort_strings
sort_strings-Permᴰ Permᴰ.nil = refl
sort_strings-Permᴰ (Permᴰ.cons {a = s} {l₂ = ts} e d) =
    ap (place s) (sort_strings-Permᴰ d) ∙ ap (λ x. place x (sort_strings ts)) e
sort_strings-Permᴰ (Permᴰ.swap {a = s} {b = t} {a' = t'} {b' = s'} {l = us} e f) =
    place_comm s t (sort_strings us)
    ∙ ap (λ x. place t (place x (sort_strings us))) e
    ∙ ap (λ x. place x (place s' (sort_strings us))) f
sort_strings-Permᴰ (Permᴰ.trans d f) = sort_strings-Permᴰ d ∙ sort_strings-Permᴰ f
