-- ===== src/Server/Auth.antt =====
-- Which requests the bearer check passes on.
use s3_registry.Prelude.{
  ◌≡◌, ◌↔◌, true, false, [], ◌++◌, arith, ◌⊎◌, inl, inr, Option-cases, Bool-cases,
}
use s3_registry.Text.{Str, codes, ◌==◌, eq_iff, eq_refl, has_prefix, strip_prefix, strip_prefix-eq}
use s3_registry.Text.Unicode.{Unicode, trim_space}
use s3_registry.Server.{bearer_ok, passes}

abbrev prefix : Str
prefix = codes "Bearer "

-- A bearer credential for the token.
abbrev pub Presents : Unicode → Str → Str → Type 0
Presents t token auth =
    (rest : Str) × (auth ≡ codes "Bearer " ++ rest) × (trim_space t rest ≡ token)

bearer→Presents :
    (t : Unicode) (token auth : Str) → bearer_ok t token auth ≡ true → Presents t token auth
unfolding bearer_ok
bearer→Presents t token auth h = elim (Option-cases (strip_prefix auth prefix)) [
  | inl e ↦ absurd (ground (arith, e))
  | inr (rest, e) ↦ (rest, strip_prefix-eq auth prefix rest e, (eq_iff _ _).0 (ground (arith, e)))
]

Presents→bearer :
    (t : Unicode) (token auth : Str) → Presents t token auth → bearer_ok t token auth ≡ true
unfolding bearer_ok
Presents→bearer t token auth (rest, e, same) = rw (e, same) (eq_refl token)

-- A request is passed on exactly if no token is configured, or its path does not begin with /tools,
-- or it presents the token: `Bearer ` and then the token, up to white space around it.
pub passes_iff :
    (t : Unicode) (token path auth : Str)
    → (passes t token path auth ≡ true)
      ↔ ((token ≡ []) ⊎ ((has_prefix path (codes "/tools") ≡ false) ⊎ Presents t token auth))
unfolding passes
passes_iff t token path auth = (forth, back)
  where
    forth :
        passes t token path auth ≡ true
        → (token ≡ []) ⊎ ((has_prefix path (codes "/tools") ≡ false) ⊎ Presents t token auth)
    forth h = elim (Bool-cases (token == [])) [
      | inl y ↦ inl ((eq_iff token []).0 y)
      | inr n ↦ elim (Bool-cases (has_prefix path (codes "/tools"))) [
        | inl under ↦ inr (inr (bearer→Presents t token auth (rw (passes, n, under) at h)))
        | inr other ↦ inr (inl other)
      ]
    ]

    back :
        (token ≡ []) ⊎ ((has_prefix path (codes "/tools") ≡ false) ⊎ Presents t token auth)
        → passes t token path auth ≡ true
    back (inl e) = ground (arith, eq_iff token [])
    back (inr (inl e)) = ground (arith, e)
    back (inr (inr p)) = ground (arith, Presents→bearer t token auth p)
