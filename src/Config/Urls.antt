-- ===== src/Config/Urls.antt =====
-- The node URLs of a configuration (`Config::new` of tps-bench/src/config.rs).
use mathlib.Core.Path.{subst}
use ckb_bench_archived.Base.{◌≡◌, ◌≢◌, ◌↔◌, ◌∙◌, List, [], ◌∷◌, inl, inr, if_pos, if_neg, Elem, All}
use ckb_bench_archived.Config.{Spec, dedup_behind, dedup, new}

module _ {Url : Type 0} (Below : Url → Url → Type 0) where
  -- Each element lies below all behind it.
  abbrev pub IsAscending : List Url → Type 0
  IsAscending [] = Unit
  IsAscending (a ∷ urls) = All (Below a) urls × IsAscending urls

  -- What is known of `Vec::sort` and of the order by which it sorts: of two different elements at
  -- most one lies below the other; the result is ascending, with the same elements.
  pub record IsSort (sort : List Url → List Url) : Type 0 where
    pub antisym : (a b : Url) → Below a b → Below b a → a ≡ b
    pub ascending : (urls : List Url) → IsAscending (sort urls)
    pub same : (a : Url) (urls : List Url) → Elem a (sort urls) ↔ Elem a urls

-- No element stands twice.
abbrev pub IsDistinct : {Url : Type 0} → List Url → Type 0
IsDistinct [] = Unit
IsDistinct (a ∷ urls) = All (λ b. b ≢ a) urls × IsDistinct urls

module _ {Url : Type 0} (eq : Discrete Url) where
  dedup_behind-Elem_inv :
      (x a : Url) (urls : List Url) → Elem x (dedup_behind eq a urls) → Elem x urls
  unfolding dedup_behind
  dedup_behind-Elem_inv x a [] h = h
  dedup_behind-Elem_inv x a (b ∷ urls) h = elim (eq b a) [
    | yes p ↦ inr (dedup_behind-Elem_inv x a urls (rw (if_pos (eq b a) p) at h))
    | no p ↦ elim (rw (if_neg (eq b a) p) at h) [
      | inl e ↦ inl e
      | inr later ↦ inr (dedup_behind-Elem_inv x b urls later)
    ]
  ]

  Elem-dedup_behind :
      (x a : Url) (urls : List Url) → x ≢ a → Elem x urls → Elem x (dedup_behind eq a urls)
  unfolding dedup_behind
  Elem-dedup_behind x a [] ne h = h
  Elem-dedup_behind x a (b ∷ urls) ne h = elim (eq b a) [
    | yes p ↦
        rw (if_pos (eq b a) p)
          (elim h [ inl e ↦ absurd (ne (e ∙ p)) | inr later ↦ Elem-dedup_behind x a urls ne later ])
    | no p ↦ rw (if_neg (eq b a) p) (elim (eq x b) [
      | yes e ↦ inl e
      | no ne' ↦ elim h [ inl e ↦ inl e | inr later ↦ inr (Elem-dedup_behind x b urls ne' later) ]
    ])
  ]

  All-dedup_behind :
      (P : Url → Type 0) (a : Url) (urls : List Url) → All P urls → All P (dedup_behind eq a urls)
  unfolding dedup_behind
  All-dedup_behind P a [] h = h
  All-dedup_behind P a (b ∷ urls) h = elim (eq b a) [
    | yes p ↦ rw (if_pos (eq b a) p) (All-dedup_behind P a urls h.1)
    | no p ↦ rw (if_neg (eq b a) p) (h.0, All-dedup_behind P b urls h.1)
  ]

  module _ (Below : Url → Url → Type 0)
      (antisym : (a b : Url) → Below a b → Below b a → a ≡ b) where
    -- Behind `a` in an ascending list, nothing that is left equals `a`.
    differs :
        (a : Url) (urls : List Url)
        → All (Below a) urls
        → IsAscending Below urls
        → All (λ b. b ≢ a) (dedup_behind eq a urls)
    unfolding dedup_behind
    differs a [] above asc = tt
    differs a (b ∷ urls) above asc = elim (eq b a) [
      | yes p ↦ rw (if_pos (eq b a) p) (differs a urls above.1 asc.1)
      | no p ↦
          rw (if_neg (eq b a) p) (p, All-dedup_behind (λ c. c ≢ a) b urls (beyond p urls asc.0))
    ]
      where
        beyond : b ≢ a → (rest : List Url) → All (Below b) rest → All (λ c. c ≢ a) rest
        beyond ne [] h = tt
        beyond ne (c ∷ rest) h =
            (λ e. ne (antisym b a (subst (Below b) e h.0) above.0), beyond ne rest h.1)

    dedup_behind-IsDistinct :
        (a : Url) (urls : List Url)
        → All (Below a) urls
        → IsAscending Below urls
        → IsDistinct (dedup_behind eq a urls)
    unfolding dedup_behind
    dedup_behind-IsDistinct a [] above asc = tt
    dedup_behind-IsDistinct a (b ∷ urls) above asc = elim (eq b a) [
      | yes p ↦ rw (if_pos (eq b a) p) (dedup_behind-IsDistinct a urls above.1 asc.1)
      | no p ↦
          rw (if_neg (eq b a) p)
            (differs b urls asc.0 asc.1, dedup_behind-IsDistinct b urls asc.0 asc.1)
    ]

    dedup-IsDistinct : (urls : List Url) → IsAscending Below urls → IsDistinct (dedup eq urls)
    unfolding dedup
    dedup-IsDistinct [] asc = tt
    dedup-IsDistinct (a ∷ urls) asc =
        (differs a urls asc.0 asc.1, dedup_behind-IsDistinct a urls asc.0 asc.1)

  dedup-Elem_inv : (x : Url) (urls : List Url) → Elem x (dedup eq urls) → Elem x urls
  unfolding dedup
  dedup-Elem_inv x [] h = h
  dedup-Elem_inv x (a ∷ urls) h = elim h [
    | inl e ↦ inl e
    | inr later ↦ inr (dedup_behind-Elem_inv x a urls later)
  ]

  Elem-dedup : (x : Url) (urls : List Url) → Elem x urls → Elem x (dedup eq urls)
  unfolding dedup
  Elem-dedup x [] h = h
  Elem-dedup x (a ∷ urls) h = elim (eq x a) [
    | yes e ↦ inl e
    | no ne ↦ elim h [ inl e ↦ inl e | inr later ↦ inr (Elem-dedup_behind x a urls ne later) ]
  ]

-- With a sort that puts the URLs in the ascending order of an antisymmetric relation, the node URLs
-- of a new configuration are the given ones, and none of them stands twice.
pub new-IsDistinct :
    {Url : Type 0} (eq : Discrete Url) (Below : Url → Url → Type 0) (sort : List Url → List Url)
    → IsSort Below sort
    → (spec : Spec) (urls : List Url)
    → IsDistinct (new eq sort spec urls).rpc_urls
      × ((x : Url) → Elem x (new eq sort spec urls).rpc_urls ↔ Elem x urls)
unfolding new
new-IsDistinct eq Below sort s spec urls = (
  dedup-IsDistinct eq Below s.antisym (sort urls) (s.ascending urls),
  λ x. (
    (λ h. (s.same x urls).0 (dedup-Elem_inv eq x (sort urls) h)),
    (λ h. Elem-dedup eq x (sort urls) ((s.same x urls).1 h)),
  ),
)
