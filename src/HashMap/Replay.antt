-- ===== src/HashMap/Replay.antt =====
-- Entries that come and go round by round: what a map holds in the end, by the history alone.
use native.Mathlib.Decide.{ℕ_discrete}
use ckb_bench_archived.Base.{
  ◌∙◌, ℕ, zero, suc, ◌≤◌, ◌<◌, some, some, List, [], ◌∷◌, ◌++◌, if_pos, ◌≡◌, ◌≢◌, ◌⊎◌, inl, inr,
  refl, sym, ap, arith, Elem,
}
use ckb_bench_archived.HashMap.{
  Distinct, insert-Distinct, remove-Distinct, HashMap, get, remove, insert, insert_all, remove_all,
  get-remove,
}

module _ {K V : Type 0} (dec : Discrete K) where
  pub insert_all-append :
      (es fs : List (K × V)) (m : HashMap K V)
      → insert_all dec (es ++ fs) m ≡ insert_all dec fs (insert_all dec es m)
  insert_all-append [] fs m = refl
  insert_all-append ((k, v) ∷ es) fs m = insert_all-append es fs (insert dec k v m)

  -- After a removal the entries with other keys are left.
  pub remove-some :
      (j k : K) (v : V) (m : HashMap K V)
      → get dec j (remove dec k m) ≡ some v
      → (j ≢ k) × (get dec j m ≡ some v)
  remove-some j k v m h = elim (dec j k) [
    | yes p ↦ absurd (ground (arith, get-remove dec j k m))
    | no p ↦ (p, ground (arith, get-remove dec j k m))
  ]

  pub remove_all-some :
      (j : K) (v : V) (ks : List K) (m : HashMap K V)
      → get dec j (remove_all dec ks m) ≡ some v
      → (¬ Elem j ks) × (get dec j m ≡ some v)
  remove_all-some j v [] m h = (λ e. e, h)
  remove_all-some j v (k ∷ ks) m h =
      let (rest, kept) = remove_all-some j v ks (remove dec k m) h in
      let (ne, found) = remove-some j k v m kept in
      (λ e. elim e [ inl same ↦ ne same | inr later ↦ rest later ], found)

  pub some-remove_all :
      (j : K) (v : V) (ks : List K) (m : HashMap K V)
      → ¬ Elem j ks
      → get dec j m ≡ some v
      → get dec j (remove_all dec ks m) ≡ some v
  some-remove_all j v [] m ne h = h
  some-remove_all j v (k ∷ ks) m ne h =
      some-remove_all j v ks (remove dec k m) (λ e. ne (inr e))
        (ground (arith, get-remove dec j k m, ne))

  pub insert_all-some :
      (j : K) (v : V) (es : List (K × V)) (m : HashMap K V)
      → get dec j (insert_all dec es m) ≡ some v
      → Elem (j, v) es ⊎ (get dec j m ≡ some v)
  insert_all-some j v [] m h = inr h
  insert_all-some j v ((k, u) ∷ es) m h = elim (insert_all-some j v es (insert dec k u m) h) [
    | inl later ↦ inl (inr later)
    | inr here ↦ elim (dec j k) [
      | yes p ↦ inl (inl (ground arith))
      | no p ↦ inr (ground (arith, get-remove dec j k m))
    ]
  ]

  -- An entry that is there, or comes, stays if every entry that comes with its key has its value.
  pub some-insert_all :
      (j : K) (v : V) (es : List (K × V)) (m : HashMap K V)
      → ((u : V) → Elem (j, u) es → u ≡ v)
      → Elem (j, v) es ⊎ (get dec j m ≡ some v)
      → get dec j (insert_all dec es m) ≡ some v
  some-insert_all j v [] m same (inl e) = elim e [ ]
  some-insert_all j v [] m same (inr h) = h
  some-insert_all j v ((k, u) ∷ es) m same h =
      some-insert_all j v es (insert dec k u m) (λ t e. same t (inr e)) (after h)
    where
      after :
          Elem (j, v) ((k, u) ∷ es) ⊎ (get dec j m ≡ some v)
          → Elem (j, v) es ⊎ (get dec j (insert dec k u m) ≡ some v)
      after (inl (inr later)) = inl later
      after (inl (inl here)) = inr (
          if_pos (dec j k) (ap (λ (e : K × V). e.0) here) _ _
          ∙ ap (λ (e : K × V). some e.1) (sym here))
      after (inr old) = inr (elim (dec j k) [
        | yes p ↦ if_pos (dec j k) p _ _ ∙ ap some (same u (inl (ground arith)))
        | no p ↦ ground (arith, get-remove dec j k m)
      ])

  -- Round by round: first the new entries come, then the removed keys go.
  module _ (created : ℕ → List (K × V)) (removed : ℕ → List K) where
    unfoldable pub replay : ℕ → HashMap K V
    replay zero = []
    replay (suc n) = remove_all dec (removed n) (insert_all dec (created n) (replay n))

    -- The entry came in one of the first `count` rounds, and from that round on its key was not
    -- removed.
    pub record IsLive (count : ℕ) (k : K) (v : V) : Type 0 where
      pub round : ℕ
      pub done : round < count
      pub came : Elem (k, v) (created round)
      pub stayed : (m : ℕ) → round ≤ m → m < count → ¬ Elem k (removed m)

    -- In the first `count` rounds a key comes in one round at most, and with one value.
    abbrev pub ComeOnce : ℕ → Type 0
    ComeOnce count =
        (n m : ℕ) (k : K) (u v : V)
        → n < count
        → m < count
        → Elem (k, u) (created n)
        → Elem (k, v) (created m)
        → (n ≡ m) × (u ≡ v)

    later_round :
        (count : ℕ) (k : K) (v : V)
        → ¬ Elem k (removed count)
        → IsLive count k v
        → IsLive (suc count) k v
    later_round count k v kept l = record {
      round = l.round;
      done = omega (arith, l.done);
      came = l.came;
      stayed = λ m le lt. elim (ℕ_discrete m count) [
        | yes e ↦ rw e kept
        | no ne ↦ l.stayed m le (omega arith)
      ];
    }

    pub replay-IsLive :
        (count : ℕ) (k : K) (v : V) → get dec k (replay count) ≡ some v → IsLive count k v
    unfolding replay
    replay-IsLive zero k v h = cc
    replay-IsLive (suc n) k v h =
        let (kept, found) =
          remove_all-some k v (removed n) (insert_all dec (created n) (replay n)) h in
        elim (insert_all-some k v (created n) (replay n) found) [
          | inl new ↦ record {
            round = n;
            done = omega arith;
            came = new;
            stayed = λ m le lt. let e : m ≡ n = omega arith in rw e kept;
          }
          | inr old ↦ later_round n k v kept (replay-IsLive n k v old)
        ]

    pub IsLive-replay :
        (count : ℕ) (k : K) (v : V)
        → ComeOnce count
        → IsLive count k v
        → get dec k (replay count) ≡ some v
    unfolding replay
    IsLive-replay zero k v once l = absurd (omega (arith, l.done))
    IsLive-replay (suc n) k v once l =
        some-remove_all k v (removed n) _ (l.stayed n (omega (arith, l.done)) (omega arith)) (
          some-insert_all k v (created n) (replay n)
            (λ u e. (once n l.round k u v (omega arith) l.done e l.came).1)
            (elim (ℕ_discrete l.round n) [
              | yes e ↦ inl (rw e at (l.came))
              | no ne ↦ inr (
                  IsLive-replay n k v
                    (λ a b j t u la lb. once a b j t u (omega arith) (omega arith))
                    (record {
                      round = l.round;
                      done = omega (arith, l.done);
                      came = l.came;
                      stayed = λ m le lt. l.stayed m le (omega arith);
                    }))
            ]))

  pub insert_all-Distinct :
      (es : List (K × V)) (m : HashMap K V) → Distinct dec m → Distinct dec (insert_all dec es m)
  insert_all-Distinct [] m h = h
  insert_all-Distinct ((k, v) ∷ es) m h =
      insert_all-Distinct es (insert dec k v m) (insert-Distinct dec k v m h)

  pub remove_all-Distinct :
      (ks : List K) (m : HashMap K V) → Distinct dec m → Distinct dec (remove_all dec ks m)
  remove_all-Distinct [] m h = h
  remove_all-Distinct (k ∷ ks) m h =
      remove_all-Distinct ks (remove dec k m) (remove-Distinct dec k m h)
