-- ===== src/Queries/Coherence/Client.antt =====
-- TanStack Query's client, as the hooks of frontend/lib/queries rely on it: a parameter.
use mentorio.Prelude.{
  Bool, false, Option, List, [], ◌∷◌, ◌++◌, String, ◌≡◌, refl, ◌⊎◌, inl, inr, ◌∙◌, All,
}
use mentorio.Prelude.Text.{codes, same}
use mentorio.Json.{Json}
use mentorio.Queries.{Key, name, Effect, invalidate, set_query_data, invalidated}

-- `serves key` says that a query of this key is answered from the cache, without a request.
pub record QueryClient : Type 1 where
  pub Cache : Type 0
  pub serves : Key → Cache → Bool
  pub invalidate_queries : Key → Cache → Cache
  pub set_data : Key → Option Json → Cache → Cache
  -- Keys are matched by their beginning.
  pub serves-invalidate_queries :
      (prefix rest : Key) (c : Cache)
      → serves (prefix ++ rest) (invalidate_queries prefix c) ≡ false
  -- What is invalidated stays so when more is.
  pub invalidate_queries_more :
      (key prefix : Key) (c : Cache)
      → serves key c ≡ false
      → serves key (invalidate_queries prefix c) ≡ false
  -- A key of another name is left as it is.
  pub invalidate_queries_other :
      (n m : String) (rest more : Key) (c : Cache)
      → same (codes m) (codes n) ≡ false
      → serves (name m ∷ more) (invalidate_queries (name n ∷ rest) c) ≡ serves (name m ∷ more) c

abbrev pub OnlyInvalidates : List Effect → Type 0
OnlyInvalidates [] = Unit
OnlyInvalidates (invalidate prefix ∷ es) = OnlyInvalidates es
OnlyInvalidates (set_query_data key value ∷ es) = ⊥

-- The keys of a name are invalidated, and nothing is put into the cache behind that.
abbrev pub Refreshes : String → List Effect → Type 0
Refreshes n [] = ⊥
Refreshes n (e ∷ es) = ((e ≡ invalidate (name n ∷ [])) × OnlyInvalidates es) ⊎ Refreshes n es

module _ (client : QueryClient) where
  open client use {
    Cache, serves, invalidate_queries, set_data, serves-invalidate_queries, invalidate_queries_more,
    invalidate_queries_other,
  }

  -- The calls on the client, one after another.
  unfoldable pub run : List Effect → Cache → Cache
  run [] c = c
  run (invalidate prefix ∷ es) c = run es (invalidate_queries prefix c)
  run (set_query_data key value ∷ es) c = run es (set_data key value c)

  run_more :
      (key : Key) (es : List Effect) (c : Cache)
      → OnlyInvalidates es
      → serves key c ≡ false
      → serves key (run es c) ≡ false
  unfolding run
  run_more key [] c only h = h
  run_more key (invalidate prefix ∷ es) c only h =
      run_more key es _ only (invalidate_queries_more key prefix c h)
  run_more key (set_query_data j v ∷ es) c only h = absurd only

  pub run-Refreshes :
      (n : String) (rest : Key) (es : List Effect) (c : Cache)
      → Refreshes n es
      → serves (name n ∷ rest) (run es c) ≡ false
  unfolding run
  run-Refreshes n rest [] c h = absurd h
  run-Refreshes n rest (invalidate prefix ∷ es) c (inl (e, only)) =
      let p : prefix ≡ name n ∷ [] = cc in
      rw p (run_more (name n ∷ rest) es _ only (serves-invalidate_queries (name n ∷ []) rest c))
  run-Refreshes n rest (set_query_data j v ∷ es) c (inl (e, only)) = cc
  run-Refreshes n rest (invalidate prefix ∷ es) c (inr h) = run-Refreshes n rest es _ h
  run-Refreshes n rest (set_query_data j v ∷ es) c (inr h) = run-Refreshes n rest es _ h

  -- Invalidating lists of other names leaves an entry alone.
  pub run-invalidated_other :
      (m : String) (more : Key) (ns : List String) (c : Cache)
      → All (λ n. same (codes m) (codes n) ≡ false) ns
      → serves (name m ∷ more) (run (invalidated ns) c) ≡ serves (name m ∷ more) c
  unfolding run
  run-invalidated_other m more [] c h = refl
  run-invalidated_other m more (n ∷ ns) c (ne, h) =
      run-invalidated_other m more ns (invalidate_queries (name n ∷ []) c) h
      ∙ invalidate_queries_other n m [] more c ne
