-- ===== src/Domain/Graph/Cycle/Found.antt =====
-- What the search reports is a cycle of the graph.
use pi_build_conductor.Prelude.{
  ℕ, zero, suc, ◌+◌, String, true, List, [], ◌∷◌, ◌++◌, ◌≡◌, refl, sym, ◌∙◌, ap, subst, arith, inl,
  inr, Dict, get, or_else, includes, drop, All, All-of, All-map, All-includes, length, Bool-cases,
  ◌==◌, string_eq, beq_refl, eq_of_beq, includes-append,
}
use pi_build_conductor.Domain.Graph.{Node}
use pi_build_conductor.Domain.Graph.Cycle.{
  Search, Visit, done, found, out_of_fuel, index_of, visit_each, visit, leave, no_search, ids,
  dependency_map, find_cycle,
}
use pi_build_conductor.Domain.Graph.Cycle.Restores.{
  Visit-cases, entered, Restored, visit-new, visit-Restored,
}

module _ (dependencies : Dict (List String)) where
  -- Each id depends on the next one.
  abbrev pub Chain : List String → Type 0
  Chain [] = Unit
  Chain (x ∷ []) = Unit
  Chain (x ∷ y ∷ rest) = (includes y (or_else (get x dependencies) []) ≡ true) × Chain (y ∷ rest)

  -- A chain from an id back to itself.
  abbrev pub IsCycle : List String → Type 0
  IsCycle cycle =
      (first : String) × (middle : List String) × (cycle ≡ first ∷ (middle ++ first ∷ []))
      × Chain cycle

  Chain-tail : (x : String) (xs : List String) → Chain (x ∷ xs) → Chain xs
  Chain-tail x [] h = tt
  Chain-tail x (y ∷ xs) h = h.1

  Chain-drop : (n : ℕ) (xs ys : List String) → Chain (xs ++ ys) → Chain ys → Chain (drop n xs ++ ys)
  Chain-drop zero xs ys h k = h
  Chain-drop (suc n) [] ys h k = k
  Chain-drop (suc n) (x ∷ xs) ys h k = Chain-drop n xs ys (Chain-tail x (xs ++ ys) h) k

  Chain-append :
      (xs : List String) (x y : String)
      → Chain (xs ++ x ∷ [])
      → includes y (or_else (get x dependencies) []) ≡ true
      → Chain ((xs ++ x ∷ []) ++ y ∷ [])
  Chain-append [] x y h d = (d, tt)
  Chain-append (w ∷ []) x y h d = (h.0, (d, tt))
  Chain-append (w ∷ v ∷ xs) x y h d = (h.0, Chain-append (v ∷ xs) x y h.1 d)

  drop-index_of :
      (id : String) (path : List String)
      → includes id path ≡ true
      → (rest : List String) × (drop (index_of id path) path ≡ id ∷ rest)
  unfolding index_of
  drop-index_of id [] m = absurd (cc)
  drop-index_of id (x ∷ path) m = elim (Bool-cases (x == id)) [
    | inl p ↦ (path, rw (p, index_of, eq_of_beq x id p) refl)
    | inr p ↦ let (rest, e) = drop-index_of id path (rw p at m) in (rest, rw (p, index_of) e)
  ]

  -- The ids in progress are on the path, and the path with `id` is a chain.
  abbrev Ready : List String → List String → String → Type 0
  Ready visiting path id = All (λ x. includes x path ≡ true) visiting × Chain (path ++ id ∷ [])

  visit_each-IsCycle :
      (v : String → Search → Visit)
      → ((id : String) (s t : Search) → v id s ≡ done t → Restored s t)
      → ((id : String) (s : Search) (c : List String)
          → v id s ≡ found c
          → Ready s.visiting s.path id
          → IsCycle c)
      → (queue : List String) (s : Search) (c : List String) → visit_each v queue s ≡ found c
      → All (Ready s.visiting s.path) queue
      → IsCycle c
  unfolding visit_each
  visit_each-IsCycle v r h [] s c e a = absurd (cc)
  visit_each-IsCycle v r h (id ∷ queue) s c e a = elim (Visit-cases (v id s)) [
    | inl p ↦ absurd (ground arith)
    | inr (inl (c', p)) ↦ let same : c' ≡ c = ground arith in h id s c (p ∙ ap found same) a.0
    | inr (inr (u, p)) ↦
        let (visiting, path) = r id s u p in
        visit_each-IsCycle v r h queue u c (rw (p, visit_each) at e) (rw (visiting, path) a.1)
  ]

  entered-Ready :
      (id : String) (s : Search)
      → Ready s.visiting s.path id
      → All (Ready (entered id s).visiting (entered id s).path) (or_else (get id dependencies) [])
  entered-Ready id s (m, chain) =
      let on_path : All (λ x. includes x (s.path ++ id ∷ []) ≡ true) (id ∷ s.visiting) = (
        rw (includes-append id s.path (id ∷ []), beq_refl id) (ground arith),
        All-map (λ x. includes x s.path ≡ true) (λ x. includes x (s.path ++ id ∷ []) ≡ true)
            s.visiting (λ x k. rw (includes-append x s.path (id ∷ []), k) refl) m,
      ) in
      All-of (Ready (id ∷ s.visiting) (s.path ++ id ∷ [])) (or_else (get id dependencies) [])
        (λ d k. (on_path, Chain-append s.path id d chain k))

  closed-IsCycle :
      (id : String) (path : List String)
      → includes id path ≡ true
      → Chain (path ++ id ∷ [])
      → IsCycle (drop (index_of id path) path ++ id ∷ [])
  closed-IsCycle id path m chain =
      let (rest, e) = drop-index_of id path m in
      (id, rest, rw e refl, Chain-drop (index_of id path) path (id ∷ []) chain tt)

  leave_found : (id : String) (r : Visit) (c : List String) → leave id r ≡ found c → r ≡ found c
  leave_found id out_of_fuel c e = absurd (cc)
  leave_found id (found c') c e = e
  leave_found id (done s) c e = absurd (cc)

  visit-IsCycle :
      (fuel : ℕ) (id : String) (s : Search) (c : List String)
      → visit dependencies fuel id s ≡ found c
      → Ready s.visiting s.path id
      → IsCycle c
  unfolding visit
  visit-IsCycle zero id s c e ready = absurd (cc)
  visit-IsCycle (suc fuel) id s c e ready = elim (Bool-cases (includes id s.visiting)) [
    | inl p ↦
        let same : drop (index_of id s.path) s.path ++ id ∷ [] ≡ c = ground arith in
        subst IsCycle same (
          closed-IsCycle id s.path
            (All-includes (λ x. includes x s.path ≡ true) id s.visiting ready.0 p) ready.1)
    | inr p ↦ elim (Bool-cases (includes id s.visited)) [
      | inl q ↦ absurd (ground arith)
      | inr q ↦
          visit_each-IsCycle (visit dependencies fuel) (visit-Restored dependencies fuel)
            (visit-IsCycle fuel) (or_else (get id dependencies) []) (entered id s) c
            (leave_found id _ c (sym (visit-new dependencies fuel id s p q) ∙ e))
            (entered-Ready id s ready)
    ]
  ]

-- If the search reports a cycle, the list leads from an id back to it, and each of its ids
-- depends on the next.
pub find_cycle-IsCycle :
    (nodes : List Node) (cycle : List String)
    → find_cycle nodes ≡ found cycle
    → IsCycle (dependency_map nodes) cycle
unfolding find_cycle
find_cycle-IsCycle nodes cycle e =
    let m = dependency_map nodes in
    visit_each-IsCycle m (visit m (length nodes + 2)) (visit-Restored m (length nodes + 2))
      (visit-IsCycle m (length nodes + 2)) (ids nodes) no_search cycle e
      (All-of (Ready m [] []) (ids nodes) (λ x k. (tt, tt)))
