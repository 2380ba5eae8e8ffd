-- ===== src/Domain/Graph/Cycle/Fuel.antt =====
-- The search for a cycle never runs out of fuel.
use pi_build_conductor.Prelude.{
  ℕ, zero, suc, ◌+◌, ◌≤◌, String, true, false, not, List, [], ◌∷◌, ◌≡◌, ◌≢◌, refl, sym, ◌∙◌, ap,
  subst, arith, inl, inr, is_some, Dict, get, put, keys, includes-keys, or_else, includes, filter,
  length, length-filter-le, Bool-cases, Option-cases, ◌==◌, string_eq, beq_refl, eq_of_beq,
}
use pi_build_conductor.Domain.Graph.{Node}
use pi_build_conductor.Domain.Graph.Cycle.{
  Search, Visit, done, found, out_of_fuel, visit_each, visit, leave, no_search, ids,
  dependency_map_from, dependency_map, find_cycle,
}
use pi_build_conductor.Domain.Graph.Cycle.Restores.{Visit-cases, entered, visit-new, visit-Restored}

-- How many of the ids are not in progress.
abbrev open_ids : List String → List String → ℕ
open_ids known visiting = length (filter (λ k. not (includes k visiting)) known)

open_ids-le :
    (known visiting : List String) (id : String)
    → open_ids known (id ∷ visiting) ≤ open_ids known visiting
open_ids-le [] visiting id = omega arith
open_ids-le (k ∷ known) visiting id =
    let rest = open_ids-le known visiting id in
    elim (Bool-cases (id == k)) [
      | inl p ↦ elim (Bool-cases (includes k visiting)) [
        | inl q ↦ rw (p, q) rest
        | inr q ↦ rw (p, q) (omega (arith, rest))
      ]
      | inr p ↦ elim (Bool-cases (includes k visiting)) [
        | inl q ↦ rw (p, q) rest
        | inr q ↦ rw (p, q) (omega (arith, rest))
      ]
    ]

open_ids-lt :
    (known visiting : List String) (id : String)
    → includes id known ≡ true
    → includes id visiting ≡ false
    → suc (open_ids known (id ∷ visiting)) ≤ open_ids known visiting
open_ids-lt [] visiting id m n = absurd (cc)
open_ids-lt (k ∷ known) visiting id m n = elim (Bool-cases (k == id)) [
  | inl p ↦
      let q : id == k ≡ true = rw (eq_of_beq k id p) (beq_refl id) in
      let a : includes k visiting ≡ false = rw (eq_of_beq k id p) n in
      rw (q, a) (omega (arith, open_ids-le known visiting id))
  | inr p ↦
      let m' : includes id known ≡ true = rw p at m in
      let rest = open_ids-lt known visiting id m' n in
      elim (Bool-cases (id == k)) [
        | inl q ↦ absurd (let bad = eq_of_beq id k q in ground (arith, beq_refl id, bad))
        | inr q ↦ elim (Bool-cases (includes k visiting)) [
          | inl a ↦ rw (q, a) rest
          | inr a ↦ rw (q, a) (omega (arith, rest))
        ]
      ]
]

module _ (dependencies : Dict (List String)) where
  -- Enough fuel for a visit with these ids in progress.
  abbrev Enough : ℕ → List String → Type 0
  Enough fuel visiting = open_ids (keys dependencies) visiting + 2 ≤ fuel

  visit_each-ends :
      (fuel : ℕ)
      → ((id : String) (s : Search)
          → Enough fuel s.visiting
          → visit dependencies fuel id s ≢ out_of_fuel)
      → (queue : List String) (s : Search) → Enough fuel s.visiting
      → visit_each (visit dependencies fuel) queue s ≢ out_of_fuel
  unfolding visit_each
  visit_each-ends fuel h [] s n e = absurd (cc)
  visit_each-ends fuel h (id ∷ queue) s n e = elim (Visit-cases (visit dependencies fuel id s)) [
    | inl p ↦ h id s n p
    | inr (inl (c, p)) ↦ absurd (ground arith)
    | inr (inr (u, p)) ↦
        let (visiting, _) = visit-Restored dependencies fuel id s u p in
        visit_each-ends fuel h queue u (subst (Enough fuel) (sym visiting) n)
          (rw (p, visit_each) at e)
  ]

  leave-ends : (id : String) (r : Visit) → r ≢ out_of_fuel → leave id r ≢ out_of_fuel
  leave-ends id out_of_fuel h e = h refl
  leave-ends id (found c) h e = absurd (cc)
  leave-ends id (done s) h e = absurd (cc)

  visit_nothing : (v : String → Search → Visit) (s : Search) → visit_each v [] s ≢ out_of_fuel
  unfolding visit_each
  visit_nothing v s e = absurd (cc)

  dependencies_end :
      (fuel : ℕ)
      → ((d : String) (t : Search)
          → Enough fuel t.visiting
          → visit dependencies fuel d t ≢ out_of_fuel)
      → (id : String) (s : Search) → includes id s.visiting ≡ false
      → Enough (suc fuel) s.visiting
      → visit_each (visit dependencies fuel) (or_else (get id dependencies) []) (entered id s)
        ≢ out_of_fuel
  dependencies_end fuel h id s p n = elim (Option-cases (get id dependencies)) [
    | inl g ↦ rw g (visit_nothing (visit dependencies fuel) (entered id s))
    | inr (deps, g) ↦
        let known : includes id (keys dependencies) ≡ true =
          includes-keys id dependencies ∙ ap is_some g in
        visit_each-ends fuel h (or_else (get id dependencies) []) (entered id s)
          (omega (arith, n, open_ids-lt (keys dependencies) s.visiting id known p))
  ]

  visit-ends :
      (fuel : ℕ) (id : String) (s : Search)
      → Enough fuel s.visiting
      → visit dependencies fuel id s ≢ out_of_fuel
  visit-ends zero id s n e = absurd (omega (arith, n))
  visit-ends (suc fuel) id s n e = elim (Bool-cases (includes id s.visiting)) [
    | inl p ↦ absurd (unfold visit in ground arith)
    | inr p ↦ elim (Bool-cases (includes id s.visited)) [
      | inl q ↦ absurd (unfold visit in ground arith)
      | inr q ↦
          leave-ends id _ (dependencies_end fuel (visit-ends fuel) id s p n)
            (sym (visit-new dependencies fuel id s p q) ∙ e)
    ]
  ]

length-keys-put :
    (k : String) (v : List String) (m : Dict (List String))
    → length (keys (put k v m)) ≤ suc (length (keys m))
length-keys-put k v [] = omega arith
length-keys-put k v ((j, w) ∷ m) = ground (arith, length-keys-put k v m)

length-dependency_map_from :
    (nodes : List Node) (m : Dict (List String))
    → length (keys (dependency_map_from nodes m)) ≤ length (keys m) + length nodes
unfolding dependency_map_from
length-dependency_map_from [] m = omega arith
length-dependency_map_from (node ∷ nodes) m = omega (
  arith,
  length-dependency_map_from nodes (put node.id node.dependencies m),
  length-keys-put node.id node.dependencies m,
)

-- The search for a cycle never runs out of its fuel.
pub find_cycle-ends : (nodes : List Node) → find_cycle nodes ≢ out_of_fuel
unfolding find_cycle dependency_map
find_cycle-ends nodes =
    let m = dependency_map nodes in
    visit_each-ends m (length nodes + 2) (visit-ends m (length nodes + 2)) (ids nodes) no_search (
      omega (
        arith,
        length-dependency_map_from nodes [],
        length-filter-le (λ k. not (includes k no_search.visiting)) (keys m),
      ))
