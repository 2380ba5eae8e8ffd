-- ===== src/Domain/Graph/Cycle/Restores.antt =====
-- A visit that finds nothing leaves the ids in progress and the path as they were.
use pi_build_conductor.Prelude.{
  ℕ, zero, suc, String, false, List, [], ◌∷◌, ◌++◌, ◌≡◌, refl, sym, ◌∙◌, ap, arith, inl, inr, ◌⊎◌,
  Dict, get, or_else, includes, Bool-cases, ◌==◌, string_eq, beq_refl,
}
use pi_build_conductor.Domain.Graph.Cycle.{
  Search, Visit, done, found, out_of_fuel, visit_each, visit, leave, pop, delete,
}

pub Visit-cases :
    (r : Visit)
    → (r ≡ out_of_fuel) ⊎ ((c : List String) × (r ≡ found c)) ⊎ ((s : Search) × (r ≡ done s))
Visit-cases out_of_fuel = inl refl
Visit-cases (found c) = inr (inl (c, refl))
Visit-cases (done s) = inr (inr (s, refl))

pub done-injective : {s t : Search} → done s ≡ done t → s ≡ t
done-injective h = cc

delete_absent : (id : String) (xs : List String) → includes id xs ≡ false → delete id xs ≡ xs
delete_absent id [] h = refl
delete_absent id (x ∷ xs) h =
    let rest = delete_absent id xs (ground arith) in
    let n : (x == id) ≡ false = ground arith in rw (n, rest) refl

delete_added : (id : String) (xs : List String) → includes id xs ≡ false → delete id (id ∷ xs) ≡ xs
delete_added id xs h = rw (beq_refl id) (delete_absent id xs h)

pop-append : (id : String) (xs : List String) → pop (xs ++ id ∷ []) ≡ xs
unfolding pop
pop-append id [] = refl
pop-append id (x ∷ []) = refl
pop-append id (x ∷ y ∷ xs) = rw (pop-append id (y ∷ xs)) refl

-- The search in which the dependencies of `id` are visited.
abbrev pub entered : String → Search → Search
entered id s = record s { visiting = id ∷ s.visiting; path = s.path ++ id ∷ [] }

abbrev pub Restored : Search → Search → Type 0
Restored s t = (t.visiting ≡ s.visiting) × (t.path ≡ s.path)

pub visit_each-Restored :
    (v : String → Search → Visit)
    → ((id : String) (s t : Search) → v id s ≡ done t → Restored s t)
    → (queue : List String) (s t : Search) → visit_each v queue s ≡ done t
    → Restored s t
unfolding visit_each
visit_each-Restored v h [] s t e = rw (sym (done-injective e)) (refl, refl)
visit_each-Restored v h (id ∷ queue) s t e = elim (Visit-cases (v id s)) [
  | inl p ↦ absurd (ground arith)
  | inr (inl (c, p)) ↦ absurd (ground arith)
  | inr (inr (u, p)) ↦
      let (visiting, path) = h id s u p in
      let (visiting', path') = visit_each-Restored v h queue u t (rw (p, visit_each) at e) in
      (visiting' ∙ visiting, path' ∙ path)
]

module _ (dependencies : Dict (List String)) where
  pub visit-new :
      (fuel : ℕ) (id : String) (s : Search)
      → includes id s.visiting ≡ false
      → includes id s.visited ≡ false
      → visit dependencies (suc fuel) id s
        ≡ leave id
            (visit_each (visit dependencies fuel) (or_else (get id dependencies) []) (entered id s))
  unfolding visit
  visit-new fuel id s a b = rw (a, visit) (rw (b) refl)

  pub visit-Restored :
      (fuel : ℕ) (id : String) (s t : Search) → visit dependencies fuel id s ≡ done t → Restored s t
  unfolding visit
  visit-Restored zero id s t e = absurd (cc)
  visit-Restored (suc fuel) id s t e = elim (Bool-cases (includes id s.visiting)) [
    | inl p ↦ absurd (ground arith)
    | inr p ↦ elim (Bool-cases (includes id s.visited)) [
      | inl q ↦ let r : s ≡ t = ground arith in rw (sym r) (refl, refl)
      | inr q ↦
          elim (Visit-cases (
            visit_each (visit dependencies fuel) (or_else (get id dependencies) [])
              (entered id s))) [
                | inl w ↦ absurd (ground arith)
                | inr (inl (c, w)) ↦ absurd (ground arith)
                | inr (inr (u, w)) ↦
                    let (visiting, path) =
                      visit_each-Restored (visit dependencies fuel) (visit-Restored fuel)
                        (or_else (get id dependencies) []) (entered id s) u w in
                    let v : t.visiting ≡ delete id u.visiting = ground arith in
                    let q : t.path ≡ pop u.path = ground arith in
                    (
                      v ∙ ap (delete id) visiting ∙ delete_added id s.visiting p,
                      q ∙ ap pop path ∙ pop-append id s.path,
                    )
              ]
    ]
  ]
