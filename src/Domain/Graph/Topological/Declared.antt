-- ===== src/Domain/Graph/Topological/Declared.antt =====
-- src/domain/dag.ts: the graph that the items of a plan declare.
use pi_build_conductor.Prelude.{
  String, true, false, List, [], ◌∷◌, ◌≡◌, refl, includes, is_distinct, All, Bool-cases, inl, inr,
  ◌==◌, string_eq, eq_of_beq,
}
use pi_build_conductor.Domain.Artifacts.Identity.{is_name}
use pi_build_conductor.Domain.Graph.{nodes_of}
use pi_build_conductor.Domain.Graph.Cycle.{ids}
use pi_build_conductor.Domain.Graph.Topological.Ordered.{IsGraph}
use pi_build_conductor.Domain.Reading.{names_of}

module _ {A : Type 0} (id : A → String) (dependencies : A → List String) where
  pub ids-nodes_of : (items : List A) → ids (nodes_of id dependencies items) ≡ names_of id items
  ids-nodes_of [] = refl
  ids-nodes_of (item ∷ items) = rw (ids-nodes_of items) refl

  All-nodes_of :
      (P : List String → Type 0) (items : List A)
      → All (λ item. P (dependencies item)) items
      → All (λ node. P node.dependencies) (nodes_of id dependencies items)
  All-nodes_of P [] h = tt
  All-nodes_of P (item ∷ items) h = (h.0, All-nodes_of P items h.1)

  no_empty_id :
      (items : List A)
      → All (λ item. is_name (id item) ≡ true) items
      → includes "" (names_of id items) ≡ false
  unfolding is_name
  no_empty_id [] h = refl
  no_empty_id (item ∷ items) h = elim (Bool-cases (id item == "")) [
    | inl q ↦ absurd (cc (rw (eq_of_beq (id item) "" q) at (h.0)))
    | inr q ↦ rw (q, no_empty_id items h.1) refl
  ]

  pub nodes_of-IsGraph :
      (items : List A)
      → All (λ item. is_name (id item) ≡ true) items
      → is_distinct (names_of id items) ≡ true
      → All (λ item. is_distinct (dependencies item) ≡ true) items
      → All (λ item. All (λ d. includes d (names_of id items) ≡ true) (dependencies item)) items
      → IsGraph (nodes_of id dependencies items)
  nodes_of-IsGraph items named distinct each known =
      let same = ids-nodes_of items in
      record {
        distinct = rw same distinct;
        each = All-nodes_of (λ ds. is_distinct ds ≡ true) items each;
        named = rw same (no_empty_id items named);
        known =
            All-nodes_of (All (λ d. includes d (ids (nodes_of id dependencies items)) ≡ true)) items
              (rw same known);
      }
