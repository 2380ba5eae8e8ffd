-- ===== src/Domain/Graph/Topological/Counted.antt =====
-- The loop of `topologicalIds`: what sorting and releasing do to the queue and the counts.
use pi_build_conductor.Prelude.{
  ℕ, ◌+◌, ◌-◌, String, Bool, true, false, not, ◌&&◌, ◌||◌, List, [], ◌∷◌, ◌++◌, ◌≡◌, refl, arith,
  Dict, get, get-put, or_else, includes, includes-append, is_distinct, eqb, if◌then◌else◌, ◌==◌,
  string_eq, nat_eq, eq_of_beq, beq_refl, Bool-cases, eq_iff, inl, inr,
}
use pi_build_conductor.Domain.Graph.Topological.{
  insert_by, sort_by, Progress, release_one, release_all,
}

-- How many of these ids are not among the sorted ones.
abbrev pub open_count : List String → List String → ℕ
open_count sorted [] = 0
open_count sorted (d ∷ ds) = (if includes d sorted then 0 else 1) + open_count sorted ds

abbrev pub one_if : Bool → ℕ
one_if true = 1
one_if false = 0

abbrev pub left : Progress → String → ℕ
left p id = or_else (get id p.remaining) 0

pub open_count-append :
    (sorted ds : List String) (id : String)
    → is_distinct ds ≡ true
    → includes id sorted ≡ false
    → open_count (sorted ++ id ∷ []) ds + one_if (includes id ds) ≡ open_count sorted ds
open_count-append sorted [] id h fresh = omega arith
open_count-append sorted (d ∷ ds) id h fresh =
    let rest = open_count-append sorted ds id (ground arith) fresh in
    let placed = includes-append d sorted (id ∷ []) in
    elim (Bool-cases (d == id)) [
      | inl q ↦
          let same = eq_of_beq d id q in
          let new_here : includes d ds ≡ false = ground arith in
          let gone : includes id ds ≡ false = rw same at new_here in
          let unsorted : includes d sorted ≡ false = rw (same, fresh) refl in
          let flipped : (id == d) ≡ true = rw same (beq_refl id) in ground arith
      | inr q ↦
          let apart : (id == d) ≡ false = ground (arith, eq_iff d id, eq_iff id d) in ground arith
    ]

includes-insert_by :
    (order : Dict ℕ) (id x : String) (others : List String)
    → includes x (insert_by order id others) ≡ (id == x || includes x others)
unfolding insert_by
includes-insert_by order id x [] = refl
includes-insert_by order id x (other ∷ others) =
    ground (arith, includes-insert_by order id x others)

pub includes-sort_by :
    (order : Dict ℕ) (x : String) (queue : List String)
    → includes x (sort_by order queue) ≡ includes x queue
unfolding sort_by
includes-sort_by order x [] = refl
includes-sort_by order x (id ∷ queue) =
    ground
      (arith, includes-insert_by order id x (sort_by order queue), includes-sort_by order x queue)

is_distinct-insert_by :
    (order : Dict ℕ) (id : String) (others : List String)
    → is_distinct (insert_by order id others) ≡ (not (includes id others) && is_distinct others)
unfolding insert_by
is_distinct-insert_by order id [] = refl
is_distinct-insert_by order id (other ∷ others) = ground (
  arith,
  eq_iff id other,
  eq_iff other id,
  includes-insert_by order id other others,
  is_distinct-insert_by order id others,
)

pub is_distinct-sort_by :
    (order : Dict ℕ) (queue : List String) → is_distinct (sort_by order queue) ≡ is_distinct queue
unfolding sort_by
is_distinct-sort_by order [] = refl
is_distinct-sort_by order (id ∷ queue) = ground (
  arith,
  is_distinct-insert_by order id (sort_by order queue),
  includes-sort_by order id queue,
  is_distinct-sort_by order queue,
)

pub is_distinct-append_one :
    (ids : List String) (id : String)
    → is_distinct (ids ++ id ∷ []) ≡ (not (includes id ids) && is_distinct ids)
is_distinct-append_one [] id = refl
is_distinct-append_one (x ∷ ids) id = ground (
  arith,
  eq_iff x id,
  eq_iff id x,
  includes-append x ids (id ∷ []),
  is_distinct-append_one ids id,
)

left-release_one :
    (d x : String) (p : Progress) → left (release_one d p) x ≡ left p x - one_if (d == x)
unfolding release_one
left-release_one d x p = elim (Bool-cases (d == x)) [
  | inl q ↦ rw (eq_of_beq d x q, get-put x x (left p x - 1) p.remaining, beq_refl x) refl
  | inr q ↦ rw (get-put d x (left p d - 1) p.remaining, q) (omega arith)
]

ready-release_one :
    (d x : String) (p : Progress)
    → includes x (release_one d p).ready ≡ (includes x p.ready || (d == x && eqb (left p d) 1))
unfolding release_one
ready-release_one d x p = ground (arith, includes-append x p.ready (d ∷ []))

pub left-release_all :
    (ds : List String) (x : String) (p : Progress)
    → is_distinct ds ≡ true
    → left (release_all ds p) x ≡ left p x - one_if (includes x ds)
unfolding release_all
left-release_all [] x p h = omega arith
left-release_all (d ∷ ds) x p h =
    let rest = left-release_all ds x (release_one d p) (ground arith) in
    let first = left-release_one d x p in ground (arith, eq_of_beq d x)

pub ready-release_all :
    (ds : List String) (x : String) (p : Progress)
    → is_distinct ds ≡ true
    → includes x (release_all ds p).ready
      ≡ (includes x p.ready || (includes x ds && eqb (left p x) 1))
unfolding release_all
ready-release_all [] x p h = ground arith
ready-release_all (d ∷ ds) x p h =
    let rest = ready-release_all ds x (release_one d p) (ground arith) in
    let first = ready-release_one d x p in
    let count = left-release_one d x p in
    elim (Bool-cases (d == x)) [
      | inl q ↦
          let same = eq_of_beq d x q in
          let new_here : includes d ds ≡ false = ground arith in
          let gone : includes x ds ≡ false = rw same at new_here in
          let equal : left p d ≡ left p x = rw same refl in ground arith
      | inr q ↦ ground arith
    ]

pub is_distinct-release_all :
    (ds : List String) (p : Progress)
    → is_distinct ds ≡ true
    → is_distinct p.ready ≡ true
    → ((x : String) → includes x ds ≡ true → includes x p.ready ≡ false)
    → is_distinct (release_all ds p).ready ≡ true
unfolding release_all
is_distinct-release_all [] p h ready apart = ready
is_distinct-release_all (d ∷ ds) p h ready apart =
    let fresh = apart d (ground (arith, beq_refl d)) in
    is_distinct-release_all ds (release_one d p) (ground arith)
      (unfold release_one in ground (arith, is_distinct-append_one p.ready d))
      λ x m.
        let before = apart x (ground arith) in
        let after = ready-release_one d x p in
        let other : (d == x) ≡ false = ground (arith, eq_of_beq d x) in ground arith
