-- ===== src/Domain/TaskPlan/Levels.antt =====
-- The layers that `analyzeTaskPlan` computes: one more than the largest of the dependencies.
use pi_build_conductor.Prelude.{
  ℕ, suc, ◌+◌, ◌≤◌, ◌<◌, String, true, false, some, List, [], ◌∷◌, ◌≡◌, ◌⊎◌, inl, inr, refl, ap,
  ◌∙◌, subst, arith, Dict, get, put, get-put, or_else, includes, is_distinct, All, All-map, leb,
  if◌then◌else◌, ◌==◌, string_eq, nat_eq, eq_of_beq, beq_refl, Bool-cases,
}
use pi_build_conductor.Domain.Graph.Topological.Ordered.{Follows}
use pi_build_conductor.Domain.TaskPlan.Analysis.{layer_of, layers_by_task}

abbrev pub level : Dict ℕ → String → ℕ
level layers id = or_else (get id layers) 0

layer_of-above :
    (layers : Dict ℕ) (ds : List String) (maximum : ℕ) → maximum ≤ layer_of layers ds maximum
unfolding layer_of
layer_of-above layers [] maximum = omega arith
layer_of-above layers (d ∷ ds) maximum =
    let next = if leb maximum (level layers d + 1) then level layers d + 1 else maximum in
    let rest = layer_of-above layers ds next in ground arith

pub layer_of-rises :
    (layers : Dict ℕ) (ds : List String) (maximum : ℕ) (d : String)
    → includes d ds ≡ true
    → level layers d < layer_of layers ds maximum
unfolding layer_of
layer_of-rises layers [] maximum d m = absurd (cc)
layer_of-rises layers (x ∷ ds) maximum d m =
    let next = if leb maximum (level layers x + 1) then level layers x + 1 else maximum in
    elim (Bool-cases (x == d)) [
      | inl q ↦
          let rest = layer_of-above layers ds next in
          let same : level layers x ≡ level layers d = ap (level layers) (eq_of_beq x d q) in
          ground arith
      | inr q ↦ layer_of-rises layers ds next d (rw q at m)
    ]

pub layer_of-tight :
    (layers : Dict ℕ) (ds : List String) (maximum : ℕ)
    → (layer_of layers ds maximum ≡ maximum)
      ⊎ ((d : String) × (includes d ds ≡ true)
          × (layer_of layers ds maximum ≡ suc (level layers d)))
unfolding layer_of
layer_of-tight layers [] maximum = inl refl
layer_of-tight layers (d ∷ ds) maximum =
    let next = if leb maximum (level layers d + 1) then level layers d + 1 else maximum in
    elim (layer_of-tight layers ds next) [
      | inr (x, m, e) ↦ inr (x, ground arith, e)
      | inl e ↦ elim (Bool-cases (leb maximum (level layers d + 1))) [
        | inl q ↦ inr (d, ground (arith, beq_refl d), ground arith)
        | inr q ↦ inl (ground arith)
      ]
    ]

layer_of-same :
    (layers others : Dict ℕ) (ds : List String) (maximum : ℕ)
    → All (λ d. get d layers ≡ get d others) ds
    → layer_of layers ds maximum ≡ layer_of others ds maximum
unfolding layer_of
layer_of-same layers others [] maximum h = refl
layer_of-same layers others (d ∷ ds) maximum h = rw (h.0) (layer_of-same layers others ds _ h.1)

module _ (m : Dict (List String)) where
  abbrev dependencies : String → List String
  dependencies id = or_else (get id m) []

  layers_by_task-other :
      (order : List String) (layers : Dict ℕ) (x : String)
      → includes x order ≡ false
      → get x (layers_by_task m order layers) ≡ get x layers
  unfolding layers_by_task
  layers_by_task-other [] layers x h = refl
  layers_by_task-other (id ∷ order) layers x h =
      let value = layer_of layers (dependencies id) 0 in
      let rest = layers_by_task-other order (put id value layers) x (ground arith) in
      ground (arith, get-put id x value layers)

  settled :
      (id d : String) (value : ℕ) (order : List String) (layers : Dict ℕ)
      → includes d (id ∷ order) ≡ false
      → get d layers ≡ get d (layers_by_task m order (put id value layers))
  settled id d value order layers h =
      let later = layers_by_task-other order (put id value layers) d (ground arith) in
      let now = get-put id d value layers in ground arith

  -- The layer of a task is read back from the layers of its dependencies.
  pub layers_by_task-level :
      (before order : List String) (layers : Dict ℕ) (x : String)
      → Follows dependencies before order
      → is_distinct order ≡ true
      → ((y : String) → includes y before ≡ true → includes y order ≡ false)
      → includes x order ≡ true
      → level (layers_by_task m order layers) x
        ≡ layer_of (layers_by_task m order layers) (dependencies x) 0
  unfolding layers_by_task
  layers_by_task-level before [] layers x follows distinct apart k = absurd (cc)
  layers_by_task-level before (id ∷ order) layers x follows distinct apart k =
      let value = layer_of layers (dependencies id) 0 in
      let next = put id value layers in
      elim (Bool-cases (id == x)) [
        | inr q ↦
            layers_by_task-level (id ∷ before) order next x follows.1 (ground arith)
              (λ y b. elim (Bool-cases (id == y)) [
                | inl e ↦
                    let once : includes id order ≡ false = ground arith in
                    rw (eq_of_beq id y e) at once
                | inr e ↦ let gone = apart y (rw e at b) in ground arith
              ])
              (rw q at k)
        | inl q ↦
            let same = eq_of_beq id x q in
            let once : includes id order ≡ false = ground arith in
            let placed : get id (layers_by_task m order next) ≡ some value =
              layers_by_task-other order next id once
              ∙ get-put id id value layers
              ∙ rw (beq_refl id) refl in
            let kept : layer_of layers (dependencies id) 0
                ≡ layer_of (layers_by_task m order next) (dependencies id) 0 =
              layer_of-same layers (layers_by_task m order next) (dependencies id) 0 (
                All-map _ _ (dependencies id) (λ d b. settled id d value order layers (apart d b))
                  follows.0) in
            subst
              (λ z.
                level (layers_by_task m order next) z
                ≡ layer_of (layers_by_task m order next) (dependencies z) 0)
              same (rw placed kept)
      ]
