-- ===== src/Engine/Events/Timeline.antt =====
-- src/engine/events.ts: what holds of the timeline.
use pi_build_conductor.Prelude.{
  ℕ, zero, suc, ◌+◌, ◌-◌, ◌≤◌, String, List, [], ◌∷◌, ◌++◌, ◌≡◌, refl, arith, drop, length, ltb,
  inl, inr, subst, length-append, length-drop, Bool-cases, if◌then◌else◌,
}
use pi_build_conductor.Engine.State.{WorkflowEventBody, WorkflowEvent, WorkflowRunState}
use pi_build_conductor.Engine.Events.{max_workflow_events, number_events, append_workflow_events}

-- The sequence numbers go up by one from the one after `n`.
abbrev pub Numbered : ℕ → List WorkflowEvent → Type 0
Numbered n [] = Unit
Numbered n (event ∷ events) = (event.sequence ≡ suc n) × Numbered (suc n) events

-- The retained window is bounded, dropped events are counted, and the numbers have no gap.
pub record IsTimeline (state : WorkflowRunState) : Type 0 where
  pub bounded : length state.events ≤ max_workflow_events
  pub counted : state.event_sequence ≡ state.dropped_events + length state.events
  pub numbered : Numbered state.dropped_events state.events

length-number_events :
    (n : ℕ) (at : String) (bodies : List WorkflowEventBody)
    → length (number_events n at bodies) ≡ length bodies
unfolding number_events
length-number_events n at [] = refl
length-number_events n at (body ∷ bodies) = omega (arith, length-number_events (suc n) at bodies)

Numbered-number_events :
    (n : ℕ) (at : String) (bodies : List WorkflowEventBody) → Numbered n (number_events n at bodies)
unfolding number_events
Numbered-number_events n at [] = tt
Numbered-number_events n at (body ∷ bodies) = (refl, Numbered-number_events (suc n) at bodies)

Numbered-at : {n m : ℕ} (xs : List WorkflowEvent) → n ≡ m → Numbered n xs → Numbered m xs
Numbered-at xs e h = subst (λ k. Numbered k xs) e h

Numbered-append :
    (n m : ℕ) (xs ys : List WorkflowEvent)
    → m ≡ n + length xs
    → Numbered n xs
    → Numbered m ys
    → Numbered n (xs ++ ys)
Numbered-append n m [] ys e hx hy = Numbered-at ys (omega arith) hy
Numbered-append n m (x ∷ xs) ys e hx hy =
    (hx.0, Numbered-append (suc n) m xs ys (omega arith) hx.1 hy)

Numbered-drop :
    (k n : ℕ) (xs : List WorkflowEvent)
    → k ≤ length xs
    → Numbered n xs
    → Numbered (n + k) (drop k xs)
Numbered-drop zero n xs h m = Numbered-at xs (omega arith) m
Numbered-drop (suc k) n [] h m = absurd (omega arith)
Numbered-drop (suc k) n (x ∷ xs) h m =
    Numbered-at (drop k xs) (omega arith) (Numbered-drop k (suc n) xs (omega arith) m.1)

-- The window of a numbered list that is `dropped` entries in.
window-IsTimeline :
    (dropped n : ℕ) (xs : List WorkflowEvent)
    → Numbered dropped xs
    → n ≡ length xs - max_workflow_events
    → (length (if ltb 0 n then drop n xs else xs) ≤ max_workflow_events)
      × (length (if ltb 0 n then drop n xs else xs) + n ≡ length xs)
      × Numbered (dropped + n) (if ltb 0 n then drop n xs else xs)
window-IsTimeline dropped n xs h e = elim (Bool-cases (ltb 0 n)) [
  | inl p ↦ rw p (
    omega (arith, length-drop n xs),
    omega (arith, length-drop n xs),
    Numbered-drop n dropped xs (omega arith) h,
  )
  | inr p ↦
      let z : n ≡ 0 = ground arith in
      rw p (omega (arith, z), omega (arith, z), Numbered-at xs (omega (arith, z)) h)
]

-- If a run has a timeline that is bounded, counted and without gaps, it still has one after any
-- events are appended.
pub append-IsTimeline :
    (state : WorkflowRunState) (bodies : List WorkflowEventBody) (at : String)
    → IsTimeline state
    → IsTimeline (append_workflow_events state bodies at)
unfolding append_workflow_events
append-IsTimeline state [] at t = t
append-IsTimeline state (body ∷ bodies) at t =
    let fresh = number_events state.event_sequence at (body ∷ bodies) in
    let events = state.events ++ fresh in
    let (bounded, kept, numbered) =
      window-IsTimeline state.dropped_events (length events - max_workflow_events) events
        (Numbered-append state.dropped_events state.event_sequence state.events fresh t.counted
          t.numbered (Numbered-number_events state.event_sequence at (body ∷ bodies)))
        refl in
    record {
      bounded = bounded;
      counted = omega (
        arith,
        t.counted,
        kept,
        length-append state.events fresh,
        length-number_events state.event_sequence at (body ∷ bodies),
      );
      numbered = numbered;
    }
