-- ===== src/Security/Capabilities/Narrowing.antt =====
-- What narrowing a profile keeps and what it removes.
use pi_build_conductor.Prelude.{
  String, any, subst, eq_of_beq, Bool, sym, true, false, ◌&&◌, ◌||◌, List, [], ◌∷◌, none, some, ◌≡◌,
  refl, ◌∙◌, ap, arith, includes, filter, flat_map, includes-filter, includes-append, Bool-cases,
  inl, inr, ◌==◌, string_eq,
}
use mathlib.Core.Path.{fun_ext}
use pi_build_conductor.Domain.Types.{
  StepCapability, read_repository, mutate_repository, execute_commands, CapabilityProfile,
  capability_eq,
}
use pi_build_conductor.Security.Capabilities.{
  capability_tools, capability_order, tool_capability, ordered_capabilities, capability_profile_for,
  grants_tool, narrow_capability_profile,
}

includes-capability_order : (c : StepCapability) → includes c capability_order ≡ true
includes-capability_order read_repository = refl
includes-capability_order mutate_repository = refl
includes-capability_order execute_commands = refl

pub includes-ordered_capabilities :
    (c : StepCapability) (cs : List StepCapability)
    → includes c (ordered_capabilities cs) ≡ includes c cs
unfolding ordered_capabilities
includes-ordered_capabilities c cs = ground (
  arith,
  includes-filter c (λ (d : StepCapability). includes d cs) capability_order,
  includes-capability_order c,
)

and_comm : (a b : Bool) → (a && b) ≡ (b && a)
and_comm a b = ground arith

includes-flat_map :
    (tool : String) (p : StepCapability → Bool) (cs : List StepCapability)
    → includes tool (flat_map capability_tools (filter p cs))
      ≡ any (λ c. p c && includes tool (capability_tools c)) cs
includes-flat_map tool p [] = refl
includes-flat_map tool p (c ∷ cs) = elim (Bool-cases (p c)) [
  | inl e ↦ rw e (
      includes-append tool (capability_tools c) (flat_map capability_tools (filter p cs))
      ∙ ap (λ b. includes tool (capability_tools c) || b) (includes-flat_map tool p cs))
  | inr e ↦ rw e (includes-flat_map tool p cs)
]

-- The tool table, with the three memberships as Booleans.
module _ (r x m : Bool) where
  abbrev held : StepCapability → Bool
  held read_repository = r
  held execute_commands = x
  held mutate_repository = m

  abbrev Agrees : String → Type 0
  Agrees tool =
      any (λ c. held c && includes tool (capability_tools c)) capability_order
      ≡ (elim (tool_capability tool) [ none ↦ false | some c ↦ held c ])

  Agrees-other :
      (tool : String)
      → ("read" == tool) ≡ false
      → ("grep" == tool) ≡ false
      → ("find" == tool) ≡ false
      → ("ls" == tool) ≡ false
      → ("bash" == tool) ≡ false
      → ("edit" == tool) ≡ false
      → ("write" == tool) ≡ false
      → Agrees tool
  unfolding tool_capability
  Agrees-other tool e1 e2 e3 e4 e5 e6 e7 = ground arith

  Agrees-literal :
      (literal tool : String)
      → Agrees literal
      → ((literal == tool) ≡ false → Agrees tool)
      → Agrees tool
  Agrees-literal literal tool h other = elim (Bool-cases (literal == tool)) [
    | inl e ↦ subst (λ t. Agrees t) (eq_of_beq literal tool e) h
    | inr e ↦ other e
  ]

  Agrees-all : (tool : String) → Agrees tool
  unfolding tool_capability
  Agrees-all tool = Agrees-literal "read" tool (ground arith) λ e1.
      Agrees-literal "grep" tool (ground arith) λ e2.
        Agrees-literal "find" tool (ground arith) λ e3.
          Agrees-literal "ls" tool (ground arith) λ e4.
            Agrees-literal "bash" tool (ground arith) λ e5.
              Agrees-literal "edit" tool (ground arith) λ e6.
                Agrees-literal "write" tool (ground arith)
                  λ e7. Agrees-other tool e1 e2 e3 e4 e5 e6 e7

held-includes :
    (cs : List StepCapability) (c : StepCapability)
    → held
        (includes read_repository cs)
        (includes execute_commands cs)
        (includes mutate_repository cs)
        c
      ≡ includes c cs
held-includes cs read_repository = refl
held-includes cs execute_commands = refl
held-includes cs mutate_repository = refl

-- The tools of the listed capabilities are those that the list grants.
tools_exact :
    (cs : List StepCapability) (tool : String)
    → includes tool (capability_profile_for cs).tools ≡ grants_tool cs tool
unfolding capability_profile_for grants_tool
tools_exact cs tool =
    includes-flat_map tool (λ c. includes c cs) capability_order
    ∙ subst
        (λ (p : StepCapability → Bool).
          any (λ c. p c && includes tool (capability_tools c)) capability_order
          ≡ (elim (tool_capability tool) [ none ↦ false | some c ↦ p c ]))
        (fun_ext (held-includes cs))
        (Agrees-all (includes read_repository cs) (includes execute_commands cs)
          (includes mutate_repository cs) tool)

-- A narrowed profile holds a capability exactly when the profile holds it and it was declared.
pub narrow-capabilities :
    (p : CapabilityProfile) (declared : List StepCapability) (c : StepCapability)
    → includes c (narrow_capability_profile p declared).capabilities
      ≡ (includes c p.capabilities && includes c declared)
unfolding narrow_capability_profile
narrow-capabilities p declared c =
    includes-ordered_capabilities c _
    ∙ includes-filter c (λ (d : StepCapability). includes d declared) p.capabilities
    ∙ and_comm (includes c declared) (includes c p.capabilities)

-- A list grants the tools of the capabilities that it holds.
grants_tool-any :
    (cs : List StepCapability) (tool : String)
    → grants_tool cs tool
      ≡ any (λ c. includes c cs && includes tool (capability_tools c)) capability_order
unfolding capability_profile_for
grants_tool-any cs tool =
    sym (tools_exact cs tool) ∙ includes-flat_map tool (λ c. includes c cs) capability_order

-- A narrowed profile holds exactly the capabilities that the profile holds and that are declared,
-- and lists exactly those of the profile's tools that the tool table gives to a capability which
-- the profile holds and which is declared.
pub narrow_capability_profile-exact :
    (p : CapabilityProfile) (declared : List StepCapability) (c : StepCapability) (tool : String)
    → (includes c (narrow_capability_profile p declared).capabilities
        ≡ (includes c p.capabilities && includes c declared))
      × (includes tool (narrow_capability_profile p declared).tools ≡ (
          includes tool p.tools
          && any
              (λ d.
                (includes d p.capabilities && includes d declared)
                && includes tool (capability_tools d))
              capability_order))
unfolding narrow_capability_profile
narrow_capability_profile-exact p declared c tool =
    let kept = filter (λ (d : StepCapability). includes d declared) p.capabilities in
    let same : (λ (d : StepCapability). includes d kept)
        ≡ (λ d. includes d p.capabilities && includes d declared) =
      fun_ext (λ d.
        includes-filter d (λ (e : StepCapability). includes e declared) p.capabilities
        ∙ and_comm (includes d declared) (includes d p.capabilities)) in
    (
      narrow-capabilities p declared c,
      includes-filter tool (grants_tool kept) p.tools
          ∙ and_comm (grants_tool kept tool) (includes tool p.tools)
          ∙ ap (λ b. includes tool p.tools && b)
              (grants_tool-any kept tool
                ∙ ap
                    (λ (h : StepCapability → Bool).
                      any (λ d. h d && includes tool (capability_tools d)) capability_order)
                    same),
    )

-- The derived profile of a capability list holds exactly those capabilities, and lists exactly
-- the tools that they cover.
pub capability_profile_for-exact :
    (cs : List StepCapability)
    → ((c : StepCapability) → includes c (capability_profile_for cs).capabilities ≡ includes c cs)
      × ((tool : String) → includes tool (capability_profile_for cs).tools ≡ grants_tool cs tool)
capability_profile_for-exact cs =
    (λ c. unfold capability_profile_for in includes-ordered_capabilities c cs, tools_exact cs)
