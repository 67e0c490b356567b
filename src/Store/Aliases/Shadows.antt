-- ===== src/Store/Aliases/Shadows.antt =====
-- An alias that is accepted shadows no other agent.
use tmux_tell.Common.{
  ℕ, String, Bool, false, none, List, [], ◌∷◌, ◌≡◌, ◌≢◌, ap, ◌∙◌, inl, inr, In, arith, Option-cases,
  any_row, eq_iff, All, Bool-cases, str_eq, subst, ◌⊎◌,
}
use tmux_tell.Names.{canonical_name, reserved_routing_name}
use tmux_tell.Names.Canonical.{canonical_name_idem}
use tmux_tell.Store.Tables.{Agent, Store, ok}
use tmux_tell.Store.Aliases.{same_alias, collides, check_alias_collisions, set_aliases}

any_row-false :
    {A : Type 0} (p : A → Bool) (xs : List A) (x : A) → any_row p xs ≡ false → In x xs → p x ≡ false
any_row-false p [] x h i = absurd i
any_row-false p (y ∷ xs) x h (inl e) = ap p e ∙ ground arith
any_row-false p (y ∷ xs) x h (inr i) = any_row-false p xs x (ground arith) i

-- Another agent has the candidate, in any spelling, neither as its name nor as an alias.
pub record IsFree (candidate : String) (other : Agent) : Type 0 where
  pub no_name : other.name ≢ canonical_name candidate
  pub no_alias :
      All (λ (alias : String). canonical_name alias ≢ canonical_name candidate) other.aliases

-- The candidate is no routing primitive, and each agent is the owner or does not have it.
pub record Unshadowing (owner candidate : String) (agents : List Agent) : Type 0 where
  pub routable : reserved_routing_name candidate ≡ false
  pub free : All (λ (other : Agent). (other.name ≡ owner) ⊎ IsFree candidate other) agents

other_aliases :
    (candidate : String) (aliases : List String)
    → any_row (same_alias candidate) aliases ≡ false
    → All (λ (alias : String). canonical_name alias ≢ canonical_name candidate) aliases
other_aliases candidate [] h = tt
other_aliases candidate (x ∷ aliases) h = (
  λ e. absurd (ground (arith, eq_iff (canonical_name x) (canonical_name candidate))),
  other_aliases candidate aliases (ground arith),
)

one_agent :
    (owner candidate : String) (other : Agent)
    → collides owner candidate other ≡ false
    → (other.name ≡ owner) ⊎ IsFree candidate other
one_agent owner candidate other h = elim (Bool-cases (str_eq other.name owner)) [
  | inl mine ↦ inl (ground (arith, eq_iff other.name owner))
  | inr theirs ↦ inr (record {
    no_name = λ e. absurd (ground (arith, eq_iff other.name (canonical_name candidate)));
    no_alias = other_aliases candidate other.aliases (ground arith);
  })
]

each_agent :
    (owner candidate : String) (agents : List Agent)
    → any_row (collides owner candidate) agents ≡ false
    → All (λ (other : Agent). (other.name ≡ owner) ⊎ IsFree candidate other) agents
each_agent owner candidate [] h = tt
each_agent owner candidate (a ∷ agents) h =
    (one_agent owner candidate a (ground arith), each_agent owner candidate agents (ground arith))

checked :
    (agent : String) (aliases : List String) (s : Store) (candidate : String)
    → check_alias_collisions agent aliases s ≡ none
    → In candidate aliases
    → Unshadowing (canonical_name agent) candidate s.agents
unfolding check_alias_collisions
checked agent [] s candidate h i = absurd i
checked agent (x ∷ aliases) s candidate h i =
    let r : any_row reserved_routing_name (x ∷ aliases) ≡ false = ground arith in
    let c : any_row (λ c. any_row (collides (canonical_name agent) c) s.agents) (x ∷ aliases)
        ≡ false =
      ground arith in
    record {
      routable = any_row-false reserved_routing_name (x ∷ aliases) candidate r i;
      free = each_agent (canonical_name agent) candidate s.agents (
          any_row-false (λ c. any_row (collides (canonical_name agent) c) s.agents) (x ∷ aliases)
            candidate c i);
    }

-- If `SetAliases` succeeds, then no alias of the list is a routing primitive, and no other registered
-- agent has it, in any spelling, as its name or as one of its aliases.
pub set_aliases-Unshadowing :
    (agent : String) (aliases : List String) (now : ℕ) (s : Store) (candidate : String)
    → (set_aliases agent aliases now s).0 ≡ ok tt
    → In candidate aliases
    → Unshadowing (canonical_name agent) candidate s.agents
unfolding set_aliases
set_aliases-Unshadowing agent aliases now s candidate h i =
    elim (Option-cases (check_alias_collisions (canonical_name agent) aliases s)) [
      | inl fine ↦
          subst (λ (n : String). Unshadowing n candidate s.agents) (canonical_name_idem agent)
            (checked (canonical_name agent) aliases s candidate fine i)
      | inr (e, bad) ↦ absurd (ground (arith, rw (bad, set_aliases) at h))
    ]
