-- ===== src/Examples/Registry.antt =====
-- The theorems on the registry of agents, at `harbor`.
use tmux_tell.Common.{refl, none, some, [], ◌∷◌, ◌≡◌, ap, sym, ◌∙◌, inl, inr}
use tmux_tell.Store.Tables.{ok, Agent, Store}
use tmux_tell.Store.Agents.{upsert_agent}
use tmux_tell.Names.{canonical_name, reserved_routing_name}
use tmux_tell.Store.Aliases.{set_aliases}
use tmux_tell.Store.Aliases.Shadows.{Unshadowing, set_aliases-Unshadowing}
use tmux_tell.Store.Agents.Panes.{OneName, upsert_agent-OneName}
use tmux_tell.Examples.Data.{harbor, pilot}

harbor-OneName : OneName harbor.agents
harbor-OneName a b pane (inl e) (inl f) x y = ap (λ (w : Agent). w.name) (e ∙ sym f)
harbor-OneName a b pane (inr i) j x y = absurd i
harbor-OneName a b pane (inl e) (inr j) x y = absurd j

registered_example : OneName (upsert_agent "Bosun" "%1" 77 harbor).1.agents
registered_example = upsert_agent-OneName "Bosun" "%1" 77 harbor harbor-OneName

abbrev compacted : Store
compacted = record harbor { agents = record pilot { last_self_compact_at = some 40 } ∷ [] }

abbrev bosun : Agent
bosun = record pilot { name = "bosun"; pane_id = none }

abbrev crewed : Store
crewed = record harbor { agents = pilot ∷ bosun ∷ [] }

aliased : (set_aliases "Bosun" ("Mate" ∷ []) 78 crewed).0 ≡ ok tt
unfolding set_aliases canonical_name reserved_routing_name
aliased = refl

alias_example : Unshadowing (canonical_name "Bosun") "Mate" crewed.agents
alias_example = set_aliases-Unshadowing "Bosun" ("Mate" ∷ []) 78 crewed "Mate" aliased (inl refl)
