-- ===== src/Store/Agents/Panes.antt =====
-- One pane, one identity: after a registration a pane is held by one name.
use tmux_tell.Common.{
  ℕ, String, Bool, true, false, none, some, List, [], ◌∷◌, ◌++◌, ◌≡◌, refl, sym, ap, ◌∙◌, ◌⊎◌, inl,
  inr, In, arith, Bool-cases, if_cases, count_rows, update_rows, str_eq, eq_iff, eq_refl, ◌==◌,
  subst,
}
use tmux_tell.Names.{canonical_name, reserved_routing_name}
use tmux_tell.Store.Tables.{Result, Agent, Store}
use tmux_tell.Store.Insert.{named}
use tmux_tell.Store.Agents.{
  new_agent, has_pane, holds_pane, without_pane, with_pane, bind_pane, upsert_agent,
}

-- Two rows that hold one pane have one name.
abbrev pub OneName : List Agent → Type 0
OneName agents =
    (a b : Agent) (pane : String)
    → In a agents
    → In b agents
    → a.pane_id ≡ some pane
    → b.pane_id ≡ some pane
    → a.name ≡ b.name

-- Where a row of an updated table comes from.
record Source (p : Agent → Bool) (f : Agent → Agent) (agents : List Agent) (b : Agent)
    : Type 0 where
  row : Agent
  row_in : In row agents
  becomes : ((p row ≡ true) × (b ≡ f row)) ⊎ ((p row ≡ false) × (b ≡ row))

Source-later :
    {p : Agent → Bool} {f : Agent → Agent} {agents : List Agent} {b : Agent} (x : Agent)
    → Source p f agents b
    → Source p f (x ∷ agents) b
Source-later x s = record { row = s.row; row_in = inr s.row_in; becomes = s.becomes }

update_rows-Source :
    (p : Agent → Bool) (f : Agent → Agent) (agents : List Agent) (b : Agent)
    → In b (update_rows p f agents)
    → Source p f agents b
update_rows-Source p f [] b i = absurd i
update_rows-Source p f (x ∷ agents) b (inl e) = elim (Bool-cases (p x)) [
  | inl t ↦ record { row = x; row_in = inl refl; becomes = inl (t, e ∙ rw t refl) }
  | inr n ↦ record { row = x; row_in = inl refl; becomes = inr (n, e ∙ rw n refl) }
]
update_rows-Source p f (x ∷ agents) b (inr i) = Source-later x (update_rows-Source p f agents b i)

-- A row after the pane was bound: the new holder, one without a pane, or an old row that keeps its
-- name and pane, and holds this pane only under this name.
data Origin (name pane : String) (agents : List Agent) (b : Agent) : Type 0 where
  bound : b.name ≡ name → b.pane_id ≡ some pane → Origin name pane agents b
  free : b.pane_id ≡ none → Origin name pane agents b
  old :
      (a : Agent)
      → In a agents
      → b.name ≡ a.name
      → b.pane_id ≡ a.pane_id
      → holds_pane pane name a ≡ false
      → Origin name pane agents b

module _ (name pane : String) (now : ℕ) (agents : List Agent) where
  abbrev cleared : List Agent
  cleared = update_rows (holds_pane pane name) (without_pane now) agents

  cleared-Origin : (b : Agent) → In b cleared → Origin name pane agents b
  cleared-Origin b i =
      let s = update_rows-Source (holds_pane pane name) (without_pane now) agents b i in
      elim s.becomes [
        | inl (t, e) ↦ free (ap (λ (w : Agent). w.pane_id) e)
        | inr (n, e) ↦
            old s.row s.row_in (ap (λ (w : Agent). w.name) e) (ap (λ (w : Agent). w.pane_id) e) n
      ]

  appended-Origin :
      (rows : List Agent) (c : Agent)
      → ((b : Agent) → In b rows → Origin name pane agents b)
      → In c (rows ++ new_agent name (some pane) now ∷ [])
      → Origin name pane agents c
  appended-Origin [] c h (inl e) =
      bound (ap (λ (w : Agent). w.name) e) (ap (λ (w : Agent). w.pane_id) e)
  appended-Origin [] c h (inr i) = absurd i
  appended-Origin (x ∷ rows) c h (inl e) = h c (inl e)
  appended-Origin (x ∷ rows) c h (inr i) = appended-Origin rows c (λ b j. h b (inr j)) i

  bound-Origin :
      (c : Agent)
      → In c (update_rows (named name) (with_pane pane now) cleared)
      → Origin name pane agents c
  bound-Origin c i =
      let s = update_rows-Source (named name) (with_pane pane now) cleared c i in
      elim s.becomes [
        | inl (t, e) ↦
            bound (ap (λ (w : Agent). w.name) e ∙ (eq_iff s.row.name name).0 t)
              (ap (λ (w : Agent). w.pane_id) e)
        | inr (n, e) ↦ subst (Origin name pane agents) (sym e) (cleared-Origin s.row s.row_in)
      ]

  bind_pane-Origin : (c : Agent) → In c (bind_pane name pane now agents) → Origin name pane agents c
  unfolding bind_pane
  bind_pane-Origin c =
      if_cases (λ (rows : List Agent). In c rows → Origin name pane agents c)
        (count_rows (named name) cleared == 0) (λ _. appended-Origin cleared c cleared-Origin)
        (λ _. bound-Origin c)

  -- An old row that holds the pane has the new holder's name.
  old-name : (a : Agent) → a.pane_id ≡ some pane → holds_pane pane name a ≡ false → a.name ≡ name
  old-name a e h =
      let held : has_pane pane a.pane_id ≡ true = ap (has_pane pane) e ∙ eq_refl pane in
      (eq_iff a.name name).0 (ground (arith, held))

  Origin-name :
      (b c : Agent) (p : String)
      → OneName agents
      → b.pane_id ≡ some p
      → c.pane_id ≡ some p
      → Origin name pane agents b
      → Origin name pane agents c
      → b.name ≡ c.name
  Origin-name b c p one x y (free n) o = absurd (ground arith)
  Origin-name b c p one x y (bound n e) (free m) = absurd (ground arith)
  Origin-name b c p one x y (old a i n e h) (free m) = absurd (ground arith)
  Origin-name b c p one x y (bound n e) (bound m f) = n ∙ sym m
  Origin-name b c p one x y (bound n e) (old a i m f h) =
      n ∙ sym (old-name a (sym f ∙ y ∙ sym x ∙ e) h) ∙ sym m
  Origin-name b c p one x y (old a i m f h) (bound n e) =
      m ∙ old-name a (sym f ∙ x ∙ sym y ∙ e) h ∙ sym n
  Origin-name b c p one x y (old a i m f h) (old d j n g k) =
      m ∙ one a d p i j (sym f ∙ x) (sym g ∙ y) ∙ sym n

  bind_pane-OneName : OneName agents → OneName (bind_pane name pane now agents)
  bind_pane-OneName one b c p i j x y =
      Origin-name b c p one x y (bind_pane-Origin b i) (bind_pane-Origin c j)

-- A row whose name and pane are those of an old row, or that has no pane.
data Carried (agents : List Agent) (b : Agent) : Type 0 where
  unbound : b.pane_id ≡ none → Carried agents b
  as_before : (a : Agent) → In a agents → b.name ≡ a.name → b.pane_id ≡ a.pane_id → Carried agents b

Carried-OneName :
    (agents rows : List Agent)
    → ((b : Agent) → In b rows → Carried agents b)
    → OneName agents
    → OneName rows
Carried-OneName agents rows h one b c p i j x y = name-eq (h b i) (h c j)
  where
    name-eq : Carried agents b → Carried agents c → b.name ≡ c.name
    name-eq (unbound n) o = absurd (ground arith)
    name-eq (as_before a k m e) (unbound n) = absurd (ground arith)
    name-eq (as_before a k m e) (as_before d l n f) =
        m ∙ one a d p k l (sym e ∙ x) (sym f ∙ y) ∙ sym n

appended-Carried :
    (agents : List Agent) (new c : Agent)
    → new.pane_id ≡ none
    → In c (agents ++ new ∷ [])
    → Carried agents c
appended-Carried [] new c n (inl e) = unbound (ap (λ (w : Agent). w.pane_id) e ∙ n)
appended-Carried [] new c n (inr i) = absurd i
appended-Carried (x ∷ agents) new c n (inl e) =
    as_before x (inl refl) (ap (λ (w : Agent). w.name) e) (ap (λ (w : Agent). w.pane_id) e)
appended-Carried (x ∷ agents) new c n (inr i) = later (appended-Carried agents new c n i)
  where
    later : Carried agents c → Carried (x ∷ agents) c
    later (unbound e) = unbound e
    later (as_before a j m e) = as_before a (inr j) m e

touched-Carried :
    (p : Agent → Bool) (now : ℕ) (agents : List Agent) (c : Agent)
    → In c (update_rows p (λ a. record a { updated_at = now }) agents)
    → Carried agents c
touched-Carried p now agents c i =
    let s = update_rows-Source p (λ a. record a { updated_at = now }) agents c i in
    elim s.becomes [
      | inl (t, e) ↦
          as_before s.row s.row_in (ap (λ (w : Agent). w.name) e) (ap (λ (w : Agent). w.pane_id) e)
      | inr (n, e) ↦
          as_before s.row s.row_in (ap (λ (w : Agent). w.name) e) (ap (λ (w : Agent). w.pane_id) e)
    ]

-- One pane, one identity: if no pane is held under two names, that is so after any registration, also
-- one that moves a pane to another name or that is refused.
pub upsert_agent-OneName :
    (agent pane : String) (now : ℕ) (s : Store)
    → OneName s.agents
    → OneName (upsert_agent agent pane now s).1.agents
unfolding upsert_agent
upsert_agent-OneName agent pane now s one =
    let name = canonical_name agent in
    let P = λ (x : Result (Unit {0}) × Store). OneName x.1.agents in
    if_cases P (str_eq name "") (λ _. one)
      (λ _.
        if_cases P (reserved_routing_name name) (λ _. one)
          (λ _.
            if_cases P (str_eq pane "")
              (λ _.
                if_cases OneName (count_rows (named name) s.agents == 0)
                  (λ _.
                    Carried-OneName s.agents _
                      (λ c i. appended-Carried s.agents (new_agent name none now) c refl i) one)
                  (λ _.
                    Carried-OneName s.agents _
                      (λ c i. touched-Carried (named name) now s.agents c i) one))
              (λ _. bind_pane-OneName name pane now s.agents one)))
