-- ===== src/Control/Scopes.antt =====
-- The scopes of control.go: what `NamesForScope` lists is what `Resolve` accepts, and who may clear
-- another agent's session.
use tmux_tell.Common.{
  String, Bool, true, false, some, List, [], ◌∷◌, ◌≡◌, refl, sym, ◌⊎◌, ◌↔◌, inl, inr, In, All,
  All-In, arith, map, Bool-cases, Option-cases, if_cases, first_row, first_row-In, select_rows,
  any_row, str_eq, eq_iff, subst,
}
use tmux_tell.Control.{
  Scope, Command, types, allowed, canonicalize, named_command, resolve, resolve_in, invokable,
  names_for_scope, resolve_canonical, peer_edges, matches_edge,
}

-- A row of the table has a name, under which it is found.
abbrev Keyed : Command → Type 0
Keyed c = (str_eq c.name "" ≡ false) × (first_row (named_command c.name) allowed ≡ some c)

allowed-Keyed : All Keyed allowed
allowed-Keyed = (
  (refl, refl),
  (
    (refl, refl),
    (
      (refl, refl),
      ((refl, refl), ((refl, refl), ((refl, refl), ((refl, refl), ((refl, refl), tt))))),
    ),
  ),
)

abbrev Named : String → (Command → Bool) → List Command → Type 0
Named n p cs = (c : Command) × In c cs × (p c ≡ true) × (n ≡ c.name)

In-names :
    (p : Command → Bool) (cs : List Command) (c : Command)
    → In c cs
    → p c ≡ true
    → In c.name (map (λ (d : Command). d.name) (select_rows p cs))
In-names p [] c i h = absurd i
In-names p (x ∷ cs) c (inl e) h = rw (sym e, h) (inl refl)
In-names p (x ∷ cs) c (inr i) h =
    let rest = In-names p cs c i h in
    if_cases (λ (l : List Command). In c.name (map (λ (d : Command). d.name) l)) (p x)
      (λ _. inr rest) (λ _. rest)

names-deeper :
    (p : Command → Bool) (x : Command) (cs : List Command) (n : String)
    → Named n p cs
    → Named n p (x ∷ cs)
names-deeper p x cs n (c, i, g, e) = (c, inr i, g, e)

names-In :
    (p : Command → Bool) (cs : List Command) (n : String)
    → In n (map (λ (d : Command). d.name) (select_rows p cs))
    → Named n p cs
names-In p [] n i = absurd i
names-In p (x ∷ cs) n i = elim (Bool-cases (p x)) [
  | inl t ↦ elim (rw t at i) [
    | inl e ↦ (x, inl refl, t, e)
    | inr j ↦ names-deeper p x cs n (names-In p cs n j)
  ]
  | inr f ↦ names-deeper p x cs n (names-In p cs n (rw f at i))
]

resolve_in-types :
    (scope : Scope) (sender recipient : String) (c : Command)
    → invokable scope sender recipient c ≡ true
    → resolve_in scope sender recipient (some c) ≡ types c.line
resolve_in-types Scope.self sender recipient c h = ground arith
resolve_in-types Scope.peer sender recipient c h = ground arith

resolve_in-invokable :
    (scope : Scope) (sender recipient line : String) (c : Command)
    → resolve_in scope sender recipient (some c) ≡ types line
    → invokable scope sender recipient c ≡ true
resolve_in-invokable Scope.self sender recipient line c h = ground arith
resolve_in-invokable Scope.peer sender recipient line c h = ground arith

-- What resolves is a row of the table.
resolve_canonical-Row :
    (n : String) (scope : Scope) (sender recipient line : String)
    → resolve_canonical n scope sender recipient ≡ types line
    → (c : Command) × In c allowed
      × (c.name ≡ n)
      × (resolve_in scope sender recipient (some c) ≡ types line)
resolve_canonical-Row n scope sender recipient line h = elim (Bool-cases (str_eq n "")) [
  | inl t ↦ absurd (ground (arith, rw t at h))
  | inr f ↦ elim (Option-cases (first_row (named_command n) allowed)) [
    | inl e ↦ absurd (ground (arith, rw (f, e, resolve_in) at h))
    | inr (c, e) ↦
        let (i, q) = first_row-In (named_command n) allowed c e in
        (c, i, (eq_iff c.name n).0 q, rw (f, e) at h)
  ]
]

resolve_canonical-names :
    (n : String) (scope : Scope) (sender recipient line : String)
    → resolve_canonical n scope sender recipient ≡ types line
    → In n (names_for_scope scope sender recipient)
unfolding names_for_scope
resolve_canonical-names n scope sender recipient line h =
    let (c, i, q, r) = resolve_canonical-Row n scope sender recipient line h in
    let g = resolve_in-invokable scope sender recipient line c r in
    subst (λ (w : String). In w (names_for_scope scope sender recipient)) q
      (In-names (invokable scope sender recipient) allowed c i g)

names-resolve_canonical :
    (n : String) (scope : Scope) (sender recipient : String)
    → In n (names_for_scope scope sender recipient)
    → (line : String) × (resolve_canonical n scope sender recipient ≡ types line)
unfolding names_for_scope
names-resolve_canonical n scope sender recipient i =
    let (c, j, g, e) = names-In (invokable scope sender recipient) allowed n i in
    let (full, found) = All-In Keyed allowed c allowed-Keyed j in
    (c.line, rw (e, full, found) (resolve_in-types scope sender recipient c g))

-- A command resolves to some line exactly if its canonical name is in the list of names that the
-- scope's help shows for this sender and this recipient.
pub resolve-iff-names :
    (name : String) (scope : Scope) (sender recipient : String)
    → In (canonicalize name).0 (names_for_scope scope sender recipient)
      ↔ ((line : String) × (resolve name scope sender recipient ≡ types line))
unfolding resolve
resolve-iff-names name scope sender recipient = (
  names-resolve_canonical (canonicalize name).0 scope sender recipient,
  λ (line, h). resolve_canonical-names (canonicalize name).0 scope sender recipient line h,
)

-- Who may clear whom.
abbrev pub IsRescue : Scope → String → String → Type 0
IsRescue scope sender recipient =
    (scope ≡ Scope.peer) × ((sender ≡ "bosun") ⊎ (sender ≡ "quartermaster")) × (recipient ≡ "pilot")

resolve_in-line :
    (scope : Scope) (sender recipient line : String) (c : Command)
    → resolve_in scope sender recipient (some c) ≡ types line
    → c.line ≡ line
resolve_in-line Scope.self sender recipient line c h = ground arith
resolve_in-line Scope.peer sender recipient line c h = ground arith

-- Only one row of the table clears a session, and no flag lets it be invoked.
abbrev Guards : Command → Type 0
Guards c =
    (str_eq c.line "/clear" ≡ false)
    ⊎ ((c.to_self ≡ false) × (c.to_peer ≡ false) × (c.name ≡ "clear"))

allowed-Guards : All Guards allowed
allowed-Guards = (
  inr (refl, refl, refl),
  (inl refl, (inl refl, (inl refl, (inl refl, (inl refl, (inl refl, (inl refl, tt))))))),
)

edge-IsRescue :
    (sender recipient : String)
    → any_row (matches_edge sender recipient) (peer_edges "clear") ≡ true
    → ((sender ≡ "bosun") ⊎ (sender ≡ "quartermaster")) × (recipient ≡ "pilot")
edge-IsRescue sender recipient h = grind (arith, eq_iff)

invokable-IsRescue :
    (scope : Scope) (sender recipient : String) (c : Command)
    → c.to_self ≡ false
    → c.to_peer ≡ false
    → c.name ≡ "clear"
    → invokable scope sender recipient c ≡ true
    → IsRescue scope sender recipient
invokable-IsRescue Scope.self sender recipient c s p n g = absurd (ground arith)
invokable-IsRescue Scope.peer sender recipient c s p n g =
    let (a, b) = edge-IsRescue sender recipient (rw (p, n) at g) in (refl, a, b)

-- However it is spelt, a command that resolves to `/clear` is aimed by bosun or quartermaster at the
-- peer pilot: nobody else, and no agent at itself, can clear a session.
pub resolve-IsRescue :
    (name : String) (scope : Scope) (sender recipient : String)
    → resolve name scope sender recipient ≡ types "/clear"
    → IsRescue scope sender recipient
unfolding resolve
resolve-IsRescue name scope sender recipient h =
    let (c, i, q, r) =
      resolve_canonical-Row (canonicalize name).0 scope sender recipient "/clear" h in
    let g = resolve_in-invokable scope sender recipient "/clear" c r in
    let l = resolve_in-line scope sender recipient "/clear" c r in
    elim (All-In Guards allowed c allowed-Guards i) [
      | inl f ↦ absurd (ground (arith, (eq_iff c.line "/clear").1 l))
      | inr (s, p, n) ↦ invokable-IsRescue scope sender recipient c s p n g
    ]
