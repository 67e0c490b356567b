-- ===== src/Mailman/Attempt/Drafts.antt =====
-- The flush of a stale draft loses no text of the operator.
use tmux_tell.Common.{
  ℕ, String, true, Option, none, some, [], ◌∷◌, ◌++◌, ◌≡◌, ◌⊎◌, inl, inr, refl, ap, arith, if_cases,
  str_eq, eq_iff,
}
use tmux_tell.Names.{canonical_name}
use tmux_tell.Gate.{GateOutcome}
use tmux_tell.Store.Tables.{State, Kind, Message, Store, Result, ok, err}
use tmux_tell.Store.Insert.{InsertResult}
use tmux_tell.Store.Insert.Attempts.{queued_row}
use tmux_tell.Store.Insert.Operations.{insert_notice}
use tmux_tell.Store.Insert.Notices.{Noticed, insert_notice-Noticed}
use tmux_tell.Mailman.Attempt.{
  Flush, keeps_input, clears_lines, flush_draft, archives, archive_stranded_draft, flushed_after,
  notice_params, render_stranded_draft_body, succeeded,
}

-- A queued row from the agent to itself that holds the text.
abbrev pub IsArchive : String → String → Message → Type 0
IsArchive agent body m =
    (m.to_agent ≡ canonical_name agent)
    × (m.from_agent ≡ canonical_name agent)
    × (m.kind ≡ Kind.stranded_draft)
    × (m.state ≡ State.queued)
    × (m.body ≡ body)

-- What was in the input row when it was read last.
abbrev pub last_read : Option String → GateOutcome → String
last_read none out = out.input_content
last_read (some c) out = c

-- The text that was in the row is in the table, or there was none; a row that is kept needs nothing.
abbrev pub Saves :
    String
    → String
    → String
    → GateOutcome
    → Option String
    → Message
    → Store
    → Flush × Store
    → Type 0
Saves binary_name agent pane out fresh m s (keeps_input, t) = Unit
Saves binary_name agent pane out fresh m s (clears_lines n, t) =
    ((fresh ≡ some "") × (t ≡ s))
    ⊎ ((r : Message) × (t.messages ≡ s.messages ++ r ∷ [])
        × IsArchive agent
            (render_stranded_draft_body binary_name pane m.public_id (last_read fresh out)) r)

module _ (draws : ℕ → Option String) (now : ℕ) (binary_name : String) where
  archived :
      (agent body : String) (s : Store) (x : Result InsertResult × Store)
      → Noticed (notice_params agent agent body Kind.stranded_draft) now s x
      → succeeded x.0 ≡ true
      → (r : Message) × (x.1.messages ≡ s.messages ++ r ∷ []) × IsArchive agent body r
  unfolding queued_row
  archived agent body s (ok i, t) (e, a) h = (_, e, (refl, refl, refl, refl, refl))
  archived agent body s (err e, t) n h = absurd (ground arith)

  flushed_after-Saves :
      (agent pane content : String) (out : GateOutcome) (fresh : Option String) (m : Message)
      (s : Store)
      → last_read fresh out ≡ content
      → Saves binary_name agent pane out fresh m s (
          flushed_after content
            (archive_stranded_draft draws now binary_name agent pane m.public_id content s))
  unfolding archive_stranded_draft
  flushed_after-Saves agent pane content out fresh m s e =
      let body = render_stranded_draft_body binary_name pane m.public_id content in
      let x = insert_notice draws now (notice_params agent agent body Kind.stranded_draft) s in
      if_cases (λ (f : Flush). Saves binary_name agent pane out fresh m s (f, x.1)) (succeeded x.0)
        (λ t. inr (
          rw e (
            archived agent body s x
              (insert_notice-Noticed draws now (notice_params agent agent body Kind.stranded_draft)
                s)
              t)))
        (λ _. tt)

  -- The input row is cleared only if it was read again as empty, or if the text that was read last,
  -- that of the gate where the second reading failed, stands in a new queued row of the agent.
  pub flush_draft-Saves :
      (agent pane : String) (fresh : Option String) (out : GateOutcome) (m : Message) (s : Store)
      → Saves binary_name agent pane out fresh m s
          (flush_draft draws now binary_name agent pane fresh out m s)
  unfolding flush_draft
  flush_draft-Saves agent pane none out m s =
      if_cases (Saves binary_name agent pane out none m s) (archives out m)
        (λ _. flushed_after-Saves agent pane out.input_content out none m s refl) (λ _. tt)
  flush_draft-Saves agent pane (some c) out m s =
      if_cases (Saves binary_name agent pane out (some c) m s) (archives out m)
        (λ _.
          if_cases (Saves binary_name agent pane out (some c) m s) (str_eq c "")
            (λ t. inl (ap some ((eq_iff c "").0 t), refl))
            (λ _. flushed_after-Saves agent pane c out (some c) m s refl))
        (λ _. tt)
