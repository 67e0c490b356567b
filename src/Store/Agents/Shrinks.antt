-- ===== src/Store/Agents/Shrinks.antt =====
-- The self-compact signal is consumed once by each of its two consumers.
use tmux_tell.Common.{
  ℕ, String, true, false, Option, none, some, ◌≡◌, refl, arith, if_cases, count_rows, update_rows,
  count_rows-cleared, ◌==◌, ltb,
}
use tmux_tell.Names.{canonical_name}
use tmux_tell.Store.Tables.{Store}
use tmux_tell.Store.Deliver.{promote_deferred, waits_for}
use tmux_tell.Store.Agents.{
  is_newer, uncounted, as_counted, count_self_compact_if_new, unpromoted, as_promoted,
  promote_resume_on_self_compact_if_new,
}

not_newer : (signal : Option ℕ) → is_newer signal signal ≡ false
not_newer none = refl
not_newer (some t) = ground arith

-- Counting the self-compact signal twice counts it once: the second call finds nothing new and leaves
-- the store as it is.
pub count_self_compact_if_new-once :
    (agent : String) (s : Store)
    → count_self_compact_if_new agent (count_self_compact_if_new agent s).1
      ≡ (none, (count_self_compact_if_new agent s).1)
unfolding count_self_compact_if_new
count_self_compact_if_new-once agent s =
    let p = uncounted (canonical_name agent) in
    let P = λ (x : Option ℕ × Store). count_self_compact_if_new agent x.1 ≡ (none, x.1) in
    let gone : (count_rows p (update_rows p as_counted s.agents) == 0) ≡ true = ground (
      arith,
      count_rows-cleared p as_counted s.agents
          (λ a h. ground (arith, not_newer a.last_self_compact_at)),
    ) in
    if_cases P (count_rows p s.agents == 0) (λ z. rw z refl) (λ _. rw gone refl)

exhausted :
    (agent trigger : String) (t : Store)
    → (count_rows (unpromoted (canonical_name agent)) t.agents == 0) ≡ true
    → promote_resume_on_self_compact_if_new agent trigger t ≡ (none, t)
unfolding promote_resume_on_self_compact_if_new
exhausted agent trigger t z = rw z refl

-- Promoting the resume rows on the self-compact signal twice promotes once: the second call finds
-- nothing new and leaves the store as it is.
pub promote_resume-once :
    (agent trigger : String) (s : Store)
    → promote_resume_on_self_compact_if_new agent trigger
        (promote_resume_on_self_compact_if_new agent trigger s).1
      ≡ (none, (promote_resume_on_self_compact_if_new agent trigger s).1)
unfolding promote_resume_on_self_compact_if_new promote_deferred
promote_resume-once agent trigger s =
    let p = unpromoted (canonical_name agent) in
    let P = λ (x : Option ℕ × Store).
      promote_resume_on_self_compact_if_new agent trigger x.1 ≡ (none, x.1) in
    let gone : (count_rows p (update_rows p as_promoted s.agents) == 0) ≡ true = ground (
      arith,
      count_rows-cleared p as_promoted s.agents
          (λ a h. ground (arith, not_newer a.last_self_compact_at)),
    ) in
    if_cases P (count_rows p s.agents == 0) (λ z. rw z refl)
      (λ _. exhausted agent trigger _ (
        if_cases (λ (t : Store). (count_rows p t.agents == 0) ≡ true)
          (ltb 0
            (count_rows (waits_for (canonical_name (canonical_name agent)) trigger) s.messages))
          (λ _. gone) (λ _. gone)))
