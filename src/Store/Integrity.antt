-- ===== src/Store/Integrity.antt =====
-- The constraints of schema.sql as an invariant: ids ascend below the next one, public ids are
-- distinct, and every reply is to a row of the table.
use tmux_tell.Common.{
  ℕ, suc, ◌<◌, Bool, true, false, String, Option, none, some, List, [], ◌∷◌, ◌++◌, map, ◌≡◌, refl,
  ◌∙◌, ap, ap₂, arith, if_cases, update_rows, any_row, any_row-append, ◌||◌, str_eq, eq_iff, All,
}
use tmux_tell.Store.Tables.{Message, Store}

-- What the constraints speak of.
pub record Key : Type 0 where
  pub id : ℕ
  pub public_id : String
  pub reply_to : Option String

abbrev pub key : Message → Key
key m = record { id = m.id; public_id = m.public_id; reply_to = m.reply_to }

abbrev pub has_key : String → Key → Bool
has_key i k = str_eq k.public_id i

abbrev pub Ascends : List Key → Type 0
Ascends [] = Unit
Ascends (k ∷ ks) = All (λ (j : Key). k.id < j.id) ks × Ascends ks

abbrev pub Distinct : List Key → Type 0
Distinct [] = Unit
Distinct (k ∷ ks) = (any_row (has_key k.public_id) ks ≡ false) × Distinct ks

abbrev pub Resolved : List Key → Option String → Type 0
Resolved ks none = Unit
Resolved ks (some r) = any_row (has_key r) ks ≡ true

pub record SoundKeys (next : ℕ) (ks : List Key) : Type 0 where
  pub below : All (λ (k : Key). k.id < next) ks
  pub ascends : Ascends ks
  pub distinct : Distinct ks
  pub replies : All (λ (k : Key). Resolved ks k.reply_to) ks

abbrev pub IsSound : Store → Type 0
IsSound s = SoundKeys s.next_id (map key s.messages)

-- An UPDATE that leaves the keys alone.
pub keys-update_rows :
    (p : Message → Bool) (f : Message → Message) (ms : List Message)
    → ((m : Message) → key (f m) ≡ key m)
    → map key (update_rows p f ms) ≡ map key ms
keys-update_rows p f [] same = refl
keys-update_rows p f (m ∷ ms) same =
    ap₂ (λ (k : Key) (ks : List Key). k ∷ ks)
      (if_cases (λ n. key n ≡ key m) (p m) (λ _. same m) (λ _. refl)) (keys-update_rows p f ms same)

All-weaken : {P Q : Key → Type 0} (ks : List Key) → ((k : Key) → P k → Q k) → All P ks → All Q ks
All-weaken [] f h = tt
All-weaken (k ∷ ks) f (p, h) = (f k p, All-weaken ks f h)

All-append_one :
    (P : Key → Type 0) (ks : List Key) (k : Key) → All P ks → P k → All P (ks ++ k ∷ [])
All-append_one P [] k h p = (p, tt)
All-append_one P (j ∷ ks) k (q, h) p = (q, All-append_one P ks k h p)

Ascends-append_one :
    (ks : List Key) (k : Key)
    → Ascends ks
    → All (λ (j : Key). j.id < k.id) ks
    → Ascends (ks ++ k ∷ [])
Ascends-append_one [] k a b = (tt, tt)
Ascends-append_one (j ∷ ks) k (x, a) (y, b) =
    (All-append_one (λ i. j.id < i.id) ks k x y, Ascends-append_one ks k a b)

Distinct-append_one :
    (ks : List Key) (k : Key)
    → Distinct ks
    → any_row (has_key k.public_id) ks ≡ false
    → Distinct (ks ++ k ∷ [])
Distinct-append_one [] k d f = (refl, tt)
Distinct-append_one (j ∷ ks) k (x, d) f = (
  any_row-append (has_key j.public_id) ks (k ∷ [])
      ∙ ground (arith, eq_iff k.public_id j.public_id, eq_iff j.public_id k.public_id),
  Distinct-append_one ks k d (ground arith),
)

Resolved-append : (ks js : List Key) (r : Option String) → Resolved ks r → Resolved (ks ++ js) r
Resolved-append ks js none h = tt
Resolved-append ks js (some r) h = any_row-append (has_key r) ks js ∙ rw h

-- A new row under the next id and a fresh public id.
pub SoundKeys-append :
    (next : ℕ) (ks : List Key) (k : Key)
    → SoundKeys next ks
    → k.id ≡ next
    → any_row (has_key k.public_id) ks ≡ false
    → Resolved (ks ++ k ∷ []) k.reply_to
    → SoundKeys (suc next) (ks ++ k ∷ [])
SoundKeys-append next ks k s i fresh reply = record {
  below =
      All-append_one (λ j. j.id < suc next) ks k (All-weaken ks (λ j h. omega arith) s.below)
        (omega arith);
  ascends = Ascends-append_one ks k s.ascends (All-weaken ks (λ j h. omega arith) s.below);
  distinct = Distinct-append_one ks k s.distinct fresh;
  replies =
      All-append_one (λ j. Resolved (ks ++ k ∷ []) j.reply_to) ks k
        (All-weaken ks (λ j h. Resolved-append ks (k ∷ []) j.reply_to h) s.replies) reply;
}

pub any_key :
    (r : String) (ms : List Message)
    → any_row (has_key r) (map key ms) ≡ any_row (λ m. str_eq m.public_id r) ms
any_key r [] = refl
any_key r (m ∷ ms) = ap (λ b. str_eq m.public_id r || b) (any_key r ms)
