-- ===== src/Provider/Context.antt =====
-- crates/openlive-provider/src/session_context.rs: the last turns of each agent session, as context
-- for the language model. The map behind the lock is an association list; the instant of a call is an
-- argument.
use openlive.Common.{
  ℕ, ◌-◌, ◌*◌, ◌≤◌, ◌≡◌, refl, arith, Option, none, some, List, [], ◌∷◌, ◌++◌, ltb, if◌then◌else◌,
  length, length-drop, take, drop,
}
use mathlib.Core.List.{reverse}
use openlive.Common.Map.{lookup, insert, remove, lookup-insert_self}
use openlive.Common.Text.{Text, codes, text_discrete}
use openlive.Common.Trim.{trim, is_empty}
use openlive.Provider.Expiring.{purge}

abbrev max_turns_per_session : ℕ
max_turns_per_session = 24

abbrev max_sessions : ℕ
max_sessions = 64

abbrev ttl : ℕ
ttl = 7200 * 1000000000

pub record Turn : Type 0 where
  pub role : Text
  pub text : Text

pub record Session : Type 0 where
  pub turns : List Turn
  pub last_touch : ℕ

abbrev pub Store : Type 0
Store = List (Text × Session)

unfoldable pub purged : ℕ → Store → Store
unfolding purge
purged now m = purge text_discrete (λ s. s.last_touch) ttl max_sessions now m

-- `join("\n")` of the turns, each as `role: text`
unfoldable pub join_turns : List Turn → Text
join_turns [] = []
join_turns (t ∷ []) = t.role ++ (codes ": " ++ t.text)
join_turns (t ∷ u ∷ turns) = (t.role ++ (codes ": " ++ t.text)) ++ (10 ∷ join_turns (u ∷ turns))

-- `usize::clamp`
unfoldable pub clamp : ℕ → ℕ → ℕ → ℕ
clamp n low high = if ltb n low then low else if ltb high n then high else n

-- The last `n` turns: reversed, cut and reversed again, as in the source.
unfoldable pub last_turns : ℕ → List Turn → List Turn
last_turns n turns = reverse (take n (reverse turns))

unfoldable pub context_only : Store → ℕ → (session_id : Text) → (count : ℕ) → Store × Text
unfolding trim purged join_turns clamp last_turns
context_only m now session_id count =
    let sid = trim session_id in
    let m' = purged now m in
    if is_empty sid then (m, []) else elim (lookup text_discrete sid m') [
      | none ↦ (m', [])
      | some s ↦ (
        insert text_discrete sid (record s { last_touch = now }) m',
        join_turns (last_turns (clamp count 1 max_turns_per_session) s.turns),
      )
    ]

-- `turns.drain(0..n)` of what is over the limit
unfoldable pub trim_turns : List Turn → List Turn
trim_turns turns =
    if ltb max_turns_per_session (length turns)
    then drop (length turns - max_turns_per_session) turns
    else turns

-- `entry(..).or_insert_with(..)`
abbrev turns_of : Option Session → List Turn
turns_of none = []
turns_of (some s) = s.turns

unfoldable pub append_turn : Store → ℕ → (sid role text : Text) → Store
unfolding purged trim_turns
append_turn m now sid role text =
    let m' = purged now m in
    let turn : Turn = record { role = role; text = take 500 text } in
    let s : Session = record {
      turns = trim_turns (turns_of (lookup text_discrete sid m') ++ (turn ∷ []));
      last_touch = now;
    } in
    insert text_discrete sid s m'

unfoldable pub append_and_context :
    Store → ℕ → (session_id role text : Text) → (count : ℕ) → Store × Text
unfolding trim context_only append_turn
append_and_context m now session_id role text count =
    let sid = trim session_id in
    let said = trim text in
    if is_empty sid
    then (m, [])
    else if is_empty said
    then context_only m now sid count
    else context_only (append_turn m now sid role said) now sid count

unfoldable pub clear_session : Store → (session_id : Text) → Store
unfolding trim remove
clear_session m session_id = remove text_discrete (trim session_id) m

trim_turns-length : (turns : List Turn) → length (trim_turns turns) ≤ max_turns_per_session
unfolding trim_turns
trim_turns-length turns = ground (arith, length-drop (length turns - max_turns_per_session) turns)

-- The session that a turn is appended to has at most 24 turns afterwards, and was touched just now.
append_turn-bounded :
    (m : Store) (now : ℕ) (sid role text : Text)
    → (s : Session) × (lookup text_discrete sid (append_turn m now sid role text) ≡ some s)
      × (length s.turns ≤ max_turns_per_session)
      × (s.last_touch ≡ now)
unfolding append_turn
append_turn-bounded m now sid role text =
    let turn : Turn = record { role = role; text = take 500 text } in
    let before = turns_of (lookup text_discrete sid (purged now m)) in
    (
      _,
      lookup-insert_self text_discrete sid _ (purged now m),
      trim_turns-length (before ++ (turn ∷ [])),
      refl,
    )
