-- ===== src/Provider/Pending.antt =====
-- crates/openlive-provider/src/pending_actions.rs: file operations that wait for the user's consent.
-- The map behind the lock is an association list. The clocks and the identifier drawn for an action
-- are arguments; `write_file` and `delete_file` stand for the calls of sandbox.rs on the disk.
use openlive.Common.{
  ℕ, ◌-◌, ◌*◌, ap, ◌≡◌, ◌≤◌, ◌<◌, inl, inr, Option, none, some, List, [], ◌∷◌, ◌++◌, map, arith,
  leb, if◌then◌else◌, length, take, Option-cases,
}
use openlive.Common.Map.{lookup, insert, remove, lookup-remove_self, lookup-insert_self, IsUnique}
use openlive.Common.Text.{Text, codes, text_discrete}
use openlive.Common.Result.{Result, ok, err}
use openlive.Provider.Expiring.{
  purge, purge-bounded, purge-missing, purge-keeps, remove-shorter, length-insert-le,
}

pub data PendingKind : Type 0 where
  write_file delete_file : PendingKind

pub record PendingAction : Type 0 where
  pub id : Text
  pub kind : PendingKind
  pub path : Text
  pub content : Option Text
  pub message : Text
  pub preview : Option Text
  pub created_at_ms : ℕ

pub record Entry : Type 0 where
  pub action : PendingAction
  pub created : ℕ

abbrev pub ttl : ℕ
ttl = 300 * 1000000000

abbrev pub max_pending : ℕ
max_pending = 64

abbrev pub Store : Type 0
Store = List (Text × Entry)

unfoldable pub purged : ℕ → Store → Store
unfolding purge
purged now m = purge text_discrete (λ e. e.created) ttl max_pending now m

unfoldable pub queue_write_file :
    Store → (now now_ms : ℕ) → (id path content reason : Text) → Store × PendingAction
unfolding purged
queue_write_file m now now_ms id path content reason =
    let action : PendingAction = record {
      id = id;
      kind = write_file;
      path = path;
      content = some content;
      message = reason;
      preview = some (take 200 content);
      created_at_ms = now_ms;
    } in
    (insert text_discrete id (record { action = action; created = now }) (purged now m), action)

unfoldable pub queue_delete_file :
    Store → (now now_ms : ℕ) → (id path : Text) → Store × PendingAction
unfolding purged
queue_delete_file m now now_ms id path =
    let action : PendingAction = record {
      id = id;
      kind = delete_file;
      path = path;
      content = none;
      message = codes "Delete sandbox file “" ++ (path ++ codes "”?");
      preview = none;
      created_at_ms = now_ms;
    } in
    (insert text_discrete id (record { action = action; created = now }) (purged now m), action)

abbrev action_of : Option Entry → Option PendingAction
action_of none = none
action_of (some e) = some e.action

unfoldable pub take_action : Store → ℕ → Text → Store × Option PendingAction
unfolding purged
take_action m now id =
    let m' = purged now m in (remove text_discrete id m', action_of (lookup text_discrete id m'))

unfoldable pub peek : Store → ℕ → Text → Store × Option PendingAction
unfolding purged
peek m now id = let m' = purged now m in (m', action_of (lookup text_discrete id m'))

-- `sort_by_key`, a stable sort, by the time of creation.
unfoldable pub insert_by_time : PendingAction → List PendingAction → List PendingAction
insert_by_time a [] = a ∷ []
insert_by_time a (b ∷ bs) =
    if leb a.created_at_ms b.created_at_ms then a ∷ b ∷ bs else b ∷ insert_by_time a bs

unfoldable pub sort_by_time : List PendingAction → List PendingAction
unfolding insert_by_time
sort_by_time [] = []
sort_by_time (a ∷ rest) = insert_by_time a (sort_by_time rest)

unfoldable pub list_pending : Store → ℕ → Store × List PendingAction
unfolding purged sort_by_time
list_pending m now = let m' = purged now m in (m', sort_by_time (map (λ e. e.1.action) m'))

abbrev pub not_found : Text
not_found = codes "pending action not found or expired"

-- `Option::unwrap_or_default`
abbrev text_or_empty : Option Text → Text
text_or_empty none = []
text_or_empty (some t) = t

module _ (write : Text → Text → Result Text Text) (delete : Text → Result Text Text) where
  abbrev execute : PendingAction → Result Text Text
  execute a = elim a.kind [
    | write_file ↦ write a.path (text_or_empty a.content)
    | delete_file ↦ delete a.path
  ]

  -- `ok_or_else` and the match on the kind
  abbrev executed : Option PendingAction → Result Text Text
  executed none = err not_found
  executed (some a) = execute a

  unfoldable pub execute_approved : Store → ℕ → Text → Store × Result Text Text
  unfolding take_action
  execute_approved m now id = let (m', taken) = take_action m now id in (m', executed taken)

unfoldable pub reject : Store → ℕ → Text → Store × Result Text Unit
unfolding take_action
reject m now id =
    let (m', taken) = take_action m now id in
    (m', elim taken [ none ↦ err not_found | some a ↦ ok tt ])

taken_twice :
    (m : Store) (now later : ℕ) (id : Text)
    → (take_action (take_action m now id).0 later id).1 ≡ none
unfolding take_action purged
taken_twice m now later id =
    let rest = remove text_discrete id (purged now m) in
    ap action_of (
      purge-missing text_discrete (λ e. e.created) ttl max_pending later rest id
        (lookup-remove_self text_discrete id (purged now m)))

pub taken_fresh :
    (m : Store) (now : ℕ) (id : Text) (e : Entry)
    → length m ≤ max_pending
    → lookup text_discrete id m ≡ some e
    → now - e.created < ttl
    → (take_action m now id).1 ≡ some e.action
unfolding take_action purged
taken_fresh m now id e le there fresh =
    ap action_of
      (purge-keeps text_discrete (λ x. x.created) ttl max_pending now m id e le there fresh)

-- A write that is queued where there is room, and approved less than five minutes later, writes the
-- queued content to the queued path; a second approval, whenever it comes, finds nothing.
pub approved_once :
    (write : Text → Text → Result Text Text) (delete : Text → Result Text Text) (m : Store)
    (now now_ms later again : ℕ) (id path content reason : Text)
    → length (purged now m) < max_pending
    → later - now < ttl
    → ((execute_approved write delete
          (queue_write_file m now now_ms id path content reason).0
          later
          id).1
        ≡ write path content)
      × ((execute_approved write delete
            (execute_approved write delete
              (queue_write_file m now now_ms id path content reason).0
              later
              id).0
            again
            id).1
          ≡ err not_found)
unfolding execute_approved queue_write_file
approved_once write delete m now now_ms later again id path content reason room soon =
    let (q, a) = queue_write_file m now now_ms id path content reason in
    let e : Entry = record { action = a; created = now } in
    let le : length q ≤ max_pending =
      omega (arith, length-insert-le text_discrete (λ x. x.created) id e (purged now m), room) in
    let fresh =
      taken_fresh q later id e le (lookup-insert_self text_discrete id e (purged now m)) soon in
    (ap (executed write delete) fresh, ap (executed write delete) (taken_twice q later again id))

-- An action that is taken was queued, less than five minutes ago, and is not there to be taken again,
-- now or later; at most 64 others stay.
pub take_action-once :
    (m : Store) (now : ℕ) (id : Text) (a : PendingAction)
    → IsUnique text_discrete m
    → (take_action m now id).1 ≡ some a
    → ((e : Entry) × (lookup text_discrete id m ≡ some e)
        × (e.action ≡ a)
        × (now - e.created < ttl))
      × ((later : ℕ) → (take_action (take_action m now id).0 later id).1 ≡ none)
      × (length (take_action m now id).0 ≤ max_pending)
unfolding take_action purged
take_action-once m now id a u h =
    let m' = purged now m in
    let (bound, kept) = purge-bounded text_discrete (λ e. e.created) ttl max_pending now m u in
    elim (Option-cases (lookup text_discrete id m')) [
      | inl missing ↦ absurd (ground arith)
      | inr (e, found) ↦
          let (there, fresh) = kept id e found in
          (
            (e, there, ground arith, fresh),
            λ later. taken_twice m now later id,
            omega (arith, remove-shorter text_discrete (λ e. e.created) id m', bound),
          )
    ]
