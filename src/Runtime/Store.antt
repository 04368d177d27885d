-- ===== src/Runtime/Store.antt =====
-- crates/openlive-runtime/src/persistence.rs: the store of a session's envelopes and tasks, kept as
-- lines of JSON in files. `SessionStore` holds the contents of the files below its root; whether the
-- operating system carries out a call, `io_ok`, is an argument. `Codec` stands for serde_json.
pub mod Tasks
use openlive.Common.{
  ℕ, Bool, true, false, not, Option, none, some, List, [], ◌∷◌, ◌++◌, map, ◌==◌, ltb, leb,
  if◌then◌else◌, keep, ℕ_discrete,
}
use openlive.Common.Map.{lookup, insert, contains_key}
use openlive.Common.SortedMap.{insert_sorted}
use openlive.Common.Text.{Text}
use openlive.Common.Trim.{trim, is_empty}
use openlive.Common.Result.{Result, ok, err}

pub data PersistenceError : Type 0 where
  io : PersistenceError
  json : PersistenceError
  invalid : Text → PersistenceError

pub record PersistedEnvelope : Type 0 where
  pub session_id : ℕ
  pub sequence : ℕ
  pub event_id : ℕ
  pub recorded_at_ms : ℕ
  pub envelope_json : Text

pub record PersistedTask : Type 0 where
  pub session_id : ℕ
  pub task_id : ℕ
  pub intent : Text
  pub status : Text
  pub deadline_ms : ℕ
  pub generation_id : Option ℕ
  pub summary : Option Text
  pub updated_at_ms : ℕ

pub record Codec (A : Type 0) : Type 0 where
  pub to_string : A → Option Text
  pub from_str : Text → Option A

-- The session directories, and the contents of `events.jsonl` and `tasks.jsonl` in them.
pub record SessionStore : Type 0 where
  pub dirs : List (ℕ × Unit {0})
  pub events : List (ℕ × Text)
  pub tasks : List (ℕ × Text)

abbrev pub empty_store : SessionStore
empty_store = record { dirs = []; events = []; tasks = [] }

-- `create_dir_all`, which leaves a directory that is there; directories are kept by name in order.
unfoldable pub ensure_session : SessionStore → ℕ → SessionStore
ensure_session s session_id =
    if contains_key ℕ_discrete session_id s.dirs
    then s
    else record s { dirs = insert_sorted session_id tt s.dirs }

-- The content of a file, empty if `open` with `create` makes it.
abbrev pub content : ℕ → List (ℕ × Text) → Text
content session_id files = elim (lookup ℕ_discrete session_id files) [ none ↦ [] | some c ↦ c ]

-- `BufRead::lines`: the rest after the last line break is a line if it is not empty.
unfoldable pub lines_from : Text → Text → List Text
lines_from [] [] = []
lines_from (c ∷ acc) [] = (c ∷ acc) ∷ []
lines_from acc (c ∷ cs) =
    let line_ends = acc ∷ lines_from [] cs in
    let line_goes_on = lines_from (acc ++ c ∷ []) cs in if c == 10 then line_ends else line_goes_on

module _ {A : Type 0} (J : Codec A) where
  open J use {to_string, from_str}

  -- The file after the call, and its result: the file is opened before the value is printed.
  unfoldable pub append_jsonl :
      ℕ → List (ℕ × Text) → A → List (ℕ × Text) × Result PersistenceError Unit
  append_jsonl session_id files value = elim (to_string value) [
    | none ↦ (insert ℕ_discrete session_id (content session_id files) files, err json)
    | some line ↦
        (insert ℕ_discrete session_id (content session_id files ++ (line ++ 10 ∷ [])) files, ok tt)
  ]

  -- The loop of `read_jsonl` over the lines.
  unfoldable pub parse_lines : List Text → Result PersistenceError (List A)
  parse_lines [] = ok []
  parse_lines (line ∷ lines) =
      let rest = parse_lines lines in
      if is_empty (trim line) then rest else elim (from_str (trim line)) [
        | none ↦ err json
        | some a ↦ elim rest [ ok out ↦ ok (a ∷ out) | err e ↦ err e ]
      ]

  unfoldable pub read_jsonl : Text → Result PersistenceError (List A)
  unfolding lines_from parse_lines
  read_jsonl file = parse_lines (lines_from [] file)

-- `sort_by_key`, a stable sort, by the sequence number.
unfoldable pub insert_by_sequence :
    PersistedEnvelope → List PersistedEnvelope → List PersistedEnvelope
insert_by_sequence row [] = row ∷ []
insert_by_sequence row (r ∷ rows) =
    if leb row.sequence r.sequence then row ∷ r ∷ rows else r ∷ insert_by_sequence row rows

unfoldable pub sort_by_sequence : List PersistedEnvelope → List PersistedEnvelope
sort_by_sequence [] = []
sort_by_sequence (row ∷ rows) = insert_by_sequence row (sort_by_sequence rows)

-- The loop of `list_tasks`: the latest row of a task replaces the ones before.
unfoldable pub latest_of : List (ℕ × PersistedTask) → List PersistedTask → List (ℕ × PersistedTask)
latest_of latest [] = latest
latest_of latest (row ∷ rows) = latest_of (insert_sorted row.task_id row latest) rows

abbrev pub into_values : List (ℕ × PersistedTask) → List PersistedTask
into_values [] = []
into_values ((k, row) ∷ m) = row ∷ into_values m

module _ (E : Codec PersistedEnvelope) (T : Codec PersistedTask) where
  unfoldable pub append_envelope :
      SessionStore
      → Bool
      → (session_id sequence event_id recorded_at_ms : ℕ) → Text
      → SessionStore × Result PersistenceError Unit
  unfolding append_jsonl ensure_session
  append_envelope s io_ok session_id sequence event_id recorded_at_ms envelope_json =
      let row : PersistedEnvelope = record {
        session_id = session_id;
        sequence = sequence;
        event_id = event_id;
        recorded_at_ms = recorded_at_ms;
        envelope_json = envelope_json;
      } in
      if io_ok
      then (let s' = ensure_session s session_id in
          let (events, result) = append_jsonl E session_id s'.events row in
          (record s' { events = events }, result))
      else (s, err io)

  unfoldable pub load_envelopes_after :
      SessionStore
      → Bool
      → (session_id after_sequence : ℕ) → Result PersistenceError (List PersistedEnvelope)
  unfolding read_jsonl sort_by_sequence insert_by_sequence
  load_envelopes_after s io_ok session_id after_sequence =
      elim (lookup ℕ_discrete session_id s.events) [
        | none ↦ ok []
        | some file ↦
            if io_ok
            then elim (read_jsonl E file) [
              | err e ↦ err e
              | ok rows ↦ ok (sort_by_sequence (keep (λ r. ltb after_sequence r.sequence) rows))
            ]
            else err io
      ]

  unfoldable pub upsert_task :
      SessionStore → Bool → PersistedTask → SessionStore × Result PersistenceError Unit
  unfolding append_jsonl ensure_session
  upsert_task s io_ok task =
      if io_ok
      then (let s' = ensure_session s task.session_id in
          let (tasks, result) = append_jsonl T task.session_id s'.tasks task in
          (record s' { tasks = tasks }, result))
      else (s, err io)

  unfoldable pub list_tasks : SessionStore → Bool → ℕ → Result PersistenceError (List PersistedTask)
  unfolding read_jsonl latest_of
  list_tasks s io_ok session_id = elim (lookup ℕ_discrete session_id s.tasks) [
    | none ↦ ok []
    | some file ↦
        if io_ok
        then elim (read_jsonl T file) [
          | err e ↦ err e
          | ok rows ↦ ok (into_values (latest_of [] rows))
        ]
        else err io
  ]

-- `read_dir` and `sort_unstable`; every directory name below the root is a session's.
abbrev pub list_session_ids : SessionStore → List ℕ
list_session_ids s = map (λ d. d.0) s.dirs
