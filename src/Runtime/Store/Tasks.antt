-- ===== src/Runtime/Store/Tasks.antt =====
-- What the store says of the tasks that were written to it. The codec's behaviour on one value is a
-- hypothesis, `IsFaithful`.
use openlive.Common.{
  ℕ, ◌≡◌, inl, inr, refl, sym, ap, ◌∙◌, true, false, Option, none, some, List, [], ◌∷◌, ◌++◌, arith,
  ◌==◌, if◌then◌else◌, ℕ_discrete, Bool-cases,
}
use mathlib.Core.Path.{subst}
use openlive.Common.Map.{lookup, insert, contains_key, lookup-insert}
use openlive.Common.SortedMap.{
  insert_sorted, IsAscending, lookup-insert_sorted, insert_sorted-IsAscending,
}
use openlive.Common.Text.{Text}
use openlive.Common.Trim.{trim, is_empty}
use openlive.Common.Result.{Result, ok, err, Result-cases}
use openlive.Runtime.Store.{
  PersistenceError, json, PersistedEnvelope, PersistedTask, Codec, SessionStore, empty_store,
  ensure_session, content, lines_from, append_jsonl, parse_lines, read_jsonl, latest_of,
  into_values, upsert_task, list_tasks,
}

-- No character of the text is a line break.
abbrev pub IsOneLine : Text → Type 0
IsOneLine [] = Unit {0}
IsOneLine (c ∷ cs) = ((c == 10) ≡ false) × IsOneLine cs

abbrev AreLines : List Text → Type 0
AreLines [] = Unit {0}
AreLines (l ∷ ls) = IsOneLine l × AreLines ls

-- The text of a file with these lines.
abbrev render : List Text → Text
render [] = []
render (l ∷ ls) = l ++ 10 ∷ render ls

++-assoc : (a b c : Text) → (a ++ b) ++ c ≡ a ++ (b ++ c)
++-assoc [] b c = refl
++-assoc (x ∷ a) b c = ap (λ z. x ∷ z) (++-assoc a b c)

++-nil : (a : Text) → a ++ [] ≡ a
++-nil [] = refl
++-nil (x ∷ a) = ap (λ z. x ∷ z) (++-nil a)

render-snoc : (ls : List Text) (l : Text) → render (ls ++ l ∷ []) ≡ render ls ++ (l ++ 10 ∷ [])
render-snoc [] l = refl
render-snoc (k ∷ ls) l =
    ap (λ z. k ++ 10 ∷ z) (render-snoc ls l) ∙ sym (++-assoc k (10 ∷ render ls) (l ++ 10 ∷ []))

lines_from-line :
    (acc l rest : Text)
    → IsOneLine l
    → lines_from acc (l ++ 10 ∷ rest) ≡ (acc ++ l) ∷ lines_from [] rest
unfolding lines_from
lines_from-line acc [] rest one = ap (λ z. z ∷ lines_from [] rest) (sym (++-nil acc))
lines_from-line acc (c ∷ l) rest (other, one) = rw other (
    lines_from-line (acc ++ c ∷ []) l rest one
    ∙ ap (λ z. z ∷ lines_from [] rest) (++-assoc acc (c ∷ []) l))

lines_from-render : (ls : List Text) → AreLines ls → lines_from [] (render ls) ≡ ls
unfolding lines_from
lines_from-render [] h = refl
lines_from-render (l ∷ ls) (one, h) =
    lines_from-line [] l (render ls) one ∙ ap (λ z. l ∷ z) (lines_from-render ls h)

content-insert :
    (session other : ℕ) (v : Text) (files : List (ℕ × Text))
    → content other (insert ℕ_discrete session v files)
      ≡ (if session == other then v else content other files)
content-insert session other v files =
    ground (arith, lookup-insert ℕ_discrete session other v files)

-- The text that a value prints as.
abbrev pub print : {A : Type 0} → Codec A → A → Text
print C a = elim (C.to_string a) [ none ↦ [] | some line ↦ line ]

-- A value prints as one line without white space around it, and is read back from that line.
pub record IsWritten {A : Type 0} (C : Codec A) (a : A) : Type 0 where
  pub prints : C.to_string a ≡ some (print C a)
  pub one_line : IsOneLine (print C a)
  pub trimmed : trim (print C a) ≡ print C a
  pub inked : is_empty (print C a) ≡ false
  pub reads : C.from_str (print C a) ≡ some a

abbrev pub AreWritten : {A : Type 0} → Codec A → List A → Type 0
AreWritten C [] = Unit {0}
AreWritten C (a ∷ rows) = IsWritten C a × AreWritten C rows

AreWritten-snoc :
    {A : Type 0} (C : Codec A) (rows : List A) (a : A)
    → AreWritten C rows
    → IsWritten C a
    → AreWritten C (rows ++ a ∷ [])
AreWritten-snoc C [] a h w = (w, tt)
AreWritten-snoc C (b ∷ rows) a (v, h) w = (v, AreWritten-snoc C rows a h w)

module _ {A : Type 0} (C : Codec A) where
  abbrev printed : List A → List Text
  printed [] = []
  printed (a ∷ rows) = print C a ∷ printed rows

  printed-AreLines : (rows : List A) → AreWritten C rows → AreLines (printed rows)
  printed-AreLines [] h = tt
  printed-AreLines (a ∷ rows) (w, h) = (w.one_line, printed-AreLines rows h)

  printed-snoc : (rows : List A) (a : A) → printed (rows ++ a ∷ []) ≡ printed rows ++ print C a ∷ []
  printed-snoc [] a = refl
  printed-snoc (b ∷ rows) a = ap (λ z. print C b ∷ z) (printed-snoc rows a)

  parse_lines-printed : (rows : List A) → AreWritten C rows → parse_lines C (printed rows) ≡ ok rows
  unfolding parse_lines
  parse_lines-printed [] h = refl
  parse_lines-printed (a ∷ rows) (w, h) =
      rw (w.trimmed, w.inked, w.reads, parse_lines-printed rows h)

  -- A file of printed values reads as them.
  read_jsonl-render :
      (rows : List A) → AreWritten C rows → read_jsonl C (render (printed rows)) ≡ ok rows
  unfolding read_jsonl
  read_jsonl-render rows h =
      ap (parse_lines C) (lines_from-render (printed rows) (printed-AreLines rows h))
      ∙ parse_lines-printed rows h

  append_jsonl-insert :
      (session : ℕ) (files : List (ℕ × Text)) (a : A)
      → IsWritten C a
      → (append_jsonl C session files a).0
        ≡ insert ℕ_discrete session (content session files ++ (print C a ++ 10 ∷ [])) files
  unfolding append_jsonl
  append_jsonl-insert session files a w =
      let old = content session files in
      let appended : append_jsonl C session files a
          ≡ (insert ℕ_discrete session (old ++ (print C a ++ 10 ∷ [])) files, ok tt) =
        ap
          (λ x. elim x [
            | none ↦ (insert ℕ_discrete session old files, err json)
            | some line ↦ (insert ℕ_discrete session (old ++ (line ++ 10 ∷ [])) files, ok tt)
          ])
          w.prints in
      ap (λ x. x.0) appended

  -- What an append leaves in the files.
  content-append :
      (session other : ℕ) (files : List (ℕ × Text)) (a : A)
      → IsWritten C a
      → content other (append_jsonl C session files a).0 ≡ (
          if session == other
          then content other files ++ (print C a ++ 10 ∷ [])
          else content other files)
  content-append session other files a w =
      let line = print C a ++ 10 ∷ [] in
      ap (content other) (append_jsonl-insert session files a w)
      ∙ elim (Bool-cases (session == other)) [
        | inl same ↦
            let e : session ≡ other = ground arith in
            subst
              (λ z.
                content z (insert ℕ_discrete session (content session files ++ line) files)
                ≡ (if session == z then content z files ++ line else content z files))
              e (content-insert session session (content session files ++ line) files)
        | inr other_session ↦
            content-insert session other (content session files ++ line) files ∙ rw other_session
      ]

-- The rows of a session, in the order they were written; the history has the newest first.
abbrev rows_of : ℕ → List PersistedTask → List PersistedTask
rows_of session [] = []
rows_of session (t ∷ h) =
    if t.session_id == session then rows_of session h ++ t ∷ [] else rows_of session h

rows_of-AreWritten :
    (C : Codec PersistedTask) (session : ℕ) (h : List PersistedTask)
    → AreWritten C h
    → AreWritten C (rows_of session h)
rows_of-AreWritten C session [] all = tt
rows_of-AreWritten C session (t ∷ h) (w, all) =
    let rest = rows_of-AreWritten C session h all in
    elim (Bool-cases (t.session_id == session)) [
      | inl same ↦ rw same (AreWritten-snoc C (rows_of session h) t rest w)
      | inr other ↦ rw other rest
    ]

-- The newest row of a task.
abbrev pub newest : ℕ → ℕ → List PersistedTask → Option PersistedTask
newest session task [] = none
newest session task (t ∷ h) =
    if t.session_id == session
    then (if t.task_id == task then some t else newest session task h)
    else newest session task h

latest_of-snoc :
    (m : List (ℕ × PersistedTask)) (rows : List PersistedTask) (t : PersistedTask)
    → latest_of m (rows ++ t ∷ []) ≡ insert_sorted t.task_id t (latest_of m rows)
unfolding latest_of
latest_of-snoc m [] t = refl
latest_of-snoc m (r ∷ rows) t = latest_of-snoc (insert_sorted r.task_id r m) rows t

latest_of-newest :
    (session task : ℕ) (h : List PersistedTask)
    → lookup ℕ_discrete task (latest_of [] (rows_of session h)) ≡ newest session task h
unfolding latest_of lookup
latest_of-newest session task [] = refl
latest_of-newest session task (t ∷ h) = elim (Bool-cases (t.session_id == session)) [
  | inl same ↦
      let m = latest_of [] (rows_of session h) in
      rw same (
        ap (lookup ℕ_discrete task) (latest_of-snoc [] (rows_of session h) t)
        ∙ ground (arith, lookup-insert_sorted t.task_id task t m, latest_of-newest session task h))
  | inr other ↦ rw other (latest_of-newest session task h)
]

latest_of-IsAscending :
    (m : List (ℕ × PersistedTask)) (rows : List PersistedTask)
    → IsAscending 0 m
    → IsAscending 0 (latest_of m rows)
unfolding latest_of
latest_of-IsAscending m [] a = a
latest_of-IsAscending m (r ∷ rows) a =
    latest_of-IsAscending (insert_sorted r.task_id r m) rows
      (insert_sorted-IsAscending 0 r.task_id r m (omega arith) a)

ensure_session-tasks : (s : SessionStore) (session : ℕ) → (ensure_session s session).tasks ≡ s.tasks
unfolding ensure_session
ensure_session-tasks s session = elim (Bool-cases (contains_key ℕ_discrete session s.dirs)) [
  | inl h ↦ rw (h, ensure_session)
  | inr h ↦ rw (h, ensure_session)
]

abbrev listed :
    Result PersistenceError (List PersistedTask) → Result PersistenceError (List PersistedTask)
listed (ok rows) = ok (into_values (latest_of [] rows))
listed (err e) = err e

-- A file that is not there lists as an empty one.
listed-content :
    (T : Codec PersistedTask) (file : Option Text)
    → (elim file [
      | none ↦ ok []
      | some file ↦ elim (read_jsonl T file) [
        | err e ↦ err e
        | ok rows ↦ ok (into_values (latest_of [] rows))
      ]
    ])
      ≡ listed (read_jsonl T (elim file [ none ↦ [] | some c ↦ c ]))
unfolding read_jsonl lines_from parse_lines latest_of
listed-content T none = refl
listed-content T (some file) = elim (Result-cases (read_jsonl T file)) [
  | inl (rows, h) ↦ rw h
  | inr (e, h) ↦ rw h
]

module _ (E : Codec PersistedEnvelope) (T : Codec PersistedTask) where
  -- The store after a history of task snapshots, newest first, that the disk took.
  unfoldable pub saved : List PersistedTask → SessionStore
  unfolding upsert_task
  saved [] = empty_store
  saved (t ∷ h) = (upsert_task E T (saved h) true t).0

  content-saved :
      (session : ℕ) (h : List PersistedTask)
      → AreWritten T h
      → content session (saved h).tasks ≡ render (printed T (rows_of session h))
  unfolding saved upsert_task lookup
  content-saved session [] all = refl
  content-saved session (t ∷ h) (w, all) =
      let line = print T t ++ 10 ∷ [] in
      let rows = rows_of session h in
      let same = t.session_id == session in
      content-append T t.session_id session (ensure_session (saved h) t.session_id).tasks t w
      ∙ ap (λ x. if same then content session x ++ line else content session x)
          (ensure_session-tasks (saved h) t.session_id)
      ∙ ap (λ x. if same then x ++ line else x) (content-saved session h all)
      ∙ elim (Bool-cases same) [
        | inl e ↦ rw e (sym (ap render (printed-snoc T rows t) ∙ render-snoc (printed T rows) _))
        | inr e ↦ rw e
      ]

  list_tasks-content :
      (s : SessionStore) (session : ℕ) (rows : List PersistedTask)
      → read_jsonl T (content session s.tasks) ≡ ok rows
      → list_tasks E T s true session ≡ ok (into_values (latest_of [] rows))
  unfolding list_tasks
  list_tasks-content s session rows h =
      listed-content T (lookup ℕ_discrete session s.tasks) ∙ ap listed h

  -- After any task snapshots that reached the disk, a session's tasks are listed by their
  -- identifiers, each once, as the newest snapshot of the task in that session says. Each snapshot
  -- prints as a line of JSON that reads back as itself.
  pub list_tasks-newest :
      (session : ℕ) (h : List PersistedTask)
      → AreWritten T h
      → (m : List (ℕ × PersistedTask)) × (list_tasks E T (saved h) true session
          ≡ ok (into_values m))
        × IsAscending 0 m
        × ((task : ℕ) → lookup ℕ_discrete task m ≡ newest session task h)
  list_tasks-newest session h all =
      let rows = rows_of session h in
      (
        latest_of [] rows,
        list_tasks-content (saved h) session rows (
            ap (read_jsonl T) (content-saved session h all)
            ∙ read_jsonl-render T rows (rows_of-AreWritten T session h all)),
        latest_of-IsAscending [] rows tt,
        λ task. latest_of-newest session task h,
      )
