-- ===== src/Examples/Providers.antt =====
-- crates/openlive-provider: pending actions, the routing of the hybrid provider and its heuristic on
-- concrete inputs.
use openlive.Common.{
  ℕ, ◌-◌, ◌≡◌, ◌≤◌, ◌<◌, refl, true, false, none, some, List, [], ◌∷◌, arith, length, ℕ_discrete,
}
use openlive.Common.Float.{milli}
use openlive.Common.Map.{lookup, insert, remove, IsUnique, lookup-insert_self}
use openlive.Common.Text.{Text, codes, text_discrete}
use openlive.Common.Result.{Result, ok, err}
use openlive.Provider.{ProviderInput, commit_response, cancel_generation, close}
use openlive.Provider.Expiring.{purge, drop_oldest, oldest, purge-bounded}
use openlive.Provider.Pending.{
  Store, PendingAction, Entry, taken_fresh, queue_delete_file, queue_write_file, purged,
  take_action, execute_approved, max_pending, ttl, not_found, approved_once, take_action-once,
}
use openlive.Provider.Context.{append_and_context, context_only}
use openlive.Provider.Knowledge.{needs_deep_cognition}
use openlive.Provider.Hybrid.{Children, route_all, heard, Shares, route_all-Shares}

markers_are_deep :
    needs_deep_cognition (codes "Please think carefully and design a multi-step architecture plan.")
    ≡ true
unfolding needs_deep_cognition
markers_are_deep = refl

small_talk : needs_deep_cognition (codes "Hey, how's the weather?") ≡ false
unfolding needs_deep_cognition
small_talk = refl

-- Three entries with their instants, of which the first is too old at instant 30, and the cap is 1.
abbrev stamps : List (ℕ × ℕ)
stamps = (1, 5) ∷ (2, 21) ∷ (3, 24) ∷ []

stamps_purged : purge ℕ_discrete (λ n. n) 10 1 30 stamps ≡ (3, 24) ∷ []
unfolding purge drop_oldest remove ℕ_discrete oldest
stamps_purged = refl

stamps-IsUnique : IsUnique ℕ_discrete stamps
unfolding lookup ℕ_discrete
stamps-IsUnique = (refl, (refl, (refl, tt)))

purge-bounded_example :
    (length (purge ℕ_discrete (λ n. n) 10 1 30 stamps) ≤ 1)
    × ((k v : ℕ)
        → lookup ℕ_discrete k (purge ℕ_discrete (λ n. n) 10 1 30 stamps) ≡ some v
        → (lookup ℕ_discrete k stamps ≡ some v) × (30 - v < 10))
purge-bounded_example = purge-bounded ℕ_discrete (λ n. n) 10 1 30 stamps stamps-IsUnique

abbrev no_write : Text → Text → Result Text Text
no_write path content = ok content

abbrev no_delete : Text → Result Text Text
no_delete path = err path

abbrev id : Text
id = codes "a1"

purged_room : length (purged 9 []) < max_pending
unfolding purged purge drop_oldest
purged_room = omega arith

approved_once_example :
    let q = (queue_write_file [] 9 1000 id (codes "a.txt") (codes "hi") (codes "?")).0 in
    let (q', done) = execute_approved no_write no_delete q 1000000009 id in
    (done ≡ ok (codes "hi"))
    × ((execute_approved no_write no_delete q' 1000000010 id).1 ≡ err not_found)
approved_once_example =
    approved_once no_write no_delete [] 9 1000 1000000009 1000000010 id (codes "a.txt") (codes "hi")
      (codes "?") purged_room (omega arith)

-- The prompts of two generations, of which the second is for the deep child.
abbrev inputs : List (ProviderInput milli)
inputs =
    commit_response 1 0 100 (codes "hello")
    ∷ cancel_generation 1
    ∷ commit_response 2 1 900 (codes "debug it")
    ∷ close
    ∷ commit_response 2 1 950 []
    ∷ []

abbrev children : Children milli
children = record { fast = []; deep = some [] }

route_all-Shares_example :
    Shares milli 2 children (heard milli inputs) (route_all milli children inputs)
route_all-Shares_example = route_all-Shares milli 2 children inputs

-- A deletion that waits since instant 7.
abbrev deletion : Store × PendingAction
unfolding queue_delete_file
deletion = queue_delete_file [] 7 1000 id (codes "old.txt")

queued-IsUnique : IsUnique text_discrete deletion.0
unfolding deletion purged purge drop_oldest insert lookup
queued-IsUnique = (refl, tt)

deletion_taken : (take_action deletion.0 9 id).1 ≡ some deletion.1
unfolding deletion purged purge drop_oldest insert lookup
deletion_taken =
    let e : Entry = record { action = deletion.1; created = 7 } in
    taken_fresh deletion.0 9 id e (omega arith) (lookup-insert_self text_discrete id e [])
      (omega arith)

take_action-once_example :
    ((e : Entry) × (lookup text_discrete id deletion.0 ≡ some e)
      × (e.action ≡ deletion.1)
      × (9 - e.created < ttl))
    × ((later : ℕ) → (take_action (take_action deletion.0 9 id).0 later id).1 ≡ none)
    × (length (take_action deletion.0 9 id).0 ≤ max_pending)
take_action-once_example =
    take_action-once deletion.0 9 id deletion.1 queued-IsUnique deletion_taken

-- The test `rolls_context` of session_context.rs, with the texts spelled out.
rolls_context :
    let sid = codes "s1" in
    let (m, c) = append_and_context [] 10 sid (codes "user") (codes " hello ") 6 in
    let (m', c') = append_and_context m 20 (codes " s1") (codes "assistant") (codes "hi there") 6 in
    (c ≡ codes "user: hello")
    × ((c' ≡ codes "user: hello\nassistant: hi there")
        × ((context_only m' 30 sid 1).1 ≡ codes "assistant: hi there"))
unfolding append_and_context lookup drop_oldest insert text_discrete ℕ_discrete
rolls_context = (refl, (refl, refl))
