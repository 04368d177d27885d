-- ===== src/Gateway/Session/Ledger.antt =====
-- The tasks and the resume buffer of a session, through everything that the session does.
use openlive.Common.{
  ℕ, ◌+◌, ◌≡◌, inl, ◌<◌, ◌≤◌, refl, sym, Bool, Option, List, arith, sat_add64, u64_max,
}
use mathlib.Core.Path.{subst}
use openlive.Common.Float.{Float}
use openlive.Common.Map.{lookup}
use openlive.Common.Text.{Text}
use openlive.Protocol.Capability.{ProviderManifest}
use openlive.Runtime.Store.{SessionStore}
use openlive.Gateway.Session.{World, Moment, new}
use openlive.Gateway.Session.Run.{Input}
use openlive.Gateway.Session.Numbers.{IsLow, move-IsLow}
use openlive.Gateway.Session.Moves.{
  Core, core, Move, drew, lost, posted, repeated, called, linked, replayed, buffered, kept, thought,
  idled, listened, started, measured, ended, Moves, done, ◌then◌,
}
use openlive.Gateway.Session.Moves.Whole.{ran, ran-Moves}
use openlive.Gateway.Tasks.Operations
use openlive.Gateway.Tasks.Operations.{
  admit, bind_pending_to_generation, attach_evidence, resolve, resolve_all, expire_deadlines,
  cancel_task, complete_tasks_for_generation,
}
use openlive.Gateway.Tasks.Life.{IsValid, step-IsValid}
use openlive.Gateway.Tasks.Resume.{
  Agrees, buffer_outbound, replay_after, replay_after-Agrees, buffer_outbound-Agrees,
}
use openlive.Gateway.Tasks.Same.{
  SameBuffer, same-SameBuffer, step-SameBuffer, link_evidence-Same, buffer_outbound-SameTasks,
  purge_all-SameTasks, IsBelow, purge_all-IsBelow, buffer_outbound-IsBelow, same-Agrees,
  same-IsValid,
}

module _ (F : Float) (J : Type 0) (W : World F J) where
  -- The tasks are valid, the buffer's indexes agree, and its numbers are not above the counter.
  pub record IsKept (s : Core F J) : Type 0 where
    pub valid : IsValid F s.tasks
    pub agrees : Agrees F s.tasks
    pub below : IsBelow F s.sequence s.tasks.buffered_by_seq

  -- A greater counter, and tasks with the same buffer.
  greater-IsKept :
      (s t : Core F J)
      → IsKept s
      → s.sequence ≤ t.sequence
      → IsValid F t.tasks
      → SameBuffer F s.tasks t.tasks
      → IsKept t
  greater-IsKept s t k le valid same = record {
    valid = valid;
    agrees = same-Agrees F s.tasks t.tasks same k.agrees;
    below = subst (IsBelow F t.sequence) (sym same.by_seq) (λ n lt. k.below n (omega arith));
  }

  still-IsKept :
      (s t : Core F J) → IsKept s → s.sequence ≤ t.sequence → s.tasks ≡ t.tasks → IsKept t
  still-IsKept s t k le e =
      greater-IsKept s t k le (subst (IsValid F) e k.valid)
        (subst (SameBuffer F s.tasks) e (same-SameBuffer F s.tasks))

  replayed-IsKept :
      (s : Core F J) (now last : ℕ)
      → IsKept s
      → IsKept (record s { tasks = (replay_after F s.tasks now last).0 })
  unfolding replay_after
  replayed-IsKept s now last k = record {
    valid = same-IsValid F s.tasks _ (purge_all-SameTasks F s.tasks _) k.valid;
    agrees = replay_after-Agrees F s.tasks now last k.agrees;
    below = purge_all-IsBelow F s.tasks s.sequence _ k.below;
  }

  buffered-IsKept :
      (s : Core F J) (now id : ℕ) (json : Text)
      → sat_add64 s.sequence 1 < u64_max
      → IsKept s
      → IsKept (record s {
        sequence = sat_add64 s.sequence 1;
        tasks = (buffer_outbound F s.tasks now (sat_add64 s.sequence 1) id json).0;
      })
  buffered-IsKept s now id json b k =
      let next : s.sequence + 1 ≡ sat_add64 s.sequence 1 = omega arith in
      subst
        (λ n.
          IsKept (record s { sequence = n; tasks = (buffer_outbound F s.tasks now n id json).0 }))
        next
        (record {
          valid =
              same-IsValid F s.tasks _
                (buffer_outbound-SameTasks F s.tasks now (s.sequence + 1) id json) k.valid;
          agrees =
              buffer_outbound-Agrees F s.tasks now (s.sequence + 1) id json
                (k.below (s.sequence + 1) (omega arith)) k.agrees;
          below = buffer_outbound-IsBelow F s.tasks s.sequence now id json k.below;
        })

  move-IsKept : {s t : Core F J} → Move F J W Unit s t → IsLow F J W t → IsKept s → IsKept t
  move-IsKept {s} {t} drew b k = still-IsKept s t k (omega arith) refl
  move-IsKept {s} {t} lost b k = still-IsKept s t k (omega arith) refl
  move-IsKept {s} {t} (posted m n of) b k = still-IsKept s t k (omega arith) refl
  move-IsKept {s} {t} (repeated r json) b k = still-IsKept s t k (omega arith) refl
  move-IsKept {s} {t} (called call) b k =
      greater-IsKept s t k (omega arith) (step-IsValid F s.tasks call k.valid)
        (step-SameBuffer F s.tasks call)
  move-IsKept {s} {t} (linked l) b k =
      let (buffer, tasks) = link_evidence-Same F s.tasks l in
      greater-IsKept s t k (omega arith) (same-IsValid F s.tasks t.tasks tasks k.valid) buffer
  move-IsKept {s} {t} (replayed now last) b k = replayed-IsKept s now last k
  move-IsKept {s} {t} (buffered now id json) b k = buffered-IsKept s now id json b k
  move-IsKept {s} {t} (kept now id e json p n o) b k =
      let r = buffered-IsKept s now id json b k in
      record { valid = r.valid; agrees = r.agrees; below = r.below }
  move-IsKept {s} {t} (thought e keeps) b k = still-IsKept s t k (omega arith) refl
  move-IsKept {s} {t} (idled e idle) b k = still-IsKept s t k (omega arith) refl
  move-IsKept {s} {t} (listened e silent) b k = still-IsKept s t k (omega arith) refl
  move-IsKept {s} {t} (started e base latency idle) b k = still-IsKept s t k (omega arith) refl
  move-IsKept {s} {t} (measured a latency active) b k = still-IsKept s t k (omega arith) refl
  move-IsKept {s} {t} (ended e leases) b k = still-IsKept s t k (omega arith) refl

  moves-IsKept : {s t : Core F J} → Moves F J W Unit s t → IsLow F J W t → IsKept s → IsKept t
  moves-IsKept done b k = k
  moves-IsKept (ms then m) b k = move-IsKept m b (moves-IsKept ms (move-IsLow F J W m b) k)

  -- In every session whose counter is below 2^64 - 1, no task is active twice or both active and
  -- resolved, the two indexes of the resume buffer agree, and every buffered envelope stands under a
  -- sequence number that the session has given out.
  pub ran-IsKept :
      (session_id : ℕ) (moment : Moment) (manifest : ProviderManifest) (store : Option SessionStore)
      (safety : Bool) (inputs : List (Moment × Input F J))
      → (ran F J W session_id moment manifest store safety inputs).link.sequence < u64_max
      → IsKept (core F J (ran F J W session_id moment manifest store safety inputs))
  unfolding new Operations.new lookup
  ran-IsKept session_id moment manifest store safety inputs b =
      moves-IsKept (ran-Moves F J W Unit session_id moment manifest store safety inputs (λ h. tt)) b
        (record {
          valid = record { unique = tt; keyed = tt; disjoint = λ k. inl refl };
          agrees = record {
            by_id = λ e n h. absurd (ground arith);
            by_seq = λ n x h. absurd (ground arith);
            ascending = tt;
          };
          below = λ n lt. refl;
        })
