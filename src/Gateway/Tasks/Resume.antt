-- ===== src/Gateway/Tasks/Resume.antt =====
-- apps/openlive-gateway/src/session_state.rs, lines 602 to 669: the buffer of sent envelopes that a
-- resumed session replays. Instants are nanoseconds of the monotonic clock, given as an argument.
use openlive.Common.{
  ℕ, ◌-◌, ◌/◌, ◌≡◌, inl, inr, Bool, true, false, none, some, List, [], ◌∷◌, arith, ltb,
  if◌then◌else◌, min, u64_max, ℕ_discrete, Bool-cases, Option-cases,
}
use openlive.Common.Float.{Float}
use openlive.Common.Map.{lookup, insert, remove, contains_key, lookup-insert, lookup-remove}
use openlive.Common.SortedMap.{
  insert_sorted, IsAscending, lookup-insert_sorted, insert_sorted-IsAscending, remove-IsAscending,
}
use openlive.Common.Text.{Text}
use openlive.Gateway.Tasks.{BufferedEvent, TaskOrchestrator}

abbrev pub resume_buffer_ttl_ms : ℕ
resume_buffer_ttl_ms = 30000

unfoldable pub age_ms : ℕ → BufferedEvent → ℕ
age_ms now entry = min ((now - entry.buffered_at) / 1000000) u64_max

abbrev pub is_expired : ℕ → BufferedEvent → Bool
is_expired now entry = ltb resume_buffer_ttl_ms (age_ms now entry)

-- `range((Excluded(last), Unbounded))`
abbrev pub above : ℕ → List (ℕ × BufferedEvent) → List (ℕ × BufferedEvent)
above last [] = []
above last ((n, e) ∷ m) = if ltb last n then (n, e) ∷ above last m else above last m

-- The loop over the range: the sequence numbers to purge, and the envelopes to replay.
abbrev pub expired_seqs : ℕ → List (ℕ × BufferedEvent) → List ℕ
expired_seqs now [] = []
expired_seqs now ((n, e) ∷ m) =
    if is_expired now e then n ∷ expired_seqs now m else expired_seqs now m

abbrev pub fresh_envelopes : ℕ → List (ℕ × BufferedEvent) → List Text
fresh_envelopes now [] = []
fresh_envelopes now ((n, e) ∷ m) =
    if is_expired now e then fresh_envelopes now m else e.envelope_json ∷ fresh_envelopes now m

module _ (F : Float) where
  unfoldable pub buffer_outbound :
      TaskOrchestrator F → (now sequence event_id : ℕ) → Text → TaskOrchestrator F × Bool
  buffer_outbound s now sequence event_id json =
      let buffered : BufferedEvent = record {
        event_id = event_id;
        buffered_at = now;
        envelope_json = json;
      } in
      if contains_key ℕ_discrete event_id s.buffered_by_id then (s, false) else (
        record s {
          buffered_by_id = insert ℕ_discrete event_id sequence s.buffered_by_id;
          buffered_by_seq = insert_sorted sequence buffered s.buffered_by_seq;
        },
        true,
      )

  unfoldable pub purge_one : TaskOrchestrator F → ℕ → TaskOrchestrator F
  purge_one s n = elim (lookup ℕ_discrete n s.buffered_by_seq) [
    | none ↦ s
    | some e ↦ record s {
      buffered_by_seq = remove ℕ_discrete n s.buffered_by_seq;
      buffered_by_id = remove ℕ_discrete e.event_id s.buffered_by_id;
    }
  ]

  unfoldable pub purge_all : TaskOrchestrator F → List ℕ → TaskOrchestrator F
  purge_all s [] = s
  purge_all s (n ∷ ns) = purge_all (purge_one s n) ns

  unfoldable pub replay_after :
      TaskOrchestrator F → (now last_sequence_seen : ℕ) → TaskOrchestrator F × List Text
  replay_after s now last_sequence_seen =
      let range = above last_sequence_seen s.buffered_by_seq in
      (purge_all s (expired_seqs now range), fresh_envelopes now range)

  -- The two indexes name the same events: an id at a sequence number is the id of the entry there.
  pub record Agrees (s : TaskOrchestrator F) : Type 0 where
    pub by_id :
        (e n : ℕ)
        → lookup ℕ_discrete e s.buffered_by_id ≡ some n
        → (b : BufferedEvent) × (lookup ℕ_discrete n s.buffered_by_seq ≡ some b) × (b.event_id ≡ e)
    pub by_seq :
        (n : ℕ) (b : BufferedEvent)
        → lookup ℕ_discrete n s.buffered_by_seq ≡ some b
        → lookup ℕ_discrete b.event_id s.buffered_by_id ≡ some n
    pub ascending : IsAscending 0 s.buffered_by_seq

  purge_one-Agrees : (s : TaskOrchestrator F) (n : ℕ) → Agrees s → Agrees (purge_one s n)
  unfolding purge_one
  purge_one-Agrees s n a = elim (Option-cases (lookup ℕ_discrete n s.buffered_by_seq)) [
    | inl e ↦ rw (e, purge_one) a
    | inr (b, e) ↦
        rw (e, purge_one)
          (record {
            by_id = λ i m h.
                let (x, lx, ex) =
                  a.by_id i m
                    (ground (arith, h, lookup-remove ℕ_discrete b.event_id i s.buffered_by_id)) in
                (
                  x,
                  ground (
                    arith,
                    h,
                    e,
                    lx,
                    ex,
                    lookup-remove ℕ_discrete b.event_id i s.buffered_by_id,
                    lookup-remove ℕ_discrete n m s.buffered_by_seq,
                  ),
                  ex,
                );
            by_seq = λ m c h. ground (
              arith,
              h,
              e,
              a.by_seq n b e,
              a.by_seq m c,
              lookup-remove ℕ_discrete n m s.buffered_by_seq,
              lookup-remove ℕ_discrete b.event_id c.event_id s.buffered_by_id,
            );
            ascending = remove-IsAscending 0 n s.buffered_by_seq a.ascending;
          })
  ]

  purge_all-Agrees : (s : TaskOrchestrator F) (ns : List ℕ) → Agrees s → Agrees (purge_all s ns)
  unfolding purge_all
  purge_all-Agrees s [] a = a
  purge_all-Agrees s (n ∷ ns) a = purge_all-Agrees (purge_one s n) ns (purge_one-Agrees s n a)

  add-Agrees :
      (s : TaskOrchestrator F) (n : ℕ) (b : BufferedEvent)
      → lookup ℕ_discrete n s.buffered_by_seq ≡ none
      → lookup ℕ_discrete b.event_id s.buffered_by_id ≡ none
      → Agrees s
      → Agrees (record s {
        buffered_by_id = insert ℕ_discrete b.event_id n s.buffered_by_id;
        buffered_by_seq = insert_sorted n b s.buffered_by_seq;
      })
  add-Agrees s n b free new_id a = record {
    by_id = λ i m h. elim (ℕ_discrete b.event_id i) [
      | yes same ↦ (
        b,
        ground (
          arith,
          h,
          same,
          lookup-insert ℕ_discrete b.event_id i n s.buffered_by_id,
          lookup-insert_sorted n m b s.buffered_by_seq,
        ),
        same,
      )
      | no other ↦
          let (x, lx, ex) =
            a.by_id i m
              (ground (arith, h, lookup-insert ℕ_discrete b.event_id i n s.buffered_by_id)) in
          (x, ground (arith, free, lx, lookup-insert_sorted n m b s.buffered_by_seq), ex)
    ];
    by_seq = λ m c h. ground (
      arith,
      h,
      new_id,
      a.by_seq m c,
      lookup-insert_sorted n m b s.buffered_by_seq,
      lookup-insert ℕ_discrete b.event_id c.event_id n s.buffered_by_id,
    );
    ascending = insert_sorted-IsAscending 0 n b s.buffered_by_seq (omega arith) a.ascending;
  }

  -- A replay keeps the event and sequence indexes in agreement, and the buffer in ascending order.
  pub replay_after-Agrees :
      (s : TaskOrchestrator F) (now last : ℕ) → Agrees s → Agrees (replay_after s now last).0
  unfolding replay_after
  replay_after-Agrees s now last a = purge_all-Agrees s _ a

  -- Buffering an envelope, new or known, under a sequence number that is not in the buffer yet
  -- keeps the event and sequence indexes in agreement, and the buffer in ascending order.
  pub buffer_outbound-Agrees :
      (s : TaskOrchestrator F) (now sequence event_id : ℕ) (json : Text)
      → lookup ℕ_discrete sequence s.buffered_by_seq ≡ none
      → Agrees s
      → Agrees (buffer_outbound s now sequence event_id json).0
  unfolding buffer_outbound
  buffer_outbound-Agrees s now sequence event_id json free a =
      elim (Bool-cases (contains_key ℕ_discrete event_id s.buffered_by_id)) [
        | inl known ↦ rw (known, buffer_outbound) a
        | inr fresh ↦ rw (fresh, buffer_outbound) (add-Agrees s sequence _ free (ground arith) a)
      ]
