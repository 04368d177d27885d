-- ===== src/Gateway/Tasks/Replay.antt =====
-- What a resumed session is sent, and what stays in the buffer.
use openlive.Common.{
  ℕ, suc, ◌≤◌, ◌<◌, ◌≡◌, inl, inr, refl, sym, ap, ◌∙◌, ◌&&◌, none, List, [], ◌∷◌, arith, ltb,
  if◌then◌else◌, ℕ_discrete, Bool-cases, Option-cases, All,
}
use mathlib.Core.Path.{subst}
use mathlib.Core.Logic.{if_neg, ◌≢◌}
use openlive.Common.Float.{Float}
use openlive.Common.Map.{lookup, remove}
use openlive.Common.SortedMap.{IsAscending, IsAscending-mono, lookup_below}
use openlive.Common.Text.{Text}
use openlive.Gateway.Tasks.{BufferedEvent, TaskOrchestrator}
use openlive.Gateway.Tasks.Resume.{
  above, is_expired, expired_seqs, fresh_envelopes, purge_one, purge_all, replay_after,
}

-- The entries that are still to be kept: all up to `last`, and the unexpired ones above it.
abbrev pub retained : ℕ → ℕ → List (ℕ × BufferedEvent) → List (ℕ × BufferedEvent)
retained now last [] = []
retained now last ((n, e) ∷ m) =
    if ltb last n && is_expired now e then retained now last m else (n, e) ∷ retained now last m

abbrev pub jsons : List (ℕ × BufferedEvent) → List Text
jsons [] = []
jsons ((n, e) ∷ m) = e.envelope_json ∷ jsons m

abbrev remove_all : List ℕ → List (ℕ × BufferedEvent) → List (ℕ × BufferedEvent)
remove_all [] m = m
remove_all (n ∷ ns) m = remove_all ns (remove ℕ_discrete n m)

remove_absent :
    (n : ℕ) (m : List (ℕ × BufferedEvent))
    → lookup ℕ_discrete n m ≡ none
    → remove ℕ_discrete n m ≡ m
unfolding lookup remove
remove_absent n [] h = refl
remove_absent n ((j, e) ∷ m) h = ground (arith, remove_absent n m)

remove_head :
    (n : ℕ) (e : BufferedEvent) (m : List (ℕ × BufferedEvent))
    → lookup ℕ_discrete n m ≡ none
    → remove ℕ_discrete n ((n, e) ∷ m) ≡ m
unfolding remove
remove_head n e m h = ground (arith, remove_absent n m h)

lt_irrefl_at : (n k : ℕ) → n < k → n ≢ k
lt_irrefl_at n k h e = omega arith

remove_all-cons :
    (ns : List ℕ) (n : ℕ) (e : BufferedEvent) (m : List (ℕ × BufferedEvent))
    → All (λ k. n < k) ns
    → remove_all ns ((n, e) ∷ m) ≡ (n, e) ∷ remove_all ns m
unfolding remove
remove_all-cons [] n e m h = refl
remove_all-cons (k ∷ ns) n e m h =
    rw (if_neg _ (λ (q : n ≡ k). lt_irrefl_at n k h.0 q))
      (remove_all-cons ns n e (remove ℕ_discrete k m) h.1)

expired_seqs-above :
    (now last low floor : ℕ) (m : List (ℕ × BufferedEvent))
    → low < floor
    → IsAscending floor m
    → All (λ k. low < k) (expired_seqs now (above last m))
expired_seqs-above now last low floor [] h s = tt
expired_seqs-above now last low floor ((n, e) ∷ m) h s =
    let rest = expired_seqs-above now last low (suc n) m (omega arith) s.1 in
    elim (Bool-cases (ltb last n)) [
      | inr under ↦ rw under rest
      | inl over ↦ elim (Bool-cases (is_expired now e)) [
        | inl old ↦ rw (over, old) (omega arith, rest)
        | inr fresh ↦ rw (over, fresh) rest
      ]
    ]

remove_all-retained :
    (now last low : ℕ) (m : List (ℕ × BufferedEvent))
    → IsAscending low m
    → remove_all (expired_seqs now (above last m)) m ≡ retained now last m
unfolding remove
remove_all-retained now last low [] s = refl
remove_all-retained now last low ((n, e) ∷ m) s =
    let rest = remove_all-retained now last (suc n) m s.1 in
    let later = expired_seqs-above now last n (suc n) m (omega arith) s.1 in
    let kept =
      remove_all-cons (expired_seqs now (above last m)) n e m later ∙ ap (◌∷◌ (n, e)) rest in
    elim (Bool-cases (ltb last n)) [
      | inr under ↦ rw under kept
      | inl over ↦ elim (Bool-cases (is_expired now e)) [
        | inl old ↦
            rw (over, old)
              (ap (remove_all (expired_seqs now (above last m)))
                  (remove_head n e m (lookup_below (suc n) n m s.1 (omega arith)))
                ∙ rest)
        | inr fresh ↦ rw (over, fresh) kept
      ]
    ]

jsons-retained :
    (now last : ℕ) (m : List (ℕ × BufferedEvent))
    → fresh_envelopes now (above last m) ≡ jsons (above last (retained now last m))
jsons-retained now last [] = refl
jsons-retained now last ((n, e) ∷ m) = elim (Bool-cases (ltb last n)) [
  | inr under ↦ rw (under, under) (jsons-retained now last m)
  | inl over ↦ elim (Bool-cases (is_expired now e)) [
    | inl old ↦ rw (over, old) (jsons-retained now last m)
    | inr fresh ↦ rw (over, fresh, over) (ap (◌∷◌ e.envelope_json) (jsons-retained now last m))
  ]
]

retained_twice :
    (now last : ℕ) (m : List (ℕ × BufferedEvent))
    → retained now last (retained now last m) ≡ retained now last m
retained_twice now last [] = refl
retained_twice now last ((n, e) ∷ m) = ground (arith, retained_twice now last m)

retained-IsAscending :
    (now last low : ℕ) (m : List (ℕ × BufferedEvent))
    → IsAscending low m
    → IsAscending low (retained now last m)
retained-IsAscending now last low [] a = tt
retained-IsAscending now last low ((n, e) ∷ m) a = ground (
  arith,
  retained-IsAscending now last (suc n) m,
  IsAscending-mono (suc n) low (retained now last m),
)

module _ (F : Float) where
  purge_one-remove :
      (s : TaskOrchestrator F) (n : ℕ)
      → (purge_one F s n).buffered_by_seq ≡ remove ℕ_discrete n s.buffered_by_seq
  unfolding purge_one
  purge_one-remove s n = elim (Option-cases (lookup ℕ_discrete n s.buffered_by_seq)) [
    | inl e ↦ rw (e, purge_one) (sym (remove_absent n s.buffered_by_seq e))
    | inr (b, e) ↦ rw (e, purge_one)
  ]

  purge_all-remove_all :
      (s : TaskOrchestrator F) (ns : List ℕ)
      → (purge_all F s ns).buffered_by_seq ≡ remove_all ns s.buffered_by_seq
  unfolding purge_all
  purge_all-remove_all s [] = refl
  purge_all-remove_all s (n ∷ ns) =
      purge_all-remove_all (purge_one F s n) ns ∙ ap (remove_all ns) (purge_one-remove s n)

  replayed :
      (s : TaskOrchestrator F) (now last : ℕ)
      → IsAscending 0 s.buffered_by_seq
      → let (s', sent) = replay_after F s now last in
        (s'.buffered_by_seq ≡ retained now last s.buffered_by_seq)
        × (sent ≡ jsons (above last s'.buffered_by_seq))
  unfolding replay_after
  replayed s now last a =
      let left =
        purge_all-remove_all s (expired_seqs now (above last s.buffered_by_seq))
        ∙ remove_all-retained now last 0 s.buffered_by_seq a in
      (left, jsons-retained now last s.buffered_by_seq ∙ ap (λ m. jsons (above last m)) (sym left))

  -- On a buffer in ascending order, a replay drops exactly the entries above the client's last
  -- sequence number that are older than the limit, and sends, in ascending order, the envelopes of
  -- exactly the entries above that number that are still in the buffer afterwards. Asked for again
  -- at the same time, it sends all of them again: no envelope is skipped for having been delivered.
  pub replay_after_exact :
      (s : TaskOrchestrator F) (now last : ℕ)
      → IsAscending 0 s.buffered_by_seq
      → let (s', sent) = replay_after F s now last in
        (s'.buffered_by_seq ≡ retained now last s.buffered_by_seq)
        × (sent ≡ jsons (above last s'.buffered_by_seq))
        × ((replay_after F s' now last).1 ≡ sent)
  replay_after_exact s now last a =
      let s' = (replay_after F s now last).0 in
      let (left, sent) = replayed s now last a in
      let ascending = retained-IsAscending now last 0 s.buffered_by_seq a in
      let (left', sent') = replayed s' now last (subst (IsAscending 0) (sym left) ascending) in
      let again =
        left'
        ∙ ap (retained now last) left
        ∙ retained_twice now last s.buffered_by_seq
        ∙ sym left in
      (left, sent, sent' ∙ ap (λ m. jsons (above last m)) again ∙ sym sent)

  lookup-retained :
      (now last n : ℕ) (m : List (ℕ × BufferedEvent))
      → n ≤ last
      → lookup ℕ_discrete n (retained now last m) ≡ lookup ℕ_discrete n m
  unfolding lookup
  lookup-retained now last n [] h = refl
  lookup-retained now last n ((j, e) ∷ m) h = ground (arith, lookup-retained now last n m h)

  -- A replay never drops an entry up to the client's last sequence number, however old it is.
  pub replay_after_keeps_old :
      (s : TaskOrchestrator F) (now last n : ℕ)
      → IsAscending 0 s.buffered_by_seq
      → n ≤ last
      → lookup ℕ_discrete n (replay_after F s now last).0.buffered_by_seq
        ≡ lookup ℕ_discrete n s.buffered_by_seq
  replay_after_keeps_old s now last n a h =
      ap (lookup ℕ_discrete n) (replayed s now last a).0
      ∙ lookup-retained now last n s.buffered_by_seq h
