-- ===== src/Gateway/Timeline/Playout.antt =====
-- When an answer is still being played.
use openlive.Common.{
  ℕ, ◌≤◌, ◌<◌, ◌≡◌, ◌⊎◌, ◌↔◌, inl, inr, refl, true, List, [], ◌∷◌, arith, All, In, ltb→lt, lt→ltb,
}
use openlive.Gateway.Timeline.{PlayoutTracker, new_playout, sent, played, is_active, cancel_playout}

pub data Call : Type 0 where
  sends plays : (media_time_us : ℕ) → Call
  cancels : Call

-- The tracker after a history of calls, newest first.
unfoldable pub after : List Call → PlayoutTracker
after [] = new_playout
after (sends t ∷ h) = sent (after h) t
after (plays t ∷ h) = played (after h) t
after (cancels ∷ h) = cancel_playout (after h)

-- The media times sent.
abbrev pub sent_times : List Call → List ℕ
sent_times [] = []
sent_times (sends t ∷ h) = t ∷ sent_times h
sent_times (plays t ∷ h) = sent_times h
sent_times (cancels ∷ h) = sent_times h

-- `t` lies after all that was played since the last cancellation, and all that was sent before it.
abbrev pub IsUnplayed : ℕ → List Call → Type 0
IsUnplayed t [] = 0 < t
IsUnplayed t (sends u ∷ h) = IsUnplayed t h
IsUnplayed t (plays u ∷ h) = (u < t) × IsUnplayed t h
IsUnplayed t (cancels ∷ h) = (0 < t) × All (λ u. u < t) (sent_times h)

sent_bound : (t : ℕ) (h : List Call) → In t (sent_times h) → t ≤ (after h).last_sent_media_time_us
unfolding after sent played cancel_playout
sent_bound t [] i = absurd i
sent_bound t (sends u ∷ h) (inl e) = omega (arith, e)
sent_bound t (sends u ∷ h) (inr i) = omega (arith, sent_bound t h i)
sent_bound t (plays u ∷ h) i = sent_bound t h i
sent_bound t (cancels ∷ h) i = sent_bound t h i

sent_reached :
    (h : List Call)
    → ((after h).last_sent_media_time_us ≡ 0) ⊎ In (after h).last_sent_media_time_us (sent_times h)
unfolding after sent played cancel_playout
sent_reached [] = inl refl
sent_reached (sends u ∷ h) = ground (arith, sent_reached h)
sent_reached (plays u ∷ h) = sent_reached h
sent_reached (cancels ∷ h) = sent_reached h

sent_below :
    (t : ℕ) (h : List Call)
    → ((0 < t) × All (λ u. u < t) (sent_times h)) ↔ ((after h).last_sent_media_time_us < t)
unfolding after sent played cancel_playout
sent_below t [] = ground arith
sent_below t (sends u ∷ h) = ground (arith, sent_below t h)
sent_below t (plays u ∷ h) = sent_below t h
sent_below t (cancels ∷ h) = sent_below t h

IsUnplayed-iff :
    (t : ℕ) (h : List Call) → IsUnplayed t h ↔ ((after h).last_played_media_time_us < t)
unfolding after sent played cancel_playout
IsUnplayed-iff t [] = ground arith
IsUnplayed-iff t (sends u ∷ h) = IsUnplayed-iff t h
IsUnplayed-iff t (plays u ∷ h) = ground (arith, IsUnplayed-iff t h)
IsUnplayed-iff t (cancels ∷ h) = sent_below t h

-- After any calls on a new tracker, playout is active exactly if a media time above 0 was sent that lies
-- after all times played since the last cancellation and all times sent before that cancellation.
pub is_active_iff :
    (h : List Call)
    → (is_active (after h) ≡ true) ↔ ((t : ℕ) × In t (sent_times h) × IsUnplayed t h)
unfolding is_active
is_active_iff h = (
  λ a.
      let later = ltb→lt _ _ a in
      elim (sent_reached h) [
        | inl none_sent ↦ absurd (omega (arith, none_sent, later))
        | inr i ↦ (_, i, (IsUnplayed-iff _ h).1 later)
      ],
  λ (t, i, u). lt→ltb _ _ (omega (arith, sent_bound t h i, (IsUnplayed-iff t h).0 u)),
)
