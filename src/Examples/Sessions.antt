-- ===== src/Examples/Sessions.antt =====
-- apps/openlive-gateway/src/session_state.rs: what a session remembers, at concrete reports.
use openlive.Common.{◌↔◌, In, ℕ, ◌≡◌, Bool, true, false, List, [], ◌∷◌}
use openlive.Common.Float.{milli}
use openlive.Common.Text.{Text, codes}
use openlive.Protocol.Event.{
  RealtimeEvent, first_provider_event, first_text_delta, first_audio_frame, provider_complete,
}
use openlive.Gateway.Timeline.{is_active}
use openlive.Gateway.Timeline.Ordered.{
  Report, accepted, IsOrdered, accepted-IsOrdered, published, IsSpaced, published-IsSpaced,
}
use openlive.Gateway.Timeline.Playout
use openlive.Gateway.Timeline.Playout.{sent_times, IsUnplayed, is_active_iff}
use openlive.Gateway.Timeline.Repair
use openlive.Gateway.Timeline.Repair.{pending, prompt_for, take_prompt_once}
use openlive.Gateway.Latency.Marks.{
  Call, events, audio, tracked, count, bit, any_call, any_text, any_audio, completions, marks_once,
}

abbrev report : ℕ → ℕ → Report
report n t = record { sequence = n; stream_id = codes "audio"; media_time_us = t }

abbrev reports : List Report
reports = report 3 900 ∷ report 2 500 ∷ report 2 2000 ∷ report 1 1000 ∷ []

accepted-IsOrdered_example : IsOrdered (accepted reports).1
accepted-IsOrdered_example = accepted-IsOrdered reports

abbrev offers : List (ℕ × Bool)
offers = (250000, false) ∷ (120000, true) ∷ (100000, false) ∷ (50000, false) ∷ (0, false) ∷ []

published-IsSpaced_example : IsSpaced (published offers).1
published-IsSpaced_example = published-IsSpaced offers

abbrev heard : List (Call milli ℕ)
heard = audio 30 ∷ events 20 RealtimeEvent.pong ∷ events 10 RealtimeEvent.ping ∷ []

marks_once_example :
    (count first_provider_event (tracked milli ℕ 5 heard).1 ≡ bit (any_call milli ℕ heard))
    × (count first_text_delta (tracked milli ℕ 5 heard).1 ≡ bit (any_text milli ℕ heard))
    × (count first_audio_frame (tracked milli ℕ 5 heard).1 ≡ bit (any_audio milli ℕ heard))
    × (count provider_complete (tracked milli ℕ 5 heard).1 ≡ completions milli ℕ heard)
marks_once_example = marks_once milli ℕ 5 heard

-- An answer sent up to 40 milliseconds, played up to 20, cancelled, and another frame after it.
abbrev frames : List Playout.Call
frames = Playout.sends 60000 ∷ Playout.cancels ∷ Playout.plays 20000 ∷ Playout.sends 40000 ∷ []

is_active_iff_example :
    (is_active (Playout.after frames) ≡ true)
    ↔ ((t : ℕ) × In t (sent_times frames) × IsUnplayed t frames)
is_active_iff_example = is_active_iff frames

abbrev interruptions : List Repair.Call
interruptions = Repair.interrupts 7 120000 ∷ Repair.takes ∷ Repair.interrupts 6 90000 ∷ []

abbrev plain : ℕ → Text
plain n = codes "id"
