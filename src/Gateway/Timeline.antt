-- ===== src/Gateway/Timeline.antt =====
-- apps/openlive-gateway/src/session_state.rs, lines 84 to 161: what a session remembers of the media
-- timeline. The stream map is an association list keyed by the stream's name.
pub mod Ordered
pub mod Playout
pub mod Repair
use openlive.Common.{
  ℕ, ◌-◌, Bool, true, false, ◌||◌, Option, none, some, List, [], ◌++◌, ltb, leb, if◌then◌else◌, max,
}
use openlive.Common.Map.{lookup, insert}
use openlive.Common.Text.{Text, codes, decimal, text_discrete}
use openlive.Common.Result.{Result, ok, err}

pub record ClientTimeline : Type 0 where
  pub last_sequence : ℕ
  pub stream_media_times : List (Text × ℕ)

abbrev pub new_timeline : ClientTimeline
new_timeline = record { last_sequence = 0; stream_media_times = [] }

-- Whether the stream's last media time lies after `media_time_us`.
abbrev moves_backward : Option ℕ → ℕ → Bool
moves_backward none media_time_us = false
moves_backward (some last) media_time_us = ltb media_time_us last

unfoldable pub observe_client : ClientTimeline → ℕ → Text → ℕ → ClientTimeline × Result Text Unit
observe_client c sequence stream_id media_time_us =
    if leb sequence c.last_sequence
    then (c, err (codes "client sequence must increase"))
    else if moves_backward (lookup text_discrete stream_id c.stream_media_times) media_time_us
    then (c, err (codes "client media time must not move backward within a stream"))
    else (
      record {
        last_sequence = sequence;
        stream_media_times = insert text_discrete stream_id media_time_us c.stream_media_times;
      },
      ok tt,
    )

pub record TelemetryGate : Type 0 where
  pub last_media_time_us : Option ℕ

-- Whether 100 milliseconds have passed since the last telemetry.
abbrev is_due : Option ℕ → ℕ → Bool
is_due none media_time_us = true
is_due (some last) media_time_us = leb 100000 (media_time_us - last)

unfoldable pub should_publish : TelemetryGate → ℕ → Bool → TelemetryGate × Bool
should_publish g media_time_us force =
    if force || is_due g.last_media_time_us media_time_us
    then (record { last_media_time_us = some media_time_us }, true)
    else (g, false)

pub record PlayoutTracker : Type 0 where
  pub last_sent_media_time_us : ℕ
  pub last_played_media_time_us : ℕ

abbrev pub new_playout : PlayoutTracker
new_playout = record { last_sent_media_time_us = 0; last_played_media_time_us = 0 }

unfoldable pub sent : PlayoutTracker → ℕ → PlayoutTracker
sent p media_time_us = record p {
  last_sent_media_time_us = max p.last_sent_media_time_us media_time_us;
}

unfoldable pub played : PlayoutTracker → ℕ → PlayoutTracker
played p media_time_us = record p {
  last_played_media_time_us = max p.last_played_media_time_us media_time_us;
}

unfoldable pub is_active : PlayoutTracker → Bool
is_active p = ltb p.last_played_media_time_us p.last_sent_media_time_us

unfoldable pub cancel_playout : PlayoutTracker → PlayoutTracker
cancel_playout p = record p { last_played_media_time_us = p.last_sent_media_time_us }

pub record RepairContext : Type 0 where
  pub interrupted_generation_id : Option ℕ
  pub interrupted_at_us : ℕ

abbrev pub new_repair : RepairContext
new_repair = record { interrupted_generation_id = none; interrupted_at_us = 0 }

unfoldable pub record_interruption : RepairContext → ℕ → ℕ → RepairContext
record_interruption r generation_id media_time_us = record {
  interrupted_generation_id = some generation_id;
  interrupted_at_us = media_time_us;
}

-- `uuid_text`, a parameter, stands for the `Display` of `Uuid`.
module _ (uuid_text : ℕ → Text) where
  -- The instruction on an interruption, or nothing.
  abbrev pub prompt : Option ℕ → ℕ → Text
  prompt none at_us = []
  prompt (some generation_id) at_us =
      codes "The user interrupted assistant generation "
      ++ (uuid_text generation_id
          ++ (codes " at media time "
              ++ (decimal at_us
                  ++ codes
                      " us. Treat the new user turn as higher priority, avoid repeating the interrupted answer, briefly acknowledge any correction if useful, and answer the new intent directly.")))

  unfoldable pub take_prompt : RepairContext → RepairContext × Text
  take_prompt r = (
    record r { interrupted_generation_id = none },
    prompt r.interrupted_generation_id r.interrupted_at_us,
  )
