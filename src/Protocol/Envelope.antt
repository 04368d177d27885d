-- ===== src/Protocol/Envelope.antt =====
-- crates/openlive-protocol/src/lib.rs, lines 23 to 86: how envelopes are made. The identifier that
-- `EventEnvelope::new` draws at random is an argument.
use openlive.Common.{ℕ, none, some}
use openlive.Common.Text.{Text, codes}
use openlive.Common.Float.{Float}
use openlive.Protocol.Event.{EventEnvelope, RealtimeEvent}

abbrev pub protocol_version : Text
protocol_version = codes "1.0"

module _ (F : Float) (J : Type 0) where
  unfoldable pub new_with_id : ℕ → ℕ → Text → ℕ → ℕ → RealtimeEvent F J → EventEnvelope F J
  new_with_id event_id session_id stream_id sequence media_time_us event = record {
    protocol_version = protocol_version;
    event_id = event_id;
    session_id = session_id;
    stream_id = stream_id;
    sequence = sequence;
    media_time_us = media_time_us;
    generation_id = none;
    parent_event_id = none;
    event = event;
  }

  unfoldable pub with_generation : EventEnvelope F J → ℕ → EventEnvelope F J
  with_generation envelope generation_id = record envelope { generation_id = some generation_id }

  unfoldable pub with_parent : EventEnvelope F J → ℕ → EventEnvelope F J
  with_parent envelope parent_event_id = record envelope { parent_event_id = some parent_event_id }
