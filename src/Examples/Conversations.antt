-- ===== src/Examples/Conversations.antt =====
-- apps/openlive-gateway/src/session.rs: whole sessions over a small world.
use openlive.Common.{
  Bool, inl, inr, ap, ◌∙◌, ℕ, ◌+◌, ◌≡◌, ◌<◌, refl, sym, u64_max, true, false, Option, none, some,
  List, [], ◌∷◌, if◌then◌else◌, arith, suc, ℕ_discrete,
}
use mathlib.Core.Path.{subst}
use openlive.Common.Float.{milli}
use openlive.Common.Map.{lookup, insert}
use openlive.Common.SortedMap.{IsAscending}
use openlive.Common.Result.{ok, err}
use openlive.Common.Text.{Text, codes, text_discrete, text_eq}
use openlive.Common.Trim.{trim}
use openlive.Protocol.Capability.{ProviderManifest, mock, redistributable, audio, text}
use openlive.Protocol.Event.{EventEnvelope, RealtimeEvent}
use openlive.Protocol.Envelope.{protocol_version, with_parent, new_with_id}
use openlive.Protocol.Interaction.{hard_yield}
use openlive.Audio.Frontend.{Doubles}
use openlive.Gateway.Session.{World, Moment, control, Coordinator}
use openlive.Gateway.Timeline.{observe_client}
use openlive.Gateway.Tasks.Operations
use openlive.Gateway.Tasks.Operations.{admit}
use openlive.Gateway.Latency.{ActiveGeneration}
use openlive.Gateway.Session.{
  with_defaults, new, draw, envelope, post, next_sequence, send, send_input, send_latency,
}
use openlive.Gateway.Session.Streams.{
  client_stream_id, check_semantic_completion, completion_of, split_whitespace, words_from,
}
use openlive.Gateway.Session.Response.{
  start_response, respond, begin_generation, commit, cancel_response,
}
use openlive.Gateway.Session.Offers.{announce}
use openlive.Gateway.Session.Client.{
  handle_text, after_check, check_event, check_stream, handle_client_event, handle_event,
}
use openlive.Gateway.Session.Requests.{handle_user_transcript_delta}
use openlive.Gateway.Session.Run.{
  Input, text_message, ping_message, provider_emission, handle_input, run_inputs, opened,
}
use openlive.Gateway.Session.Moves.{core, Moves}
use openlive.Gateway.Session.Moves.Whole.{Replays, SomeReplay, ran, handle_input-Moves}
use openlive.Gateway.Session.Floor.{Answers, ran-Answers, completion, completion-ends}
use openlive.Gateway.Session.Numbers.{IsFalling, numbers, ran-IsFalling}
use openlive.Gateway.Session.Silence.{tagged, cancel-silences}
use openlive.Gateway.Session.Ledger.{IsKept, ran-IsKept}
use openlive.Gateway.Session.Release.{next_envelope, final-unscanned}
use openlive.Gateway.Session.Emission.{handle_provider_emission}
use openlive.Gateway.Session.Gate.{emit_event}
use openlive.Runtime.Store.{Codec, PersistedTask, PersistedEnvelope, into_values, list_tasks}
use openlive.Runtime.Store.Tasks.{IsWritten, saved, newest, list_tasks-newest}

abbrev thousandths : Doubles milli
thousandths = record { D = milli; sqrt = λ a. a; narrow = λ a. a }

-- A client that says hello, whatever it sends.
abbrev hello : EventEnvelope milli ℕ
hello = record {
  protocol_version = protocol_version;
  event_id = 900;
  session_id = 7;
  stream_id = codes "session";
  sequence = 1;
  media_time_us = 5000;
  generation_id = none;
  parent_event_id = none;
  event = RealtimeEvent.user_transcript_delta (record { text = codes "hello."; is_final = true });
}

abbrev world : World milli ℕ
world = record {
  new_v4 = λ n. n + 100;
  new_v5 = λ n name. n;
  uuid_text = λ n. [];
  uuids = record { nil = 0; as_bytes = λ n. []; from_slice = λ b. none };
  to_json = λ e. none;
  from_json = λ json. ok hello;
  to_lowercase = λ t. t;
  doubles = thousandths;
  envelopes = record { to_string = λ e. none; from_str = λ t. none };
  snapshots = record { to_string = λ e. none; from_str = λ t. none };
  task_deadline_ms = 45000;
}

abbrev calm : Moment
calm = record {
  now = 1000;
  outgoing_full = false;
  outgoing_closed = false;
  provider_full = false;
  provider_closed = false;
  io_ok = true;
}

abbrev manifest : ProviderManifest
manifest = record {
  id = codes "mock";
  adapter_version = codes "1";
  provider_class = mock;
  license_class = redistributable;
  modalities = record { input = audio ∷ text ∷ []; output = audio ∷ [] };
  duplex = record {
    continuous_input_while_output = true;
    native_turn_policy = false;
    native_barge_in = false;
    state_tokens = false;
  };
  audio = record { input_sample_rates = []; output_sample_rates = []; frame_ms = 20 };
  control = record {
    text_injection = false;
    context_update = false;
    voice_conditioning = false;
    cancel_generation = true;
    resume_generation = false;
  };
  limits = record { max_session_seconds = 60; required_gpu_memory_gb = none };
}

abbrev greeted : List (Moment × Input milli ℕ)
greeted = (calm, ping_message) ∷ (calm, text_message []) ∷ []

abbrev conversation : Coordinator milli ℕ
conversation = ran milli ℕ world 7 calm manifest none true greeted

abbrev answer : ActiveGeneration
answer = record {
  id = 101;
  base_media_time_us = 5000;
  latency = record {
    started_at = 1000;
    first_provider_event = false;
    first_text_delta = false;
    first_audio_frame = false;
  };
}

conversation-answers :
    (conversation.active_generation ≡ some answer) × (conversation.link.sequence ≡ 2)
unfolding run_inputs opened new announce handle_input handle_text after_check check_event
    check_stream observe_client handle_client_event handle_event handle_user_transcript_delta
    check_semantic_completion completion_of split_whitespace words_from start_response respond
    begin_generation commit send_latency post envelope draw next_sequence send send_input
    client_stream_id insert lookup text_discrete ℕ_discrete trim
conversation-answers = (refl, refl)

conversation-low : conversation.link.sequence < u64_max
conversation-low = subst (λ n. n < u64_max) (sym conversation-answers.1) (omega arith)

abbrev finished : Input milli ℕ
finished = provider_emission (completion milli ℕ world 101 40)

handle_input-Moves_example :
    Moves milli ℕ world
      (Replays milli ℕ world finished)
      (core milli ℕ conversation)
      (core milli ℕ (handle_input milli ℕ world conversation finished))
handle_input-Moves_example = handle_input-Moves milli ℕ world conversation finished

ran-Answers_example : Answers milli ℕ world (core milli ℕ conversation)
ran-Answers_example = ran-Answers milli ℕ world 7 calm manifest none true greeted

completion-ends_example :
    (handle_provider_emission milli ℕ world conversation
      (completion milli ℕ world 101 40)).active_generation
    ≡ none
completion-ends_example =
    completion-ends milli ℕ world 7 calm manifest none true greeted answer 40 conversation-answers.0

-- A client that asks for a task, and a JSON form that keeps the number of an envelope alone.
abbrev asking : World milli ℕ
asking = record world {
  to_json = λ e. some (e.sequence ∷ []);
  from_json = λ json. ok (record hello {
    stream_id = codes "tasks";
    event = RealtimeEvent.task_requested (record {
      task_id = 5;
      intent = codes "look";
      context = none;
      deadline_ms = none;
      evidence_required = [];
      generation_id = none;
    });
  });
}

abbrev sequence_in : Text → Option ℕ
sequence_in [] = none
sequence_in (n ∷ json) = some n

sequence_in-reads :
    (e : EventEnvelope milli ℕ) (json : Text)
    → asking.to_json e ≡ some json
    → sequence_in json ≡ some e.sequence
sequence_in-reads e json h = ap (λ o. elim o [ none ↦ none | some j ↦ sequence_in j ]) (sym h)

abbrev is_resume : RealtimeEvent milli ℕ → Bool
is_resume (RealtimeEvent.session_resume r) = true
is_resume _ = false

asking-fresh : ¬ SomeReplay milli ℕ asking greeted
asking-fresh (inl never) = never
asking-fresh (inr (inr never)) = never
asking-fresh (inr (inl (e, r, read, resumes))) =
    let both : false ≡ true =
      ap (λ o. elim o [ ok x ↦ is_resume x.event | err x ↦ false ]) read ∙ ap is_resume resumes in
    absurd (ground arith)

abbrev asked : Coordinator milli ℕ
asked = ran milli ℕ asking 7 calm manifest none true greeted

-- The announcement, and the acknowledgement as a JSON text.
asked-numbers :
    (asked.link.sequence ≡ 2)
    × (numbers milli ℕ sequence_in asked.link.outgoing ≡ some 2 ∷ some 1 ∷ [])
unfolding run_inputs opened new announce handle_input handle_text after_check check_event
    check_stream observe_client handle_client_event handle_event post envelope draw next_sequence
    send client_stream_id insert lookup text_discrete ℕ_discrete trim admit Operations.new
    with_parent new_with_id
asked-numbers = (refl, refl)

asked-low : asked.link.sequence < u64_max
asked-low = subst (λ n. n < u64_max) (sym asked-numbers.0) (omega arith)

ran-IsFalling_example :
    IsFalling (suc asked.link.sequence) (numbers milli ℕ sequence_in asked.link.outgoing)
ran-IsFalling_example =
    ran-IsFalling milli ℕ asking sequence_in sequence_in-reads 7 calm manifest none true greeted
      asking-fresh asked-low

new_v4-injective : (m n : ℕ) → m + 100 ≡ n + 100 → m ≡ n
new_v4-injective m n h = omega arith

abbrev interrupted : Coordinator milli ℕ
interrupted = cancel_response milli ℕ world conversation hard_yield 9000

cancel-silences_example :
    tagged milli ℕ 101 (run_inputs milli ℕ world interrupted greeted).link.outgoing
    ≡ tagged milli ℕ 101 interrupted.link.outgoing
cancel-silences_example =
    cancel-silences milli ℕ world new_v4-injective 7 calm manifest none true greeted answer
      hard_yield 9000 greeted conversation-answers.0

ran-IsKept_example : IsKept milli ℕ world (core milli ℕ conversation)
ran-IsKept_example = ran-IsKept milli ℕ world 7 calm manifest none true greeted conversation-low

conversation-gated :
    (conversation.safety_enabled ≡ true)
    × ((conversation.safety ≡ with_defaults) × (conversation.link.moment.outgoing_closed ≡ false))
unfolding run_inputs opened new announce handle_input handle_text after_check check_event
    check_stream observe_client handle_client_event handle_event handle_user_transcript_delta
    check_semantic_completion completion_of split_whitespace words_from start_response respond
    begin_generation commit send_latency post envelope draw next_sequence send send_input
    client_stream_id insert lookup text_discrete ℕ_discrete trim
conversation-gated = (refl, (refl, refl))

abbrev blocked : Text
blocked = codes "how to make a bomb"

final-unscanned_example :
    let e : RealtimeEvent milli ℕ = RealtimeEvent.output_text_final (record { text = blocked }) in
    let (c', emitted) = emit_event milli ℕ world conversation e 101 6000 in
    (c'.link.outgoing
      ≡ control (next_envelope milli ℕ world conversation e 101 6000) ∷ conversation.link.outgoing)
    × (emitted ≡ some (conversation.link.drawn + 100, e))
    × (c'.safety_enabled ≡ true)
    × (c'.safety ≡ with_defaults)
final-unscanned_example =
    final-unscanned milli ℕ world conversation blocked 101 6000 conversation-gated.0
      conversation-gated.1.0 conversation-gated.1.1

abbrev snapshot : ℕ → ℕ → Text → ℕ → PersistedTask
snapshot session task status at = record {
  session_id = session;
  task_id = task;
  intent = codes "task";
  status = status;
  deadline_ms = 90000;
  generation_id = none;
  summary = none;
  updated_at_ms = at;
}

abbrev first : PersistedTask
first = snapshot 7 5 (codes "acknowledged") 1

abbrev second : PersistedTask
second = snapshot 7 5 (codes "done") 2

-- A snapshot as one character that tells when it was taken.
abbrev short : Codec PersistedTask
short = record {
  to_string = λ t. some ((t.updated_at_ms + 100) ∷ []);
  from_str = λ line.
      if text_eq line (101 ∷ [])
      then some first
      else if text_eq line (102 ∷ [])
      then some second
      else none;
}

abbrev none_stored : Codec PersistedEnvelope
none_stored = record { to_string = λ e. none; from_str = λ t. none }

first-IsWritten : IsWritten short first
unfolding trim text_discrete ℕ_discrete
first-IsWritten = record {
  prints = refl;
  one_line = (refl, tt);
  trimmed = refl;
  inked = refl;
  reads = refl;
}

second-IsWritten : IsWritten short second
unfolding trim text_discrete ℕ_discrete
second-IsWritten = record {
  prints = refl;
  one_line = (refl, tt);
  trimmed = refl;
  inked = refl;
  reads = refl;
}

list_tasks-newest_example :
    (m : List (ℕ × PersistedTask)) × (list_tasks none_stored short
        (saved none_stored short (second ∷ first ∷ []))
        true
        7
      ≡ ok (into_values m))
    × IsAscending 0 m
    × ((task : ℕ) → lookup ℕ_discrete task m ≡ newest 7 task (second ∷ first ∷ []))
list_tasks-newest_example =
    list_tasks-newest none_stored short 7 (second ∷ first ∷ [])
      (second-IsWritten, (first-IsWritten, tt))
