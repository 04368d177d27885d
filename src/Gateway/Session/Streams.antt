-- ===== src/Gateway/Session/Streams.antt =====
-- apps/openlive-gateway/src/session.rs, lines 489 to 530 and 1279 to 1376: which stream an event
-- belongs to, which evidence it is, and how complete a transcript sounds.
use openlive.Common.{
  ℕ, Bool, true, false, ◌||◌, Option, none, some, List, [], ◌∷◌, ◌++◌, ◌==◌, if◌then◌else◌, length,
  any,
}
use openlive.Common.Float.{Float}
use openlive.Common.Text.{Text, codes, text_eq}
use openlive.Common.Trim.{trim, is_empty, is_whitespace}
use openlive.Protocol.Interaction.{InteractionAction}
use openlive.Protocol.Task.{EvidenceKind, transcript, visual, timing}
use openlive.Protocol.Event.{EventEnvelope, RealtimeEvent, generating, complete}
use openlive.Audio.Frontend.{Doubles}

module _ (F : Float) (J : Type 0) where
  unfoldable pub decision_action : EventEnvelope F J → Option InteractionAction
  decision_action e = elim e.event [
    | RealtimeEvent.interaction_decision d ↦ some d.action
    | _ ↦ none
  ]

  unfoldable pub client_stream_id : RealtimeEvent F J → Option Text
  client_stream_id (RealtimeEvent.session_configured p) = some (codes "session")
  client_stream_id RealtimeEvent.ping = some (codes "session")
  client_stream_id (RealtimeEvent.session_resume p) = some (codes "session")
  client_stream_id (RealtimeEvent.user_transcript_delta p) = some (codes "session")
  client_stream_id (RealtimeEvent.interaction_decision p) = some (codes "session")
  client_stream_id (RealtimeEvent.capability_offer p) = some (codes "capability")
  client_stream_id (RealtimeEvent.visual_input p) = some (codes "visual")
  client_stream_id (RealtimeEvent.output_audio_played p) = some (codes "assistant_playout")
  client_stream_id (RealtimeEvent.task_requested p) = some (codes "tasks")
  client_stream_id (RealtimeEvent.task_cancel p) = some (codes "tasks")
  client_stream_id _ = none

  unfoldable pub provider_stream_id : RealtimeEvent F J → Text
  provider_stream_id (RealtimeEvent.output_audio_cancel p) = codes "assistant_audio"
  provider_stream_id (RealtimeEvent.output_text_delta p) = codes "assistant_text"
  provider_stream_id (RealtimeEvent.output_text_final p) = codes "assistant_text"
  provider_stream_id (RealtimeEvent.task_created p) = codes "cognition"
  provider_stream_id (RealtimeEvent.task_result p) = codes "cognition"
  provider_stream_id (RealtimeEvent.latency_mark p) = codes "telemetry"
  provider_stream_id (RealtimeEvent.endpointing_prediction p) = codes "endpointing"
  provider_stream_id (RealtimeEvent.capability_selected p) = codes "capability"
  provider_stream_id (RealtimeEvent.visual_input_accepted p) = codes "visual"
  provider_stream_id (RealtimeEvent.visual_input_rejected p) = codes "visual"
  provider_stream_id (RealtimeEvent.visual_card p) = codes "visual"
  provider_stream_id (RealtimeEvent.task_acknowledged p) = codes "tasks"
  provider_stream_id (RealtimeEvent.task_outcome p) = codes "tasks"
  provider_stream_id (RealtimeEvent.evidence_link p) = codes "evidence"
  provider_stream_id _ = codes "provider"

  unfoldable pub classify_evidence : RealtimeEvent F J → Option EvidenceKind
  classify_evidence (RealtimeEvent.output_text_delta p) = some transcript
  classify_evidence (RealtimeEvent.output_text_final p) = some transcript
  classify_evidence (RealtimeEvent.latency_mark p) = some timing
  classify_evidence (RealtimeEvent.visual_input_accepted p) = some visual
  classify_evidence (RealtimeEvent.provider_state p) = elim p.state [
    | generating ↦ some timing
    | complete ↦ some timing
    | _ ↦ none
  ]
  classify_evidence _ = none

  -- Whether the provider says that it generates now.
  abbrev pub is_generating : RealtimeEvent F J → Bool
  is_generating (RealtimeEvent.provider_state p) = elim p.state [ generating ↦ true | _ ↦ false ]
  is_generating _ = false

-- `str::split_whitespace`: the words of a text, with the word being read.
unfoldable pub words_from : Text → Text → List Text
words_from [] [] = []
words_from (c ∷ word) [] = (c ∷ word) ∷ []
words_from [] (c ∷ cs) = words_from (if is_whitespace c then [] else c ∷ []) cs
words_from (w ∷ word) (c ∷ cs) =
    let ends = (w ∷ word) ∷ words_from [] cs in
    let goes_on = words_from ((w ∷ word) ++ c ∷ []) cs in if is_whitespace c then ends else goes_on

unfoldable pub split_whitespace : Text → List Text
unfolding words_from
split_whitespace text = words_from [] text

-- `words.last().copied().unwrap_or("")`
abbrev pub last_word : List Text → Text
last_word [] = []
last_word (w ∷ []) = w
last_word (w ∷ (v ∷ ws)) = last_word (v ∷ ws)

abbrev pub ends_with : Text → ℕ → Bool
ends_with [] c = false
ends_with (d ∷ []) c = d == c
ends_with (d ∷ (e ∷ t)) c = ends_with (e ∷ t) c

abbrev pub incomplete_trail : List Text
incomplete_trail =
    codes "and"
    ∷ codes "or"
    ∷ codes "but"
    ∷ codes "so"
    ∷ codes "because"
    ∷ codes "if"
    ∷ codes "when"
    ∷ codes "although"
    ∷ codes "though"
    ∷ codes "since"
    ∷ codes "while"
    ∷ codes "unless"
    ∷ codes "until"
    ∷ codes "for"
    ∷ codes "as"
    ∷ codes "whereas"
    ∷ codes "lest"
    ∷ codes "than"
    ∷ codes "that"
    ∷ codes "whether"
    ∷ codes "who"
    ∷ codes "which"
    ∷ codes "whose"
    ∷ codes "whom"
    ∷ codes "what"
    ∷ codes "where"
    ∷ codes "how"
    ∷ codes "why"
    ∷ codes "the"
    ∷ codes "a"
    ∷ codes "an"
    ∷ codes "my"
    ∷ codes "your"
    ∷ codes "his"
    ∷ codes "her"
    ∷ codes "its"
    ∷ codes "our"
    ∷ codes "their"
    ∷ codes "this"
    ∷ codes "that"
    ∷ codes "these"
    ∷ codes "those"
    ∷ []

-- `to_lowercase` stands for `str::to_lowercase`, and `X` for the 64-bit floats.
module _ (F : Float) (to_lowercase : Text → Text) (X : Doubles F) where
  open X use {D, narrow}

  abbrev len_score : ℕ → D.F32
  len_score n = D.clamp (D.div (D.of_nat n) (D.lit 25 0)) (D.lit 0 0) (D.lit 1 0)

  unfoldable pub completion_of : Text → List Text → F.F32
  completion_of trimmed [] = F.lit 0 0
  completion_of trimmed (w ∷ ws) =
      if any (text_eq (last_word (w ∷ ws))) incomplete_trail
      then F.lit 1 1
      else if ends_with trimmed 46 || (ends_with trimmed 63 || ends_with trimmed 33)
      then F.lit 95 2
      else narrow (D.mul_add (len_score (length (w ∷ ws))) (D.lit 4 1) (D.lit 5 1))

  unfoldable pub check_semantic_completion : Text → F.F32
  unfolding completion_of
  check_semantic_completion text =
      let trimmed = to_lowercase (trim text) in
      if is_empty trimmed then F.lit 0 0 else completion_of trimmed (split_whitespace trimmed)
