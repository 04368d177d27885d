-- ===== src/Lib.antt =====
-- OpenLive: a gateway for spoken conversation between a user and an assistant that may both talk at
-- once. This library models the parts of its Rust code that decide, count and encode.
--
-- How the parts interact. The gateway (apps/openlive-gateway) holds one session per client. Audio
-- comes in as binary packets (crates/openlive-protocol/src/media.rs); what is heard in it is put to
-- the session engine (crates/openlive-runtime/src/lib.rs), whose state machine Chronos decides who
-- has the floor. An assistant generation may send its answer only under a lease
-- (crates/openlive-runtime/src/lease.rs), which a new user turn ends. Next to this the session keeps
-- the tasks that the client asked for, the evidence linked to them, the buffer that a resumed client
-- is sent again, and trackers of time (apps/openlive-gateway/src/session_state.rs). The coordinator
-- (apps/openlive-gateway/src/session.rs) is the loop that takes messages of the client and emissions
-- of the provider one at a time and calls all of these; what is to survive a restart goes to files
-- (crates/openlive-runtime/src/persistence.rs).
--
-- Which file models which part.
-- - Common: shared names and lemmas. Common/Float is the interface of 32-bit floats; it has no laws,
--   so every theorem holds whatever the rounding. Common/Map and Common/SortedMap stand for HashMap
--   and BTreeMap, Common/Words for the wrapping and saturating arithmetic of u16, u32 and u64.
-- - Protocol/Capability, Interaction, Task, Event, Envelope: the types of crates/openlive-protocol/
--   src/lib.rs, with `new_with_id`, `with_generation` and `with_parent` of `EventEnvelope`.
-- - Protocol/Media: `MediaPacket::encode` and `decode` of crates/openlive-protocol/src/media.rs.
-- - Runtime/Lease: `AnswerLeaseManager`; a method on `&mut self` is a function from the old to the
--   new state, here and everywhere else.
-- - Runtime/Chronos, Chronos/Observe: `Chronos`, with `observe` and its function for each state.
-- - Runtime/Engine: `SessionEngine::process` and `replay`. `RuntimeError` is a value of `Result`.
-- - Gateway/Tasks, Tasks/Operations, Tasks/Links: `TaskOrchestrator`. The removal of a task from the
--   active ones, which three methods share word for word, is `resolve`.
-- - Gateway/Tasks/Resume: `buffer_outbound` and `replay_after`; the clock is an argument.
-- - Gateway/Timeline, Gateway/Latency: `ClientTimeline`, `TelemetryGate`, `PlayoutTracker`,
--   `RepairContext` and `LatencyTracker`.
-- - Audio: `EndpointingTracker` of crates/openlive-audio/src/lib.rs. `observe` is
--   `observe_with_semantic` with no semantic completion.
-- - Runtime/Safety: `StreamingSafety::observe_delta` and `finalize` of crates/openlive-runtime/src/
--   safety.rs. Text is a list of code points, so byte offsets become numbers of characters.
-- - Runtime/Store: `SessionStore`, whose files are texts in association lists. Store/Tasks is about
--   `upsert_task` and `list_tasks`.
-- - Provider: `ProviderInput`, `ProviderOutput` and `ProviderEmission` of crates/openlive-provider/
--   src/lib.rs. In that folder too: Provider/Pending is pending_actions.rs and
--   Provider/Context is session_context.rs, with the `purge` they have in common in
--   Provider/Expiring; Provider/Knowledge is `needs_deep_cognition` of knowledge.rs, and
--   Provider/Hybrid is the routing loop of hybrid.rs.
-- - Gateway/Session: `SessionCoordinator`, its `envelope`, `send` and `send_and_buffer`. Its fields
--   that number and carry messages are the record `Link`. Session/Streams has the functions at the
--   end of session.rs, Session/Response starts and cancels responses, Session/Microphone takes audio,
--   Session/Offers, Requests and Client take control events, Session/Gate and Emission take what the
--   provider emits, and Session/Run is the loop `run`.
-- - Gateway/Session/Moves: an abstract session as a step relation, `Move`. Its children show handler
--   by handler that the coordinator takes such moves; Session/Floor, Numbers, Silence and Ledger are
--   invariants by induction on them. `sequence_in`, which reads the number in an envelope's JSON text,
--   is a parameter.
-- - Examples: concrete runs.
--
-- Conventions. Identifiers (`Uuid`) are numbers. `Uuid::new_v5` and the textual form of a Uuid are
-- parameters `new_v5` and `uuid_text`; `Uuids` stands for the byte form. JSON values are a type
-- parameter `J`. A theorem on arbitrary use of an object is about all histories of calls, lists
-- with the newest call first. Two loops run on fuel: the printing of a number,
-- `decimal n`, which has n + 1 steps for at most that many digits, and the loop of `purge`, which has
-- a step for each entry and takes one away in each.
--
-- What a session calls outside the repository is the record `World`: the identifiers that are
-- drawn, the text form of JSON, lower case, and the codecs of the files. The clock, the state of the
-- channels and the disk's answer are the record `Moment`, given with each input and fixed while its
-- handler runs. A channel is the list of what it was given, newest first; what is sent to a closed
-- channel is lost, as the source has it.
--
-- What is not modelled. The JSON form of events is made by derived serde code. The sockets, WebRTC,
-- the HTTP routes, the clients of language and speech services, the tools and the desktop shell are
-- input and output. The opening of a provider's session and the tasks around the loop of `run` are
-- left out. The iteration order of a HashMap is unspecified; the model fixes one order, and no
-- theorem says in which order outcomes of one call come out.
pub mod Common
pub mod Protocol
pub mod Runtime
pub mod Gateway
pub mod Audio
pub mod Provider
pub mod Examples
