-- ===== src/Lib.antt =====
-- kirocc-pro, a proxy that serves the Anthropic Messages API from a pool of Kiro accounts.
--
-- The program. A request comes in over HTTP, internal/reqconv turns its messages into a Kiro
-- conversation, internal/pool chooses and reserves an account for it, internal/kiroclient sends it,
-- internal/kiroproto parses the event stream that comes back, and internal/respconv turns its events
-- into an Anthropic response. The outcome goes
-- back to the pool, which cools accounts down, and to internal/usage, which keeps the records that
-- the administration pages show. internal/oauth logs new accounts in.
--
-- Files and sources. Names are those of the source in snake_case.
--   Base: lists and numbers, signed integers, association lists for Go maps with string keys.
--   Pool/Backoff: NextBackoff of internal/pool/cooldown.go.
--   Pool/Credential: Credential of internal/pool/types.go with Reserve, ReleaseReservation and
--     IsReadyFor. Ready relates them, InFlight counts the slots over sequences of requests.
--   Pool/Store: the accounts behind their pointers, as a heap.
--   Pool/Selector: the five strategies of internal/pool/selector_strategies.go. Scores is about the
--     64-bit products of the weighted strategy, Minimal about the shared loop, Choice about Pick.
--   Pool/Scheduler: internal/pool/scheduler_default.go. State, Register, Listing, Marks and Admin
--     hold its methods; Invariant, Membership, Reload, Takeover and Handoff are about the registry
--     and about requests that hold replaced accounts, Histories about any sequence of calls, Ready
--     about the order of Ready, Outcomes about cooldowns.
--   Pool/Affinity: the sticky sessions of internal/pool/conductor.go.
--   Pool/Conductor: Acquire and Release of internal/pool/conductor_default.go with no Redis store
--     attached. Candidates is about the accounts that a round chooses among, Complete about what
--     Acquire returns, Sticky about bound sessions.
--   Pool/Region: internal/pool/region_hint.go.
--   Usage/Records, Usage/Memory: internal/usage/types.go and store_memory.go. Ring and Recent are
--     about the ring buffer, Rollup and its Parts about Query.
--   Usage/Aggregator: internal/usage/aggregator.go, over a Store as the source's interface. Writer is
--     about the records that reach that store.
--   Oauth/StateCache: internal/oauth/state.go. Nonces is about sequences of calls.
--   Reqconv/Messages, Reqconv/Normalizer: the message types of internal/anthropic/types.go, the text
--     extraction of internal/reqconv/content_text.go and internal/reqconv/message_normalizer.go.
--     Conversation is about the pipeline.
--   Reqconv/ToolResults: ReorderToolResults of internal/reqconv/tool_results.go. Reorder is about what
--     it keeps.
--   Kiroproto/Event: the events of internal/kiroproto/eventstream.go.
--   Kiroproto/Frame, Kiroproto/Headers: readFrame and extractFrameHeaders of
--     internal/kiroproto/frame.go. Encoding and Walk are about frames and headers in the format.
--   Kiroproto/ToolUse: internal/kiroproto/tooluse.go. Calls and Pieces are about streams of payloads.
--   Kiroproto/Stream: ParseStream of internal/kiroproto/eventstream.go. Returns is about its end,
--     Frames about streams of whole frames.
--   Respconv/Text, Respconv/Accumulator: text as a list of numbers, and the state of a response of
--     internal/respconv/accumulator.go.
--   Respconv/StopSequence: internal/respconv/stop_sequence.go. Accounts is about what the filter emits
--     and keeps back.
--   Respconv/ChunkDelta: internal/respconv/chunk_delta.go. Overlap, Table and Kmp are about the
--     search for an overlap, Cumulative about streams of chunks.
--   Respconv/TokenBudget: internal/respconv/token_budget.go. Accounts is about what passes.
--   Respconv/ThinkingTags: internal/respconv/thinking_tags.go. Rounds is about its loop.
--   Respconv/Events: internal/respconv/event_processor.go with accumulateThinking and FinalizeStream
--     of accumulator.go. Unchanged, Parts and Deltas are about single events, Runs and Streams
--     about whole streams, Literal about text that follows visible text, Shapes about the kinds of
--     deltas.
--   Respconv/Writer: the event writer of internal/respconv/streaming.go. Protocol, Blocks and Messages
--     are about the order of what it writes, Content, Owing and Told about
--     the text in it.
--   Response: handleStreamingResponse of internal/app/messages/response.go with the gate of
--     gate_writer.go and the errors of errors.go and toolsearch.go. Delivery is about what is passed
--     on to the client, Told about the text in it.
--   A module Tests, SessionTests or StreamTests runs the definitions on concrete data and applies the
--   theorems there.
--
-- Choices. A method that holds a lock is one step on its state. Requests and the scheduler share
-- accounts by pointer: a pointer is a number and a Heap maps it to its object. Time is a natural
-- number of nanoseconds, 0 is the zero time, and each method reads the clock once; the duration
-- between two times ends at the longest one, and sums of durations wrap around where buckets are
-- counted. Counters that the source never brings below zero are natural numbers without an upper
-- bound; where the source compares 64-bit products, in the weighted strategy, they wrap around.
-- Signed parameters, such as levels, limits and durations, are integers. A Go map is an association
-- list, and a nil map is the empty one. Calls of the Redis store and of the credential store are
-- recorded in order in the scheduler's state; their effect there is not modelled. An error is a
-- value, and an index out of range is an error too.
--
-- The loop of Acquire takes a list of the steps that other requests make between Pick and Reserve,
-- one for each round, on the pool, the selector and the sessions that they share, and its context
-- is done when they are used up. Other loops are structural recursion, except for merge_runs: each
-- of its rounds takes one message at least, so that the number of messages is enough fuel, and for
-- the loop over thinking tags, where a round that goes on drops a tag from the buffer, so that the
-- buffer's length is enough. Text is code points, for ComputeDelta bytes; in valid UTF-8 an overlap
-- of bytes is one of characters. ParseStream and the walk over headers are on fuel too: a frame,
-- and a header, takes bytes away, so that the number of bytes is enough.
--
-- Not modelled: the Redis scripts of internal/pool/runtime_state.go and the PostgreSQL and JSON
-- stores, the other HTTP handlers, HTTP clients, token refresh, logging and tracing, the
-- administration pages, and the timers that call Sweep. json.Marshal, json.Unmarshal, CRC-32 and
-- the tool input validator are parameters. Whether a write to the client fails is a parameter too.
-- The conductor's branches for Redis, the JSON response without streaming and the prompt cache have
-- no model.
pub mod Base
pub mod Kiroproto
pub mod Oauth
pub mod Pool
pub mod Reqconv
pub mod Respconv
pub mod Response
pub mod Usage
