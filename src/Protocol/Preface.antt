-- ===== src/Protocol/Preface.antt =====
-- src/protocol/preface_protocol_bootstrap.cpp, PrefaceProtocolBootstrap, over the sessions of
-- src/protocol/protocol_session.h: a session is of any type, and is known by its `Feed`.
pub mod Decide
pub mod Chunks
mod Tests
use iocp_http_runtime.Prelude.{
  ℕ, ◌+◌, List, [], ◌∷◌, ◌++◌, Bool, true, false, ◌==◌, if◌then◌else◌, length, get_elem?, Option,
  none, some, Result, ok, throws, ◌>>=◌, invalid_argument, runtime_error, add_size,
}

pub data ProtocolFeedStatus : Type 0 where
  ready buffer_limit_exceeded protocol_error handler_not_found executor_stopped executor_saturated
        close_required stopped :
      ProtocolFeedStatus

pub record ProtocolFeedResult : Type 0 where
  pub status : ProtocolFeedStatus
  pub messages_dispatched : ℕ
  pub buffered_bytes : ℕ

abbrev pub is_ready : ProtocolFeedStatus → Bool
is_ready ProtocolFeedStatus.ready = true
is_ready ProtocolFeedStatus.buffer_limit_exceeded = false
is_ready ProtocolFeedStatus.protocol_error = false
is_ready ProtocolFeedStatus.handler_not_found = false
is_ready ProtocolFeedStatus.executor_stopped = false
is_ready ProtocolFeedStatus.executor_saturated = false
is_ready ProtocolFeedStatus.close_required = false
is_ready ProtocolFeedStatus.stopped = false

abbrev pub is_nil : List ℕ → Bool
is_nil [] = true
is_nil (byte ∷ bytes) = false

-- What the two factories make (`none` for a null session), and how a session is fed.
pub record Sessions (S : Type 0) : Type 0 where
  pub match_factory : Option S
  pub fallback_factory : Option S
  pub feed : S → List ℕ → ProtocolFeedResult × S

pub record Bootstrap (S : Type 0) : Type 0 where
  pub preface : List ℕ
  pub pending : List ℕ
  pub selected : Option S

-- Whether the octet is the one of the preface at an index.
abbrev pub is_expected : Option ℕ → ℕ → Bool
is_expected none value = false
is_expected (some expected) value = value == expected

module _ {S : Type 0} (sessions : Sessions S) where
  unfoldable pub init : List ℕ → Result (Bootstrap S)
  init preface =
      if is_nil preface
      then throws invalid_argument
      else ok (record { preface = preface; pending = []; selected = none })

  -- `SelectAndFeed` behind the first `Feed`.
  abbrev pub feed_tail :
      Bootstrap S → ProtocolFeedResult × S → List ℕ → ProtocolFeedResult × Bootstrap S
  feed_tail b first remaining =
      let fed = record b { pending = []; selected = some first.1 } in
      let tail = sessions.feed first.1 remaining in
      let result = record tail.0 {
        messages_dispatched = add_size first.0.messages_dispatched tail.0.messages_dispatched;
      } in
      if is_ready first.0.status
      then if is_nil remaining
        then (first.0, fed)
        else (result, record fed { selected = some tail.1 })
      else (first.0, fed)

  unfoldable pub select_and_feed :
      Option S → Bootstrap S → List ℕ → Result (ProtocolFeedResult × Bootstrap S)
  select_and_feed none b remaining = throws runtime_error
  select_and_feed (some session) b remaining =
      ok (feed_tail b (sessions.feed session b.pending) remaining)

  -- The loop of `Feed`, over what has arrived.
  unfoldable pub scan : List ℕ → Bootstrap S → Result (ProtocolFeedResult × Bootstrap S)
  unfolding select_and_feed
  scan [] b = ok (
    record {
      status = ProtocolFeedStatus.ready;
      messages_dispatched = 0;
      buffered_bytes = length b.pending;
    },
    b,
  )
  scan (value ∷ bytes) b =
      let pushed = record b { pending = b.pending ++ value ∷ [] } in
      let rest = scan bytes pushed in
      if is_expected (get_elem? b.preface (length b.pending)) value
      then if length b.pending + 1 == length b.preface
        then select_and_feed sessions.match_factory pushed bytes
        else rest
      else select_and_feed sessions.fallback_factory pushed bytes

  -- `Feed`, by the session that is selected.
  abbrev pub feed_selected :
      Option S → Bootstrap S → List ℕ → Result (ProtocolFeedResult × Bootstrap S)
  feed_selected (some session) b bytes = ok (
    (sessions.feed session bytes).0,
    record b { selected = some (sessions.feed session bytes).1 },
  )
  feed_selected none b bytes = scan bytes b

  unfoldable pub feed : Bootstrap S → List ℕ → Result (ProtocolFeedResult × Bootstrap S)
  unfolding scan
  feed b bytes = feed_selected b.selected b bytes

  -- The stream in pieces, as it arrives.
  abbrev pub feed_all : Bootstrap S → List (List ℕ) → Result (Bootstrap S)
  feed_all b [] = ok b
  feed_all b (bytes ∷ pieces) = feed b bytes >>= (λ r. feed_all r.1 pieces)

abbrev pub joined : List (List ℕ) → List ℕ
joined [] = []
joined (bytes ∷ pieces) = bytes ++ joined pieces
