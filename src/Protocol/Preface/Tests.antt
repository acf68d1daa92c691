-- ===== src/Protocol/Preface/Tests.antt =====
-- Runs of the bootstrap of src/protocol/preface_protocol_bootstrap.cpp at fixed inputs.
use iocp_http_runtime.Prelude.{ℕ, ◌≡◌, refl, List, [], ◌∷◌, ◌++◌, Bool, true, false, none, some, ok}
use iocp_http_runtime.Protocol.Preface.{
  ProtocolFeedStatus, Sessions, Bootstrap, init, scan, select_and_feed, feed, feed_all,
}
use iocp_http_runtime.Protocol.Preface.Chunks.{AreSessions, Arrived, feed_all_lem}

-- A session that keeps what it is fed, and whether it is the matching one.
abbrev Log : Type 0
Log = List ℕ × Bool

abbrev logs : Sessions Log
logs = record {
  match_factory = some ([], true);
  fallback_factory = some ([], false);
  feed = λ s bytes. (
    record { status = ProtocolFeedStatus.ready; messages_dispatched = 0; buffered_bytes = 0 },
    (s.0 ++ bytes, s.1),
  );
}

logs-AreSessions : AreSessions logs (λ s. s.0) (λ s. s.1)
logs-AreSessions = record {
  matching = (([], true), refl, refl, refl);
  falling_back = (([], false), refl, refl, refl);
  feeding = λ s bytes. refl;
  same_kind = λ s bytes. refl;
  answering = λ s bytes. refl;
}

abbrev new_bootstrap : Bootstrap Log
new_bootstrap = record { preface = 80 ∷ 82 ∷ 73 ∷ []; pending = []; selected = none }

new_bootstrap_made : init logs (80 ∷ 82 ∷ 73 ∷ []) ≡ ok new_bootstrap
unfolding init
new_bootstrap_made = refl

-- The preface, in three pieces, and one octet more.
abbrev pieces : List (List ℕ)
pieces = (80 ∷ []) ∷ [] ∷ (82 ∷ 73 ∷ 5 ∷ []) ∷ []

pieces_match :
    feed_all logs new_bootstrap pieces
    ≡ ok (record new_bootstrap { selected = some (80 ∷ 82 ∷ 73 ∷ 5 ∷ [], true) })
unfolding feed scan select_and_feed
pieces_match = refl

feed_all_lem_example :
    Arrived logs
      (λ s. s.0)
      (λ s. s.1)
      (80 ∷ 82 ∷ 73 ∷ [])
      (80 ∷ 82 ∷ 73 ∷ 5 ∷ [])
      (feed_all logs new_bootstrap pieces)
feed_all_lem_example =
    feed_all_lem logs (λ s. s.0) (λ s. s.1) (80 ∷ 82 ∷ 73 ∷ []) pieces logs-AreSessions
      new_bootstrap_made
