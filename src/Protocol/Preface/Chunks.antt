-- ===== src/Protocol/Preface/Chunks.antt =====
-- PrefaceProtocolBootstrap does not depend on how the stream is cut into pieces.
use iocp_http_runtime.Prelude.{
  ℕ, ◌+◌, ◌≡◌, refl, sym, ap, ◌∙◌, subst, List, [], ◌∷◌, ◌++◌, append-nil, append_assoc, Bool, true,
  false, ◌==◌, if◌then◌else◌, if_elim, length, get_elem?, Option, none, some, Result, ok, throws,
  ◌>>=◌, arith,
}
use iocp_http_runtime.Protocol.Preface.{
  ProtocolFeedResult, is_ready, Sessions, Bootstrap, is_expected, init, feed_tail, select_and_feed,
  scan, feed_selected, feed, feed_all, joined,
}
use iocp_http_runtime.Protocol.Preface.Decide.{decide, decide-push, decide-later}

-- What is asked of the sessions: each factory makes one that has been fed nothing; `Feed` adds to what
-- it was fed, does not make another kind of session of it, and answers Ready.
pub record AreSessions {S : Type 0} (sessions : Sessions S) (fed : S → List ℕ) (kind : S → Bool)
    : Type 0 where
  pub matching : (s : S) × (sessions.match_factory ≡ some s) × (fed s ≡ []) × (kind s ≡ true)
  pub falling_back :
      (s : S) × (sessions.fallback_factory ≡ some s) × (fed s ≡ []) × (kind s ≡ false)
  pub feeding : (s : S) (bytes : List ℕ) → fed (sessions.feed s bytes).1 ≡ fed s ++ bytes
  pub same_kind : (s : S) (bytes : List ℕ) → kind (sessions.feed s bytes).1 ≡ kind s
  pub answering : (s : S) (bytes : List ℕ) → is_ready (sessions.feed s bytes).0.status ≡ true

module _ {S : Type 0} (sessions : Sessions S) (fed : S → List ℕ) (kind : S → Bool) where
  -- Undecided, the whole stream is pending; decided, the session of the right kind was fed all of it.
  abbrev Follows : List ℕ → Bootstrap S → Option Bool → Type 0
  Follows stream b none = (b.selected ≡ none) × (b.pending ≡ stream)
  Follows stream b (some k) =
      (s : S) × (b.selected ≡ some s) × (fed s ≡ stream) × (kind s ≡ k) × (b.pending ≡ [])

  abbrev pub Tracks : List ℕ → List ℕ → Bootstrap S → Type 0
  Tracks preface stream b = (b.preface ≡ preface) × Follows stream b (decide preface stream)

  feed_tail-fed :
      (b : Bootstrap S) (s : S) (remaining : List ℕ)
      → AreSessions sessions fed kind
      → fed s ≡ []
      → let b' = (feed_tail sessions b (sessions.feed s b.pending) remaining).1 in
        (b'.preface ≡ b.preface)
        × ((s' : S) × (b'.selected ≡ some s')
            × (fed s' ≡ b.pending ++ remaining)
            × (kind s' ≡ kind s)
            × (b'.pending ≡ []))
  feed_tail-fed b s [] h e = rw (h.answering s b.pending) (
    refl,
    (
      (sessions.feed s b.pending).1,
      refl,
      h.feeding s b.pending ∙ ap (λ xs. xs ++ b.pending) e ∙ sym (append-nil b.pending),
      h.same_kind s b.pending,
      refl,
    ),
  )
  feed_tail-fed b s (byte ∷ bytes) h e =
      let first = (sessions.feed s b.pending).1 in
      rw (h.answering s b.pending) (
        refl,
        (
          (sessions.feed first (byte ∷ bytes)).1,
          refl,
          h.feeding first (byte ∷ bytes)
              ∙ ap (λ xs. xs ++ byte ∷ bytes)
                  (h.feeding s b.pending ∙ ap (λ xs. xs ++ b.pending) e),
          h.same_kind first (byte ∷ bytes) ∙ h.same_kind s b.pending,
          refl,
        ),
      )

  abbrev Fed : List ℕ → List ℕ → Result (ProtocolFeedResult × Bootstrap S) → Type 0
  Fed preface stream (throws failure) = true ≡ false
  Fed preface stream (ok r) = Tracks preface stream r.1

  selected-Fed :
      (preface : List ℕ) (b : Bootstrap S) (factory : Option S) (s : S) (k : Bool)
      (remaining : List ℕ)
      → AreSessions sessions fed kind
      → factory ≡ some s
      → fed s ≡ []
      → kind s ≡ k
      → b.preface ≡ preface
      → decide preface (b.pending ++ remaining) ≡ some k
      → Fed preface (b.pending ++ remaining) (select_and_feed sessions factory b remaining)
  unfolding select_and_feed
  selected-Fed preface b none s k remaining h made empty same e d = ground arith
  selected-Fed preface b (some t) s k remaining h made empty same e d =
      let r = feed_tail-fed b t remaining h (ground (arith, made, empty)) in
      (
        r.0 ∙ e,
        subst
            (Follows (b.pending ++ remaining)
              (feed_tail sessions b (sessions.feed t b.pending) remaining).1)
            (sym d) (r.1.0, r.1.1, r.1.2, r.1.3 ∙ ground (arith, made, same), r.1.4),
      )

  scan-Fed :
      (bytes : List ℕ) (preface : List ℕ) (b : Bootstrap S)
      → AreSessions sessions fed kind
      → b.preface ≡ preface
      → b.selected ≡ none
      → decide preface b.pending ≡ none
      → Fed preface (b.pending ++ bytes) (scan sessions bytes b)
  unfolding scan
  scan-Fed [] preface b h e free d = (
    e,
    subst (Follows (b.pending ++ []) b) (sym (ap (decide preface) (append-nil b.pending) ∙ d))
        (free, sym (append-nil b.pending)),
  )
  scan-Fed (value ∷ bytes) preface b h e free d =
      let pushed : Bootstrap S = record b { pending = b.pending ++ value ∷ [] } in
      let expected = is_expected (get_elem? b.preface (length b.pending)) value in
      let whole = length b.pending + 1 == length b.preface in
      let push = decide-push preface b.pending value d in
      let P = λ (r : Result (ProtocolFeedResult × Bootstrap S)).
        Fed preface (b.pending ++ value ∷ bytes) r in
      let flat = append_assoc b.pending (value ∷ []) bytes in
      let matched = select_and_feed sessions sessions.match_factory pushed bytes in
      let departed = select_and_feed sessions sessions.fallback_factory pushed bytes in
      let rest = scan sessions bytes pushed in
      let decided : (k : Bool)
          → decide preface pushed.pending ≡ some k
          → decide preface (pushed.pending ++ bytes) ≡ some k =
        decide-later preface pushed.pending bytes in
      if_elim P expected (if whole then matched else rest) departed
        (λ y.
          if_elim P whole matched rest
            (λ w.
              subst (λ xs. Fed preface xs matched) flat
                (selected-Fed preface pushed sessions.match_factory h.matching.0 true bytes h
                  h.matching.1 h.matching.2 h.matching.3 e
                  (decided true (ground (arith, push, y, w, e)))))
            (λ n.
              subst (λ xs. Fed preface xs rest) flat
                (scan-Fed bytes preface pushed h e free (ground (arith, push, y, n, e)))))
        (λ n.
          subst (λ xs. Fed preface xs departed) flat
            (selected-Fed preface pushed sessions.fallback_factory h.falling_back.0 false bytes h
              h.falling_back.1 h.falling_back.2 h.falling_back.3 e
              (decided false (ground (arith, push, n, e)))))

  feed-Fed :
      (d : Option Bool) (preface stream bytes : List ℕ) (b : Bootstrap S)
      → AreSessions sessions fed kind
      → decide preface stream ≡ d
      → b.preface ≡ preface
      → Follows stream b d
      → Fed preface (stream ++ bytes) (feed sessions b bytes)
  unfolding feed
  feed-Fed none preface stream bytes b h d e f =
      let scanned =
        subst (λ xs. Fed preface (xs ++ bytes) (scan sessions bytes b)) f.1
          (scan-Fed bytes preface b h e f.0 (ap (decide preface) f.1 ∙ d)) in
      subst (λ o. Fed preface (stream ++ bytes) (feed_selected sessions o b bytes)) (sym f.0)
        scanned
  feed-Fed (some k) preface stream bytes b h d e f =
      subst (λ o. Fed preface (stream ++ bytes) (feed_selected sessions o b bytes)) (sym f.1)
        (
          e,
          subst
              (Follows (stream ++ bytes) (record b { selected = some (sessions.feed f.0 bytes).1 }))
              (sym (decide-later preface stream bytes k d))
              (
                (sessions.feed f.0 bytes).1,
                refl,
                h.feeding f.0 bytes ∙ ap (λ xs. xs ++ bytes) f.2,
                h.same_kind f.0 bytes ∙ f.3,
                f.4,
              ),
        )

  abbrev pub Arrived : List ℕ → List ℕ → Result (Bootstrap S) → Type 0
  Arrived preface stream (throws failure) = true ≡ false
  Arrived preface stream (ok b) = Tracks preface stream b

  feed_all-Arrived :
      (pieces : List (List ℕ)) (preface stream : List ℕ) (b : Bootstrap S)
      → AreSessions sessions fed kind
      → Tracks preface stream b
      → Arrived preface (stream ++ joined pieces) (feed_all sessions b pieces)
  feed_all-Arrived [] preface stream b h t =
      subst (λ xs. Tracks preface xs b) (sym (append-nil stream)) t
  feed_all-Arrived (bytes ∷ pieces) preface stream b h t =
      subst (λ xs. Arrived preface xs (feed_all sessions b (bytes ∷ pieces)))
        (append_assoc stream bytes (joined pieces))
        (piece (feed sessions b bytes)
          (feed-Fed (decide preface stream) preface stream bytes b h refl t.0 t.1)
          (λ b'. feed_all-Arrived pieces preface (stream ++ bytes) b' h))
    where
      piece :
          (r : Result (ProtocolFeedResult × Bootstrap S))
          → Fed preface (stream ++ bytes) r
          → ((b' : Bootstrap S)
              → Tracks preface (stream ++ bytes) b'
              → Arrived preface ((stream ++ bytes) ++ joined pieces) (feed_all sessions b' pieces))
          → Arrived preface
              ((stream ++ bytes) ++ joined pieces)
              (r >>= (λ r. feed_all sessions r.1 pieces))
      piece (throws failure) f k = f
      piece (ok r) f k = k r.1 f

  -- Whatever the pieces in which a stream arrives at a new bootstrap, and for sessions that answer
  -- Ready: while the stream is a proper beginning of the preface, it is all kept and no session is
  -- made; as soon as it begins with the preface, the matching session has been fed the whole stream,
  -- and as soon as it departs from it, the fallback session has; nothing is thrown.
  pub feed_all_lem :
      (preface : List ℕ) (pieces : List (List ℕ)) {b : Bootstrap S}
      → AreSessions sessions fed kind
      → init sessions preface ≡ ok b
      → Arrived preface (joined pieces) (feed_all sessions b pieces)
  unfolding init
  feed_all_lem [] pieces h e = ground (arith, e)
  feed_all_lem (expected ∷ preface) pieces {b} h e =
      feed_all-Arrived pieces (expected ∷ preface) [] b h (
        subst (Tracks (expected ∷ preface) [])
          {x = record { preface = expected ∷ preface; pending = []; selected = none }}
          (ground (arith, e)) (refl, (refl, refl)))
