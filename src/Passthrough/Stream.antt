-- ===== src/Passthrough/Stream.antt =====
-- One passthrough stream: the goroutine of `handleConnection` in listener.go, and the reasons that
-- passthrough_observer.go gives for its failure. What the tunnel library's `ProxyStreamWithOptions`
-- does is a parameter: its calls on the observer, `AddBytes` and `End` in some order, and the
-- message of its error, if it returns one.
pub mod Outcome
use caddy_bifrost.Base.{
  ℕ, Bool, true, false, Option, none, some, List, [], ◌∷◌, ◌++◌, ◌||◌, if◌then◌else◌,
}
use caddy_bifrost.Text.{Text, text, contains}
use caddy_bifrost.Passthrough.{
  StreamReason, server_unavailable, no_session, session_not_ready, stream_limit, stream_open_failed,
  Resolution, Observation, Lifecycle, Call, end, reject, new_lifecycle, mark_rejected, call, run,
  report,
}

-- `classifyPassthroughStreamReject`.
unfoldable pub classify : Option Text → StreamReason
classify none = stream_open_failed
classify (some message) =
    if contains message (text "bifrost server is not running")
    then server_unavailable
    else if contains message (text "no active session")
    then no_session
    else if contains message (text "session closed before it was ready")
        || contains message (text "session is not ready")
    then session_not_ready
    else if contains message (text "reached stream limit")
    then stream_limit
    else stream_open_failed

-- `if !lifecycle.reject(reason) { lifecycle.end() }`.
reject_or_end : ℕ → Lifecycle → Lifecycle × Option Observation → Lifecycle × List Observation
reject_or_end now l (l', some o) = (l', o ∷ [])
reject_or_end now l (l', none) = call now end l'

-- The calls that follow the return of `ProxyStreamWithObserver`.
unfoldable pub finish_stream : ℕ → Option Text → Lifecycle → Lifecycle × List Observation
unfolding reject_or_end
finish_stream now none l = call now end l
finish_stream now (some message) l =
    reject_or_end now l (mark_rejected now (classify (some message)) l)

-- The goroutine: the observations of one stream.
unfoldable pub stream :
    Bool → Resolution → List (ℕ × Call) → ℕ → Option Text → Lifecycle × List Observation
stream observed resolution proxied now result =
    let (l, during) = run proxied (new_lifecycle observed resolution) in
    let (l', after) = finish_stream now result l in (l', during ++ after)

-- `observePassthroughRejected`.
unfoldable pub observe_rejected : Bool → Resolution → ℕ → StreamReason → List Observation
observe_rejected observed resolution now why =
    (report (mark_rejected now why (new_lifecycle observed resolution))).1
