-- ===== src/WebSocket/Bounds.antt =====
-- No message in the queue of a session is larger than the limit.
use httpx.Prelude.{
  ℕ, ◌+◌, ◌≤◌, ◌≡◌, refl, sym, subst, Bool, true, false, Option, none, some, List, [], ◌∷◌, ◌++◌,
  if◌then◌else◌, ltb, Str, codes, length-append, All, arith, Bool-cases, inl, inr, ◌⊎◌,
}
use httpx.Sse.Parser.Bounds.{size-append}
use httpx.WebSocket.{
  Kind, text, binary, Event, message, ping, pong, close_connection, other, disconnect,
  network_error, Item, event, failure, Protocol, Session, internal_error, message_too_big, create,
  put, ack, find_ping, del_ping, write, close,
}
use httpx.WebSocket.Background.{
  message_size, Partial, no_partial, Flow, continues, breaks, stream_error, crashes, extend,
  take_message, on_message, on_ping, handle_event, handle_events, Read, chunk, read_error,
  closed_meanwhile, Thread, waiting, stopped, crashed, fail_stream, background_receive,
}
use httpx.WebSocket.Closing.{events-write, events-close, should_close-close}

abbrev pub FitsLimit : ℕ → Item → Type 0
FitsLimit limit (event (message k t f)) = message_size k t ≤ limit
FitsLimit limit (event (ping p)) = Unit
FitsLimit limit (event (pong p)) = Unit
FitsLimit limit (event (close_connection c r)) = Unit
FitsLimit limit (event (other n)) = Unit
FitsLimit limit (failure r) = Unit

-- The count of a partial message is the size of what is held of it.
abbrev Measured : Option (Kind × Str) → ℕ → Type 0
Measured none n = n ≡ 0
Measured (some (k, b)) n = message_size k b ≡ n

pub message_size-append :
    (k : Kind) (b t : Str) → message_size k (b ++ t) ≡ message_size k b + message_size k t
unfolding message_size
message_size-append text b t = size-append b t
message_size-append binary b t = length-append b t

All-snoc : (P : Item → Type 0) (xs : List Item) (x : Item) → All P xs → P x → All P (xs ++ x ∷ [])
All-snoc P [] x a p = (p, tt)
All-snoc P (y ∷ xs) x a p = (a.0, All-snoc P xs x a.1 p)

extend-size :
    (o : Option (Kind × Str)) (k : Kind) (t full : Str) (n : ℕ)
    → Measured o n
    → extend o k t ≡ some full
    → message_size k full ≡ n + message_size k t
unfolding extend
extend-size none k t full n m e = let same : t ≡ full = cc in rw (sym same, m) (omega arith)
extend-size (some (text, b)) text t full n m e =
    let same : b ++ t ≡ full = cc in rw (sym same, sym m) (message_size-append text b t)
extend-size (some (text, b)) binary t full n m e = cc
extend-size (some (binary, b)) binary t full n m e =
    let same : b ++ t ≡ full = cc in rw (sym same, sym m) (message_size-append binary b t)
extend-size (some (binary, b)) text t full n m e = cc

module _ {W : Type 0} (limit : ℕ) where
  abbrev pub Fits : Session W → Type 0
  Fits s = All (FitsLimit limit) s.events

  abbrev FlowFits : Flow W → Type 0
  FlowFits (continues part s) = Measured part.buffer part.filled × Fits s
  FlowFits (breaks part s) = (s.should_close ≡ true) × Fits s
  FlowFits (stream_error s) = Fits s
  FlowFits (crashes s) = Fits s

  take_message-FlowFits :
      (k : Kind) (t : Str) (finished : Bool) (part : Partial) (s : Session W)
      → part.filled + message_size k t ≤ limit
      → Measured part.buffer part.filled
      → Fits s
      → FlowFits (take_message k t finished (part.filled + message_size k t) part s)
  unfolding take_message put
  take_message-FlowFits k t finished part s l m f =
      taken (extend part.buffer k t) finished (extend-size part.buffer k t)
    where
      taken :
          (o : Option Str) (finished : Bool)
          → ((full : Str) (n : ℕ)
              → Measured part.buffer n
              → o ≡ some full
              → message_size k full ≡ n + message_size k t)
          → FlowFits (elim o [
            | none ↦ crashes s
            | some full ↦
                if finished
                then continues no_partial (put (event (message k full true)) s)
                else continues
                    (record { buffer = some (k, full); filled = part.filled + message_size k t })
                    s
          ])
      taken none finished e = f
      taken (some full) true e = (
        refl,
        All-snoc (FitsLimit limit) s.events (event (message k full true)) f
            (rw (e full part.filled m refl) l),
      )
      taken (some full) false e = (e full part.filled m refl, f)

  put-Fits : (i : Item) (s : Session W) → Fits s → FitsLimit limit i → Fits (put i s)
  unfolding put
  put-Fits i s f g = All-snoc (FitsLimit limit) s.events i f g

  ack-Fits : (p : Str) (s : Session W) → Fits s → Fits (ack p s)
  unfolding ack
  ack-Fits p s f = acked (find_ping p s.pings)
    where
      acked :
          (o : Option ℕ)
          → Fits (elim o [
            | none ↦ s
            | some e ↦ record s { pings = del_ping p s.pings; acknowledged = e ∷ s.acknowledged }
          ])
      acked none = f
      acked (some e) = f

module _ {W : Type 0} (protocol : Protocol W) (fails : Bool → List Str → Bool) (limit : ℕ) where
  same-Fits : (s s' : Session W) → s'.events ≡ s.events → Fits limit s → Fits limit s'
  same-Fits s s' e f = subst (λ es. All (FitsLimit limit) es) (sym e) f

  close-Fits :
      (code : ℕ) (reason : Str) (s : Session W)
      → Fits limit s
      → Fits limit (close protocol fails code reason s)
  close-Fits code reason s f =
      same-Fits s (close protocol fails code reason s) (events-close protocol fails code reason s) f

  on_message-FlowFits :
      (k : Kind) (t : Str) (finished : Bool) (part : Partial) (s : Session W)
      → Measured part.buffer part.filled
      → Fits limit s
      → FlowFits limit (on_message protocol fails limit k t finished part s)
  unfolding on_message put
  on_message-FlowFits k t finished part s m f =
      elim (Bool-cases (ltb limit (part.filled + message_size k t))) [
        | inl h ↦ rw h (
          should_close-close protocol fails message_too_big (codes "Message too big") s,
          put-Fits limit (failure (disconnect message_too_big (codes "Message too big")))
              (close protocol fails message_too_big (codes "Message too big") s)
              (close-Fits message_too_big (codes "Message too big") s f) tt,
        )
        | inr h ↦ rw h (take_message-FlowFits limit k t finished part s (ground arith) m f)
      ]

  on_ping-FlowFits :
      (payload : Str) (part : Partial) (s : Session W)
      → Measured part.buffer part.filled
      → Fits limit s
      → FlowFits limit (on_ping protocol fails limit payload part s)
  unfolding on_ping
  on_ping-FlowFits payload part s m f = answered (protocol.send s.connection (pong payload))
    where
      wrote : (b : Str) (s' : Session W) → Fits limit s' → Fits limit (write protocol fails b s').1
      wrote b s' g = same-Fits s' (write protocol fails b s').1 (events-write protocol fails b s') g

      done :
          (b : Bool) (s' : Session W)
          → Fits limit s'
          → FlowFits limit (if b then continues part s' else stream_error s')
      done true s' g = (m, g)
      done false s' g = g

      answered :
          (o : Option (Str × W))
          → FlowFits limit (elim o [
            | none ↦ crashes s
            | some (bytes, w) ↦
                let (d, s') = write protocol fails bytes (record s { connection = w }) in
                if d then continues part s' else stream_error s'
          ])
      answered none = f
      answered (some (bytes, w)) =
          let r = write protocol fails bytes (record s { connection = w }) in
          done r.0 r.1 (wrote bytes (record s { connection = w }) f)

  handle_event-FlowFits :
      (e : Event) (part : Partial) (s : Session W)
      → Measured part.buffer part.filled
      → Fits limit s
      → FlowFits limit (handle_event protocol fails limit e part s)
  unfolding handle_event
  handle_event-FlowFits (message k t finished) part s m f =
      on_message-FlowFits k t finished part s m f
  handle_event-FlowFits (ping p) part s m f = on_ping-FlowFits p part s m f
  handle_event-FlowFits (pong p) part s m f = (m, ack-Fits limit p s f)
  handle_event-FlowFits (close_connection c r) part s m f =
      (m, put-Fits limit (event (close_connection c r)) (record s { should_close = true }) f tt)
  handle_event-FlowFits (other n) part s m f = (m, put-Fits limit (event (other n)) s f tt)

  handle_events-FlowFits :
      (es : List Event) (part : Partial) (s : Session W)
      → Measured part.buffer part.filled
      → Fits limit s
      → FlowFits limit (handle_events protocol fails limit es part s)
  unfolding handle_events
  handle_events-FlowFits [] part s m f = (m, f)
  handle_events-FlowFits (e ∷ es) part s m f =
      onward (handle_event protocol fails limit e part s) (handle_event-FlowFits e part s m f)
        (λ part' s' m' f'. handle_events-FlowFits es part' s' m' f')
    where
      onward :
          (r : Flow W)
          → FlowFits limit r
          → ((part' : Partial) (s' : Session W)
              → Measured part'.buffer part'.filled
              → Fits limit s'
              → FlowFits limit (handle_events protocol fails limit es part' s'))
          → FlowFits limit (elim r [
            | continues part' s' ↦ handle_events protocol fails limit es part' s'
            | breaks part' s' ↦ breaks part' s'
            | stream_error s' ↦ stream_error s'
            | crashes s' ↦ crashes s'
          ])
      onward (continues part' s') g later = later part' s' g.0 g.1
      onward (breaks part' s') g later = g
      onward (stream_error s') g later = g
      onward (crashes s') g later = g

  -- How the thread may stand: whatever is in the queue is within the limit, and if the thread
  -- returned, the session is closing. Of a thread that an exception ended, only the first is said.
  abbrev pub ThreadFits : Thread W → Type 0
  ThreadFits (waiting part s) = Fits limit s
  ThreadFits (stopped s) = (s.should_close ≡ true) × Fits limit s
  ThreadFits (crashed s) = Fits limit s

  fail_stream-ThreadFits :
      (s : Session W) → Fits limit s → ThreadFits (stopped (fail_stream protocol fails limit s))
  unfolding fail_stream put
  fail_stream-ThreadFits s f = (
    should_close-close protocol fails internal_error (codes "Stream error") s,
    put-Fits limit (failure network_error)
        (close protocol fails internal_error (codes "Stream error") s)
        (close-Fits internal_error (codes "Stream error") s f) tt,
  )

  unless_closing :
      (b : Bool) (s : Session W) (rest : Thread W)
      → s.should_close ≡ b
      → Fits limit s
      → (b ≡ false → ThreadFits rest)
      → ThreadFits (if b then stopped s else rest)
  unless_closing true s rest h f later = (h, f)
  unless_closing false s rest h f later = later refl

  background_receive-from :
      (rs : List Read) (part : Partial) (s : Session W)
      → (s.should_close ≡ true) ⊎ Measured part.buffer part.filled
      → Fits limit s
      → ThreadFits (background_receive protocol fails limit rs part s)
  unfolding background_receive
  background_receive-from [] part s m f =
      unless_closing s.should_close s (waiting part s) refl f (λ h. f)
  background_receive-from (r ∷ rs) part s m f =
      unless_closing s.should_close s (read_one r) refl f
        (λ h. reads r (measured m h) (λ part' s' m' f'. background_receive-from rs part' s' m' f'))
    where
      measured :
          (s.should_close ≡ true) ⊎ Measured part.buffer part.filled
          → s.should_close ≡ false
          → Measured part.buffer part.filled
      measured (inl a) b = cc
      measured (inr a) b = a

      Later : Type 0
      Later =
          (part' : Partial) (s' : Session W)
          → (s'.should_close ≡ true) ⊎ Measured part'.buffer part'.filled
          → Fits limit s'
          → ThreadFits (background_receive protocol fails limit rs part' s')

      onward :
          (r' : Flow W)
          → FlowFits limit r'
          → Later
          → ThreadFits (elim r' [
            | continues part' s' ↦ background_receive protocol fails limit rs part' s'
            | breaks part' s' ↦ background_receive protocol fails limit rs part' s'
            | stream_error s' ↦ stopped (fail_stream protocol fails limit s')
            | crashes s' ↦ crashed s'
          ])
      onward (continues part' s') g later = later part' s' (inr g.0) g.1
      onward (breaks part' s') g later = later part' s' (inl g.0) g.1
      onward (stream_error s') g later = fail_stream-ThreadFits s' g
      onward (crashes s') g later = g

      read_one : Read → Thread W
      read_one r' = elim r' [
        | closed_meanwhile ↦ stopped (record s { should_close = true })
        | read_error ↦ stopped (fail_stream protocol fails limit s)
        | chunk [] ↦ stopped (fail_stream protocol fails limit s)
        | chunk (b ∷ bs) ↦
            let (es, w) = protocol.receive_data s.connection (b ∷ bs) in
            elim (handle_events protocol fails limit es part (record s { connection = w })) [
              | continues part' s' ↦ background_receive protocol fails limit rs part' s'
              | breaks part' s' ↦ background_receive protocol fails limit rs part' s'
              | stream_error s' ↦ stopped (fail_stream protocol fails limit s')
              | crashes s' ↦ crashed s'
            ]
      ]

      reads : (r' : Read) → Measured part.buffer part.filled → Later → ThreadFits (read_one r')
      reads closed_meanwhile m' later = (refl, f)
      reads read_error m' later = fail_stream-ThreadFits s f
      reads (chunk []) m' later = fail_stream-ThreadFits s f
      reads (chunk (b ∷ bs)) m' later =
          let (es, w) = protocol.receive_data s.connection (b ∷ bs) in
          onward (handle_events protocol fails limit es part (record s { connection = w }))
            (handle_events-FlowFits es part (record s { connection = w }) m' f) later

  -- Whatever the socket and `wsproto` give, and whatever writes fail: every message that the
  -- receiving thread of a new session puts in the queue is within `max_message_size_bytes`, also if
  -- an exception ends the thread; and if the thread has returned from its function, and was not
  -- ended by an exception, the session is closing.
  pub background_receive-ThreadFits :
      (rs : List Read) (w : W)
      → ThreadFits (background_receive protocol fails limit rs no_partial (create w))
  unfolding create
  background_receive-ThreadFits rs w =
      background_receive-from rs no_partial (create w) (inr refl) tt
