-- ===== src/WebSocket/Messages.antt =====
-- Messages that arrive in fragments, with pongs between them, and the queue of a session.
use mathlib.Core.List.{map}
use httpx.Prelude.{
  ℕ, ◌+◌, ◌≤◌, ◌≡◌, refl, ap, sym, ◌∙◌, Bool, true, false, some, List, [], ◌∷◌, ◌++◌, if◌then◌else◌,
  ltb, Str, append-nil, append_assoc, All, arith, Option-cases, inl, inr,
}
use httpx.Sse.Lines.{size}
use httpx.WebSocket.{
  Kind, text, binary, Event, message, pong, Item, event, Protocol, Session, put, ack, find_ping,
}
use httpx.WebSocket.Background.{
  message_size, Partial, no_partial, continues, extend, take_message, on_message, handle_event,
  handle_events,
}
use httpx.WebSocket.Bounds.{message_size-append}

-- A fragment, with the payloads of the pongs that come before it.
abbrev pub Fragment : Type 0
Fragment = List Str × Str

-- A message: its type, its first fragment and the others.
abbrev pub Sent : Type 0
Sent = Kind × Fragment × List Fragment

abbrev controls : List Str → List Event → List Event
controls [] rest = rest
controls (p ∷ ps) rest = pong p ∷ controls ps rest

abbrev pub fragments : Kind → Fragment → List Fragment → List Event → List Event
fragments k f [] rest = controls f.0 (message k f.1 true ∷ rest)
fragments k f (g ∷ gs) rest = controls f.0 (message k f.1 false ∷ fragments k g gs rest)

-- The events of some messages.
abbrev pub wire : List Sent → List Event
wire [] = []
wire ((k, f, gs) ∷ ms) = fragments k f gs (wire ms)

abbrev pub content : Fragment → List Fragment → Str
content f [] = f.1
content f (g ∷ gs) = f.1 ++ content g gs

abbrev pub whole : Sent → Item
whole (k, f, gs) = event (message k (content f gs) true)

abbrev pub IsSmall : ℕ → Sent → Type 0
IsSmall limit (k, f, gs) = message_size k (content f gs) ≤ limit

extend_held : (k : Kind) (b t : Str) → extend (some (k, b)) k t ≡ some (b ++ t)
unfolding extend
extend_held text b t = refl
extend_held binary b t = refl

empty_size : (k : Kind) → 0 ≡ message_size k []
unfolding message_size size
empty_size text = refl
empty_size binary = refl

small :
    {limit : ℕ} (k : Kind) (f : Fragment) (gs : List Fragment)
    → message_size k (content f gs) ≤ limit
    → message_size k [] + message_size k (content f gs) ≤ limit
small k f gs h = let e = empty_size k in omega arith

module _ {W : Type 0} (protocol : Protocol W) (fails : Bool → List Str → Bool) (limit : ℕ) where
  handle_events-continues :
      (e : Event) (es : List Event) (part part' : Partial) (s s' : Session W)
      → handle_event protocol fails limit e part s ≡ continues part' s'
      → handle_events protocol fails limit (e ∷ es) part s
        ≡ handle_events protocol fails limit es part' s'
  unfolding handle_events
  handle_events-continues e es part part' s s' h = rw (handle_events, h) refl

  events-ack : (p : Str) (s : Session W) → (ack p s).events ≡ s.events
  unfolding ack
  events-ack p s = elim (Option-cases (find_ping p s.pings)) [
    | inl e ↦ rw (ack, e) refl
    | inr (a, e) ↦ rw (ack, e) refl
  ]

  controls-events :
      (ps : List Str) (es : List Event) (part : Partial) (s : Session W)
      → (s' : Session W) × (handle_events protocol fails limit (controls ps es) part s
          ≡ handle_events protocol fails limit es part s')
        × (s'.events ≡ s.events)
  unfolding handle_event
  controls-events [] es part s = (s, refl, refl)
  controls-events (p ∷ ps) es part s =
      let (s', e, q) = controls-events ps es part (ack p s) in
      (
        s',
        handle_events-continues (pong p) (controls ps es) part part s (ack p s) refl ∙ e,
        q ∙ events-ack p s,
      )

  -- What a message part leaves, after `b` was held.
  message-taken :
      (k : Kind) (b t : Str) (finished : Bool) (part : Partial) (s : Session W)
      → extend part.buffer k t ≡ some (b ++ t)
      → part.filled ≡ message_size k b
      → message_size k b + message_size k t ≤ limit
      → handle_event protocol fails limit (message k t finished) part s ≡ (
          if finished
          then continues no_partial (put (event (message k (b ++ t) true)) s)
          else continues
              (record { buffer = some (k, b ++ t); filled = message_size k b + message_size k t })
              s)
  unfolding handle_event on_message take_message
  message-taken k b t finished part s j m l =
      let fits : ltb limit (part.filled + message_size k t) ≡ false = ground arith in
      rw (fits, take_message, j, m) refl

  -- A message of which `b` is held, and the events after it.
  fragments-events :
      (k : Kind) (b : Str) (f : Fragment) (gs : List Fragment) (es : List Event) (part : Partial)
      (s : Session W)
      → ((t : Str) → extend part.buffer k t ≡ some (b ++ t))
      → part.filled ≡ message_size k b
      → message_size k b + message_size k (content f gs) ≤ limit
      → (s' : Session W) × (handle_events protocol fails limit (fragments k f gs es) part s
          ≡ handle_events protocol fails limit es no_partial s')
        × (s'.events ≡ s.events ++ event (message k (b ++ content f gs) true) ∷ [])
  unfolding put
  fragments-events k b f [] es part s j m l =
      let (s', e, q) = controls-events f.0 (message k f.1 true ∷ es) part s in
      (
        put (event (message k (b ++ f.1) true)) s',
        e
            ∙ handle_events-continues (message k f.1 true) es part no_partial s'
                (put (event (message k (b ++ f.1) true)) s')
                (message-taken k b f.1 true part s' (j f.1) m l),
        ap (λ es'. es' ++ event (message k (b ++ f.1) true) ∷ []) q,
      )
  fragments-events k b f (g ∷ gs) es part s j m l =
      let (s', e, q) = controls-events f.0 (message k f.1 false ∷ fragments k g gs es) part s in
      let a = message_size-append k f.1 (content g gs) in
      let a' = message_size-append k b f.1 in
      let part' : Partial = record {
        buffer = some (k, b ++ f.1);
        filled = message_size k b + message_size k f.1;
      } in
      let (s'', e', q') =
        fragments-events k (b ++ f.1) g gs es part' s' (extend_held k (b ++ f.1)) (sym a')
          (omega arith) in
      (
        s'',
        e
            ∙ (handle_events-continues (message k f.1 false) (fragments k g gs es) part part' s' s'
                  (message-taken k b f.1 false part s' (j f.1) m (omega arith))
                ∙ e'),
        q'
            ∙ (ap (λ es'. es' ++ event (message k ((b ++ f.1) ++ content g gs) true) ∷ []) q
                ∙ ap (λ t. s.events ++ event (message k t true) ∷ [])
                    (append_assoc b f.1 (content g gs))),
      )

  -- Messages that come in any fragments, with any pongs between them, reach the queue whole, once
  -- each and in order, if none is larger than `max_message_size_bytes`; after them nothing is held.
  pub wire-whole :
      (ms : List Sent) (s : Session W)
      → All (IsSmall limit) ms
      → (s' : Session W) × (handle_events protocol fails limit (wire ms) no_partial s
          ≡ continues no_partial s')
        × (s'.events ≡ s.events ++ map whole ms)
  unfolding handle_events
  wire-whole [] s a = (s, refl, sym (append-nil s.events))
  wire-whole ((k, f, gs) ∷ ms) s a =
      let (s', e, q) =
        fragments-events k [] f gs (wire ms) no_partial s (λ t. refl) (empty_size k)
          (small k f gs a.0) in
      let (s'', e', q') = wire-whole ms s' a.1 in
      (
        s'',
        e ∙ e',
        q'
            ∙ (ap (λ es. es ++ map whole ms) q
                ∙ append_assoc s.events (whole (k, f, gs) ∷ []) (map whole ms)),
      )
