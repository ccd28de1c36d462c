-- ===== src/WebSocket/Closing.antt =====
-- What closing a session leaves alone, and that it happens once.
use httpx.Prelude.{ℕ, ◌≡◌, refl, ap, sym, ◌∙◌, Bool, true, List, Str, arith, Bool-cases, inl, inr}
use httpx.WebSocket.{Protocol, Session, write, say_close, close}

module _ {W : Type 0} (protocol : Protocol W) (fails : Bool → List Str → Bool) where
  open protocol use {is_closing, send_close}

  pub events-write : (b : Str) (s : Session W) → (write protocol fails b s).1.events ≡ s.events
  unfolding write
  events-write b s = ground arith

  pub should_close-write :
      (b : Str) (s : Session W) → (write protocol fails b s).1.should_close ≡ s.should_close
  unfolding write
  should_close-write b s = ground arith

  connection-write :
      (b : Str) (s : Session W) → (write protocol fails b s).1.connection ≡ s.connection
  unfolding write
  connection-write b s = ground arith

  events-say_close :
      (code : ℕ) (reason : Str) (s : Session W)
      → (say_close protocol fails code reason s).events ≡ s.events
  unfolding say_close
  events-say_close code reason s = elim (Bool-cases (is_closing s.connection)) [
    | inl h ↦ rw h refl
    | inr h ↦
        let (bytes, w) = send_close s.connection code reason in
        rw h (events-write bytes (record s { connection = w }))
  ]

  pub events-close :
      (code : ℕ) (reason : Str) (s : Session W)
      → (close protocol fails code reason s).events ≡ s.events
  unfolding close
  events-close code reason s = events-say_close code reason (record s { should_close = true })

  should_close-say_close :
      (code : ℕ) (reason : Str) (s : Session W)
      → (say_close protocol fails code reason s).should_close ≡ s.should_close
  unfolding say_close
  should_close-say_close code reason s = elim (Bool-cases (is_closing s.connection)) [
    | inl h ↦ rw h refl
    | inr h ↦
        let (bytes, w) = send_close s.connection code reason in
        rw h (should_close-write bytes (record s { connection = w }))
  ]

  pub should_close-close :
      (code : ℕ) (reason : Str) (s : Session W)
      → (close protocol fails code reason s).should_close ≡ true
  unfolding close
  should_close-close code reason s =
      should_close-say_close code reason (record s { should_close = true })

  pub stream_closed-close :
      (code : ℕ) (reason : Str) (s : Session W)
      → (close protocol fails code reason s).stream_closed ≡ true
  unfolding close
  stream_closed-close code reason s = refl

  say_close_done :
      (code : ℕ) (reason : Str) (s : Session W)
      → is_closing s.connection ≡ true
      → say_close protocol fails code reason s ≡ s
  unfolding say_close
  say_close_done code reason s h = rw h refl

  -- After a close, the connection counts as closing, if `wsproto` says so of one that sent a close.
  module _
      (closes : (w : W) (code : ℕ) (reason : Str)
        → is_closing (send_close w code reason).1 ≡ true) where
    close-is_closing :
        (code : ℕ) (reason : Str) (s : Session W)
        → is_closing (close protocol fails code reason s).connection ≡ true
    unfolding close say_close
    close-is_closing code reason s = elim (Bool-cases (is_closing s.connection)) [
      | inl h ↦ rw (h, h) refl
      | inr h ↦
          let (bytes, w) = send_close s.connection code reason in
          rw h (
            ap is_closing
              (connection-write bytes (record s { connection = w; should_close = true }))
            ∙ closes s.connection code reason)
    ]

    -- Closing a session that was closed changes nothing and writes nothing, whatever the code and
    -- the reason, if `wsproto` counts a connection that sent a close as closing.
    pub close-close :
        (code code' : ℕ) (reason reason' : Str) (s : Session W)
        → close protocol fails code' reason' (close protocol fails code reason s)
          ≡ close protocol fails code reason s
    unfolding close
    close-close code code' reason reason' s =
        let s1 = close protocol fails code reason s in
        ap (λ (x : Session W). record x { stream_closed = true })
          (say_close_done code' reason' (record s1 { should_close = true })
            (close-is_closing code reason s))
        ∙ ap {B = Session W} (λ b. record s1 { should_close = b; stream_closed = true })
            (sym (should_close-close code reason s))
