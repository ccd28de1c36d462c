-- ===== src/Proxy/Leak.antt =====
-- A tunnel whose TLS handshake fails, and the pool from then on.
use httpx.Prelude.{
  ℕ, ◌<◌, ◌≡◌, refl, sym, subst, ◌∙◌, true, false, none, some, List, ltb, leb, arith, count, All,
}
use httpx.Origin.{Origin}
use httpx.Http11.{Http11, active}
use httpx.Connection
use httpx.Connection.{Connection, http11, Moment, Options}
use httpx.Pool.{Interface, Pool, assign_requests_to_connections}
use httpx.Pool.Exclusive.{holders}
use httpx.Pool.Retained.{IsInert, inert-IsPassedBy}
use httpx.Pool.Retained.Forever.{Event, spares, run, IsStuck, run-IsStuck}
use httpx.Proxy.{
  Pairs, Tunnel, to_proxy, answered, ensure_tunnel, tunnels, is_available, has_expired, is_idle,
  is_closed, is_connected,
}

-- A connection to a proxy on which a response is open.
abbrev pub IsServing : Connection → Http11 → Type 0
IsServing c h = (c.inner ≡ some (http11 h)) × (h.state ≡ active) × (h.expire_at ≡ none)

module _ (c : Connection) (h : Http11) where
  serving-closed : IsServing c h → Connection.is_closed c ≡ false
  unfolding Connection.is_closed
  serving-closed (i, a, x) = rw (Connection.is_closed, i, a) refl

  serving-connected : IsServing c h → Connection.is_connected c ≡ true
  unfolding Connection.is_connected
  serving-connected (i, a, x) = rw (Connection.is_connected, i, a) refl

  serving-idle : IsServing c h → Connection.is_idle c ≡ false
  unfolding Connection.is_idle
  serving-idle (i, a, x) = rw (Connection.is_idle, i, a) refl

module _ (m : Moment) (c : Connection) (h : Http11) where
  serving-available : IsServing c h → Connection.is_available m c ≡ false
  unfolding Connection.is_available
  serving-available (i, a, x) = rw (Connection.is_available, i, a) refl

  serving-expired : IsServing c h → Connection.has_expired m c ≡ false
  unfolding Connection.has_expired
  serving-expired (i, a, x) = rw (Connection.has_expired, i, x, a) refl

-- The tunnel after the failure.
failed_tunnel :
    (t : Tunnel) (c : Connection) (status local_max : ℕ)
    → t.connected ≡ false
    → leb 200 status ≡ true
    → leb status 299 ≡ true
    → (ensure_tunnel (answered status c) local_max none t).1 ≡ record t { carrier = to_proxy c }
unfolding ensure_tunnel
failed_tunnel t c status local_max n lo hi =
    let low : ltb status 200 ≡ false = ground arith in
    let high : ltb 299 status ≡ false = ground arith in simp (n, low, high)

module _ (opts : Options) (proxy : Origin) (hs : Pairs) (key : ℕ) where
  abbrev pub at : Moment → Interface Tunnel
  at m = tunnels opts proxy hs m

  -- What the pool sees of the tunnel whose handshake failed.
  failed-IsInert :
      (t : Tunnel) (c : Connection) (h : Http11) (m : Moment)
      → IsServing c h
      → IsInert (at m) (record t { carrier = to_proxy c })
  unfolding tunnels is_available has_expired is_idle is_closed is_connected
  failed-IsInert t c h m s = record {
    open' = serving-closed c h s;
    connected = serving-connected c h s;
    alive = serving-expired m c h s;
    busy = serving-idle c h s;
    unavailable = serving-available m c h s;
  }

  -- If the proxy accepts the CONNECT request and the TLS handshake then fails, the pool keeps the
  -- connection for ever. Let the connection be in that state, with the response to the CONNECT
  -- request open, and let no request hold it. Then after any sequence of the pool's sections at any
  -- moments, in which the pool is not closed and nothing outside the passes closes or changes the
  -- connection, it is listed as often as before and in the same state, no request holds it, and a
  -- further pass closes it at no moment.
  pub tls_failure-retained :
      (t : Tunnel) (c : Connection) (h : Http11) (status local_max : ℕ) (p : Pool Tunnel)
      (events : List (Event at key))
      → t.connected ≡ false
      → leb 200 status ≡ true
      → leb status 299 ≡ true
      → IsServing c h
      → p.heap key ≡ (ensure_tunnel (answered status c) local_max none t).1
      → key < p.next
      → holders key p.requests ≡ 0
      → All (λ e. spares at key e ≡ true) events
      → IsStuck key (count key p.connections) (p.heap key) (run at key events p)
        × ((m : Moment)
            → count key (assign_requests_to_connections (at m) (run at key events p)).1 ≡ 0)
  tls_failure-retained t c h status local_max p events n lo hi s e l f sp =
      let same = e ∙ failed_tunnel t c status local_max n lo hi in
      let inert : (m : Moment) → IsInert (at m) (p.heap key) =
        λ m. subst (λ y. IsInert (at m) y) (sym same) (failed-IsInert t c h m s) in
      let v =
        run-IsStuck at key (count key p.connections) (p.heap key) inert events p sp
          (record { listed = refl; same = refl; free = f; known = l }) in
      (
        v,
        λ m.
            (inert-IsPassedBy (at m) (run at key events p) key v.known
              (subst (λ y. IsInert (at m) y) (sym v.same) (inert m))).open',
      )
