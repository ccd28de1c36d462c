-- ===== src/Http2/Permits.antt =====
-- The permits for streams: how many requests may be in flight on an HTTP/2 connection.
use httpx.Prelude.{
  ℕ, zero, suc, ◌+◌, ◌≤◌, ◌<◌, ◌≡◌, true, Option, none, some, [], ◌∷◌, if◌then◌else◌, ltb, arith,
  length, min, inl, inr, Bool-cases,
}
use httpx.Origin.{Origin}
use httpx.Http2.{
  Http2, Events, create, acquire, pass_deficit, open_stream, has_stream, del_stream, give_back,
  settle, response_closed, release_stream, raise_limit, lower_limit, raise_loop, lower_loop,
  receive_remote_settings_change, close,
}

-- Every permit is in the semaphore, with a task or with a stream; what was handed out beyond the
-- limit is the deficit; and the limit with the deficit never passes the local limit.
pub record Inv (c : Http2) : Type 0 where
  pub balance :
      c.permits + c.waking + c.admitted + length c.events ≡ c.max_streams + c.max_streams_deficit
  pub bound : c.max_streams + c.max_streams_deficit ≤ c.local_max_streams

pub create-Inv : (o : Origin) (expiry : Option ℕ) (n : ℕ) → 0 < n → Inv (create o expiry n)
unfolding create
create-Inv o expiry n h = record { balance = omega arith; bound = omega arith }

length-del_stream :
    (id : ℕ) (es : Events) → has_stream id es ≡ true → length (del_stream id es) + 1 ≡ length es
length-del_stream id [] h = cc
length-del_stream id ((j, q) ∷ es) h = ground (arith, length-del_stream id es)

pub acquire-Inv : (c c' : Http2) → acquire c ≡ some c' → Inv c → Inv c'
unfolding acquire
acquire-Inv c c' h v = ground arith

pub pass_deficit-Inv : (c : Http2) → 0 < c.waking → Inv c → Inv (pass_deficit c)
unfolding pass_deficit
pass_deficit-Inv c h v = ground arith

pub open_stream-Inv :
    (id : Option ℕ) (c : Http2) → 0 < c.admitted → Inv c → Inv (open_stream id c).1
unfolding open_stream
open_stream-Inv none c h v = ground arith
open_stream-Inv (some id) c h v = ground arith

settle-Inv : (now : ℕ) (c : Http2) → Inv c → Inv (settle now c)
unfolding settle close
settle-Inv now c v = ground arith

release_stream-Inv : (id : ℕ) (c : Http2) → Inv c → Inv (release_stream id c)
unfolding release_stream give_back
release_stream-Inv id c v = ground (arith, length-del_stream id c.events)

pub response_closed-Inv : (id now : ℕ) (c : Http2) → Inv c → Inv (response_closed id now c)
unfolding response_closed
response_closed-Inv id now c v = settle-Inv now (release_stream id c) (release_stream-Inv id c v)

raise_limit-Inv : (c : Http2) → c.max_streams < c.local_max_streams → Inv c → Inv (raise_limit c)
unfolding raise_limit give_back
raise_limit-Inv c h v = ground arith

lower_limit-Inv : (c : Http2) → 0 < c.max_streams → Inv c → Inv (lower_limit c)
unfolding lower_limit
lower_limit-Inv c h v = ground arith

-- The loops: the local limit is not theirs to change.
raise_loop-Inv :
    (n new : ℕ) (c : Http2) → new ≤ c.local_max_streams → Inv c → Inv (raise_loop n new c)
unfolding raise_loop
raise_loop-Inv zero new c h v = v
raise_loop-Inv (suc n) new c h v = elim (Bool-cases (ltb c.max_streams new)) [
  | inl more ↦ rw more (
      raise_loop-Inv n new (raise_limit c) (unfold raise_limit give_back in ground arith)
        (raise_limit-Inv c (ground arith) v))
  | inr done ↦ rw done v
]

lower_loop-Inv : (n new : ℕ) (c : Http2) → Inv c → Inv (lower_loop n new c)
unfolding lower_loop
lower_loop-Inv zero new c v = v
lower_loop-Inv (suc n) new c v = elim (Bool-cases (ltb new c.max_streams)) [
  | inl more ↦ rw more (lower_loop-Inv n new (lower_limit c) (lower_limit-Inv c (ground arith) v))
  | inr done ↦ rw done v
]

pub settings-Inv :
    (value : Option ℕ) (c : Http2) → Inv c → Inv (receive_remote_settings_change value c)
unfolding receive_remote_settings_change
settings-Inv none c v = v
settings-Inv (some value) c v =
    let new = min value c.local_max_streams in
    ground (
      arith,
      lower_loop-Inv c.max_streams new (raise_loop new new c)
          (raise_loop-Inv new new c (omega arith) v),
    )

-- Enough rounds bring the limit to the value asked for.
max-raise_loop :
    (n new : ℕ) (c : Http2)
    → new ≤ n + c.max_streams
    → (raise_loop n new c).max_streams ≡ (if ltb c.max_streams new then new else c.max_streams)
unfolding raise_loop raise_limit give_back
max-raise_loop zero new c h = ground arith
max-raise_loop (suc n) new c h = ground (arith, max-raise_loop n new (raise_limit c))

max-lower_loop :
    (n new : ℕ) (c : Http2)
    → c.max_streams ≤ n + new
    → (lower_loop n new c).max_streams ≡ (if ltb new c.max_streams then new else c.max_streams)
unfolding lower_loop lower_limit
max-lower_loop zero new c h = ground arith
max-lower_loop (suc n) new c h = ground (arith, max-lower_loop n new (lower_limit c))

-- Settings that name a limit other than 0 make it, or the local limit if that is less, the limit
-- on streams: both loops end there.
pub settings_set_limit :
    (value : ℕ) (c : Http2)
    → 0 < min value c.local_max_streams
    → (receive_remote_settings_change (some value) c).max_streams ≡ min value c.local_max_streams
unfolding receive_remote_settings_change
settings_set_limit value c h =
    let new = min value c.local_max_streams in
    ground (
      arith,
      max-raise_loop new new c (omega arith),
      max-lower_loop c.max_streams new (raise_loop new new c),
    )
