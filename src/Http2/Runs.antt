-- ===== src/Http2/Runs.antt =====
-- Everything that changes the permits of an HTTP/2 connection, in any order, by any number of
-- tasks.
use httpx.Prelude.{ℕ, ◌+◌, ◌≤◌, ◌<◌, ◌≡◌, Option, some, arith, length}
use httpx.Origin.{Origin}
use httpx.Http2.{
  Http2, ok, create, begin_request, acquire, pass_deficit, open_stream, response_closed,
  receive_remote_settings_change, close,
}
use httpx.Http2.Permits.{
  Inv, create-Inv, acquire-Inv, pass_deficit-Inv, open_stream-Inv, response_closed-Inv,
  settings-Inv,
}

-- One step of one task, or of the reader of the socket.
pub data Step : Http2 → Http2 → Type 0 where
  begins : (o : Origin) (c c' : Http2) → begin_request o c ≡ ok c' → Step c c'
  acquires : (c c' : Http2) → acquire c ≡ some c' → Step c c'
  passes : (c : Http2) → 0 < c.waking → Step c (pass_deficit c)
  opens : (id : Option ℕ) (c : Http2) → 0 < c.admitted → Step c (open_stream id c).1
  ends : (id now : ℕ) (c : Http2) → Step c (response_closed id now c)
  settings : (value : Option ℕ) (c : Http2) → Step c (receive_remote_settings_change value c)
  closes : (c : Http2) → Step c (close c)

pub data Reach (s : Http2) : Http2 → Type 0 where
  here : Reach s s
  next : {t u : Http2} → Reach s t → Step t u → Reach s u

begin-Inv : (o : Origin) (c c' : Http2) → begin_request o c ≡ ok c' → Inv c → Inv c'
unfolding begin_request
begin-Inv o c c' h v = ground arith

close-Inv : (c : Http2) → Inv c → Inv (close c)
unfolding close
close-Inv c v = record { balance = v.balance; bound = v.bound }

Step-Inv : {t u : Http2} → Step t u → Inv t → Inv u
Step-Inv (begins o c c' h) v = begin-Inv o c c' h v
Step-Inv (acquires c c' h) v = acquire-Inv c c' h v
Step-Inv (passes c h) v = pass_deficit-Inv c h v
Step-Inv (opens id c h) v = open_stream-Inv id c h v
Step-Inv (ends id now c) v = response_closed-Inv id now c v
Step-Inv (settings value c) v = settings-Inv value c v
Step-Inv (closes c) v = close-Inv c v

pub Reach-Inv :
    (o : Origin) (expiry : Option ℕ) (n : ℕ) {c : Http2}
    → 0 < n
    → Reach (create o expiry n) c
    → Inv c
Reach-Inv o expiry n h here = create-Inv o expiry n h
Reach-Inv o expiry n h (next r st) = Step-Inv st (Reach-Inv o expiry n h r)

-- In every reachable state the semaphore holds at most the permits that it was made with, so no
-- release passes its bound, and the open streams are at most the local limit.
pub reachable_bounds :
    (o : Origin) (expiry : Option ℕ) (n : ℕ) {c : Http2}
    → 0 < n
    → Reach (create o expiry n) c
    → (c.permits ≤ c.local_max_streams) × (c.admitted + length c.events ≤ c.local_max_streams)
reachable_bounds o expiry n h r =
    let v = Reach-Inv o expiry n h r in omega (arith, v.balance, v.bound)

-- In a reachable state, a task that passes the test of the deficit is admitted only if the deficit
-- is 0, and then the streams open and about to open are within the current limit.
pub admitted_within_limit :
    (o : Origin) (expiry : Option ℕ) (n : ℕ) {c : Http2}
    → 0 < n
    → Reach (create o expiry n) c
    → 0 < c.waking
    → c.admitted < (pass_deficit c).admitted
    → (c.max_streams_deficit ≡ 0)
      × ((pass_deficit c).admitted + length (pass_deficit c).events ≤ (pass_deficit c).max_streams)
unfolding pass_deficit
admitted_within_limit o expiry n h r w grew =
    let v = Reach-Inv o expiry n h r in ground (arith, v.balance, v.bound)
