-- ===== src/Client/Life.antt =====
-- The life of a client and of its transports.
use httpx.Prelude.{ℕ, ◌≡◌, ◌⊎◌, Option, none, some, List, [], ◌∷◌}
use httpx.Client.{ClientState, unopened, opened, closed, Client, close, enter, exit, begin_send}

-- Nothing was called, or one method on each transport of a list, once for each time it stands there.
abbrev pub IsOncePerMount : List ℕ → List ℕ → Type 0
IsOncePerMount ts calls = (calls ≡ []) ⊎ (calls ≡ ts)

-- What was entered and closed in a state.
abbrev pub Fits : ClientState → List ℕ → List ℕ → List ℕ → Type 0
Fits unopened ts entered closes = (entered ≡ []) × (closes ≡ [])
Fits opened ts entered closes = IsOncePerMount ts entered × (closes ≡ [])
Fits closed ts entered closes = IsOncePerMount ts entered × IsOncePerMount ts closes

abbrev pub IsOrderly : List ℕ → Client → Type 0
IsOrderly ts c = (c.transports ≡ ts) × Fits c.state ts c.entered c.closes

-- What a program does with a client.
pub data Call : Type 0 where
  call_enter call_exit call_close call_send : Call

abbrev or_same : Client → Option Client → Client
or_same c none = c
or_same c (some d) = d

unfoldable pub after_call : Call → Client → Client
after_call call_enter c = (enter c).1
after_call call_exit c = exit c
after_call call_close c = close c
after_call call_send c = or_same c (begin_send c)

unfoldable pub run : List Call → Client → Client
unfolding after_call
run [] c = c
run (call ∷ calls) c = run calls (after_call call c)
