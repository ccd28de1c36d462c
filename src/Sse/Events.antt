-- ===== src/Sse/Events.antt =====
-- `_SSEEventDecoder` in httpx2/httpx2/_sse.py. Python's `int` of a text is a parameter, with the
-- class of its results.
pub mod Size
use httpx.Prelude.{
  ℕ, ◌+◌, Bool, true, false, not, Option, none, some, List, [], ◌∷◌, ◌++◌, if◌then◌else◌, ◌==◌, ltb,
  any, Str, codes, str_eq,
}
use httpx.Sse.Lines.{size, is_empty}

-- ServerSentEvent
pub record ServerSentEvent (R : Type 0) : Type 0 where
  pub event : Str
  pub data_text : Str
  pub id : Str
  pub retry : Option R

pub record EventDecoder (R : Type 0) : Type 0 where
  pub event : Str
  pub data_lines : List Str
  pub event_size : ℕ
  pub last_event_id : Str
  pub retry : Option R
  pub pending : Bool

abbrev pub init : {R : Type 0} → EventDecoder R
init = record {
  event = [];
  data_lines = [];
  event_size = 0;
  last_event_id = [];
  retry = none;
  pending = false;
}

pub data Result {ℓ} (A : Type ℓ) : Type ℓ where
  ok : A → Result A
  sse_error : Result A

-- line.partition(":"), less the separator
unfoldable pub partition : Str → Str × Str
partition [] = ([], [])
partition (c ∷ cs) = let rest = partition cs in if c == 58 then ([], cs) else (c ∷ rest.0, rest.1)

-- value[1:] if value.startswith(" ") else value
unfoldable pub strip_space : Str → Str
strip_space [] = []
strip_space (c ∷ cs) = if c == 32 then cs else c ∷ cs

abbrev pub is_comment : Str → Bool
is_comment [] = false
is_comment (c ∷ cs) = c == 58

-- "\n".join(self._data)
unfoldable pub join_lines : List Str → Str
join_lines [] = []
join_lines (l ∷ []) = l
join_lines (l ∷ m ∷ ls) = l ++ 10 ∷ join_lines (m ∷ ls)

-- Whether `_check_size` raises.
unfoldable pub exceeds : {R : Type 0} → Option ℕ → ℕ → EventDecoder R → Bool
exceeds none pending_size d = false
exceeds (some limit) pending_size d = ltb limit (d.event_size + pending_size)

-- An empty line: the event in progress is dispatched.
unfoldable pub dispatch :
    {R : Type 0} → EventDecoder R → Option (ServerSentEvent R) × EventDecoder R
unfolding join_lines
dispatch d = if not d.pending then (none, record d { event_size = 0 }) else (
  some (record {
    event = if is_empty d.event then codes "message" else d.event;
    data_text = join_lines d.data_lines;
    id = d.last_event_id;
    retry = d.retry;
  }),
  record d { event = []; data_lines = []; event_size = 0; retry = none; pending = false },
)

module _ {R : Type 0} (int : Str → Option R) where
  -- What a field does.
  unfoldable pub set_field : Str → Str → EventDecoder R → EventDecoder R
  set_field fieldname value d =
      if str_eq fieldname (codes "event")
      then record d { event = value; pending = true }
      else if str_eq fieldname (codes "data")
      then record d { data_lines = d.data_lines ++ value ∷ []; pending = true }
      else if str_eq fieldname (codes "id")
      then (if not (any (λ c. c == 0) value)
          then record d { last_event_id = value; pending = true }
          else d)
      else if str_eq fieldname (codes "retry")
      then elim (int value) [ none ↦ d | some n ↦ record d { retry = some n; pending = true } ]
      else d

  -- The end of `decode`, on a line that is neither empty nor a comment.
  unfoldable pub read_field :
      Option ℕ → Str → EventDecoder R → Result (Option (ServerSentEvent R)) × EventDecoder R
  unfolding size exceeds partition strip_space set_field
  read_field max_event_size line d =
      let d' = record d { event_size = d.event_size + size line } in
      if exceeds max_event_size 0 d'
      then (sse_error, d')
      else (ok none, set_field (partition line).0 (strip_space (partition line).1) d')

  unfoldable pub decode :
      Option ℕ → Str → EventDecoder R → Result (Option (ServerSentEvent R)) × EventDecoder R
  unfolding dispatch read_field
  decode max_event_size line d =
      if is_empty line
      then (ok (dispatch d).0, (dispatch d).1)
      else if is_comment line
      then (ok none, d)
      else read_field max_event_size line d
