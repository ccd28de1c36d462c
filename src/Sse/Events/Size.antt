-- ===== src/Sse/Events/Size.antt =====
-- What an event decoder holds, and its count.
use httpx.Prelude.{
  ℕ, ◌+◌, ◌≤◌, ◌≡◌, refl, Bool, true, false, not, Option, none, some, List, [], ◌∷◌, ◌++◌,
  if◌then◌else◌, ◌==◌, any, Str, codes, str_eq, arith, Bool-cases, inl, inr,
}
use httpx.Sse.Lines.{size, is_empty}
use httpx.Sse.Events.{
  EventDecoder, ServerSentEvent, ok, partition, strip_space, exceeds, dispatch, set_field,
  read_field, decode, is_comment,
}

abbrev pub sizes : List Str → ℕ
sizes [] = 0
sizes (l ∷ ls) = size l + sizes ls

-- The count bounds what is held, and nothing is held when no event is in progress.
pub record Counted {R : Type 0} (d : EventDecoder R) : Type 0 where
  pub held : size d.event + sizes d.data_lines ≤ d.event_size
  pub at_rest : d.pending ≡ false → size d.event + sizes d.data_lines ≡ 0

sizes-append : (a b : List Str) → sizes (a ++ b) ≡ sizes a + sizes b
sizes-append [] b = omega arith
sizes-append (l ∷ a) b = omega (arith, sizes-append a b)

size-partition : (t : Str) → size (partition t).1 ≤ size t
unfolding size partition
size-partition [] = omega arith
size-partition (c ∷ cs) = ground (arith, size-partition cs)

size-strip_space : (t : Str) → size (strip_space t) ≤ size t
unfolding size strip_space
size-strip_space [] = omega arith
size-strip_space (c ∷ cs) = ground arith

dispatch-Counted : {R : Type 0} (d : EventDecoder R) → Counted d → Counted (dispatch d).1
unfolding dispatch size
dispatch-Counted d w = elim (Bool-cases d.pending) [
  | inl h ↦ rw h (record { held = omega arith; at_rest = λ e. refl })
  | inr h ↦
      rw h (record { held = (let z = w.at_rest h in omega arith); at_rest = λ e. w.at_rest h })
]

exceeds_same :
    {R : Type 0} (limit : Option ℕ) (d d' : EventDecoder R)
    → d.event_size ≡ d'.event_size
    → exceeds limit 0 d' ≡ false
    → exceeds limit 0 d ≡ false
unfolding exceeds
exceeds_same none d d' e h = refl
exceeds_same (some m) d d' e h = rw e h

exceeds_rest :
    {R : Type 0} (limit : Option ℕ) (d : EventDecoder R) → exceeds limit 0 (dispatch d).1 ≡ false
unfolding exceeds dispatch
exceeds_rest none d = refl
exceeds_rest (some m) d = ground arith

module _ {R : Type 0} (int : Str → Option R) where
  -- A value no larger than what was added to the count.
  set_field-Counted :
      (name value : Str) (d : EventDecoder R)
      → (n : ℕ) → size d.event + sizes d.data_lines + n ≤ d.event_size
      → (d.pending ≡ false → size d.event + sizes d.data_lines ≡ 0)
      → size value ≤ n
      → Counted (set_field int name value d)
  unfolding set_field size
  set_field-Counted name value d n h r v = elim (Bool-cases (str_eq name (codes "event"))) [
    | inl e ↦ rw e (record { held = omega arith; at_rest = λ p. cc })
    | inr e ↦ rw e (elim (Bool-cases (str_eq name (codes "data"))) [
      | inl e' ↦ rw e' (record {
        held = omega (arith, sizes-append d.data_lines (value ∷ []));
        at_rest = λ p. cc;
      })
      | inr e' ↦ rw e' (elim (Bool-cases (str_eq name (codes "id"))) [
        | inl i ↦ rw i (elim (Bool-cases (any (λ c. c == 0) value)) [
          | inl z ↦ rw z (record { held = omega arith; at_rest = r })
          | inr z ↦ rw z (record { held = omega arith; at_rest = λ p. cc })
        ])
        | inr i ↦ rw i (retry_field)
      ])
    ])
  ]
    where
      read :
          (o : Option R)
          → Counted (elim o [ none ↦ d | some n ↦ record d { retry = some n; pending = true } ])
      read none = record { held = omega arith; at_rest = r }
      read (some n) = record { held = omega arith; at_rest = λ p. cc }

      retry_field : Counted (
          if str_eq name (codes "retry")
          then elim (int value) [ none ↦ d | some n ↦ record d { retry = some n; pending = true } ]
          else d)
      retry_field = elim (Bool-cases (str_eq name (codes "retry"))) [
        | inl e ↦ rw e (read (int value))
        | inr e ↦ rw e (record { held = omega arith; at_rest = r })
      ]

  event_size-set_field :
      (name value : Str) (d : EventDecoder R)
      → (set_field int name value d).event_size ≡ d.event_size
  unfolding set_field
  event_size-set_field name value d =
      branches (str_eq name (codes "event")) (str_eq name (codes "data")) (str_eq name (codes "id"))
        (not (any (λ c. c == 0) value)) (str_eq name (codes "retry")) (int value)
    where
      branches :
          (a b i z r : Bool) (o : Option R)
          → (if a
              then record d { event = value; pending = true }
              else if b
              then record d { data_lines = d.data_lines ++ value ∷ []; pending = true }
              else if i
              then (if z then record d { last_event_id = value; pending = true } else d)
              else if r
              then elim o [ none ↦ d | some n ↦ record d { retry = some n; pending = true } ]
              else d).event_size
            ≡ d.event_size
      branches true b i z r o = refl
      branches false true i z r o = refl
      branches false false true true r o = refl
      branches false false true false r o = refl
      branches false false false z true none = refl
      branches false false false z true (some n) = refl
      branches false false false z false o = refl

  -- A line that the decoder takes leaves what it holds counted, and the count within the limit.
  abbrev pub Within : Option ℕ → EventDecoder R → Type 0
  Within limit d = Counted d × (exceeds limit 0 d ≡ false)

  read_field-Within :
      (limit : Option ℕ) (line : Str) (d : EventDecoder R) (o : Option (ServerSentEvent R))
      → Within limit d
      → (read_field int limit line d).0 ≡ ok o
      → Within limit (read_field int limit line d).1
  unfolding read_field
  read_field-Within limit line d o w e =
      let d' = record d { event_size = d.event_size + size line } in
      elim (Bool-cases (exceeds limit 0 d')) [
        | inl h ↦ ground arith
        | inr h ↦ rw h (
          set_field-Counted (partition line).0 (strip_space (partition line).1) d' (size line)
              (let z = w.0.held in omega arith) w.0.at_rest
              (let a = size-partition line in
                let b = size-strip_space (partition line).1 in omega arith),
          exceeds_same limit (set_field int (partition line).0 (strip_space (partition line).1) d')
              d' (event_size-set_field (partition line).0 (strip_space (partition line).1) d') h,
        )
      ]

  dispatch-Within :
      (limit : Option ℕ) (d : EventDecoder R) → Within limit d → Within limit (dispatch d).1
  dispatch-Within limit d w = (dispatch-Counted d w.0, exceeds_rest limit d)

  pub decode-Within :
      (limit : Option ℕ) (line : Str) (d : EventDecoder R) (o : Option (ServerSentEvent R))
      → Within limit d
      → (decode int limit line d).0 ≡ ok o
      → Within limit (decode int limit line d).1
  unfolding decode
  decode-Within limit line d o w e = elim (Bool-cases (is_empty line)) [
    | inl h ↦ rw h (dispatch-Within limit d w)
    | inr h ↦ elim (Bool-cases (is_comment line)) [
      | inl k ↦ rw (h, k) w
      | inr k ↦ rw (h, k) (read_field-Within limit line d o w (cc))
    ]
  ]
