-- ===== src/Decoders/Lines/Whole.antt =====
-- The lines do not depend on the parts that the text came in.
use mathlib.Core.List.{flatten}
use httpx.Prelude.{
  ℕ, ◌≡◌, refl, ap, ap₂, ◌∙◌, sym, Bool, true, false, List, [], ◌∷◌, ◌++◌, if◌then◌else◌, Str,
  arith, append_assoc, append-nil, inl, inr, Bool-cases, length-append,
}
use httpx.Decoders.Lines.{
  cr, is_newline, ended, begun, is_empty, unended, ends_with_cr, prefixed, but_last, last_line,
  splitlines, LineDecoder, init, decode_lines, decode_text, decode, flush, lines_of,
}
use httpx.Decoders.Lines.Machine.{
  begun-append, ended-append, ended-prefix, begun-prefix, begun-flag, begun-empty, but_last-cr,
  ended-or-begun,
}

-- The lines that a line begun makes with the text to come.
abbrev pub lines_from : Str → Str → List Str
lines_from cur w = ended cur false w ++ unended (begun cur false w).0

-- What the decoder has kept, as text.
abbrev kept : LineDecoder → Str
kept d = flatten d.buffer

abbrev held : LineDecoder → Str
held d = if d.trailing_cr then cr ∷ [] else []

-- The buffer holds no empty texts.
abbrev IsTight : LineDecoder → Type 0
IsTight d = is_empty d.buffer ≡ is_empty (kept d)

flatten-append : (xs ys : List Str) → flatten (xs ++ ys) ≡ flatten xs ++ flatten ys
unfolding flatten
flatten-append [] ys = refl
flatten-append (x ∷ xs) ys =
    ap (λ t. x ++ t) (flatten-append xs ys) ∙ sym (append_assoc x (flatten xs) (flatten ys))

-- The text to come does not complete a pair of a carriage return and a line feed.
abbrev Unpaired : Bool → Str → Type 0
Unpaired skip w =
    (cur : Str) → (ended cur skip w ≡ ended cur false w) × (begun cur skip w ≡ begun cur false w)

Unpaired-false : {skip : Bool} (w : Str) → skip ≡ false → Unpaired skip w
Unpaired-false w e cur = rw e (refl, refl)

Unpaired-cr : (skip : Bool) (w : Str) → Unpaired skip (cr ∷ w)
unfolding ended begun
Unpaired-cr true w cur = (refl, refl)
Unpaired-cr false w cur = (refl, refl)

lines_from-append :
    (cur t w : Str)
    → Unpaired (begun cur false t).1 w
    → lines_from cur (t ++ w) ≡ ended cur false t ++ lines_from (begun cur false t).0 w
lines_from-append cur t w h =
    let (e, b) = h (begun cur false t).0 in
    rw (ended-append cur false t w, begun-append cur false t w, e, b)
      (append_assoc (ended cur false t) (ended (begun cur false t).0 false w)
        (unended (begun (begun cur false t).0 false w).0))

-- The same for a line begun before the text.
lines_from-prefix :
    (b t w : Str)
    → Unpaired (begun [] false t).1 w
    → lines_from b (t ++ w)
      ≡ prefixed b (ended [] false t)
        ++ lines_from
            (if is_empty (ended [] false t)
              then b ++ (begun [] false t).0
              else (begun [] false t).0)
            w
lines_from-prefix b t w h =
    let e : b ++ [] ≡ b = append-nil b in
    let flag : (begun b false t).1 ≡ (begun [] false t).1 =
      ap (λ x. (begun x false t).1) (sym e) ∙ ap (λ x. x.1) (begun-prefix b [] false t) in
    lines_from-append b t w (rw flag h)
    ∙ ap₂ (λ x y. x ++ lines_from y w)
        (ap (λ x. ended x false t) (sym e) ∙ ended-prefix b [] false t)
        (ap (λ x. (begun x false t).0) (sym e) ∙ ap (λ x. x.0) (begun-prefix b [] false t))

-- What one call of `decode` gives and keeps stands for the same text as before.
record Continues (w : Str) (d : LineDecoder) (target : List Str) (r : List Str × LineDecoder)
    : Type 0 where
  lines : r.0 ++ lines_from (kept r.1) w ≡ target
  tight : IsTight r.1
  flag : r.1.trailing_cr ≡ d.trailing_cr

but_last-snoc : (l : Str) (ls : List Str) (u : Str) → but_last ((l ∷ ls) ++ u ∷ []) ≡ l ∷ ls
unfolding but_last
but_last-snoc l [] u = refl
but_last-snoc l (m ∷ ls) u = ap (λ t. l ∷ t) (but_last-snoc m ls u)

last_line-snoc : (ls : List Str) (u : Str) → last_line (ls ++ u ∷ []) ≡ u
unfolding last_line
last_line-snoc [] u = refl
last_line-snoc (l ∷ []) u = refl
last_line-snoc (l ∷ m ∷ ls) u = last_line-snoc (m ∷ ls) u

is_empty-append {ℓ} :
    {A : Type ℓ} (xs : List A) (y : A) (ys : List A) → is_empty (xs ++ y ∷ ys) ≡ false
is_empty-append [] y ys = refl
is_empty-append (x ∷ xs) y ys = refl

kept-snoc : (buf : List Str) (u : Str) → flatten (buf ++ u ∷ []) ≡ flatten buf ++ u
unfolding flatten
kept-snoc buf u = flatten-append buf (u ∷ []) ∙ ap (λ t. flatten buf ++ t) (append-nil u)

module _ (buf : List Str) (f : Bool) (w : Str) (t : is_empty buf ≡ is_empty (flatten buf)) where
  abbrev decoder : LineDecoder
  decoder = record { buffer = buf; trailing_cr = f }

  -- No line ends: the text goes to the buffer.
  buffers :
      (x : ℕ) (u : Str)
      → Continues w decoder
          (lines_from (flatten buf ++ x ∷ u) w)
          ([], record { buffer = buf ++ (x ∷ u) ∷ []; trailing_cr = f })
  buffers x u = record {
    lines = rw (kept-snoc buf (x ∷ u));
    tight =
        rw (
          kept-snoc buf (x ∷ u),
          is_empty-append buf (x ∷ u) [],
          is_empty-append (flatten buf) x u,
        );
    flag = refl;
  }

  prefix-lines :
      (l : Str) (ls : List Str)
      → (if is_empty buf then l ∷ ls else prefixed (flatten buf) (l ∷ ls)) ≡ (flatten buf ++ l) ∷ ls
  prefix-lines l ls = ground (arith, empty_prefix (flatten buf))
    where
      empty_prefix : (b : Str) → is_empty b ≡ true → b ++ l ≡ l
      empty_prefix [] h = refl
      empty_prefix (x ∷ b) h = cc

  -- Lines end, and none is begun.
  ends_all :
      (l : Str) (ls : List Str)
      → Continues w decoder
          (prefixed (flatten buf) (l ∷ ls) ++ lines_from [] w)
          (decode_lines true ((l ∷ ls) ++ []) decoder)
  unfolding decode_lines
  ends_all l ls =
      let value : decode_lines true (l ∷ (ls ++ [])) decoder
          ≡ ((flatten buf ++ l) ∷ ls, record { buffer = []; trailing_cr = f }) =
        ground (arith, prefix-lines l (ls ++ []), append-nil ls) in
      rw value (record { lines = refl; tight = unfold flatten in refl; flag = refl })

  -- Lines end, and another is begun.
  ends_some :
      (l : Str) (ls : List Str) (x : ℕ) (u : Str)
      → Continues w decoder
          (prefixed (flatten buf) (l ∷ ls) ++ lines_from (x ∷ u) w)
          (decode_lines false ((l ∷ ls) ++ (x ∷ u) ∷ []) decoder)
  unfolding decode_lines
  ends_some l ls x u =
      let value : decode_lines false (l ∷ (ls ++ (x ∷ u) ∷ [])) decoder
          ≡ ((flatten buf ++ l) ∷ ls, record { buffer = (x ∷ u) ∷ []; trailing_cr = f }) =
        ground (
          arith,
          prefix-lines l (ls ++ (x ∷ u) ∷ []),
          but_last-snoc (flatten buf ++ l) ls (x ∷ u),
          last_line-snoc ((flatten buf ++ l) ∷ ls) (x ∷ u),
          length-append ls ((x ∷ u) ∷ []),
        ) in
      rw value (record { lines = rw (append-nil u); tight = unfold flatten in refl; flag = refl })

  decode_lines-Continues :
      (E : List Str) (u : Str)
      → (is_empty E ≡ true → is_empty u ≡ false)
      → Continues w decoder
          (prefixed (flatten buf) E ++ lines_from (if is_empty E then flatten buf ++ u else u) w)
          (decode_lines (is_empty u) (E ++ unended u) decoder)
  unfolding decode_lines
  decode_lines-Continues [] [] h = absurd (cc (h refl))
  decode_lines-Continues [] (x ∷ u) h = buffers x u
  decode_lines-Continues (l ∷ ls) [] h = ends_all l ls
  decode_lines-Continues (l ∷ ls) (x ∷ u) h = ends_some l ls x u

  decode_text-Continues :
      (text : Str)
      → Unpaired (begun [] false text).1 w
      → Continues w decoder (lines_from (flatten buf) (text ++ w)) (decode_text text decoder)
  unfolding decode_text
  decode_text-Continues [] h = record { lines = refl; tight = t; flag = refl }
  decode_text-Continues (c ∷ cs) h =
      rw (lines_from-prefix (flatten buf) (c ∷ cs) w h, ← begun-empty [] false c cs (inl refl))
        (decode_lines-Continues (ended [] false (c ∷ cs)) (begun [] false (c ∷ cs)).0
          (ended-or-begun [] false c cs refl))

unended_flag : (t : Str) → ends_with_cr t ≡ false → (begun [] false t).1 ≡ false
unfolding begun
unended_flag [] h = refl
unended_flag (c ∷ cs) h = begun-flag [] false c cs h

module _ (d : LineDecoder) (w text : Str) (t : IsTight d) where
  -- One call of `decode`, whatever text `w` follows.
  record Decodes (r : List Str × LineDecoder) : Type 0 where
    lines :
        r.0 ++ lines_from (kept r.1) (held r.1 ++ w) ≡ lines_from (kept d) (held d ++ (text ++ w))
    tight : IsTight r.1

  joined : Str
  joined = if d.trailing_cr then cr ∷ text else text

  joined_lem : joined ++ w ≡ held d ++ (text ++ w)
  unfolding joined
  joined_lem = ground arith

  -- A carriage return at the end is put off.
  puts_off :
      ends_with_cr joined ≡ true
      → Decodes (decode_text (but_last joined) (record d { trailing_cr = true }))
  puts_off h =
      let s = decode_text-Continues d.buffer true (cr ∷ w) t (but_last joined) (Unpaired-cr _ w) in
      let text_back : but_last joined ++ cr ∷ w ≡ held d ++ (text ++ w) =
        sym (append_assoc (but_last joined) (cr ∷ []) w)
        ∙ ap (λ t. t ++ w) (sym (but_last-cr joined h))
        ∙ joined_lem in
      record { lines = rw s.flag (s.lines ∙ ap (lines_from (kept d)) text_back); tight = s.tight }

  takes :
      ends_with_cr joined ≡ false → Decodes (decode_text joined (record d { trailing_cr = false }))
  takes h =
      let s =
        decode_text-Continues d.buffer false w t joined
          (Unpaired-false w (unended_flag joined h)) in
      record { lines = rw s.flag (s.lines ∙ ap (lines_from (kept d)) joined_lem); tight = s.tight }

  decode-Decodes : Decodes (decode text d)
  unfolding decode joined
  decode-Decodes = elim (Bool-cases (ends_with_cr joined)) [
    | inl h ↦ rw h (puts_off h)
    | inr h ↦ rw h (takes h)
  ]

flush-lines :
    (buf : List Str) (f : Bool)
    → is_empty buf ≡ is_empty (flatten buf)
    → flush (record { buffer = buf; trailing_cr = f })
      ≡ lines_from (flatten buf) (if f then cr ∷ [] else [])
unfolding flush ended begun is_newline
flush-lines buf true t = ground arith
flush-lines buf false t = ground (arith, t)

lines_of-from :
    (parts : List Str) (d : LineDecoder)
    → IsTight d
    → lines_of d parts ≡ lines_from (kept d) (held d ++ flatten parts)
unfolding lines_of flatten
lines_of-from [] d t =
    flush-lines d.buffer d.trailing_cr t ∙ ap (lines_from (kept d)) (sym (append-nil (held d)))
lines_of-from (part ∷ parts) d t =
    let s = decode-Decodes d (flatten parts) part t in
    rw (lines_of-from parts (decode part d).1 s.tight) s.lines

-- The lines of a text that comes in parts are the lines of the whole text, wherever it is cut, also
-- between a carriage return and a line feed.
pub lines_of-splitlines : (parts : List Str) → lines_of init parts ≡ splitlines (flatten parts)
unfolding splitlines flatten
lines_of-splitlines parts = lines_of-from parts init refl
