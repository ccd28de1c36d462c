-- ===== src/Decoders/Lines/Machine.antt =====
-- Laws of `splitlines`: a text in two parts, and a line begun before the text.
use httpx.Prelude.{
  ℕ, ◌≡◌, refl, ap, Bool, true, false, [], ◌∷◌, ◌++◌, if◌then◌else◌, ◌==◌, Str, arith, append_assoc,
  inl, inr, ◌⊎◌,
}
use httpx.Decoders.Lines.{
  cr, is_newline, ended, begun, is_empty, ends_with_cr, ends_with_newline, prefixed, but_last,
}

pub begun-append :
    (cur : Str) (skip : Bool) (t w : Str)
    → begun cur skip (t ++ w) ≡ begun (begun cur skip t).0 (begun cur skip t).1 w
unfolding begun
begun-append cur skip [] w = refl
begun-append cur skip (c ∷ cs) w = ground (
  arith,
  begun-append cur false cs w,
  begun-append [] (c == cr) cs w,
  begun-append (cur ++ c ∷ []) false cs w,
)

pub ended-append :
    (cur : Str) (skip : Bool) (t w : Str)
    → ended cur skip (t ++ w)
      ≡ ended cur skip t ++ ended (begun cur skip t).0 (begun cur skip t).1 w
unfolding ended begun
ended-append cur skip [] w = refl
ended-append cur skip (c ∷ cs) w = ground (
  arith,
  ended-append cur false cs w,
  ended-append [] (c == cr) cs w,
  ended-append (cur ++ c ∷ []) false cs w,
)

-- A line begun before the text goes to the first line that ends in it.
pub ended-prefix :
    (b cur : Str) (skip : Bool) (t : Str) → ended (b ++ cur) skip t ≡ prefixed b (ended cur skip t)
unfolding ended
ended-prefix b cur skip [] = refl
ended-prefix b cur skip (c ∷ cs) = ground (
  arith,
  ended-prefix b cur false cs,
  ended-prefix b (cur ++ c ∷ []) false cs,
  append_assoc b cur (c ∷ []),
)

-- If no line ends, it goes to the line that is begun; else that line is the same.
pub begun-prefix :
    (b cur : Str) (skip : Bool) (t : Str)
    → begun (b ++ cur) skip t ≡ (
      (if is_empty (ended cur skip t) then b ++ (begun cur skip t).0 else (begun cur skip t).0),
      (begun cur skip t).1,
    )
unfolding ended begun
begun-prefix b cur skip [] = refl
begun-prefix b cur skip (c ∷ cs) = ground (
  arith,
  begun-prefix b cur false cs,
  begun-prefix b (cur ++ c ∷ []) false cs,
  append_assoc b cur (c ∷ []),
)

-- The flag is set only at the end of a text that ends in a carriage return.
pub begun-flag :
    (cur : Str) (skip : Bool) (c : ℕ) (cs : Str)
    → ends_with_cr (c ∷ cs) ≡ false
    → (begun cur skip (c ∷ cs)).1 ≡ false
unfolding begun ends_with_cr is_newline
begun-flag cur skip c [] h = ground arith
begun-flag cur skip c (d ∷ cs) h = ground (
  arith,
  begun-flag cur false d cs h,
  begun-flag [] (c == cr) d cs h,
  begun-flag (cur ++ c ∷ []) false d cs h,
)

is_empty-snoc : (cur : Str) (c : ℕ) → is_empty (cur ++ c ∷ []) ≡ false
is_empty-snoc [] c = refl
is_empty-snoc (x ∷ cur) c = refl

-- After a text that is not empty no line is begun exactly when the text ends in a boundary.
pub begun-empty :
    (cur : Str) (skip : Bool) (c : ℕ) (cs : Str)
    → (skip ≡ false) ⊎ (cur ≡ [])
    → is_empty (begun cur skip (c ∷ cs)).0 ≡ ends_with_newline (c ∷ cs)
unfolding begun ends_with_newline is_newline
begun-empty cur skip c [] h = ground (arith, is_empty-snoc cur c)
begun-empty cur skip c (d ∷ cs) h = ground (
  arith,
  begun-empty cur false d cs (inl refl),
  begun-empty [] (c == cr) d cs (inr refl),
  begun-empty (cur ++ c ∷ []) false d cs (inl refl),
)

-- A carriage return at the end is the last character.
pub but_last-cr : (t : Str) → ends_with_cr t ≡ true → t ≡ but_last t ++ cr ∷ []
unfolding ends_with_cr but_last
but_last-cr [] h = cc
but_last-cr (c ∷ []) h = ground arith
but_last-cr (c ∷ d ∷ cs) h = ap (λ x. c ∷ x) (but_last-cr (d ∷ cs) h)

-- A text that is not empty ends a line or begins one.
pub ended-or-begun :
    (cur : Str) (skip : Bool) (c : ℕ) (cs : Str)
    → skip ≡ false
    → is_empty (ended cur skip (c ∷ cs)) ≡ true
    → is_empty (begun cur skip (c ∷ cs)).0 ≡ false
unfolding ended begun
ended-or-begun cur skip c [] h e = ground (arith, is_empty-snoc cur c)
ended-or-begun cur skip c (d ∷ cs) h e =
    ground (arith, ended-or-begun (cur ++ c ∷ []) false d cs refl)
