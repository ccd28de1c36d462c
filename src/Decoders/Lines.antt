-- ===== src/Decoders/Lines.antt =====
-- `LineDecoder` in httpx2/httpx2/_decoders.py: lines of text that comes in parts.
pub mod Machine
pub mod Whole
use mathlib.Core.List.{flatten}
use httpx.Prelude.{
  ℕ, Bool, true, false, not, ◌&&◌, ◌||◌, List, [], ◌∷◌, ◌++◌, if◌then◌else◌, ◌==◌, length, Str,
}

abbrev pub cr : ℕ
cr = 13

abbrev pub lf : ℕ
lf = 10

-- NEWLINE_CHARS, the boundaries of `str.splitlines`.
unfoldable pub is_newline : ℕ → Bool
is_newline c =
    c == 10
    || (c == 13
        || (c == 0x0b
            || (c == 0x0c
                || (c == 0x1c
                    || (c == 0x1d || (c == 0x1e || (c == 0x85 || (c == 0x2028 || c == 0x2029))))))))

-- The lines that end in a text, where `cur` is the line begun before it, and `skip` says that the
-- character before it was a carriage return, so that a line feed belongs to the same boundary.
unfoldable pub ended : Str → Bool → Str → List Str
ended cur skip [] = []
ended cur skip (c ∷ cs) =
    let in_pair = ended cur false cs in
    let at_end = cur ∷ ended [] (c == cr) cs in
    let inside = ended (cur ++ c ∷ []) false cs in
    if skip && c == lf then in_pair else if is_newline c then at_end else inside

-- The line begun and not ended at the end of a text, and the flag.
unfoldable pub begun : Str → Bool → Str → Str × Bool
begun cur skip [] = (cur, skip)
begun cur skip (c ∷ cs) =
    let in_pair = begun cur false cs in
    let at_end = begun [] (c == cr) cs in
    let inside = begun (cur ++ c ∷ []) false cs in
    if skip && c == lf then in_pair else if is_newline c then at_end else inside

abbrev pub is_empty {ℓ} : {A : Type ℓ} → List A → Bool
is_empty [] = true
is_empty (x ∷ xs) = false

abbrev pub unended : Str → List Str
unended cur = if is_empty cur then [] else cur ∷ []

-- `str.splitlines`
unfoldable pub splitlines : Str → List Str
unfolding ended begun
splitlines text = ended [] false text ++ unended (begun [] false text).0

pub record LineDecoder : Type 0 where
  pub buffer : List Str
  pub trailing_cr : Bool

abbrev pub init : LineDecoder
init = record { buffer = []; trailing_cr = false }

-- text.endswith("\r") and text[:-1]
unfoldable pub ends_with_cr : Str → Bool
ends_with_cr [] = false
ends_with_cr (c ∷ []) = c == cr
ends_with_cr (c ∷ d ∷ cs) = ends_with_cr (d ∷ cs)

unfoldable pub but_last {ℓ} : {A : Type ℓ} → List A → List A
but_last [] = []
but_last (c ∷ []) = []
but_last (c ∷ d ∷ cs) = c ∷ but_last (d ∷ cs)

-- text[-1] in NEWLINE_CHARS
unfoldable pub ends_with_newline : Str → Bool
unfolding is_newline
ends_with_newline [] = false
ends_with_newline (c ∷ []) = is_newline c
ends_with_newline (c ∷ d ∷ cs) = ends_with_newline (d ∷ cs)

unfoldable pub last_line : List Str → Str
last_line [] = []
last_line (l ∷ []) = l
last_line (l ∷ m ∷ ls) = last_line (m ∷ ls)

-- lines[0] with the buffer before it, and the other lines.
abbrev pub prefixed : Str → List Str → List Str
prefixed b [] = []
prefixed b (l ∷ ls) = (b ++ l) ∷ ls

-- The end of `decode`, once the lines are split.
unfoldable pub decode_lines : Bool → List Str → LineDecoder → List Str × LineDecoder
unfolding last_line but_last flatten
decode_lines trailing_newline lines d =
    if length lines == 1 && not trailing_newline
    then ([], record d { buffer = d.buffer ++ lines })
    else (let lines' = if is_empty d.buffer then lines else prefixed (flatten d.buffer) lines in
        if trailing_newline
        then (lines', record d { buffer = [] })
        else (but_last lines', record d { buffer = last_line lines' ∷ [] }))

-- `decode` after the carriage return at the end has been put off.
unfoldable pub decode_text : Str → LineDecoder → List Str × LineDecoder
unfolding decode_lines splitlines ends_with_newline
decode_text text d =
    if is_empty text then ([], d) else decode_lines (ends_with_newline text) (splitlines text) d

unfoldable pub decode : Str → LineDecoder → List Str × LineDecoder
unfolding decode_text ends_with_cr but_last
decode text d =
    let text' = if d.trailing_cr then cr ∷ text else text in
    if ends_with_cr text'
    then decode_text (but_last text') (record d { trailing_cr = true })
    else decode_text text' (record d { trailing_cr = false })

unfoldable pub flush : LineDecoder → List Str
unfolding flatten
flush d = if is_empty d.buffer && not d.trailing_cr then [] else flatten d.buffer ∷ []

-- The calls that `iter_lines` makes: `decode` on each part, then `flush`.
unfoldable pub lines_of : LineDecoder → List Str → List Str
unfolding decode flush
lines_of d [] = flush d
lines_of d (part ∷ parts) = let (out, d') = decode part d in out ++ lines_of d' parts
