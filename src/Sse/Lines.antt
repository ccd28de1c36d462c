-- ===== src/Sse/Lines.antt =====
-- `_SSELineDecoder` in httpx2/httpx2/_sse.py.
pub mod Machine
pub mod Cuts
use mathlib.Core.List.{flatten}
use httpx.Prelude.{
  ℕ, ◌+◌, Bool, true, false, not, ◌&&◌, List, [], ◌∷◌, ◌++◌, if◌then◌else◌, ◌==◌, ltb, any, Str,
}

abbrev pub cr : ℕ
cr = 13

abbrev pub lf : ℕ
lf = 10

-- len(char.encode("utf-8"))
unfoldable pub char_size : ℕ → ℕ
char_size c = if ltb c 0x80 then 1 else if ltb c 0x800 then 2 else if ltb c 0x10000 then 3 else 4

-- len(text.encode("utf-8"))
unfoldable pub size : Str → ℕ
unfolding char_size
size [] = 0
size (c ∷ cs) = char_size c + size cs

pub record LineDecoder : Type 0 where
  pub parts : List Str
  pub pending_size : ℕ
  pub trailing_cr : Bool

abbrev pub init : LineDecoder
init = record { parts = []; pending_size = 0; trailing_cr = false }

abbrev pub is_empty : Str → Bool
is_empty [] = true
is_empty (c ∷ cs) = false

-- text.endswith("\r")
unfoldable pub ends_with_cr : Str → Bool
ends_with_cr [] = false
ends_with_cr (c ∷ []) = c == cr
ends_with_cr (c ∷ d ∷ cs) = ends_with_cr (d ∷ cs)

-- text[:-1]
unfoldable pub but_last : Str → Str
but_last [] = []
but_last (c ∷ []) = []
but_last (c ∷ d ∷ cs) = c ∷ but_last (d ∷ cs)

-- text.replace("\r\n", "\n")
unfoldable pub replace_crlf : Str → Str
replace_crlf [] = []
replace_crlf (c ∷ []) = c ∷ []
replace_crlf (c ∷ d ∷ cs) =
    let pair = lf ∷ replace_crlf cs in
    let one = c ∷ replace_crlf (d ∷ cs) in if c == cr && d == lf then pair else one

-- text.replace("\r", "\n")
unfoldable pub replace_cr : Str → Str
replace_cr [] = []
replace_cr (c ∷ cs) = (if c == cr then lf else c) ∷ replace_cr cs

abbrev pub cons_first : ℕ → List Str → List Str
cons_first c [] = (c ∷ []) ∷ []
cons_first c (l ∷ ls) = (c ∷ l) ∷ ls

-- text.split("\n")
unfoldable pub split : Str → List Str
split [] = [] ∷ []
split (c ∷ cs) = let rest = split cs in if c == lf then [] ∷ rest else cons_first c rest

-- `_append`
unfoldable pub append : Str → LineDecoder → LineDecoder
unfolding size
append text d =
    if is_empty text
    then d
    else record d { parts = d.parts ++ text ∷ []; pending_size = d.pending_size + size text }

-- `_consume_pending`
unfoldable pub consume_pending : LineDecoder → Str × LineDecoder
unfolding flatten
consume_pending d = (flatten d.parts, record d { parts = []; pending_size = 0 })

-- `lines.pop()` on a line and those after it: what is left, and the last line.
unfoldable pub pop_line : Str → List Str → List Str × Str
pop_line l [] = ([], l)
pop_line l (m ∷ ls) = let rest = pop_line m ls in (l ∷ rest.0, rest.1)

-- The end of `decode`, on the lines of the text: the first gets what is pending, and the last is
-- pending.
unfoldable pub take_lines : List Str → LineDecoder → List Str × LineDecoder
unfolding append consume_pending pop_line
take_lines [] d = ([], d)
take_lines (l ∷ ls) d =
    let (line, d') = consume_pending (append l d) in
    let (lines, last) = pop_line line ls in (lines, append last d')

-- `decode` after the carriage return at the end has been held back.
unfoldable pub decode_text : Str → LineDecoder → List Str × LineDecoder
unfolding replace_crlf replace_cr split append take_lines
decode_text text d =
    let text' = replace_cr (replace_crlf text) in
    if not (any (λ c. c == lf) text') then ([], append text' d) else take_lines (split text') d

unfoldable pub decode : Str → LineDecoder → List Str × LineDecoder
unfolding decode_text ends_with_cr but_last
decode text d =
    let text' = if d.trailing_cr then cr ∷ text else text in
    if ends_with_cr text'
    then decode_text (but_last text') (record d { trailing_cr = true })
    else decode_text text' (record d { trailing_cr = false })

unfoldable pub flush : LineDecoder → List Str × LineDecoder
unfolding append consume_pending split
flush d =
    let d' = if d.trailing_cr then record (append (lf ∷ []) d) { trailing_cr = false } else d in
    let (buffer, d'') = consume_pending d' in
    if is_empty buffer then ([], d'') else (split buffer, d'')

-- `decode` on each part.
unfoldable pub decode_all : LineDecoder → List Str → List Str × LineDecoder
unfolding decode
decode_all d [] = ([], d)
decode_all d (part ∷ parts) =
    let (lines, d') = decode part d in let (rest, d'') = decode_all d' parts in (lines ++ rest, d'')

-- The calls that the parser makes: `decode` on each part, then `flush`.
unfoldable pub lines_of : List Str → List Str
unfolding decode_all flush
lines_of parts = let (lines, d) = decode_all init parts in lines ++ (flush d).0
