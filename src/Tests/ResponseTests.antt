-- ===== src/Tests/ResponseTests.antt =====
-- Responses and query parameters at concrete inputs.
use mathlib.Core.List.{flatten}
use httpx.Prelude.{
  ◌≡◌, refl, true, false, none, some, List, [], ◌∷◌, Str, codes, str_eq, if◌then◌else◌,
}
use httpx.QueryParams.{
  Primitive, other, boolean, QueryParams, get_list, from_pairs, merge, contains,
}
use httpx.QueryParams.Laws.{values_for, IsDict, get_list-from_pairs, get_list-merge}
use httpx.Response.{ContentDecoder, create, drive, iter_bytes, iter_decoded, read, start_raw, count}
use httpx.Response.Once.{
  Call, call_iter_raw, call_iter_bytes, call_read, call_close, call_start_raw, call_start_bytes,
  call_part, call_leave, IsOnce, run, run-IsOnce,
}
use httpx.Response.Rereading.{iter_bytes-read}

abbrev pairs : List (Str × Primitive)
pairs =
    (codes "a", other (codes "1")) ∷ (codes "b", boolean true) ∷ (codes "a", other (codes "2")) ∷ []

get_list-from_pairs_example : get_list (codes "a") (from_pairs pairs) ≡ values_for (codes "a") pairs
get_list-from_pairs_example = get_list-from_pairs (codes "a") pairs

abbrev given : QueryParams
given = (codes "a", codes "3" ∷ []) ∷ (codes "c", codes "4" ∷ []) ∷ []

given-IsDict : IsDict given
unfolding contains str_eq
given-IsDict = (refl, (refl, tt))

get_list-merge_example : get_list (codes "a") (merge given (from_pairs pairs)) ≡ (
    if contains (codes "a") given
    then get_list (codes "a") given
    else get_list (codes "a") (from_pairs pairs))
get_list-merge_example = get_list-merge (codes "a") given (from_pairs pairs) given-IsDict

-- A decoder that holds the last part back.
abbrev delay : ContentDecoder (List Str)
delay = record {
  start = [];
  decode = λ held part. some (held, part ∷ []);
  flush = λ held. some held;
}

abbrev calls : List Call
calls =
    call_start_bytes
    ∷ call_part (codes "ab")
    ∷ call_start_raw
    ∷ call_read
    ∷ call_leave
    ∷ call_iter_raw none
    ∷ call_iter_bytes (some 2)
    ∷ call_close
    ∷ []

run-IsOnce_example : IsOnce (run delay calls (create (codes "ab" ∷ codes "c" ∷ []) false))
run-IsOnce_example = run-IsOnce delay calls (codes "ab" ∷ codes "c" ∷ []) false

raises_nothing :
    (iter_bytes delay (some 2) (create (codes "ab" ∷ [] ∷ codes "c" ∷ []) false)).0.error ≡ none
unfolding iter_bytes iter_decoded create drive start_raw count
raises_nothing = refl

iter_bytes-read_example :
    ((read delay (create (codes "ab" ∷ [] ∷ codes "c" ∷ []) false)).0 ≡ none)
    × ((iter_bytes delay
          (some 2)
          (read delay (create (codes "ab" ∷ [] ∷ codes "c" ∷ []) false)).1).0
        ≡ (iter_bytes delay (some 2) (create (codes "ab" ∷ [] ∷ codes "c" ∷ []) false)).0)
    × (flatten
          (iter_bytes delay none
            (read delay (create (codes "ab" ∷ [] ∷ codes "c" ∷ []) false)).1).0.chunks
        ≡ flatten
            (iter_bytes delay none (create (codes "ab" ∷ [] ∷ codes "c" ∷ []) false)).0.chunks)
iter_bytes-read_example =
    iter_bytes-read delay (codes "ab" ∷ [] ∷ codes "c" ∷ []) false 1 raises_nothing
