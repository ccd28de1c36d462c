-- ===== src/Mounts.antt =====
-- httpx2/httpx2/_utils.py, `URLPattern`, and the choice of a transport in httpx2/httpx2/_client.py.
-- Python's `ipaddress` and `sorted` are not in the repository: networks and addresses are types with
-- what the patterns use of them, and `sorted` is a stable sort by `<`.
pub mod Order
pub mod Sorting
pub mod Specific
pub mod Environment
use httpx.Prelude.{
  ℕ, zero, suc, ◌+◌, ◌-◌, Bool, true, false, not, ◌&&◌, ◌||◌, Option, none, some, List, [], ◌∷◌,
  ◌++◌, if◌then◌else◌, ltb, ◌==◌, Str, codes, str_eq, length, drop,
}
use httpx.Url.Path.{starts_with}

-- What the patterns use of a URL.
pub record Url : Type 0 where
  pub scheme : Str
  pub host : Str
  pub port : Option ℕ

pub record Networks (N A : Type 0) : Type 0 where
  pub ip_address : Str → Option A
  pub contains : N → A → Bool
  pub num_addresses : N → ℕ

-- `host_regex`: absent, or one of the three expressions, each with its domain.
pub data HostRegex : Type 0 where
  any_host : HostRegex
  below domain_or_below exactly : Str → HostRegex

pub record UrlPattern (N : Type 0) : Type 0 where
  pub network : Option N
  pub scheme : Str
  pub host : Str
  pub port : Option ℕ
  pub host_regex : HostRegex

abbrev pub is_empty : Str → Bool
is_empty [] = true
is_empty (c ∷ cs) = false

unfoldable pub host_regex_of : Str → HostRegex
unfolding starts_with
host_regex_of host =
    if is_empty host || str_eq host (codes "*")
    then any_host
    else if starts_with (codes "*.") host
    then below (drop 2 host)
    else if starts_with (codes "*") host
    then domain_or_below (drop 1 host)
    else exactly host

-- `__init__` on the parsed pattern, with the network if it names one.
unfoldable pub pattern_of : {N : Type 0} → Url → Option N → UrlPattern N
unfolding host_regex_of
pattern_of url network = record {
  network = network;
  scheme = if str_eq url.scheme (codes "all") then [] else url.scheme;
  host = if str_eq url.host (codes "*") then [] else url.host;
  port = url.port;
  host_regex = elim network [ some n ↦ any_host | none ↦ host_regex_of url.host ];
}

-- `^.+\.domain$`: at least one character, a dot and the domain.
unfoldable pub is_below : Str → Str → Bool
is_below domain [] = false
is_below domain (c ∷ cs) = str_eq cs (46 ∷ domain) || is_below domain cs

unfoldable pub host_matches : HostRegex → Str → Bool
unfolding is_below
host_matches any_host host = true
host_matches (below domain) host = is_below domain host
host_matches (domain_or_below domain) host = str_eq host domain || is_below domain host
host_matches (exactly domain) host = str_eq host domain

abbrev port_eq : ℕ → Option ℕ → Bool
port_eq p none = false
port_eq p (some q) = p == q

abbrev port_matches : Option ℕ → Option ℕ → Bool
port_matches none q = true
port_matches (some p) q = port_eq p q

module _ {N A : Type 0} (nets : Networks N A) where
  open nets use {ip_address, contains, num_addresses}

  unfoldable pub network_matches : N → Str → Bool
  network_matches n host = elim (ip_address host) [ none ↦ false | some a ↦ contains n a ]

  unfoldable pub matches : UrlPattern N → Url → Bool
  unfolding host_matches network_matches
  matches p url =
      (is_empty p.scheme || str_eq p.scheme url.scheme)
      && (elim p.network [
        | some n ↦ network_matches n url.host
        | none ↦ is_empty p.host || host_matches p.host_regex url.host
      ]
          && port_matches p.port url.port)

-- An entry of a tuple of integers: a number, or one with a minus sign.
pub data Entry : Type 0 where
  up down : ℕ → Entry

unfoldable pub entry_lt : Entry → Entry → Bool
entry_lt (up a) (up b) = ltb a b
entry_lt (down a) (down b) = ltb b a
entry_lt (down a) (up b) = ltb 0 (a + b)
entry_lt (up a) (down b) = false

-- `<` of Python's tuples
unfoldable pub tuple_lt : List Entry → List Entry → Bool
unfolding entry_lt
tuple_lt [] [] = false
tuple_lt [] (b ∷ bs) = true
tuple_lt (a ∷ as') [] = false
tuple_lt (a ∷ as') (b ∷ bs) =
    let rest = tuple_lt as' bs in
    if entry_lt a b then true else if entry_lt b a then false else rest

abbrev absent : Option ℕ → ℕ
absent none = 1
absent (some p) = 0

abbrev host_kind : {N : Type 0} → Option N → Str → ℕ
host_kind (some n) host = 1
host_kind none host = if is_empty host then 2 else 0

abbrev host_length : {N : Type 0} → Option N → Str → ℕ
host_length (some n) host = 0
host_length none host = length host

abbrev addresses : {N : Type 0} → (N → ℕ) → Option N → ℕ
addresses count none = 0
addresses count (some n) = count n

unfoldable pub priority : {N A : Type 0} → Networks N A → UrlPattern N → List Entry
priority nets p =
    up (absent p.port)
    ∷ up (host_kind p.network p.host)
    ∷ up (addresses nets.num_addresses p.network)
    ∷ down (host_length p.network p.host)
    ∷ down (length p.scheme)
    ∷ []

-- `__lt__`
unfoldable pub pattern_lt : {N A : Type 0} → Networks N A → UrlPattern N → UrlPattern N → Bool
unfolding priority tuple_lt
pattern_lt nets p q = tuple_lt (priority nets p) (priority nets q)

-- A stable sort by a test of order.
module _ {M : Type 0} (lt : M → M → Bool) where
  unfoldable pub insert : M → List M → List M
  insert x [] = x ∷ []
  insert x (y ∷ ys) = let rest = insert x ys in if lt y x then y ∷ rest else x ∷ y ∷ ys

  unfoldable pub sort : List M → List M
  unfolding insert
  sort [] = []
  sort (x ∷ xs) = insert x (sort xs)

unfoldable pub first_match : {M : Type 0} → (M → Bool) → List M → Option M
first_match p [] = none
first_match p (x ∷ xs) = let rest = first_match p xs in if p x then some x else rest

-- A mount: a pattern, and the transport for it, or none for the client's own.
abbrev pub Mount : Type 0 → Type 0 → Type 0
Mount N T = UrlPattern N × Option T

abbrev pub mount_lt : {N A T : Type 0} → Networks N A → Mount N T → Mount N T → Bool
mount_lt nets m n = pattern_lt nets m.0 n.0

-- `self._mounts = dict(sorted(self._mounts.items()))`
unfoldable pub sorted_mounts : {N A T : Type 0} → Networks N A → List (Mount N T) → List (Mount N T)
unfolding sort pattern_lt
sorted_mounts nets ms = sort (mount_lt nets) ms

abbrev pub or_default : {T : Type 0} → T → Option T → T
or_default t none = t
or_default t (some u) = u

-- `_transport_for_url`, on the mounts as the client holds them.
unfoldable pub transport_for_url : {N A T : Type 0} → Networks N A → T → List (Mount N T) → Url → T
unfolding first_match matches
transport_for_url nets own ms url = elim (first_match (λ m. matches nets m.0 url) ms) [
  | none ↦ own
  | some m ↦ or_default own m.1
]
