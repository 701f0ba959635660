-- ===== src/Ip/Endpoint.antt =====
-- include/iocoro/ip/impl/endpoint_storage.ipp, address_v4.ipp and address_v6.ipp. What the system's
-- inet_ntop and inet_pton do is a parameter. `none` is the error invalid_argument, the only one of the
-- functions that read strings, and the null pointer of inet_ntop.
pub mod RoundTrip
mod Tests
use iocoro.Base.{
  length, ◌<◌, ℕ, zero, suc, ◌++◌, ◌≡◌, Bool, true, false, not, ◌&&◌, ◌||◌, Option, none, some,
  is_some, List, [], ◌∷◌, ltb, leb, ◌==◌, if◌then◌else◌, All,
}
use iocoro.Ip.Decimal.{Str, from_chars, to_string, below}

-- The addresses as the system has them: 4 and 16 bytes (`IsV4` and `IsV6`).
pub data Ipv4 : Type 0 where
  ipv4 : List ℕ → Ipv4

pub data Ipv6 : Type 0 where
  ipv6 : List ℕ → Ipv6

abbrev pub IsBytes : ℕ → List ℕ → Type 0
IsBytes n bs = (length bs ≡ n) × All (λ b. b < 256) bs

abbrev pub IsV4 : Ipv4 → Type 0
IsV4 (ipv4 bs) = IsBytes 4 bs

abbrev pub IsV6 : Ipv6 → Type 0
IsV6 (ipv6 bs) = IsBytes 16 bs

pub record AddressV6 : Type 0 where
  pub bytes : Ipv6
  pub scope_id : ℕ

pub data Endpoint : Type 0 where
  v4 : Ipv4 → ℕ → Endpoint
  v6 : AddressV6 → ℕ → Endpoint

-- The system's conversions between addresses and strings.
pub record Presentation : Type 0 where
  pub ntop4 : Ipv4 → Option Str
  pub pton4 : Str → Option Ipv4
  pub ntop6 : Ipv6 → Option Str
  pub pton6 : Str → Option Ipv6

abbrev pub colon : ℕ
colon = 58

abbrev pub percent : ℕ
percent = 37

abbrev pub open_bracket : ℕ
open_bracket = 91

abbrev pub close_bracket : ℕ
close_bracket = 93

-- What stands before and after the first, and the last, place of a character.
abbrev cons_first : ℕ → Option (Str × Str) → Option (Str × Str)
cons_first x none = none
cons_first x (some (a, b)) = some (x ∷ a, b)

pub split_first : ℕ → Str → Option (Str × Str)
split_first c [] = none
split_first c (x ∷ xs) =
    let rest = cons_first x (split_first c xs) in if x == c then some ([], xs) else rest

abbrev cons_last : ℕ → ℕ → Str → Option (Str × Str) → Option (Str × Str)
cons_last c x xs (some (a, b)) = some (x ∷ a, b)
cons_last c x xs none = if x == c then some ([], xs) else none

pub split_last : ℕ → Str → Option (Str × Str)
split_last c [] = none
split_last c (x ∷ xs) = cons_last c x xs (split_last c xs)

-- The string that a pointer to the characters stands for: it ends before the first 0.
pub c_str : Str → Str
c_str [] = []
c_str (x ∷ xs) = let rest = c_str xs in if x == 0 then [] else x ∷ rest

pub parse_port : Str → Option ℕ
unfolding from_chars
parse_port s = below 65536 (from_chars s)

-- "0.0.0.0" where inet_ntop fails.
pub v4_text : Option Str → Str
v4_text none = 48 ∷ 46 ∷ 48 ∷ 46 ∷ 48 ∷ 46 ∷ 48 ∷ []
v4_text (some s) = s

-- "::" where inet_ntop fails, and otherwise the text and the scope.
pub v6_text : ℕ → Option Str → Str
v6_text scope none = colon ∷ colon ∷ []
v6_text scope (some s) = if scope == 0 then s else s ++ percent ∷ to_string scope

module _ (p : Presentation) where
  pub v4_to_string : Ipv4 → Str
  unfolding v4_text
  v4_to_string a = v4_text (p.ntop4 a)

  pub v4_from_string : Str → Option Ipv4
  unfolding c_str
  v4_from_string s = p.pton4 (c_str s)

  pub v6_to_string : AddressV6 → Str
  unfolding v6_text
  v6_to_string a = v6_text a.scope_id (p.ntop6 a.bytes)

  abbrev pub with_scope : ℕ → Option Ipv6 → Option AddressV6
  with_scope scope none = none
  with_scope scope (some a) = some (record { bytes = a; scope_id = scope })

  abbrev pub v6_scoped : Str → Option ℕ → Option AddressV6
  v6_scoped part none = none
  v6_scoped part (some scope) = with_scope scope (p.pton6 (c_str part))

  abbrev pub v6_split : Str → Option (Str × Str) → Option AddressV6
  v6_split s none = with_scope 0 (p.pton6 (c_str s))
  v6_split s (some (part, scope)) = v6_scoped part (from_chars scope)

  pub v6_from_string : Str → Option AddressV6
  unfolding c_str split_first from_chars
  v6_from_string s = v6_split s (split_first percent s)

  -- `endpoint_storage::to_string`.
  pub print : Endpoint → Str
  unfolding v4_to_string v6_to_string
  print (v4 a port) = v4_to_string a ++ colon ∷ to_string port
  print (v6 a port) = open_bracket ∷ (v6_to_string a ++ close_bracket ∷ colon ∷ to_string port)

  abbrev pub endpoint_v6 : ℕ → Option AddressV6 → Option Endpoint
  endpoint_v6 port none = none
  endpoint_v6 port (some a) = some (v6 a port)

  abbrev pub endpoint_v4 : ℕ → Option Ipv4 → Option Endpoint
  endpoint_v4 port none = none
  endpoint_v4 port (some a) = some (v4 a port)

  abbrev pub finish_v6 : Str → Option ℕ → Option Endpoint
  finish_v6 host none = none
  finish_v6 host (some port) = endpoint_v6 port (v6_from_string host)

  abbrev pub after_bracket : Option (Str × Str) → Option Endpoint
  after_bracket none = none
  after_bracket (some (host, [])) = none
  after_bracket (some (host, c ∷ port)) =
      let rest = finish_v6 host (parse_port port) in if c == colon then rest else none

  abbrev pub finish_v4 : Str → Option ℕ → Option Endpoint
  finish_v4 host none = none
  finish_v4 host (some port) = endpoint_v4 port (v4_from_string host)

  abbrev pub after_colon : Option (Str × Str) → Option Endpoint
  after_colon none = none
  after_colon (some (host, port)) =
      let rest = finish_v4 host (parse_port port) in
      if is_some (split_first colon host) then none else rest

  -- `endpoint_storage::from_string`.
  pub parse : Str → Option Endpoint
  unfolding split_first split_last parse_port v6_from_string v4_from_string
  parse [] = none
  parse (c ∷ cs) =
      let bracketed = after_bracket (split_first close_bracket cs) in
      let plain = after_colon (split_last colon (c ∷ cs)) in
      if c == open_bracket then bracketed else plain
