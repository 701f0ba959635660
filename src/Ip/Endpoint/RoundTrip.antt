-- ===== src/Ip/Endpoint/RoundTrip.antt =====
-- Printing an endpoint and reading it back, in include/iocoro/ip/impl/endpoint_storage.ipp.
use iocoro.Base.{
  ℕ, ◌<◌, ◌++◌, ◌≡◌, refl, ap, sym, ◌∙◌, Bool, true, false, ◌&&◌, ◌||◌, none, some, [], ◌∷◌, leb,
  ◌==◌, if◌then◌else◌, All, arith, Bool-cases, inl, inr, eqb→eq,
}
use iocoro.Ip.Decimal.{Str, is_digit, to_string, to_string-IsNumeric, from_chars-to_string}
use iocoro.Ip.Endpoint.{
  Ipv4, Ipv6, AddressV6, Endpoint, v4, v6, Presentation, colon, percent, open_bracket,
  close_bracket, split_first, split_last, c_str, parse_port, v4_to_string, v4_from_string,
  v6_to_string, v6_from_string, print, after_colon, parse, v4_text, v6_text, IsV4, IsV6,
  after_bracket,
}

-- The characters of a printed IPv4 address are digits and dots; those of a printed IPv6 address are
-- hexadecimal digits, colons and dots.
abbrev pub is_v4_char : ℕ → Bool
is_v4_char c = is_digit c || c == 46

abbrev pub is_v6_char : ℕ → Bool
is_v6_char c = (is_digit c || c == 46) || (c == colon || (leb 97 c && leb c 102))

-- What is documented of inet_ntop and inet_pton: an address of 4, or 16, bytes is written with these
-- characters, and what is written is read as the address.
pub record Documented (p : Presentation) : Type 0 where
  pub writes4 :
      (a : Ipv4)
      → IsV4 a
      → (s : Str) × ((p.ntop4 a ≡ some s) × (p.pton4 s ≡ some a) × All (λ c. is_v4_char c ≡ true) s)
  pub writes6 :
      (a : Ipv6)
      → IsV6 a
      → (s : Str) × ((p.ntop6 a ≡ some s) × (p.pton6 s ≡ some a) × All (λ c. is_v6_char c ≡ true) s)

abbrev pub Avoids : ℕ → Str → Type 0
Avoids c s = All (λ x. (x == c) ≡ false) s

pub All-map : {P Q : ℕ → Type 0} → ((x : ℕ) → P x → Q x) → (s : Str) → All P s → All Q s
All-map f [] h = tt
All-map f (x ∷ xs) (h, hs) = (f x h, All-map f xs hs)

pub All-append : (P : ℕ → Type 0) (s t : Str) → All P s → All P t → All P (s ++ t)
All-append P [] t h k = k
All-append P (x ∷ xs) t (h, hs) k = (h, All-append P xs t hs k)

split_first-none : (c : ℕ) (s : Str) → Avoids c s → split_first c s ≡ none
unfolding split_first
split_first-none c [] h = refl
split_first-none c (x ∷ xs) (h, hs) = rw (h, split_first-none c xs hs) refl

self : (c : ℕ) → (c == c) ≡ true
self c = ground arith

pub split_first-here : (c : ℕ) (s t : Str) → Avoids c s → split_first c (s ++ c ∷ t) ≡ some (s, t)
unfolding split_first
split_first-here c [] t h = rw (self c) refl
split_first-here c (x ∷ xs) t (h, hs) = rw (h, split_first-here c xs t hs) refl

split_last-none : (c : ℕ) (s : Str) → Avoids c s → split_last c s ≡ none
unfolding split_last
split_last-none c [] h = refl
split_last-none c (x ∷ xs) (h, hs) = rw (split_last-none c xs hs, h) refl

split_last-here : (c : ℕ) (s t : Str) → Avoids c t → split_last c (s ++ c ∷ t) ≡ some (s, t)
unfolding split_last
split_last-here c [] t h = rw (split_last-none c t h, self c) refl
split_last-here c (x ∷ xs) t h = rw (split_last-here c xs t h) refl

c_str-whole : (s : Str) → Avoids 0 s → c_str s ≡ s
unfolding c_str
c_str-whole [] h = refl
c_str-whole (x ∷ xs) (h, hs) = rw (h, c_str-whole xs hs) refl

pub numeric-Avoids : (c : ℕ) → is_digit c ≡ false → (n : ℕ) → Avoids c (to_string n)
numeric-Avoids c e n = All-map (λ x h. other x h) (to_string n) (to_string-IsNumeric n)
  where
    other : (x : ℕ) → is_digit x ≡ true → (x == c) ≡ false
    other x h = ground arith

parse_port-to_string : (n : ℕ) → n < 65536 → parse_port (to_string n) ≡ some n
unfolding parse_port
parse_port-to_string n h = rw (from_chars-to_string n (omega (arith, h))) (ground arith)

v4-Avoids :
    (c : ℕ) → is_v4_char c ≡ false → (s : Str) → All (λ x. is_v4_char x ≡ true) s → Avoids c s
v4-Avoids c e s h = All-map other s h
  where
    other : (x : ℕ) → is_v4_char x ≡ true → (x == c) ≡ false
    other x h = ground arith

v6-Avoids :
    (c : ℕ) → is_v6_char c ≡ false → (s : Str) → All (λ x. is_v6_char x ≡ true) s → Avoids c s
v6-Avoids c e s h = All-map other s h
  where
    other : (x : ℕ) → is_v6_char x ≡ true → (x == c) ≡ false
    other x h = ground arith

-- Addresses have 4 or 16 bytes, ports have 16 bits, and scopes 32.
abbrev pub InRange : Endpoint → Type 0
InRange (v4 a port) = IsV4 a × (port < 65536)
InRange (v6 a port) = IsV6 a.bytes × (a.scope_id < 4294967296) × (port < 65536)

v6_text-Avoids :
    (scope : ℕ) (s : Str)
    → All (λ c. is_v6_char c ≡ true) s
    → Avoids close_bracket (v6_text scope (some s))
unfolding v6_text
v6_text-Avoids scope s h = elim (Bool-cases (scope == 0)) [
  | inl e ↦ rw e (v6-Avoids close_bracket refl s h)
  | inr e ↦ rw e (
      All-append (λ x. (x == close_bracket) ≡ false) s (percent ∷ to_string scope)
        (v6-Avoids close_bracket refl s h) (refl, numeric-Avoids close_bracket refl scope))
]

module _ (p : Presentation) where
  v4_from_string-written :
      (a : Ipv4) (s : Str)
      → p.pton4 s ≡ some a
      → All (λ c. is_v4_char c ≡ true) s
      → v4_from_string p s ≡ some a
  unfolding v4_from_string
  v4_from_string-written a s r h = ap p.pton4 (c_str-whole s (v4-Avoids 0 refl s h)) ∙ r

  scoped :
      (a : AddressV6) (s : Str) (z : Bool)
      → (a.scope_id == 0) ≡ z
      → a.scope_id < 4294967296
      → p.pton6 s ≡ some a.bytes
      → All (λ c. is_v6_char c ≡ true) s
      → v6_from_string p (if z then s else s ++ percent ∷ to_string a.scope_id) ≡ some a
  unfolding v6_from_string
  scoped a s true e h r k =
      rw
        (
          split_first-none percent s (v6-Avoids percent refl s k),
          c_str-whole s (v6-Avoids 0 refl s k),
          r,
        )
        (ap (λ n. some (record { bytes = a.bytes; scope_id = n })) (sym (eqb→eq a.scope_id 0 e)))
  scoped a s false e h r k =
      rw
        (
          split_first-here percent s (to_string a.scope_id) (v6-Avoids percent refl s k),
          from_chars-to_string a.scope_id h,
          c_str-whole s (v6-Avoids 0 refl s k),
          r,
        )
        refl

  v6_from_string-written :
      (a : AddressV6) (s : Str)
      → a.scope_id < 4294967296
      → p.pton6 s ≡ some a.bytes
      → All (λ c. is_v6_char c ≡ true) s
      → v6_from_string p (v6_text a.scope_id (some s)) ≡ some a
  unfolding v6_text
  v6_from_string-written a s h r k = scoped a s (a.scope_id == 0) refl h r k

  parse-plain :
      (host port : Str)
      → Avoids open_bracket host
      → Avoids colon port
      → parse p (host ++ colon ∷ port) ≡ after_colon p (some (host, port))
  unfolding parse
  parse-plain [] port h k = ap (after_colon p) (split_last-here colon [] port k)
  parse-plain (x ∷ xs) port (h, hs) k =
      rw h (ap (after_colon p) (split_last-here colon (x ∷ xs) port k))

  parse-bracketed :
      (host port : Str)
      → Avoids close_bracket host
      → parse p (open_bracket ∷ (host ++ close_bracket ∷ colon ∷ port))
        ≡ after_bracket p (some (host, colon ∷ port))
  unfolding parse
  parse-bracketed host port h =
      ap (after_bracket p) (split_first-here close_bracket host (colon ∷ port) h)

  parse_v4 :
      (a : Ipv4) (port : ℕ) (s : Str)
      → port < 65536
      → p.pton4 s ≡ some a
      → All (λ c. is_v4_char c ≡ true) s
      → parse p (s ++ colon ∷ to_string port) ≡ some (v4 a port)
  parse_v4 a port s k r h =
      parse-plain s (to_string port) (v4-Avoids open_bracket refl s h)
        (numeric-Avoids colon refl port)
      ∙ rw
          (
            split_first-none colon s (v4-Avoids colon refl s h),
            parse_port-to_string port k,
            v4_from_string-written a s r h,
          )
          refl

  parse_v6 :
      (a : AddressV6) (port : ℕ) (s : Str)
      → a.scope_id < 4294967296
      → port < 65536
      → p.pton6 s ≡ some a.bytes
      → All (λ c. is_v6_char c ≡ true) s
      → parse p
          (open_bracket ∷ (v6_text a.scope_id (some s) ++ close_bracket ∷ colon ∷ to_string port))
        ≡ some (v6 a port)
  parse_v6 a port s j k r h =
      parse-bracketed (v6_text a.scope_id (some s)) (to_string port) (v6_text-Avoids a.scope_id s h)
      ∙ rw (parse_port-to_string port k, v6_from_string-written a s j r h) refl

  -- An endpoint that is printed and read back is the same, with its address, its port and, for IPv6,
  -- its scope, provided that inet_ntop writes each address of 4, or 16, bytes with the characters of
  -- addresses, and inet_pton reads back what it writes.
  pub parse-print : Documented p → (e : Endpoint) → InRange e → parse p (print p e) ≡ some e
  unfolding print v4_to_string v6_to_string v4_text
  parse-print d (v4 a port) (b, k) =
      let (s, (e, r, h)) = d.writes4 a b in rw e (parse_v4 a port s k r h)
  parse-print d (v6 a port) (b, j, k) =
      let (s, (e, r, h)) = d.writes6 a.bytes b in rw e (parse_v6 a port s j k r h)
