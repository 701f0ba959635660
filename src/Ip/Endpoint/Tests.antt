-- ===== src/Ip/Endpoint/Tests.antt =====
-- Endpoints that are printed and read. The presentation writes IPv4 addresses as inet_ntop does, and
-- IPv6 addresses as eight groups of four hexadecimal digits; it shows that what is documented of the
-- system's functions can hold.
use iocoro.Base.{
  ℕ, zero, suc, ◌+◌, ◌-◌, ◌*◌, ◌/◌, ◌%◌, ◌<◌, ◌≡◌, refl, ap, Bool, true, ◌&&◌, Option, none, some,
  List, [], ◌∷◌, ◌++◌, ◌==◌, ltb, if◌then◌else◌, All, arith, length,
}
use iocoro.Ip.Decimal.{
  Str, is_digit, below, from_chars, to_string, to_string-IsNumeric, from_chars-to_string,
}
use iocoro.Ip.Endpoint.{
  Ipv4, ipv4, Ipv6, ipv6, IsV4, IsV6, Endpoint, v6, Presentation, print, parse, colon, split_first,
}
use iocoro.Ip.Endpoint.RoundTrip.{
  is_v4_char, is_v6_char, Documented, parse-print, All-map, All-append, split_first-here,
  numeric-Avoids,
}

-- A byte and the bytes after it, with dots between them.
dots : ℕ → List ℕ → Str
dots b [] = to_string b
dots b (c ∷ cs) = to_string b ++ 46 ∷ dots c cs

abbrev add : Option ℕ → Option (List ℕ) → Option (List ℕ)
add none o = none
add (some b) none = none
add (some b) (some bs) = some (b ∷ bs)

abbrev byte : Str → Option ℕ
byte s = below 256 (from_chars s)

-- So many bytes and one more.
read_dots : ℕ → Str → Option (List ℕ)
read_dots zero s = add (byte s) (some [])
read_dots (suc n) s = elim (split_first 46 s) [
  | none ↦ none
  | some (x, rest) ↦ add (byte x) (read_dots n rest)
]

byte-to_string : (b : ℕ) → b < 256 → byte (to_string b) ≡ some b
byte-to_string b h = rw (from_chars-to_string b (omega (arith, h))) (ground arith)

read_dots-dots :
    (b : ℕ) (bs : List ℕ) (n : ℕ)
    → length bs ≡ n
    → b < 256
    → All (λ c. c < 256) bs
    → read_dots n (dots b bs) ≡ some (b ∷ bs)
unfolding read_dots dots
read_dots-dots b [] zero l h hs = rw (byte-to_string b h) refl
read_dots-dots b [] (suc n) l h hs = absurd (omega (arith, l))
read_dots-dots b (c ∷ cs) zero l h hs = absurd (omega (arith, l))
read_dots-dots b (c ∷ cs) (suc n) l h (k, ks) =
    rw
      (
        split_first-here 46 (to_string b) (dots c cs) (numeric-Avoids 46 refl b),
        byte-to_string b h,
        read_dots-dots c cs n (omega (arith, l)) k ks,
        read_dots,
      )
      refl

numeric-v4 : (b : ℕ) → All (λ c. is_v4_char c ≡ true) (to_string b)
numeric-v4 b = All-map (λ c h. wider c h) (to_string b) (to_string-IsNumeric b)
  where
    wider : (c : ℕ) → is_digit c ≡ true → is_v4_char c ≡ true
    wider c h = ground arith

dots-All : (b : ℕ) (bs : List ℕ) → All (λ c. is_v4_char c ≡ true) (dots b bs)
unfolding dots
dots-All b [] = numeric-v4 b
dots-All b (c ∷ cs) =
    All-append (λ c. is_v4_char c ≡ true) (to_string b) (46 ∷ dots c cs) (numeric-v4 b)
      (refl, dots-All c cs)

-- The hexadecimal digits below 16, as characters.
abbrev hex : ℕ → ℕ
hex d = if ltb d 10 then 48 + d else 87 + d

abbrev unhex : ℕ → ℕ
unhex c = if ltb c 58 then c - 48 else c - 87

hexes : List ℕ → Str
hexes [] = []
hexes (a ∷ []) = []
hexes (a ∷ b ∷ rest) =
    colon ∷ hex (a / 16) ∷ hex (a % 16) ∷ hex (b / 16) ∷ hex (b % 16) ∷ hexes rest

abbrev add_pair : ℕ → ℕ → Option (List ℕ) → Option (List ℕ)
add_pair a b none = none
add_pair a b (some bs) = some (a ∷ b ∷ bs)

read_hexes : Str → Option (List ℕ)
read_hexes [] = some []
read_hexes (c ∷ w ∷ x ∷ y ∷ z ∷ rest) =
    let bs = add_pair (unhex w * 16 + unhex x) (unhex y * 16 + unhex z) (read_hexes rest) in
    if c == colon then bs else none
read_hexes _ = none

-- The first group has no colon before it.
abbrev tail : Str → Str
tail [] = []
tail (c ∷ cs) = cs

unhex-hex : (b : ℕ) → b < 256 → unhex (hex (b / 16)) * 16 + unhex (hex (b % 16)) ≡ b
unhex-hex b h = ground arith

read_hexes-hexes :
    (k : ℕ) (bs : List ℕ)
    → length bs ≡ 2 * k
    → All (λ b. b < 256) bs
    → read_hexes (hexes bs) ≡ some bs
unfolding read_hexes hexes
read_hexes-hexes k [] l h = refl
read_hexes-hexes k (a ∷ []) l h = absurd (omega (arith, l))
read_hexes-hexes zero (a ∷ b ∷ rest) l h = absurd (omega (arith, l))
read_hexes-hexes (suc k) (a ∷ b ∷ rest) l (h, (i, hs)) =
    rw (read_hexes-hexes k rest (omega (arith, l)) hs, unhex-hex a h, unhex-hex b i) refl

is_v6_char-hex : (d : ℕ) → d < 16 → is_v6_char (hex d) ≡ true
is_v6_char-hex d h = ground arith

four-All :
    (w x y z : ℕ) (s : Str)
    → w < 16
    → x < 16
    → y < 16
    → z < 16
    → All (λ c. is_v6_char c ≡ true) s
    → All (λ c. is_v6_char c ≡ true) (colon ∷ hex w ∷ hex x ∷ hex y ∷ hex z ∷ s)
four-All w x y z s h i j k l = (
  refl,
  (is_v6_char-hex w h, (is_v6_char-hex x i, (is_v6_char-hex y j, (is_v6_char-hex z k, l)))),
)

hexes-All : (bs : List ℕ) → All (λ b. b < 256) bs → All (λ c. is_v6_char c ≡ true) (hexes bs)
unfolding hexes
hexes-All [] h = tt
hexes-All (a ∷ []) h = tt
hexes-All (a ∷ b ∷ rest) (h, (i, hs)) =
    four-All (a / 16) (a % 16) (b / 16) (b % 16) (hexes rest) (omega (arith, h)) (omega arith)
      (omega (arith, i)) (omega arith) (hexes-All rest hs)

abbrev to_v4 : Option (List ℕ) → Option Ipv4
to_v4 none = none
to_v4 (some bs) = some (ipv4 bs)

abbrev to_v6 : Option (List ℕ) → Option Ipv6
to_v6 none = none
to_v6 (some bs) = some (ipv6 bs)

abbrev write4 : Ipv4 → Option Str
write4 (ipv4 []) = none
write4 (ipv4 (b ∷ bs)) = some (dots b bs)

abbrev write6 : Ipv6 → Option Str
write6 (ipv6 bs) = some (tail (hexes bs))

abbrev presentation : Presentation
presentation = record {
  ntop4 = write4;
  pton4 = λ s. to_v4 (read_dots 3 s);
  ntop6 = write6;
  pton6 = λ s. to_v6 (read_hexes (colon ∷ s));
}

writes4 :
    (a : Ipv4)
    → IsV4 a
    → (s : Str) × ((write4 a ≡ some s)
        × (to_v4 (read_dots 3 s) ≡ some a)
        × All (λ c. is_v4_char c ≡ true) s)
writes4 (ipv4 []) (l, h) = absurd (omega (arith, l))
writes4 (ipv4 (b ∷ bs)) (l, (h, hs)) =
    (dots b bs, (refl, ap to_v4 (read_dots-dots b bs 3 (omega (arith, l)) h hs), dots-All b bs))

writes6 :
    (a : Ipv6)
    → IsV6 a
    → (s : Str) × ((write6 a ≡ some s)
        × (to_v6 (read_hexes (colon ∷ s)) ≡ some a)
        × All (λ c. is_v6_char c ≡ true) s)
unfolding hexes
writes6 (ipv6 []) (l, h) = absurd (omega (arith, l))
writes6 (ipv6 (a ∷ [])) (l, h) = absurd (omega (arith, l))
writes6 (ipv6 (a ∷ b ∷ rest)) (l, h) = (
  tail (hexes (a ∷ b ∷ rest)),
  (
    refl,
    ap to_v6 (read_hexes-hexes 8 (a ∷ b ∷ rest) (omega (arith, l)) h),
    (hexes-All (a ∷ b ∷ rest) h).1,
  ),
)

presentation-Documented : Documented presentation
presentation-Documented = record { writes4 = writes4; writes6 = writes6 }

abbrev bytes : List ℕ
bytes = 254 ∷ 128 ∷ 0 ∷ 0 ∷ 0 ∷ 0 ∷ 0 ∷ 0 ∷ 2 ∷ 80 ∷ 86 ∷ 255 ∷ 254 ∷ 192 ∷ 0 ∷ 8 ∷ []

all_bytes : List ℕ → Bool
all_bytes [] = true
all_bytes (b ∷ bs) = ltb b 256 && all_bytes bs

all_bytes-All : (bs : List ℕ) → all_bytes bs ≡ true → All (λ b. b < 256) bs
unfolding all_bytes
all_bytes-All [] h = tt
all_bytes-All (b ∷ bs) h = (ground arith, all_bytes-All bs (ground arith))

bytes-All : All (λ b. b < 256) bytes
unfolding all_bytes
bytes-All = all_bytes-All bytes refl

-- The address fe80::250:56ff:fec0:8 in the scope 12, and port 8080.
abbrev scoped_endpoint : Endpoint
scoped_endpoint = v6 (record { bytes = ipv6 bytes; scope_id = 12 }) 8080

parse-print_example : parse presentation (print presentation scoped_endpoint) ≡ some scoped_endpoint
parse-print_example =
    parse-print presentation presentation-Documented scoped_endpoint
      ((refl, bytes-All), omega arith, omega arith)
