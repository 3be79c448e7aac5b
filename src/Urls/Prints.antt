-- ===== src/Urls/Prints.antt =====
-- HttpUrl.cpp: what `parse_url` returns, and `get_url` of it.
use pxc_core.Prelude.{
  ◌||◌, ℕ, ◌==◌, ◌<◌, ◌≤◌, ◌≡◌, ◌≢◌, inl, inr, refl, sym, ap, subst, ◌∙◌, if◌then◌else◌, Bool, true,
  false, Option, none, some, List, [], ◌∷◌, ◌++◌, Result, error, ok, ◌>>=◌, codes, arith,
  Bool-cases, Option-cases, ok-bind,
}
use pxc_core.Parser.{read_till_any}
use pxc_core.Urls.{
  is_positive, HttpUrl, Protocol, http, https, UrlError, read_protocol, read_port, port_number,
  port_of, split_userinfo, check_host, check_parts, read_query, to_integer_safe, strip_zeros,
  split_last, to_lower, default_port, check_url_part, print_int, parse_url, get_url, starts_with,
  equal, scheme,
}
use pxc_core.Urls.Parts.{
  printable, printable-append, printable-check_url_part, read_query_lem, printable-print_int,
}

first_of : Result UrlError (ℕ × List ℕ) → ℕ
first_of (error x) = 0
first_of (ok (n, s)) = n

url_of : HttpUrl → Result UrlError HttpUrl → HttpUrl
url_of u (error x) = u
url_of u (ok v) = v

none_given :
    (s : List ℕ) (n : ℕ) (rest : List ℕ)
    → ◌≡◌ {A = Result UrlError (ℕ × List ℕ)} (ok (0, s)) (ok (n, rest))
    → n ≤ 65535
unfolding first_of
none_given s n rest e = omega (arith, ap first_of e)

port_number-bound : (s : List ℕ) (n : ℕ) → port_number s ≡ ok n → (0 < n) × (n ≤ 65535)
unfolding port_number
port_number-bound s n e = elim (Option-cases (to_integer_safe (strip_zeros s))) [
  | inl f ↦ absurd (ground (arith, e, f))
  | inr (m, f) ↦ ground (arith, e, f)
]

port_of-bound :
    (o : Option (List ℕ × List ℕ)) (s : List ℕ) (n : ℕ) (rest : List ℕ)
    → port_of o s ≡ ok (n, rest)
    → n ≤ 65535
unfolding port_of first_of
port_of-bound none s n rest e = none_given s n rest e
port_of-bound (some ([], back)) s n rest e = none_given s n rest e
port_of-bound (some (x ∷ front, [])) s n rest e = none_given s n rest e
port_of-bound (some (x ∷ front, c ∷ digits)) s n rest e = elim (Bool-cases (c == b':')) [
  | inl f ↦
      let e1 : (port_number digits >>= λ m. ok (m, x ∷ front)) ≡ ok (n, rest) =
        sym (
          ap
            (λ (t : Bool). if t then (port_number digits >>= λ m. ok (m, x ∷ front)) else ok (0, s))
            f)
        ∙ e in
      let (m, e2, e3) = ok-bind (port_number digits) _ (n, rest) e1 in
      omega (arith, port_number-bound digits m e2, ap first_of e3)
  | inr f ↦ none_given s n rest (
      sym (
        ap (λ (t : Bool). if t then (port_number digits >>= λ m. ok (m, x ∷ front)) else ok (0, s))
          f)
      ∙ e)
]

check_host-filled :
    (ipv6 : List ℕ → Bool) (host : List ℕ) (b : Bool)
    → check_host ipv6 host ≡ ok b
    → to_lower host ≢ []
unfolding check_host to_lower
check_host-filled ipv6 [] b e f = cc
check_host-filled ipv6 (c ∷ s) b e f = cc

-- The parts of a URL that was parsed.
record Parsed (u : HttpUrl) : Type 0 where
  query : List ℕ
  is_query : u.query ≡ read_query query
  bound : u.specified_port ≤ 65535
  served : u.port ≡ (if u.specified_port == 0 then default_port u.protocol else u.specified_port)
  filled : u.host ≢ []
  checked : (b : Bool) × (check_parts u.is_ipv6 u.host u.userinfo ≡ ok b)

built :
    (protocol : Protocol) (port : ℕ) (userinfo host rest : List ℕ) (is_ipv6 b : Bool) (u : HttpUrl)
    → port ≤ 65535
    → host ≢ []
    → check_parts is_ipv6 host userinfo ≡ ok b
    → ◌≡◌ {A = Result UrlError HttpUrl}
        (ok (record {
          protocol = protocol;
          userinfo = userinfo;
          host = host;
          is_ipv6 = is_ipv6;
          specified_port = port;
          port = if port == 0 then default_port protocol else port;
          query = read_query rest;
        }))
        (ok u)
    → Parsed u
unfolding url_of
built protocol port userinfo host rest is_ipv6 b u bound filled checked e =
    subst Parsed (ap (url_of u) e) (record {
      query = rest;
      is_query = refl;
      bound = bound;
      served = refl;
      filled = filled;
      checked = (b, checked);
    })

parse_url-Parsed :
    (ipv6 : List ℕ → Bool) (url : List ℕ) (protocol : Protocol) (u : HttpUrl)
    → parse_url ipv6 url protocol ≡ ok u
    → Parsed u
unfolding parse_url read_port
parse_url-Parsed ipv6 url p u e =
    let ((protocol, s), e1, r1) = ok-bind (read_protocol url p) _ u e in
    let ((port, back), e2, r2) = ok-bind (read_port (read_till_any (codes "/?#") s).0) _ u r1 in
    let (is_ipv6, e3, r3) = ok-bind (check_host ipv6 (split_userinfo back).1) _ u r2 in
    let (b, e4, r4) =
      ok-bind (check_parts is_ipv6 (to_lower (split_userinfo back).1) (split_userinfo back).0) _ u
        r3 in
    built protocol port (split_userinfo back).0 (to_lower (split_userinfo back).1)
      (read_till_any (codes "/?#") s).1 is_ipv6 b u
      (port_of-bound (split_last (codes ":]@") (read_till_any (codes "/?#") s).0)
        (read_till_any (codes "/?#") s).0 port back e2)
      (check_host-filled ipv6 (split_userinfo back).1 is_ipv6 e3) e4 r4

parts_printable :
    (host userinfo : List ℕ) (b : Bool)
    → check_parts false host userinfo ≡ ok b
    → (printable host ≡ true) × (printable userinfo ≡ true)
unfolding check_parts
parts_printable host userinfo b e =
    let (a, e1, e2) = ok-bind (check_url_part false host) _ b e in
    (printable-check_url_part false host a e1, printable-check_url_part true userinfo b e2)

printable-scheme : (p : Protocol) → printable (scheme p) ≡ true
printable-scheme http = refl
printable-scheme https = refl

default_port-bound : (p : Protocol) → (0 < default_port p) × (default_port p ≤ 65535)
unfolding default_port
default_port-bound http = (omega arith, omega arith)
default_port-bound https = (omega arith, omega arith)

-- The text that `get_url` writes.
unfoldable url_text : HttpUrl → List ℕ
url_text url =
    scheme url.protocol
    ++ (if equal url.userinfo [] then [] else url.userinfo ++ b'@' ∷ [])
    ++ url.host
    ++ (if is_positive url.specified_port then b':' ∷ print_int url.specified_port else [])
    ++ url.query

either_printable :
    (test : Bool) (s : List ℕ) → printable s ≡ true → printable (if test then [] else s) ≡ true
either_printable true s e = refl
either_printable false s e = e

or_printable :
    (test : Bool) (s : List ℕ) → printable s ≡ true → printable (if test then s else []) ≡ true
or_printable true s e = e
or_printable false s e = refl

port_served :
    (p : Protocol) (n : ℕ)
    → n ≤ 65535
    → (0 < (if n == 0 then default_port p else n))
      × ((if n == 0 then default_port p else n) ≤ 65535)
port_served p n small =
    let (positive, low) = default_port-bound p in
    elim (Bool-cases (n == 0)) [
      | inl e ↦ (ground (arith, e, positive), ground (arith, e, low))
      | inr e ↦ (ground (arith, e), ground (arith, e, small))
    ]

url_text-printable :
    (u : HttpUrl)
    → printable u.userinfo ≡ true
    → printable u.host ≡ true
    → printable u.query ≡ true
    → printable (url_text u) ≡ true
unfolding url_text
url_text-printable u a b c =
    let user : List ℕ = if equal u.userinfo [] then [] else u.userinfo ++ b'@' ∷ [] in
    let digits : List ℕ =
      if is_positive u.specified_port then b':' ∷ print_int u.specified_port else [] in
    let user_clean : printable user ≡ true =
      either_printable (equal u.userinfo []) (u.userinfo ++ b'@' ∷ [])
        (printable-append u.userinfo (b'@' ∷ []) a refl) in
    let digits_clean : printable digits ≡ true =
      or_printable (is_positive u.specified_port) (b':' ∷ print_int u.specified_port)
        (printable-print_int u.specified_port) in
    let front : List ℕ = scheme u.protocol ++ user in
    printable-append (front ++ u.host ++ digits) u.query
      (printable-append (front ++ u.host) digits
        (printable-append front u.host
          (printable-append (scheme u.protocol) user (printable-scheme u.protocol) user_clean) b)
        digits_clean)
      c

-- Of every URL that `parse_url` accepts, `get_url` passes its check and writes a text; the port is a
-- port, the host has a character, and when the host is no IPv6 address, every byte of the text is
-- above 32, the space.
pub get_url-parse_url :
    (ipv6 : List ℕ → Bool) (url : List ℕ) (protocol : Protocol) (u : HttpUrl)
    → parse_url ipv6 url protocol ≡ ok u
    → (text : List ℕ) × (get_url u ≡ some text)
      × (0 < u.port)
      × (u.port ≤ 65535)
      × (u.host ≢ [])
      × ((u.is_ipv6 || printable text) ≡ true)
unfolding get_url url_text
get_url-parse_url ipv6 url protocol u e =
    let v = parse_url-Parsed ipv6 url protocol u e in
    let (slash, clean) = read_query_lem v.query in
    let first : starts_with b'/' u.query ≡ true = ap (starts_with b'/') v.is_query ∙ slash in
    let (positive, small) = port_served u.protocol u.specified_port v.bound in
    (
      url_text u,
      rw (get_url, first) refl,
      omega (arith, v.served, positive),
      omega (arith, v.served, small),
      v.filled,
      elim (Bool-cases u.is_ipv6) [
        | inl six ↦ ap (λ t. t || printable (url_text u)) six
        | inr plain ↦
            let (a, b) =
              parts_printable u.host u.userinfo v.checked.0
                (ap (λ t. check_parts t u.host u.userinfo) (sym plain) ∙ v.checked.1) in
            ap (λ t. t || printable (url_text u)) plain
            ∙ url_text-printable u b a (ap printable v.is_query ∙ clean)
      ],
    )
