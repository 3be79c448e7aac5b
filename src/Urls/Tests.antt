-- ===== src/Urls/Tests.antt =====
-- HttpUrl.cpp: concrete URLs.
use pxc_core.Prelude.{
  ◌||◌, ℕ, ◌^◌, ◌<◌, ◌≤◌, ◌≡◌, ◌≢◌, refl, Bool, true, false, none, some, List, [], ◌∷◌, error, ok,
  codes, arith,
}
use pxc_core.Misc.{is_alnum}
use pxc_core.Urls.{
  HttpUrl, http, https, parse_url, get_url, wrong_port, wrong_percent, disallowed_character,
  to_integer_safe, print_int,
}
use pxc_core.Urls.Parts.{printable}
use pxc_core.Urls.Prints.{get_url-parse_url}
use pxc_core.Urls.Integers.{to_integer_safe-print_int}

abbrev no_ipv6 : List ℕ → Bool
no_ipv6 s = false

abbrev any_ipv6 : List ℕ → Bool
any_ipv6 s = true

abbrev page : HttpUrl
page = record {
  protocol = https;
  userinfo = codes "a:b";
  host = codes "x.org";
  is_ipv6 = false;
  specified_port = 80;
  port = 80;
  query = codes "/?q%20r";
}

parse_url-page : parse_url no_ipv6 (codes "HttpS://a:b@X.org:080?q r  ") http ≡ ok page
unfolding parse_url is_alnum
parse_url-page = refl

get_url-page : get_url page ≡ some (codes "https://a:b@x.org:80/?q%20r")
unfolding get_url
get_url-page = refl

parse_url-ports :
    (parse_url no_ipv6 (codes "x.org:65536") http ≡ error wrong_port)
    × (parse_url no_ipv6 (codes "x.org:") http ≡ error wrong_port)
    × (parse_url no_ipv6 (codes "x.org%2") http ≡ error wrong_percent)
    × (parse_url no_ipv6 (codes "a b@x.org") http ≡ error disallowed_character)
unfolding parse_url is_alnum
parse_url-ports = (refl, refl, refl, refl)

-- With an IPv6 host the userinfo is not checked, and a line end in it comes through.
parse_url-unchecked_userinfo :
    parse_url any_ipv6 (b'a' ∷ 13 ∷ 10 ∷ codes "b@[::1]") http
    ≡ ok (record {
      protocol = http;
      userinfo = b'a' ∷ 13 ∷ 10 ∷ b'b' ∷ [];
      host = codes "[::1]";
      is_ipv6 = true;
      specified_port = 0;
      port = 80;
      query = codes "/";
    })
unfolding parse_url is_alnum
parse_url-unchecked_userinfo = refl

to_integer_safe-texts :
    (to_integer_safe (codes "-2147483648") ≡ some (2 ^ 31))
    × (to_integer_safe (codes "2147483648") ≡ none)
    × (to_integer_safe (codes "007") ≡ none)
unfolding to_integer_safe
to_integer_safe-texts = (refl, refl, refl)

get_url-parse_url_example :
    (text : List ℕ) × (get_url page ≡ some text)
    × (0 < page.port)
    × (page.port ≤ 65535)
    × (page.host ≢ [])
    × ((page.is_ipv6 || printable text) ≡ true)
get_url-parse_url_example =
    get_url-parse_url no_ipv6 (codes "HttpS://a:b@X.org:080?q r  ") http page parse_url-page

to_integer_safe-print_int_example : to_integer_safe (print_int 4294967173) ≡ some 4294967173
to_integer_safe-print_int_example = to_integer_safe-print_int 4294967173 (omega arith)
