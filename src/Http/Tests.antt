-- ===== src/Http/Tests.antt =====
-- Runs of the request reader, and the theorems at concrete requests.
use chttpd.Prelude.{ℕ, Bool, ltb, ◌≢◌, arith, ◌≡◌, refl, some, [], ◌∷◌, ◌++◌, false}
use chttpd.Libc.{
  out_of_fuel, cstr, Bytes, ok, reject, fault, double_free, out_of_bounds, strlen, strchr,
  strncmp_eq, isspace, tolower, atoi, until_nul,
}
use chttpd.Libc.Text.{codes, lower}
use chttpd.Util.{StringPair, slicecmp_icase, strcmp_icase}
use chttpd.Http.{HttpMethod, HttpRequest, parse_http_method_slice, http_method_names}
use chttpd.Http.Query.{parse_query_path, parse_query_path_null}
use chttpd.Http.Lines.{
  getdelim, read_http_line, skip_whitespace, parse_http_first_line, parse_http_header_line,
  until_cr, Stream,
}
use chttpd.Libc.Strings.{Without}
use chttpd.Http.Method.{parse_http_method_slice_iff}
use chttpd.Http.Query.Sound.{Denotes, parse_query_path-Denotes, parse_query_path-ne_fault}
use chttpd.Http.Lines.FirstLine.{BadTarget, parse_http_first_line-fault_iff}
use chttpd.Http.Lines.Header.{UnendedValue, parse_http_header_line-fault_iff}
use chttpd.Http.Request.Total.{read_http_request-ne_out_of_fuel}
use chttpd.Http.Request.Release.{LostBody, read_http_request-double_free_iff}
use chttpd.Http.Lines.Laws.{IsHeader}
use chttpd.Http.Query.RoundTrip.{IsParam, print_params, parse_query_path-print}
use chttpd.Http.Request.RoundTrip.{IsHeaderLine, IsRequest, print_request, read_http_request-print}
use chttpd.Http.Request.{read_http_request, find_content_length, free}

abbrev pair : Bytes → Bytes → StringPair
pair a b = record { first = a; second = b }

-- Memory for every request but those of a body from 4096 bytes on.
abbrev enough : ℕ → Bool
enough n = ltb n 4096

abbrev sample : Stream
sample = codes "POST /a?x=1&y= HTTP/1.1\r\nContent-Length: 3\r\nHost:  me\r\n\r\nhello"

abbrev sample_request : HttpRequest
sample_request = record {
  method = HttpMethod.post;
  content_length = 3;
  request_path = codes "/a";
  query_string = some (codes "x=1&y=");
  params = pair (codes "x") (codes "1") ∷ pair (codes "y") [] ∷ [];
  headers = pair (codes "Content-Length") (codes "3") ∷ pair (codes "Host") (codes "me") ∷ [];
  body = codes "hel";
}

read_sample : read_http_request enough sample ≡ ok (sample_request, codes "lo")
unfolding read_http_request free read_http_line getdelim parse_http_first_line
    parse_http_header_line parse_query_path parse_http_method_slice slicecmp_icase strcmp_icase
    http_method_names strlen strchr strncmp_eq isspace tolower atoi until_nul skip_whitespace
read_sample = refl

read_short :
    (read_http_request enough (codes "GET / HTTP/1.1\r\nContent-Length: 3\r\n\r\nhe")
      ≡ fault double_free)
    × (read_http_request enough (codes "GET / HTTP/1.1\r\n:") ≡ fault out_of_bounds)
    × (read_http_request enough (codes "GET /\r\n") ≡ fault out_of_bounds)
    × (read_http_request enough (codes "GET /? HTTP/1.1\r\n\r\n") ≡ reject)
unfolding read_http_request free read_http_line getdelim parse_http_first_line
    parse_http_header_line parse_query_path parse_query_path_null parse_http_method_slice
    slicecmp_icase strcmp_icase http_method_names strlen strchr strncmp_eq isspace tolower atoi
    until_nul skip_whitespace
read_short = (refl, refl, refl, refl)

x-IsParam : IsParam (pair (codes "x") (codes "1"))
x-IsParam = record {
  key_cstr = ground arith;
  key_plain = ground arith;
  value_cstr = ground arith;
  value_plain = ground arith;
}

y-IsParam : IsParam (pair (codes "y") [])
y-IsParam = record {
  key_cstr = ground arith;
  key_plain = ground arith;
  value_cstr = ground arith;
  value_plain = ground arith;
}

sample_header-IsHeaderLine :
    (p : StringPair) → IsHeader p → Without b'\n' p.first → Without b'\n' p.second → IsHeaderLine p
sample_header-IsHeaderLine p h a b = record { header = h; name_line = a; value_line = b }

length-IsHeader : IsHeader (pair (codes "Content-Length") (codes "3"))
unfolding isspace
length-IsHeader = record {
  name_cstr = ground arith;
  name_plain = ground arith;
  value_cstr = ground arith;
  value_plain = ground arith;
  value_trimmed = refl;
}

host-IsHeader : IsHeader (pair (codes "Host") (codes "me"))
unfolding isspace
host-IsHeader = record {
  name_cstr = ground arith;
  name_plain = ground arith;
  value_cstr = ground arith;
  value_plain = ground arith;
  value_trimmed = refl;
}

names_post : parse_http_method_slice (codes "post") ≡ ok (HttpMethod.post, false)
unfolding parse_http_method_slice slicecmp_icase http_method_names tolower
names_post = refl

sample_target :
    parse_query_path (codes "/a?x=1&y=")
    ≡ ok (codes "/a", some (codes "x=1&y="), sample_request.params)
unfolding parse_query_path until_nul
sample_target = refl

sample-IsRequest : IsRequest (codes "post") (codes "a?x=1&y=") sample_request
sample-IsRequest = record {
  name_cstr = ground arith;
  name_plain = ground arith;
  name_line = ground arith;
  names_method = names_post;
  is_target = record {
    target_cstr = ground arith;
    target_plain = ground arith;
    target_line = ground arith;
    target_says = sample_target;
  };
  header_lines = (
    sample_header-IsHeaderLine _ length-IsHeader (ground arith) (ground arith),
    (sample_header-IsHeaderLine _ host-IsHeader (ground arith) (ground arith), tt),
  );
}

sample_length : find_content_length sample_request.headers ≡ ok 3
unfolding find_content_length strcmp_icase tolower isspace atoi
sample_length = refl

read_http_request-print_example :
    read_http_request enough (
      print_request
        (codes "post")
        (codes "a?x=1&y=")
        sample_request.headers
        (codes "hel" ++ codes "lo"))
    ≡ ok (sample_request, codes "lo")
read_http_request-print_example =
    read_http_request-print enough (codes "post") (codes "a?x=1&y=") sample_request (codes "lo")
      sample-IsRequest sample_length refl refl

read_http_request-ne_out_of_fuel_example : read_http_request enough sample ≢ fault out_of_fuel
read_http_request-ne_out_of_fuel_example = read_http_request-ne_out_of_fuel enough sample

abbrev short_body : Stream
short_body = codes "GET / HTTP/1.1\r\nContent-Length: 3\r\n\r\nhe"

read_http_request-double_free_iff_example : LostBody enough short_body
read_http_request-double_free_iff_example =
    (read_http_request-double_free_iff enough short_body).0 read_short.0

unended_target : parse_http_first_line (cstr (codes "GET /\r\n")) ≡ fault out_of_bounds
unfolding parse_http_first_line parse_http_method_slice slicecmp_icase http_method_names strchr
    tolower isspace skip_whitespace parse_query_path_null
unended_target = refl

parse_http_first_line-fault_iff_example : BadTarget (codes "GET /\r\n")
parse_http_first_line-fault_iff_example =
    (parse_http_first_line-fault_iff (codes "GET /\r\n") (ground arith)).0
      (out_of_bounds, unended_target)

unended_value : parse_http_header_line (cstr (codes "Host: me")) ≡ fault out_of_bounds
unfolding parse_http_header_line strchr isspace skip_whitespace until_cr
unended_value = refl

parse_http_header_line-fault_iff_example : UnendedValue (codes "Host: me")
parse_http_header_line-fault_iff_example =
    (parse_http_header_line-fault_iff (codes "Host: me") (ground arith)).0
      (out_of_bounds, unended_value)

parse_query_path-Denotes_example :
    Denotes (codes "/a?x=1&y=") (codes "/a", some (codes "x=1&y="), sample_request.params)
parse_query_path-Denotes_example =
    parse_query_path-Denotes (codes "/a?x=1&y=") (ground arith) sample_target

parse_query_path-print_example :
    parse_query_path
      (codes "/a" ++ b'?' ∷ print_params (pair (codes "x") (codes "1")) (pair (codes "y") [] ∷ []))
    ≡ ok (
      codes "/a",
      some (print_params (pair (codes "x") (codes "1")) (pair (codes "y") [] ∷ [])),
      pair (codes "x") (codes "1") ∷ pair (codes "y") [] ∷ [],
    )
parse_query_path-print_example =
    parse_query_path-print (codes "/a") (pair (codes "x") (codes "1")) (pair (codes "y") [] ∷ [])
      (ground arith) (ground arith) x-IsParam (y-IsParam, tt)

parse_query_path-ne_fault_example : parse_query_path (codes "/a?x") ≢ fault out_of_bounds
parse_query_path-ne_fault_example = parse_query_path-ne_fault (codes "/a?x") out_of_bounds

parse_http_method_slice_iff_example :
    lower (codes "post") ≡ lower (http_method_names HttpMethod.post)
parse_http_method_slice_iff_example =
    (parse_http_method_slice_iff (codes "post") HttpMethod.post).0 names_post
