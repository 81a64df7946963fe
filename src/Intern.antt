-- ===== src/Intern.antt =====
-- src/intern.c and include/intern.h: the pages that the server makes itself, and the handler that
-- asks for one. What is written to the connection is the list of its bytes.
pub mod Numbers
mod Tests
use chttpd.Prelude.{
  ℕ, zero, suc, ◌+◌, ◌/◌, ◌%◌, Option, none, some, [], ◌∷◌, ◌++◌, ltb, if◌then◌else◌, length,
}
use chttpd.Prelude.Int.{ℤ, pos, negsuc}
use chttpd.Libc.{Bytes, Result, ok, ◌>>=◌, cstr, strcmp_eq}
use chttpd.Libc.Text.{codes}
use chttpd.Error.{Error, format_error}
use chttpd.Dcgi.{at_line}

abbrev pub server_line : Bytes
server_line = codes "Server: chttpd/bravo2\r\n"

abbrev error_page_common_start : Bytes
error_page_common_start =
    codes "<html>\n  <meta charset=\"utf-8\">\n  <body>\n   <div align=\"center\">\n"

abbrev error_page_common_end : Bytes
error_page_common_end =
    codes
      "      <hr/>\n      Powered by chttpd: https://github.com/ICEYSELF/chttpd\n    </div>\n  </body>\n</html>"

-- `MAKE_ERROR_PAGE`
unfoldable pub make_error_page : Bytes → Bytes
make_error_page error =
    error_page_common_start
    ++ codes "      <h2>"
    ++ error
    ++ codes "</h2>\n"
    ++ error_page_common_end

unfoldable pub general_headers : Bytes
general_headers =
    codes
      "Content-Type: text/html\r\nContent-Encoding: identity\r\nCache-Control: public, max-age=1800\r\nConnection: close\r\n\r\n"

-- The digits of `%zu`, the last one first, on fuel.
unfoldable pub digits : ℕ → ℕ → Bytes → Bytes
digits zero n acc = acc
digits (suc fuel) n acc =
    let rest = digits fuel (n / 10) ((b'0' + n % 10) ∷ acc) in
    if ltb n 10 then (b'0' + n) ∷ acc else rest

-- `%zu`: a number has no more digits than its value.
unfoldable pub print_ℕ : ℕ → Bytes
unfolding digits
print_ℕ n = digits (suc n) n []

-- `%d`
unfoldable pub print_ℤ : ℤ → Bytes
unfolding print_ℕ
print_ℤ (pos n) = print_ℕ n
print_ℤ (negsuc n) = b'-' ∷ print_ℕ (suc n)

-- What `send403Page`, `send404Page` and `send405Page` have in common: the status line and the page.
unfoldable pub send_page : Bytes → Bytes → Bytes
unfolding print_ℕ general_headers
send_page head content =
    head
    ++ codes "Content-Length: "
    ++ print_ℕ (length content)
    ++ codes "\r\n"
    ++ server_line
    ++ general_headers
    ++ content

unfoldable pub send403_page : Bytes
unfolding send_page make_error_page
send403_page =
    send_page (codes "HTTP/1.1 403 Forbidden\r\n") (make_error_page (codes "403 Forbidden"))

unfoldable pub send404_page : Bytes
unfolding send_page make_error_page
send404_page =
    send_page (codes "HTTP/1.1 404 Not Found\r\n") (make_error_page (codes "404 Not Found"))

unfoldable pub send405_page : Bytes
unfolding send_page make_error_page
send405_page =
    send_page (codes "HTTP/1.1 405 Method Not Allowed\r\n")
      (make_error_page (codes "405 Method Not Allowed"))

-- `%s` of a file name.
unfoldable pub shown_file : Option Bytes → Bytes
shown_file none = codes "(null)"
shown_file (some file) = file

unfoldable pub send500_page : Error → Bytes
unfolding general_headers shown_file print_ℤ
send500_page error =
    codes "HTTP/1.1 500 Internal Server Error\r\n"
    ++ server_line
    ++ general_headers
    ++ error_page_common_start
    ++ codes
        "      <h2>500 Internal Server Error</h2>\n      <hr/>\n      <code style=\"text-align: left\"><pre>\n"
    ++ shown_file error.source_info.source_file
    ++ codes ":"
    ++ print_ℤ error.source_info.line
    ++ codes ": "
    ++ error.error_buffer
    ++ codes
        "      </pre></code>\n      Powered by chttpd: https://github.com/ICEYSELF/chttpd\n    </div>\n  </body>\n</html>"

unfoldable pub handle_intern : Bytes → Error → Result Error
handle_intern handler_path error =
    let file = codes "src/intern.c" in
    strcmp_eq (cstr handler_path) (cstr (codes "403")) >>= λ is403.
    if is403
    then ok (format_error error (at_line file 105) (pos 403) (codes "user appointed"))
    else (strcmp_eq (cstr handler_path) (cstr (codes "404")) >>= λ is404.
        if is404
        then ok (format_error error (at_line file 107) (pos 404) (codes "user appointed"))
        else (strcmp_eq (cstr handler_path) (cstr (codes "500")) >>= λ is500.
            if is500
            then ok (format_error error (at_line file 109) (pos 500) (codes "user appointed"))
            else ok (
                format_error error (at_line file 111) (pos 500)
                  (codes "unsupported intern page: " ++ handler_path))))
