-- ===== src/Static.antt =====
-- src/static.c and src/file_util.c: files sent as they are. What the file system, the allocator and
-- `errno` give is a parameter; what is written to the connection is the list of its bytes.
pub mod Mime
pub mod Outcome
mod Tests
use chttpd.Prelude.{
  ℕ, Bool, true, false, Option, none, some, List, [], ◌∷◌, ◌++◌, ◌==◌, ltb, if◌then◌else◌, length,
  take,
}
use chttpd.Prelude.Int.{ℤ, pos, negsuc}
use chttpd.Libc.{Bytes, Result, ok, ◌>>=◌, cstr, strrchr}
use chttpd.Libc.Text.{codes}
use chttpd.Util.{strcmp_icase}
use chttpd.Error.{Error, format_error}
use chttpd.Dcgi.{at_line}
use chttpd.Intern.{server_line, print_ℕ}

-- An open file: what `ftell` returns at its end (`none` where `fseek` or `ftell` fails), and the
-- bytes that `fread` can deliver.
pub record File : Type 0 where
  pub size : Option ℕ
  pub readable : Bytes

-- `malloc` tells whether the block is given, `errno` is what line 59 reads.
pub record System : Type 0 where
  pub fopen : Bytes → Option File
  pub malloc : ℕ → Bool
  pub errno : ℕ

-- `readAll` with no buffer: the size, `none` for -1.
unfoldable pub read_size : File → Option ℕ
read_size file = file.size

-- `readAll` with a buffer: the bytes that are put there, `none` for -1.
unfoldable pub read_all : File → ℕ → Option Bytes
read_all file buf_size = elim file.size [
  | none ↦ none
  | some size ↦
      let bytes_to_read = if ltb buf_size size then buf_size else size in
      if ltb (length file.readable) bytes_to_read
      then none
      else some (take bytes_to_read file.readable)
]

-- The type for a postfix, the dot included.
unfoldable pub mime_of : Bytes → Result Bytes
mime_of postfix = strcmp_icase postfix (cstr (codes ".html")) >>= λ html.
    if html
    then ok (codes "text/html")
    else (strcmp_icase postfix (cstr (codes ".js")) >>= λ js.
        if js
        then ok (codes "text/javascript")
        else (strcmp_icase postfix (cstr (codes ".css")) >>= λ css.
            if css
            then ok (codes "text/css")
            else (strcmp_icase postfix (cstr (codes ".json")) >>= λ json.
                if json
                then ok (codes "application/json")
                else (strcmp_icase postfix (cstr (codes ".xml")) >>= λ xml.
                    if xml
                    then ok (codes "application/xml")
                    else (strcmp_icase postfix (cstr (codes ".txt")) >>= λ txt.
                        if txt
                        then ok (codes "text/plain")
                        else ok (codes "application/octet-stream"))))))

unfoldable pub mime_guess : Bytes → Result Bytes
unfolding mime_of
mime_guess file_path = strrchr file_path b'.' >>= λ postfix. elim postfix [
  | none ↦ ok (codes "application/octet-stream")
  | some postfix ↦ mime_of postfix
]

unfoldable pub cache_control : ℤ → Bytes
unfolding print_ℕ
cache_control (pos n) = codes "Cache-Control: public, max-age=" ++ print_ℕ n ++ codes "\r\n\r\n"
cache_control (negsuc n) = codes "Cache-Control: no-cache\r\n\r\n"

unfoldable pub static_header : Bytes → ℕ → ℤ → Bytes
unfolding print_ℕ cache_control
static_header mime file_size cache_time =
    codes "HTTP/1.1 200 OK\r\n"
    ++ server_line
    ++ codes "Connection: close\r\nContent-Encoding: identity\r\nContent-Type: "
    ++ mime
    ++ codes "\r\nContent-Length: "
    ++ print_ℕ file_size
    ++ codes "\r\n"
    ++ cache_control cache_time

-- `QUICK_ERROR2(error, 500, …)` before anything is written.
unfoldable pub static_error : Error → ℕ → Bytes → Result (Bytes × Error)
static_error error line text =
    ok ([], format_error error (at_line (codes "src/static.c") line) (pos 500) text)

-- The response, once the file is in the buffer. The body is left out where `errno` is not 0.
unfoldable pub send_file : System → Bytes → Bytes → ℤ → Error → Result (Bytes × Error)
unfolding static_header
send_file system file_path buffer cache_time error = mime_guess (cstr file_path) >>= λ mime.
    let header = static_header mime (length buffer) cache_time in
    if system.errno == 0 then ok (header ++ buffer, error) else ok (header, error)

unfoldable pub handle_static : System → Bytes → ℤ → Error → Result (Bytes × Error)
unfolding static_error read_size
handle_static system file_path cache_time error = elim (system.fopen file_path) [
  | none ↦ static_error error 17 (codes "handleStatic: cannot open file: " ++ file_path)
  | some file ↦ elim (read_size file) [
    | none ↦ static_error error 24 (codes "handleStatic: cannot get size of file: " ++ file_path)
    | some file_size ↦
        if system.malloc file_size
        then elim (read_all file file_size) [
          | none ↦ static_error error 38 (
              codes "handleStatic: cannot read "
              ++ print_ℕ file_size
              ++ codes " bytes from "
              ++ file_path)
          | some buffer ↦
              if length buffer == file_size
              then send_file system file_path buffer cache_time error
              else static_error error 38 (
                  codes "handleStatic: cannot read "
                  ++ print_ℕ file_size
                  ++ codes " bytes from "
                  ++ file_path)
        ]
        else static_error error 31
            (codes "handleStatic: cannot allocate " ++ print_ℕ file_size ++ codes " bytes")
  ]
]
