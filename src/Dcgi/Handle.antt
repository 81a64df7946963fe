-- ===== src/Dcgi/Handle.antt =====
-- `handleDCGI` and `unloadDCGIModule` of src/dcgi.c: a request handed to a module, and its answer.
-- What `dcgi_main` does is a parameter. What is written to the connection is the list of its bytes,
-- and what the call releases is the list of the blocks in order.
use chttpd.Prelude.{
  ℕ, Bool, true, false, ◌||◌, Option, none, some, List, [], ◌∷◌, ◌++◌, ◌==◌, if◌then◌else◌,
}
use chttpd.Prelude.Int.{ℤ, pos, negsuc}
use chttpd.Libc.{Bytes, Result, ok, fault, null_pointer, uninitialised, ◌>>=◌, cstr, strlen}
use chttpd.Libc.Text.{codes}
use chttpd.Util.{StringPair, strcmp_icase}
use chttpd.Error.{Error, is_error, format_error}
use chttpd.Http.{HttpRequest, http_code_name_safe}
use chttpd.Intern.{print_ℕ, print_ℤ, server_line}
use chttpd.Dcgi.{Linker, DcgiModule, at_line, load_dcgi_module}

-- What `dcgi_main` leaves: its result, and the three places that it may leave `NULL`. The headers
-- end with a pair of `NULL`, which the list leaves out.
pub record Answer : Type 0 where
  pub res : ℤ
  pub header_dest : Option (List StringPair)
  pub data_dest : Option Bytes
  pub err_dest : Option Bytes

-- The functions behind the addresses that `dlsym` returns. The request has at the end of its
-- parameters and of its headers a pair of `NULL` when it is passed, which the lists leave out.
abbrev pub DcgiMain : Type 0
DcgiMain = ℕ → HttpRequest → Answer

-- A block that is given to `dcgi_dealloc` where the module has one, and to `free` where it has none.
pub data Block : Type 0 where
  string : Bytes → Block
  pairs : List StringPair → Block

-- The response, the error and the blocks.
abbrev pub Outcome : Type 0
Outcome = Bytes × Error × List Block

-- `module->libHandle` is read where `loadDCGIModule` never stored it.
unfoldable pub unload_dcgi_module : Linker → DcgiModule → Error → Result Error
unload_dcgi_module linker m error = elim m.lib_handle [
  | none ↦ fault uninitialised
  | some handle ↦
      if linker.dlclose handle
      then ok error
      else ok (
          format_error error (at_line (codes "src/dcgi.c") 44) (pos 500)
            (codes "error closing DCGI library: " ++ linker.dlerror))
]

-- The loop that writes the headers of the answer, but the two that the server sets.
unfoldable pub write_headers : List StringPair → Result Bytes
write_headers [] = ok []
write_headers (header ∷ headers) =
    let rest = write_headers headers in
    strcmp_icase (cstr header.first) (cstr (codes "Content-Length")) >>= λ is_length.
    strcmp_icase (cstr header.first) (cstr (codes "Connection")) >>= λ is_connection.
    if is_length || is_connection
    then rest
    else rest >>= λ written.
        ok (header.first ++ codes ": " ++ header.second ++ codes "\r\n" ++ written)

unfoldable pub status_lines : ℤ → Bytes → ℕ → Bytes
unfolding print_ℤ print_ℕ
status_lines res name content_length =
    codes "HTTP/1.1 "
    ++ print_ℤ res
    ++ codes " "
    ++ name
    ++ codes "\r\nContent-Encoding: identity\r\nContent-Length: "
    ++ print_ℕ content_length
    ++ codes "\r\nConnection: close\r\n"
    ++ server_line

unfoldable pub content_length_of : Option Bytes → Result ℕ
content_length_of none = ok 0
content_length_of (some text) = strlen (cstr text)

unfoldable pub write_data : Option Bytes → Bytes
write_data none = []
write_data (some text) = codes "\r\n" ++ text

unfoldable pub header_blocks : List StringPair → List Block
header_blocks [] = []
header_blocks (header ∷ headers) =
    Block.string header.first ∷ Block.string header.second ∷ header_blocks headers

unfoldable pub string_block : Option Bytes → List Block
string_block none = []
string_block (some s) = Block.string s ∷ []

-- `unload_module_ret`: the text of the error is released, and a module of this call unloaded.
unfoldable pub unload_ret : Linker → Bool → DcgiModule → Answer → Outcome → Result Outcome
unfolding string_block unload_dcgi_module
unload_ret linker preloaded m answer (written, error, blocks) =
    let blocks' = blocks ++ string_block answer.err_dest in
    if preloaded
    then ok (written, error, blocks')
    else unload_dcgi_module linker m error >>= λ error'. ok (written, error', blocks')

-- The text of the error for the result 500.
unfoldable pub main_failed : Error → Option Bytes → Error
main_failed error none =
    format_error error (at_line (codes "src/dcgi.c") 88) (pos 500)
      (codes "error running DCGI function")
main_failed error (some text) =
    format_error error (at_line (codes "src/dcgi.c") 85) (pos 500)
      (codes "error running DCGI function: " ++ text)

-- The response and the release of what it was made of. `headerDest` is read without a test.
unfoldable pub respond : Answer → Error → Result Outcome
unfolding status_lines write_data header_blocks string_block content_length_of
respond answer error = content_length_of answer.data_dest >>= λ content_length.
    http_code_name_safe answer.res >>= λ name. elim answer.header_dest [
      | none ↦ fault null_pointer
      | some headers ↦ write_headers headers >>= λ lines. ok (
        status_lines answer.res name content_length ++ lines ++ write_data answer.data_dest,
        error,
        header_blocks headers ++ Block.pairs headers ∷ string_block answer.data_dest,
      )
    ]

abbrev pub is_500 : ℤ → Bool
is_500 (pos n) = n == 500
is_500 (negsuc n) = false

unfoldable pub run_module :
    Linker → DcgiMain → Bool → DcgiModule → HttpRequest → Error → Result Outcome
unfolding unload_ret main_failed respond
run_module linker dcgi_main preloaded m request error =
    let answer = dcgi_main m.dcgi_main request in
    if is_500 answer.res
    then unload_ret linker preloaded m answer ([], main_failed error answer.err_dest, [])
    else respond answer error >>= unload_ret linker preloaded m answer

-- What follows the load of a module for one request.
unfoldable pub run_loaded :
    Linker → DcgiMain → HttpRequest → Option DcgiModule × Error → Result Outcome
unfolding run_module
run_loaded linker dcgi_main request (none, error) =
    if is_error error then ok ([], error, []) else fault null_pointer
run_loaded linker dcgi_main request (some m, error) =
    if is_error error then ok ([], error, []) else run_module linker dcgi_main false m request error

-- A module that the configuration did not load is loaded for this request.
unfoldable pub handle_dcgi :
    Linker → DcgiMain → Bytes → Option DcgiModule → HttpRequest → Error → Result Outcome
unfolding run_module run_loaded load_dcgi_module
handle_dcgi linker dcgi_main dcgi_lib (some m) request error =
    run_module linker dcgi_main true m request error
handle_dcgi linker dcgi_main dcgi_lib none request error =
    run_loaded linker dcgi_main request (load_dcgi_module linker dcgi_lib error)
