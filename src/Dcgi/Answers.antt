-- ===== src/Dcgi/Answers.antt =====
-- How `handleDCGI` of src/dcgi.c passes on what a module answers, and what becomes of a module that
-- is loaded for one request.
use chttpd.Prelude.{
  Option-cases, ℕ, ◌≡◌, ◌≢◌, refl, ap, ◌∙◌, inl, inr, Bool, true, false, ◌||◌, Bool-cases, Option,
  none, some, List, [], ◌∷◌, ◌++◌, arith, All, if◌then◌else◌, length, map,
}
use mathlib.Core.List.{append_assoc}
use mathlib.Core.Path.{subst}
use chttpd.Prelude.Int.{pos}
use chttpd.Libc.{Bytes, ok, IsCStr, >>=-eq-ok, ok-injective}
use chttpd.Libc.Strings.{strlen-length}
use chttpd.Libc.Text.{codes, bytes_eq, lower}
use chttpd.Util.{StringPair}
use chttpd.Util.Compare.{strcmp_icase-lower}
use chttpd.Error.{Error, is_error, format_error}
use chttpd.Http.{HttpRequest, http_code_name_safe}
use chttpd.Intern.{print_ℕ, print_ℤ}
use chttpd.Dcgi.{Linker, DcgiModule, load_dcgi_module}
use chttpd.Dcgi.Handle.{
  Answer, DcgiMain, Block, Outcome, unload_dcgi_module, write_headers, status_lines,
  content_length_of, write_data, header_blocks, string_block, unload_ret, respond, is_500,
  run_module, run_loaded, handle_dcgi, main_failed,
}

-- Whether the server sets the header itself.
unfoldable pub reserved : StringPair → Bool
unfolding bytes_eq lower
reserved h =
    bytes_eq (lower h.first) (lower (codes "Content-Length"))
    || bytes_eq (lower h.first) (lower (codes "Connection"))

-- The lines of the headers that are not reserved, in their order.
unfoldable pub print_lines : List StringPair → Bytes
unfolding reserved
print_lines [] = []
print_lines (h ∷ hs) =
    if reserved h
    then print_lines hs
    else h.first ++ codes ": " ++ h.second ++ codes "\r\n" ++ print_lines hs

-- The loop of `handleDCGI` over headers with terminated names writes those that the server does not
-- set itself, in their order.
pub write_headers-print_lines :
    (hs : List StringPair)
    → All (λ (h : StringPair). IsCStr h.first) hs
    → write_headers hs ≡ ok (print_lines hs)
unfolding write_headers print_lines reserved
write_headers-print_lines [] k = refl
write_headers-print_lines (h ∷ hs) (c, k) =
    let at = λ (b : Bytes) (d : IsCStr b). strcmp_icase-lower h.first b [] [] c d in
    rw
      (
        at (codes "Content-Length") (ground arith),
        at (codes "Connection") (ground arith),
        write_headers-print_lines hs k,
      )
      (elim (Bool-cases (reserved h)) [ inl e ↦ rw e refl | inr e ↦ rw e refl ])

abbrev pub DataOk : Option Bytes → Type 0
DataOk none = Unit
DataOk (some s) = IsCStr s

unfoldable pub data_length : Option Bytes → ℕ
data_length none = 0
data_length (some s) = length s

content_length_of-data_length :
    (d : Option Bytes) → DataOk d → content_length_of d ≡ ok (data_length d)
unfolding content_length_of data_length
content_length_of-data_length none h = refl
content_length_of-data_length (some s) h = strlen-length s [] h

-- An answer that can be passed on: headers are given, and the strings are terminated.
pub record IsAnswer (answer : Answer) (headers : List StringPair) (name : Bytes) : Type 0 where
  pub succeeds : is_500 answer.res ≡ false
  pub has_name : http_code_name_safe answer.res ≡ ok name
  pub has_headers : answer.header_dest ≡ some headers
  pub names_cstr : All (λ (h : StringPair). IsCStr h.first) headers
  pub data_cstr : DataOk answer.data_dest

-- The data behind an empty line, where there is data.
abbrev data_text : Option Bytes → Bytes
data_text none = []
data_text (some text) = codes "\r\n" ++ text

-- The bytes of the response to an answer with these headers and this name of its status.
unfoldable pub print_answer : Answer → List StringPair → Bytes → Bytes
unfolding print_lines data_length
print_answer answer headers name =
    (codes "HTTP/1.1 "
      ++ print_ℤ answer.res
      ++ codes " "
      ++ name
      ++ codes "\r\nContent-Encoding: identity\r\nContent-Length: "
      ++ print_ℕ (data_length answer.data_dest)
      ++ codes "\r\nConnection: close\r\n"
      ++ codes "Server: chttpd/bravo2\r\n")
    ++ print_lines headers
    ++ data_text answer.data_dest

write_data-text : (d : Option Bytes) → write_data d ≡ data_text d
unfolding write_data
write_data-text none = refl
write_data-text (some text) = refl

abbrev strings_of : List StringPair → List Bytes
strings_of [] = []
strings_of (h ∷ hs) = h.first ∷ h.second ∷ strings_of hs

abbrev given : Option Bytes → List Bytes
given none = []
given (some s) = s ∷ []

-- What the module has allocated for an answer: the strings of the headers, their array, the data and
-- the text of the error.
unfoldable pub allocated : Answer → List StringPair → List Block
allocated answer headers =
    map Block.string (strings_of headers)
    ++ Block.pairs headers
      ∷ (map Block.string (given answer.data_dest) ++ map Block.string (given answer.err_dest))

header_blocks-strings : (hs : List StringPair) → header_blocks hs ≡ map Block.string (strings_of hs)
unfolding header_blocks
header_blocks-strings [] = refl
header_blocks-strings (h ∷ hs) =
    ap (λ bs. Block.string h.first ∷ Block.string h.second ∷ bs) (header_blocks-strings hs)

string_block-given : (s : Option Bytes) → string_block s ≡ map Block.string (given s)
unfolding string_block
string_block-given none = refl
string_block-given (some s) = refl

status-print :
    (answer : Answer) (headers : List StringPair) (name : Bytes)
    → status_lines answer.res name (data_length answer.data_dest)
        ++ print_lines headers
        ++ write_data answer.data_dest
      ≡ print_answer answer headers name
unfolding print_answer status_lines
status-print answer headers name = rw (write_data-text answer.data_dest) refl

respond-IsAnswer :
    (answer : Answer) (headers : List StringPair) (name : Bytes) (error : Error)
    → IsAnswer answer headers name
    → respond answer error
      ≡ ok (
        status_lines answer.res name (data_length answer.data_dest)
            ++ print_lines headers
            ++ write_data answer.data_dest,
        error,
        header_blocks headers ++ Block.pairs headers ∷ string_block answer.data_dest,
      )
unfolding respond
respond-IsAnswer answer headers name error h =
    rw (content_length_of-data_length answer.data_dest h.data_cstr, h.has_name)
      (rw h.has_headers (rw (write_headers-print_lines headers h.names_cstr) refl))

-- With a module that the configuration has loaded, an answer that succeeds is written with its
-- status, the length of its data, the headers that the server does not set itself and the data; the
-- error stays as it was, and what the module has allocated for the answer is released, each block
-- once.
pub handle_dcgi-preloaded :
    (linker : Linker) (dcgi_main : DcgiMain) (dcgi_lib : Bytes) (m : DcgiModule)
    (request : HttpRequest) (error : Error) (headers : List StringPair) (name : Bytes)
    → IsAnswer (dcgi_main m.dcgi_main request) headers name
    → let answer = dcgi_main m.dcgi_main request in
      handle_dcgi linker dcgi_main dcgi_lib (some m) request error
      ≡ ok (print_answer answer headers name, error, allocated answer headers)
unfolding handle_dcgi run_module unload_ret allocated
handle_dcgi-preloaded linker dcgi_main dcgi_lib m request error headers name h =
    let answer = dcgi_main m.dcgi_main request in
    rw (h.succeeds, respond-IsAnswer answer headers name error h)
      (rw
        (
          status-print answer headers name,
          header_blocks-strings headers,
          string_block-given answer.data_dest,
          string_block-given answer.err_dest,
          append_assoc (map Block.string (strings_of headers)),
        )
        refl)

-- A module without a handle and the error as it was, or no module and the code 500.
abbrev Loaded : Error → Option DcgiModule × Error → Type 0
Loaded error (some m, e) = (m.lib_handle ≡ none) × (e ≡ error)
Loaded error (none, e) = e.err_code ≡ pos 500

load_dcgi_module-Loaded :
    (linker : Linker) (lib : Bytes) (error : Error)
    → Loaded error (load_dcgi_module linker lib error)
unfolding load_dcgi_module format_error
load_dcgi_module-Loaded linker lib error = elim (Option-cases (linker.dlopen lib)) [
  | inl e ↦ rw (e, load_dcgi_module) (ground arith)
  | inr (handle, opens) ↦ elim (Option-cases (linker.dlsym handle (codes "dcgi_main"))) [
    | inl e ↦ rw (opens, load_dcgi_module) (rw e (ground arith))
    | inr (main, e) ↦ rw (opens, load_dcgi_module) (rw e (refl, refl))
  ]
]

unload_ret_unloaded :
    (linker : Linker) (m : DcgiModule) (answer : Answer) (o : Outcome)
    → m.lib_handle ≡ none
    → (out : Outcome) → unload_ret linker false m answer o ≢ ok out
unfolding unload_ret unload_dcgi_module
unload_ret_unloaded linker m answer o e out = rw (e, unload_ret) (λ p. cc)

run_module_unloaded :
    (linker : Linker) (dcgi_main : DcgiMain) (m : DcgiModule) (request : HttpRequest)
    (error : Error)
    → m.lib_handle ≡ none
    → (out : Outcome) → run_module linker dcgi_main false m request error ≢ ok out
unfolding run_module
run_module_unloaded linker dcgi_main m request error e out =
    let answer = dcgi_main m.dcgi_main request in
    elim (Bool-cases (is_500 answer.res)) [
      | inl h ↦
          rw h
            (unload_ret_unloaded linker m answer ([], main_failed error answer.err_dest, []) e out)
      | inr h ↦ rw h (λ p.
          let (o, _, q) = >>=-eq-ok (respond answer error) (unload_ret linker false m answer) p in
          unload_ret_unloaded linker m answer o e out q)
    ]

code_is_error : (e : Error) → e.err_code ≡ pos 500 → is_error e ≡ true
unfolding is_error
code_is_error e code = rw code refl

run_loaded-Loaded :
    (linker : Linker) (dcgi_main : DcgiMain) (request : HttpRequest) (error : Error) (out : Outcome)
    → is_error error ≡ false
    → (r : Option DcgiModule × Error) → Loaded error r
    → run_loaded linker dcgi_main request r ≡ ok out
    → (out.0 ≡ []) × (out.1.err_code ≡ pos 500)
unfolding run_loaded
run_loaded-Loaded linker dcgi_main request error out clean (some m, e) (no_handle, same) returns =
    let fine : is_error e ≡ false = ap is_error same ∙ clean in
    absurd (run_module_unloaded linker dcgi_main m request e no_handle out (rw fine at returns))
run_loaded-Loaded linker dcgi_main request error out clean (none, e) code returns =
    subst (λ (o : Outcome). (o.0 ≡ []) × (o.1.err_code ≡ pos 500))
      (ok-injective (rw (code_is_error e code) at returns)) (refl, code)

-- For a module that the configuration has not loaded, `handleDCGI` returns only with nothing
-- written and the code 500: where the module is loaded for the request, the call never returns,
-- since the handle that it closes was never stored.
pub handle_dcgi_on_demand :
    (linker : Linker) (dcgi_main : DcgiMain) (lib : Bytes) (request : HttpRequest) (error : Error)
    (out : Outcome)
    → is_error error ≡ false
    → handle_dcgi linker dcgi_main lib none request error ≡ ok out
    → (out.0 ≡ []) × (out.1.err_code ≡ pos 500)
unfolding handle_dcgi
handle_dcgi_on_demand linker dcgi_main lib request error out clean returns =
    run_loaded-Loaded linker dcgi_main request error out clean (load_dcgi_module linker lib error)
      (load_dcgi_module-Loaded linker lib error) returns
