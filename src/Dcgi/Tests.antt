-- ===== src/Dcgi/Tests.antt =====
-- A module at a concrete request.
use chttpd.Prelude.{◌≡◌, refl, true, false, none, some, List, [], ◌∷◌, arith}
use chttpd.Prelude.Int.{pos}
use chttpd.Libc.{ok}
use chttpd.Libc.Text.{codes}
use chttpd.Util.{StringPair}
use chttpd.Error.{new_error, is_error, format_error}
use chttpd.Http.{HttpMethod, HttpRequest, http_code_name_safe}
use chttpd.Dcgi.{Linker, DcgiModule, load_dcgi_module}
use chttpd.Dcgi.Handle.{DcgiMain, Block, Outcome, handle_dcgi}
use chttpd.Dcgi.Answers.{
  print_answer, allocated, IsAnswer, handle_dcgi-preloaded, handle_dcgi_on_demand,
}

abbrev no_library : Linker
no_library = record {
  dlopen = λ lib. none;
  dlsym = λ handle name. none;
  dlclose = λ handle. true;
  dlerror = codes "no such file";
}

abbrev text_header : List StringPair
text_header = (record { first = codes "Content-Type"; second = codes "text/plain" }) ∷ []

abbrev says_hello : DcgiMain
says_hello = λ address request. record {
  res = pos 200;
  header_dest = some text_header;
  data_dest = some (codes "hello");
  err_dest = none;
}

abbrev hello_module : DcgiModule
hello_module = record { lib_handle = none; dcgi_main = 4; dcgi_dealloc = none }

abbrev get_request : HttpRequest
get_request = record {
  method = HttpMethod.get;
  content_length = 0;
  request_path = codes "/hello";
  query_string = none;
  params = [];
  headers = [];
  body = [];
}

hello-IsAnswer : IsAnswer (says_hello 4 get_request) text_header (codes "Ok")
unfolding http_code_name_safe
hello-IsAnswer = record {
  succeeds = refl;
  has_name = refl;
  has_headers = refl;
  names_cstr = (ground arith, tt);
  data_cstr = ground arith;
}

handle_dcgi-preloaded_example :
    handle_dcgi no_library says_hello
      (codes "hello.so")
      (some hello_module)
      get_request
      (new_error 4096)
    ≡ ok (
      print_answer (says_hello 4 get_request) text_header (codes "Ok"),
      new_error 4096,
      Block.string (codes "Content-Type")
          ∷ Block.string (codes "text/plain")
          ∷ Block.pairs text_header
          ∷ Block.string (codes "hello")
          ∷ [],
    )
unfolding allocated
handle_dcgi-preloaded_example =
    handle_dcgi-preloaded no_library says_hello (codes "hello.so") hello_module get_request
      (new_error 4096) text_header (codes "Ok") hello-IsAnswer

clean : is_error (new_error 4096) ≡ false
unfolding is_error new_error
clean = refl

abbrev not_found : Outcome
not_found = ([], (load_dcgi_module no_library (codes "hello.so") (new_error 4096)).1, [])

runs_not_found :
    handle_dcgi no_library says_hello (codes "hello.so") none get_request (new_error 4096)
    ≡ ok not_found
unfolding handle_dcgi load_dcgi_module is_error new_error format_error
runs_not_found = refl

handle_dcgi_on_demand_example : (not_found.0 ≡ []) × (not_found.1.err_code ≡ pos 500)
handle_dcgi_on_demand_example =
    handle_dcgi_on_demand no_library says_hello (codes "hello.so") get_request (new_error 4096)
      not_found clean runs_not_found
