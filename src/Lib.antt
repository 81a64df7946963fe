-- ===== src/Lib.antt =====
-- chttpd, a small web server: what it reads, how it is configured, and what it writes.
--
-- One connection is one call of `httpHandler` (src/main.c). It reads a request (src/http.c), looks
-- for the first route whose pattern fits (src/main.c, src/util.c), and hands the request to the
-- handler of the route: a file (src/static.c, src/file_util.c), a module loaded at run time
-- (src/dcgi.c) or a page that the server makes itself (src/intern.c). A failure is left in a buffer
-- (src/error.c), from which a page is made. The routes come from a configuration (src/config.c), a
-- program of commands that an interpreter runs (pl2/pl2b.c).
--
-- The modules and the code that they are about:
-- - Prelude: shared names and lemmas; Libc: what the program uses of the C library, with
--   `Result` for a value, a failure of the callee, or undefined behaviour (`Fault`).
-- - Util: src/util.c. `Util.Compare` says what `strcmp_icase`, `slicecmp_icase`, `urlcmp` and
--   `urlcmp_icase` decide; `Util.Log` is `chttpdLog`.
-- - Error: src/error.c. `new_error` is `errorBuffer`, `format_error` is `formatError`.
-- - Http: src/http.c. `Http` has the methods and codes, `Http.Method` compares the two parsers of
--   methods; `Http.Query` is `parseQueryPath`; `Http.Lines` is `readHttpLine`, `parseHttpFirstLine`
--   and `parseHttpHeaderLine`; `Http.Request` is `readHttpRequest`, with the block that its variable
--   `line` points to.
-- - Pl2: pl2/pl2b.c. `Pl2` is the run of a program (`pl2b_runWithLanguage`, `cmdHandler`) and
--   `Pl2.Run` its rule for invariants; `Pl2.Parser` has the characters and strings of a text,
--   `Pl2.Parser.Lines` its parts, lines and commands (`pl2b_parse`), `Pl2.Parser.Bounds` how far
--   each step gets, and `Pl2.Parser.Marks` is about `?begin`.
--   `Pl2.Printer` prints commands, and `Pl2.Printer.RoundTrip` says that they are read back.
--   `Pl2.Chain` has the commands on the heap (`pl2b_cmd5`, `pl2b_dropProgram`), which elsewhere are a
--   list; `Pl2.Chain.Append` and `Pl2.Chain.Release` say that they are a chain in this order.
-- - Vec: cclib/cc_vec.c. `Vec.Room` says what a vector holds, `Vec.Refinement` that its operations are
--   those of a list. Linked: cclib/cc_list.c. `Linked.Links` says what a list is, `Linked.Moves` is
--   about chains of links, `Linked.Ring` about links in and out, `Linked.Ends` about both ends, `Linked.Destroy` about the loops.
-- - Config: src/config.c. `Config.Commands` has a function for each command, `Config.Language` the
--   table, `Config.Invariant` the well-formed configurations, `Config.Keeps` and `Config.Tables` that
--   each command keeps them, `Config.Evaluate` the evaluation of a program; `Config.Parsed` is about the
--   commands that the parser reads, and `Config.Load` about the start of `main`.
-- - Intern: src/intern.c. Static: src/static.c and src/file_util.c, with `Static.Mime` for
--   `mimeGuess`. Dcgi: src/dcgi.c, with `Dcgi.Handle` for `handleDCGI`.
-- - Server: src/main.c. `http_handler` is `httpHandler`, `find_route` the loop of `routeAndHandle`;
--   `Server.Cors` is about `isCorsRequest` and `getAllowedCorsMethods`. `Server.Loop` is the loop of
--   `httpMainLoop` and its threads: an event is one turn of either, a list of events an interleaving,
--   and `Server.Loop.Invariant`, `Server.Loop.Answers`, `Server.Loop.Liveness` and
--   `Server.Loop.Shutdown` are about the states that it gets to. `Server.Start` is `main` up to the
--   loop, with `Server.Start.Text` for the text of the file and `Server.Start.Outcome` for when the
--   loop is reached, and `Server.Served` puts all the parts together.
-- The modules named Tests hold runs and examples.
--
-- How the code is read. A pointer into a string is the list of the bytes from it to the end of its
-- block, terminator included; a read at the end of the list is the fault `out_of_bounds`. The stream
-- of a connection is the list of the bytes that are yet to arrive, and what is written is the list
-- of its bytes. A vector is a list in what the server does with it, and bytes in Vec. Numbers are natural numbers or
-- integers; `atoi` has the bounds of a 64-bit `long` and wraps to 32 bits, `pl2b_argsLen` counts in
-- 16 bits, and a method is the bit that the enumeration gives it.
--
-- Loops without a structural bound run on fuel, and the fault `out_of_fuel` stands for its end:
-- the loop over the parameters has one round more than the slice has bytes, the loop over the
-- headers one round more than the stream has bytes, the run of a program one round more than it has
-- commands, the loop over the lines of a text one round more than it has characters, and the loop
-- over the parts of a line one round more than there are characters and places in the parse buffer.
-- The loops over a linked list or over the commands of a program have fuel for more rounds than there
-- are nodes. The results below
-- say that these are enough.
--
-- Threads. A thread takes two turns: it reads its request, and it routes and answers it. All that a
-- thread does between these is its own, but for the configuration, which no thread writes; `main`
-- releases it once `accept` has failed, and may do so in the middle of a turn, which no list of events
-- shows: what is said of answers is said of runs in which `accept` does not fail. What
-- `accept`, `malloc` and `pthread_create` give is part of the event.
--
-- Not modelled: the calls of the log; `fdopen` and small allocations that fail; the system calls themselves;
-- the release of memory, but for `line`, the blocks of a module's answer and the commands of a program; the build tool
-- cclib/cc_proc_macro.c; agno3_impl.c, which is not built. The dynamic linker, the functions of modules, the
-- file system, `malloc` of a file's buffer and of a request, and `errno` are parameters.
pub mod Prelude
pub mod Libc
pub mod Util
pub mod Http
pub mod Error
pub mod Pl2
pub mod Vec
pub mod Linked
pub mod Dcgi
pub mod Config
pub mod Intern
pub mod Static
pub mod Server
