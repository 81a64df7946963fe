-- ===== src/Util/Log/Tests.antt =====
-- A line of a thread with the number 3.
use chttpd.Prelude.{ℕ, ◌≡◌, refl, ap, Option, none, some, [], ◌∷◌, arith, length}
use chttpd.Prelude.Int.{pos}
use chttpd.Libc.{Bytes}
use chttpd.Libc.Text.{codes}
use chttpd.Util.Log.{Logger, Place, ll_info}
use chttpd.Util.Log.Bounds.{MallocOk, Logged, chttpd_log-Logged}

fill : ℕ → Bytes
fill ℕ.zero = []
fill (ℕ.suc n) = 0 ∷ fill n

length-fill : (n : ℕ) → length (fill n) ≡ n
unfolding fill
length-fill ℕ.zero = refl
length-fill (ℕ.suc n) = ap ℕ.suc (length-fill n)

abbrev malloc : ℕ → Option Bytes
malloc n = some (fill n)

malloc-MallocOk : MallocOk malloc
malloc-MallocOk n block e = let same : fill n ≡ block = cc in rw (← same) (length-fill n)

abbrev logger : Logger
logger = record { buffer = none; buffer_size = 0; worker_id = pos 3 }

abbrev place : Place
place = record { level = ll_info; file_name = codes "main.c"; line = pos 175; func = codes "main" }

chttpd_log-Logged_example : Logged malloc logger place (codes "accepting")
chttpd_log-Logged_example =
    chttpd_log-Logged malloc place (codes "accepting") logger malloc-MallocOk refl (ground arith)
