-- ===== src/Libc.antt =====
-- What the program uses of the C standard library: characters, strings, numbers in decimal, and
-- pointers into memory. A pointer is the list of the bytes from it to the end of its block, so an
-- equal pointer is an equal rest, and a read at the end of the block is a fault.
pub mod Ensures
pub mod Search
pub mod Strings
pub mod Text
use chttpd.Prelude.{
  ℕ, suc, ◌+◌, ◌-◌, ◌*◌, ◌%◌, ◌^◌, ◌≢◌, ◌≡◌, refl, ◌⊎◌, inl, inr, Bool, true, false, not, ◌&&◌,
  ◌||◌, Option, none, some, List, [], ◌∷◌, ◌++◌, leb, ltb, ◌==◌, if◌then◌else◌, All,
}
use chttpd.Prelude.Int.{ℤ, pos, negsuc}

abbrev pub Bytes : Type 0
Bytes = List ℕ

pub data Fault : Type 0 where
  out_of_bounds null_pointer double_free uninitialised division_by_zero assertion_failed
        use_after_free missing_argument out_of_fuel :
      Fault

-- What a call comes to: a value, the callee's own failure (`0` or `NULL`), or undefined behaviour.
pub data Result {ℓ} (A : Type ℓ) : Type ℓ where
  ok : A → Result A
  reject : Result A
  fault : Fault → Result A

infixl 5 ◌>>=◌
abbrev pub ◌>>=◌ {ℓ κ} : {A : Type ℓ} {B : Type κ} → Result A → (A → Result B) → Result B
ok a >>= f = f a
reject >>= f = reject
fault e >>= f = fault e

-- A bind that returned: what its first part returned.
pub >>=-eq-ok {ℓ κ} :
    {A : Type ℓ} {B : Type κ} {y : B} (r : Result A) (k : A → Result B)
    → (r >>= k) ≡ ok y
    → (x : A) × (r ≡ ok x) × (k x ≡ ok y)
>>=-eq-ok reject k h = cc
>>=-eq-ok (fault e) k h = cc
>>=-eq-ok (ok x) k h = (x, refl, h)

-- A bind that failed: in its first part, or behind it.
pub >>=-eq-fault {ℓ κ} :
    {A : Type ℓ} {B : Type κ} (m : Result A) (f : A → Result B) {e : Fault}
    → (m >>= f) ≡ fault e
    → (m ≡ fault e) ⊎ ((a : A) × (m ≡ ok a) × (f a ≡ fault e))
>>=-eq-fault (ok a) f h = inr (a, refl, h)
>>=-eq-fault reject f h = cc
>>=-eq-fault (fault d) f h = inl cc

pub >>=-ne_fault {ℓ κ} :
    {A : Type ℓ} {B : Type κ} (m : Result A) (f : A → Result B) (e : Fault)
    → m ≢ fault e
    → ((a : A) → f a ≢ fault e)
    → (m >>= f) ≢ fault e
>>=-ne_fault (ok a) f e h k = k a
>>=-ne_fault reject f e h k = λ p. cc
>>=-ne_fault (fault d) f e h k = λ p. h (cc p)

pub fault-injective {ℓ} :
    (A : Type ℓ) {d e : Fault} → ◌≡◌ {A = Result A} (fault d) (fault e) → d ≡ e
fault-injective A h = cc

pub ok-injective {ℓ} : {A : Type ℓ} {a b : A} → ok a ≡ ok b → a ≡ b
ok-injective h = cc

-- The block of a string: its characters and the terminator.
abbrev pub cstr : Bytes → Bytes
cstr s = s ++ 0 ∷ []

-- No character of the string is the terminator.
abbrev pub IsCStr : Bytes → Type 0
IsCStr = All (λ c. c ≢ 0)

unfoldable pub tolower : ℕ → ℕ
tolower c = if leb b'A' c && leb c b'Z' then c + 32 else c

unfoldable pub isspace : ℕ → Bool
isspace c = c == 32 || (leb 9 c && leb c 13)

unfoldable pub isdigit : ℕ → Bool
isdigit c = leb b'0' c && leb c b'9'

-- The characters before the first terminator: what `strncpy` leaves of them as a string.
unfoldable pub until_nul : Bytes → Bytes
until_nul [] = []
until_nul (c ∷ s) = if c == 0 then [] else c ∷ until_nul s

unfoldable pub strlen : Bytes → Result ℕ
strlen [] = fault out_of_bounds
strlen (c ∷ m) = if c == 0 then ok 0 else (strlen m >>= λ n. ok (n + 1))

-- `strchr`: the characters that it passed over, and the memory behind the one that it found.
unfoldable pub strchr : Bytes → ℕ → Result (Option (Bytes × Bytes))
strchr [] x = fault out_of_bounds
strchr (c ∷ m) x =
    if c == x
    then ok (some ([], m))
    else if c == 0
    then ok none
    else strchr m x >>= λ r. ok (elim r [ none ↦ none | some (s, t) ↦ some (c ∷ s, t) ])

-- The last place of the character `x`, which is not the terminator.
unfoldable pub strrchr : Bytes → ℕ → Result (Option Bytes)
strrchr [] x = fault out_of_bounds
strrchr (c ∷ s) x =
    let rest = strrchr s x in
    if c == 0
    then ok none
    else (rest >>= λ later. elim later [
      | some p ↦ ok (some p)
      | none ↦ if c == x then ok (some (c ∷ s)) else ok none
    ])

-- `strcmp(a, b) == 0`
unfoldable pub strcmp_eq : Bytes → Bytes → Result Bool
strcmp_eq [] b = fault out_of_bounds
strcmp_eq (c ∷ a) [] = fault out_of_bounds
strcmp_eq (c ∷ a) (d ∷ b) = if c == d then (if c == 0 then ok true else strcmp_eq a b) else ok false

-- `strncmp(a, b, n) == 0`, recursion on the characters left to compare.
unfoldable pub strncmp_eq : Bytes → Bytes → ℕ → Result Bool
strncmp_eq a b ℕ.zero = ok true
strncmp_eq [] b (suc n) = fault out_of_bounds
strncmp_eq (c ∷ a) [] (suc n) = fault out_of_bounds
strncmp_eq (c ∷ a) (d ∷ b) (suc n) =
    if c == d then (if c == 0 then ok true else strncmp_eq a b n) else ok false

-- The digits of `strtol` in base ten, from the value read so far.
unfoldable pub digits_value : Bytes → ℕ → ℕ
unfolding isdigit
digits_value [] acc = acc
digits_value (c ∷ s) acc = if isdigit c then digits_value s (acc * 10 + (c - b'0')) else acc

unfoldable pub skip_spaces : Bytes → Bytes
skip_spaces [] = []
skip_spaces (c ∷ s) = if isspace c then skip_spaces s else c ∷ s

-- The low 32 bits of a two's complement number, as an `int`.
unfoldable pub to_int32 : ℕ → ℤ
to_int32 n = let r = n % 2 ^ 32 in if ltb r (2 ^ 31) then pos r else negsuc (2 ^ 32 - 1 - r)

-- The sign that `strtol` reads, and what is left.
unfoldable pub read_sign : Bytes → Bool × Bytes
read_sign [] = (false, [])
read_sign (c ∷ s) =
    if c == b'-' then (true, s) else if c == b'+' then (false, s) else (false, c ∷ s)

-- `atoi` as glibc has it: `strtol` clamps to a 64-bit `long`, and the cast drops the high bits.
unfoldable pub atoi : Bytes → ℤ
unfolding isspace skip_spaces read_sign digits_value to_int32
atoi s =
    let (minus, t) = read_sign (skip_spaces s) in
    let n = digits_value t 0 in
    if minus
    then to_int32 (2 ^ 64 - (if ltb (2 ^ 63) n then 2 ^ 63 else n))
    else to_int32 (if ltb n (2 ^ 63) then n else 2 ^ 63 - 1)
