-- ===== src/Homework/Cpuinfo.antt =====
-- hw1/kernelthreadcount.c: the cores and hyperthreads of the machine, from /proc/cpuinfo. A string is
-- the list of its characters, and the file is the list of what `fgets` gives, at most 255
-- characters each; `none` is a file that cannot be opened.
pub mod Line
use operating_system_linux_t.Common.{
  ℕ, zero, suc, ◌+◌, ◌-◌, ◌*◌, ◌/◌, ◌%◌, ◌^◌, Bool, true, false, ◌&&◌, ◌||◌, not, Option, none,
  some, List, [], ◌∷◌, ◌==◌, leb, ltb, length, if◌then◌else◌,
}
use operating_system_linux_t.Memory.{Run, ok, fault}
use operating_system_linux_t.Machine.{int_mod}

-- `strstr`, as the test that it is used for.
abbrev pub is_prefix : List ℕ → List ℕ → Bool
is_prefix [] s = true
is_prefix (x ∷ xs) [] = false
is_prefix (x ∷ xs) (y ∷ ys) = (x == y) && is_prefix xs ys

abbrev pub strstr : List ℕ → List ℕ → Bool
strstr [] s = is_prefix s []
strstr (y ∷ ys) s = is_prefix s (y ∷ ys) || strstr ys s

-- "cpu cores"
abbrev pub cpu_cores : List ℕ
cpu_cores = 99 ∷ 112 ∷ 117 ∷ 32 ∷ 99 ∷ 111 ∷ 114 ∷ 101 ∷ 115 ∷ []

-- `strtok` with one delimiter: the delimiters in front are passed over, and the token ends before
-- the next one; what is left stands behind that one.
abbrev pub skip : ℕ → List ℕ → List ℕ
skip d [] = []
skip d (x ∷ xs) = if x == d then skip d xs else x ∷ xs

abbrev pub token : ℕ → List ℕ → List ℕ
token d [] = []
token d (x ∷ xs) = if x == d then [] else x ∷ token d xs

abbrev pub behind : ℕ → List ℕ → List ℕ
behind d [] = []
behind d (x ∷ xs) = if x == d then xs else behind d xs

-- The token, none at the end of the string, and what is left.
abbrev pub strtok : ℕ → List ℕ → Option (List ℕ) × List ℕ
strtok d s = elim (skip d s) [
  | [] ↦ (none, [])
  | x ∷ xs ↦ (some (token d (x ∷ xs)), behind d (x ∷ xs))
]

-- `isspace` and `atoi`: white space, a sign, digits. The value is an `int`.
abbrev pub is_space : ℕ → Bool
is_space c = (c == 32) || (leb 9 c && leb c 13)

abbrev pub is_digit : ℕ → Bool
is_digit c = leb 48 c && leb c 57

abbrev pub digits_from : ℕ → List ℕ → ℕ
digits_from acc [] = acc
digits_from acc (c ∷ cs) = if is_digit c then digits_from (acc * 10 + (c - 48)) cs else acc

abbrev pub signed : List ℕ → ℕ
signed [] = 0
signed (c ∷ cs) =
    if c == 45
    then (int_mod - digits_from 0 cs % int_mod) % int_mod
    else (if c == 43 then digits_from 0 cs % int_mod else digits_from 0 (c ∷ cs) % int_mod)

abbrev pub atoi : List ℕ → ℕ
atoi [] = 0
atoi (c ∷ cs) = if is_space c then atoi cs else signed (c ∷ cs)

-- What the reading loop leaves in `tmp`, which held `tmp` before: the first piece with "cpu cores" in
-- it, else the last piece.
unfoldable pub read_line : List ℕ → List (List ℕ) → List ℕ
read_line tmp [] = tmp
read_line tmp (piece ∷ pieces) = if strstr piece cpu_cores then piece else read_line piece pieces

-- The loop over the tokens, on fuel: `pch` is the token at hand, `rest` what `strtok` has left.
unfoldable pub read_tokens : (fuel : ℕ) → (no_of_core : ℕ) → Option (List ℕ) → List ℕ → ℕ
read_tokens zero no_of_core pch rest = no_of_core
read_tokens (suc fuel) no_of_core none rest = no_of_core
read_tokens (suc fuel) no_of_core (some pch) rest =
    let next = strtok 32 rest in
    read_tokens fuel (if strstr pch cpu_cores then no_of_core else atoi pch) next.0 next.1

-- `get_no_of_cores`; `junk` is what the uninitialised `no_of_core` holds.
unfoldable pub get_no_of_cores : (junk : ℕ) → Option (List (List ℕ)) → ℕ
unfolding read_line read_tokens
get_no_of_cores junk none = junk
get_no_of_cores junk (some pieces) =
    let tmp = read_line [] pieces in
    let next = strtok 58 tmp in read_tokens (suc (suc (length tmp))) junk next.0 next.1

-- `get_no_of_hyperthreads` for the answer of `sysconf`, both counts below 2 ^ 31; a division by zero
-- is a fault.
unfoldable pub get_no_of_hyperthreads : (num_cpus junk : ℕ) → Option (List (List ℕ)) → Run ℕ
unfolding get_no_of_cores
get_no_of_hyperthreads num_cpus junk file =
    let cores = get_no_of_cores junk file in if cores == 0 then fault else ok (num_cpus / cores)
