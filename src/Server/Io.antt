-- ===== src/Server/Io.antt =====
-- `correct_read` and `correct_write` of server/common.c. `read` and `write` are the system's: each
-- call's answer comes from a list.
pub mod Reading
pub mod Writing
mod Room
use operating_system_linux_t.Common.{
  ℕ, zero, suc, ◌+◌, ◌-◌, ◌^◌, Bool, true, false, ◌||◌, List, [], ◌∷◌, ◌++◌, ◌==◌, if◌then◌else◌,
  length, take, drop,
}

-- What `read` answers: bytes, none at the end of the stream, or -1 with an errno.
pub data Answer : Type 0 where
  got : List ℕ → Answer
  fail : (errno : ℕ) → Answer

-- What `write` answers: how many bytes it took, or -1 with an errno.
pub data Sent : Type 0 where
  took : ℕ → Sent
  refused : (errno : ℕ) → Sent

pub data Value : Type 0 where
  count : ℕ → Value
  minus_one : Value

-- A call that has returned, with the bytes moved, or one that still waits for an answer.
pub data Transfer : Type 0 where
  done : Value → List ℕ → Transfer
  waiting : List ℕ → Transfer

-- EAGAIN and EINTR of errno.h
abbrev pub try_again : ℕ → Bool
try_again errno = errno == 11 || errno == 4

-- The loop of `correct_read` with `sofar` bytes in `buffer`.
unfoldable pub read_loop : List Answer → (len sofar : ℕ) → List ℕ → Transfer
read_loop [] len sofar buffer = if sofar == len then done (count len) buffer else waiting buffer
read_loop (got bytes ∷ more) len sofar buffer =
    let rest = read_loop more len (sofar + length bytes) (buffer ++ bytes) in
    if sofar == len
    then done (count len) buffer
    else (if length bytes == 0 then done (count 0) buffer else rest)
read_loop (fail errno ∷ more) len sofar buffer =
    let rest = read_loop more len sofar buffer in
    if sofar == len
    then done (count len) buffer
    else (if try_again errno then rest else done minus_one buffer)

unfoldable pub correct_read : List Answer → ℕ → Transfer
unfolding read_loop
correct_read answers len = read_loop answers len 0 []

-- The loop of `correct_write` with `sofar` bytes of `data'` sent.
unfoldable pub write_loop : List Sent → List ℕ → (len sofar : ℕ) → List ℕ → Transfer
write_loop [] data' len sofar wire = if sofar == len then done (count len) wire else waiting wire
write_loop (took n ∷ more) data' len sofar wire =
    let rest = write_loop more data' len (sofar + n) (wire ++ take n (drop sofar data')) in
    if sofar == len then done (count len) wire else (if n == 0 then done (count 0) wire else rest)
write_loop (refused errno ∷ more) data' len sofar wire =
    let rest = write_loop more data' len sofar wire in
    if sofar == len
    then done (count len) wire
    else (if try_again errno then rest else done minus_one wire)

-- -1 as an `int`.
abbrev pub int_minus_one : ℕ
int_minus_one = 2 ^ 32 - 1

-- How many characters stand before the NUL.
abbrev pub strlen : List ℕ → ℕ
strlen [] = 0
strlen (c ∷ cs) = let more = suc (strlen cs) in if c == 0 then 0 else more

-- The length that a call asks for.
abbrev pub write_length : List ℕ → ℕ → ℕ
write_length data' len = if len == int_minus_one then strlen data' else len

-- `data'` is the memory from the pointer on, as far as it may be read.
unfoldable pub correct_write : List Sent → List ℕ → ℕ → Transfer
unfolding write_loop
correct_write sents data' len = write_loop sents data' (write_length data' len) 0 []
