-- ===== src/Server/Io/Reading.antt =====
-- What `correct_read` returns, against the bytes that the answers carry.
use operating_system_linux_t.Common.{
  ℕ, suc, ◌+◌, ◌-◌, ◌≤◌, ◌<◌, ◌≡◌, refl, sym, ◌∙◌, subst, inl, inr, List, [], ◌∷◌, ◌++◌, ◌==◌,
  if◌then◌else◌, length, length-append, arith,
}
use mathlib.Core.List.{append_assoc, append-nil}
use operating_system_linux_t.Server.Io.Room.{
  room_left, not_empty, sub_twice, sum_assoc, in_range, no_room, from_zero,
}
use operating_system_linux_t.Server.Io.{
  Answer, got, fail, count, minus_one, Transfer, done, waiting, try_again, read_loop, correct_read,
}

-- `read` gives at most the bytes that it is asked for.
abbrev pub Honest : ℕ → List Answer → Type 0
Honest room [] = Unit
Honest room (got bytes ∷ more) = (length bytes ≤ room) × Honest (room - length bytes) more
Honest room (fail errno ∷ more) = Honest room more

-- The bytes up to the end of the stream or the first error that is not tried again.
unfoldable pub stream : List Answer → List ℕ
stream [] = []
stream (got bytes ∷ more) = if length bytes == 0 then [] else bytes ++ stream more
stream (fail errno ∷ more) = if try_again errno then stream more else []

-- How a read ends that gets no more than `stream`, which it has put into `buffer`.
unfoldable pub ending : List Answer → List ℕ → Transfer
ending [] buffer = waiting buffer
ending (got bytes ∷ more) buffer =
    if length bytes == 0 then done (count 0) buffer else ending more buffer
ending (fail errno ∷ more) buffer =
    if try_again errno then ending more buffer else done minus_one buffer

-- With no room left nothing more comes.
stream-nil : (answers : List Answer) → Honest 0 answers → stream answers ≡ []
unfolding stream
stream-nil [] h = refl
stream-nil (got [] ∷ more) h = refl
stream-nil (got (b ∷ bytes) ∷ more) h = absurd (omega (arith, h.0))
stream-nil (fail errno ∷ more) h = ground (arith, stream-nil more h)

-- What a read of `len` bytes must return.
unfoldable pub reads : List Answer → ℕ → ℕ → List ℕ → Transfer
reads answers len sofar buffer =
    if sofar + length (stream answers) == len
    then done (count len) (buffer ++ stream answers)
    else ending answers (buffer ++ stream answers)

read_loop-full :
    (answers : List Answer) (len : ℕ) (buffer : List ℕ)
    → read_loop answers len len buffer ≡ done (count len) buffer
unfolding read_loop
read_loop-full [] len buffer = ground arith
read_loop-full (got bytes ∷ more) len buffer = ground arith
read_loop-full (fail errno ∷ more) len buffer = ground arith

stream-got :
    (b : ℕ) (bytes : List ℕ) (more : List Answer)
    → stream (got (b ∷ bytes) ∷ more) ≡ (b ∷ bytes) ++ stream more
unfolding stream
stream-got b bytes more = rw (not_empty (length bytes)) refl

ending-got :
    (b : ℕ) (bytes : List ℕ) (more : List Answer) (buffer : List ℕ)
    → ending (got (b ∷ bytes) ∷ more) buffer ≡ ending more buffer
unfolding ending
ending-got b bytes more buffer = rw (not_empty (length bytes)) refl

-- The bytes that arrive are the head of the stream.
reads-got :
    (b : ℕ) (bytes : List ℕ) (more : List Answer) (len sofar : ℕ) (buffer : List ℕ)
    → reads more len (sofar + suc (length bytes)) (buffer ++ b ∷ bytes)
      ≡ reads (got (b ∷ bytes) ∷ more) len sofar buffer
unfolding reads
reads-got b bytes more len sofar buffer = rw (
  stream-got b bytes more,
  ending-got b bytes more (buffer ++ ((b ∷ bytes) ++ stream more)),
  length-append bytes (stream more),
  append_assoc buffer (b ∷ bytes) (stream more),
  sum_assoc sofar (length bytes) (length (stream more)),
)

reads-fail :
    (errno : ℕ) (more : List Answer) (len sofar : ℕ) (buffer : List ℕ)
    → sofar < len
    → (if try_again errno then reads more len sofar buffer else done minus_one buffer)
      ≡ reads (fail errno ∷ more) len sofar buffer
unfolding reads stream ending
reads-fail errno more len sofar buffer lt = ground (arith, append-nil buffer)

read_loop-got :
    (b : ℕ) (bytes : List ℕ) (more : List Answer) (len sofar : ℕ) (buffer : List ℕ)
    → suc (length bytes) ≤ len - sofar
    → read_loop (got (b ∷ bytes) ∷ more) len sofar buffer
      ≡ read_loop more len (sofar + suc (length bytes)) (buffer ++ b ∷ bytes)
unfolding read_loop
read_loop-got b bytes more len sofar buffer h =
    rw (room_left (length bytes) len sofar h, not_empty (length bytes)) refl

read_loop-fail :
    (errno : ℕ) (more : List Answer) (len sofar : ℕ) (buffer : List ℕ)
    → sofar < len
    → read_loop (fail errno ∷ more) len sofar buffer
      ≡ (if try_again errno then read_loop more len sofar buffer else done minus_one buffer)
unfolding read_loop
read_loop-fail errno more len sofar buffer h = ground arith

reads-full :
    (answers : List Answer) (len : ℕ) (buffer : List ℕ)
    → Honest 0 answers
    → reads answers len len buffer ≡ done (count len) buffer
unfolding reads
reads-full answers len buffer h = rw (stream-nil answers h, append-nil buffer) (ground arith)

read_loop-reads :
    (answers : List Answer) (len sofar : ℕ) (buffer : List ℕ)
    → sofar ≤ len
    → Honest (len - sofar) answers
    → read_loop answers len sofar buffer ≡ reads answers len sofar buffer
unfolding read_loop reads stream ending
read_loop-reads [] len sofar buffer le h = rw (append-nil buffer) (ground arith)
read_loop-reads (got [] ∷ more) len sofar buffer le h = rw (append-nil buffer) (ground arith)
read_loop-reads (got (b ∷ bytes) ∷ more) len sofar buffer le h =
    read_loop-got b bytes more len sofar buffer h.0
    ∙ read_loop-reads more len (sofar + suc (length bytes)) (buffer ++ b ∷ bytes)
        (omega (arith, h.0)) (rw (sub_twice len sofar (suc (length bytes))) h.1)
    ∙ reads-got b bytes more len sofar buffer
read_loop-reads (fail errno ∷ more) len sofar buffer le h = elim (in_range len sofar le) [
  | inl full ↦
      subst
        (λ n.
          read_loop (fail errno ∷ more) n sofar buffer ≡ reads (fail errno ∷ more) n sofar buffer)
        full
        (read_loop-full (fail errno ∷ more) sofar buffer
          ∙ sym (
              reads-full (fail errno ∷ more) sofar buffer
                (subst (λ n. Honest n (fail errno ∷ more)) (no_room len sofar full) h)))
  | inr room ↦
      read_loop-fail errno more len sofar buffer room
      ∙ rw (read_loop-reads more len sofar buffer le h)
          (reads-fail errno more len sofar buffer room)
]

-- At most `len` bytes are asked for at each call. Then `correct_read` returns `len` with the bytes
-- of the stream where they are `len`; else what it has read is the whole stream, and it returns 0
-- at the end of the stream, -1 on an error other than EAGAIN and EINTR, or waits.
pub correct_read-reads :
    (answers : List Answer) (len : ℕ)
    → Honest len answers
    → correct_read answers len ≡ reads answers len 0 []
unfolding correct_read
correct_read-reads answers len h =
    read_loop-reads answers len 0 [] (omega arith) (rw (from_zero len) h)
