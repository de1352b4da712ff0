-- ===== src/Server/Io/Writing.antt =====
-- What `correct_write` sends, against the counts that the answers carry.
use operating_system_linux_t.Common.{
  ℕ, zero, suc, ◌+◌, ◌-◌, ◌≤◌, ◌<◌, ◌≡◌, refl, sym, ◌∙◌, ap, subst, inl, inr, List, [], ◌∷◌, ◌++◌,
  ◌==◌, if◌then◌else◌, take, drop, arith,
}
use operating_system_linux_t.Server.Io.Room.{
  room_left, not_empty, sub_twice, sum_assoc, in_range, no_room, from_zero, plus_zero, short,
  zero_plus, suc_plus,
}
use operating_system_linux_t.Server.Io.{
  Sent, took, refused, count, minus_one, Transfer, done, waiting, try_again, write_loop,
  write_length, correct_write,
}

-- `write` takes at most the bytes that it is given.
abbrev pub HonestSent : ℕ → List Sent → Type 0
HonestSent room [] = Unit
HonestSent room (took n ∷ more) = (n ≤ room) × HonestSent (room - n) more
HonestSent room (refused errno ∷ more) = HonestSent room more

-- How many bytes are taken up to a count of 0 or the first error that is not tried again.
unfoldable pub accepted : List Sent → ℕ
accepted [] = 0
accepted (took zero ∷ more) = 0
accepted (took (suc n) ∷ more) = suc (n + accepted more)
accepted (refused errno ∷ more) = if try_again errno then accepted more else 0

-- How a write ends that has not sent everything.
unfoldable pub cut_short : List Sent → List ℕ → Transfer
cut_short [] wire = waiting wire
cut_short (took zero ∷ more) wire = done (count 0) wire
cut_short (took (suc n) ∷ more) wire = cut_short more wire
cut_short (refused errno ∷ more) wire =
    if try_again errno then cut_short more wire else done minus_one wire

-- What a write must do after `sofar` bytes.
unfoldable pub writes : List Sent → List ℕ → ℕ → ℕ → Transfer
writes sents data' len sofar =
    if sofar + accepted sents == len
    then done (count len) (take len data')
    else cut_short sents (take (sofar + accepted sents) data')

take-nil : (b : ℕ) → take {A = ℕ} b [] ≡ []
take-nil zero = refl
take-nil (suc b) = refl

take-add : (xs : List ℕ) (a b : ℕ) → take a xs ++ take b (drop a xs) ≡ take (a + b) xs
take-add xs zero b = rw (zero_plus b) refl
take-add [] (suc a) b = take-nil b ∙ sym (take-nil (suc a + b))
take-add (x ∷ xs) (suc a) b = rw (suc_plus a b) (ap (λ ys. x ∷ ys) (take-add xs a b))

accepted-zero : (sents : List Sent) → HonestSent 0 sents → accepted sents ≡ 0
unfolding accepted
accepted-zero [] h = refl
accepted-zero (took zero ∷ more) h = refl
accepted-zero (took (suc n) ∷ more) h = absurd (omega (arith, h.0))
accepted-zero (refused errno ∷ more) h = ground (arith, accepted-zero more h)

write_loop-full :
    (sents : List Sent) (data' : List ℕ) (len : ℕ) (wire : List ℕ)
    → write_loop sents data' len len wire ≡ done (count len) wire
unfolding write_loop
write_loop-full [] data' len wire = ground arith
write_loop-full (took n ∷ more) data' len wire = ground arith
write_loop-full (refused errno ∷ more) data' len wire = ground arith

writes-full :
    (sents : List Sent) (data' : List ℕ) (len : ℕ)
    → HonestSent 0 sents
    → writes sents data' len len ≡ done (count len) (take len data')
unfolding writes
writes-full sents data' len h = rw (accepted-zero sents h) (ground arith)

write_loop-took :
    (n : ℕ) (more : List Sent) (data' : List ℕ) (len sofar : ℕ) (wire : List ℕ)
    → suc n ≤ len - sofar
    → write_loop (took (suc n) ∷ more) data' len sofar wire
      ≡ write_loop more data' len (sofar + suc n) (wire ++ take (suc n) (drop sofar data'))
unfolding write_loop
write_loop-took n more data' len sofar wire h = rw (room_left n len sofar h, not_empty n) refl

writes-took :
    (n : ℕ) (more : List Sent) (data' : List ℕ) (len sofar : ℕ)
    → writes more data' len (sofar + suc n) ≡ writes (took (suc n) ∷ more) data' len sofar
unfolding writes accepted cut_short
writes-took n more data' len sofar = rw (sum_assoc sofar n (accepted more)) refl

write_loop-refused :
    (errno : ℕ) (more : List Sent) (data' : List ℕ) (len sofar : ℕ) (wire : List ℕ)
    → sofar < len
    → write_loop (refused errno ∷ more) data' len sofar wire
      ≡ (if try_again errno then write_loop more data' len sofar wire else done minus_one wire)
unfolding write_loop
write_loop-refused errno more data' len sofar wire h = ground arith

writes-refused :
    (errno : ℕ) (more : List Sent) (data' : List ℕ) (len sofar : ℕ)
    → sofar < len
    → (if try_again errno then writes more data' len sofar else done minus_one (take sofar data'))
      ≡ writes (refused errno ∷ more) data' len sofar
unfolding writes accepted cut_short
writes-refused errno more data' len sofar lt = ground (arith, plus_zero sofar)

-- A write that is full.
write_full :
    (sents : List Sent) (data' : List ℕ) (len sofar : ℕ)
    → sofar ≡ len
    → HonestSent (len - sofar) sents
    → write_loop sents data' len sofar (take sofar data') ≡ writes sents data' len sofar
write_full sents data' len sofar full h =
    subst (λ n. write_loop sents data' n sofar (take sofar data') ≡ writes sents data' n sofar) full
      (write_loop-full sents data' sofar (take sofar data')
        ∙ sym (
            writes-full sents data' sofar
              (subst (λ n. HonestSent n sents) (no_room len sofar full) h)))

write_loop-writes :
    (sents : List Sent) (data' : List ℕ) (len sofar : ℕ)
    → sofar ≤ len
    → HonestSent (len - sofar) sents
    → write_loop sents data' len sofar (take sofar data') ≡ writes sents data' len sofar
unfolding write_loop writes accepted cut_short
write_loop-writes [] data' len sofar le h = elim (in_range len sofar le) [
  | inl full ↦ write_full [] data' len sofar full h
  | inr room ↦ rw (short len sofar room, plus_zero sofar) (rw (short len sofar room) refl)
]
write_loop-writes (took zero ∷ more) data' len sofar le h = elim (in_range len sofar le) [
  | inl full ↦ write_full (took zero ∷ more) data' len sofar full h
  | inr room ↦ rw (short len sofar room, plus_zero sofar) (rw (short len sofar room) refl)
]
write_loop-writes (took (suc n) ∷ more) data' len sofar le h =
    write_loop-took n more data' len sofar (take sofar data') h.0
    ∙ ap (write_loop more data' len (sofar + suc n)) (take-add data' sofar (suc n))
    ∙ write_loop-writes more data' len (sofar + suc n) (omega (arith, h.0))
        (rw (sub_twice len sofar (suc n)) h.1)
    ∙ writes-took n more data' len sofar
write_loop-writes (refused errno ∷ more) data' len sofar le h = elim (in_range len sofar le) [
  | inl full ↦ write_full (refused errno ∷ more) data' len sofar full h
  | inr room ↦
      write_loop-refused errno more data' len sofar (take sofar data') room
      ∙ rw (write_loop-writes more data' len sofar le h)
          (writes-refused errno more data' len sofar room)
]

pub correct_write-length :
    (sents : List Sent) (data' : List ℕ) (len : ℕ)
    → HonestSent (write_length data' len) sents
    → correct_write sents data' len ≡ writes sents data' (write_length data' len) 0
unfolding correct_write
correct_write-length sents data' len h =
    write_loop-writes sents data' (write_length data' len) 0 (omega arith)
      (rw (from_zero (write_length data' len)) h)

-- The bytes that a transfer has moved.
abbrev pub wire : Transfer → List ℕ
wire (done value bytes) = bytes
wire (waiting bytes) = bytes
