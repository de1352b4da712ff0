-- ===== src/Server/Files.antt =====
-- server/server_io.c, which reads a file for every request. What the sockets and the file hold is an
-- argument.
use operating_system_linux_t.Common.{
  ℕ, Bool, Option, none, some, List, ◌==◌, ltb, length, if◌then◌else◌,
}
use operating_system_linux_t.Memory.{Run, ok, fault, exited, Ptr, ◌>>=◌}
use operating_system_linux_t.Links.{Links}
use operating_system_linux_t.Machine.{M, pure}
use operating_system_linux_t.Machine as Machine
use operating_system_linux_t.Scheduler.{Outcome}
use operating_system_linux_t.Pool.{Task, Pool, create_threadpool, dispatch}
use operating_system_linux_t.Server.{request_size}
use operating_system_linux_t.Server.Io.{
  Answer, Sent, Transfer, done, waiting, count, minus_one, correct_read, correct_write,
}

-- `read_request`: the request, NULL where the read fell short, or a read that has not returned.
unfoldable pub read_request : List Answer → Option (Option (List ℕ))
read_request answers = elim (correct_read answers request_size) [
  | done (count n) request ↦ some (if n == request_size then some request else none)
  | done minus_one request ↦ some none
  | waiting request ↦ none
]

-- A pointer to characters: NULL, to memory that holds them, or to a local of a function that has
-- returned.
pub data Characters : Type 0 where
  null : Characters
  held : List ℕ → Characters
  out_of_scope : Characters

-- `process_request` for the first word of the file and its two next lines, `none` where it cannot be
-- opened: `fscanf` then reads through NULL. A word with no room in `buff` is a fault too. The result
-- is the address of `buff`, which a compiler may turn into NULL: `to_null` says so.
-- `response_length` is not set.
unfoldable pub process_request :
    (to_null : Bool) → Option (List ℕ × List ℕ × List ℕ) → Run Characters
process_request to_null none = fault
process_request to_null (some (word, line₂, line₃)) =
    if ltb (length word) 255 then ok (if to_null then null else out_of_scope) else fault

-- `send_response` of server/common.c.
unfoldable pub send_response : List Sent → Characters → (response_length : ℕ) → Run Transfer
send_response sents null response_length = fault
send_response sents (held response) response_length =
    ok (correct_write sents response response_length)
send_response sents out_of_scope response_length = fault

-- The part of `request_client` that answers a request, with the pointer that it frees later.
unfoldable pub answer_from :
    (to_null : Bool)
    → Option (List ℕ × List ℕ × List ℕ)
    → List Sent
    → (junk : ℕ) → Run (Option Transfer × Characters)
unfolding process_request send_response
answer_from to_null file sents junk = do
  response ← process_request to_null file
  elim response [
    | null ↦ ok (none, null)
    | held bytes ↦ do sent ← send_response sents (held bytes) junk; ok (some sent, held bytes)
    | out_of_scope ↦ do sent ← send_response sents out_of_scope junk; ok (some sent, out_of_scope)
  ]

-- The test and the `free` of a pointer at the end of `request_client`.
unfoldable pub free_characters : Characters → Run (Unit {0})
free_characters null = ok tt
free_characters (held bytes) = ok tt
free_characters out_of_scope = fault

-- What `request_client` sends, if it sends, before it closes the socket and frees its memory, once its
-- read has returned; none is a read that waits. The socket is whatever its uninitialised
-- `socket_talk` holds, and `junk` what `response_length` does.
unfoldable pub request_client :
    List Answer
    → (to_null : Bool) → Option (List ℕ × List ℕ × List ℕ)
    → List Sent
    → (junk : ℕ) → Option (Run (Option Transfer))
unfolding read_request answer_from free_characters
request_client answers to_null file sents junk = elim (read_request answers) [
  | none ↦ none
  | some none ↦ some (ok none)
  | some (some request) ↦ some (do
    (sent, response) ← answer_from to_null file sents junk
    _ ← free_characters (held request)
    _ ← free_characters response
    ok sent)
]

-- `setup_listen` for the answer of `slisten`, `none` for an error.
unfoldable pub setup_listen : Option ℕ → M ℕ
setup_listen none = λ m. exited
setup_listen (some socket_listen) = pure socket_listen

-- What `main` does before its loop, with the ten workers and the policy NULL of its call.
unfoldable pub start_server :
    (tid cores hyper : ℕ)
    → (ℕ → Option ℕ)
    → (routine arg : ℕ) → Pool
    → (listening : Option ℕ) → M (Option Pool × ℕ)
unfolding setup_listen
start_server tid cores hyper pids routine arg junk listening =
    Machine.◌>>=◌ (create_threadpool tid 0 cores hyper pids routine arg junk 10)
      (λ pool. Machine.◌>>=◌ (setup_listen listening) (λ socket_listen. pure (pool, socket_listen)))

-- A round of its loop for the answer of `saccept`, `none` for an error.
unfoldable pub accept_round :
    ℕ → Ptr → (junk : Ptr) → Option ℕ → Links Task → Pool → M (Outcome × Links Task × Pool)
accept_round tid routine junk none h pool = λ m. exited
accept_round tid routine junk (some socket_talk) h pool =
    dispatch tid h pool junk routine socket_talk
