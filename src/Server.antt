-- ===== src/Server.antt =====
-- The request handling of server/server.c over the transfers of server/common.c. What the sockets
-- answer is an argument.
pub mod Munge
pub mod Respond
pub mod Accept
pub mod Client
pub mod Files
pub mod Io
use operating_system_linux_t.Common.{ℕ, Option, none, some, List, ◌==◌, if◌then◌else◌}
use Io.{Answer, Sent, Transfer, done, waiting, count, minus_one, correct_read, correct_write}
use Munge.{process_request}

-- REQUEST_SIZE of server/common.h
abbrev pub request_size : ℕ
request_size = 10

-- `read_request`: the request, NULL where the read fell short, or a read that has not returned.
unfoldable pub read_request : List Answer → Option (Option (List ℕ))
read_request answers = elim (correct_read answers request_size) [
  | done (count n) request ↦ some (if n == request_size then some request else none)
  | done minus_one request ↦ some none
  | waiting request ↦ none
]

-- What `request_client` sends, if it sends, once its read has returned; it closes the socket then. The
-- descriptor is whatever its uninitialised `socket_talk` holds: `answers` and `sents` are its.
unfoldable pub request_client : List Answer → List Sent → Option (Option Transfer)
request_client answers sents = elim (read_request answers) [
  | none ↦ none
  | some none ↦ some none
  | some (some request) ↦ some (some (correct_write sents (process_request request) request_size))
]
