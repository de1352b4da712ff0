-- ===== src/Server/Client.antt =====
-- server/client.c: one connection of its loop, and what it gets from the server.
use operating_system_linux_t.Common.{ℕ, zero, suc, ◌-◌, ◌%◌, true, false, List, [], ◌∷◌, ◌==◌}
use operating_system_linux_t.Server.{request_size}
use operating_system_linux_t.Server.Io.{
  Answer, Sent, Transfer, count, minus_one, done, waiting, correct_read, correct_write,
}
use operating_system_linux_t.Server.Munge.{response_size}

-- The loop that fills the request: `n` bytes are left.
unfoldable pub silly_data : ℕ → List ℕ
silly_data zero = []
silly_data (suc n) = (request_size - suc n) % 255 ∷ silly_data n

-- How a connection ends: the write fell short, or the read has ended or waits.
pub data Exchange : Type 0 where
  unsent : Transfer → Exchange
  answered : Transfer → Exchange

-- One round of the loop of `main`, on a connection that is open.
unfoldable pub client_round : List Sent → List Answer → Exchange
unfolding silly_data
client_round sents answers =
    let wrote = correct_write sents (silly_data request_size) request_size in
    elim wrote [
      | done (count n) wire ↦ elim (n == request_size) [
        | true ↦ answered (correct_read answers response_size)
        | false ↦ unsent (done (count n) wire)
      ]
      | done minus_one wire ↦ unsent (done minus_one wire)
      | waiting wire ↦ unsent (waiting wire)
    ]
