-- ===== src/Server/Munge.antt =====
-- `process_request` of server/server.c.
pub mod Rotate
use operating_system_linux_t.Common.{
  ℕ, zero, suc, ◌+◌, ◌*◌, ◌%◌, ◌≡◌, refl, ◌∙◌, ap, List, [], ◌∷◌, length, set, get_or, replicate,
  ◌-◌, arith,
}

-- RESPONSE_SIZE and NUM_LOOPS
abbrev pub response_size : ℕ
response_size = 10

abbrev pub num_loops : ℕ
num_loops = 500000

-- The loop that fills the response; `request` has REQUEST_SIZE bytes, also 10.
unfoldable pub fill : ℕ → List ℕ → List ℕ → List ℕ
fill zero request response = response
fill (suc n) request response =
    fill n request
      (set response (response_size - suc n) (get_or request ((response_size - suc n) % 10) 0))

-- One round of the inner loop.
unfoldable pub swap_at : ℕ → List ℕ → List ℕ
swap_at i response =
    let j = (i + 1) % response_size in
    let swap = get_or response j 0 in set (set response j (get_or response i 0)) i swap

-- The inner loop, from `response_size - n` on.
unfoldable pub pass : ℕ → List ℕ → List ℕ
unfolding swap_at
pass zero response = response
pass (suc n) response = pass n (swap_at (response_size - suc n) response)

-- The outer loop.
unfoldable pub passes : ℕ → List ℕ → List ℕ
passes zero response = response
passes (suc n) response = passes n (pass response_size response)

-- The response buffer comes from malloc: `junk` is what it holds.
unfoldable pub process_request_from : List ℕ → List ℕ → List ℕ
process_request_from junk request = passes num_loops (fill response_size request junk)

-- A buffer that holds zeros.
unfoldable pub process_request : List ℕ → List ℕ
unfolding process_request_from
process_request request = process_request_from (replicate response_size 0) request
