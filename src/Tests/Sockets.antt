-- ===== src/Tests/Sockets.antt =====
-- Runs of server/common.c and server/server.c.
use operating_system_linux_t.Common.{◌≡◌, refl, some, List, [], ◌∷◌, arith}
use operating_system_linux_t.Server
use operating_system_linux_t.Server.Io
use operating_system_linux_t.Server.Io.{Answer, got, fail, Sent, took, refused, done, count}
use operating_system_linux_t.Server.Io.Reading.{Honest, stream, reads, correct_read-reads}
use operating_system_linux_t.Server.Io.Writing.{HonestSent, accepted}
use operating_system_linux_t.Server.Munge
use operating_system_linux_t.Server.Munge.Rotate.{ten, process_request-rotation}
use operating_system_linux_t.Server.Respond.{request_client-answer}

-- Ten bytes in two pieces, with an interrupted call between.
abbrev pieces : List Answer
pieces = got (10 ∷ 11 ∷ 12 ∷ []) ∷ fail 4 ∷ got (13 ∷ 14 ∷ 15 ∷ 16 ∷ 17 ∷ 18 ∷ 19 ∷ []) ∷ []

pieces-Honest : Honest 10 pieces
pieces-Honest = (omega arith, (omega arith, tt))

pieces-stream : stream pieces ≡ ten 10 11 12 13 14 15 16 17 18 19
unfolding stream
pieces-stream = refl

abbrev counts : List Sent
counts = refused 11 ∷ took 4 ∷ took 6 ∷ []

counts-HonestSent : HonestSent 10 counts
counts-HonestSent = (omega arith, (omega arith, tt))

counts-accepted : accepted counts ≡ 10
unfolding accepted
counts-accepted = refl

correct_read-reads_example : Io.correct_read pieces 10 ≡ reads pieces 10 0 []
correct_read-reads_example = correct_read-reads pieces 10 pieces-Honest

process_request-rotation_example :
    Munge.process_request_from (ten 0 0 0 0 0 0 0 0 0 0) (ten 10 11 12 13 14 15 16 17 18 19)
    ≡ ten 10 16 17 18 19 11 12 13 14 15
process_request-rotation_example =
    process_request-rotation 0 0 0 0 0 0 0 0 0 0 10 11 12 13 14 15 16 17 18 19

request_client-answer_example :
    Server.request_client pieces counts
    ≡ some (some (done (count 10) (ten 10 16 17 18 19 11 12 13 14 15)))
request_client-answer_example =
    request_client-answer 10 11 12 13 14 15 16 17 18 19 pieces counts pieces-Honest pieces-stream
      counts-HonestSent counts-accepted
