-- ===== src/Server/Respond.antt =====
-- A request from its bytes to the bytes of its answer: `request_client` of server/server.c.
use operating_system_linux_t.Common.{ℕ, ◌≡◌, refl, ◌∙◌, ap, some, List, length, take}
use operating_system_linux_t.Server.{read_request, request_client}
use operating_system_linux_t.Server.Io.{Answer, Sent, count, done, correct_read, correct_write}
use operating_system_linux_t.Server.Io.Reading.{Honest, stream, reads, correct_read-reads}
use operating_system_linux_t.Server.Io.Writing.{HonestSent, accepted, writes, correct_write-length}
use operating_system_linux_t.Server.Munge.{process_request}
use operating_system_linux_t.Server.Munge.Rotate.{ten, process_request-rotation}

pub full_read :
    (answers : List Answer) (request : List ℕ)
    → Honest 10 answers
    → stream answers ≡ request
    → length request ≡ 10
    → correct_read answers 10 ≡ done (count 10) request
unfolding reads
full_read answers request honest eq len = correct_read-reads answers 10 honest ∙ rw (eq, len) refl

pub full_write :
    (sents : List Sent) (response : List ℕ)
    → HonestSent 10 sents
    → accepted sents ≡ 10
    → correct_write sents response 10 ≡ done (count 10) (take 10 response)
unfolding writes
full_write sents response honest eq = correct_write-length sents response 10 honest ∙ rw eq refl

munged :
    (a b c d e f g h i j : ℕ) → process_request (ten a b c d e f g h i j) ≡ ten a g h i j b c d e f
unfolding process_request
munged a b c d e f g h i j = process_request-rotation 0 0 0 0 0 0 0 0 0 0 a b c d e f g h i j

request_of :
    (answers : List Answer) (request : List ℕ)
    → correct_read answers 10 ≡ done (count 10) request
    → read_request answers ≡ some (some request)
unfolding read_request
request_of answers request eq = rw (eq, read_request) refl

answer_of :
    (answers : List Answer) (sents : List Sent) (request response : List ℕ)
    → read_request answers ≡ some (some request)
    → process_request request ≡ response
    → request_client answers sents ≡ some (some (correct_write sents response 10))
unfolding request_client
answer_of answers sents request response eq munge = rw (eq, munge, request_client) refl

-- The socket carries exactly the ten bytes of a request, and the client takes ten bytes: then
-- whatever pieces they come in, and whatever calls are tried again, the ten bytes that
-- `request_client` sends are the request's first byte, its last four and the five between.
pub request_client-answer :
    (a b c d e f g h i j : ℕ) (answers : List Answer) (sents : List Sent)
    → Honest 10 answers
    → stream answers ≡ ten a b c d e f g h i j
    → HonestSent 10 sents
    → accepted sents ≡ 10
    → request_client answers sents ≡ some (some (done (count 10) (ten a g h i j b c d e f)))
request_client-answer a b c d e f g h i j answers sents honest eq honest_sent all =
    let request = ten a b c d e f g h i j in
    let response = ten a g h i j b c d e f in
    answer_of answers sents request response
      (request_of answers request (full_read answers request honest eq refl))
      (munged a b c d e f g h i j)
    ∙ ap (λ t. some (some t)) (full_write sents response honest_sent all)
