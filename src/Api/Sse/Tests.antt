-- ===== src/Api/Sse/Tests.antt =====
-- A stream of three frames in two chunks, and its entries.
use mathlib.Core.List.{flatten}
use open_agent_lock.Common.{
  Json, List, Option, Text, [], codes, none, num, refl, some, ◌++◌, ◌∷◌, ◌≡◌,
}
use open_agent_lock.Api.Sse.{ledger_tail_url, read_chunk, read_sse}
use open_agent_lock.Api.Sse.Stream.{read_sse-flatten}

-- A text of two characters is a number.
abbrev toy_parse : Text → Option Json
toy_parse (c ∷ d ∷ []) = some (num (c ∷ d ∷ []))
toy_parse t = none

-- A keepalive and two entries; the chunks are cut between the newlines that end the first frame.
abbrev chunks : List Text
chunks =
    (codes ": ping" ++ 10 ∷ [])
    ∷ (10 ∷ codes "data: 41" ++ 10 ∷ 10 ∷ codes "data:42" ++ 10 ∷ 10 ∷ codes "data")
    ∷ []

two_entries :
    read_sse toy_parse [] chunks ≡ (num (codes "41") ∷ num (codes "42") ∷ [], codes "data")
unfolding read_sse
two_entries = refl

token_in_url :
    ledger_tail_url (λ t. t) (codes "u") (some (codes "k")) ≡ codes "u/v1/ledger/tail?token=k"
unfolding ledger_tail_url
token_in_url = refl

read_sse-flatten_example : read_sse toy_parse [] chunks ≡ read_chunk toy_parse [] (flatten chunks)
read_sse-flatten_example = read_sse-flatten toy_parse chunks
