-- ===== src/Providers/EventStream/Tests.antt =====
-- Streams of src/providers/openai_compatible.py that come in small chunks.
use free_lunch.Providers.EventStream.{
  drain, read_chunks, closed, complete, event_too_long, event_text, event_stream,
}
use free_lunch.Providers.EventStream.Whole.{concat, whole_events, event_stream-whole}
use free_lunch.Providers.EventStream.Bounds.{event_stream-complete}
use free_lunch.Prelude.{ℕ, String, ◌≡◌, refl, some, List, [], ◌∷◌, ◌==◌, if◌then◌else◌, arith}

-- A decoding of these tests: a line that starts with a colon, or one that does not.
abbrev some_text : List ℕ → String
some_text [] = ""
some_text (b ∷ bs) = if b == 58 then ":" else "data"

-- `d\n:\nd\r\n\nd` in three chunks
abbrev pieces : List (List ℕ)
pieces = (100 ∷ 10 ∷ []) ∷ (58 ∷ 10 ∷ 100 ∷ 13 ∷ []) ∷ (10 ∷ 10 ∷ 100 ∷ []) ∷ []

two_events :
    event_stream 20 some_text pieces closed ≡ ("data\ndata\n\n" ∷ "data\n\n" ∷ [], complete)
unfolding event_stream read_chunks drain event_text
two_events = refl

-- A comment as long as the limit passes in one chunk, and is too long where a chunk ends between its
-- `\r` and its `\n`.
cut_comment :
    ((event_stream 2 some_text ((58 ∷ 100 ∷ 13 ∷ 10 ∷ []) ∷ []) closed).1 ≡ complete)
    × ((event_stream 2 some_text ((58 ∷ 100 ∷ 13 ∷ []) ∷ (10 ∷ []) ∷ []) closed).1 ≡ event_too_long)
unfolding event_stream read_chunks drain event_text
cut_comment = (refl, refl)

-- A comment that no newline ends is sent as an event.
open_comment : event_stream 20 some_text ((58 ∷ []) ∷ []) closed ≡ (":\n\n" ∷ [], complete)
unfolding event_stream read_chunks drain event_text
open_comment = refl

event_stream-whole_example :
    whole_events 20 some_text (concat pieces) ≡ some ("data\ndata\n\n" ∷ "data\n\n" ∷ [])
event_stream-whole_example =
    event_stream-whole 20 some_text pieces ("data\ndata\n\n" ∷ "data\n\n" ∷ []) two_events

event_stream-complete_example : (event_stream 20 some_text pieces closed).1 ≡ complete
unfolding concat
event_stream-complete_example = event_stream-complete 20 some_text pieces (ground arith)
