-- ===== src/Providers/EventStream.antt =====
-- `event_stream` of src/providers/openai_compatible.py, which cuts the bytes of a streamed answer into
-- server-sent events. A byte is a number. The decoding of bytes and the byte limit are parameters;
-- the inner loop runs on fuel, for which the length of the buffer is enough.
pub mod Lines
pub mod Whole
pub mod Bounds
mod Tests
use Prim.Native.Char.{Char, code}
use Prim.Native.String
use free_lunch.Benchmarks.Names.{join}
use free_lunch.Prelude.{
  ℕ, zero, suc, ◌+◌, String, Bool, true, false, Option, none, some, List, [], ◌∷◌, ◌++◌, ltb, ◌==◌,
  if◌then◌else◌, length,
}

-- The events sent so far, the lines of the one that is read, and the bytes that they count for.
pub record Pending : Type 0 where
  pub sent : List String
  pub lines : List String
  pub bytes : ℕ

abbrev pub nothing_yet : Pending
nothing_yet = record { sent = []; lines = []; bytes = 0 }

-- Where the reader stands: it goes on with a buffer, or an event was too long, after these events.
pub data Reader : Type 0 where
  reading : Pending → List ℕ → Reader
  too_long : List String → Reader

-- How the bytes of the answer end.
pub data Closing : Type 0 where
  closed : Closing
  timed_out : Closing
  broken : Closing

-- How the events end.
pub data Ending : Type 0 where
  complete : Ending
  event_too_long : Ending
  stream_timeout : Ending
  transport_error : Ending

-- One `\r` at the end of a line is dropped.
abbrev pub strip_cr : List ℕ → List ℕ
strip_cr [] = []
strip_cr (b ∷ bs) = elim bs [ [] ↦ if b == 13 then [] else b ∷ [] | c ∷ cs ↦ b ∷ strip_cr bs ]

-- `startswith(":")`
abbrev pub is_comment : String → Bool
is_comment String.[] = false
is_comment (String.◌∷◌ c s) = code c == 58

-- `"\n".join(lines) + "\n\n"`
unfoldable pub event_text : List String → String
event_text [] = "\n\n"
event_text (l ∷ ls) =
    let rest = event_text ls in
    elim ls [ [] ↦ String.◌++◌ l rest | m ∷ ms ↦ String.◌++◌ l (String.◌++◌ "\n" rest) ]

-- `buffer.partition(b"\n")`, if the buffer has a newline
abbrev pub partition : List ℕ → Option (List ℕ × List ℕ)
partition [] = none
partition (b ∷ bs) =
    let rest = partition bs in
    if b == 10 then some ([], bs) else elim rest [ none ↦ none | some p ↦ some (b ∷ p.0, p.1) ]

-- The event that is read is sent, if it has a line.
abbrev pub send_event : Pending → Pending
send_event p = elim p.lines [
  | [] ↦ p
  | l ∷ ls ↦ record { sent = p.sent ++ event_text p.lines ∷ []; lines = []; bytes = 0 }
]

module _ (max_bytes : ℕ) (decode : List ℕ → String) where
  -- A line joins the event that is read.
  abbrev pub add_line : List ℕ → Pending → Option Pending
  add_line line p =
      let n = p.bytes + length line + 1 in
      if ltb max_bytes n
      then none
      else some (record { sent = p.sent; lines = p.lines ++ decode line ∷ []; bytes = n })

  -- An empty line ends the event; a comment is left out.
  abbrev pub take_line : List ℕ → Pending → Option Pending
  take_line [] p = some (send_event p)
  take_line (b ∷ bs) p = if is_comment (decode (b ∷ bs)) then some p else add_line (b ∷ bs) p

  -- A complete line, without its newline; `none` where it raises.
  abbrev pub end_line : List ℕ → Pending → Option Pending
  end_line raw p =
      let line = strip_cr raw in if ltb max_bytes (length line) then none else take_line line p

  -- `while b"\n" in line_buffer`
  unfoldable pub drain : ℕ → Pending → List ℕ → Reader
  drain zero p buffer = reading p buffer
  drain (suc fuel) p buffer = elim (partition buffer) [
    | none ↦ reading p buffer
    | some cut ↦ elim (end_line cut.0 p) [ none ↦ too_long p.sent | some q ↦ drain fuel q cut.1 ]
  ]

  -- The check of the buffer behind the last newline.
  abbrev pub check_buffer : Reader → Reader
  check_buffer (too_long sent) = too_long sent
  check_buffer (reading p buffer) =
      if ltb max_bytes (length buffer) then too_long p.sent else reading p buffer

  abbrev pub read_chunk : List ℕ → Reader → Reader
  read_chunk chunk (too_long sent) = too_long sent
  read_chunk chunk (reading p buffer) =
      check_buffer (drain (length (buffer ++ chunk)) p (buffer ++ chunk))

  unfoldable pub read_chunks : List (List ℕ) → Reader → Reader
  unfolding drain
  read_chunks [] r = r
  read_chunks (c ∷ cs) r = read_chunks cs (read_chunk c r)

  -- The end of the bytes: what is left in the buffer is a line, and the last lines are an event.
  abbrev pub last_line : List ℕ → Pending → Option Pending
  last_line [] p = some p
  last_line (b ∷ bs) p = add_line (strip_cr (b ∷ bs)) p

  abbrev pub finish : Closing → Reader → List String × Ending
  finish how (too_long sent) = (sent, event_too_long)
  finish timed_out (reading p buffer) = (p.sent, stream_timeout)
  finish broken (reading p buffer) = (p.sent, transport_error)
  finish closed (reading p buffer) = elim (last_line buffer p) [
    | none ↦ (p.sent, event_too_long)
    | some q ↦ ((send_event q).sent, complete)
  ]

  -- The events of an answer that comes in these chunks.
  unfoldable pub event_stream : List (List ℕ) → Closing → List String × Ending
  unfolding read_chunks
  event_stream chunks how = finish how (read_chunks chunks (reading nothing_yet []))
