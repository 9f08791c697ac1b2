-- ===== src/Streams/Samples.antt =====
-- Run streams on concrete calls.
use agentic_kit.Base.{
  ◌+◌, ◌≡◌, refl, false, List, [], ◌∷◌, ◌++◌, none, some, lookup, if◌then◌else◌, leb, arith,
}
use agentic_kit.StreamEvents.{
  StreamEvent, ends, text_message_start, text_message_content, text_message_end, run_error, lost,
  is_stream_end,
}
use agentic_kit.Streams.{
  StreamMeta, MemStream, Streams, stream_gone, stream_closed, refused, waits, append_events,
  open_stream, close_stream, snapshot, read_pass, until_end,
}
use agentic_kit.Streams.Sound.{AllSound}
use agentic_kit.Streams.Calls.{Reachable, Reachable-AllSound}
use agentic_kit.Streams.Reading.{close-append}
use agentic_kit.Streams.Resuming.{read-resume, after_items}

abbrev meta : StreamMeta
meta = record { thread_id = "t"; run_id = "r" }

abbrev one_item : MemStream
one_item = record {
  meta = meta;
  items = record { event = text_message_start 1; offset = 1 } ∷ [];
  end = none;
  expires_at = 100;
  waiters = [];
}

abbrev store : Streams
store = ("r:1", one_item) ∷ []

abbrev more : List StreamEvent
more = text_message_content 1 "hi" ∷ text_message_end 1 ∷ []

opened :
    Reachable
      (close_stream
        (append_events (open_stream [] 5 "r:1" meta 100) 6 "r:1" more).0
        7
        "r:1"
        (run_error lost "x")
        50).0
opened =
    Reachable.closes _ 7 "r:1" (run_error lost "x") 50
      (Reachable.appends _ 6 "r:1" more (Reachable.opens [] 5 "r:1" meta 100 Reachable.start))

Reachable-AllSound_example :
    AllSound
      (close_stream
        (append_events (open_stream [] 5 "r:1" meta 100) 6 "r:1" more).0
        7
        "r:1"
        (run_error lost "x")
        50).0
Reachable-AllSound_example = Reachable-AllSound _ opened

close-append_example :
    let closed = (close_stream store 5 "r:1" (run_error lost "x") 50).0 in
    let is_over = leb (5 + 50) 20 in
    let all_items =
      one_item.items ++ (record { event = ends (run_error lost "x"); offset = 2 } ∷ []) in
    ((append_events closed 20 "r:1" more).1
      ≡ (if is_over then refused stream_gone else refused stream_closed))
    × ((snapshot closed 20 "r:1" none).1 ≡ (
        if is_over
        then none
        else some (record {
          snapshot_meta = meta;
          snapshot_items = all_items;
          snapshot_end = some (run_error lost "x");
        })))
    × ((close_stream closed 20 "r:1" (run_error lost "x") 50).1
        ≡ (if is_over then some stream_gone else none))
unfolding lookup
close-append_example =
    close-append store 5 20 "r:1" one_item (run_error lost "x") 50 more refl refl refl

read-resume_example :
    let (waited, pass) = read_pass store 5 "r:1" 9 0 false in
    let appended = (append_events waited 20 "r:1" more).0 in
    (pass ≡ waits one_item.items 1)
    × ((read_pass appended 20 "r:1" 9 0 false).1
        ≡ after_items one_item.items (read_pass appended 20 "r:1" 9 1 false).1)
unfolding lookup until_end is_stream_end
read-resume_example =
    read-resume store 5 20 "r:1" 9 0 one_item more refl refl refl refl (omega arith) refl
