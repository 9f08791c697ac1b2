-- ===== src/Streams.antt =====
-- Run streams held in memory, `MemoryRunStreams` in packages/agentenkit/src/adapters/memory.ts, and
-- their errors in packages/agentenkit/src/ports/streams.ts. An offset is a decimal text in the code
-- and its number here. The clock is an argument. A waiter is a reader and the position that it waits
-- at; waking it takes it off the list. One pass of `read` takes the items that are there when it
-- begins, and what comes while it yields them falls to the next pass.
pub mod Sound
pub mod Calls
pub mod Reading
pub mod Resuming
mod Samples
use agentic_kit.Base.{
  ℕ, suc, ◌+◌, Bool, true, false, not, ◌||◌, List, [], ◌∷◌, ◌++◌, map, Option, none, some, String,
  Dict, lookup, insert, erase, ◌==◌, leb, if◌then◌else◌, keep_if, length, drop, or_else, is_some,
}
use agentic_kit.StreamEvents.{StreamEvent, StreamEnd, ends, is_stream_end}

-- Who a stream belongs to.
pub record StreamMeta : Type 0 where
  pub thread_id : String
  pub run_id : String

pub record StreamItem : Type 0 where
  pub event : StreamEvent
  pub offset : ℕ

pub record Waiter : Type 0 where
  pub reader : ℕ
  pub position : ℕ

pub record MemStream : Type 0 where
  pub meta : StreamMeta
  pub items : List StreamItem
  pub end : Option StreamEnd
  pub expires_at : ℕ
  pub waiters : List Waiter

pub record StreamSnapshot : Type 0 where
  pub snapshot_meta : StreamMeta
  pub snapshot_items : List StreamItem
  pub snapshot_end : Option StreamEnd

pub data StreamError : Type 0 where
  stream_gone stream_closed : StreamError

pub data Appended : Type 0 where
  refused : StreamError → Appended
  at_offsets : List ℕ → Appended

abbrev pub Streams : Type 0
Streams = Dict MemStream

abbrev pub is_expired : ℕ → MemStream → Bool
is_expired now s = leb s.expires_at now

abbrev pub live_found : Streams → ℕ → String → Option MemStream → Streams × Option MemStream
live_found streams now id none = (streams, none)
live_found streams now id (some s) =
    if is_expired now s then (erase id streams, none) else (streams, some s)

-- `live`: an expired stream is dropped where it is met.
unfoldable pub live : Streams → ℕ → String → Streams × Option MemStream
live streams now id = live_found streams now id (lookup id streams)

unfoldable pub sweep_streams : Streams → ℕ → Streams
sweep_streams streams now = keep_if (λ entry. not (is_expired now entry.1)) streams

abbrev pub new_stream : StreamMeta → ℕ → MemStream
new_stream meta expires = record {
  meta = meta;
  items = [];
  end = none;
  expires_at = expires;
  waiters = [];
}

unfoldable pub open_stream : Streams → ℕ → String → StreamMeta → ℕ → Streams
open_stream streams now id meta ttl_ms =
    let swept = sweep_streams streams now in
    if is_some (lookup id swept) then swept else insert id (new_stream meta (now + ttl_ms)) swept

-- The items that new events make, after n items.
unfoldable pub number : ℕ → List StreamEvent → List StreamItem
number n [] = []
number n (e ∷ es) = record { event = e; offset = suc n } ∷ number (suc n) es

unfoldable pub add_items : MemStream → List StreamEvent → MemStream
add_items s events = record s { items = s.items ++ number (length s.items) events; waiters = [] }

abbrev pub append_to : Streams → String → List StreamEvent → Option MemStream → Streams × Appended
append_to streams id events none = (streams, refused stream_gone)
append_to streams id events (some s) = if is_some s.end then (streams, refused stream_closed) else (
  insert id (add_items s events) streams,
  at_offsets (map (λ i. i.offset) (number (length s.items) events)),
)

unfoldable pub append_events : Streams → ℕ → String → List StreamEvent → Streams × Appended
append_events streams now id events =
    let (streams', found) = live streams now id in append_to streams' id events found

unfoldable pub snapshot : Streams → ℕ → String → Option ℕ → Streams × Option StreamSnapshot
snapshot streams now id after =
    let (streams', found) = live streams now id in (streams', snapshot_of after found)
  where
    snapshot_of : Option ℕ → Option MemStream → Option StreamSnapshot
    snapshot_of after none = none
    snapshot_of after (some s) = some record {
      snapshot_meta = s.meta;
      snapshot_items = drop (or_else after 0) s.items;
      snapshot_end = s.end;
    }

unfoldable pub finish : MemStream → StreamEnd → ℕ → MemStream
finish s e expires = record (add_items s (ends e ∷ [])) { end = some e; expires_at = expires }

abbrev pub close_found :
    Streams → String → StreamEnd → ℕ → Option MemStream → Streams × Option StreamError
close_found streams id e expires none = (streams, some stream_gone)
close_found streams id e expires (some s) =
    (if is_some s.end then streams else insert id (finish s e expires) streams, none)

unfoldable pub close_stream : Streams → ℕ → String → StreamEnd → ℕ → Streams × Option StreamError
close_stream streams now id e grace_ms =
    let (streams', found) = live streams now id in close_found streams' id e (now + grace_ms) found

unfoldable pub delete_stream : Streams → String → Streams
delete_stream streams id = erase id streams

-- The items up to the one that ends the stream, and whether there is one.
unfoldable pub until_end : List StreamItem → List StreamItem × Bool
until_end [] = ([], false)
until_end (i ∷ is) =
    let (rest, ended) = until_end is in
    if is_stream_end i.event then (i ∷ [], true) else (i ∷ rest, ended)

-- What a pass of `read` comes to: the reader stops on its own or by error, or has its items and is
-- done, or waits at a position.
pub data Pass : Type 0 where
  aborted gone : Pass
  done : List StreamItem → Pass
  waits : List StreamItem → ℕ → Pass

abbrev pub waiter_at : ℕ → ℕ → Waiter
waiter_at reader position = record { reader = reader; position = position }

abbrev pub pass_over : Streams → String → ℕ → ℕ → Option MemStream → Streams × Pass
pass_over streams id reader next none = (streams, gone)
pass_over streams id reader next (some s) =
    let (out, ended) = until_end (drop next s.items) in
    let position = next + length out in
    if ended || is_some s.end then (streams, done out) else (
      insert id (record s { waiters = s.waiters ++ (waiter_at reader position ∷ []) }) streams,
      waits out position,
    )

unfoldable pub read_pass : Streams → ℕ → String → ℕ → ℕ → Bool → Streams × Pass
read_pass streams now id reader next is_aborted =
    let (streams', found) = live streams now id in
    if is_aborted then (streams, aborted) else pass_over streams' id reader next found

-- A reader that is aborted while it waits.
unfoldable pub leave : Streams → String → ℕ → Streams
leave streams id reader = leave_found (lookup id streams)
  where
    leave_found : Option MemStream → Streams
    leave_found none = streams
    leave_found (some s) =
        insert id (record s { waiters = keep_if (λ w. not (w.reader == reader)) s.waiters }) streams
