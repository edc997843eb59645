-- ===== src/Transport/Channel/Story.antt =====
-- What a pair of ends promises, without channels: in each direction a sequence of lines is sent, and
-- taken in the same order.
-- `over` is whether the end that sends is closed.
use kimi_wire_go.Prelude.{
  ◌+◌, ◌<◌, String, ◌≡◌, ◌⊎◌, Bool, true, false, Option, none, some, List, [], ◌∷◌, ◌++◌, length,
}
use kimi_wire_go.Transport.Channel.{
  shut_down, EndUse, waits_for_line, reads_line, writes_line, refused_full, LineEvent, Pick,
  refused_closed, channel_capacity, closes_end, wrote_line, got_line, interrupted, ended,
}

pub record Story : Type 0 where
  pub sent : List String
  pub taken : List String
  pub over : Bool

-- A ReadLine; `gone` is whether its own end is closed.
pub data Reads (expired : Option String) (gone : Bool) (s : Story)
    : LineEvent → Story → Type 0 where
  reads_next :
      (line : String) (rest : List String)
      → s.sent ≡ s.taken ++ line ∷ rest
      → Reads expired gone s (got_line line) (record s { taken = s.taken ++ line ∷ [] })
  reads_end : (gone ≡ true) ⊎ ((s.over ≡ true) × (s.sent ≡ s.taken)) → Reads expired gone s ended s
  reads_interrupted :
      (text : String) → expired ≡ some text → Reads expired gone s (interrupted text) s
  reads_wait :
      expired ≡ none
      → gone ≡ false
      → s.over ≡ false
      → s.sent ≡ s.taken
      → Reads expired gone s waits_for_line s

-- A WriteLine: at most 64 lines are on the way, and none is sent once the end is closed.
pub data Writes (expired : Option String) (line : String) (s : Story)
    : LineEvent → Story → Type 0 where
  writes_more :
      s.over ≡ false
      → length s.sent < length s.taken + channel_capacity
      → Writes expired line s (wrote_line line) (record s { sent = s.sent ++ line ∷ [] })
  writes_closed : s.over ≡ true → Writes expired line s refused_closed s
  writes_full :
      s.over ≡ false
      → length s.sent ≡ length s.taken + channel_capacity
      → Writes expired line s refused_full s
  writes_interrupted :
      (text : String)
      → expired ≡ some text
      → s.over ≡ false
      → Writes expired line s (interrupted text) s

-- An operation of an end, on what it receives and what it sends.
pub data Uses (rx tx : Story) : EndUse → LineEvent → Story → Story → Type 0 where
  uses_read :
      (expired : Option String) (pick : Pick) (event : LineEvent) (rx' : Story)
      → Reads expired tx.over rx event rx'
      → Uses rx tx (reads_line expired pick) event rx' tx
  uses_write :
      (expired : Option String) (context_first : Bool) (line : String) (event : LineEvent)
      (tx' : Story)
      → Writes expired line tx event tx'
      → Uses rx tx (writes_line expired context_first line) event rx tx'
  uses_close : Uses rx tx closes_end shut_down rx (record tx { over = true })

-- Both ends, in any order: the story of what the first end sends, and of what the second sends.
pub data Tells : List (Bool × EndUse) → List LineEvent → Story → Story → Type 0 where
  tells_nothing : (forth back : Story) → Tells [] [] forth back
  tells_first :
      (u : EndUse) (us : List (Bool × EndUse)) (event : LineEvent) (events : List LineEvent)
      (forth back forth' back' : Story)
      → Uses back forth u event back' forth'
      → Tells us events forth' back'
      → Tells ((true, u) ∷ us) (event ∷ events) forth back
  tells_second :
      (u : EndUse) (us : List (Bool × EndUse)) (event : LineEvent) (events : List LineEvent)
      (forth back forth' back' : Story)
      → Uses forth back u event forth' back'
      → Tells us events forth' back'
      → Tells ((false, u) ∷ us) (event ∷ events) forth back

abbrev pub untold : Story
untold = record { sent = []; taken = []; over = false }
