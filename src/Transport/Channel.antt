-- ===== src/Transport/Channel.antt =====
-- transport/transport_channel.go: a pair of ends that are joined by two channels. The error of a
-- context that is expired is a text.
pub mod Story
pub mod Operations
pub mod Refines
use kimi_wire_go.Prelude.{
  ℕ, String, Bool, true, false, ◌&&◌, Option, none, some, List, [], ◌∷◌, ◌++◌, ltb, if◌then◌else◌,
  length, not,
}

-- A Go channel with its buffer, and whether it is closed.
pub record LineChannel : Type 0 where
  pub buffered : List String
  pub is_closed : Bool

-- The capacity of both channels.
abbrev pub channel_capacity : ℕ
channel_capacity = 64

-- `forth` is the tx of the first end and the rx of the second, `back` the other way round; the last
-- two are whether closeCh of an end is closed.
pub record Ends : Type 0 where
  pub forth : LineChannel
  pub back : LineChannel
  pub first_closed : Bool
  pub second_closed : Bool

-- NewChannelTransportPair
abbrev pub new_ends : Ends
new_ends = record {
  forth = record { buffered = []; is_closed = false };
  back = record { buffered = []; is_closed = false };
  first_closed = false;
  second_closed = false;
}

-- What comes of an operation on a channel: the results of ReadLine and WriteLine with nil errors, with
-- io.EOF, with the errors of WriteLine, with that of the context, a ReadLine that waits, and Close.
pub data LineEvent : Type 0 where
  got_line : String → LineEvent
  wrote_line : String → LineEvent
  ended : LineEvent
  refused_closed : LineEvent
  refused_full : LineEvent
  interrupted : String → LineEvent
  waits_for_line : LineEvent
  shut_down : LineEvent

-- The case of the select in ReadLine that is tried first.
pub data Pick : Type 0 where
  pick_line pick_context pick_close : Pick

abbrev pub or_else {ℓ} : {A : Type ℓ} → Option A → Option A → Option A
or_else (some x) o = some x
or_else none o = o

-- A select takes any case that is ready, or else its default.
unfoldable pub select_case : {A : Type 0} → Pick → Option A → Option A → Option A → A → A
select_case pick_line a b c d = elim (or_else a (or_else b c)) [ none ↦ d | some r ↦ r ]
select_case pick_context a b c d = elim (or_else b (or_else a c)) [ none ↦ d | some r ↦ r ]
select_case pick_close a b c d = elim (or_else c (or_else a b)) [ none ↦ d | some r ↦ r ]

-- The receive from rx.
unfoldable pub receive_case : List String → Bool → Option (LineEvent × LineChannel)
receive_case [] over =
    if over then some (ended, record { buffered = []; is_closed = over }) else none
receive_case (line ∷ lines) over =
    some (got_line line, record { buffered = lines; is_closed = over })

abbrev pub context_case : Option String → LineChannel → Option (LineEvent × LineChannel)
context_case none ch = none
context_case (some text) ch = some (interrupted text, ch)

abbrev pub close_case : Bool → LineChannel → Option (LineEvent × LineChannel)
close_case true ch = some (ended, ch)
close_case false ch = none

-- ReadLine of an end whose rx this is; `closed` is whether its closeCh is closed.
unfoldable pub read_channel : Bool → Option String → Pick → LineChannel → LineEvent × LineChannel
unfolding select_case receive_case
read_channel closed expired pick ch =
    select_case pick (receive_case ch.buffered ch.is_closed) (context_case expired ch)
      (close_case closed ch) (waits_for_line, ch)

-- The second select of WriteLine; `context_first` is the case that it tries first.
unfoldable pub try_send : Option String → Bool → String → LineChannel → LineEvent × LineChannel
try_send none context_first line ch =
    if ltb (length ch.buffered) channel_capacity
    then (wrote_line line, record ch { buffered = ch.buffered ++ line ∷ [] })
    else (refused_full, ch)
try_send (some text) context_first line ch =
    if not context_first && ltb (length ch.buffered) channel_capacity
    then (wrote_line line, record ch { buffered = ch.buffered ++ line ∷ [] })
    else (interrupted text, ch)

-- WriteLine of an end whose tx this is.
unfoldable pub write_channel :
    Bool → Option String → Bool → String → LineChannel → LineEvent × LineChannel
unfolding try_send
write_channel closed expired context_first line ch =
    if closed then (refused_closed, ch) else try_send expired context_first line ch

-- An operation on one of the two ends.
pub data EndUse : Type 0 where
  reads_line : Option String → Pick → EndUse
  writes_line : Option String → Bool → String → EndUse
  closes_end : EndUse

-- What an operation does to the rx, the tx and closeCh of its end.
unfoldable pub use_end :
    EndUse → LineChannel → LineChannel → Bool → LineEvent × LineChannel × LineChannel × Bool
unfolding read_channel write_channel
use_end (reads_line expired pick) rx tx closed =
    let r = read_channel closed expired pick rx in (r.0, r.1, tx, closed)
use_end (writes_line expired context_first line) rx tx closed =
    let r = write_channel closed expired context_first line tx in (r.0, rx, r.1, closed)
use_end closes_end rx tx closed =
    (shut_down, rx, (if closed then tx else record tx { is_closed = true }), true)

-- The operation is one of the first end, or one of the second.
unfoldable pub use_ends : Bool → EndUse → Ends → LineEvent × Ends
unfolding use_end
use_ends true u p =
    let (event, rx, tx, closed) = use_end u p.back p.forth p.first_closed in
    (
      event,
      record { forth = tx; back = rx; first_closed = closed; second_closed = p.second_closed },
    )
use_ends false u p =
    let (event, rx, tx, closed) = use_end u p.forth p.back p.second_closed in
    (event, record { forth = rx; back = tx; first_closed = p.first_closed; second_closed = closed })

-- The two ends used in any order; each operation with the end that it is one of.
unfoldable pub run_ends : List (Bool × EndUse) → Ends → List LineEvent × Ends
unfolding use_ends
run_ends [] p = ([], p)
run_ends ((side, u) ∷ us) p =
    let (event, p') = use_ends side u p in
    let (events, p'') = run_ends us p' in (event ∷ events, p'')
