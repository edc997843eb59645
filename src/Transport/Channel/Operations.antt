-- ===== src/Transport/Channel/Operations.antt =====
-- ReadLine and WriteLine do what the story of their channel says.
use kimi_wire_go.Prelude.{
  ◌≤◌, String, ◌≡◌, refl, sym, subst, ◌∙◌, inl, inr, Bool, true, false, Option, none, some, List,
  [], ◌∷◌, ◌++◌, arith, length, ◌+◌, ◌<◌, ap, ltb, ltb→lt, length-append, if_cases,
}
use mathlib.Core.List.{append-nil, append_assoc}
use kimi_wire_go.Transport.Channel.{
  pick_context, waits_for_line, read_channel, context_case, receive_case, close_case, select_case,
  pick_close, LineEvent, Pick, LineChannel, pick_line, channel_capacity, wrote_line, write_channel,
  try_send,
}
use kimi_wire_go.Transport.Channel.Story.{
  Reads, Story, reads_wait, reads_end, reads_interrupted, reads_next, writes_interrupted,
  writes_closed, Writes, writes_more, writes_full,
}

-- A channel holds what its story has sent and not taken.
abbrev pub Tracks : LineChannel → Story → Type 0
Tracks ch s =
    (s.sent ≡ s.taken ++ ch.buffered)
    × (length ch.buffered ≤ channel_capacity)
    × (ch.is_closed ≡ s.over)

-- What a ReadLine does is what its story says.
abbrev pub ReadsWell : Option String → Bool → Story → LineEvent × LineChannel → Type 0
ReadsWell expired gone s (event, ch) = (s' : Story) × Reads expired gone s event s' × Tracks ch s'

select_case-cases :
    {A : Type 0} (P : A → Type 0) (pick : Pick) (a b c : Option A) (d : A)
    → ((r : A) → a ≡ some r → P r)
    → ((r : A) → b ≡ some r → P r)
    → ((r : A) → c ≡ some r → P r)
    → (a ≡ none → b ≡ none → c ≡ none → P d)
    → P (select_case pick a b c d)
unfolding select_case
select_case-cases P pick_line (some x) b c d pa pb pc pd = pa x refl
select_case-cases P pick_line none (some y) c d pa pb pc pd = pb y refl
select_case-cases P pick_line none none (some z) d pa pb pc pd = pc z refl
select_case-cases P pick_line none none none d pa pb pc pd = pd refl refl refl
select_case-cases P pick_context a (some y) c d pa pb pc pd = pb y refl
select_case-cases P pick_context (some x) none c d pa pb pc pd = pa x refl
select_case-cases P pick_context none none (some z) d pa pb pc pd = pc z refl
select_case-cases P pick_context none none none d pa pb pc pd = pd refl refl refl
select_case-cases P pick_close a b (some z) d pa pb pc pd = pc z refl
select_case-cases P pick_close (some x) b none d pa pb pc pd = pa x refl
select_case-cases P pick_close none (some y) none d pa pb pc pd = pb y refl
select_case-cases P pick_close none none none d pa pb pc pd = pd refl refl refl

receives_well :
    (expired : Option String) (gone : Bool) (lines : List String) (over : Bool) (s : Story)
    → Tracks (record { buffered = lines; is_closed = over }) s
    → (r : LineEvent × LineChannel) → receive_case lines over ≡ some r
    → ReadsWell expired gone s r
unfolding receive_case
receives_well expired gone [] true s t r e =
    subst (ReadsWell expired gone s) (ground arith)
      (s, reads_end (inr (sym t.2, t.0 ∙ append-nil s.taken)), t)
receives_well expired gone [] false s t r e = absurd (cc e)
receives_well expired gone (line ∷ lines) over s t r e =
    subst (ReadsWell expired gone s) (ground arith) (
      record s { taken = s.taken ++ line ∷ [] },
      reads_next line lines t.0,
      (t.0 ∙ sym (append_assoc s.taken (line ∷ []) lines), omega (arith, t.1), t.2),
    )

pub read_channel-ReadsWell :
    (gone : Bool) (expired : Option String) (pick : Pick) (ch : LineChannel) (s : Story)
    → Tracks ch s
    → ReadsWell expired gone s (read_channel gone expired pick ch)
unfolding read_channel receive_case
read_channel-ReadsWell gone expired pick ch s t =
    select_case-cases (ReadsWell expired gone s) pick (receive_case ch.buffered ch.is_closed)
      (context_case expired ch) (close_case gone ch) (waits_for_line, ch)
      (receives_well expired gone ch.buffered ch.is_closed s t) (context expired) (close gone)
      (waits ch.buffered ch.is_closed expired gone t)
  where
    context :
        (d : Option String) (r : LineEvent × LineChannel)
        → context_case d ch ≡ some r
        → ReadsWell d gone s r
    context none r e = absurd (cc e)
    context (some text) r e =
        subst (ReadsWell (some text) gone s) (ground arith) (s, reads_interrupted text refl, t)

    close :
        (g : Bool) (r : LineEvent × LineChannel)
        → close_case g ch ≡ some r
        → ReadsWell expired g s r
    close true r e = subst (ReadsWell expired true s) (ground arith) (s, reads_end (inl refl), t)
    close false r e = absurd (cc e)

    waits :
        (lines : List String) (over : Bool) (d : Option String) (g : Bool)
        → Tracks (record { buffered = lines; is_closed = over }) s
        → receive_case lines over ≡ none
        → context_case d ch ≡ none
        → close_case g ch ≡ none
        → ReadsWell d g s (waits_for_line, record { buffered = lines; is_closed = over })
    waits [] false none false t e f h =
        (s, reads_wait refl refl (sym t.2) (t.0 ∙ append-nil s.taken), t)
    waits [] true d g t e f h = absurd (cc e)
    waits (x ∷ l) over d g t e f h = absurd (cc e)
    waits [] false (some d) g t e f h = absurd (cc f)
    waits [] false none true t e f h = absurd (cc h)

abbrev pub WritesWell : Option String → String → Story → LineEvent × LineChannel → Type 0
WritesWell expired line s (event, ch) = (s' : Story) × Writes expired line s event s' × Tracks ch s'

module _ (ch : LineChannel) (s : Story) (t : Tracks ch s) (line : String) where
  lines_on_the_way : length s.sent ≡ length s.taken + length ch.buffered
  lines_on_the_way = ap length t.0 ∙ length-append s.taken ch.buffered

  sends_well :
      (expired : Option String)
      → s.over ≡ false
      → ltb (length ch.buffered) channel_capacity ≡ true
      → WritesWell expired line s
          (wrote_line line, record ch { buffered = ch.buffered ++ line ∷ [] })
  sends_well expired o room =
      let less : length ch.buffered < channel_capacity =
        ltb→lt (length ch.buffered) channel_capacity room in
      (
        record s { sent = s.sent ++ line ∷ [] },
        writes_more o (omega (arith, less, lines_on_the_way)),
        (
          ap (λ l. l ++ line ∷ []) t.0 ∙ append_assoc s.taken ch.buffered (line ∷ []),
          omega (arith, less, length-append ch.buffered (line ∷ [])),
          t.2,
        ),
      )

  try_send-WritesWell :
      (expired : Option String) (context_first : Bool)
      → s.over ≡ false
      → WritesWell expired line s (try_send expired context_first line ch)
  unfolding try_send
  try_send-WritesWell none context_first o =
      if_cases (WritesWell none line s) (ltb (length ch.buffered) channel_capacity)
        (sends_well none o)
        (λ full. (s, writes_full o (ground (arith, full, lines_on_the_way, t.1)), t))
  try_send-WritesWell (some text) true o = (s, writes_interrupted text refl o, t)
  try_send-WritesWell (some text) false o =
      if_cases (WritesWell (some text) line s) (ltb (length ch.buffered) channel_capacity)
        (sends_well (some text) o) (λ full. (s, writes_interrupted text refl o, t))

  pub write_channel-WritesWell :
      (closed : Bool) (expired : Option String) (context_first : Bool)
      → closed ≡ s.over
      → WritesWell expired line s (write_channel closed expired context_first line ch)
  unfolding write_channel
  write_channel-WritesWell true expired context_first e = (s, writes_closed (sym e), t)
  write_channel-WritesWell false expired context_first e =
      try_send-WritesWell expired context_first (sym e)
