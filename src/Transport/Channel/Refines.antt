-- ===== src/Transport/Channel/Refines.antt =====
-- The pair of ends keeps its promise.
-- An operation of an end does what its stories say.
use kimi_wire_go.Prelude.{
  String, ◌≡◌, refl, sym, subst, ◌∙◌, Bool, true, false, Option, List, [], ◌∷◌, arith,
}
use kimi_wire_go.Transport.Channel.{
  Ends, LineChannel, run_ends, closes_end, use_ends, use_end, writes_line, EndUse, reads_line,
  new_ends, LineEvent, read_channel,
}
use kimi_wire_go.Transport.Channel.Story.{
  tells_second, Uses, writes_full, uses_close, tells_nothing, uses_read, tells_first, writes_closed,
  Story, writes_more, Tells, writes_interrupted, uses_write, Writes, Reads, reads_interrupted,
  untold, reads_end, reads_wait, reads_next,
}
use kimi_wire_go.Transport.Channel.Operations.{
  write_channel-WritesWell, read_channel-ReadsWell, Tracks,
}

abbrev UsesWell : EndUse → Story → Story → LineEvent × LineChannel × LineChannel × Bool → Type 0
UsesWell u rx tx (event, ch, ch', closed) =
    (rx' : Story) × (tx' : Story) × Uses rx tx u event rx' tx'
    × Tracks ch rx'
    × Tracks ch' tx'
    × (closed ≡ tx'.over)

over-Writes :
    (expired : Option String) (line : String) (s : Story) (event : LineEvent) (s' : Story)
    → Writes expired line s event s'
    → s'.over ≡ s.over
over-Writes expired line s _ _ (writes_more o l) = refl
over-Writes expired line s _ _ (writes_closed o) = refl
over-Writes expired line s _ _ (writes_full o l) = refl
over-Writes expired line s _ _ (writes_interrupted text d o) = refl

over-Reads :
    (expired : Option String) (gone : Bool) (s : Story) (event : LineEvent) (s' : Story)
    → Reads expired gone s event s'
    → s'.over ≡ s.over
over-Reads expired gone s _ _ (reads_next line rest e) = refl
over-Reads expired gone s _ _ (reads_end e) = refl
over-Reads expired gone s _ _ (reads_interrupted text e) = refl
over-Reads expired gone s _ _ (reads_wait e g o n) = refl

over-Uses :
    (rx tx : Story) (u : EndUse) (event : LineEvent) (rx' tx' : Story)
    → Uses rx tx u event rx' tx'
    → rx'.over ≡ rx.over
over-Uses rx tx _ event _ _ (uses_read expired pick _ rx' r) =
    over-Reads expired tx.over rx event rx' r
over-Uses rx tx _ event _ _ (uses_write expired context_first line _ tx' w) = refl
over-Uses rx tx _ _ _ _ uses_close = refl

use_end-UsesWell :
    (u : EndUse) (ch ch' : LineChannel) (closed : Bool) (rx tx : Story)
    → Tracks ch rx
    → Tracks ch' tx
    → closed ≡ tx.over
    → UsesWell u rx tx (use_end u ch ch' closed)
unfolding use_end
use_end-UsesWell (reads_line expired pick) ch ch' closed rx tx t t' e =
    let (rx', r, k) = read_channel-ReadsWell closed expired pick ch rx t in
    (
      rx',
      tx,
      uses_read expired pick _ rx'
          (subst (λ b. Reads expired b rx (read_channel closed expired pick ch).0 rx') e r),
      k,
      t',
      e,
    )
use_end-UsesWell (writes_line expired context_first line) ch ch' closed rx tx t t' e =
    let (tx', w, k) = write_channel-WritesWell ch' tx t' line closed expired context_first e in
    (
      rx,
      tx',
      uses_write expired context_first line _ tx' w,
      t,
      k,
      e ∙ sym (over-Writes expired line tx _ tx' w),
    )
use_end-UsesWell closes_end ch ch' true rx tx t t' e =
    (rx, record tx { over = true }, uses_close, t, (t'.0, t'.1, t'.2 ∙ sym e), refl)
use_end-UsesWell closes_end ch ch' false rx tx t t' e =
    (rx, record tx { over = true }, uses_close, t, (t'.0, t'.1, refl), refl)

-- Both channels hold what their stories have sent and not taken, and an end is closed when its story
-- is over.
abbrev pub AreTold : Ends → Story → Story → Type 0
AreTold p forth back =
    Tracks p.forth forth
    × Tracks p.back back
    × (p.first_closed ≡ forth.over)
    × (p.second_closed ≡ back.over)

AreTold-Tells :
    (us : List (Bool × EndUse)) (p : Ends) (forth back : Story)
    → AreTold p forth back
    → Tells us (run_ends us p).0 forth back
unfolding run_ends use_ends
AreTold-Tells [] p forth back m = tells_nothing forth back
AreTold-Tells ((true, u) ∷ us) p forth back (f, b, x, y) =
    let (rx', tx', told, f', t', e) =
      use_end-UsesWell u p.back p.forth p.first_closed back forth b f x in
    tells_first u us _ _ forth back tx' rx' told (
      AreTold-Tells us (use_ends true u p).1 tx' rx'
        (t', f', e, y ∙ sym (over-Uses back forth u _ rx' tx' told)))
AreTold-Tells ((false, u) ∷ us) p forth back (f, b, x, y) =
    let (rx', tx', told, f', t', e) =
      use_end-UsesWell u p.forth p.back p.second_closed forth back f b y in
    tells_second u us _ _ forth back rx' tx' told (
      AreTold-Tells us (use_ends false u p).1 rx' tx'
        (f', t', x ∙ sym (over-Uses forth back u _ rx' tx' told), e))

-- However the two ends of a new pair are used, what comes of their operations is what two stories tell,
-- one for each direction: a ReadLine gives the lines that the other end has sent, each once and in
-- their order, says that there are no more only once its own end is closed or the other end is and
-- all its lines are taken, and waits only while there is none; a WriteLine sends its line unless its
-- end is closed, its context is done, or 64 lines are on the way, and nothing is sent after
-- Close.
pub Tells-run_ends : (us : List (Bool × EndUse)) → Tells us (run_ends us new_ends).0 untold untold
Tells-run_ends us =
    AreTold-Tells us new_ends untold untold
      ((refl, omega arith, refl), (refl, omega arith, refl), refl, refl)
