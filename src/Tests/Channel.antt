-- ===== src/Tests/Channel.antt =====
-- A pair of ends: a line is sent, the sender closes, and the receiver drains it.
use kimi_wire_go.Prelude.{◌≡◌, refl, Bool, true, false, none, List, [], ◌∷◌}
use kimi_wire_go.Transport.Channel.{
  pick_line, reads_line, EndUse, closes_end, wrote_line, shut_down, ended, writes_line, got_line,
  new_ends, refused_closed, run_ends,
}
use kimi_wire_go.Transport.Channel.Story.{Tells, untold}
use kimi_wire_go.Transport.Channel.Refines.{Tells-run_ends}

abbrev talk : List (Bool × EndUse)
talk =
    (true, writes_line none false "hello")
    ∷ (true, closes_end)
    ∷ (true, writes_line none false "late")
    ∷ (false, reads_line none pick_line)
    ∷ (false, reads_line none pick_line)
    ∷ []

talk_told :
    (run_ends talk new_ends).0
    ≡ wrote_line "hello" ∷ shut_down ∷ refused_closed ∷ got_line "hello" ∷ ended ∷ []
unfolding run_ends
talk_told = refl

Tells-run_ends_example :
    Tells talk
      (wrote_line "hello" ∷ shut_down ∷ refused_closed ∷ got_line "hello" ∷ ended ∷ [])
      untold
      untold
unfolding run_ends
Tells-run_ends_example = Tells-run_ends talk
