-- ===== src/Tests/Transport.antt =====
-- Lines through the in-memory transport.
use kimi_wire_go.Prelude.{◌≡◌, refl, true, false, List, [], ◌∷◌}
use kimi_wire_go.Transport.{Use, use_all, reads, new_memory, injects, closes}
use kimi_wire_go.Transport.Fifo.{InOrder-use_all, InOrder}

abbrev some_uses : List Use
some_uses =
    injects "a"
    ∷ injects "b"
    ∷ reads false true
    ∷ closes
    ∷ injects "c"
    ∷ reads true true
    ∷ reads false true
    ∷ []

read_before_the_end : (use_all some_uses new_memory).handed ≡ "a" ∷ "b" ∷ []
unfolding use_all
read_before_the_end = refl

InOrder-use_all_example : InOrder new_memory (use_all some_uses new_memory)
InOrder-use_all_example = InOrder-use_all some_uses new_memory
