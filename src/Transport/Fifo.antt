-- ===== src/Transport/Fifo.antt =====
-- The in-memory transport is a queue.
use kimi_wire_go.Prelude.{
  String, ◌≡◌, refl, sym, ap, ◌∙◌, Option, List, [], ◌∷◌, ◌++◌, not, if_cases, Bool, ◌&&◌, ◌||◌,
  ltb, length, none, some,
}
use mathlib.Core.List.{append-nil, append_assoc}
use kimi_wire_go.Transport.{
  use_memory, handed_line, write_line_memory, Passed, Use, use_all, Memory, read_line, close_memory,
  inject, writes, injects, ReadResult, closes, memory_capacity, taken_line, reads,
}

-- What came in and what was there is what went out and what is left, in this order.
abbrev pub InOrder : Memory → Passed → Type 0
InOrder m p = m.incoming ++ p.taken ≡ p.handed ++ p.after.incoming

InOrder-inject : (line : String) (m : Memory) → InOrder m (taken_line line (inject line m))
unfolding inject
InOrder-inject line m =
    if_cases Good m.closed (λ _. append-nil m.incoming)
      λ _.
        if_cases Good (ltb (length m.incoming) memory_capacity) (λ _. refl)
          (λ _. append-nil m.incoming)
  where
    Good : Option String × Memory → Type 0
    Good r = InOrder m (taken_line line r)

InOrder-read_line :
    (done line_first : Bool) (waiting_lines out : List String) (over : Bool)
    → InOrder
        (record { incoming = waiting_lines; outgoing = out; closed = over })
        (handed_line (
          read_line done line_first
            (record { incoming = waiting_lines; outgoing = out; closed = over })))
unfolding read_line
InOrder-read_line done line_first [] out over =
    if_cases Good (over && (line_first || not done)) (λ _. refl)
      (λ _. if_cases Good done (λ _. refl) (λ _. refl))
  where
    Good : ReadResult × Memory → Type 0
    Good r = InOrder (record { incoming = []; outgoing = out; closed = over }) (handed_line r)
InOrder-read_line done line_first (l ∷ ls) out over =
    if_cases Good (done && not line_first) (λ _. append-nil (l ∷ ls))
      (λ _. ap (λ x. l ∷ x) (append-nil ls))
  where
    Good : ReadResult × Memory → Type 0
    Good r = InOrder (record { incoming = l ∷ ls; outgoing = out; closed = over }) (handed_line r)

InOrder-use_memory : (u : Use) (m : Memory) → InOrder m (use_memory u m)
unfolding use_memory write_line_memory close_memory
InOrder-use_memory (injects line) m = InOrder-inject line m
InOrder-use_memory (reads done line_first) m =
    InOrder-read_line done line_first m.incoming m.outgoing m.closed
InOrder-use_memory (writes none line) m =
    if_cases Good m.closed (λ _. append-nil m.incoming) (λ _. append-nil m.incoming)
  where
    Good : Option String × Memory → Type 0
    Good r = m.incoming ++ [] ≡ r.1.incoming
InOrder-use_memory (writes (some e) line) m = append-nil m.incoming
InOrder-use_memory closes m =
    if_cases (λ (n : Memory). m.incoming ++ [] ≡ n.incoming) (not m.closed)
      (λ _. append-nil m.incoming) (λ _. append-nil m.incoming)

-- However the transport is used, the lines that were there and then those that Inject takes are, in
-- this order, those that ReadLine hands out and then those that are left: no line is lost, repeated or
-- overtaken.
pub InOrder-use_all : (us : List Use) (m : Memory) → InOrder m (use_all us m)
unfolding use_all
InOrder-use_all [] m = append-nil m.incoming
InOrder-use_all (u ∷ us) m =
    let first = use_memory u m in
    let rest = use_all us first.after in
    sym (append_assoc m.incoming first.taken rest.taken)
    ∙ ap (λ x. x ++ rest.taken) (InOrder-use_memory u m)
    ∙ append_assoc first.handed first.after.incoming rest.taken
    ∙ ap (λ x. first.handed ++ x) (InOrder-use_all us first.after)
    ∙ sym (append_assoc first.handed rest.handed rest.after.incoming)
