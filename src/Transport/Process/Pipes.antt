-- ===== src/Transport/Process/Pipes.antt =====
-- ReadLine, WriteLine and Close of transport/transport_process.go.
use kimi_wire_go.Prelude.{
  ℕ, zero, suc, ◌+◌, ◌<◌, String, ◌≡◌, refl, ap, ◌∙◌, Bool, true, false, Option, none, some, List,
  [], ◌∷◌, ◌++◌, arith, ◌==◌, if◌then◌else◌, length, if_cases,
}
use Prim.Native.String.{◌++◌ as str_append}

-- A running child: `is_closed` is the field closed, which Close sets in the call that closeOnce lets
-- through, `has_stdin` whether stdin is not nil, `typed` what was written to it, and `interrupts` how
-- often the child was interrupted.
pub record Child : Type 0 where
  pub is_closed : Bool
  pub has_stdin : Bool
  pub stdout_closed : Bool
  pub typed : List String
  pub interrupts : ℕ

-- What ReadString returns: a line with its newline taken off, the text before the end of the file, an
-- exceeded deadline, or another error.
pub data ReadString : Type 0 where
  whole_line : String → ReadString
  at_end : String → ReadString
  deadline_exceeded : String → ReadString
  read_error : String → ReadString

-- What ReadLine returns.
pub data ChildLine : Type 0 where
  child_line : String → ChildLine
  child_eof : ChildLine
  child_error : String → ChildLine

abbrev pub timeout_text : String → String
timeout_text e = str_append "timeout: " e

abbrev pub io_text : String → String
io_text e = str_append "io error: " e

-- ReadLine after its check of the context; `ctx_error` is the context's error after ReadString.
unfoldable pub read_result : Option String → ReadString → ChildLine
read_result ctx_error (whole_line line) = child_line line
read_result ctx_error (at_end line) = if line == "" then child_eof else child_line line
read_result none (deadline_exceeded e) = child_error (io_text e)
read_result (some t) (deadline_exceeded e) = child_error (timeout_text t)
read_result ctx_error (read_error e) = child_error (io_text e)

-- ReadLine, with the context's error before and after.
unfoldable pub read_child_line : Option String → Option String → ReadString → ChildLine
unfolding read_result
read_child_line (some t) ctx_error r = child_error (timeout_text t)
read_child_line none ctx_error r = read_result ctx_error r

-- What the stdout of the child holds: lines, and a text with no newline.
abbrev pub Stdout : Type 0
Stdout = List String × String

unfoldable pub read_string : Stdout → ReadString × Stdout
read_string ([], last) = (at_end last, ([], ""))
read_string (line ∷ lines, last) = (whole_line line, (lines, last))

-- ReadLine until it fails, at most so often.
unfoldable pub read_lines : ℕ → Stdout → List String
unfolding read_child_line read_string
read_lines zero out = []
read_lines (suc n) out =
    let rest = read_lines n (read_string out).1 in
    elim (read_child_line none none (read_string out).0) [
      | child_line line ↦ line ∷ rest
      | child_eof ↦ []
      | child_error e ↦ []
    ]

-- Fprintln, and what WriteLine returns after it.
unfoldable pub print_line : Option String → Option String → String → Child → Option String × Child
print_line ctx_error none line c = (none, record c { typed = c.typed ++ line ∷ [] })
print_line none (some e) line c = (some (io_text e), c)
print_line (some t) (some e) line c = (some (timeout_text t), c)

-- WriteLine, with the context's error before and after, and the error of Fprintln.
unfoldable pub write_child_line :
    Option String → Option String → Option String → String → Child → Option String × Child
unfolding print_line
write_child_line (some t) ctx_error failure line c = (some (timeout_text t), c)
write_child_line none ctx_error failure line c =
    if c.is_closed
    then (some "transport closed", c)
    else if c.has_stdin
    then print_line ctx_error failure line c
    else (some "stdin not available", c)

-- Close
unfoldable pub close_child : Child → Child
close_child c = if c.is_closed then c else record {
  is_closed = true;
  has_stdin = false;
  stdout_closed = true;
  typed = c.typed;
  interrupts = c.interrupts + 1;
}

pub data ChildUse : Type 0 where
  writes_child : Option String → Option String → Option String → String → ChildUse
  closes_child : ChildUse

unfoldable pub use_child : ChildUse → Child → Child
unfolding write_child_line close_child
use_child (writes_child before after failure line) c =
    (write_child_line before after failure line c).1
use_child closes_child c = close_child c

unfoldable pub use_child_all : List ChildUse → Child → Child
unfolding use_child
use_child_all [] c = c
use_child_all (u ∷ us) c = use_child_all us (use_child u c)

use_child-closed : (u : ChildUse) (c : Child) → c.is_closed ≡ true → use_child u c ≡ c
unfolding use_child write_child_line close_child
use_child-closed closes_child c h =
    if_cases (λ d. d ≡ c) c.is_closed (λ _. refl) (λ n. absurd (cc (n, h)))
use_child-closed (writes_child (some t) after failure line) c h = refl
use_child-closed (writes_child none after failure line) c h =
    if_cases (λ (r : Option String × Child). r.1 ≡ c) c.is_closed (λ _. refl)
      (λ n. absurd (cc (n, h)))

use_child_all-closed :
    (us : List ChildUse) (c : Child) → c.is_closed ≡ true → use_child_all us c ≡ c
unfolding use_child_all
use_child_all-closed [] c h = refl
use_child_all-closed (u ∷ us) c h =
    ap (use_child_all us) (use_child-closed u c h) ∙ use_child_all-closed us c h

-- After Close, no further use of the transport has an effect: nothing is written to the child, and it is
-- not interrupted again, however often Close is called.
pub use_child_all-close_child :
    (us : List ChildUse) (c : Child) → use_child_all us (close_child c) ≡ close_child c
unfolding close_child
use_child_all-close_child us c =
    use_child_all-closed us (close_child c)
      (if_cases (λ (d : Child). d.is_closed ≡ true) c.is_closed (λ h. h) (λ _. refl))

-- The lines that stay once an unfinished last one counts if it is not empty.
abbrev pub finished : String → List String
finished last = if last == "" then [] else last ∷ []

-- Enough reads give each line of the stdout once, in order, then the unfinished last one, and then end.
pub read_lines-finished :
    (lines : List String) (last : String) (n : ℕ)
    → length lines + 1 < n
    → read_lines n (lines, last) ≡ lines ++ finished last
unfolding read_lines read_child_line read_result read_string
read_lines-finished lines last zero h = elim h [ ]
read_lines-finished (line ∷ lines) last (suc n) h =
    ap (λ l. line ∷ l) (read_lines-finished lines last n (omega (arith, h)))
read_lines-finished [] last (suc zero) h = absurd (omega (arith, h))
read_lines-finished [] last (suc (suc n)) h = split (last == "")
  where
    split :
        (b : Bool)
        → (elim (if b then child_eof else child_line last) [
          | child_line line ↦ line ∷ read_lines (suc n) ([], "")
          | child_eof ↦ []
          | child_error e ↦ []
        ])
          ≡ (if b then [] else last ∷ [])
    split true = refl
    split false = refl
