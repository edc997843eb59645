-- ===== src/Transport/Process/Blocks.antt =====
-- The loop of logStderr cuts the stderr into single lines and blocks.
use mathlib.Core.List.{append-nil, append_assoc}
use kimi_wire_go.Prelude.{
  String, ◌≡◌, true, false, List, [], ◌∷◌, ◌++◌, refl, sym, ap, ◌∙◌, Bool, ◌==◌, if_cases, subst,
  arith, eq_iff,
}
use kimi_wire_go.Transport.Process.{
  Texts, flush_redacted, end_log, log_stderr, log_outside, log_within, log_from, log_line,
  StderrLog, flush_block,
}

-- A single line, a block with its lines, or the empty text before the error.

pub data Piece : Type 0 where
  single : String → Piece
  block : List String → Piece
  nothing_left : Piece

abbrev pub lines_of : Piece → List String
lines_of (single line) = line ∷ []
lines_of (block lines) = lines
lines_of nothing_left = "" ∷ []

unfoldable pub all_lines : List Piece → List String
all_lines [] = []
all_lines (p ∷ ps) = lines_of p ++ all_lines ps

module _ (texts : Texts) where
  -- The first line begins a key.
  unfoldable pub StartsKey : List String → Type 0
  StartsKey [] = ⊥
  StartsKey (line ∷ lines) = texts.is_begin line ≡ true

  -- None of the lines ends a key.
  unfoldable pub NoEnd : List String → Type 0
  NoEnd [] = Unit {0}
  NoEnd (line ∷ lines) = (texts.is_end line ≡ false) × NoEnd lines

  -- A block is from a line that begins a key to the first that ends one, or, if it is the last
  -- piece, to the end.
  pub data IsCut : List Piece → Type 0 where
    no_pieces : IsCut []
    a_single :
        (line : String) (ps : List Piece)
        → texts.is_begin line ≡ false
        → IsCut ps
        → IsCut (single line ∷ ps)
    a_rest : texts.is_begin "" ≡ false → IsCut (nothing_left ∷ [])
    a_block :
        (lines : List String) (last : String) (ps : List Piece)
        → StartsKey (lines ++ last ∷ [])
        → NoEnd lines
        → texts.is_end last ≡ true
        → IsCut ps
        → IsCut (block (lines ++ last ∷ []) ∷ ps)
    an_open_block : (lines : List String) → StartsKey lines → NoEnd lines → IsCut (block lines ∷ [])

  -- A single line is logged redacted, a block is redacted as a whole.
  unfoldable pub logged_piece : Piece → List String
  unfolding flush_redacted
  logged_piece (single line) = texts.redact line ∷ []
  logged_piece (block lines) = flush_redacted texts lines
  logged_piece nothing_left = []

  unfoldable pub logged_pieces : List Piece → List String
  unfolding logged_piece
  logged_pieces [] = []
  logged_pieces (p ∷ ps) = logged_piece p ++ logged_pieces ps

  -- How a part of the stderr is logged, after `acc` of a block that is not over.
  abbrev pub Cut : List String → List String → List String → List String → Type 0
  Cut logged acc todo result =
      (ps : List Piece) × IsCut ps
      × (all_lines ps ≡ acc ++ todo)
      × (result ≡ logged ++ logged_pieces ps)

  -- Where the loop stands: outside of a block, or within one.
  pub data Open : Bool → List String → Type 0 where
    is_out : Open false []
    is_in : (acc : List String) → StartsKey acc → NoEnd acc → Open true acc

  -- What follows logs `todo` well, wherever the loop stands.
  abbrev pub LogsWell : (StderrLog → List String) → List String → Type 0
  LogsWell next todo =
      (b : Bool) (acc logged : List String)
      → Open b acc
      → Cut logged acc todo (next (record { accum = acc; in_block = b; logged = logged }))

  StartsKey-snoc :
      (acc : List String) (line : String) → StartsKey acc → StartsKey (acc ++ line ∷ [])
  unfolding StartsKey
  StartsKey-snoc [] line s = elim s [ ]
  StartsKey-snoc (x ∷ acc) line s = s

  NoEnd-snoc :
      (acc : List String) (line : String)
      → NoEnd acc
      → texts.is_end line ≡ false
      → NoEnd (acc ++ line ∷ [])
  unfolding NoEnd
  NoEnd-snoc [] line n e = (e, tt)
  NoEnd-snoc (x ∷ acc) line n e = (n.0, NoEnd-snoc acc line n.1 e)

  log_within-Cut :
      (next : StderrLog → List String) (todo : List String) (line : String)
      (acc logged : List String)
      → LogsWell next todo
      → StartsKey (acc ++ line ∷ [])
      → NoEnd acc
      → Cut logged acc (line ∷ todo) (next (log_within texts line acc logged))
  unfolding log_within flush_block logged_pieces logged_piece all_lines
  log_within-Cut next todo line acc logged well s n =
      if_cases (λ t. Cut logged acc (line ∷ todo) (next t)) (texts.is_end line)
        (λ e.
          let flushed = flush_redacted texts (acc ++ line ∷ []) in
          let (ps, c, l, r) = well false [] (logged ++ flushed) is_out in
          (
            block (acc ++ line ∷ []) ∷ ps,
            a_block acc line ps s n e c,
            ap (λ x. (acc ++ line ∷ []) ++ x) l ∙ append_assoc acc (line ∷ []) todo,
            r ∙ append_assoc logged flushed (logged_pieces ps),
          ))
        (λ e.
          let (ps, c, l, r) =
            well true (acc ++ line ∷ []) logged
              (is_in (acc ++ line ∷ []) s (NoEnd-snoc acc line n e)) in
          (ps, c, l ∙ append_assoc acc (line ∷ []) todo, r))

  log_line-LogsWell :
      (next : StderrLog → List String) (todo : List String) (no_text : Bool) (line : String)
      → LogsWell next todo
      → ((logged : List String)
          → no_text ≡ true
          → texts.is_begin line ≡ false
          → Cut logged []
              (line ∷ todo)
              (next (record { accum = []; in_block = false; logged = logged })))
      → LogsWell (λ s. next (log_line texts no_text line s)) (line ∷ todo)
  unfolding log_line log_outside StartsKey NoEnd all_lines logged_pieces logged_piece
  log_line-LogsWell next todo no_text line well empty _ _ logged (is_in acc s n) =
      log_within-Cut next todo line acc logged well (StartsKey-snoc acc line s) n
  log_line-LogsWell next todo no_text line well empty _ _ logged is_out =
      if_cases (λ t. Cut logged [] (line ∷ todo) (next t)) (texts.is_begin line)
        (λ b. log_within-Cut next todo line [] logged well b tt)
        (λ b.
          if_cases (λ t. Cut logged [] (line ∷ todo) (next t)) no_text (λ e. empty logged e b)
            (λ _.
              let (ps, c, l, r) = well false [] (logged ++ texts.redact line ∷ []) is_out in
              (
                single line ∷ ps,
                a_single line ps b c,
                ap (λ x. line ∷ x) l,
                r ∙ append_assoc logged (texts.redact line ∷ []) (logged_pieces ps),
              )))

  end_log-LogsWell : LogsWell (end_log texts) []
  unfolding end_log all_lines logged_pieces logged_piece StartsKey
  end_log-LogsWell _ _ logged is_out = ([], no_pieces, refl, sym (append-nil logged))
  end_log-LogsWell _ _ logged (is_in [] s n) = elim s [ ]
  end_log-LogsWell _ _ logged (is_in (x ∷ acc) s n) = (
    block (x ∷ acc) ∷ [],
    an_open_block (x ∷ acc) s n,
    refl,
    ap (λ l. logged ++ l) (sym (append-nil (flush_redacted texts (x ∷ acc)))),
  )

  log_from-LogsWell :
      (lines : List String) (last : String)
      → LogsWell (log_from texts lines last) (lines ++ last ∷ [])
  unfolding log_from all_lines logged_pieces logged_piece
  log_from-LogsWell [] last =
      log_line-LogsWell (end_log texts) [] (last == "") last end_log-LogsWell (λ logged e b.
        let same : last ≡ "" = ground (arith, e, eq_iff last "") in
        (
          nothing_left ∷ [],
          a_rest (subst (λ l. texts.is_begin l ≡ false) same b),
          ap (λ l. l ∷ []) (sym same),
          sym (append-nil logged),
        ))
  log_from-LogsWell (line ∷ lines) last =
      log_line-LogsWell (log_from texts lines last) (lines ++ last ∷ []) false line
        (log_from-LogsWell lines last) (λ logged e b. absurd (cc e))

  -- The stderr of a child, its lines and the text before the error, is cut into single lines and
  -- blocks, in order and without a line left out: a block is from a line that begins a private key
  -- to the first that ends one, or to the end, and a single line begins none. Each single line is logged
  -- redacted, and each block is redacted as a whole and logged; nothing else is logged.
  pub log_stderr-Cut :
      (lines : List String) (last : String)
      → Cut [] [] (lines ++ last ∷ []) (log_stderr texts lines last)
  unfolding log_stderr
  log_stderr-Cut lines last = log_from-LogsWell lines last false [] [] is_out
