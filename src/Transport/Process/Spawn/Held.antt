-- ===== src/Transport/Process/Spawn/Held.antt =====
-- Which ends of pipes are held when SpawnChildProcessTransport returns, and when it tries again.
use kimi_wire_go.Prelude.{
  ℕ, ◌<◌, String, ◌≡◌, refl, true, Option, none, some, List, [], ◌∷◌, suc, ◌+◌, ◌&&◌, arith, ltb,
  if_cases, zero, sym, subst, eqb,
}
use kimi_wire_go.Transport.Process.Spawn.{
  open_stderr, AttemptEnd, spawn_attempt, child_runs, stdin_end, stderr_end, Handle, open_stdin,
  close_handle, stdout_reader, Attempt, another_attempt, start_child, StartError, open_stdout,
  SpawnEnd, spawn_from, not_spawned, spawned, as_spawn_error, attempt_failed, spawn_child,
}

abbrev pub Works : Attempt → Type 0
Works a = (a.stdin_pipe ≡ none) × (a.stdout_pipe ≡ none) × (a.stderr_pipe ≡ none) × (a.start ≡ none)

-- The attempt fails because the binary is being written.
abbrev pub IsBusy : Attempt → Type 0
IsBusy a = (e : StartError) × (a.start ≡ some e) × (e.is_text_busy ≡ true)

-- What an attempt comes to, when nothing is held before it.
pub data AttemptStory (attempt : ℕ) (a : Attempt) : AttemptEnd × List Handle → Type 0 where
  attempt_works :
      Works a → AttemptStory attempt a (child_runs, stdin_end ∷ stdout_reader ∷ stderr_end ∷ [])
  attempt_fails : (text : String) → ¬ Works a → AttemptStory attempt a (attempt_failed text, [])
  attempt_repeats : attempt < 2 → IsBusy a → AttemptStory attempt a (another_attempt, [])

spawn_attempt-AttemptStory :
    (attempt : ℕ) (i o e : Option String) (s : Option StartError)
    → AttemptStory attempt
        (record { stdin_pipe = i; stdout_pipe = o; stderr_pipe = e; start = s })
        (spawn_attempt attempt
          (record { stdin_pipe = i; stdout_pipe = o; stderr_pipe = e; start = s })
          [])
unfolding spawn_attempt open_stdin open_stdout open_stderr start_child close_handle
spawn_attempt-AttemptStory attempt (some x) o e s =
    attempt_fails (as_spawn_error x) (λ w. absurd (cc w.0))
spawn_attempt-AttemptStory attempt none (some x) e s =
    attempt_fails (as_spawn_error x) (λ w. absurd (cc w.1))
spawn_attempt-AttemptStory attempt none none (some x) s =
    attempt_fails (as_spawn_error x) (λ w. absurd (cc w.2))
spawn_attempt-AttemptStory attempt none none none none = attempt_works (refl, refl, refl, refl)
spawn_attempt-AttemptStory attempt none none none (some x) =
    let a : Attempt = record {
      stdin_pipe = none;
      stdout_pipe = none;
      stderr_pipe = none;
      start = some x;
    } in
    if_cases (AttemptStory attempt a) (ltb attempt 2 && x.is_text_busy)
      (λ b. attempt_repeats (ground (arith, b)) (x, refl, ground (arith, b)))
      (λ _. attempt_fails (as_spawn_error x.text) (λ w. absurd (cc w.3)))

-- What SpawnChildProcessTransport returns and holds.
pub data SpawnStory (attempts : ℕ → Attempt) : SpawnEnd × List Handle → Type 0 where
  spawn_works :
      (n : ℕ)
      → n < 3
      → ((i : ℕ) → i < n → IsBusy (attempts i))
      → Works (attempts n)
      → SpawnStory attempts (spawned n, stdin_end ∷ stdout_reader ∷ stderr_end ∷ [])
  spawn_fails :
      (text : String) (n : ℕ)
      → n < 3
      → ((i : ℕ) → i < n → IsBusy (attempts i))
      → ¬ Works (attempts n)
      → SpawnStory attempts (not_spawned text, [])

module _ (attempts : ℕ → Attempt) where
  -- One attempt, with what holds if there is another one.
  one_attempt :
      (left attempt : ℕ) (r : AttemptEnd × List Handle)
      → attempt < 3
      → ((i : ℕ) → i < attempt → IsBusy (attempts i))
      → AttemptStory attempt (attempts attempt) r
      → (attempt < 2
          → IsBusy (attempts attempt)
          → SpawnStory attempts (spawn_from left (attempt + 1) attempts []))
      → SpawnStory attempts (elim r.0 [
        | child_runs ↦ (spawned attempt, r.1)
        | attempt_failed e ↦ (not_spawned e, r.1)
        | another_attempt ↦ spawn_from left (attempt + 1) attempts r.1
      ])
  one_attempt left attempt _ less before (attempt_works w) again = spawn_works attempt less before w
  one_attempt left attempt _ less before (attempt_fails text n) again =
      spawn_fails text attempt less before n
  one_attempt left attempt _ less before (attempt_repeats l b) again = again l b

  all_before :
      (attempt : ℕ)
      → ((i : ℕ) → i < attempt → IsBusy (attempts i))
      → IsBusy (attempts attempt)
      → (i : ℕ) → i < attempt + 1
      → IsBusy (attempts i)
  all_before attempt before b i l =
      if_cases (λ (n : ℕ). IsBusy (attempts i)) (eqb i attempt) {x = zero} {y = zero}
        (λ same. subst (λ j. IsBusy (attempts j)) (sym (ground (arith, same))) b)
        (λ other. before i (ground (arith, other, l)))

  spawn_from-SpawnStory :
      (left attempt : ℕ)
      → suc left + attempt ≡ 3
      → ((i : ℕ) → i < attempt → IsBusy (attempts i))
      → SpawnStory attempts (spawn_from (suc left) attempt attempts [])
  unfolding spawn_from
  spawn_from-SpawnStory zero attempt count before =
      let a = attempts attempt in
      one_attempt zero attempt (spawn_attempt attempt a []) (omega (arith, count)) before
        (spawn_attempt-AttemptStory attempt a.stdin_pipe a.stdout_pipe a.stderr_pipe a.start)
        (λ l b. absurd (omega (arith, l, count)))
  spawn_from-SpawnStory (suc left) attempt count before =
      let a = attempts attempt in
      one_attempt (suc left) attempt (spawn_attempt attempt a []) (omega (arith, count)) before
        (spawn_attempt-AttemptStory attempt a.stdin_pipe a.stdout_pipe a.stderr_pipe a.start)
        (λ l b.
          spawn_from-SpawnStory left (attempt + 1) (omega (arith, count))
            (all_before attempt before b))

  -- However the attempts go, a child is started, or an error returned, in one of at most three attempts;
  -- every attempt before it has failed because the binary was being written. Of the ends of pipes that
  -- the attempts have had in their variables, the stdin, the reading end of the stdout and the stderr
  -- of the child are open if it runs; otherwise all are closed.
  pub spawn_child-SpawnStory : SpawnStory attempts (spawn_child attempts)
  unfolding spawn_child
  spawn_child-SpawnStory = spawn_from-SpawnStory 2 0 refl (λ i l. absurd (omega (arith, l)))
