-- ===== src/Riscv/Sequencer/Phases.antt =====
-- How `Sequencer::main` cuts the queue of commands into phases.
use mathlib.Core.List.{append-nil}
use mathlib.Core.Path.{ap₂}
use native.Mathlib.Nat.{add-zero, add_assoc, zero-add}
use verilog.Common.{
  ℕ, zero, suc, ◌+◌, ◌-◌, ◌≤◌, ◌≡◌, refl, ap, ◌∙◌, ◌≢◌, List, [], ◌∷◌, ◌++◌, map, true, false, none,
  some, ◌⊎◌, inl, inr, arith, truth, truth→eq, truth→ne, length, replicate, push_back,
  append-push_back, Bool-cases,
}
use verilog.Riscv.Sequencer.{Sequencer, HexFile, front, bytes_of, main_loop, main}
use verilog.Riscv.Sequencer.Bytes.{line}

-- The queue is empty or its last element is a command, not a zero.
abbrev pub EndsInCommand : List ℕ → Type 0
EndsInCommand [] = Unit
EndsInCommand (v ∷ []) = truth v ≡ true
EndsInCommand (v ∷ w ∷ q) = EndsInCommand (w ∷ q)

abbrev pub AllCommands : List ℕ → Type 0
AllCommands [] = Unit
AllCommands (v ∷ q) = (truth v ≡ true) × AllCommands q

-- One phase: the queue `q` is `cmds`, then zeros, then `rest`; the loop writes a line for each of
-- `cmds`, counts them and leaves `rest`.
pub record Phase (q : List ℕ) (file : HexFile) (count : ℕ) : Type 0 where
  pub cmds : List ℕ
  pub zeros : ℕ
  pub rest : List ℕ
  pub shape : q ≡ cmds ++ (replicate zeros 0 ++ rest)
  pub all_commands : AllCommands cmds
  pub rest_ends : EndsInCommand rest
  pub rest_starts : (rest ≡ []) ⊎ ((next : ℕ) × (front rest ≡ some next) × (next ≢ 0))
  pub progress : length rest ≤ length q - 1
  pub returns : main_loop q file count ≡ some (rest, file ++ map line cmds, count + length cmds)

tail-EndsInCommand : (v : ℕ) (q : List ℕ) → EndsInCommand (v ∷ q) → EndsInCommand q
tail-EndsInCommand v [] h = tt
tail-EndsInCommand v (w ∷ q) h = h

-- The four ways one round of the loop goes.
module _ (v : ℕ) (file : HexFile) (count : ℕ) where
  main_loop-command :
      (q : List ℕ)
      → truth v ≡ true
      → main_loop (v ∷ q) file count ≡ main_loop q (push_back file (line v)) (count + 1)
  unfolding main_loop
  main_loop-command q h = ground arith

  main_loop-last_zero : truth v ≡ false → main_loop (v ∷ []) file count ≡ none
  unfolding main_loop
  main_loop-last_zero h = ground arith

  main_loop-stop :
      (w : ℕ) (q : List ℕ)
      → truth v ≡ false
      → truth w ≡ true
      → main_loop (v ∷ w ∷ q) file count ≡ some (w ∷ q, file, count)
  unfolding main_loop
  main_loop-stop w q h k = ground arith

  main_loop-skip :
      (w : ℕ) (q : List ℕ)
      → truth v ≡ false
      → truth w ≡ false
      → main_loop (v ∷ w ∷ q) file count ≡ main_loop (w ∷ q) file count
  unfolding main_loop
  main_loop-skip w q h k = ground arith

-- From a zero on, the zeros are dropped up to the next command.
record Zeros (q : List ℕ) (file : HexFile) (count : ℕ) : Type 0 where
  zeros : ℕ
  next : ℕ
  rest : List ℕ
  shape : q ≡ replicate zeros 0 ++ (next ∷ rest)
  command : truth next ≡ true
  ends : EndsInCommand (next ∷ rest)
  progress : length rest + 1 ≤ length q - 1
  returns : main_loop q file count ≡ some (next ∷ rest, file, count)

main_loop-drops :
    (v : ℕ) (q : List ℕ) (file : HexFile) (count : ℕ)
    → truth v ≡ false
    → EndsInCommand (v ∷ q)
    → Zeros (v ∷ q) file count
main_loop-drops v [] file count z h = absurd (ground arith)
main_loop-drops v (w ∷ q) file count z h = elim (Bool-cases (truth w)) [
  | inl command ↦ record {
    zeros = 1;
    next = w;
    rest = q;
    shape = ap (λ (t : ℕ). t ∷ w ∷ q) (truth→eq v z);
    command = command;
    ends = h;
    progress = omega arith;
    returns = main_loop-stop v file count w q z command;
  }
  | inr more ↦
      let p : Zeros (w ∷ q) file count = main_loop-drops w q file count more h in
      record {
        zeros = suc p.zeros;
        next = p.next;
        rest = p.rest;
        shape = ap₂ ◌∷◌ (truth→eq v z) p.shape;
        command = p.command;
        ends = p.ends;
        progress = omega (arith, p.progress);
        returns = main_loop-skip v file count w q z more ∙ p.returns;
      }
]

-- On a queue that ends in a command the loop is defined, and cuts one phase off.
pub main_loop-Phase :
    (q : List ℕ) (file : HexFile) (count : ℕ) → EndsInCommand q → Phase q file count
main_loop-Phase [] file count h = record {
  cmds = [];
  zeros = 0;
  rest = [];
  shape = refl;
  all_commands = tt;
  rest_ends = tt;
  rest_starts = inl refl;
  progress = omega arith;
  returns = unfold main_loop in rw (append-nil, add-zero);
}
main_loop-Phase (v ∷ q) file count h = elim (Bool-cases (truth v)) [
  | inl command ↦
      let p : Phase q (push_back file (line v)) (count + 1) =
        main_loop-Phase q (push_back file (line v)) (count + 1) (tail-EndsInCommand v q h) in
      record {
        cmds = v ∷ p.cmds;
        zeros = p.zeros;
        rest = p.rest;
        shape = ap (λ t. v ∷ t) p.shape;
        all_commands = (command, p.all_commands);
        rest_ends = p.rest_ends;
        rest_starts = p.rest_starts;
        progress = omega (arith, p.progress);
        returns =
            main_loop-command v file count q command
            ∙ p.returns
            ∙ rw (append-push_back file (line v) (map line p.cmds), add_assoc) (ground arith);
      }
  | inr stop ↦
      let z : Zeros (v ∷ q) file count = main_loop-drops v q file count stop h in
      record {
        cmds = [];
        zeros = z.zeros;
        rest = z.next ∷ z.rest;
        shape = z.shape;
        all_commands = tt;
        rest_ends = z.ends;
        rest_starts = inr (z.next, refl, truth→ne z.next z.command);
        progress = omega (arith, z.progress);
        returns = z.returns ∙ rw (append-nil, add-zero);
      }
]

zeros-undefined :
    (n : ℕ) (file : HexFile) (count : ℕ) → main_loop (replicate (suc n) 0) file count ≡ none
zeros-undefined zero file count = main_loop-last_zero 0 file count refl
zeros-undefined (suc n) file count =
    main_loop-skip 0 file count 0 (replicate n 0) refl refl ∙ zeros-undefined n file count

main_loop-undefined :
    (cmds : List ℕ) (n : ℕ) (file : HexFile) (count : ℕ)
    → AllCommands cmds
    → main_loop (cmds ++ replicate (suc n) 0) file count ≡ none
main_loop-undefined [] n file count h = zeros-undefined n file count
main_loop-undefined (v ∷ cmds) n file count h =
    main_loop-command v file count (cmds ++ replicate (suc n) 0) h.0
    ∙ main_loop-undefined cmds n (push_back file (line v)) (count + 1) h.1

-- A queue whose commands are followed by zeros alone, as the generators that end by a `split`
-- leave it, makes `main` call `front` on the empty queue.
pub main-undefined :
    (cmds : List ℕ) (n : ℕ) (s : Sequencer)
    → AllCommands cmds
    → s.sqr_fifo ≡ cmds ++ replicate (suc n) 0
    → main s ≡ none
unfolding main
main-undefined cmds n s h e = rw (e, main_loop-undefined cmds n [] 0 h)

-- What `main` does on a queue that ends in a command.
pub record MainPhase (s : Sequencer) : Type 0 where
  pub cmds : List ℕ
  pub zeros : ℕ
  pub rest : List ℕ
  pub shape : s.sqr_fifo ≡ cmds ++ (replicate zeros 0 ++ rest)
  pub all_commands : AllCommands cmds
  pub rest_ends : EndsInCommand rest
  pub rest_starts : (rest ≡ []) ⊎ ((next : ℕ) × (front rest ≡ some next) × (next ≢ 0))
  pub progress : length rest ≤ length s.sqr_fifo - 1
  pub returns :
      main s
      ≡ some (
        record s { sqr_fifo = rest; cmd_count = length cmds },
        push_back (map line cmds) (bytes_of 4 0),
      )

pub main-MainPhase : (s : Sequencer) → EndsInCommand s.sqr_fifo → MainPhase s
unfolding main
main-MainPhase s h =
    let p : Phase s.sqr_fifo [] 0 = main_loop-Phase s.sqr_fifo [] 0 h in
    record {
      cmds = p.cmds;
      zeros = p.zeros;
      rest = p.rest;
      shape = p.shape;
      all_commands = p.all_commands;
      rest_ends = p.rest_ends;
      rest_starts = p.rest_starts;
      progress = p.progress;
      returns = rw (p.returns, zero-add);
    }
