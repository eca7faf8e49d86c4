-- ===== src/Riscv/Sequencer/Drain.antt =====
-- RISCV_SingleCycle/testbench/sequencer.cpp: the files of a whole test. `Environment::main` calls
-- `Sequencer::main` while the queue is not empty.
use mathlib.Core.Option
use verilog.Common.{
  ℕ, zero, suc, ◌<◌, ◌≡◌, refl, ap, ◌∙◌, List, [], ◌∷◌, ◌++◌, map, Option, none, some, arith, truth,
  if◌then◌else◌, length, replicate, push_back, ◌≢◌,
}
use verilog.Riscv.Sequencer.{Sequencer, HexFile, bytes_of, main}
use verilog.Riscv.Sequencer.Bytes.{line}
use verilog.Riscv.Sequencer.Phases.{EndsInCommand, AllCommands, MainPhase, main-MainPhase}

-- The files that those calls write, in turn; `none` where one of them is undefined, or the fuel
-- runs out.
pub drain : ℕ → Sequencer → Option (List HexFile)
drain zero s = none
drain (suc fuel) s = elim s.sqr_fifo [
  | [] ↦ some []
  | _ ∷ _ ↦ elim (main s) [
    | none ↦ none
    | some (s', file) ↦ Option.map (λ files. file ∷ files) (drain fuel s')
  ]
]

-- The commands of a queue, without the zeros that separate phases.
abbrev pub commands : List ℕ → List ℕ
commands [] = []
commands (v ∷ q) = let rest = commands q in if truth v then v ∷ rest else rest

abbrev pub concat : List (List ℕ) → List ℕ
concat [] = []
concat (p ∷ ps) = p ++ concat ps

-- The file of one phase.
abbrev pub file_of : List ℕ → HexFile
file_of cmds = push_back (map line cmds) (bytes_of 4 0)

commands-zeros : (n : ℕ) (q : List ℕ) → commands (replicate n 0 ++ q) ≡ commands q
commands-zeros zero q = refl
commands-zeros (suc n) q = commands-zeros n q

commands-append : (cmds q : List ℕ) → AllCommands cmds → commands (cmds ++ q) ≡ cmds ++ commands q
commands-append [] q h = refl
commands-append (v ∷ cmds) q h = ground (arith, h.0, commands-append cmds q h.1)

drain-step :
    (fuel : ℕ) (s s' : Sequencer) (file : HexFile)
    → s.sqr_fifo ≢ []
    → main s ≡ some (s', file)
    → drain (suc fuel) s ≡ Option.map (λ files. file ∷ files) (drain fuel s')
unfolding drain
drain-step fuel s s' file ne e = ground arith

-- The statement below at one state and fuel.
abbrev Drained : ℕ → Sequencer → Type 0
Drained fuel s =
    (phases : List (List ℕ)) × (drain fuel s ≡ some (map file_of phases))
    × (concat phases ≡ commands s.sqr_fifo)

Drained-empty : (fuel : ℕ) (s : Sequencer) → s.sqr_fifo ≡ [] → Drained (suc fuel) s
unfolding drain
Drained-empty fuel s e = ([], rw (e, drain), rw e)

commands-shape : (s : Sequencer) (p : MainPhase s) → p.cmds ++ commands p.rest ≡ commands s.sqr_fifo
commands-shape s p = rw (
  p.shape,
  commands-append p.cmds (replicate p.zeros 0 ++ p.rest) p.all_commands,
  commands-zeros p.zeros p.rest,
)

Drained-step :
    (fuel : ℕ) (s : Sequencer) (p : MainPhase s)
    → s.sqr_fifo ≢ []
    → Drained fuel (record s { sqr_fifo = p.rest; cmd_count = length p.cmds })
    → Drained (suc fuel) s
Drained-step fuel s p ne (phases, files, whole) = (
  p.cmds ∷ phases,
  drain-step fuel s _ _ ne p.returns ∙ ap (Option.map (λ fs. file_of p.cmds ∷ fs)) files,
  ap (λ t. p.cmds ++ t) whole ∙ commands-shape s p,
)

-- With fuel above the queue's length, draining a queue that ends in a command is defined: the
-- files are those of some phases which, put together, are the queue's commands in order.
pub drain_complete :
    (fuel : ℕ) (s : Sequencer)
    → EndsInCommand s.sqr_fifo
    → length s.sqr_fifo < fuel
    → (phases : List (List ℕ)) × (drain fuel s ≡ some (map file_of phases))
      × (concat phases ≡ commands s.sqr_fifo)
drain_complete zero s h lt = absurd (omega arith)
drain_complete (suc fuel) s h lt = split s.sqr_fifo refl (drain_complete fuel)
  where
    split :
        (q : List ℕ)
        → s.sqr_fifo ≡ q
        → ((t : Sequencer) → EndsInCommand t.sqr_fifo → length t.sqr_fifo < fuel → Drained fuel t)
        → Drained (suc fuel) s
    split [] e again = Drained-empty fuel s e
    split (v ∷ q) e again =
        let p : MainPhase s = main-MainPhase s h in
        Drained-step fuel s p (λ n. cc)
          (again (record s { sqr_fifo = p.rest; cmd_count = length p.cmds }) p.rest_ends
            (omega (arith, p.progress, ap (λ (t : List ℕ). length t) e)))
