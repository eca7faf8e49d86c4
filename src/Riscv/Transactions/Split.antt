-- ===== src/Riscv/Transactions/Split.antt =====
-- RISCV_SingleCycle/testbench/sequences.cpp: the automatic split of `push_ref`, and how long the
-- phases are.
use Prim.Native.Nat.{max}
use verilog.Common.{
  ℕ, ◌+◌, ◌*◌, ◌/◌, ◌≤◌, ◌<◌, ◌≡◌, refl, List, [], ◌∷◌, true, arith, truth, if◌then◌else◌, length,
  length-append, push_back,
}
use verilog.Riscv.Isa.{Config, instructions_limit, inst_mem_depth, ialign}
use verilog.Riscv.Sequencer.{Sequencer, push_seq}
use verilog.Riscv.Sequencer.Phases.{AllCommands}
use verilog.Riscv.Transactions.{Transaction, Bench, maybe_split, push_ref}

-- The lengths of the runs of commands between zeros: the run at the end, and the longest.
abbrev pub runs : ℕ → ℕ → List ℕ → ℕ × ℕ
runs current longest [] = (current, longest)
runs current longest (v ∷ q) =
    runs (if truth v then current + 1 else 0)
      (if truth v then max longest (current + 1) else longest) q

abbrev pub last_run : List ℕ → ℕ
last_run q = (runs 0 0 q).0

abbrev pub longest_run : List ℕ → ℕ
longest_run q = (runs 0 0 q).1

runs-push_back :
    (c l : ℕ) (q : List ℕ) (v : ℕ)
    → ((runs c l (push_back q v)).0 ≡ (if truth v then (runs c l q).0 + 1 else 0))
      × ((runs c l (push_back q v)).1
          ≡ (if truth v then max (runs c l q).1 ((runs c l q).0 + 1) else (runs c l q).1))
runs-push_back c l [] v = (refl, refl)
runs-push_back c l (w ∷ q) v =
    runs-push_back (if truth w then c + 1 else 0) (if truth w then max l (c + 1) else l) q v

-- A scenario pushes a chain of commands and then a reference transaction for it.
abbrev pub push_chain : Config → List ℕ → Transaction → Bench → Bench
push_chain cfg [] req b = (push_ref cfg req 0 b).1
push_chain cfg (v ∷ cmds) req b = push_chain cfg cmds req (record b { sqr = push_seq v b.sqr })

abbrev pub push_chains : Config → List (List ℕ × Transaction) → Bench → Bench
push_chains cfg [] b = b
push_chains cfg ((cmds, req) ∷ chains) b = push_chains cfg chains (push_chain cfg cmds req b)

-- The chains hold commands only, at most 20 each.
abbrev pub ShortChains : List (List ℕ × Transaction) → Type 0
ShortChains [] = Unit
ShortChains ((cmds, req) ∷ chains) = AllCommands cmds × (length cmds ≤ 20) × ShortChains chains

-- Inside a chain, with `extra` of its commands pushed.
record Filling (extra : ℕ) (s : Sequencer) : Type 0 where
  bounded : length s.sqr_fifo < instructions_limit * (s.split_num + 1) + extra
  filled : instructions_limit * s.split_num + last_run s.sqr_fifo ≤ length s.sqr_fifo
  fits : longest_run s.sqr_fifo < instructions_limit + 20

push_seq-Filling :
    (extra v : ℕ) (s : Sequencer)
    → truth v ≡ true
    → extra < 20
    → Filling extra s
    → Filling (extra + 1) (push_seq v s)
unfolding push_seq
push_seq-Filling extra v s command room f = ground (
  arith,
  f.bounded,
  f.filled,
  f.fits,
  length-append s.sqr_fifo (v ∷ []),
  runs-push_back 0 0 s.sqr_fifo v,
)

maybe_split-Filling :
    (extra : ℕ) (s : Sequencer) → extra ≤ 20 → Filling extra s → Filling 0 (maybe_split s)
unfolding maybe_split push_seq
maybe_split-Filling extra s room f = ground (
  arith,
  f.bounded,
  f.filled,
  f.fits,
  length-append s.sqr_fifo (0 ∷ []),
  runs-push_back 0 0 s.sqr_fifo 0,
)

push_chain-Filling :
    (cfg : Config) (cmds : List ℕ) (req : Transaction) (extra : ℕ) (b : Bench)
    → AllCommands cmds
    → extra + length cmds ≤ 20
    → Filling extra b.sqr
    → Filling 0 (push_chain cfg cmds req b).sqr
push_chain-Filling cfg [] req extra b h room f =
    unfold push_ref in maybe_split-Filling extra b.sqr (omega arith) f
push_chain-Filling cfg (v ∷ cmds) req extra b h room f =
    push_chain-Filling cfg cmds req (extra + 1) (record b { sqr = push_seq v b.sqr }) h.1
      (omega arith) (push_seq-Filling extra v b.sqr h.0 (omega arith) f)

push_chains-Filling :
    (cfg : Config) (chains : List (List ℕ × Transaction)) (b : Bench)
    → ShortChains chains
    → Filling 0 b.sqr
    → Filling 0 (push_chains cfg chains b).sqr
push_chains-Filling cfg [] b h f = f
push_chains-Filling cfg ((cmds, req) ∷ chains) b h f =
    push_chains-Filling cfg chains (push_chain cfg cmds req b) h.2
      (push_chain-Filling cfg cmds req 0 b h.0 (omega (arith, h.1)) f)

-- From an empty sequencer in its first phase, with no split but the automatic one: scenarios of
-- chains of at most 20 commands, each closed by `push_ref`, fill phases of which none is longer than
-- the instruction memory, the final zero included.
pub phases_fit :
    (cfg : Config) (chains : List (List ℕ × Transaction)) (b : Bench)
    → ShortChains chains
    → b.sqr.sqr_fifo ≡ []
    → b.sqr.split_num ≡ 0
    → longest_run (push_chains cfg chains b).sqr.sqr_fifo + 1 ≤ inst_mem_depth / ialign
phases_fit cfg chains b h empty none_yet =
    omega (arith, (push_chains-Filling cfg chains b h start).fits)
  where
    start : Filling 0 b.sqr
    start = ground (arith, empty, none_yet)
