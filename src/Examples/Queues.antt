-- ===== src/Examples/Queues.antt =====
-- RISCV_SingleCycle/testbench: a short queue of commands, and a short test on the scoreboard.
use verilog.Common.{
  ℕ, ◌+◌, ◌≤◌, ◌≡◌, ◌↔◌, refl, List, [], ◌∷◌, map, none, some, length, push_back, arith, ◌/◌,
}
use verilog.Riscv.Isa.{Config, inst_mem_depth, ialign}
use verilog.Riscv.Sequencer.{Sequencer, main}
use verilog.Riscv.Sequencer.Bytes.{line, read_from, line-read, line-quadrant_one}
use verilog.Riscv.Sequencer.Phases.{main-undefined}
use verilog.Riscv.Sequencer.Drain.{drain, commands, concat, file_of, drain_complete}
use verilog.Riscv.Transactions.{Transaction, Bench, get_ref, push_ref, push_drv}
use verilog.Riscv.Transactions.Queues.{cut, push_masked}
use verilog.Riscv.Transactions.Split.{longest_run, push_chains, phases_fit}
use verilog.Riscv.Scoreboard
use verilog.Riscv.Scoreboard.{
  Board, write, is_finished, mismatches, compare_front, main_at, pre_test, post_test,
}
use verilog.Riscv.Scoreboard.Steps.{receive, check, AllMatch, run, received}
use verilog.Riscv.Scoreboard.Verdict.{passing_sound}
use verilog.Riscv.Scoreboard.Session.{session, session_passes_iff}

-- Two phases, the first of two commands.
abbrev queued : Sequencer
queued = record { sqr_fifo = 0x13 ∷ 0x93 ∷ 0 ∷ 0 ∷ 0x73 ∷ []; split_num = 2; cmd_count = 0 }

-- A queue that ends in the mark of a split.
abbrev split_last : Sequencer
split_last = record { sqr_fifo = 0x13 ∷ 0 ∷ []; split_num = 1; cmd_count = 0 }

abbrev build : Config
build = record { xlen = 32; addr_width = 32 }

abbrev expected_read : Transaction
expected_read = record {
  req = 1;
  wr = 0;
  addr = 0x1000;
  wr_data = 0;
  rd_data = 7;
  test_id = 0;
  irq = 0;
}

abbrev seen_read : Transaction
seen_read = record expected_read { wr_data = 99 }

abbrev seen_write : Transaction
seen_write = record expected_read { wr = 1 }

abbrev board : Board
board = record {
  ref_fifo = expected_read ∷ [];
  rx_fifo = [];
  ref_count = 0;
  res_count = 0;
  err_count = 0;
  err_total = 3;
  expres = expected_read;
}

abbrev bench : Bench
bench = record {
  sqr = record { sqr_fifo = []; split_num = 0; cmd_count = 0 };
  ref_fifo = [];
  drv_fifo = [];
}

drain_complete_example :
    (phases : List (List ℕ)) × (drain 6 queued ≡ some (map file_of phases))
    × (concat phases ≡ commands queued.sqr_fifo)
drain_complete_example = drain_complete 6 queued refl (omega arith)

main-undefined_example : main split_last ≡ none
main-undefined_example = main-undefined (0x13 ∷ []) 0 split_last (refl, tt) refl

line-read_example : (length (line 0xFE010113) ≡ 4) × (read_from 0 (line 0xFE010113) ≡ 0xFE010113)
line-read_example = line-read 0xFE010113 (omega arith) refl

line-quadrant_one_example : length (line 0x1) ≡ 4
line-quadrant_one_example = line-quadrant_one 0x1 refl

push_masked_example :
    let req : Transaction = record expected_read { rd_data = 0x1FFFFFFFF } in
    let m : Transaction = record req {
      test_id = bench.sqr.split_num;
      wr_data = cut build.xlen req.wr_data;
      rd_data = cut build.xlen req.rd_data;
      addr = cut build.addr_width req.addr;
    } in
    let (r, br) = push_ref build req 0 bench in
    let (d, bd) = push_drv build req bench in
    (r ≡ m)
    × (br.ref_fifo ≡ push_back bench.ref_fifo m)
    × (br.drv_fifo ≡ bench.drv_fifo)
    × (d ≡ m)
    × (bd ≡ record bench { drv_fifo = push_back bench.drv_fifo m })
push_masked_example = push_masked build (record expected_read { rd_data = 0x1FFFFFFFF }) 0 bench

phases_fit_example :
    longest_run (push_chains build ((0x13 ∷ 0x93 ∷ [], expected_read) ∷ []) bench).sqr.sqr_fifo + 1
    ≤ inst_mem_depth / ialign
phases_fit_example =
    phases_fit build ((0x13 ∷ 0x93 ∷ [], expected_read) ∷ []) bench
      ((refl, (refl, tt)), omega arith, tt) refl refl

session_passes_iff_example :
    ((post_test (run (pre_test board) (session (seen_write ∷ [])))).err_total ≡ board.err_total)
    ↔ AllMatch board.ref_fifo (seen_write ∷ [])
session_passes_iff_example = session_passes_iff board (seen_write ∷ []) refl refl

-- This test has no error.
passes :
    (post_test (run (pre_test board) (receive seen_read ∷ check ∷ check ∷ []))).err_total
    ≡ board.err_total
unfolding pre_test post_test write main_at compare_front is_finished mismatches get_ref
    Scoreboard.main
passes = refl

passing_sound_example : AllMatch board.ref_fifo (received (receive seen_read ∷ check ∷ check ∷ []))
passing_sound_example =
    passing_sound board (receive seen_read ∷ check ∷ check ∷ []) refl refl passes
