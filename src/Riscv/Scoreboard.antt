-- ===== src/Riscv/Scoreboard.antt =====
-- RISCV_SingleCycle/testbench/scoreboard.cpp, with the global queues that it reads. The counters
-- are taken as unbounded.
pub mod Steps
pub mod Verdict
pub mod Session
use verilog.Common.{
  ℕ, ◌+◌, List, [], ◌∷◌, Bool, true, false, not, ◌&&◌, ◌||◌, ◌==◌, truth, if◌then◌else◌, length,
  is_empty, push_back,
}
use verilog.Riscv.Transactions.{Transaction, get_ref}

pub record Board : Type 0 where
  pub ref_fifo : List Transaction
  pub rx_fifo : List Transaction
  pub ref_count : ℕ
  pub res_count : ℕ
  pub err_count : ℕ
  pub err_total : ℕ
  pub expres : Transaction

unfoldable pub write : Transaction → Board → Board
write tx s = record s { rx_fifo = push_back s.rx_fifo tx }

unfoldable pub is_finished : Board → Bool
is_finished s = is_empty s.ref_fifo && is_empty s.rx_fifo

-- 1 for each comparison that fails. Read data count on a read alone, written data on a write.
unfoldable pub mismatches : Transaction → Transaction → ℕ
mismatches expres monreq =
    (if monreq.addr == expres.addr then 0 else 1)
    + (if monreq.wr == expres.wr then 0 else 1)
    + (if truth expres.wr
        then (if monreq.wr_data == expres.wr_data then 0 else 1)
        else (if monreq.rd_data == expres.rd_data then 0 else 1))

-- The part of `main` below its first tests, at the oldest received transaction: with no reference
-- left it fails, and changes nothing.
unfoldable pub compare_front : Transaction → List Transaction → Board → ℕ × Board
unfolding mismatches
compare_front monreq rest s =
    let (found, expres, ref_fifo) = get_ref s.expres s.ref_fifo in
    let err = mismatches expres monreq in
    if truth found
    then (
      err,
      record s {
        ref_fifo = ref_fifo;
        rx_fifo = rest;
        res_count = s.res_count + 1;
        err_count = if truth err then s.err_count + 1 else s.err_count;
        expres = expres;
      },
    )
    else (1, s)

unfoldable pub main_at : List Transaction → Board → ℕ × Board
unfolding compare_front is_finished
main_at [] s = (0, s)
main_at (monreq ∷ rest) s = if is_finished s then (0, s) else compare_front monreq rest s

unfoldable pub main : Board → ℕ × Board
unfolding main_at
main s = main_at s.rx_fifo s

-- The loop of `post_phase`.
forward : ℕ → List Transaction → ℕ → List Transaction × ℕ
forward phase_num [] res_count = ([], res_count)
forward phase_num (t ∷ q) res_count = elim (t.test_id == phase_num) [
  | true ↦ (t ∷ q, res_count)
  | false ↦ forward phase_num q (res_count + 1)
]

unfoldable pub post_phase : ℕ → Board → Board
unfolding forward
post_phase phase_num s =
    let (q, n) = forward phase_num s.ref_fifo s.res_count in
    record s { ref_fifo = q; res_count = n }

unfoldable pub pre_test : Board → Board
pre_test s = record s { err_count = 0; ref_count = length s.ref_fifo }

unfoldable pub post_test : Board → Board
post_test s =
    let unverified = if is_empty s.rx_fifo then 0 else 1 in
    let missing = if not (s.res_count == s.ref_count) || not (is_empty s.ref_fifo) then 1 else 0 in
    record s {
      err_total = s.err_total + (if truth s.err_count then s.err_count else unverified + missing);
      res_count = 0;
      rx_fifo = [];
      ref_fifo = [];
    }

-- What the destructor makes of the counter: the program's return code.
unfoldable pub return_code : Board → ℕ
return_code s = if truth s.err_total then 1 else 0
