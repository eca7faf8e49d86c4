-- ===== src/Riscv/Scoreboard/Steps.antt =====
-- The steps of a test as the scoreboard sees them, and its progress without errors.
use mathlib.Core.List.{append_assoc}
use verilog.Common.{
  ℕ, ◌+◌, ◌≡◌, ◌≢◌, ◌⊎◌, inl, inr, ap, ◌∙◌, List, [], ◌∷◌, ◌++◌, false, arith, truth, if◌then◌else◌,
  length, push_back,
}
use verilog.Riscv.Transactions.{Transaction, get_ref}
use verilog.Riscv.Scoreboard.{Board, write, main, main_at, mismatches}

-- The data of a transaction, by its direction.
abbrev pub data_of : ℕ → Transaction → ℕ
data_of wr t = if truth wr then t.wr_data else t.rd_data

-- The received transaction is the expected one: same address and direction, same data on a write
-- and same read data on a read.
abbrev pub Matches : Transaction → Transaction → Type 0
Matches expected received =
    (received.addr ≡ expected.addr)
    × (received.wr ≡ expected.wr)
    × (data_of expected.wr received ≡ data_of expected.wr expected)

abbrev pub AllMatch : List Transaction → List Transaction → Type 0
AllMatch [] [] = Unit
AllMatch [] (r ∷ rs) = ⊥
AllMatch (e ∷ es) [] = ⊥
AllMatch (e ∷ es) (r ∷ rs) = Matches e r × AllMatch es rs

-- What happens to the scoreboard during a test: the monitor writes, the environment checks.
pub data Event : Type 0 where
  receive : Transaction → Event
  check : Event

abbrev pub run : Board → List Event → Board
run s [] = s
run s (receive tx ∷ es) = run (write tx s) es
run s (check ∷ es) = run (main s).1 es

abbrev pub received : List Event → List Transaction
received [] = []
received (receive tx ∷ es) = tx ∷ received es
received (check ∷ es) = received es

pub AllMatch-snoc :
    (es rs : List Transaction) (e r : Transaction)
    → AllMatch es rs
    → Matches e r
    → AllMatch (push_back es e) (push_back rs r)
AllMatch-snoc [] [] e r h m = (m, tt)
AllMatch-snoc [] (r' ∷ rs) e r h m = absurd h
AllMatch-snoc (e' ∷ es) [] e r h m = absurd h
AllMatch-snoc (e' ∷ es) (r' ∷ rs) e r h m = (h.0, AllMatch-snoc es rs e r h.1 m)

pub mismatches→Matches : (e r : Transaction) → truth (mismatches e r) ≡ false → Matches e r
unfolding mismatches
mismatches→Matches e r h = (ground arith, ground arith, ground arith)

-- How far a test without errors has come: `refs` and `rxs` are checked, the rest is queued.
pub record Progress (expected got : List Transaction) (s : Board) : Type 0 where
  pub refs : List Transaction
  pub rxs : List Transaction
  pub ref_split : expected ≡ refs ++ s.ref_fifo
  pub rx_split : got ≡ rxs ++ s.rx_fifo
  pub matching : AllMatch refs rxs
  pub counted : s.res_count ≡ length refs

-- Errors are never forgotten within a test.
abbrev pub Inv : List Transaction → List Transaction → Board → Type 0
Inv expected got s = (s.err_count ≢ 0) ⊎ Progress expected got s

pub write-Inv :
    (expected got : List Transaction) (tx : Transaction) (s : Board)
    → Inv expected got s
    → Inv expected (push_back got tx) (write tx s)
unfolding write
write-Inv expected got tx s (inl bad) = inl bad
write-Inv expected got tx s (inr p) = inr (record {
  refs = p.refs;
  rxs = p.rxs;
  ref_split = p.ref_split;
  rx_split = ap (λ q. push_back q tx) p.rx_split ∙ append_assoc p.rxs s.rx_fifo (tx ∷ []);
  matching = p.matching;
  counted = p.counted;
})

-- The three ways a call of `main` goes.
module _ (s : Board) where
  pub main-idle : s.rx_fifo ≡ [] → main s ≡ (0, s)
  unfolding main
  main-idle h = ap (λ q. main_at q s) h

  pub main-unexpected :
      (r : Transaction) (rest : List Transaction)
      → s.rx_fifo ≡ r ∷ rest
      → s.ref_fifo ≡ []
      → main s ≡ (1, s)
  unfolding main get_ref
  main-unexpected r rest h k = ap (λ q. main_at q s) h ∙ ground arith

  -- The board after a comparison.
  abbrev pub compared : Transaction → Transaction → List Transaction → List Transaction → Board
  compared e r q rest =
      let e' : Transaction = record e { irq = s.expres.irq } in
      record s {
        ref_fifo = q;
        rx_fifo = rest;
        res_count = s.res_count + 1;
        err_count = if truth (mismatches e' r) then s.err_count + 1 else s.err_count;
        expres = e';
      }

  pub main-compared :
      (e r : Transaction) (q rest : List Transaction)
      → s.rx_fifo ≡ r ∷ rest
      → s.ref_fifo ≡ e ∷ q
      → main s ≡ (mismatches (record e { irq = s.expres.irq }) r, compared e r q rest)
  unfolding main get_ref
  main-compared e r q rest h k = ap (λ t. main_at t s) h ∙ ground arith
