-- ===== src/Riscv/Scoreboard/Session.antt =====
-- A test in which the environment checks each transaction as soon as the monitor has written it.
use verilog.Common.{◌+◌, ◌≡◌, ◌↔◌, refl, sym, ap, ◌∙◌, List, [], ◌∷◌, arith, length, push_back}
use mathlib.Core.Path.{subst}
use verilog.Riscv.Transactions.{Transaction}
use verilog.Riscv.Scoreboard.{Board, write, main, mismatches, pre_test, post_test}
use verilog.Riscv.Scoreboard.Steps.{
  Matches, AllMatch, Event, receive, check, run, received, compared, main-compared,
}
use verilog.Riscv.Scoreboard.Verdict.{passing_sound, SameTotals, run-SameTotals}

abbrev pub session : List Transaction → List Event
session [] = []
session (tx ∷ txs) = receive tx ∷ check ∷ session txs

received-session : (txs : List Transaction) → received (session txs) ≡ txs
received-session [] = refl
received-session (tx ∷ txs) = ap (λ t. tx ∷ t) (received-session txs)

Matches→mismatches : (e r : Transaction) → Matches e r → mismatches e r ≡ 0
unfolding mismatches
Matches→mismatches e r h = ground (arith, h.2)

-- The board once the transactions have been checked without an error.
record Checked (s t : Board) : Type 0 where
  no_rx : t.rx_fifo ≡ []
  no_ref : t.ref_fifo ≡ []
  no_error : t.err_count ≡ s.err_count
  all_counted : t.res_count ≡ s.res_count + length s.ref_fifo

Checked-step :
    (s t : Board) (e r : Transaction) (q : List Transaction)
    → s.ref_fifo ≡ e ∷ q
    → Matches e r
    → Checked (compared (write r s) e r q []) t
    → Checked s t
unfolding write
Checked-step s t e r q k m c =
    let zero_errors = Matches→mismatches (record e { irq = s.expres.irq }) r m in
    record {
      no_rx = c.no_rx;
      no_ref = c.no_ref;
      no_error = ground (arith, c.no_error, zero_errors);
      all_counted = omega (arith, c.all_counted, ap (λ (l : List Transaction). length l) k);
    }

write-rx : (r : Transaction) (s : Board) → s.rx_fifo ≡ [] → (write r s).rx_fifo ≡ r ∷ []
unfolding write
write-rx r s h = ap (λ q. push_back q r) h

write-ref : (r : Transaction) (s : Board) → (write r s).ref_fifo ≡ s.ref_fifo
unfolding write
write-ref r s = refl

session-Checked :
    (got expected : List Transaction) (s : Board)
    → s.rx_fifo ≡ []
    → s.ref_fifo ≡ expected
    → AllMatch expected got
    → Checked s (run s (session got))
session-Checked [] [] s empty k h = record {
  no_rx = empty;
  no_ref = k;
  no_error = refl;
  all_counted = ground (arith, k);
}
session-Checked [] (e ∷ es) s empty k h = absurd h
session-Checked (r ∷ rs) [] s empty k h = absurd h
session-Checked (r ∷ rs) (e ∷ es) s empty k h =
    let b = compared (write r s) e r es [] in
    let one : (main (write r s)).1 ≡ b =
      ap (λ p. p.1)
        (main-compared (write r s) e r es [] (write-rx r s empty) (write-ref r s ∙ k)) in
    subst (λ t. Checked s (run t (session rs))) (sym one)
      (Checked-step s (run b (session rs)) e r es k h.0 (session-Checked rs es b refl refl h.1))

-- After such a run the final checks find nothing.
post_test-Checked :
    (s t : Board)
    → s.res_count ≡ 0
    → Checked (pre_test s) t
    → SameTotals t (pre_test s)
    → (post_test t).err_total ≡ s.err_total
unfolding pre_test post_test
post_test-Checked s t zero_count c same =
    ground (arith, zero_count, c.no_rx, c.no_ref, c.no_error, c.all_counted, same.0, same.1)

-- A test that starts with no received transaction, and checks each one when it is written, leaves
-- the total of errors as it was exactly when what was received matches the reference transactions
-- one by one.
pub session_passes_iff :
    (s : Board) (got : List Transaction)
    → s.rx_fifo ≡ []
    → s.res_count ≡ 0
    → ((post_test (run (pre_test s) (session got))).err_total ≡ s.err_total)
      ↔ AllMatch s.ref_fifo got
session_passes_iff s got empty zero_count = (sound, complete)
  where
    t : Board
    t = run (pre_test s) (session got)

    sound : (post_test t).err_total ≡ s.err_total → AllMatch s.ref_fifo got
    sound passed =
        subst (λ txs. AllMatch s.ref_fifo txs) (received-session got)
          (passing_sound s (session got) empty zero_count passed)

    complete : AllMatch s.ref_fifo got → (post_test t).err_total ≡ s.err_total
    complete h =
        post_test-Checked s t zero_count
          (unfold pre_test in session-Checked got s.ref_fifo (pre_test s) empty refl h)
          (run-SameTotals (session got) (pre_test s))
