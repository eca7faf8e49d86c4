-- ===== src/Riscv/Scoreboard/Verdict.antt =====
-- RISCV_SingleCycle/testbench/scoreboard.cpp: when the scoreboard lets a test pass.
use mathlib.Core.List.{append-nil}
use verilog.Common.{
  ◌≡◌, inl, inr, refl, sym, ap, ◌∙◌, List, [], ◌∷◌, ◌++◌, arith, truth, Bool-cases, length-append,
  push_back, append-push_back,
}
use verilog.Riscv.Transactions.{Transaction}
use verilog.Riscv.Scoreboard.{Board, write, main, mismatches, pre_test, post_test}
use verilog.Riscv.Scoreboard.Steps.{
  AllMatch, Event, receive, check, run, received, AllMatch-snoc, mismatches→Matches, Progress, Inv,
  write-Inv, main-idle, main-unexpected, compared, main-compared,
}

compared-Inv :
    (expected got : List Transaction) (s : Board) (e r : Transaction) (q rest : List Transaction)
    → s.rx_fifo ≡ r ∷ rest
    → s.ref_fifo ≡ e ∷ q
    → Inv expected got s
    → Inv expected got (compared s e r q rest)
compared-Inv expected got s e r q rest h k (inl bad) = inl (ground arith)
compared-Inv expected got s e r q rest h k (inr p) =
    elim (Bool-cases (truth (mismatches (record e { irq = s.expres.irq }) r))) [
      | inl wrong ↦ inl (ground arith)
      | inr right ↦ inr (record {
        refs = push_back p.refs e;
        rxs = push_back p.rxs r;
        ref_split = p.ref_split ∙ ap (λ t. p.refs ++ t) k ∙ sym (append-push_back p.refs e q);
        rx_split = p.rx_split ∙ ap (λ t. p.rxs ++ t) h ∙ sym (append-push_back p.rxs r rest);
        matching =
            AllMatch-snoc p.refs p.rxs e r p.matching
              (mismatches→Matches (record e { irq = s.expres.irq }) r right);
        counted = omega (arith, p.counted, length-append p.refs (e ∷ []));
      })
    ]

main-Inv :
    (expected got : List Transaction) (s : Board) → Inv expected got s → Inv expected got (main s).1
main-Inv expected got s inv = go s.rx_fifo s.ref_fifo refl refl
  where
    go :
        (rx refs : List Transaction)
        → s.rx_fifo ≡ rx
        → s.ref_fifo ≡ refs
        → Inv expected got (main s).1
    go [] refs h k = rw (main-idle s h) inv
    go (r ∷ rest) [] h k = rw (main-unexpected s r rest h k) inv
    go (r ∷ rest) (e ∷ q) h k =
        rw (main-compared s e r q rest h k) (compared-Inv expected got s e r q rest h k inv)

run-Inv :
    (events : List Event) (expected got : List Transaction) (s : Board)
    → Inv expected got s
    → Inv expected (got ++ received events) (run s events)
run-Inv [] expected got s inv = rw append-nil inv
run-Inv (receive tx ∷ events) expected got s inv =
    rw (← append-push_back got tx (received events))
      (run-Inv events expected (push_back got tx) (write tx s) (write-Inv expected got tx s inv))
run-Inv (check ∷ events) expected got s inv =
    run-Inv events expected got (main s).1 (main-Inv expected got s inv)

-- Within a test neither the number of references nor the total of errors changes.
abbrev pub SameTotals : Board → Board → Type 0
SameTotals t s = (t.err_total ≡ s.err_total) × (t.ref_count ≡ s.ref_count)

main-SameTotals : (s : Board) → SameTotals (main s).1 s
main-SameTotals s = go s.rx_fifo s.ref_fifo refl refl
  where
    go : (rx refs : List Transaction) → s.rx_fifo ≡ rx → s.ref_fifo ≡ refs → SameTotals (main s).1 s
    go [] refs h k = rw (main-idle s h) (refl, refl)
    go (r ∷ rest) [] h k = rw (main-unexpected s r rest h k) (refl, refl)
    go (r ∷ rest) (e ∷ q) h k = rw (main-compared s e r q rest h k) (refl, refl)

pub run-SameTotals : (events : List Event) (s : Board) → SameTotals (run s events) s
unfolding write
run-SameTotals [] s = (refl, refl)
run-SameTotals (receive tx ∷ events) s = run-SameTotals events (write tx s)
run-SameTotals (check ∷ events) s =
    omega (arith, run-SameTotals events (main s).1, main-SameTotals s)

-- What `post_test` wants: no error, and nothing left in either queue.
post_test-clean :
    (t : Board)
    → (post_test t).err_total ≡ t.err_total
    → (t.err_count ≡ 0) × (t.rx_fifo ≡ []) × (t.ref_fifo ≡ [])
unfolding post_test
post_test-clean t h = ground arith

-- A test that starts with no received transaction and leaves the total of errors as it was has
-- received exactly the reference transactions, in order, each with the expected address, direction
-- and data; this holds however the monitor's writes and the checks are interleaved.
pub passing_sound :
    (s : Board) (events : List Event)
    → s.rx_fifo ≡ []
    → s.res_count ≡ 0
    → (post_test (run (pre_test s) events)).err_total ≡ s.err_total
    → AllMatch s.ref_fifo (received events)
passing_sound s events empty zero_count passed =
    conclude (run-Inv events s.ref_fifo [] (pre_test s) (inr start))
  where
    t : Board
    t = run (pre_test s) events

    start : Progress s.ref_fifo [] (pre_test s)
    start =
        unfold pre_test in
        record {
          refs = [];
          rxs = [];
          ref_split = refl;
          rx_split = sym empty;
          matching = tt;
          counted = zero_count;
        }

    clean : (t.err_count ≡ 0) × (t.rx_fifo ≡ []) × (t.ref_fifo ≡ [])
    clean = post_test-clean t (passed ∙ sym (total ∙ same))
      where
        total : t.err_total ≡ (pre_test s).err_total
        total = (run-SameTotals events (pre_test s)).0

        same : (pre_test s).err_total ≡ s.err_total
        same = unfold pre_test in refl

    conclude : Inv s.ref_fifo (received events) t → AllMatch s.ref_fifo (received events)
    conclude (inl bad) = absurd (bad clean.0)
    conclude (inr p) =
        let refs : s.ref_fifo ≡ p.refs =
          p.ref_split ∙ ap (λ q. p.refs ++ q) clean.2 ∙ append-nil p.refs in
        let rxs : received events ≡ p.rxs =
          p.rx_split ∙ ap (λ q. p.rxs ++ q) clean.1 ∙ append-nil p.rxs in
        rw (refs, rxs) p.matching
