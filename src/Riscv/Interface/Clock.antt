-- ===== src/Riscv/Interface/Clock.antt =====
-- RISCV_SingleCycle/testbench/interface.cpp: the clock and the time under `wait`.
use verilog.Common.{
  ℕ, zero, suc, ◌+◌, ◌-◌, ◌*◌, ◌/◌, ◌%◌, ◌^◌, ◌<◌, ◌≤◌, ◌≡◌, refl, ◌∙◌, Bool, true, false, not,
  ◌&&◌, truth, ltb, if◌then◌else◌, ◌==◌, ◌⊎◌, inl, inr, Bool-cases, u64, arith,
}
use verilog.Riscv.Interface.{
  Dut, Interface, clk_phase, eval_sim, eval_cycles, wait_cycles, wait, wait_ticks,
}

-- The clock is an input that the core does not change, and the simulation goes on.
pub record Runs (dut : Dut) : Type 0 where
  pub set_clk-clk : (v : ℕ) (t : Dut.Top dut) → Dut.clk dut (Dut.set_clk dut v t) ≡ v
  pub eval-clk : (t : Dut.Top dut) → Dut.clk dut (Dut.eval dut t) ≡ Dut.clk dut t
  pub set_dbus_rd_data-clk :
      (v : ℕ) (t : Dut.Top dut) → Dut.clk dut (Dut.set_dbus_rd_data dut v t) ≡ Dut.clk dut t
  pub set_irq-clk : (v : ℕ) (t : Dut.Top dut) → Dut.clk dut (Dut.set_irq dut v t) ≡ Dut.clk dut t
  pub unfinished : (t : Dut.Top dut) → Dut.got_finish dut t ≡ false

module _ (dut : Dut) where
  -- The clock is low in the even phases of the time and high in the odd ones.
  abbrev pub InPhase : Interface dut → Type 0
  InPhase s = Dut.clk dut s.top ≡ s.timestamp / clk_phase % 2

  module _ (runs : Runs dut) where
    -- What a step leaves in the clock: the edge is the only change.
    clk_toggled :
        (edge : Bool) (t : Dut.Top dut) (v : ℕ)
        → Dut.clk dut (Dut.eval dut (if edge then Dut.set_clk dut v t else t))
          ≡ (if edge then v else Dut.clk dut t)
    clk_toggled true t v = runs.eval-clk (Dut.set_clk dut v t) ∙ runs.set_clk-clk v t
    clk_toggled false t v = runs.eval-clk t

    eval_sim_lem :
        (n : ℕ) (s : Interface dut)
        → n ≤ clk_phase
        → s.timestamp + n < 2 ^ 64
        → ((eval_sim dut n s).timestamp ≡ s.timestamp + n)
          × (Dut.clk dut (eval_sim dut n s).top ≡ (
              if truth n && ((s.timestamp + n) % clk_phase == 0)
              then (if truth (Dut.clk dut s.top) then 0 else 1)
              else Dut.clk dut s.top))
    unfolding eval_sim
    eval_sim_lem n s short fits =
        let going = runs.unfinished s.top in
        let in_time : ltb clk_phase n ≡ false = ground arith in
        let time : u64 (s.timestamp + n) ≡ s.timestamp + n = omega arith in
        rw (going, in_time, time)
          (
            refl,
            clk_toggled (truth n && ((s.timestamp + n) % clk_phase == 0)) s.top
                (if truth (Dut.clk dut s.top) then 0 else 1),
          )

    -- A step that does not pass an edge.
    pub eval_sim-InPhase :
        (n : ℕ) (s : Interface dut)
        → InPhase s
        → n ≤ clk_phase - s.timestamp % clk_phase
        → s.timestamp + n < 2 ^ 64
        → InPhase (eval_sim dut n s) × ((eval_sim dut n s).timestamp ≡ s.timestamp + n)
    eval_sim-InPhase n s phase short fits =
        let (time, clk) = eval_sim_lem n s (omega arith) fits in (ground (arith, time, clk), time)

    eval_cycles-InPhase :
        (n : ℕ) (s : Interface dut)
        → InPhase s
        → n ≡ 0 ⊎ (s.timestamp % clk_phase ≡ 0)
        → s.timestamp + n * clk_phase < 2 ^ 64
        → InPhase (eval_cycles dut n s)
          × ((eval_cycles dut n s).timestamp ≡ s.timestamp + n * clk_phase)
    unfolding eval_cycles
    eval_cycles-InPhase zero s phase edge fits = (phase, omega arith)
    eval_cycles-InPhase (suc n) s phase edge fits =
        let aligned : s.timestamp % clk_phase ≡ 0 = ground arith in
        let (next, time) = eval_sim-InPhase clk_phase s phase (omega arith) (omega arith) in
        let (last, end) =
          eval_cycles-InPhase n (eval_sim dut clk_phase s) next (inr (omega (arith, time)))
            (omega (arith, time)) in
        (last, omega (arith, time, end))

    wait_cycles-InPhase :
        (n : ℕ) (s : Interface dut)
        → InPhase s
        → (n ≤ clk_phase - s.timestamp % clk_phase) ⊎ (s.timestamp % clk_phase ≡ 0)
        → s.timestamp + n < 2 ^ 64
        → InPhase (wait_cycles dut n s) × ((wait_cycles dut n s).timestamp ≡ s.timestamp + n)
    unfolding wait_cycles
    wait_cycles-InPhase n s phase near fits =
        let k = n / clk_phase in
        let s' = eval_cycles dut k s in
        let (mid, time) = eval_cycles-InPhase k s phase (ground arith) (omega arith) in
        let left = n - k * clk_phase in
        let (last, end) =
          eval_sim-InPhase left s' mid (ground (arith, time)) (omega (arith, time)) in
        elim (Bool-cases (truth k && not (truth left))) [
          | inl done ↦ rw (done) (mid, ground (arith, time, done))
          | inr more ↦ rw (more) (last, omega (arith, time, end))
        ]

    -- `wait` lets exactly the interval pass, in which the clock changes at every edge and at no
    -- other time, as long as the time fits its 64 bits.
    pub wait-InPhase :
        (n : ℕ) (s : Interface dut)
        → InPhase s
        → s.timestamp + n < 2 ^ 64
        → InPhase (wait dut n s) × ((wait dut n s).timestamp ≡ s.timestamp + n)
    unfolding wait
    wait-InPhase n s phase fits =
        let delta = clk_phase - s.timestamp % clk_phase in
        elim (Bool-cases (truth delta && ltb delta n)) [
          | inl passes ↦
              let later : delta < n = ground (arith, passes) in
              let (edge, time) = eval_sim-InPhase delta s phase (omega arith) (omega arith) in
              let (last, end) =
                wait_cycles-InPhase (n - delta) (eval_sim dut delta s) edge
                  (inr (omega (arith, time))) (omega (arith, time)) in
              rw (passes) (last, omega (arith, time, end))
          | inr near ↦ rw (near) (wait_cycles-InPhase n s phase (inl (ground (arith, near))) fits)
        ]

    wait_ticks-InPhase :
        (repeats : ℕ) (s : Interface dut)
        → InPhase s
        → s.timestamp + repeats * (clk_phase * 2) < 2 ^ 64
        → InPhase (wait_ticks dut repeats s)
          × ((wait_ticks dut repeats s).timestamp ≡ s.timestamp + repeats * (clk_phase * 2))
    unfolding wait_ticks
    wait_ticks-InPhase zero s phase fits = (phase, omega arith)
    wait_ticks-InPhase (suc repeats) s phase fits =
        let (next, time) = wait-InPhase (clk_phase * 2) s phase (omega arith) in
        let (last, end) =
          wait_ticks-InPhase repeats (wait dut (clk_phase * 2) s) next (omega (arith, time)) in
        (last, omega (arith, time, end))
