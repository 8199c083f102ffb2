-- ===== src/Stage/Store/Divergence.antt =====
-- What the store stage of CoreLib/StoreStage.cpp does with threads that diverge and that halt.
use ecc_cpu.Base.{
  ℕ, ◌<◌, ◌≡◌, refl, arith, true, false, Option, none, some, Option-cases, inl, inr, List, [], ◌∷◌,
  ◌++◌, length, ◌>>=◌,
}
use ecc_cpu.Packets.{ExecStagePacket, of_address}
use ecc_cpu.RegisterFile.{RegisterFile, has_halted, set_has_halted}
use ecc_cpu.RegisterFile.Scoreboard.{has_halted-set}
use ecc_cpu.DivergenceQueue.{
  DivergenceQueue, ThreadContext, push_to_front, advance_write_pos, get_back, advance_read_pos,
  is_empty,
}
use ecc_cpu.DivergenceQueue.Fifo.{
  IsValid, contents, context, push, push_refines, PopResult, pop, pop_refines,
}
use ecc_cpu.Bus.StoreToFetchBus
use ecc_cpu.Bus.StoreToFetchBus.{StoreToFetchBus}
use ecc_cpu.Stage.Store.{Stepped, top, store_cjmp, store_halt, resume, step_from, step}

-- The fetch stage is told to go on at `pc` with the threads of `mask`.
abbrev pub Tells : StoreToFetchBus → ℕ → ℕ → Type 0
Tells bus mask pc =
    (bus.can_receive ≡ true) × (bus.packet ≡ record { exec_mask = mask; newpc = pc })

-- A conditional jump puts the threads that jump aside, with the registers and the target, behind
-- those that wait.
abbrev pub Diverges : ExecStagePacket → Stepped → ℕ → ℕ → Option Stepped → Type 0
Diverges pkt s target next none = ⊥
Diverges pkt s target next (some s') =
    IsValid s'.divergence_queue
    × (contents s'.divergence_queue
        ≡ contents s.divergence_queue ++ (context s.regs target pkt.execution_flags_true ∷ []))
    × Tells s'.fetch_bus pkt.execution_flags_false next
    × (s'.regs ≡ s.regs)

advance-push :
    (q : DivergenceQueue) (regs : RegisterFile) (pc mask : ℕ) (q' : DivergenceQueue)
    → push q regs pc mask ≡ some q'
    → (q0 : DivergenceQueue) × (push_to_front q regs pc mask ≡ some q0)
      × (advance_write_pos q0 ≡ q')
advance-push q regs pc mask q' e = elim (Option-cases (push_to_front q regs pc mask)) [
  | inl full ↦ ground arith
  | inr (q0, e0) ↦ (q0, e0, ground arith)
]

-- If the positions of the queue are in its array, fewer than 63 contexts wait and the fetch stage
-- has taken its last target, a conditional jump on which the threads do not agree puts the ones
-- that jump behind those that wait, with the registers and the target, and the fetch stage goes on
-- after it with the others; the registers stay as they are.
pub store_cjmp-Diverges :
    (pkt : ExecStagePacket) (s : Stepped) (target next : ℕ)
    → pkt.dest ≡ of_address target
    → pkt.src ≡ of_address next
    → IsValid s.divergence_queue
    → length (contents s.divergence_queue) < 63
    → (s.fetch_bus).can_receive ≡ false
    → Diverges pkt s target next (store_cjmp pkt s)
unfolding store_cjmp StoreToFetchBus.send
store_cjmp-Diverges pkt s target next ed es v room free =
    let (q', e, v', ec) =
      push_refines s.divergence_queue s.regs target pkt.execution_flags_true v room in
    let (q0, e0, ea) =
      advance-push s.divergence_queue s.regs target pkt.execution_flags_true q' e in
    simp (ed, es, e0, ea, free) (v', ec, (refl, refl), refl)

-- What a halt does with the contexts that wait: without one the machine halts; else the first goes
-- on, after a second step.
abbrev pub Resumes : ℕ → Stepped → List ThreadContext → Type 0
Resumes core_id s [] = (s' : Stepped) × (store_halt s ≡ some s') × (has_halted s'.regs ≡ true)
Resumes core_id s (ctxt ∷ rest) =
    (s' : Stepped) × (store_halt s >>= step core_id ≡ some s')
    × (contents s'.divergence_queue ≡ rest)
    × (s'.regs ≡ ctxt.regs)
    × Tells s'.fetch_bus ctxt.exec_mask ctxt.pc

advance-pop :
    (q : DivergenceQueue) (c : ThreadContext) (q' : DivergenceQueue)
    → is_empty q ≡ false
    → pop q ≡ some (c, q')
    → (get_back q ≡ some c) × (advance_read_pos q ≡ q')
unfolding get_back
advance-pop q c q' e h = ground arith

store_halt-list :
    (core_id : ℕ) (s : Stepped) (waiting : List ThreadContext)
    → (s.fetch_bus).can_receive ≡ false
    → PopResult s.divergence_queue waiting
    → Resumes core_id s waiting
unfolding store_halt step_from resume StoreToFetchBus.send
store_halt-list core_id s [] free (e, empty) =
    (record s { state = top; regs = set_has_halted s.regs }, simp empty refl, has_halted-set s.regs)
store_halt-list core_id s (ctxt ∷ rest) free (filled, (q', e, v', ec)) =
    let (eb, ea) = advance-pop s.divergence_queue ctxt q' filled e in
    (
      record s {
        state = top;
        regs = ctxt.regs;
        divergence_queue = q';
        fetch_bus = record {
          can_receive = true;
          packet = record { exec_mask = ctxt.exec_mask; newpc = ctxt.pc };
        };
      },
      simp (filled, eb, free, ea) refl,
      ec,
      refl,
      (refl, refl),
    )

-- If the positions of the queue are in its array and the fetch stage has taken its last target: a
-- halt with no context that waits halts the machine; otherwise, in two steps, the context that was
-- put aside first goes on, with its registers, its threads and its program counter, and the others
-- still wait in their order.
pub store_halt-Resumes :
    (core_id : ℕ) (s : Stepped)
    → IsValid s.divergence_queue
    → (s.fetch_bus).can_receive ≡ false
    → Resumes core_id s (contents s.divergence_queue)
store_halt-Resumes core_id s v free =
    store_halt-list core_id s (contents s.divergence_queue) free (pop_refines s.divergence_queue v)
