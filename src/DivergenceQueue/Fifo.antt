-- ===== src/DivergenceQueue/Fifo.antt =====
-- The ring of CoreLib/include/DivergenceQueue.h as the list of the contexts that it holds.
use ecc_cpu.Base.{
  ℕ, zero, suc, ◌+◌, ◌-◌, ◌%◌, ◌<◌, ◌≡◌, refl, ap, ap₂, ◌∙◌, ◌↔◌, arith, true, false, Option, none,
  some, ◌>>=◌, List, [], ◌∷◌, ◌++◌, length, update, update_self, update_ne,
}
use ecc_cpu.RegisterFile.{RegisterSet}
use ecc_cpu.DivergenceQueue.{
  ThreadContext, DivergenceQueue, is_empty, get_next_pos, push_to_front, get_back, advance_read_pos,
  advance_write_pos,
}

-- Both positions are inside the array.
pub record IsValid (q : DivergenceQueue) : Type 0 where
  pub read_in : q.read_pos < 64
  pub write_in : q.write_pos < 64

-- The number of contexts from the read position up to the write position.
abbrev pub size : DivergenceQueue → ℕ
size q = (q.write_pos + 64 - q.read_pos) % 64

module _ (contexts : ℕ → ThreadContext) where
  abbrev pub window : ℕ → ℕ → List ThreadContext
  window h zero = []
  window h (suc n) = contexts h ∷ window ((h + 1) % 64) n

  pub length-window : (h n : ℕ) → length (window h n) ≡ n
  length-window h zero = refl
  length-window h (suc n) = ap suc (length-window ((h + 1) % 64) n)

-- The contexts that the queue holds, the next one to resume first.
abbrev pub contents : DivergenceQueue → List ThreadContext
contents q = window q.contexts q.read_pos (size q)

get_next_pos-mod : (v : ℕ) → v < 64 → get_next_pos v ≡ (v + 1) % 64
unfolding get_next_pos
get_next_pos-mod v h = ground arith

-- A write past the end of a window extends it.
window-update :
    (f : ℕ → ThreadContext) (c : ThreadContext) (n h i : ℕ)
    → h < 64
    → n < 64
    → i ≡ (h + n) % 64
    → window (update f i c) h (suc n) ≡ window f h n ++ (c ∷ [])
window-update f c zero h i hh hn e =
    ap (λ x. x ∷ []) (ap (update f i c) (let e' : h ≡ i = omega arith in e') ∙ update_self f i c)
window-update f c (suc n) h i hh hn e =
    ap₂ ◌∷◌ (update_ne f i h c (omega arith))
      (window-update f c n ((h + 1) % 64) i (omega arith) (omega arith) (omega arith))

window-pop :
    (f : ℕ → ThreadContext) (h n : ℕ) → 0 < n → window f h n ≡ f h ∷ window f ((h + 1) % 64) (n - 1)
window-pop f h zero p = absurd (omega arith)
window-pop f h (suc n) p = ap (λ k. f h ∷ window f ((h + 1) % 64) k) (omega arith)

-- The push of the store stage: `push_to_front`, then `advance_write_pos`.
abbrev pub push : DivergenceQueue → RegisterSet → ℕ → ℕ → Option DivergenceQueue
push q regs pc mask = push_to_front q regs pc mask >>= λ q'. some (advance_write_pos q')

abbrev pub context : RegisterSet → ℕ → ℕ → ThreadContext
context regs pc mask = record { regs = regs; pc = pc; exec_mask = mask }

abbrev pushed : DivergenceQueue → ThreadContext → DivergenceQueue
pushed q c = record {
  contexts = update q.contexts q.write_pos c;
  read_pos = q.read_pos;
  write_pos = (q.write_pos + 1) % 64;
}

push-pushed :
    (q : DivergenceQueue) (regs : RegisterSet) (pc mask : ℕ)
    → IsValid q
    → size q < 63
    → push q regs pc mask ≡ some (pushed q (context regs pc mask))
unfolding push_to_front advance_write_pos
push-pushed q regs pc mask v h = ground (arith, get_next_pos-mod q.write_pos)

-- If both positions are in the array and at most 62 contexts are held, a push succeeds, keeps the
-- positions in the array and appends the context behind those held.
pub push_refines :
    (q : DivergenceQueue) (regs : RegisterSet) (pc mask : ℕ)
    → IsValid q
    → length (contents q) < 63
    → (q' : DivergenceQueue) × (push q regs pc mask ≡ some q')
      × IsValid q'
      × (contents q' ≡ contents q ++ (context regs pc mask ∷ []))
push_refines q regs pc mask v h =
    let small : size q < 63 = omega (arith, length-window q.contexts q.read_pos (size q)) in
    let c : ThreadContext = context regs pc mask in
    (
      pushed q c,
      push-pushed q regs pc mask v small,
      omega arith,
      ap (window (update q.contexts q.write_pos c) q.read_pos)
            (let e : size (pushed q c) ≡ suc (size q) = omega arith in e)
          ∙ window-update q.contexts c (size q) q.read_pos q.write_pos v.read_in (omega arith)
              (omega arith),
    )

-- If both positions are in the array, the assertion of a push that the queue is not full fails
-- exactly when 63 contexts are held, so the 64th element is never used.
pub push_full :
    (q : DivergenceQueue) (regs : RegisterSet) (pc mask : ℕ)
    → IsValid q
    → (push q regs pc mask ≡ none) ↔ (length (contents q) ≡ 63)
unfolding push_to_front
push_full q regs pc mask v =
    ground (arith, get_next_pos-mod q.write_pos, length-window q.contexts q.read_pos (size q))

-- The pop of the store stage: `get_back`, then `advance_read_pos`.
abbrev pub pop : DivergenceQueue → Option (ThreadContext × DivergenceQueue)
pop q = get_back q >>= λ c. some (c, advance_read_pos q)

-- What a pop does to the list of contexts held.
abbrev pub PopResult : DivergenceQueue → List ThreadContext → Type 0
PopResult q [] = (pop q ≡ none) × (is_empty q ≡ true)
PopResult q (c ∷ cs) =
    (is_empty q ≡ false)
    × ((q' : DivergenceQueue) × (pop q ≡ some (c, q')) × IsValid q' × (contents q' ≡ cs))

pop_window :
    (q : DivergenceQueue) (n : ℕ)
    → IsValid q
    → size q ≡ n
    → PopResult q (window q.contexts q.read_pos n)
unfolding is_empty get_back advance_read_pos
pop_window q zero v e = ground arith
pop_window q (suc n) v e = (
  ground arith,
  (
    record q { read_pos = (q.read_pos + 1) % 64 },
    ground (arith, get_next_pos-mod q.read_pos),
    omega arith,
    ap (window q.contexts ((q.read_pos + 1) % 64))
        (let e' : (q.write_pos + 64 - (q.read_pos + 1) % 64) % 64 ≡ n = omega arith in e'),
  ),
)

-- If both positions are in the array, a pop gives the context that was pushed first and leaves the
-- others in order; on an empty queue `is_empty` holds and the assertion of `get_back` fails.
pub pop_refines : (q : DivergenceQueue) → IsValid q → PopResult q (contents q)
pop_refines q v = pop_window q (size q) v refl
