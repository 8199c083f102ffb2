-- ===== src/Assembler/Linker/Labels.antt =====
-- What the linker of Assembler/Linker.cpp makes of a jump to a label.
use ecc_cpu.Base.{
  ℕ, zero, suc, ◌+◌, ◌*◌, ◌^◌, ◌<◌, ◌≡◌, refl, ap, ◌∙◌, arith, u64, true, false, Bool-cases, inl,
  inr, ==-refl, if◌then◌else◌, some, List, [], ◌∷◌, ◌++◌, map, length, get_elem?,
}
use mathlib.Core.Option
use ecc_cpu.Base.Int.{ℤ, distance}
use ecc_cpu.Assembler.Insns.{Mnemonic, jump}
use ecc_cpu.Assembler.Linker.{
  Instruction, same_text, Dict, find, place_insns, code_dict, link_insn, link_insns,
}

same_text_refl : (l : List ℕ) → same_text l l ≡ true
unfolding same_text
same_text_refl [] = refl
same_text_refl (x ∷ xs) = simp (==-refl x, same_text_refl xs) refl

-- No instruction of the list has the label.
abbrev pub NotLabelled : List ℕ → List Instruction → Type 0
NotLabelled label [] = Unit {0}
NotLabelled label (i ∷ is) = (same_text i.label label ≡ false) × NotLabelled label is

find-later :
    (label : List ℕ) (dict : Dict) (a : ℕ) (is : List Instruction)
    → NotLabelled label is
    → find (code_dict dict (place_insns a is)) label ≡ find dict label
unfolding code_dict place_insns find
find-later label dict a [] h = refl
find-later label dict a (i ∷ is) (other, h) =
    find-later label (if same_text i.label [] then dict else (i.label, a) ∷ dict) (u64 (a + 4)) is h
    ∙ elim (Bool-cases (same_text i.label [])) [
      | inl unlabelled ↦ simp unlabelled refl
      | inr labelled ↦ simp (labelled, other) refl
    ]

find-label :
    (label : List ℕ) (dict : Dict) (a : ℕ) (before after : List Instruction) (k : Instruction)
    → k.label ≡ label
    → same_text label [] ≡ false
    → NotLabelled label after
    → a + 4 * length before < 2 ^ 64
    → find (code_dict dict (place_insns a (before ++ (k ∷ after)))) label
      ≡ some (a + 4 * length before)
unfolding code_dict place_insns find
find-label label dict a [] after k named labelled h fits =
    find-later label (if same_text k.label [] then dict else (k.label, a) ∷ dict) (u64 (a + 4))
      after h
    ∙ simp (named, labelled, same_text_refl label) (ap some (omega arith))
find-label label dict a (i ∷ is) after k named labelled h fits =
    find-label label (if same_text i.label [] then dict else (i.label, a) ∷ dict) (u64 (a + 4)) is
      after k named labelled h (omega arith)
    ∙ ap some (omega arith)

get-place :
    (a i : ℕ) (is : List Instruction) (x : Instruction)
    → get_elem? is i ≡ some x
    → a + 4 * i < 2 ^ 64
    → get_elem? (place_insns a is) i ≡ some (record x { address = a + 4 * i })
unfolding place_insns
get-place a i [] x e fits = ground arith
get-place a zero (y ∷ is) x e fits =
    ap (Option.map {A = Instruction} (λ q. record q { address = a })) e
    ∙ ap (λ n. some (record x { address = n })) (omega arith)
get-place a (suc i) (y ∷ is) x e fits =
    get-place (u64 (a + 4)) i is x e (omega arith)
    ∙ ap (λ n. some (record x { address = n })) (omega arith)

get-map :
    (f : Instruction → Instruction) (i : ℕ) (is : List Instruction) (x : Instruction)
    → get_elem? is i ≡ some x
    → get_elem? (map f is) i ≡ some (f x)
get-map f i [] x e = ground arith
get-map f zero (y ∷ is) x e = ap (Option.map f) e
get-map f (suc i) (y ∷ is) x e = get-map f i is x e

-- Instructions are placed one word after the other from the base address on, below 2 ^ 64. A jump
-- to a label that is not empty is linked to the distance from itself to the last instruction that
-- has the label.
pub link_insns-jump :
    (globals : Dict) (base : ℕ) (before after : List Instruction) (target : Instruction) (i : ℕ)
    (x : Instruction) (label : List ℕ) (dest : ℤ) (mnemonic : Mnemonic)
    → target.label ≡ label
    → same_text label [] ≡ false
    → NotLabelled label after
    → get_elem? (before ++ (target ∷ after)) i ≡ some x
    → x.insn ≡ jump label dest mnemonic
    → base + 4 * length before < 2 ^ 64
    → base + 4 * i < 2 ^ 64
    → get_elem? (link_insns globals base (before ++ (target ∷ after))) i
      ≡ some (record x {
        address = base + 4 * i;
        insn = jump label (distance (base + 4 * length before) (base + 4 * i)) mnemonic;
      })
unfolding link_insns link_insn
link_insns-jump globals base before after target i x label dest mnemonic named labelled last at is
      fits fits' =
    get-map _ i (place_insns base (before ++ (target ∷ after)))
      (record x { address = base + 4 * i })
      (get-place base i (before ++ (target ∷ after)) x at fits')
    ∙ simp (is, find-label label [] base before after target named labelled last fits) refl
