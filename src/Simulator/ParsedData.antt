-- ===== src/Simulator/ParsedData.antt =====
-- The data objects of a text, from Assembler/parser.cpp to the DRAM.
use ecc_cpu.Base.{
  ℕ, suc, ◌+◌, ◌*◌, ◌≤◌, ◌≡◌, refl, sym, ap, subst, Bool, true, false, Option, none, some, List, [],
  ◌∷◌, ◌++◌, ◌>>=◌, if◌then◌else◌, inl, inr, ◌⊎◌, length, get_elem?,
}
use ecc_cpu.Base.Int.{to_u64}
use ecc_cpu.Defines.{data_segment_start, data_segment_size}
use ecc_cpu.Memory.Dram.{Storage, read_value}
use ecc_cpu.Memory.Dram.Bytes.{IsBytes}
use ecc_cpu.Assembler.Linker.{DataField, DataObject, place_objs, same_text}
use ecc_cpu.Assembler.Text.{Text, codes, ends_with, is_empty, starts_with, trim}
use ecc_cpu.Assembler.Parser.CodeLine.{Program, error, token, parse_code_line}
use ecc_cpu.Assembler.Parser.{
  append_field, parse_data_line, parse_line, parse_lines, parse, lines_from, parse_long, add_field,
}
use ecc_cpu.Assembler.Parser.Tokens.{tokenize, data_line_split_chars}
use ecc_cpu.Assembler.Parser.Constants.{Parsed, number, invalid_argument, out_of_range, string_to}
use ecc_cpu.Assembler.Parser.Accounted.{Labels, Adds, Reports, parse_code_line-accounted}
use ecc_cpu.Assembler.ObjectWriter.{data_file}
use ecc_cpu.Assembler.Main.{initial_program}
use ecc_cpu.Simulator.{read_data_memory_dump}
use ecc_cpu.Simulator.DataFile.{AllFresh, AllFreshObjects, objects_bytes}
use ecc_cpu.Simulator.LoadedData.{loaded_data}

-- If the parser returns, no field of its objects has been placed.
abbrev IsFresh : Option Program → Type 0
IsFresh none = Unit {0}
IsFresh (some q) = AllFreshObjects q.objects

abbrev IsFreshRound : Option (Bool × Program) → Type 0
IsFreshRound none = Unit {0}
IsFreshRound (some (mode, q)) = AllFreshObjects q.objects

AllFresh-append :
    (fs : List DataField) (f : DataField)
    → AllFresh fs
    → (f.size ≡ 8) × (f.address ≡ 0)
    → AllFresh (fs ++ f ∷ [])
AllFresh-append [] f h (size, address) = (size, address, tt)
AllFresh-append (g ∷ fs) f (size, address, rest) k = (size, address, AllFresh-append fs f rest k)

AllFreshObjects-append :
    (os : List DataObject) (o : DataObject)
    → AllFreshObjects os
    → AllFresh o.fields
    → AllFreshObjects (os ++ o ∷ [])
AllFreshObjects-append [] o h k = (k, tt)
AllFreshObjects-append (x ∷ os) o h k = (h.0, AllFreshObjects-append os o h.1 k)

append_field-Fresh :
    (f : DataField) (os : List DataObject)
    → (f.size ≡ 8) × (f.address ≡ 0)
    → AllFreshObjects os
    → AllFreshObjects (append_field f os)
unfolding append_field
append_field-Fresh f [] k h = tt
append_field-Fresh f (o ∷ []) k h = (AllFresh-append o.fields f h.0 k, tt)
append_field-Fresh f (o ∷ next ∷ os) k h = (h.0, append_field-Fresh f (next ∷ os) k h.1)

module _ (line : ℕ) (p : Program) (h : AllFreshObjects p.objects) where
  add_field-Fresh :
      (os : List DataObject) (f : DataField)
      → (f.size ≡ 8) × (f.address ≡ 0)
      → AllFreshObjects os
      → AllFreshObjects (add_field os f line p).objects
  add_field-Fresh [] f k fresh = h
  add_field-Fresh (o ∷ os) f k fresh = append_field-Fresh f (o ∷ os) k fresh

  parse_long-IsFresh : (r : Parsed) → IsFresh (parse_long r line p)
  parse_long-IsFresh invalid_argument = tt
  parse_long-IsFresh out_of_range = tt
  parse_long-IsFresh (number value rest) = add_field-Fresh p.objects _ (refl, refl) h

  long_line-IsFresh : (t : Option Text) → IsFresh (t >>= λ t1. parse_long (string_to 64 t1) line p)
  long_line-IsFresh none = tt
  long_line-IsFresh (some t1) = parse_long-IsFresh (string_to 64 t1)

  choose-IsFresh :
      (b : Bool) (x y : Option Program) → IsFresh x → IsFresh y → IsFresh (if b then x else y)
  choose-IsFresh true x y fx fy = fx
  choose-IsFresh false x y fx fy = fy

  field_line-IsFresh :
      (toks : List Text) (t : Option Text)
      → IsFresh (
          t >>= λ t0.
          if same_text t0 (codes ".long")
          then (token toks 1 >>= λ t1. parse_long (string_to 64 t1) line p)
          else some (error line p))
  field_line-IsFresh toks none = tt
  field_line-IsFresh toks (some t0) =
      choose-IsFresh (same_text t0 (codes ".long")) _ _ (long_line-IsFresh (token toks 1)) h

  parse_data_line-IsFresh : (data' : Text) → IsFresh (parse_data_line data' line p)
  unfolding parse_data_line
  parse_data_line-IsFresh data' =
      choose-IsFresh (ends_with data' (codes ":")) _ _ (AllFreshObjects-append p.objects _ h tt) (
        field_line-IsFresh (tokenize data' data_line_split_chars)
          (token (tokenize data' data_line_split_chars) 0))

  -- A line of code leaves the objects alone.
  same_objects :
      (data' : Text) (q : Program)
      → Labels data' p q ⊎ Adds p q ⊎ Reports line p q
      → q.objects ≡ p.objects
  same_objects data' q (inl (colon, e)) = ap (λ (r : Program). r.objects) e
  same_objects data' q (inr (inl (insn, added, label, errors, objects))) = objects
  same_objects data' q (inr (inr (inl e))) = ap (λ (r : Program). r.objects) e
  same_objects data' q (inr (inr (inr e))) = ap (λ (r : Program). r.objects) e

  parse_code_line-IsFresh : (data' : Text) → IsFresh (parse_code_line data' line p)
  parse_code_line-IsFresh data' = by_result (parse_code_line data' line p) refl
    where
      by_result : (r : Option Program) → parse_code_line data' line p ≡ r → IsFresh r
      by_result none e = tt
      by_result (some q) e =
          subst (λ (os : List DataObject). AllFreshObjects os)
            (sym (same_objects data' q (parse_code_line-accounted data' line p q e))) h

  round-IsFreshRound :
      (mode : Bool) (r : Option Program) → IsFresh r → IsFreshRound (r >>= λ q. some (mode, q))
  round-IsFreshRound mode none fresh = tt
  round-IsFreshRound mode (some q) fresh = fresh

  choose-IsFreshRound :
      (b : Bool) (x y : Option (Bool × Program))
      → IsFreshRound x
      → IsFreshRound y
      → IsFreshRound (if b then x else y)
  choose-IsFreshRound true x y fx fy = fx
  choose-IsFreshRound false x y fx fy = fy

  parse_line-IsFreshRound :
      (mode : Bool) (data' : Text) → IsFreshRound (parse_line mode data' line p)
  unfolding parse_line
  parse_line-IsFreshRound mode data' = choose-IsFreshRound (is_empty data') _ _ h (
      choose-IsFreshRound (starts_with data' (codes ".data")) _ _ h (
        choose-IsFreshRound (starts_with data' (codes ".code")) _ _ h (
          choose-IsFreshRound mode _ _ (round-IsFreshRound mode _ (parse_data_line-IsFresh data'))
            (round-IsFreshRound mode _ (parse_code_line-IsFresh data')))))

then-IsFresh :
    (m : Option (Bool × Program)) (f : Bool × Program → Option Program)
    → IsFreshRound m
    → ((r : Bool × Program) → AllFreshObjects r.1.objects → IsFresh (f r))
    → IsFresh (m >>= f)
then-IsFresh none f h k = tt
then-IsFresh (some r) f h k = k r h

parse_lines-IsFresh :
    (mode : Bool) (line : ℕ) (rawlines : List Text) (p : Program)
    → AllFreshObjects p.objects
    → IsFresh (parse_lines mode line rawlines p)
unfolding parse_lines
parse_lines-IsFresh mode line [] p h = h
parse_lines-IsFresh mode line (rawline ∷ rawlines) p h =
    then-IsFresh (parse_line mode (trim rawline) (suc line) p) _
      (parse_line-IsFreshRound (suc line) p h mode (trim rawline))
      (λ r k. parse_lines-IsFresh r.0 (suc line) rawlines r.1 k)

parse-IsFresh :
    (infile : Option Text) (p : Program) → AllFreshObjects p.objects → IsFresh (parse infile p)
unfolding parse
parse-IsFresh none p h = h
parse-IsFresh (some infile) p h = parse_lines-IsFresh false 0 (lines_from [] infile) p h

-- Whatever the text: if it is parsed, then the data objects of the program are placed and written to
-- a data file, and if they fit the data segment, the name of the file ends with `.data` and the DRAM
-- holds bytes, then the DRAM into which the simulator has loaded the file holds each field, as its
-- 64-bit pattern, at the address of its object plus 8 for each field before it.
pub parsed_data :
    (infile : Option Text) (p : Program) (name : Text) (before : Storage)
    → parse infile initial_program ≡ some p
    → length (objects_bytes p.objects) ≤ data_segment_size
    → ends_with name (codes ".data") ≡ true
    → IsBytes before
    → (buffer : List ℕ) × (data_file (place_objs data_segment_start p.objects) ≡ some buffer)
      × ((i k : ℕ) (o : DataObject) (f : DataField)
          → get_elem? p.objects i ≡ some o
          → get_elem? o.fields k ≡ some f
          → (placed : DataObject) × (get_elem? (place_objs data_segment_start p.objects) i
              ≡ some placed)
            × (placed.name ≡ o.name)
            × (read_value (read_data_memory_dump name (some buffer) before) (placed.address + 8 * k)
                ≡ to_u64 f.value))
parsed_data infile p name before parsed fits named bytes =
    loaded_data p.objects name before
      (subst (λ (r : Option Program). IsFresh r) parsed (parse-IsFresh infile initial_program tt))
      fits named bytes
