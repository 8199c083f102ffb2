-- ===== src/Simulator/LoadedData.antt =====
-- The data file of Assembler/ObjectWriter.cpp, loaded by Simulator/Simulator.cpp, as the DRAM reads
-- it.
use mathlib.Core.Option.{some-injective}
use ecc_cpu.Base.{
  ℕ, zero, suc, ◌+◌, ◌*◌, ◌^◌, ◌≤◌, ◌<◌, ◌≡◌, ◌∙◌, ap, sym, refl, subst, true, some, List, [], ◌∷◌,
  ◌++◌, length, get_or, get_elem?, arith, length-append,
}
use ecc_cpu.Base.Int.{ℤ, pos, negsuc, to_u64}
use ecc_cpu.Defines.{data_segment_start, data_segment_size}
use ecc_cpu.Memory.Dram.{Storage, read_value}
use ecc_cpu.Memory.Dram.Bytes.{IsBytes, read_value-number}
use ecc_cpu.Assembler.Linker.{DataField, DataObject, place_fields, place_objs}
use ecc_cpu.Assembler.ObjectWriter.{data_file}
use ecc_cpu.Assembler.Text.{Text, codes, ends_with}
use ecc_cpu.Simulator.{load_data, read_data_memory_dump}
use ecc_cpu.Simulator.Loading.{AllBytes, load_data-inside, load_data-IsBytes}
use ecc_cpu.Simulator.DataFile.{
  AllFreshObjects, bytes_from, field_bytes, fields_bytes, objects_bytes, length-fields_bytes,
  write_fields-placed, write_objects-placed,
}

-- The storage has these bytes from an address on.
abbrev Holds : Storage → ℕ → List ℕ → Type 0
Holds storage address [] = Unit
Holds storage address (b ∷ bs) = (storage address ≡ b) × Holds storage (address + 1) bs

Holds-append :
    (storage : Storage) (address : ℕ) (xs ys : List ℕ)
    → Holds storage address (xs ++ ys)
    → Holds storage address xs × Holds storage (address + length xs) ys
Holds-append storage address [] ys h = (tt, subst (λ (a : ℕ). Holds storage a ys) (omega arith) h)
Holds-append storage address (x ∷ xs) ys h =
    let (front, back) = Holds-append storage (address + 1) xs ys h.1 in
    ((h.0, front), subst (λ (a : ℕ). Holds storage a ys) (omega arith) back)

load_data-Holds :
    (bs : List ℕ) (storage : Storage) (address : ℕ)
    → ((j : ℕ) → j < length bs → storage (address + j) ≡ get_or bs j 0)
    → Holds storage address bs
load_data-Holds [] storage address h = tt
load_data-Holds (b ∷ bs) storage address h = (
  ap storage (let e : address ≡ address + 0 = omega arith in e) ∙ h 0 (omega arith),
  load_data-Holds bs storage (address + 1) (λ j lt.
      ap storage (let e : address + 1 + j ≡ address + suc j = omega arith in e)
      ∙ h (suc j) (omega arith)),
)

Holds-at :
    (bs : List ℕ) (storage : Storage) (address j : ℕ)
    → Holds storage address bs
    → j < length bs
    → storage (address + j) ≡ get_or bs j 0
Holds-at [] storage address j h lt = absurd (omega arith)
Holds-at (b ∷ bs) storage address zero h lt =
    ap storage (let e : address + 0 ≡ address = omega arith in e) ∙ h.0
Holds-at (b ∷ bs) storage address (suc j) h lt =
    ap storage (let e : address + suc j ≡ address + 1 + j = omega arith in e)
    ∙ Holds-at bs storage (address + 1) j h.1 (omega arith)

to_u64-lt : (v : ℤ) → to_u64 v < 2 ^ 64
to_u64-lt (pos n) = omega arith
to_u64-lt (negsuc n) = omega arith

module _ (storage : Storage) (bytes : IsBytes storage) where
  read_value-field :
      (f : DataField) (address : ℕ)
      → address + 8 ≤ 2 ^ 32
      → Holds storage address (field_bytes f)
      → read_value storage address ≡ to_u64 f.value
  read_value-field f address fits h =
      read_value-number storage address fits (λ k. bytes (address + k))
      ∙ omega (
        arith,
        to_u64-lt f.value,
        at 0 (omega arith),
        at 1 (omega arith),
        at 2 (omega arith),
        at 3 (omega arith),
        at 4 (omega arith),
        at 5 (omega arith),
        at 6 (omega arith),
        at 7 (omega arith),
      )
    where
      at : (k : ℕ) → k < 8 → storage (address + k) ≡ get_or (field_bytes f) k 0
      at k lt = Holds-at (field_bytes f) storage address k h lt

  -- The field at place `k` of an object whose bytes stand from `address` on.
  read_value-fields :
      (fs : List DataField) (k : ℕ) (f : DataField) (address : ℕ)
      → address + 8 * length fs ≤ 2 ^ 32
      → get_elem? fs k ≡ some f
      → Holds storage address (fields_bytes fs)
      → read_value storage (address + 8 * k) ≡ to_u64 f.value
  read_value-fields [] k f address fits e h = cc
  read_value-fields (f' ∷ fs) zero f address fits e h =
      let (own, later) = Holds-append storage address (field_bytes f') (fields_bytes fs) h in
      ap (read_value storage) (let place : address + 8 * 0 ≡ address = omega arith in place)
      ∙ read_value-field f' address (omega arith) own
      ∙ ap (λ (g : DataField). to_u64 g.value) (some-injective _ _ e)
  read_value-fields (f' ∷ fs) (suc k) f address fits e h =
      let (own, later) = Holds-append storage address (field_bytes f') (fields_bytes fs) h in
      ap (read_value storage)
        (let place : address + 8 * suc k ≡ address + 8 + 8 * k = omega arith in place)
      ∙ read_value-fields fs k f (address + 8) (omega arith) e later

  read_value-objects :
      (os : List DataObject) (address : ℕ) (values : List ℕ) (i k : ℕ) (o : DataObject)
      (f : DataField)
      → AllFreshObjects os
      → address ≡ data_segment_start + length values
      → length values + length (objects_bytes os) ≤ 2 ^ 31
      → Holds storage address (objects_bytes os)
      → get_elem? os i ≡ some o
      → get_elem? o.fields k ≡ some f
      → (placed : DataObject) × (get_elem? (place_objs address os) i ≡ some placed)
        × (placed.name ≡ o.name)
        × (read_value storage (placed.address + 8 * k) ≡ to_u64 f.value)
  unfolding place_objs
  read_value-objects [] address values i k o f fresh e fits h at_i at_k = cc
  read_value-objects (o' ∷ os) address values zero k o f fresh e fits h at_i at_k =
      let (own, later) =
        Holds-append storage address (fields_bytes o'.fields) (objects_bytes os) h in
      let is_o : o' ≡ o = some-injective _ _ at_i in
      let size : length (fields_bytes o'.fields ++ objects_bytes os)
          ≡ length (fields_bytes o'.fields) + length (objects_bytes os) =
        length-append (fields_bytes o'.fields) (objects_bytes os) in
      (
        record o' { fields = (place_fields address o'.fields).0; address = address },
        refl,
        ap (λ (x : DataObject). x.name) is_o,
        read_value-fields o'.fields k f address (omega (arith, size, length-fields_bytes o'.fields))
            (subst (λ (x : DataObject). get_elem? x.fields k ≡ some f) (sym is_o) at_k) own,
      )
  read_value-objects (o' ∷ os) address values (suc i) k o f fresh e fits h at_i at_k =
      let bs : List ℕ = fields_bytes o'.fields in
      let size : length (bs ++ objects_bytes os) ≡ length bs + length (objects_bytes os) =
        length-append bs (objects_bytes os) in
      let grown : length (values ++ bs) ≡ length values + length bs = length-append values bs in
      let eight : length bs ≡ 8 * length o'.fields = length-fields_bytes o'.fields in
      let (own, later) = Holds-append storage address bs (objects_bytes os) h in
      let end : (place_fields address o'.fields).1 ≡ address + length bs =
        (write_fields-placed o'.fields address values fresh.0 e (omega (arith, size, eight))).1
        ∙ omega (arith, eight) in
      rw end (
        read_value-objects os (address + length bs) (values ++ bs) i k o f fresh.1
          (omega (arith, grown)) (omega (arith, grown, size)) later at_i at_k)

AllBytes-append : (xs ys : List ℕ) → AllBytes xs → AllBytes ys → AllBytes (xs ++ ys)
AllBytes-append [] ys h k = k
AllBytes-append (x ∷ xs) ys h k = (h.0, AllBytes-append xs ys h.1 k)

bytes_from-AllBytes : (left i t : ℕ) → AllBytes (bytes_from left i t)
bytes_from-AllBytes zero i t = tt
bytes_from-AllBytes (suc left) i t = (omega arith, bytes_from-AllBytes left (suc i) t)

fields_bytes-AllBytes : (fs : List DataField) → AllBytes (fields_bytes fs)
fields_bytes-AllBytes [] = tt
fields_bytes-AllBytes (f ∷ fs) =
    AllBytes-append (field_bytes f) (fields_bytes fs) (bytes_from-AllBytes 8 0 (to_u64 f.value))
      (fields_bytes-AllBytes fs)

objects_bytes-AllBytes : (os : List DataObject) → AllBytes (objects_bytes os)
objects_bytes-AllBytes [] = tt
objects_bytes-AllBytes (o ∷ os) =
    AllBytes-append (fields_bytes o.fields) (objects_bytes os) (fields_bytes-AllBytes o.fields)
      (objects_bytes-AllBytes os)

-- If every field is as the parser makes it, eight bytes wide with address 0, and the fields fit the
-- data segment, then the objects, placed from its start on, are written to the data file; and if the
-- name of the file ends with `.data` and the DRAM holds bytes, then after the simulator has loaded it
-- a read at eight times `k` behind the address of an object gives the value of its field `k`.
pub loaded_data :
    (objects : List DataObject) (name : Text) (before : Storage)
    → AllFreshObjects objects
    → length (objects_bytes objects) ≤ data_segment_size
    → ends_with name (codes ".data") ≡ true
    → IsBytes before
    → (buffer : List ℕ) × (data_file (place_objs data_segment_start objects) ≡ some buffer)
      × ((i k : ℕ) (o : DataObject) (f : DataField)
          → get_elem? objects i ≡ some o
          → get_elem? o.fields k ≡ some f
          → (placed : DataObject) × (get_elem? (place_objs data_segment_start objects) i
              ≡ some placed)
            × (placed.name ≡ o.name)
            × (read_value (read_data_memory_dump name (some buffer) before) (placed.address + 8 * k)
                ≡ to_u64 f.value))
unfolding read_data_memory_dump
loaded_data objects name before fresh fits named bytes =
    let bs : List ℕ = objects_bytes objects in
    let after : Storage = load_data data_segment_start bs before in
    (
      bs,
      write_objects-placed objects data_segment_start [] fresh (omega arith) (omega arith),
      λ i k o f at_i at_k. rw named (
          read_value-objects after
            (load_data-IsBytes bs data_segment_start before (objects_bytes-AllBytes objects) bytes)
            objects data_segment_start [] i k o f fresh (omega arith) (omega arith)
            (load_data-Holds bs after data_segment_start
              (λ j lt. load_data-inside bs data_segment_start j before (omega arith) lt))
            at_i at_k),
    )
