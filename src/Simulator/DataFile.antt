-- ===== src/Simulator/DataFile.antt =====
-- The data file that Assembler/ObjectWriter.cpp writes for the objects that Assembler/Linker.cpp has
-- placed one behind the other.
use mathlib.Core.List.{append-nil, append_assoc}
use ecc_cpu.Base.{
  ℕ, zero, suc, ◌+◌, ◌-◌, ◌*◌, ◌^◌, ◌>>>◌, ◌≤◌, u8, u64, leb, ◌≡◌, ◌∙◌, sym, ap, refl, true, some,
  List, [], ◌∷◌, ◌++◌, length, set, arith, length-append,
}
use ecc_cpu.Base.Int.{to_u64}
use ecc_cpu.Defines.{data_segment_start}
use ecc_cpu.Assembler.Linker.{DataField, DataObject, place_fields, place_objs}
use ecc_cpu.Assembler.ObjectWriter.{resize, write_from, write_field, write_fields, write_objects}

-- As the parser makes the fields.
abbrev pub AllFresh : List DataField → Type 0
AllFresh [] = Unit
AllFresh (f ∷ fs) = (f.size ≡ 8) × (f.address ≡ 0) × AllFresh fs

abbrev pub AllFreshObjects : List DataObject → Type 0
AllFreshObjects [] = Unit
AllFreshObjects (o ∷ os) = AllFresh o.fields × AllFreshObjects os

abbrev pub bytes_from : ℕ → ℕ → ℕ → List ℕ
bytes_from zero i t = []
bytes_from (suc left) i t = u8 (t >>> (i * 8)) ∷ bytes_from left (suc i) t

-- The eight bytes of a field, those of all fields of an object, and those of all objects.
abbrev pub field_bytes : DataField → List ℕ
field_bytes f = bytes_from 8 0 (to_u64 f.value)

abbrev pub fields_bytes : List DataField → List ℕ
fields_bytes [] = []
fields_bytes (f ∷ fs) = field_bytes f ++ fields_bytes fs

abbrev pub objects_bytes : List DataObject → List ℕ
objects_bytes [] = []
objects_bytes (o ∷ os) = fields_bytes o.fields ++ objects_bytes os

set-resize : (xs : List ℕ) (b : ℕ) → set (resize xs (suc (length xs))) (length xs) b ≡ xs ++ b ∷ []
set-resize [] b = refl
set-resize (x ∷ xs) b = ap (◌∷◌ x) (set-resize xs b)

write_from-append :
    (left i address t : ℕ) (values : List ℕ)
    → i + address ≡ data_segment_start + length values
    → length values + left ≤ 2 ^ 32
    → write_from left i address t values ≡ values ++ bytes_from left i t
unfolding write_from
write_from-append zero i address t values e fits = sym (append-nil values)
write_from-append (suc left) i address t values e fits =
    let place : u64 (i + address + (2 ^ 64 - data_segment_start)) ≡ length values = omega arith in
    let next : length values + 1 ≡ suc (length values) = omega arith in
    let b : ℕ = u8 (t >>> (i * 8)) in
    rw (place, next, set-resize values b)
      (write_from-append left (suc i) address t (values ++ b ∷ [])
          (omega (arith, length-append {0} values (b ∷ [])))
          (omega (arith, length-append {0} values (b ∷ [])))
        ∙ append_assoc values (b ∷ []) (bytes_from left (suc i) t))

pub length-fields_bytes : (fs : List DataField) → length (fields_bytes fs) ≡ 8 * length fs
length-fields_bytes [] = omega arith
length-fields_bytes (f ∷ fs) = omega (arith, length-fields_bytes fs)

-- The fields are placed one behind the other from the address on, and written behind the bytes that
-- there are.
pub write_fields-placed :
    (fs : List DataField) (address : ℕ) (values : List ℕ)
    → AllFresh fs
    → address ≡ data_segment_start + length values
    → length values + 8 * length fs ≤ 2 ^ 31
    → (write_fields (place_fields address fs).0 values ≡ some (values ++ fields_bytes fs))
      × ((place_fields address fs).1 ≡ address + 8 * length fs)
unfolding write_fields write_field place_fields
write_fields-placed [] address values h e fits = (ap some (sym (append-nil values)), omega arith)
write_fields-placed (f ∷ fs) address values h e fits =
    let eight : u64 (address + f.size) ≡ address + 8 = omega (arith, h.0) in
    let own : u64 (f.address + address) ≡ address = omega (arith, h.1) in
    let in_segment : leb data_segment_start address ≡ true = ground arith in
    let written : List ℕ = values ++ field_bytes f in
    let size : length written ≡ length values + 8 =
      omega (arith, length-append {0} values (field_bytes f)) in
    let (rest, end) =
      write_fields-placed fs (address + 8) written h.2 (omega (arith, size))
        (omega (arith, size)) in
    (
      rw
          (
            eight,
            own,
            in_segment,
            write_from-append 8 0 address (to_u64 f.value) values (omega arith) (omega arith),
          )
          (rest ∙ ap some (append_assoc values (field_bytes f) (fields_bytes fs))),
      rw eight (end ∙ omega arith),
    )

pub write_objects-placed :
    (os : List DataObject) (address : ℕ) (values : List ℕ)
    → AllFreshObjects os
    → address ≡ data_segment_start + length values
    → length values + length (objects_bytes os) ≤ 2 ^ 31
    → write_objects (place_objs address os) values ≡ some (values ++ objects_bytes os)
unfolding write_objects place_objs
write_objects-placed [] address values h e fits = ap some (sym (append-nil values))
write_objects-placed (o ∷ os) address values h e fits =
    let bytes : List ℕ = fields_bytes o.fields in
    let size : length (values ++ bytes) ≡ length values + 8 * length o.fields =
      omega (arith, length-append {0} values bytes, length-fields_bytes o.fields) in
    let all : length (bytes ++ objects_bytes os) ≡ length bytes + length (objects_bytes os) =
      length-append bytes (objects_bytes os) in
    let (written, end) =
      write_fields-placed o.fields address values h.0 e
        (omega (arith, all, length-fields_bytes o.fields)) in
    rw (written, end)
      (write_objects-placed os (address + 8 * length o.fields) (values ++ bytes) h.1
          (omega (arith, size)) (omega (arith, size, all, length-fields_bytes o.fields))
        ∙ ap some (append_assoc values bytes (objects_bytes os)))
