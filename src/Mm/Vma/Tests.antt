-- ===== src/Mm/Vma/Tests.antt =====
-- Runs of src/mm/vma.c on an address space with one area, and the theorems at them.
use lkc.Base.{
  ◌<◌, ◌%◌, ◌≤◌, ℕ, ◌≡◌, refl, inl, ◌↔◌, [], ◌∷◌, none, some, true, false, arith, elem, ◌==◌,
  if◌then◌else◌,
}
use lkc.Mm.Vma.{
  Vma, Space, vma_text, vma_anon, find_vma_for_va, check_vma_intersect, vma_map_range, split_vma,
}
use lkc.Mm.Vm.{Tables}
use lkc.Mm.Vma.{mmap_start, max_end, find_mapping_space}
use lkc.Mm.Vma.Placing.{Bound, Counted, find_mapping_space_lem}
use lkc.Mm.Vma.Areas.{Whole, Apart, Valid, Overlap, find_vma_for_va_lem, check_vma_intersect_lem}
use lkc.Mm.Vma.Mapping.{MapEnds, vma_map_range_lem}
use lkc.Mm.Vma.Split.{SplitEnds, split_vma_lem}

-- Page tables with no entry
abbrev no_entries : Tables
no_entries a i = 0

-- Three pages of text in entry 0; all other entries are unused.
abbrev text : Vma
text = record {
  kind = vma_text;
  startva = 4096;
  size = 12288;
  perm = 5;
  used = true;
  offset = 0;
  vm_file = none;
}

abbrev unused : Vma
unused = record {
  kind = vma_text;
  startva = 0;
  size = 0;
  perm = 0;
  used = false;
  offset = 0;
  vm_file = none;
}

abbrev one_area : Space
one_area = record {
  vmas = λ i. if i == 0 then text else unused;
  head_vma = 0 ∷ [];
  heapvma = none;
  file_refs = λ f. 0;
}

one_area-Valid : Valid one_area
one_area-Valid = record {
  whole = λ p m. ground arith;
  apart = λ p q m n ne a c. absurd (ne (ground arith));
  distinct = (refl, tt);
  live = λ p m. ground arith;
}

-- A larger area around the text is not seen to overlap it.
abbrev around : Vma
around = record text { startva = 0; size = 20480 }

around_passes : check_vma_intersect one_area.vmas one_area.head_vma around ≡ false
unfolding check_vma_intersect
around_passes = refl

find_vma_for_va_lem_example :
    (find_vma_for_va one_area.vmas one_area.head_vma 8191 ≡ some 0)
    ↔ ((elem 0 one_area.head_vma ≡ true) × (4096 ≤ 8191) × (8191 < 16384))
find_vma_for_va_lem_example = find_vma_for_va_lem one_area 8191 0 one_area-Valid

check_vma_intersect_lem_example :
    Overlap around one_area.vmas one_area.head_vma
      (check_vma_intersect one_area.vmas one_area.head_vma around)
check_vma_intersect_lem_example =
    check_vma_intersect_lem around one_area.vmas one_area.head_vma (omega arith) (omega arith)
      one_area-Valid.whole

vma_map_range_lem_example :
    MapEnds one_area 16384 5000 3 vma_anon (vma_map_range one_area 16384 5000 3 vma_anon)
vma_map_range_lem_example =
    vma_map_range_lem one_area 16384 5000 3 vma_anon one_area-Valid refl (omega arith)
      (λ p m. inl (ground arith))

split_vma_lem_example : SplitEnds one_area 0 8192 true (split_vma one_area 0 8192 true)
split_vma_lem_example =
    split_vma_lem one_area 0 8192 true one_area-Valid refl (omega arith) (omega arith)

find_mapping_space_lem_example :
    (va : ℕ) × (find_mapping_space one_area no_entries 0 ≡ some va)
    × (mmap_start ≤ va)
    × (va % 4096 ≡ 0)
    × Bound one_area.vmas one_area.head_vma mmap_start va
    × ((v : Vma)
        → v.startva ≡ va
        → Whole v
        → (p : ℕ) → elem p one_area.head_vma ≡ true
        → Counted (one_area.vmas p)
        → Apart v (one_area.vmas p))
unfolding max_end
find_mapping_space_lem_example =
    find_mapping_space_lem one_area no_entries 0 (λ p m. ground arith) (omega arith) (inl refl)
