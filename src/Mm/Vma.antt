-- ===== src/Mm/Vma.antt =====
-- Virtual memory areas: src/mm/vma.c and include/memory/vma.h.
--
-- A `struct vma *` is its index in the table `vmas`, the list `head_vma` of an address space the list
-- of the indices on it, front first. Addresses are uint64: sums and differences wrap at 2 ^ 64. `none`
-- is a panic, an ASSERT that fails. `vmas_lock` makes `alloc_vma` and `free_vma` single steps.
pub mod Areas
pub mod Table
pub mod Mapping
pub mod Views
pub mod Cutting
pub mod Split
pub mod Placing
mod Tests
use lkc.Base.{
  ℕ, zero, suc, ◌+◌, ◌-◌, ◌*◌, ◌/◌, ◌%◌, ◌^◌, Bool, true, false, not, ◌&&◌, ◌||◌, List, [], ◌∷◌,
  Option, none, some, ltb, leb, ◌==◌, if◌then◌else◌, update, elem, erase,
}
use lkc.Base.Int.{ℤ, pos, negsuc}
use lkc.Base.Panic.{◌>>=◌, ◌>>◌, assert}
use lkc.Mm.{pgsize}
use lkc.Mm.Vm.{Tables, Walked, missing, entry, walk}

abbrev pub nvma : ℕ
nvma = 3000

pub data VmaType : Type 0 where
  vma_stack : VmaType
  vma_heap : VmaType
  vma_text : VmaType
  vma_file : VmaType
  vma_anon : VmaType
  vma_interp : VmaType

pub record Vma : Type 0 where
  pub kind : VmaType
  pub startva : ℕ
  pub size : ℕ
  pub perm : ℕ
  pub used : Bool
  pub offset : ℕ
  pub vm_file : Option ℕ

-- The table of areas, the parts of one `struct mm_struct` that vma.c uses, and the reference counts of
-- files
pub record Space : Type 0 where
  pub vmas : ℕ → Vma
  pub head_vma : List ℕ
  pub heapvma : Option ℕ
  pub file_refs : ℕ → ℕ

-- Arithmetic on uint64
abbrev pub add64 : ℕ → ℕ → ℕ
add64 a b = (a + b) % 2 ^ 64

abbrev pub sub64 : ℕ → ℕ → ℕ
sub64 a b = (a + 2 ^ 64 - b) % 2 ^ 64

abbrev pub pgroundup : ℕ → ℕ
pgroundup a = add64 a 4095 / 4096 * 4096

abbrev pub pgrounddown : ℕ → ℕ
pgrounddown a = a / 4096 * 4096

-- The first unused entry from `i` on, of `rounds` that are left
unfoldable pub first_unused : (ℕ → Vma) → ℕ → ℕ → Option ℕ
first_unused vmas zero i = none
first_unused vmas (suc rounds) i =
    if not (vmas i).used then some i else first_unused vmas rounds (i + 1)

abbrev pub set_vma : Space → ℕ → Vma → Space
set_vma space i v = record space { vmas = update space.vmas i v }

unfoldable pub alloc_vma : Space → Option (Space × ℕ)
alloc_vma space = elim (first_unused space.vmas nvma 0) [
  | none ↦ none
  | some i ↦ some (set_vma space i (record (space.vmas i) { used = true }), i)
]

abbrev pub free_vma : Space → ℕ → Space
free_vma space i = set_vma space i (record (space.vmas i) { used = false })

-- `addr >= start && addr < end`
abbrev pub covers : Vma → ℕ → Bool
covers v a = leb v.startva a && ltb a (add64 v.startva v.size)

unfoldable pub check_vma_intersect : (ℕ → Vma) → List ℕ → Vma → Bool
check_vma_intersect vmas [] checked = false
check_vma_intersect vmas (p ∷ ps) checked =
    if covers (vmas p) checked.startva
      || covers (vmas p) (sub64 (add64 checked.startva checked.size) 1)
    then true
    else check_vma_intersect vmas ps checked

-- `none` is the ASSERT on an overlap.
unfoldable pub add_vma_to_vmspace : Space → ℕ → Option Space
add_vma_to_vmspace space i =
    if check_vma_intersect space.vmas space.head_vma (space.vmas i)
    then none
    else some (record space { head_vma = i ∷ space.head_vma })

abbrev pub is_vma_in_vmspace : Space → ℕ → Bool
is_vma_in_vmspace space i = elem i space.head_vma

unfoldable pub del_vma_from_vmspace : Space → ℕ → Option Space
del_vma_from_vmspace space i =
    if is_vma_in_vmspace space i
    then some (free_vma (record space { head_vma = erase i space.head_vma }) i)
    else none

unfoldable pub find_vma_for_va : (ℕ → Vma) → List ℕ → ℕ → Option ℕ
find_vma_for_va vmas [] a = none
find_vma_for_va vmas (p ∷ ps) a = if covers (vmas p) a then some p else find_vma_for_va vmas ps a

-- The new area of `vma_map_range`
abbrev pub placed : Vma → ℕ → ℕ → ℕ → VmaType → Vma
placed v va len perm kind = record v {
  startva = pgrounddown va;
  size = pgroundup (if ltb len pgsize then pgsize else len);
  perm = perm % 2 ^ 32;
  kind = kind;
}

-- `inr` is the new area, `inl` the null pointer.
unfoldable pub vma_map_range : Space → ℕ → ℕ → ℕ → VmaType → Option (Space × Option ℕ)
vma_map_range space va len perm kind = elim (alloc_vma space) [
  | none ↦ some (space, none)
  | some (space', i) ↦ do
    assert (va % pgsize == 0)
    mapped ← add_vma_to_vmspace (set_vma space' i (placed (space'.vmas i) va len perm kind)) i
    some (mapped, some i)
]

abbrev pub is_heap : VmaType → Bool
is_heap vma_heap = true
is_heap _ = false

-- The branches of `vma_map` and `vma_map_file` after `vma_map_range`
abbrev pub after_map : VmaType → Space → Option ℕ → Space × ℤ
after_map kind space none = (space, negsuc 0)
after_map kind space (some i) =
    (if is_heap kind then record space { heapvma = some i } else space, pos 0)

unfoldable pub vma_map : Space → ℕ → ℕ → ℕ → VmaType → Option (Space × ℤ)
vma_map space va len perm kind = do
  mapped ← vma_map_range space va len perm kind
  some (after_map kind mapped.0 mapped.1)

-- `fat32_filedup`
abbrev pub filedup : Space → ℕ → Space
filedup space f = record space { file_refs = update space.file_refs f (space.file_refs f + 1) }

abbrev pub after_map_file : ℕ → ℕ → Space → Option ℕ → Space × ℤ
after_map_file offset fp space none = (space, negsuc 0)
after_map_file offset fp space (some i) = (
  filedup (set_vma space i (record (space.vmas i) { offset = offset; vm_file = some fp })) fp,
  pos 0,
)

-- `writable` is `F_WRITEABLE(fp)`; PERM_WRITE is 2 and PERM_SHARED 8.
unfoldable pub vma_map_file : Space → ℕ → ℕ → ℕ → VmaType → ℕ → ℕ → Bool → Option (Space × ℤ)
vma_map_file space va len perm kind offset fp writable =
    if not writable && (perm / 2 % 2 == 1 && perm / 8 % 2 == 1) then some (space, negsuc 0) else (do
      mapped ← vma_map_range space va len perm kind
      some (after_map_file offset fp mapped.0 mapped.1))

-- The two parts of an area that is cut at `addr`: the old entry and the new one
abbrev pub split_old : Vma → ℕ → Bool → Vma
split_old v addr true = record v {
  size = sub64 (add64 v.startva v.size) addr;
  startva = addr;
  offset = add64 v.offset (sub64 addr v.startva);
}
split_old v addr false = record v { size = sub64 addr v.startva }

abbrev pub split_new : Vma → ℕ → Bool → Vma
split_new v addr true = record v { size = sub64 addr v.startva }
split_new v addr false = record v {
  startva = addr;
  size = sub64 (add64 v.startva v.size) addr;
  offset = add64 v.offset (sub64 addr v.startva);
}

abbrev pub filedup_of : Space → Option ℕ → Space
filedup_of space none = space
filedup_of space (some f) = filedup space f

unfoldable pub split_vma : Space → ℕ → ℕ → Bool → Option (Space × ℤ)
split_vma space i addr new_below = elim (alloc_vma space) [
  | none ↦ some (space, negsuc 0)
  | some (space', j) ↦
      let v = space'.vmas i in
      let cut =
        set_vma (set_vma space' j (split_new v addr new_below)) i (split_old v addr new_below) in
      add_vma_to_vmspace (filedup_of cut v.vm_file) j >>= λ r. some (r, pos 0)
]

abbrev pub mmap_start : ℕ
mmap_start = 805306368

abbrev pub is_skipped : VmaType → Bool
is_skipped vma_interp = true
is_skipped vma_stack = true
is_skipped _ = false

-- The loop of `find_mapping_space`: the largest end of an area that is not skipped
unfoldable pub max_end : (ℕ → Vma) → List ℕ → ℕ → ℕ
max_end vmas [] max = max
max_end vmas (p ∷ ps) max =
    let endva = add64 (vmas p).startva (vmas p).size in
    max_end vmas ps (if is_skipped (vmas p).kind then max else if ltb max endva then endva else max)

-- `ret == -1 || *pte == 0`
abbrev pub is_unmapped : Walked → Bool
is_unmapped missing = true
is_unmapped (entry level pte) = pte == 0

-- On the page tables and the root `mm->pagetable`; `none` is a panic, that of `walk` included.
unfoldable pub find_mapping_space : Space → Tables → ℕ → Option ℕ
find_mapping_space space tables pagetable = do
  let max = max_end space.vmas space.head_vma mmap_start
  assert (max % pgsize == 0)
  walked ← walk tables pagetable max 0
  assert (is_unmapped walked)
  some max
