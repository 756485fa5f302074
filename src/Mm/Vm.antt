-- ===== src/Mm/Vm.antt =====
-- Page tables: `walk` of src/mm/vm.c with `alloc` 0, which allocates no table.
--
-- The pages that hold page tables are a function from the address of a page and an index to the entry
-- there. `none` is a panic.
use lkc.Base.{
  ℕ, zero, suc, ◌+◌, ◌*◌, ◌/◌, ◌%◌, ◌^◌, ◌<◌, ◌≡◌, refl, Bool, true, false, not, ◌||◌, Option, some,
  ltb, leb, ◌==◌, ◌⊎◌, inl, inr, arith,
}
use lkc.Base.Panic.{◌>>◌, assert}

abbrev pub maxva : ℕ
maxva = 274877906944

abbrev pub Tables : Type 0
Tables = ℕ → ℕ → ℕ

abbrev pub pn : ℕ → ℕ → ℕ
pn level va = va / 2 ^ (12 + 9 * level) % 512

abbrev pub pte_v : ℕ → Bool
pte_v pte = pte % 2 == 1

abbrev pub pte_r : ℕ → Bool
pte_r pte = pte / 2 % 2 == 1

abbrev pub pte_x : ℕ → Bool
pte_x pte = pte / 8 % 2 == 1

abbrev pub pte2pa : ℕ → ℕ
pte2pa pte = pte / 1024 * 4096 % 2 ^ 64

-- `missing` is the result -1, `entry` the level that is returned and the entry that `*pte` points to.
pub data Walked : Type 0 where
  missing : Walked
  entry : ℕ → ℕ → Walked

-- The loop from `level` on, with the entry of `lowlevel` at its end
unfoldable pub walk_loop : Tables → ℕ → ℕ → ℕ → ℕ → Option Walked
walk_loop tables va lowlevel zero pagetable = some (entry 0 (tables pagetable (pn lowlevel va)))
walk_loop tables va lowlevel (suc l) pagetable = elim (ltb lowlevel (suc l)) [
  | false ↦ some (entry 0 (tables pagetable (pn lowlevel va)))
  | true ↦
      let pte = tables pagetable (pn (suc l) va) in
      elim (pte_v pte) [
        | false ↦ some missing
        | true ↦ elim (pte_r pte || pte_x pte) [
          | true ↦ assert (suc l == 1) >> some (entry (suc l) pte)
          | false ↦ walk_loop tables va lowlevel l (pte2pa pte)
        ]
      ]
]

unfoldable pub walk : Tables → ℕ → ℕ → ℕ → Option Walked
walk tables pagetable va lowlevel = do
  assert (not (leb maxva va))
  walk_loop tables va lowlevel 2 pagetable

-- An entry that is valid and points to a table
abbrev pub Inner : ℕ → Type 0
Inner pte = (pte_v pte ≡ true) × ((pte_r pte || pte_x pte) ≡ false)

-- The tables have no entry for the address: one is missing on the way, or the last entry is 0.
abbrev pub Unmapped : Tables → ℕ → ℕ → Type 0
Unmapped tables pagetable va =
    let root = tables pagetable (pn 2 va) in
    let mid = tables (pte2pa root) (pn 1 va) in
    let last = tables (pte2pa mid) (pn 0 va) in
    (pte_v root ≡ false) ⊎ (Inner root × ((pte_v mid ≡ false) ⊎ (Inner mid × (last ≡ 0))))

walk_loop-Unmapped :
    (tables : Tables) (pagetable va : ℕ)
    → Unmapped tables pagetable va
    → (walk_loop tables va 0 2 pagetable ≡ some missing)
      ⊎ (walk_loop tables va 0 2 pagetable ≡ some (entry 0 0))
unfolding walk_loop
walk_loop-Unmapped tables pagetable va (inl e) = inl (rw (walk_loop, e) refl)
walk_loop-Unmapped tables pagetable va (inr ((v, n), inl e)) =
    inl (rw (walk_loop, v, n, walk_loop, e) refl)
walk_loop-Unmapped tables pagetable va (inr ((v, n), inr ((w, m), z))) =
    inr (rw (walk_loop, v, n, walk_loop, w, m, z) refl)

pub walk-Unmapped :
    (tables : Tables) (pagetable va : ℕ)
    → va < maxva
    → Unmapped tables pagetable va
    → (walk tables pagetable va 0 ≡ some missing) ⊎ (walk tables pagetable va 0 ≡ some (entry 0 0))
unfolding walk
walk-Unmapped tables pagetable va h u =
    let b : leb maxva va ≡ false = ground arith in
    elim (walk_loop-Unmapped tables pagetable va u) [
      | inl e ↦ inl (rw (walk, b) e)
      | inr e ↦ inr (rw (walk, b) e)
    ]
