-- ===== src/Mm/Buddy/Trace.antt =====
-- The calls that the rest of the kernel makes of one pool of src/mm/buddy.c, in any order, and the blocks
-- that it holds.
use lkc.Base.{ℕ, ◌+◌, ◌^◌, ◌≤◌, ◌≡◌, refl, ◌≢◌, List, [], ◌∷◌, some, arith}
use lkc.Mm.Buddy.{PhysMemPool, buddy_max_order, init_buddy, buddy_get_pages, buddy_free_pages}
use lkc.Mm.Buddy.Layout.{Metadata, Handed}

-- The blocks that are handed out: first page and order.
abbrev pub Held : Type 0
Held = List (ℕ × ℕ)

-- A block is taken out of the list of blocks.
pub data Pick : Held → ℕ → ℕ → Held → Type 0 where
  here : (p o : ℕ) (held : Held) → Pick ((p, o) ∷ held) p o held
  there :
      (x : ℕ × ℕ) {held held' : Held} {p o : ℕ}
      → Pick held p o held'
      → Pick (x ∷ held) p o (x ∷ held')

-- A pool of `n` pages with the blocks that its callers hold.
pub data Reach (n : ℕ) : PhysMemPool → Held → Type 0 where
  boot :
      {pool : PhysMemPool} (start_page start_addr : ℕ)
      → init_buddy start_page start_addr n ≡ some pool
      → Reach n pool []
  get :
      {pool pool' : PhysMemPool} {held : Held} (p order : ℕ)
      → Reach n pool held
      → order ≤ buddy_max_order
      → buddy_get_pages pool order ≡ some (pool', some p)
      → Reach n pool' ((p, order) ∷ held)
  free :
      {pool pool' : PhysMemPool} {held held' : Held} (p order : ℕ)
      → Reach n pool held
      → Pick held p order held'
      → buddy_free_pages pool p ≡ some pool'
      → Reach n pool' held'

-- No block of the list starts at page `p`.
abbrev pub Absent : ℕ → Held → Type 0
Absent p [] = Unit
Absent p ((q, o) ∷ held) = (q ≢ p) × Absent p held

abbrev pub AllHanded : ℕ → Metadata → (ℕ → ℕ) → Held → Type 0
AllHanded n md owner [] = Unit
AllHanded n md owner ((p, o) ∷ held) =
    Handed n md owner p o × Absent p held × AllHanded n md owner held

-- The pages of the blocks.
abbrev pub held_pages : Held → ℕ
held_pages [] = 0
held_pages ((p, o) ∷ held) = 2 ^ o + held_pages held

module _ {n : ℕ} {md md' : Metadata} {owner owner' : ℕ → ℕ} where
  pub AllHanded-get :
      (p : ℕ)
      → ((q o : ℕ) → Handed n md owner q o → Handed n md' owner' q o × (q ≢ p))
      → (held : Held) → AllHanded n md owner held
      → AllHanded n md' owner' held × Absent p held
  AllHanded-get p keep [] a = (tt, tt)
  AllHanded-get p keep ((q, o) ∷ held) (h, f, a) =
      let (h', ne) = keep q o h in
      let (a', f') = AllHanded-get p keep held a in ((h', f, a'), (ne, f'))

  pub AllHanded-free :
      (p : ℕ)
      → ((q o : ℕ) → Handed n md owner q o → q ≢ p → Handed n md' owner' q o)
      → (held : Held) → AllHanded n md owner held
      → Absent p held
      → AllHanded n md' owner' held
  AllHanded-free p keep [] a b = tt
  AllHanded-free p keep ((q, o) ∷ held) (h, f, a) (ne, b) =
      (keep q o h ne, f, AllHanded-free p keep held a b)

Absent-Pick :
    {held held' : Held} {p o : ℕ} (q : ℕ)
    → Pick held p o held'
    → Absent q held
    → (p ≢ q) × Absent q held'
Absent-Pick q (here p o held) (ne, a) = (ne, a)
Absent-Pick q (there (r, s) k) (ne, a) = let (ne', a') = Absent-Pick q k a in (ne', (ne, a'))

pub record Picked (n : ℕ) (md : Metadata) (owner : ℕ → ℕ) (held : Held) (p o : ℕ) (held' : Held)
    : Type 0 where
  pub block : Handed n md owner p o
  pub absent : Absent p held'
  pub others : AllHanded n md owner held'
  pub pages : held_pages held ≡ 2 ^ o + held_pages held'

pub AllHanded-Pick :
    {n : ℕ} {md : Metadata} {owner : ℕ → ℕ} {held held' : Held} {p o : ℕ}
    → Pick held p o held'
    → AllHanded n md owner held
    → Picked n md owner held p o held'
AllHanded-Pick (here p o held) (h, f, a) = record {
  block = h;
  absent = f;
  others = a;
  pages = refl;
}
AllHanded-Pick (there (r, s) k) (h, f, a) =
    let m = AllHanded-Pick k a in
    let (ne, f') = Absent-Pick r k f in
    record {
      block = m.block;
      absent = ((λ e. ne (ground (arith, e))), m.absent);
      others = (h, f', m.others);
      pages = omega (arith, m.pages);
    }
