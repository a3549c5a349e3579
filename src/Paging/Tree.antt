-- ===== src/Paging/Tree.antt =====
-- src/mm/vm.c: the tables form a tree, and making a missing table keeps it one.
use peanut_kernel.Common.{ℕ, suc, ◌+◌, ◌%◌, ◌≤◌, ◌≡◌, ◌≢◌, Bool, true, not, ◌&&◌, ◌==◌, leb}
use peanut_kernel.Paging.{Statics, Vm, is_present, is_huge, table_of, vm_virt_to_phys}
use peanut_kernel.Paging.Entries.{}

-- Whether an entry leads to a table. `level` is 4 for the first table, 1 for one whose entries are
-- pages, and 0 for what is no table.
abbrev pub links_at : ℕ → ℕ → Bool
links_at l e = leb 2 l && (is_present e && not (l == 2 && is_huge e))

abbrev pub is_link : (ℕ → ℕ) → Vm → ℕ → ℕ → Bool
is_link level s t i = links_at (level t) (s.tables t i)

-- The tables form a tree with these levels: every link leads one level down, no two to the same table,
-- and the pages that are not given out yet are no tables.
pub record IsTree (k : Statics) (level : ℕ → ℕ) (s : Vm) : Type 0 where
  pub root : level k.pml4 ≡ 4
  pub child :
      (t i : ℕ) → is_link level s t i ≡ true → suc (level (table_of (s.tables t i))) ≡ level t
  pub unique :
      (t i u j : ℕ)
      → is_link level s t i ≡ true
      → is_link level s u j ≡ true
      → table_of (s.tables t i) ≡ table_of (s.tables u j)
      → (t ≡ u) × (i ≡ j)
  pub fresh : (p : ℕ) → s.memory.page_bump ≤ p → level p ≡ 0
  pub aligned : s.memory.page_bump % 4096 ≡ 0

-- One step down, at entry `i` of table `t`: what `descend` makes of a tree.
pub record IsDescended (k : Statics) (level : ℕ → ℕ) (s : Vm) (t i : ℕ) (r : ℕ × Vm) : Type 0 where
  pub levels : ℕ → ℕ
  pub tree : IsTree k levels r.1
  pub same_level : (a : ℕ) → level a ≢ 0 → levels a ≡ level a
  pub below : suc (levels r.0) ≡ level t
  pub linked : is_link levels r.1 t i ≡ true
  pub leads : table_of (r.1.tables t i) ≡ r.0
  pub kept :
      (a j : ℕ) → level a ≢ 0 → is_present (s.tables a j) ≡ true → r.1.tables a j ≡ s.tables a j
  pub same_translation : (virt : ℕ) → vm_virt_to_phys k virt r.1 ≡ vm_virt_to_phys k virt s
  pub taken : r.1.memory.page_bump ≤ s.memory.page_bump + 4096
