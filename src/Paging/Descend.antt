-- ===== src/Paging/Descend.antt =====
-- `descend` of src/mm/vm.c keeps the tables a tree and every translation as it was.
use peanut_kernel.Common.{
  ℕ, suc, ◌-◌, ◌^◌, ◌≤◌, ◌<◌, ◌≡◌, ◌≢◌, ◌⊎◌, refl, ap, ap₂, sym, ◌∙◌, true, false, ◌&&◌, ◌==◌,
  Bool-cases, inl, inr, arith,
}
use peanut_kernel.Memory
use peanut_kernel.Paging.{
  Statics, Vm, alloc_table, is_present, is_huge, table_of, entry_to, pml4_index, pdpt_index,
  pd_index, pt_index, descend, through_pt, through_pd, through_pdpt, through_pml4, vm_virt_to_phys,
}
use peanut_kernel.Paging.Entries.{table_of-entry_to, entry_to-is_present, entry_to-is_huge}
use peanut_kernel.Paging.Values.{
  pt_value, pd_value, pd_value-link, pd_value-absent, pd_value-cong, link_value, link_value-cong,
  link_lem,
}
use peanut_kernel.Paging.Tree.{links_at, is_link, IsTree, IsDescended}
use peanut_kernel.Paging.Made.{
  found-IsDescended, made, new_level, frame-IsPage, made_bump, here_entry, empty_entry, other_entry,
  present_entry, level_kept, linked, made-IsTree,
}

module _ (k : Statics) (level : ℕ → ℕ) (s : Vm) (t i : ℕ) (tree : IsTree k level s)
    (deep : 2 ≤ level t) (absent : is_present (s.tables t i) ≡ false)
    (room : s.memory.page_bump < 2 ^ 63) where
  abbrev page : ℕ
  page = s.memory.page_bump

  abbrev after : Vm
  after = made k level s t i tree deep absent room

  -- The tables below the new link are empty, so each translation finds what it found before.
  here_or_same : (a j : ℕ) → level a ≢ 0 → ((a ≡ t) × (j ≡ i)) ⊎ (after.tables a j ≡ s.tables a j)
  here_or_same a j real = elim (Bool-cases (a == t && j == i)) [
    | inl here ↦ inl (ground arith)
    | inr other ↦ inr (other_entry k level s t i tree deep absent room a j real other)
  ]

  same_pt :
      (virt pt : ℕ) → level pt ≡ 1 → through_pt after.tables virt pt ≡ through_pt s.tables virt pt
  same_pt virt pt l = elim (here_or_same pt (pt_index virt) (omega arith)) [
    | inl (at, aj) ↦ absurd (let e : level pt ≡ level t = ap level at in omega arith)
    | inr same ↦ ap (pt_value virt) same
  ]

  -- An empty table.
  empty_pt : (virt : ℕ) → through_pt after.tables virt page ≡ 0
  empty_pt virt =
      ap (pt_value virt) (empty_entry k level s t i tree deep absent room (pt_index virt))

  empty_pd : (virt : ℕ) → through_pd after.tables virt page ≡ 0
  empty_pd virt =
      ap (pd_value virt (through_pt after.tables virt))
        (empty_entry k level s t i tree deep absent room (pd_index virt))

  empty_pdpt : (virt : ℕ) → through_pdpt after.tables virt page ≡ 0
  empty_pdpt virt =
      ap (link_value (through_pd after.tables virt))
        (empty_entry k level s t i tree deep absent room (pdpt_index virt))

  -- Where a link at this level leads.
  child_level :
      (l a j : ℕ)
      → level a ≡ l
      → links_at l (s.tables a j) ≡ true
      → suc (level (table_of (s.tables a j))) ≡ l
  child_level l a j e link = tree.child a j (ap (λ x. links_at x (s.tables a j)) e ∙ link) ∙ e

  new_value : (below : ℕ → ℕ) → below page ≡ 0 → link_value below (entry_to page) ≡ 0
  new_value below z =
      rw (entry_to-is_present page (frame-IsPage k level s t i tree deep absent room))
        (ap below (table_of-entry_to page (frame-IsPage k level s t i tree deep absent room)) ∙ z)

  absent_value : (below : ℕ → ℕ) → link_value below (s.tables t i) ≡ 0
  absent_value below = rw absent refl

  same_pd :
      (virt pd : ℕ) → level pd ≡ 2 → through_pd after.tables virt pd ≡ through_pd s.tables virt pd
  same_pd virt pd l = elim (here_or_same pd (pd_index virt) (omega arith)) [
    | inl (at, aj) ↦
        ap₂ (λ a j. pd_value virt (through_pt after.tables virt) (after.tables a j)) at aj
        ∙ ap (pd_value virt (through_pt after.tables virt))
            (here_entry k level s t i tree deep absent room)
        ∙ pd_value-link virt (through_pt after.tables virt) (entry_to page)
            (entry_to-is_present page (frame-IsPage k level s t i tree deep absent room))
            (entry_to-is_huge page (frame-IsPage k level s t i tree deep absent room))
        ∙ ap (through_pt after.tables virt)
            (table_of-entry_to page (frame-IsPage k level s t i tree deep absent room))
        ∙ empty_pt virt
        ∙ sym (pd_value-absent virt (through_pt s.tables virt) (s.tables t i) absent)
        ∙ sym (ap₂ (λ a j. pd_value virt (through_pt s.tables virt) (s.tables a j)) at aj)
    | inr same ↦
        ap (pd_value virt (through_pt after.tables virt)) same
        ∙ pd_value-cong virt (through_pt after.tables virt) (through_pt s.tables virt)
            (s.tables pd (pd_index virt))
            (λ link.
              same_pt virt (table_of (s.tables pd (pd_index virt)))
                (let c = child_level 2 pd (pd_index virt) l link in omega arith))
  ]

  -- The same for a table of links, of any level from 3 on.
  same_link :
      (new old : ℕ → ℕ) (l a j : ℕ)
      → 3 ≤ l
      → level a ≡ l
      → new page ≡ 0
      → ((b : ℕ) → suc (level b) ≡ l → new b ≡ old b)
      → link_value new (after.tables a j) ≡ link_value old (s.tables a j)
  same_link new old l a j h e z below = elim (here_or_same a j (omega arith)) [
    | inl (at, aj) ↦
        ap₂ (λ b c. link_value new (after.tables b c)) at aj
        ∙ ap (link_value new) (here_entry k level s t i tree deep absent room)
        ∙ new_value new z
        ∙ sym (absent_value old)
        ∙ sym (ap₂ (λ b c. link_value old (s.tables b c)) at aj)
    | inr same ↦
        ap (link_value new) same
        ∙ link_value-cong new old (s.tables a j) (λ present.
          below (table_of (s.tables a j))
            (child_level l a j e (link_lem l (s.tables a j) h present)))
  ]

  same_pdpt :
      (virt pdpt : ℕ)
      → level pdpt ≡ 3
      → through_pdpt after.tables virt pdpt ≡ through_pdpt s.tables virt pdpt
  same_pdpt virt pdpt l =
      same_link (through_pd after.tables virt) (through_pd s.tables virt) 3 pdpt (pdpt_index virt)
        (omega arith) l (empty_pd virt) (λ b h. same_pd virt b (omega arith))

  same_pml4 : (virt : ℕ) → through_pml4 after.tables virt k.pml4 ≡ through_pml4 s.tables virt k.pml4
  same_pml4 virt =
      same_link (through_pdpt after.tables virt) (through_pdpt s.tables virt) 4 k.pml4
        (pml4_index virt) (omega arith) (tree.root) (empty_pdpt virt)
        (λ b h. same_pdpt virt b (omega arith))

  made-IsDescended : IsDescended k level s t i (page, after)
  unfolding vm_virt_to_phys
  made-IsDescended = record {
    levels = (new_level k level s t i tree deep absent room);
    tree = (made-IsTree k level s t i tree deep absent room);
    same_level = (level_kept k level s t i tree deep absent room);
    below = page_below;
    linked = linked k level s t i tree deep absent room;
    leads =
        ap table_of (here_entry k level s t i tree deep absent room)
        ∙ table_of-entry_to page (frame-IsPage k level s t i tree deep absent room);
    kept = (present_entry k level s t i tree deep absent room);
    same_translation = same_pml4;
    taken = let e = (made_bump k level s t i tree deep absent room) in omega arith;
  }
    where
      page_below : suc ((new_level k level s t i tree deep absent room) page) ≡ level t
      page_below =
          let here : (new_level k level s t i tree deep absent room) page ≡ level t - 1 =
            ground arith in
          ground arith

module _ (k : Statics) (level : ℕ → ℕ) (s : Vm) (t i : ℕ) (tree : IsTree k level s)
    (deep : 2 ≤ level t) (small : level t ≡ 2 → is_huge (s.tables t i) ≡ false)
    (room : s.memory.page_bump < 2 ^ 63) where
  pub descend-IsDescended : IsDescended k level s t i (descend t i s)
  unfolding descend alloc_table Memory.vm_alloc_page made
  descend-IsDescended = elim (Bool-cases (is_present (s.tables t i))) [
    | inl present ↦ rw present (found-IsDescended k level s t i tree deep (link present))
    | inr absent ↦ rw absent (made-IsDescended k level s t i tree deep absent room)
  ]
    where
      link : is_present (s.tables t i) ≡ true → is_link level s t i ≡ true
      link present = elim (Bool-cases (level t == 2)) [
        | inl e ↦ rw (small (ground arith), present) (ground arith)
        | inr ne ↦ rw (present, ne) (ground arith)
      ]

-- A table that is found, and one that is made.
pub descend-found :
    (t i : ℕ) (s : Vm)
    → is_present (s.tables t i) ≡ true
    → descend t i s ≡ (table_of (s.tables t i), s)
unfolding descend
descend-found t i s present = rw present refl

pub descend-empty :
    (k : Statics) (level : ℕ → ℕ) (s : Vm) (t i j : ℕ)
    → IsTree k level s
    → 2 ≤ level t
    → s.memory.page_bump < 2 ^ 63
    → is_present (s.tables t i) ≡ false
    → (descend t i s).1.tables (descend t i s).0 j ≡ 0
unfolding descend alloc_table Memory.vm_alloc_page made
descend-empty k level s t i j tree deep room absent =
    rw absent (empty_entry k level s t i tree deep absent room j)
