-- ===== src/Paging/Descent.antt =====
-- The way from the first table of src/mm/vm.c to the table of an address's page.
use peanut_kernel.Common.{
  ℕ, ◌+◌, ◌*◌, ◌^◌, ◌<◌, ◌≡◌, ◌≢◌, refl, ap, ap₂, sym, ◌∙◌, Bool, true, false, ◌&&◌, Bool-cases,
  inl, inr, arith,
}
use peanut_kernel.Memory.{vm_page_size}
use peanut_kernel.Paging.{
  Statics, Vm, is_present, is_huge, table_of, pml4_index, pdpt_index, pd_index, descend,
  vm_virt_to_phys,
}
use peanut_kernel.Paging.Entries.{}
use peanut_kernel.Paging.Tree.{links_at, IsTree, IsDescended}
use peanut_kernel.Paging.Descend.{descend-IsDescended, descend-empty, descend-found}
use peanut_kernel.Paging.Write.{IsLink}

-- Whether the page lies in a large one.
abbrev pub is_in_large : Statics → ℕ → Vm → Bool
is_in_large k virt s =
    let pml4e = s.tables k.pml4 (pml4_index virt) in
    let pdpte = s.tables (table_of pml4e) (pdpt_index virt) in
    is_present pml4e && (is_present pdpte && is_huge (s.tables (table_of pdpte) (pd_index virt)))

-- A link stays one when another table is made.
IsLink-later :
    {k : Statics} {level : ℕ → ℕ} {s : Vm} {t i a j child : ℕ} {r : ℕ × Vm}
    → (d : IsDescended k level s t i r) → IsLink level s a j child
    → IsLink (d.levels) r.1 a j child
IsLink-later {level = level} {s = s} {a = a} {j = j} {r = r} d l =
    let h = l.link in
    let real = real_link (level a) (s.tables a j) h in
    let same : r.1.tables a j ≡ s.tables a j = d.kept a j (real.0) (real.1) in
    record {
      link = ap₂ links_at (d.same_level a (real.0)) same ∙ h;
      leads = ap table_of same ∙ l.leads;
    }
  where
    real_link : (n e : ℕ) → links_at n e ≡ true → (n ≢ 0) × (is_present e ≡ true)
    real_link n e h = (ground arith, ground arith)

module _ (k : Statics) (level : ℕ → ℕ) (s : Vm) (virt : ℕ) (tree : IsTree k level s)
    (room : s.memory.page_bump + 2 * vm_page_size < 2 ^ 63) where
  abbrev pub pdpt : ℕ × Vm
  pdpt = descend k.pml4 (pml4_index virt) s

  abbrev pub pd : ℕ × Vm
  pd = descend pdpt.0 (pdpt_index virt) pdpt.1

  abbrev pub pt : ℕ × Vm
  pt = descend pd.0 (pd_index virt) pd.1

  pub to_pdpt : IsDescended k level s k.pml4 (pml4_index virt) pdpt
  to_pdpt =
      let r = tree.root in
      descend-IsDescended k level s k.pml4 (pml4_index virt) tree (omega arith)
        (λ e. absurd (omega arith)) (omega arith)

  abbrev levels1 : ℕ → ℕ
  levels1 = to_pdpt.levels

  pdpt_level : levels1 pdpt.0 ≡ 3
  pdpt_level = let r = tree.root in let b = to_pdpt.below in omega arith

  pub to_pd : IsDescended k levels1 pdpt.1 pdpt.0 (pdpt_index virt) pd
  to_pd =
      let l = pdpt_level in
      let t = to_pdpt.taken in
      descend-IsDescended k levels1 pdpt.1 pdpt.0 (pdpt_index virt) (to_pdpt.tree) (omega arith)
        (λ e. absurd (omega arith)) (omega arith)

  abbrev levels2 : ℕ → ℕ
  levels2 = to_pd.levels

  pd_level : levels2 pd.0 ≡ 2
  pd_level = let l = pdpt_level in let b = to_pd.below in omega arith

  -- The entry that the test for a large page reads.
  new_pd :
      is_present (pdpt.1.tables pdpt.0 (pdpt_index virt)) ≡ false
      → is_huge (pd.1.tables pd.0 (pd_index virt)) ≡ false
  new_pd absent =
      let l = pdpt_level in
      let t = to_pdpt.taken in
      ap is_huge (
        descend-empty k levels1 pdpt.1 pdpt.0 (pdpt_index virt) (pd_index virt) (to_pdpt.tree)
          (omega arith) (omega arith) absent)

  new_pdpt :
      is_present (s.tables k.pml4 (pml4_index virt)) ≡ false
      → is_present (pdpt.1.tables pdpt.0 (pdpt_index virt)) ≡ false
  new_pdpt absent =
      let r = tree.root in
      ap is_present (
        descend-empty k level s k.pml4 (pml4_index virt) (pdpt_index virt) tree (omega arith)
          (omega arith) absent)

  abbrev pdpt' : ℕ
  pdpt' = table_of (s.tables k.pml4 (pml4_index virt))

  -- What is there already is left as it is.
  found_pd :
      is_present (s.tables k.pml4 (pml4_index virt)) ≡ true
      → is_present (s.tables pdpt' (pdpt_index virt)) ≡ true
      → pd ≡ (table_of (s.tables pdpt' (pdpt_index virt)), s)
  found_pd p q =
      ap (λ r. descend r.0 (pdpt_index virt) r.1) (descend-found k.pml4 (pml4_index virt) s p)
      ∙ descend-found pdpt' (pdpt_index virt) s q

  pub large_lem : is_huge (pd.1.tables pd.0 (pd_index virt)) ≡ is_in_large k virt s
  large_lem = elim (Bool-cases (is_present (s.tables k.pml4 (pml4_index virt)))) [
    | inr absent ↦ new_pd (new_pdpt absent) ∙ sym (no_pdpt absent)
    | inl p ↦ elim (Bool-cases (is_present (s.tables pdpt' (pdpt_index virt)))) [
      | inr absent ↦
          new_pd (
            ap (λ r. is_present (r.1.tables r.0 (pdpt_index virt)))
              (descend-found k.pml4 (pml4_index virt) s p)
            ∙ absent)
          ∙ sym (no_pd absent)
      | inl q ↦
          ap (λ r. is_huge (r.1.tables r.0 (pd_index virt))) (found_pd p q) ∙ sym (and_true p q)
    ]
  ]
    where
      no_pdpt :
          is_present (s.tables k.pml4 (pml4_index virt)) ≡ false → is_in_large k virt s ≡ false
      no_pdpt h = rw h refl

      no_pd : is_present (s.tables pdpt' (pdpt_index virt)) ≡ false → is_in_large k virt s ≡ false
      no_pd h = ground arith

      and_true : {x y z : Bool} → x ≡ true → y ≡ true → (x && (y && z)) ≡ z
      and_true h g = rw (h, g) refl

  pub large_keeps : is_in_large k virt s ≡ true → pd.1 ≡ s
  large_keeps large = ap (λ r. r.1) (found_pd (ground arith) (ground arith))

  -- The path to the table of pages, where the page does not lie in a large one.
  module _ (free : is_in_large k virt s ≡ false) where
    pub to_pt : IsDescended k levels2 pd.1 pd.0 (pd_index virt) pt
    to_pt =
        let l = pd_level in
        let t = to_pdpt.taken in
        let u = to_pd.taken in
        descend-IsDescended k levels2 pd.1 pd.0 (pd_index virt) (to_pd.tree) (omega arith)
          (λ e. large_lem ∙ free) (omega arith)

    abbrev pub levels3 : ℕ → ℕ
    levels3 = to_pt.levels

    pub pt_level : levels3 pt.0 ≡ 1
    pt_level = let l = pd_level in let b = to_pt.below in omega arith

    pub pt-IsLink : IsLink levels3 pt.1 pd.0 (pd_index virt) pt.0
    pt-IsLink = record { link = to_pt.linked; leads = to_pt.leads }

    pub pd-IsLink : IsLink levels3 pt.1 pdpt.0 (pdpt_index virt) pd.0
    pd-IsLink = IsLink-later to_pt (record { link = to_pd.linked; leads = to_pd.leads })

    pub pdpt-IsLink : IsLink levels3 pt.1 k.pml4 (pml4_index virt) pdpt.0
    pdpt-IsLink =
        IsLink-later to_pt
          (IsLink-later to_pd (record { link = to_pdpt.linked; leads = to_pdpt.leads }))

    pub same_before : (a : ℕ) → vm_virt_to_phys k a pt.1 ≡ vm_virt_to_phys k a s
    same_before a = to_pt.same_translation a ∙ to_pd.same_translation a ∙ to_pdpt.same_translation a
