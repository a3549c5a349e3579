-- ===== src/Paging/Made.antt =====
-- `descend` of src/mm/vm.c where a table is missing: what the tables hold when it is made.
use peanut_kernel.Common.{
  ℕ, suc, ◌+◌, ◌-◌, ◌%◌, ◌^◌, ◌≤◌, ◌<◌, ◌≡◌, ◌≢◌, ◌⊎◌, refl, ap, ap₂, sym, ◌∙◌, true, false, ◌&&◌,
  ◌==◌, leb, if◌then◌else◌, Bool-cases, inl, inr, arith,
}
use peanut_kernel.Memory
use peanut_kernel.Paging.{Statics, Vm, set_entry, alloc_table, is_present, table_of, entry_to}
use peanut_kernel.Paging.Entries.{IsPage, table_of-entry_to, entry_to-is_present, entry_to-is_huge}
use peanut_kernel.Paging.Values.{}
use peanut_kernel.Paging.Tree.{links_at, is_link, IsTree, IsDescended}

module _ (k : Statics) (level : ℕ → ℕ) (s : Vm) (t i : ℕ) (tree : IsTree k level s)
    (deep : 2 ≤ level t) where
  -- The table is there.
  pub found-IsDescended :
      is_link level s t i ≡ true → IsDescended k level s t i (table_of (s.tables t i), s)
  found-IsDescended link = record {
    levels = level;
    tree = tree;
    same_level = λ a h. refl;
    below = tree.child t i link;
    linked = link;
    leads = refl;
    kept = λ a j h p. refl;
    same_translation = λ virt. refl;
    taken = omega arith;
  }

  -- The table is made out of the next page.
  module _ (absent : is_present (s.tables t i) ≡ false) (room : s.memory.page_bump < 2 ^ 63) where
    abbrev pub page : ℕ
    page = s.memory.page_bump

    unfoldable pub made : Vm
    unfolding alloc_table
    made = set_entry t i (entry_to page) (alloc_table s).1

    abbrev pub new_level : ℕ → ℕ
    new_level a = if a == page then level t - 1 else level a

    pub frame-IsPage : IsPage page
    frame-IsPage = record { aligned = tree.aligned; small = room }

    page_level : level page ≡ 0
    page_level = tree.fresh page (omega arith)

    -- What the tables hold afterwards.
    made_entry :
        (a j : ℕ)
        → made.tables a j
          ≡ (if a == t && j == i then entry_to page else if a == page then 0 else s.tables a j)
    unfolding made alloc_table Memory.vm_alloc_page
    made_entry a j = refl

    pub made_bump : made.memory.page_bump ≡ page + 4096
    unfolding made alloc_table Memory.vm_alloc_page
    made_bump = refl

    t-ne-page : t ≢ page
    t-ne-page e = let l = page_level in let l' : level t ≡ 0 = rw e l in omega arith

    pub here_entry : made.tables t i ≡ entry_to page
    here_entry = ground (arith, made_entry t i)

    pub empty_entry : (j : ℕ) → made.tables page j ≡ 0
    empty_entry j = let ne = t-ne-page in ground (arith, made_entry page j)

    -- Every other entry of a table is as it was.
    pub other_entry :
        (a j : ℕ) → level a ≢ 0 → (a == t && j == i) ≡ false → made.tables a j ≡ s.tables a j
    other_entry a j real other =
        let l = page_level in
        elim (Bool-cases (a == page)) [
          | inl e ↦
              let same : a ≡ page = ground arith in
              let l' : level a ≡ 0 = rw same l in absurd (real l')
          | inr ne ↦ ground (arith, made_entry a j)
        ]

    pub present_entry :
        (a j : ℕ) → level a ≢ 0 → is_present (s.tables a j) ≡ true → made.tables a j ≡ s.tables a j
    present_entry a j real present = elim (Bool-cases (a == t && j == i)) [
      | inr other ↦ other_entry a j real other
      | inl here ↦
          let e : a ≡ t = ground arith in
          let e' : j ≡ i = ground arith in
          let p : is_present (s.tables t i) ≡ true = rw (← e, ← e') present in absurd (ground arith)
    ]

    -- A level that is not 0 stays.
    pub level_kept : (a : ℕ) → level a ≢ 0 → new_level a ≡ level a
    level_kept a real = elim (Bool-cases (a == page)) [
      | inl e ↦
          let same : a ≡ page = ground arith in
          let l : level a ≡ 0 = rw same page_level in absurd (real l)
      | inr ne ↦ rw ne
    ]

    pub linked : is_link new_level made t i ≡ true
    linked =
        let l : new_level t ≡ level t = level_kept t (omega arith) in
        let p = entry_to-is_present page frame-IsPage in
        let h = entry_to-is_huge page frame-IsPage in rw (l, here_entry, p, h) (ground arith)

    -- A link is the new one, or it was one before.
    old_or_new :
        (a j : ℕ)
        → is_link new_level made a j ≡ true
        → ((a ≡ t) × (j ≡ i)) ⊎ ((is_link level s a j ≡ true) × (made.tables a j ≡ s.tables a j))
    old_or_new a j link = elim (Bool-cases (a == t && j == i)) [
      | inl here ↦ inl (ground arith)
      | inr other ↦ elim (Bool-cases (a == page)) [
        | inl e ↦
            let same : a ≡ page = ground arith in
            let z : made.tables a j ≡ 0 = rw same (empty_entry j) in
            absurd (no_link (made.tables a j) z (ground arith))
        | inr ne ↦
            let l : new_level a ≡ level a = rw ne refl in
            let same : made.tables a j ≡ s.tables a j = ground (arith, made_entry a j) in
            inr (sym (ap₂ links_at l same) ∙ link, same)
      ]
    ]
      where
        no_link : (e : ℕ) → e ≡ 0 → is_present e ≡ true → ⊥
        no_link e z p = let p' = rw z at p in ground arith

    pub made-IsTree : IsTree k new_level made
    made-IsTree = record {
      root =
          let r = tree.root in
          let e : new_level k.pml4 ≡ level k.pml4 = level_kept k.pml4 (omega arith) in omega arith;
      child = λ a j link. elim (old_or_new a j link) [
        | inl (at, aj) ↦ rw (at, aj) made_child
        | inr (old, same) ↦ old_child a j old same
      ];
      unique = λ a j b l link link' e. elim (old_or_new a j link) [
        | inl (at, aj) ↦ elim (old_or_new b l link') [
          | inl (bt, bl) ↦ (at ∙ sym bt, aj ∙ sym bl)
          | inr (old, same) ↦
              absurd (not_page b l old (ap table_of (sym same) ∙ sym e ∙ new_end a j at aj))
        ]
        | inr (old, same) ↦ elim (old_or_new b l link') [
          | inl (bt, bl) ↦
              absurd (not_page a j old (ap table_of (sym same) ∙ e ∙ new_end b l bt bl))
          | inr (old', same') ↦
              tree.unique a j b l old old' (ap table_of (sym same) ∙ e ∙ ap table_of same')
        ]
      ];
      fresh = made_fresh;
      aligned = made_aligned;
    }
      where
        new_end : (a j : ℕ) → a ≡ t → j ≡ i → table_of (made.tables a j) ≡ page
        new_end a j at aj =
            rw (at, aj) (ap table_of here_entry ∙ table_of-entry_to page frame-IsPage)

        not_page : (a j : ℕ) → is_link level s a j ≡ true → table_of (s.tables a j) ≢ page
        not_page a j old e =
            let c = tree.child a j old in
            let z : level (table_of (s.tables a j)) ≡ 0 = ap level e ∙ page_level in
            let d : leb 2 (level a) ≡ true = ground arith in ground arith

        made_child : suc (new_level (table_of (made.tables t i))) ≡ new_level t
        made_child =
            let e = new_end t i refl refl in
            let here : new_level page ≡ level t - 1 = ground arith in
            ap (λ x. suc (new_level x)) e
            ∙ ap suc here
            ∙ omega arith
            ∙ sym (level_kept t (omega arith))

        old_child :
            (a j : ℕ)
            → is_link level s a j ≡ true
            → made.tables a j ≡ s.tables a j
            → suc (new_level (table_of (made.tables a j))) ≡ new_level a
        old_child a j old same =
            let c = tree.child a j old in
            let d : leb 2 (level a) ≡ true = ground arith in
            ap (λ x. suc (new_level (table_of x))) same
            ∙ ap suc (level_kept (table_of (s.tables a j)) (ground arith))
            ∙ c
            ∙ sym (level_kept a (ground arith))

        made_fresh : (p : ℕ) → made.memory.page_bump ≤ p → new_level p ≡ 0
        made_fresh p h = let b = made_bump in ground (arith, tree.fresh p)

        made_aligned : made.memory.page_bump % 4096 ≡ 0
        made_aligned = let al = tree.aligned in omega (arith, made_bump)
