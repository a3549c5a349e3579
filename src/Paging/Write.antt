-- ===== src/Paging/Write.antt =====
-- `(*pt)[pt_i] = …` in src/mm/vm.c: what the write changes in the translations.
use peanut_kernel.Common.{
  ℕ, suc, ◌≤◌, ◌≡◌, ◌≢◌, refl, ap, sym, ◌∙◌, Bool, true, false, ◌&&◌, ◌==◌, if◌then◌else◌,
  Bool-cases, inl, inr, arith,
}
use peanut_kernel.Paging.{
  Statics, Vm, set_entry, is_present, table_of, pml4_index, pdpt_index, pd_index, pt_index,
  through_pt, through_pd, through_pdpt, through_pml4,
}
use peanut_kernel.Paging.Values.{
  pt_value, pd_value, pd_value-link, pd_value-cong, link_value, link_value-cong, link_lem,
}
use peanut_kernel.Paging.Tree.{links_at, is_link, IsTree}

-- A link of a table, and where it leads.
pub record IsLink (level : ℕ → ℕ) (s : Vm) (t i child : ℕ) : Type 0 where
  pub link : is_link level s t i ≡ true
  pub leads : table_of (s.tables t i) ≡ child

module _ (k : Statics) (level : ℕ → ℕ) (s : Vm) (tree : IsTree k level s) (pt pt_i e : ℕ)
    (bottom : level pt ≡ 1) where
  abbrev written : Vm
  written = set_entry pt pt_i e s

  -- The tables of links are as they were.
  upper_entry : (a j : ℕ) → 2 ≤ level a → written.tables a j ≡ s.tables a j
  upper_entry a j h = elim (Bool-cases (a == pt)) [
    | inl at ↦
        absurd
          (let same : a ≡ pt = ground arith in let l : level a ≡ 1 = rw same bottom in omega arith)
    | inr ne ↦ rw ne refl
  ]

  pub written-IsTree : IsTree k level written
  written-IsTree = record {
    root = tree.root;
    child = λ a j link.
        let e = kept a j link in
        ap (λ x. suc (level (table_of x))) e
        ∙ tree.child a j (ap (links_at (level a)) (sym e) ∙ link);
    unique = λ a j b l link link' same.
        let e = kept a j link in
        let e' = kept b l link' in
        tree.unique a j b l (ap (links_at (level a)) (sym e) ∙ link)
          (ap (links_at (level b)) (sym e') ∙ link') (ap table_of (sym e) ∙ same ∙ ap table_of e');
    fresh = tree.fresh;
    aligned = tree.aligned;
  }
    where
      kept : (a j : ℕ) → is_link level written a j ≡ true → written.tables a j ≡ s.tables a j
      kept a j link = upper_entry a j (deep (level a) (written.tables a j) link)
        where
          deep : (l x : ℕ) → links_at l x ≡ true → 2 ≤ l
          deep l x h = ground arith

  -- One level up: the translation differs on the path to the table alone.
  module _ (l : ℕ) (deep : 2 ≤ l) (value : (ℕ → ℕ) → ℕ → ℕ)
      (cong : (f g : ℕ → ℕ) (x : ℕ)
        → (links_at l x ≡ true → f (table_of x) ≡ g (table_of x))
        → value f x ≡ value g x)
      (at_link : (f : ℕ → ℕ) (x : ℕ) → links_at l x ≡ true → value f x ≡ f (table_of x))
      (parent i child : ℕ) (path : IsLink level s parent i child) (new old : ℕ → ℕ) (hit : Bool)
      (result : ℕ)
      (below : (c : ℕ)
        → suc (level c) ≡ l
        → new c ≡ (if c == child && hit then result else old c)) where
    one_up :
        (q j : ℕ)
        → level q ≡ l
        → value new (written.tables q j)
          ≡ (if q == parent && (j == i && hit) then result else value old (s.tables q j))
    one_up q j here = elim (Bool-cases (q == parent && j == i)) [
      | inl on ↦
          let at : q ≡ parent = ground arith in
          let aj : j ≡ i = ground arith in
          let to : table_of (s.tables q j) ≡ child = rw (at, aj) (path.leads) in
          let l' : level parent ≡ l = ap level (sym at) ∙ here in
          let link : links_at l (s.tables q j) ≡ true =
            rw (at, aj) (ap (λ x. links_at x (s.tables parent i)) (sym l') ∙ path.link) in
          let c : suc (level child) ≡ l =
            ap (λ x. suc (level x)) (sym (path.leads)) ∙ tree.child parent i (path.link) ∙ l' in
          ap (value new) (upper_entry q j (omega arith))
          ∙ at_link new (s.tables q j) link
          ∙ ap new to
          ∙ below child c
          ∙ both (value old (s.tables q j)) (at_link old (s.tables q j) link ∙ ap old to) on
      | inr off ↦
          ap (value new) (upper_entry q j (omega arith))
          ∙ cong new old (s.tables q j) (λ link. aside link off)
          ∙ neither (value old (s.tables q j)) off
    ]
      where
        both :
            (v : ℕ)
            → v ≡ old child
            → (q == parent && j == i) ≡ true
            → (if child == child && hit then result else old child)
              ≡ (if q == parent && (j == i && hit) then result else v)
        both v h on = ground arith

        neither :
            (v : ℕ)
            → (q == parent && j == i) ≡ false
            → v ≡ (if q == parent && (j == i && hit) then result else v)
        neither v off = ground arith

        elsewhere : (c : ℕ) → c ≢ child → (if c == child && hit then result else old c) ≡ old c
        elsewhere c ne = elim (Bool-cases (c == child)) [
          | inl e ↦ absurd (ne (ground arith))
          | inr e ↦ rw e refl
        ]

        aside :
            links_at l (s.tables q j) ≡ true
            → (q == parent && j == i) ≡ false
            → new (table_of (s.tables q j)) ≡ old (table_of (s.tables q j))
        aside link off =
            let link' : is_link level s q j ≡ true =
              ap (λ x. links_at x (s.tables q j)) here ∙ link in
            let c : suc (level (table_of (s.tables q j))) ≡ l = tree.child q j link' ∙ here in
            below (table_of (s.tables q j)) c
            ∙ elsewhere (table_of (s.tables q j)) (λ e.
              let same = tree.unique q j parent i link' (path.link) (e ∙ sym (path.leads)) in
              let at = same.0 in let aj = same.1 in ground arith)

  -- The translation of every address after the write, on the path to the table.
  module _ (pml4_i pdpt pdpt_i pd pd_i : ℕ) (to_pdpt : IsLink level s (k.pml4) pml4_i pdpt)
      (to_pd : IsLink level s pdpt pdpt_i pd) (to_pt : IsLink level s pd pd_i pt) (a : ℕ) where
    at_pt :
        (q : ℕ)
        → through_pt written.tables a q
          ≡ (if q == pt && pt_index a == pt_i then pt_value a e else through_pt s.tables a q)
    at_pt q = elim (Bool-cases (q == pt && pt_index a == pt_i)) [
      | inl h ↦ rw h refl
      | inr h ↦ rw h refl
    ]

    at_pd :
        (q : ℕ)
        → level q ≡ 2
        → through_pd written.tables a q ≡ (
            if q == pd && (pd_index a == pd_i && pt_index a == pt_i)
            then pt_value a e
            else through_pd s.tables a q)
    at_pd q h =
        one_up 2 (omega arith) (pd_value a) (pd_value-cong a) pd_at pd pd_i pt to_pt
          (through_pt written.tables a) (through_pt s.tables a) (pt_index a == pt_i) (pt_value a e)
          (λ c l. at_pt c) q (pd_index a) h
      where
        pd_at : (f : ℕ → ℕ) (x : ℕ) → links_at 2 x ≡ true → pd_value a f x ≡ f (table_of x)
        pd_at f x link = pd_value-link a f x (ground arith) (ground arith)

    link_at : (l : ℕ) (f : ℕ → ℕ) (x : ℕ) → links_at l x ≡ true → link_value f x ≡ f (table_of x)
    link_at l f x link = let p : is_present x ≡ true = ground arith in rw p refl

    at_pdpt :
        (q : ℕ)
        → level q ≡ 3
        → through_pdpt written.tables a q ≡ (
            if q == pdpt && (pdpt_index a == pdpt_i && (pd_index a == pd_i && pt_index a == pt_i))
            then pt_value a e
            else through_pdpt s.tables a q)
    at_pdpt q h =
        one_up 3 (omega arith) link_value
          (λ f g x same. link_value-cong f g x (λ p. same (link_lem 3 x (omega arith) p)))
          (link_at 3) pdpt pdpt_i pd to_pd (through_pd written.tables a) (through_pd s.tables a)
          (pd_index a == pd_i && pt_index a == pt_i) (pt_value a e) (λ c l. at_pd c (omega arith)) q
          (pdpt_index a) h

    pub at_pml4 : through_pml4 written.tables a k.pml4 ≡ (
        if pml4_index a == pml4_i
          && (pdpt_index a == pdpt_i && (pd_index a == pd_i && pt_index a == pt_i))
        then pt_value a e
        else through_pml4 s.tables a k.pml4)
    at_pml4 =
        one_up 4 (omega arith) link_value
          (λ f g x same. link_value-cong f g x (λ p. same (link_lem 4 x (omega arith) p)))
          (link_at 4) (k.pml4) pml4_i pdpt to_pdpt (through_pdpt written.tables a)
          (through_pdpt s.tables a)
          (pdpt_index a == pdpt_i && (pd_index a == pd_i && pt_index a == pt_i)) (pt_value a e)
          (λ c l. at_pdpt c (omega arith)) k.pml4 (pml4_index a) tree.root
        ∙ root_hit (through_pml4 s.tables a k.pml4) (
            pml4_index a == pml4_i
            && (pdpt_index a == pdpt_i && (pd_index a == pd_i && pt_index a == pt_i)))
      where
        root_hit :
            (v : ℕ) (hit : Bool)
            → (if k.pml4 == k.pml4 && hit then pt_value a e else v)
              ≡ (if hit then pt_value a e else v)
        root_hit v hit = ground arith
