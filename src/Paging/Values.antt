-- ===== src/Paging/Values.antt =====
-- `vm_virt_to_phys` of src/mm/vm.c, entry by entry.
use peanut_kernel.Common.{
  ℕ, ◌≤◌, ◌≡◌, refl, sym, ◌∙◌, true, false, ◌==◌, leb, bit_and, bit_or, if◌then◌else◌, Bool-cases,
  inl, inr, arith,
}
use peanut_kernel.Paging.{is_present, is_huge, table_of}
use peanut_kernel.Paging.Tree.{links_at}

-- What a translation makes of an entry: `below` is what it makes of the table the entry leads to.
abbrev pub pt_value : ℕ → ℕ → ℕ
pt_value virt pte =
    if is_present pte then bit_or (bit_and pte 0xFFFFFFFFFFFFF000) (bit_and virt 0xFFF) else 0

abbrev pub pd_value : ℕ → (ℕ → ℕ) → ℕ → ℕ
pd_value virt below pde =
    if is_present pde
    then if is_huge pde
      then bit_or (bit_and pde 0xFFFFFFFFFFE00000) (bit_and virt 0x1FFFFF)
      else below (table_of pde)
    else 0

abbrev pub link_value : (ℕ → ℕ) → ℕ → ℕ
link_value below e = if is_present e then below (table_of e) else 0

pub pd_value-absent :
    (virt : ℕ) (below : ℕ → ℕ) (e : ℕ) → is_present e ≡ false → pd_value virt below e ≡ 0
pd_value-absent virt below e h = rw h refl

pub pd_value-link :
    (virt : ℕ) (below : ℕ → ℕ) (e : ℕ)
    → is_present e ≡ true
    → is_huge e ≡ false
    → pd_value virt below e ≡ below (table_of e)
pd_value-link virt below e h g = rw (h, g) refl

pub pd_value-cong :
    (virt : ℕ) (below below' : ℕ → ℕ) (e : ℕ)
    → (links_at 2 e ≡ true → below (table_of e) ≡ below' (table_of e))
    → pd_value virt below e ≡ pd_value virt below' e
pd_value-cong virt below below' e same = elim (Bool-cases (is_present e)) [
  | inr absent ↦ pd_value-absent virt below e absent ∙ sym (pd_value-absent virt below' e absent)
  | inl present ↦ elim (Bool-cases (is_huge e)) [
    | inl huge ↦ rw huge refl
    | inr small ↦
        pd_value-link virt below e present small
        ∙ same (rw (present, small) refl)
        ∙ sym (pd_value-link virt below' e present small)
  ]
]

pub link_value-cong :
    (below below' : ℕ → ℕ) (e : ℕ)
    → (is_present e ≡ true → below (table_of e) ≡ below' (table_of e))
    → link_value below e ≡ link_value below' e
link_value-cong below below' e same = elim (Bool-cases (is_present e)) [
  | inr absent ↦ rw absent refl
  | inl present ↦ rw present (same present)
]

pub link_lem : (l e : ℕ) → 3 ≤ l → is_present e ≡ true → links_at l e ≡ true
link_lem l e h present =
    let deep : leb 2 l ≡ true = ground arith in
    let not_pd : (l == 2) ≡ false = ground arith in rw (deep, not_pd, present) refl
