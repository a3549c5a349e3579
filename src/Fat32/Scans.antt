-- ===== src/Fat32/Scans.antt =====
-- src/fs/fat32.c: the records of a directory against the arrays for entries and names.
use peanut_kernel.Common.{
  ℕ, zero, suc, ◌+◌, ◌-◌, ◌≤◌, ◌<◌, ◌≡◌, refl, List, [], ◌∷◌, ◌++◌, arith, length, length-append,
  length-copy_chars, drop, c_string, Bool-cases, inl, inr, ◌⊎◌,
}
use peanut_kernel.Fat32.Entry.{
  Fat32DirEntry, fat32_max_name, is_long_name, Parsed, end_of_directory, skipped, entry,
  parse_entry, until_space, extension, make_short_name, clear_lfn, parse_lfn_entry, with_long_name,
  lfn_after,
}
use peanut_kernel.Fat32.Directory.{Scan, ended, more, add_entry, scan_records}

length-c_string : (cs : List ℕ) → length (c_string cs) ≤ length cs
unfolding c_string
length-c_string [] = omega arith
length-c_string (c ∷ cs) = ground (arith, length-c_string cs)

length-until_space : (raw : List ℕ) (i left : ℕ) → length (until_space raw i left) ≤ left
unfolding until_space
length-until_space raw i zero = omega arith
length-until_space raw i (suc left) = ground (arith, length-until_space raw (i + 1) left)

length-extension : (raw : List ℕ) → length (extension raw) ≤ 4
unfolding extension
length-extension raw = ground (arith, length-until_space raw 8 3)

length-c_string-append :
    (base ext : List ℕ) → length base ≤ 8 → length ext ≤ 4 → length (c_string (base ++ ext)) ≤ 12
length-c_string-append base ext p q =
    omega (arith, length-c_string (base ++ ext), length-append {0} base ext)

-- A short name has at most 12 characters.
pub length-make_short_name : (raw : List ℕ) → length (make_short_name raw) ≤ 12
unfolding make_short_name
length-make_short_name raw =
    length-c_string-append (until_space raw 0 8) (extension raw) (length-until_space raw 0 8)
      (length-extension raw)

abbrev pub NameFits : Fat32DirEntry → Type 0
NameFits e = length e.name < fat32_max_name

abbrev pub AllFit : List Fat32DirEntry → Type 0
AllFit [] = Unit
AllFit (e ∷ es) = NameFits e × AllFit es

AllFit-append : (es fs : List Fat32DirEntry) → AllFit es → AllFit fs → AllFit (es ++ fs)
AllFit-append [] fs p q = q
AllFit-append (e ∷ es) fs p q = (p.0, AllFit-append es fs p.1 q)

abbrev pub ScanFits : ℕ → Scan → Type 0
ScanFits room (ended es) = (length es ≤ room) × AllFit es
ScanFits room (more lfn es) = (length es ≤ room) × AllFit es

parse_entry-NameFits : (raw : List ℕ) (e : Fat32DirEntry) → parse_entry raw ≡ entry e → NameFits e
unfolding parse_entry
parse_entry-NameFits raw e h = ground (arith, length-make_short_name raw)

with_long_name-NameFits :
    (lfn : List ℕ) (e : Fat32DirEntry) → NameFits e → NameFits (with_long_name lfn e)
unfolding with_long_name
with_long_name-NameFits lfn e h = ground (arith, length-copy_chars lfn 63)

add_entry-ScanFits :
    (room : ℕ) (e : Fat32DirEntry) (scan : Scan)
    → NameFits e
    → ScanFits room scan
    → ScanFits (suc room) (add_entry e scan)
add_entry-ScanFits room e (ended es) p q = (omega arith, (p, q.1))
add_entry-ScanFits room e (more lfn es) p q = (omega arith, (p, q.1))

Parsed-cases :
    (p : Parsed) → (p ≡ end_of_directory) ⊎ ((p ≡ skipped) ⊎ ((e : Fat32DirEntry) × (p ≡ entry e)))
Parsed-cases end_of_directory = inl refl
Parsed-cases skipped = inr (inl refl)
Parsed-cases (entry e) = inr (inr (e, refl))

pub scan_records-ScanFits :
    (buffer : List ℕ) (left off room : ℕ) (lfn : List ℕ)
    → ScanFits room (scan_records buffer left off room lfn)
unfolding scan_records
scan_records-ScanFits buffer zero off room lfn = (omega arith, tt)
scan_records-ScanFits buffer (suc left) off zero lfn = (omega arith, tt)
scan_records-ScanFits buffer (suc left) off (suc room) lfn =
    elim (Bool-cases (is_long_name (drop off buffer))) [
      | inl long ↦
          rw (long, scan_records)
            (scan_records-ScanFits buffer left (off + 32) (suc room)
              (parse_lfn_entry (drop off buffer) lfn fat32_max_name))
      | inr short ↦ elim (Parsed-cases (parse_entry (drop off buffer))) [
        | inl e ↦ rw (short, e, scan_records) (omega arith, tt)
        | inr (inl e) ↦
            rw (short, e, scan_records)
              (scan_records-ScanFits buffer left (off + 32) (suc room) (clear_lfn lfn))
        | inr (inr (x, e)) ↦
            rw (short, e, scan_records)
              (add_entry-ScanFits room (with_long_name lfn x) _
                (with_long_name-NameFits lfn x (parse_entry-NameFits (drop off buffer) x e))
                (scan_records-ScanFits buffer left (off + 32) room (lfn_after lfn)))
      ]
    ]

-- At most `room` entries, each with a name that fits.
abbrev pub Fits : ℕ → List Fat32DirEntry → Type 0
Fits room es = (length es ≤ room) × AllFit es

pub append-Fits :
    (room : ℕ) (es fs : List Fat32DirEntry)
    → Fits room es
    → Fits (room - length es) fs
    → Fits room (es ++ fs)
append-Fits room es fs p q = (omega (arith, length-append {0} es fs), AllFit-append es fs p.1 q.1)

-- The two outcomes of a scan, with their bounds.
pub Scan-cases :
    (room : ℕ) (scan : Scan)
    → ScanFits room scan
    → ((es : List Fat32DirEntry) × (scan ≡ ended es) × Fits room es)
      ⊎ ((lfn : List ℕ) × (es : List Fat32DirEntry) × (scan ≡ more lfn es) × Fits room es)
Scan-cases room (ended es) h = inl (es, refl, h)
Scan-cases room (more lfn es) h = inr (lfn, es, refl, h)
