-- ===== src/Elf/Segments.antt =====
-- The range of addresses that a loaded file takes.
use own_kernel.Prelude.{
  ℕ, zero, suc, ◌+◌, ◌^◌, ◌≤◌, ◌<◌, ◌≡◌, ◌≢◌, refl, ◌⊎◌, inl, inr, Bool-cases, arith, ◌==◌,
}
use own_kernel.Prelude.Int.{all_ok, invalid_format_error}
use own_kernel.Elf.{
  ProgramHeader, ElfFile, elf_valid_signature, elf_valid_class, elf_valid_encoding,
  elf_has_program_header, elf_validate_loaded, is_lower, elf_process_phdr_pt_load,
  elf_process_pheader, pheaders_loop, elf_process_pheaders, elf_process_loaded,
}

abbrev pub IsLoad : ProgramHeader → Type 0
IsLoad p = p.p_type ≡ 1

-- A segment lies at a virtual address other than 0 and ends below 4 GB, in memory as in the file.
pub record IsSegment (memory : ℕ) (p : ProgramHeader) : Type 0 where
  pub nonzero : 0 < p.p_vaddr
  pub fits : p.p_vaddr + p.p_filesz < 2 ^ 32
  pub phys_fits : memory + p.p_offset + p.p_filesz < 2 ^ 32

-- The headers before `i` that are loaded lie in the range, and its base is the start of one of them,
-- with the physical base at the bytes of that one.
pub record Covers (file : ElfFile) (i : ℕ) : Type 0 where
  pub inside :
      (k : ℕ)
      → k < i
      → IsLoad (file.program_header k)
      → (0 < file.virtual_base_address)
        × (file.virtual_base_address ≤ (file.program_header k).p_vaddr)
        × ((file.program_header k).p_vaddr + (file.program_header k).p_filesz
            ≤ file.virtual_end_address)
  pub base_of :
      (file.virtual_base_address ≡ 0)
      ⊎ ((k : ℕ) × (k < i)
          × IsLoad (file.program_header k)
          × (file.virtual_base_address ≡ (file.program_header k).p_vaddr)
          × (file.physical_base_address ≡ file.elf_memory + (file.program_header k).p_offset))

-- One more loaded header extends the range.
pt_load-Covers :
    (file : ElfFile) (i : ℕ)
    → Covers file i
    → IsLoad (file.program_header i)
    → IsSegment file.elf_memory (file.program_header i)
    → Covers (elf_process_phdr_pt_load file (file.program_header i)).1 (i + 1)
unfolding elf_process_phdr_pt_load
pt_load-Covers file i covers load segment = record {
  inside = λ k bound is_load. elim (Bool-cases (k == i)) [
    | inl same ↦
        let e : k ≡ i = ground arith in rw e (ground (arith, segment.nonzero, segment.fits))
    | inr other ↦
        ground (arith, covers.inside k (ground arith) is_load, segment.nonzero, segment.fits)
  ];
  base_of = elim (Bool-cases (is_lower (file.program_header i) file)) [
    | inl lower ↦ inr (i, omega arith, load, ground arith, ground (arith, segment.phys_fits))
    | inr higher ↦ elim covers.base_of [
      | inl unset ↦ absurd (ground arith)
      | inr (k, bound, is_load, base, phys) ↦
          inr (k, omega arith, is_load, ground arith, ground arith)
    ]
  ];
}

Covers-suc :
    (file : ElfFile) (i : ℕ)
    → Covers file i
    → (file.program_header i).p_type ≢ 1
    → Covers file (i + 1)
Covers-suc file i covers other = record {
  inside = λ k bound is_load. elim (Bool-cases (k == i)) [
    | inl same ↦ let e : k ≡ i = ground arith in absurd (other (rw e at is_load))
    | inr before ↦ covers.inside k (ground arith) is_load
  ];
  base_of = elim covers.base_of [
    | inl unset ↦ inl unset
    | inr (k, bound, load, base, phys) ↦ inr (k, omega arith, load, base, phys)
  ];
}

pheaders_loop-Covers :
    (n i : ℕ) (file : ElfFile)
    → Covers file i
    → ((k : ℕ)
        → k < i + n
        → IsLoad (file.program_header k)
        → IsSegment file.elf_memory (file.program_header k))
    → (file' : ElfFile) × (pheaders_loop n i all_ok file ≡ (all_ok, file'))
      × Covers file' (i + n)
      × (file'.program_header ≡ file.program_header)
      × (file'.elf_memory ≡ file.elf_memory)
unfolding pheaders_loop elf_process_pheader elf_process_phdr_pt_load
pheaders_loop-Covers zero i file covers segments =
    (file, refl, (let e : i + 0 ≡ i = omega arith in rw e covers), refl, refl)
pheaders_loop-Covers (suc n) i file covers segments =
    let e : i + suc n ≡ i + 1 + n = omega arith in
    elim (Bool-cases ((file.program_header i).p_type == 1)) [
      | inl load ↦
          let is_load : IsLoad (file.program_header i) = ground arith in
          rw (load, e)
            (pheaders_loop-Covers n (i + 1)
              (elf_process_phdr_pt_load file (file.program_header i)).1
              (pt_load-Covers file i covers is_load (segments i (omega arith) is_load))
              (λ k bound. segments k (omega arith)))
      | inr other ↦
          rw (other, e)
            (pheaders_loop-Covers n (i + 1) file (Covers-suc file i covers (ground arith))
              (λ k bound. segments k (omega arith)))
    ]

-- From an unset base, and if the loaded headers are segments, the loop over the program headers
-- succeeds, and the range that it leaves holds every loaded segment; the base is the start of one
-- of them, and its physical address is that one's place in the file, or the base is unset.
pub elf_process_pheaders-Covers :
    (file : ElfFile)
    → file.virtual_base_address ≡ 0
    → ((k : ℕ)
        → k < file.header.e_phnum
        → IsLoad (file.program_header k)
        → IsSegment file.elf_memory (file.program_header k))
    → (file' : ElfFile) × (elf_process_pheaders file ≡ (all_ok, file'))
      × Covers file' file.header.e_phnum
      × (file'.program_header ≡ file.program_header)
      × (file'.elf_memory ≡ file.elf_memory)
unfolding elf_process_pheaders
elf_process_pheaders-Covers file fresh segments =
    let e : 0 + file.header.e_phnum ≡ file.header.e_phnum = omega arith in
    let (file', done, covers, headers, memory) =
      pheaders_loop-Covers file.header.e_phnum 0 file
        (record { inside = λ k bound is_load. absurd (omega arith); base_of = inl fresh })
        (λ k bound. segments k (omega arith)) in
    (file', done, rw e at covers, headers, memory)

-- A file without the signature, of another class or byte order, or without program headers is
-- refused, and its range is not touched.
pub elf_process_loaded-invalid :
    (file : ElfFile)
    → (file.header.e_ident 0 ≢ 0x7F)
      ⊎ (file.header.e_ident 1 ≢ b'E')
      ⊎ (file.header.e_ident 2 ≢ b'L')
      ⊎ (file.header.e_ident 3 ≢ b'F')
      ⊎ (1 < file.header.e_ident 4)
      ⊎ (1 < file.header.e_ident 5)
      ⊎ (file.header.e_phoff ≡ 0)
    → elf_process_loaded file ≡ (invalid_format_error, file)
unfolding elf_process_loaded elf_validate_loaded elf_valid_signature elf_valid_class
    elf_valid_encoding elf_has_program_header
elf_process_loaded-invalid file bad = ground arith
