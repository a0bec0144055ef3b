-- ===== src/Tests/OfKernel.antt =====
-- An empty interrupt table, a kernel with one task, and an ELF file of two segments.
use own_kernel.Prelude.{
  ℕ, ◌+◌, ◌*◌, ◌≡◌, refl, arith, none, some, ◌==◌, ltb, if◌then◌else◌, get_or, [], ◌∷◌,
}
use own_kernel.Prelude.Int.{all_ok}
use own_kernel.Interrupts.{comes_back, is_stuck, IdtDesc, Callback, Idt, idt_init}
use own_kernel.Interrupts.Dispatch.{target, idt_init-target}
use own_kernel.Elf.{ElfFile, elf_process_pheaders}
use own_kernel.Elf.Segments.{Covers, elf_process_pheaders-Covers}

abbrev no_descriptor : IdtDesc
no_descriptor = record { offset_1 = 0; selector = 0; zero_byte = 0; type_attr = 0; offset_2 = 0 }

abbrev no_handlers : Idt ℕ
no_handlers = record {
  idt_descriptors = λ _. no_descriptor;
  interrupt_callbacks = λ _. none;
  isr80h_commands = λ _. none;
}

abbrev entry_points : ℕ → ℕ
entry_points n = 0x100000 + 16 * n

abbrev stop : Callback ℕ
stop frame s = is_stuck

abbrev go_on : Callback ℕ
go_on frame s = comes_back s

idt_init-target_example :
    (target ((idt_init entry_points 0x200000 stop go_on no_handlers).idt_descriptors 14)
      ≡ (if 14 == 0x80 then 0x200000 else entry_points 14))
    × (((idt_init entry_points 0x200000 stop go_on no_handlers).idt_descriptors 14).type_attr
        ≡ 0xEE)
    × ((idt_init entry_points 0x200000 stop go_on no_handlers).interrupt_callbacks 14
        ≡ (if ltb 14 0x20 then some stop else if 14 == 0x20 then some go_on else none))
idt_init-target_example =
    idt_init-target entry_points 0x200000 stop go_on no_handlers 14 (omega arith)

abbrev file : ElfFile
file = record {
  elf_memory = 0x1000000;
  header = record {
    e_ident = λ i. get_or (0x7F ∷ b'E' ∷ b'L' ∷ b'F' ∷ 1 ∷ 1 ∷ []) i 0;
    e_type = 2;
    e_entry = 0x400000;
    e_phoff = 52;
    e_shoff = 0;
    e_phnum = 2;
    e_shstrndx = 0;
  };
  program_header = λ i. record {
    p_type = 1;
    p_offset = 0x1000 * (i + 1);
    p_vaddr = 0x400000 + 0x1000 * i;
    p_filesz = 0x800;
    p_memsz = 0x900;
    p_flags = 5;
  };
  virtual_base_address = 0;
  virtual_end_address = 0;
  physical_base_address = 0;
  physical_end_address = 0;
}

elf_process_pheaders-Covers_example :
    (file' : ElfFile) × (elf_process_pheaders file ≡ (all_ok, file'))
    × Covers file' 2
    × (file'.program_header ≡ file.program_header)
    × (file'.elf_memory ≡ 0x1000000)
elf_process_pheaders-Covers_example =
    elf_process_pheaders-Covers file refl
      λ k bound load. record { nonzero = omega arith; fits = omega arith; phys_fits = omega arith }
