-- ===== src/Lib.antt =====
-- own-kernel, a 32-bit x86 kernel in C: its allocator, paging, strings, disk, files, terminal,
-- keyboard, tasks and interrupts as functions on explicit states, and what holds of them.
--
-- A C function is a definition with its name; a loop is a definition of its own, by recursion on the
-- rounds that are left. State in memory or in static variables is a record that a function takes and
-- returns. A `uint32_t` that can wrap has its wrap-around written out, a result with negative error
-- codes is a ℤ, and a null pointer or a panic is `none`, as the comments at the definitions say.
--
-- - Prelude: Boolean tests, updates of an array, lists, results, and lemmas on bit masks.
-- - Memory: src/memory/memory.c. Memory is a function from addresses to bytes.
-- - Strings: src/string/string.c, on such a memory; Strings.Text relates a pointer to its text.
-- - Heap: src/memory/heap/heap.c, the block allocator behind kernel_malloc. Search is the search for
--   free blocks, Marks the two marking loops, Alloc, Grants, Single, Room and Disjoint their
--   composition.
-- - KernelHeap: src/memory/heap/kernelHeap.c, that allocator at the kernel's addresses.
-- - Paging: src/memory/paging/paging.c. Directories and tables are words of one memory; Tables is
--   about one entry and Mapping about ranges; Chunks has the directories that the heap holds, Fill
--   and Identity are about the one that paging_new_4gb makes.
-- - Gdt: src/gdt/gdt.c and the segment table of src/kernel.c.
-- - Disk: src/disk/disk.c and streamer.c. The drive is a parameter that answers the bytes put into
--   its ports; Disk.Image assumes that it holds an image.
-- - PathParser: src/fileSystem/pathParser.c, with the linked list of parts as an array of cells.
-- - Files: src/fileSystem/file.c, the descriptors over any file system, which is the record of the
--   functions that the code calls through `struct filesystem`. It uses PathParser and Disk.
-- - Elf: src/loader/formats/elfloader.c and elf.c, from headers that have been read.
-- - Terminal: the cursor and the screen of src/kernel.c. It uses Strings for print.
-- - Keyboard: src/keyboard/keyboard.c, the key buffer, and src/keyboard/classic.c.
-- - Task: src/task/task.c, the doubly linked list of tasks on a heap, and the scheduler; Rounds is
--   about its rounds.
-- - Interrupts: src/idt/idt.c, the interrupt and system call tables. It uses Task.
-- - Fat16: src/fileSystem/fat/fat16.c, over the streams of Disk. Clusters has the chains of clusters
--   and the reads along them, Names the text of a name, Directory the state of the file system, the
--   counts and the root directory, Items the items that are allocated and found, and Calls the
--   functions that file.c calls; Chain, Read, Returns, Counting and Mounting are about them. A chain
--   in Chain is the one that the source goes through, which has its entries at other places than FAT16
--   and ends at other marks.
-- - Process: src/task/process.c. The state joins the heap, memory, page tables, tasks and ELF files;
--   Life has the arguments, the mapping of a program and the end of a process, Program and Load the
--   loading of a program through Files, with elf_load and task_new; Table, Allocations and Ending are
--   about the table of allocations.
-- - Spaces: src/task/task.c, the stack items and the texts that the kernel reads from the pages of a
--   task. How the processor translates an address is a parameter. Translated and Copy are about the
--   copy of a text.
-- - Isr80h: src/isr80h, the system calls. The state joins Process, Files, the terminal and the key
--   buffers; Programs has the calls that start and end programs, Commands the registration in the
--   tables of Interrupts; Dispatch and Printing are about them.
-- - Start: src/kernel.c. The state of the whole kernel, the callbacks of the interrupts and the
--   keyboards; Volume makes Fat16 the file system that file.c calls; Main is kernel_main, Ready is
--   about what it has set up before a program is loaded, and Keys about a key from its interrupt to
--   the buffer of a process.
-- - Stdlib: programs/stdlib/src. Numbers is itoa, Line the line that is typed, Tokens strtok and the
--   command parser, Printf printf; Line.Editing, Line.Bounds, Tokens.Words and Printf.Pieces are
--   about them.
-- - Tests: concrete inputs for the theorems.
--
-- Fuel: strlen and print take the number of bytes that they may look at, disk_stream_read the number
-- of sectors that it may read; more than the length is enough. The path parser's loops have 108
-- rounds, the length that it accepts. The loops of fat16.c that end only at a byte on the disk or in
-- memory have a fuel of their own, a read has its length and one more. A linked list of arguments
-- takes its length, printf the length of its format and one more. Every other loop has the bound of the source.
--
-- Not modelled: the programs under programs/shell and programs/blank, which are loops of system calls,
-- the assembly, and what is written to the ports of the keyboard and of the interrupt controller.
-- Streams, descriptors of open files and parts of paths are made without the heap, their
-- kernel_zalloc taken to succeed.
pub mod Prelude
pub mod Memory
pub mod Strings
pub mod Heap
pub mod KernelHeap
pub mod Paging
pub mod Gdt
pub mod Disk
pub mod PathParser
pub mod Files
pub mod Elf
pub mod Terminal
pub mod Keyboard
pub mod Task
pub mod Interrupts
pub mod Fat16
pub mod Process
pub mod Spaces
pub mod Isr80h
pub mod Start
pub mod Stdlib
pub mod Tests
