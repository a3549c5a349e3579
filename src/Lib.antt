-- ===== src/Lib.antt =====
-- Peanut Kernel: a model of the kernel's scheduler and storage stack, with proofs.
--
-- The kernel is one C program. A timer interrupt enters src/cpu/sched.c, which picks the next user
-- process of a fixed table; system calls, src/cpu/syscall.c, reach the file systems under src/fs, which
-- read sectors through the block layer, src/drivers/block/block.c, from the partitions that
-- src/fs/partition.c finds.
--
-- Which file models what:
--   Sched (src/cpu/sched.c): the record `Sched` holds the file's static variables, one function per C
--     function. Sched/Slots, Invariant and Operations say what a table is and how the operations change
--     it; RoundRobin and VirtualRuntime treat `choose_rr` and `choose_cfs`, Dispatch the timer interrupt,
--     Effects and Kill the other calls; Reach is the system as a step relation.
--   Block (src/drivers/block/block.c): a device is a pair of functions on the state of its driver.
--     The drivers themselves are parameters.
--   Partition (src/fs/partition.c): partition kinds and the scan of the boot record.
--   Fat32 (src/fs/fat32.c): Volume is `fat32_mount`, Cluster the allocation table and the transfers,
--     Entry the directory records, Directory the listings and the walk along a path, File the reads and
--     writes. Scans, Bounds, LongNames, Layout, Paths, ReadFile and WriteFile hold the proofs.
--   Chain: the loops over the clusters of a file that FAT and exFAT share; Chain/Read and Chain/Write
--     say what they do, for any reads and writes of clusters.
--   Exfat (src/fs/exfat.c): Volume is the mount and the clusters, Entry the sets of records of a
--     directory, Directory the listings and the walk along a path, File the reads and writes. Layout,
--     Bounds, Paths and Files hold the proofs.
--   Fat12 (src/fs/fat12.c): the floppy's root directory and the reading of its files; Bounds the proofs.
--   Iso9660 (src/fs/iso9660.c): the CD-ROM's directories and the reading of its files; Files and
--     Directories hold the proofs.
--   Initramfs (src/fs/initramfs.c): the search of the embedded archive, Files its proofs.
--   Pseudo: the pseudo files and what feeds them. Entropy (src/drivers/entropy.c), Ps2
--     (src/drivers/input/ps2.c), Devtmpfs (src/fs/devtmpfs.c), Vfs (src/fs/vfs.c and src/users.c) with
--     the texts in Names; one record `Kernel` holds the static variables of all five files. Filled,
--     Reading, Mouse and Paths hold the proofs.
--   Syscall (src/cpu/syscall.c): the record `System` holds the file's static variables with the parts of
--     the kernel that calls change, `Services` what they use. Descriptors is opening, reading, writing
--     and closing, Handler the other calls and `syscall_handler`, with one constructor of `Call` for each
--     number of src/abi.h. Loading, Invariant and Reach are about the state behind any calls, Isolation
--     about the descriptors that a call leaves alone, Reading, Opening, FatFile and Closing about single
--     calls and what they do one after another.
--   Memory (src/freelib/kalloc.c, src/freelib/slab.c, the pages of src/mm/vm.c): one record holds the
--     heap's blocks, the slabs' free lists and the next page. Heap is about the blocks, Overlap about
--     where heap and pages meet.
--   Paging (the page tables of src/mm/vm.c): the tables are a function of a table's address and an index.
--     Entries is about the bits of an entry, Tree says what tables that lead to one another are, Made,
--     Descend and Descent follow the way to a page's table and make what is missing of it, Values and
--     Write are about what one entry changes, Translate about `vm_map_page` and `vm_virt_to_phys`
--     together, Identity about `vm_init`.
--   Elf (src/programs/elf.c): Image reads a program file's headers and puts its segments into memory, Elf
--     finds the file and the interpreter it asks for, Stack is the stack a program begins with. Segments
--     and Scripts hold proofs.
--   Storage (src/storage.c): the search for the root volume at start-up. Volumes is about the volume of
--     one disk, Directories about the directories it must have, Mounting about the whole search.
--   Console (src/freelib/kstdio.c): how a number is printed.
--   Common: bytes, strings, lists and machine words, shared by all.
--
-- Representation. Numbers are natural numbers; a result that the C code cuts to 32 or 64 bits is cut with
-- `u32` or `u64`, and a 32-bit difference is `sub32`. A buffer is a list of bytes, and reading past its
-- end gives 0. An output array that the C code fills up to a count is the list of what was filled in.
-- A result of -1 is `none` or `false`. Pointers that the C code only checks for null are present.
--
-- Fuel. A cluster chain on a damaged disk may be cyclic, and the loops over its directories then need
-- not end; they run on fuel, one unit for each cluster, and the outer `none` is a loop that is still
-- running. So does the loop over an ISO 9660 directory, where one unit more than it has bytes is
-- enough, and the walk into directories, one unit for each name of the path and one more. The loops
-- over a file copy at least one byte for each cluster, so one unit more than there are bytes to read or
-- write is enough. The search of the archive moves on by at least 110 bytes a round where no size wraps
-- around. The loader calls itself for scripts and interpreters, which may need one another, and runs on
-- fuel too: one unit for each file, and `none` is a loader that is still going on. Everything else is
-- structural recursion.
--
-- Not modelled: the hardware drivers (ports, registers and rings; `ps2_init` and `ps2_get_char` among
-- them), the processor's set-up, the boot assembly, the video and the console's output, and ext2/3/4.
-- The page tables of src/mm/vm.c are apart from the other memory, as are the memory that the loader
-- fills, the heap's own blocks, and the bytes behind a descriptor, of which each has its own: what it
-- would do to files that kalloc gives out memory twice is not shown. To the search for the root volume, the disks and src/fs/extfs.c are parameters. To
-- the system calls, `kalloc`, src/fs/extfs.c, the loader and the network device are parameters (SYS_EXEC makes the process that the loader asks
-- for); their kernel has the network calls switched on, and what `kfree` does is left out. In the scheduler,
-- `idle_entry` and the acknowledgement of the interrupt controller are left out, and the process
-- table's rows are values: a frame is a list of words.
pub mod Block
pub mod Chain
pub mod Common
pub mod Console
pub mod Elf
pub mod Exfat
pub mod Fat12
pub mod Fat32
pub mod Initramfs
pub mod Iso9660
pub mod Memory
pub mod Paging
pub mod Partition
pub mod Pseudo
pub mod Sched
pub mod Storage
pub mod Syscall
