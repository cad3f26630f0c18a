-- ===== src/Lib.antt =====
-- BonfireOS, a small 64-bit kernel for the PC, in C.
--
-- The parts and how they interact. The timer interrupt reaches `scheduler_tick`, which goes round
-- the ring of processes; `process_create` takes a stack from the bump allocator and builds the
-- first frame on it. The other interrupts reach `idt_irq_handler`, which acknowledges them and
-- calls the keyboard's handler; the handler fills two rings, which the shell and the programs read.
-- The shell replaces the first word of a line by its alias before it reads the line as a command.
-- The games that the kernel hosts have a heap of their own, with a free list.
-- The text screen and the mouse are read and written by everything above them. The network has one
-- interface only, the loopback queue: what TCP and ICMP send is queued there, and `net_poll` takes
-- it from there and hands it to the same input routines again, until the queue is empty. The POSIX
-- layer gives programs descriptors, behind which lie files of the in-memory file system, the
-- keyboard or the screen. The desktop runs its games from the same timer and keyboard, and its editor
-- saves into the same files. FAT and exFAT volumes on the disk are a file system of their own, which the
-- shell reads and writes by names in their root directories.
--
-- The files and the code they model:
--   Base, Base/*          shared helpers: Boolean tests and lists over the native numbers, machine
--                         words, signed integers, and the contents of ring buffers (Base/Window)
--   Kernel/Heap           src/kernel/mm/heap.c
--   Kernel/Arch           src/kernel/arch/idt.c and irq.c
--   Kernel/Process, /*    src/kernel/process/process.c, include/kernel/process.h, and
--                         src/kernel/arch/context_switch.asm: the code, the first stack and what
--                         the switch takes from it (Stack), the ring (Ring), creation (Create), ticks (Schedule)
--   Drivers/Keyboard, /*  src/kernel/drivers/keyboard.c, and its two rings as queues (Queue)
--   Drivers/Vga, /*       src/kernel/drivers/vga.c, the screen (Screen) and numerals (Decimal)
--   Drivers/Mouse         src/kernel/drivers/mouse.c
--   Net/Checksum, /*      src/kernel/net/net_checksum.c, and tcp_cksum of net_tcp.c
--   Net/Loopback, /*      src/kernel/net/net_loopback.c, and its ring as a queue (Queue)
--   Net/Ipv4, Net/Input   src/kernel/net/net_ipv4.c: sending, and receiving
--   Net/Tcp, /*           src/kernel/net/net_tcp.c: the code, its branches (Dispatch), the state
--                         machine (States), the receive buffer (Data)
--   Net/Stack, /*         src/kernel/net/net.c, a measure of the work that is left
--                         (Energy), the end of polls (Polling), and ping (Ping)
--   Shell/Alias, /*       src/kernel/shell/alias.c: the code, the table (Table), the sizes of its
--                         arrays (Bounds), and the expansion of a line (Expand)
--   Shell/Commands, /*    src/kernel/shell/shell.c: its commands, and names of files on disks (FileNames)
--   Shell/Loop, /*        its loop of keys: lines (Typing), and the text of a new file (Editing)
--   Games/Malloc, /*      src/kernel/doom_host/doom_malloc.c without realloc, and the bytes of its
--                         free list (Total)
--   Fs/Path, /*           src/kernel/fs/fs.c: normal forms of paths (Normal) and last names (Names)
--   Fs/Tree, /*           its tables and the lookup of names and paths (Lookup)
--   Fs/Ops, /*            its operations: what is read back (RoundTrip), the tables as a tree
--                         (Invariant), the current directory (Cwd), where new rows go (Places)
--   Posix, /*             src/kernel/posix/posix.c: the table (Table), what open and close do with
--                         descriptors (Descriptors), and reads and writes through them (Files)
--   Gui/Snake, /*         src/kernel/gui/gui.c: the game of snake, and its course (Play)
--   Gui/Mines, /*         minesweeper: the board (Board), what is revealed (Reveal), that all of it is
--                         (Closed), the placing of the mines (Placing), the generator (Draws), that it
--                         draws every cell (Ends), the end of the placing (Rounds), the first move (First)
--   Gui/Notepad, /*       the text editor, typing and saving (Edit)
--   Fat/Disk              the disk as a parameter, and numbers in its sectors
--   Fat/Names, /*         src/kernel/fs/fat.c: names, and when one matches (Match)
--   Fat/Volume, Fat/Mount, /*  its static variables, the ways to mount a volume, and the four functions
--                         that others call; the kind of volume that is left (Kinds), files read back (ReadBack)
--   Fat/Table, /*         the entries of the FAT on FAT12 and FAT16: what a write leaves in the sectors
--                         (Entries, Store), what is put is got (RoundTrip)
--   Fat/Files, /*         chains of clusters: within a cluster (Sectors), along a chain (RoundTrip)
--   Fat/Root              the root directory of FAT12 and FAT16
--   Fat/Exfat, /*         exFAT: directory entries and FAT entries, the bitmap (Bitmap, with RoundTrip
--                         and Grab), finding (Root), contents (Files), writing (Insert, with Checksum)
--   */Tests               the theorems at concrete inputs
--
-- The state of a part, the static variables of its C file, is a record with the variables' names;
-- an operation is a function on that record with the C function's name. A buffer is a function from
-- indices, or a list where only its contents matter; a pointer to a process is the index of its
-- slot, and a null pointer is `none`. Machine words are natural numbers with the wrap-around
-- written out. Ports are arguments where they are read, and a list where they are written.
--
-- Bounds and fuel. `fold` of the checksums has 3 rounds of fuel: two bring a 32-bit sum below 2^16.
-- `net_poll` has 36: at most 15 datagrams wait, each of them weighs at most 2, and the connections
-- can cause 4 more, and every datagram taken lowers this sum. The digits of `vga_putdec` have 10
-- rounds, as many as a 32-bit number has digits.
-- The walk from a directory up to the root has as many rounds as there are directories, since each
-- lies behind its parent. `ms_expand` has 82 levels, one more than there are cells, since each call
-- inside a call has one hidden cell less. The number of rounds in which the generator places the mines
-- is a parameter; some number is enough, since two draws at a time lead through all states of one parity, and
-- a free cell is drawn from one of these. On a FAT volume the contents of a file are read and written
-- with as many rounds as there are bytes, since each round along the chain moves one or more; where a
-- chain is walked without such a count, the rounds are a parameter, or 65536 on FAT12 and FAT16, more than
-- there are clusters. What lies behind the terminator of a string reads as 0.
-- `resolve_file_path` points into an array that is dead when `fs_read` reads a name through the pointer: the
-- parameter `dead` of `fs_read`, `dead_name` in the shell, gives what is read there of a name. The memory
-- behind the sector buffers of fat.c belongs to the disk's image, and every call may change it.
--
-- Not modelled: assembly but for the switch, port dialogues that set up the hardware (irq_init, timer_init,
-- mouse_init, ata.c, video_mode13.c) and the halt loops, since they are instructions to devices; the
-- rest of the hosts of games and of Lynx, mostly glue to programs outside the repository; and,
-- though they are code of the kernel's own, the desktop of the GUI with its other programs. The shell
-- is built with GUI and network; the programs that it starts are a parameter. Of fat.c the branches for
-- entries across two sectors of an exFAT volume are left out, since entries stand at multiples of their
-- size. The disk driver is a parameter of fat.c with what is documented of it: a sector that has been
-- written reads back, and other sectors stay as they are.
pub mod Base
pub mod Kernel
pub mod Drivers
pub mod Fs
pub mod Fat
pub mod Posix
pub mod Gui
pub mod Games
pub mod Net
pub mod Shell
