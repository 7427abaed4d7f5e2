-- ===== src/Lib.antt =====
-- Sistemas Operativos: the course's four projects, of which this library models the file system
-- 4-fs, the kernel 3-sched (its memory, environments, scheduler and system calls), the shell 2-shell
-- and the programs primes and xargs of 1-fork.
--
-- 4-fs is a FUSE file system, fisopfs, that keeps a table of 64 inodes in memory and saves it as one
-- image in a file when it is unmounted. FUSE calls one operation at a time; an operation finds an
-- inode by the path that is stored in it, and changes the table. Paths from the repository's root:
--
--   4-fs/def.h       Fs/State: `struct inode` and `struct super_block` as records, whose char arrays
--                    are lists of bytes and whose table is a function of the index; the limits; what
--                    an operation returns (`done` with a result and a table, or `fault` where the
--                    code leaves an array); and Host, what an operation takes from the system: the
--                    caller's ids, the clock, and whether malloc succeeds.
--   <string.h>       Fs/Strings: strncpy, strrchr and the string in an array, as documented.
--   4-fs/fs_utils.c  Fs/Search: get_parent_dir, get_file_name, the searches of the table.
--                    Fs/Mount: write_persistence, read_persistence.
--   4-fs/fisopfs.c   Fs/Create: set_inode_in_superblock, new_inode and the operations create, mkdir,
--                    rmdir, unlink, getattr, readdir and utimens.
--                    Fs/Content: read, write and truncate.
--                    Fs/Links: symlink, readlink and link.
--                    Fs/Mount: create_root, init and destroy, and main's handling of --filedisk.
--                    Fs/Calls: the table `operations` as a data type of calls and `exec`.
--
-- Fs/Tree says when a table is well formed and Fs/Calls/Reach which tables are reached. A loop over
-- the table is `first` of Common/Loop, the least index that passes a test among a number of indices,
-- which is the number of iterations that the source's `for` allows; so no loop needs other fuel. The
-- file of the disk is a list of bytes, how the table lies in memory is a parameter (Layout), and each C
-- library call has a result. Of the strings of `fisopfs_link`, which copies what lies behind them, a
-- record (Tails) says how far the objects go that hold them.
--
-- 3-sched is the JOS kernel with the scheduler of the course work. One processor is modelled, which
-- holds the kernel's lock: the table of 1024 environments as a function of the index, the current
-- environment as an index, and the scheduler's statistics. Ids are 32-bit patterns, and counters are
-- numbers whose overflow is undefined where the source has an int.
--
--   3-sched/inc/env.h       Kern/Env: `struct Env` with the saved registers, ENVX, the states.
--   3-sched/inc/mmu.h       Kern/Words: page numbers, table indices, the flags of an entry, with the
--                           layout of inc/memlayout.h and the roundings of inc/types.h.
--   3-sched/kern/pmap.c     Kern/Pmap: boot_alloc, page_init, page_alloc, page_free, page_decref,
--                           pgdir_walk, boot_map_region, page_insert, page_lookup, page_remove,
--                           mmio_map_region and user_mem_check. Memory is a word for each page and
--                           index; a page, a table and a directory are named by the page's number.
--                           Kern/Pmap/Pool reads the free list as a stack of pages and
--                           Kern/Pmap/View an address space as a map from addresses to words.
--   3-sched/kern/env.c      Kern/Env: env_init, envid2env, the id that env_alloc gives, and env_run;
--                           Kern/Env/Pool reads env_free_list as a list of environments.
--                           Kern/Machine, with memory: env_setup_vm, env_alloc, region_alloc,
--                           env_free, env_destroy, and user_mem_assert of pmap.c.
--   3-sched/kern/sched.c    Kern/Sched: both variants of sched_yield (SCHED_ROUND_ROBIN and
--                           SCHED_PRIORITIES), boost_all_envs, add_counts_to_sched and sched_halt.
--   3-sched/kern/syscall.c  Kern/Syscall: every call and `syscall`: the priorities in Kern/Syscall,
--                           environments in Envs, pages in Pages, messages in Ipc, the dispatch in
--                           Dispatch. The scheduler of the build is an argument, and so is what
--                           cons_getc reads.
--   3-sched/lib/printfmt.c  Kern/Text: printnum, with the number as its own fuel, which is enough
--                           as each call divides it; and strtol of lib/string.c. Kern/Text/Escape
--                           and Format: vprintfmt, whose fuel is the length of the format.
--                           Kern/Text/Output: vsnprintf and the buffer of lib/printf.c.
--   3-sched/kern/console.c  Kern/Console: the ring buffer of input characters, cga_putc on a screen of
--                           cells; and lib/readline.c, on the characters that getchar gives.
--   3-sched/lib/string.c    Kern/Text/Strings: strings as lists, memory as a function from addresses
--                           to bytes; the assembly of memset and memmove as loops over bytes and
--                           words.
--
-- Kern/Chain has the linked lists that the pool of pages and the free environments share. A panic and
-- what C leaves undefined are results. Any other loop of the kernel has its number of rounds.
--
-- 2-shell reads a command line into a tree of commands and turns the tree into processes. A line is
-- a list of bytes without NUL that is shorter than BUFLEN, so that tokens and file names fit their
-- arrays; `none` stands for a command with too many arguments for its arrays. The fuel of the
-- parser's loop is the length of the text, which every round shortens, and that of parse_line the
-- number of its commands.
--
--   2-shell/parsing.c, utils.c, createcmd.c   Shell/Parsing: tokens, redirections, variables and
--                                             parse_exec. Shell/Lines: parse_back, parse_cmd and
--                                             parse_line.
--   2-shell/exec.c                            Shell/Exec: exec_cmd over the table of descriptors of a
--                                             process, which says what each is open on; the processes
--                                             of a tree are a tree of type Run.
--   2-shell/builtin.c, runcmd.c               Shell/Builtins: cd, pwd, exit, and run_cmd, which is a
--                                             builtin, the start of a tree, or the end of the shell.
--
-- Whether pipe, fork, open and execvp succeed is given by a System of Shell/Exec, and where chdir goes
-- by a Libc of Shell/Builtins.
--
-- 1-fork has two programs; what goes through a pipe until its end is a list, `creates` and `forks` say
-- which processes can be made, and `puts` is the buffer of stdio, which a fork copies and an exit writes
-- out. The fuel of `filtro` is the number of numbers that come in.
--
--   1-fork/primes.c   Fork/Primes: generar_numeros, filtrar_numeros_primos, filtro and main.
--   1-fork/xargs.c    Fork/Xargs: leer_comandos, verificar_numero_argumentos_alcanzado and main.
--
-- Not modelled: debug output, FUSE itself, the interior of the C library; the terminal, the signals
-- and the reports of status of the shell; ps and timeout of 1-fork; of 3-sched mem_init and the
-- detection of memory, the loading of programs, traps, the ports of the devices, the translation
-- cache, the boot data, the rest of the user library and the user programs.
pub mod Common
pub mod Fs
pub mod Kern
pub mod Shell
pub mod Fork
