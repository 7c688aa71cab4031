-- ===== src/Lib.antt =====
-- The resource agent: a library of allocators, text functions and readers of the Linux system,
-- which a gRPC service offers to its clients.
--
-- The parts and their files. Paths are from the repository's root.
--   base/base_mem.c, base_mem.h, base.h: the alignment and the memory helpers. Mem has `is_pow`,
--     `align`, `MIN` and `ARENA_ALIGN`; Memory has bytes by address, `MemSet` and `MemCpy`.
--   base/base_test.h: Checks has what `check` and `test` do to the control flow.
--   base/base_arena.c: Arena has the struct `mem_arena` and one definition for each function, by
--     its name; Arena/Valid its invariant, Arena/Alloc and Arena/Blocks its allocations,
--     Arena/Scope its life and the temporary arena, Arena/Resize the resizing, Arena/Calls what
--     mmap and munmap leave mapped, Arena/Refine its blocks with their bytes, as its clients see
--     them, and Arena/Refine/Temporary the same in a temporary arena.
--   base/base_stack.c: Stack, with Stack/Padding, Stack/Push and Stack/Pop, and Stack/Refine,
--     where it stands for a stack of blocks. It uses Mem.
--   base/base_parse.c, and `write_int` of base/base_test.c: Parse, with Parse/Number and
--     Parse/Text; Parse/ProcFile is `parse_proc_files`, with
--     Parse/ProcFile/Overflow on where it runs past its arrays.
--   libres/resources.cc, libres/resources.h: Resources, one child for each kind of reader. Disk
--     has the partitions, Cpu the processor on amd64 and Arm the one on arm64, Ram the memory, Fs
--     the file systems, the uptime and the signals, Status one process, Processes the list of
--     them, Device the system's name. They take their memory from Arena and their numbers from
--     Parse. Cpu, Ram and Status have a child Reference, with what they make of a file, name by
--     name, as Named has it, without the loop over its lines.
--   grpc/handlers/resource_handler.cc: Handlers, with the four handlers by their names; a call runs
--     the readers of Resources on structs in an arena of its own. Handlers/Respond, Handlers/Files,
--     Handlers/GetCpu, Handlers/GetRam and Handlers/Reference are on their answers, Handlers/Errors
--     on calls that end the process, Handlers/Answers on those that return, and Handlers/Kept, with
--     Arena/Owned, on what they unmap.
--   grpc/server/server.cc: Server, with the methods that `ResourcesServiceImpl` overrides and the
--     set-up of the server. Server/Traffic has the calls that are answered at the same time, as
--     steps of their handlers that may be interleaved in any order, Server/Serial the same calls
--     one after the other, Server/Bound how many steps they take, and Server/Answers what they
--     are answered.
--   libnet/net.cc: Net, the readers of the ports. libpkg/pkg.c: Pkg, `find_lxd_pkgm`, which uses
--     Resources/Device. libpkg/pkg.h: Pkg/Distro, the table of distributions.
--     libpkg/distro/fedora_dnf.cc: Pkg/Dnf, with libdnf as a record of what its calls give.
--   auth/auth.cc: Auth, the key and the certificate, with OpenSSL as a record of what its calls
--     give. journal/journald.cc: Journal, `logs`, with libsystemd as a record of its calls.
--     dbus/dbushandler.cc and dbus/dbushandler.h: Bus.
--   Text has the functions of the C library on texts that the readers call, and Prelude what all
--     share.
--
-- How the code is read. A struct is a record with its fields, an enum a data type. A pointer is a
-- number, and NULL is `none`; a function that changes a struct returns it beside its result. A C
-- function that can do what C leaves undefined, or that ends the process, has a result in `Run`:
-- `done`, `aborted` or `fault`. `alloc` and `arena_alloc` stand for the sizes whose `MemSet`
-- stays in the mapping, those that do not make the position pass 2 ^ 64; `alloc_or_fault`, which
-- the resizing calls, has the fault of the other sizes. A u64 and a size_t are natural numbers
-- with `% 2 ^ 64` written out. The argument `asserts` says that `NDEBUG` is undefined, as in the
-- Makefile. What the kernel and the C library return (mmap, open with read, fopen with fgets,
-- sscanf, fscanf, statfs, readdir, kill) is an argument. The addresses that mmap returns are
-- taken to be low enough that a pointer into the mapping does not wrap around.
--
-- The handlers and libpkg name `cpu`, `memory`, `disk`, `device` and `ram_read`, which are
-- defined nowhere; they are read as `sys_cpu` and so on, and as `sys_ram_read`.
--
-- Fuel. `write_digits` has ten digits for an i32 and twenty for an i64 or a u64, which are as
-- many as such a number can have. `core_loop` takes any fuel; its theorem says how much is
-- enough, and when none is; the same holds of `read_loop`. `logs_loop` takes any fuel too, and
-- its theorem says how much is enough. All other loops follow the structure of a list or of a
-- count.
--
-- Not modelled: the protocol's messages and core/core.cc, which only starts the server; what gRPC,
-- libdnf, OpenSSL and libsystemd do inside their calls, and that a call of theirs could throw but
-- where a file says so; the arguments of a call of the service, which no handler reads; the build
-- tool forge and libvm, which are stubs; the logger and the tests.
pub mod Prelude
pub mod Checks
pub mod Mem
pub mod Memory
pub mod Arena
pub mod Stack
pub mod Parse
pub mod Text
pub mod Resources
pub mod Handlers
pub mod Net
pub mod Pkg
pub mod Auth
pub mod Server
pub mod Journal
pub mod Bus
