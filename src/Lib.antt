-- ===== src/Lib.antt =====
-- andlify runs the programs of a Linux rootfs on Android without root: a tracer
-- (library/src/main/cpp/ptrace_engine.cpp) stops each program at its system calls, moves its paths
-- beneath the directory of the rootfs, and answers from its own tables the calls that an Android app
-- may not make. rootfs_extractor.cpp unpacks the rootfs, and ownership/ keeps the owner and the mode
-- that each file would have, in a table that is shared between sessions and journaled on the disk.
--
-- The files, and the code that they model (paths beneath library/src/main/cpp):
--   Common       helpers: Boolean tests, lists, bits, texts as lists of bytes, and the components
--                that slashes divide a path into
--   Rewrite      path_rewrite.cpp: NormalizeRootfsPrefix is normalize_rootfs_prefix, and so on for
--                every function of the file
--   VirtualPath  ptrace_engine.cpp, ResolveVirtualRelativePath; VirtualPath.Roots is
--                MapEmulatedOldRootInRootfs and MapRootfsPathToEmulatedRoot
--   Archive      rootfs_extractor.cpp: JoinPath, NormalizeArchivePath, EndsWith and the target of an
--                archive entry
--   Tracee       ptrace_engine.cpp: the state of a traced process. Tracee.History is the ring of its
--                last calls, Tracee.Credentials MaybeEmulateUidGidSyscall, Tracee.Limits
--                MaybeEmulateFileDescriptorLimit, Tracee.Namespaces MaybeEmulateNamespaceSyscall,
--                Tracee.Exec MaybeEmulatePrctlSyscall and ApplyExecCredentialTransition,
--                Tracee.Blocked RetryBlockedSyscall and SuppressBlockedSyscall, and Tracee.Devices
--                MaybeHandleIoctlSyscall, two socket handlers and ApplyEmulatedSyscallReturn.
--                Tracee.Transfer is ptrace_memory.cpp
--   Elf          elf_exec.cpp: Elf is OpenElfExecutable and Elf.Place MapExecutable
--   Permissions  filesystem/virtual_filesystem.cpp: the tests of owner and mode; Permissions.Change
--                and Permissions.Create are the branches of PrepareFileOperation that change a file's
--                owner or mode, remove an entry, or choose the owner of a new file, and
--                Permissions.Calls its choice of the path and its last checks; Permissions.Search
--                is Search
--   Ownership    ownership/: Ownership.Table is the hash table of ownership_store.cpp,
--                Ownership.Record and Ownership.Journal the records and Replay of
--                ownership_persistence.cpp, Ownership.Write its SetLocked, CheckpointLocked and
--                WriteAll, Ownership.Processes the table of processes of ownership_store.cpp,
--                and Ownership.Terminals TerminalOwner and LookupTerminal of terminal_ownership.cpp
--   Examples     runs on small inputs
--
-- The tracer handles one stop at a time; each handler is a function from the tracee's state, its
-- registers and its memory to what is left of them. Memory and ptrace are parameters (the records
-- Memory and Ptrace of Tracee), whose calls may fail; so are the layouts of the structures that are
-- copied from memory, and the kernel's files with the store's operations (the record Files of
-- Permissions). Registers and ids are natural numbers, and what the code truncates or negates
-- is written out modulo 2 ^ 32 or 2 ^ 64. A check of a pointer against null has no counterpart.
--
-- The table of owners is a function from an index to a slot, and its loops run on the number of slots
-- left, which starts at all of them, 2 ^ 19, so no other bound is needed. The loops over paths are
-- recursion on the components, those over files recursion on the whole records. Put runs under the
-- store's lock and Lookup where no writer is active, so Lookup's retry loop runs once; the order of
-- the atomic stores is not modelled, and the table of processes is without the generation counter.
-- Replay is modelled where the files can be read and the journal can be cut;
-- where a record is refused it returns none, and the table that it leaves is not described.
-- SetLocked and CheckpointLocked run on what the kernel answers to their calls, given beforehand; a
-- list of answers that ends is a process that dies there. That a directory entry or a file is not on
-- the disk before its fsync is not modelled: what was written is what a replay reads.
--
-- The loops of ptrace_memory.cpp have as many turns as there are bytes, which is enough, since a turn
-- copies at least one. Search has a turn for each byte of the path, which is enough, since a
-- parent's path is shorter. The calls that MapExecutable makes in the tracee are a list of requests,
-- each of which may fail.
--
-- Not modelled: the tracer's loop, mounts, most of the sockets, symbolic links, the
-- opening of files in filesystem/virtual_filesystem.cpp, the pins of terminals
-- in the store, its locks, the first stack of a program that elf_exec.cpp builds, the glue to Java,
-- and all that only calls the kernel or libarchive.
pub mod Archive
pub mod Common
pub mod Elf
pub mod Examples
pub mod Ownership
pub mod Permissions
pub mod Rewrite
pub mod Tracee
pub mod VirtualPath
