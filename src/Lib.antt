-- ===== src/Lib.antt =====
-- Kitsune Ufork: the native side of a root manager for Android, a fork of Magisk.
--
-- The daemon (native/src/core/daemon.cpp) listens on a socket, checks who asks, and hands
-- requests to its thread pool (native/src/core/thread.cpp). One kind of request edits the list of
-- hidden apps or, in SuList mode, of the apps that may use su (native/src/core/deny); another
-- starts a root shell (native/src/core/su/su.cpp). The list and the settings are kept in a database
-- (native/src/core/db.cpp). A thread of the daemon, the process monitor
-- (native/src/core/deny/ptrace.cpp), follows the processes that zygote starts and hides Magisk from
-- the listed ones, or shows it to them. The boot image tool (native/src/boot) takes a boot image
-- apart and puts it together again. The command resetprop (native/src/core/resetprop) reads and
-- writes system properties. Before all of these, init reads the boot configuration
-- (native/src/init/getinfo.cpp). The helpers below them are native/src/base.
--
-- Which file models what:
--   Common, OrderedMap   lists, text as bytes, tests on numbers; std::map and std::set as lists
--   Deny                 native/src/core/deny/utils.cpp and cli.cpp. State holds the globals and the
--                        answers of the system; Validate, Procs, Table, Edit, Listing, Enforce and
--                        Query have one function per function of utils.cpp, Cli those of cli.cpp.
--                        Invariant, Removal, Adding, Requests, Lookup, Editing, Mode and Sql prove
--   ThreadPool           thread.cpp: exec_task, and thread_pool_loop cut where it lets go of the lock;
--                        Steps is the step relation of all threads, with the faults that the
--                        program does not reckon with; Invariant, Faults and Starvation prove
--   Base                 base/stream.cpp (Chunks, Io), base/misc.cpp (Strings, Patch, Number)
--   Db                   db.cpp: open_and_init_db (Db), db_exec_impl (Db.Open), db.hpp's settings
--   Format               boot/format.cpp and format.hpp
--   Daemon               daemon.cpp: handle_request and what it calls, the reply in connect_daemon,
--                        Poll for the table of polled descriptors
--   Su                   su.cpp: su_client_main up to the request, exec_root_shell (Su.Shell)
--   Nodes                node.hpp and module.cpp: the tree of module files while it is collected
--                        (Nodes), Magisk's own files in it (Inject), `prepare` and the upgrades to
--                        tmpfs_node (Prepare), `mount` (Mount), and load_modules around them (Load);
--                        Owner and Complete prove which module gives a path, Load.Safe where
--                        everything is mounted
--   Monitor              deny/ptrace.cpp: Zygote finds and attaches to zygotes, Check is check_pid,
--                        Events the loop of proc_monitor and the signal handlers; Sound, Treat,
--                        History and Exit prove. It asks Deny.Query about each process
--   Unmount              deny/revert.cpp and deny/mount_clean.cpp: what is unmounted for a process that
--                        the monitor reverts
--   Boot                 boot/bootimg.hpp and bootimg.cpp, base/files.hpp: Memory (numbers in bytes,
--                        align_to), Header (the eight header classes), Search (check_fmt_lg,
--                        find_dtb_offset, the piggy of a zImage), Layout (get_block, file_align),
--                        Image (create_hdr, parse_image and the constructor), Fields (the header
--                        file), Unpack, Repack (the blocks) and Repack.Finish (the patches)
--   Props                core/resetprop/resetprop.cpp: set_prop, get_prop, delete_prop and load_file over
--                        the interface Area, whose laws are IsLawful of Props.Laws; Args has
--                        resetprop_main and the commands, Names the legal names
--   Init                 init/getinfo.cpp: the parser of pairs (Init), BootConfig::set and init
--                        (Init.Config); RoundTrip, Progress and Config.Fits prove
--   Examples, below each, apply the theorems to concrete inputs.
--
-- Conventions. What code outside of the repository answers (the system, SQLite, getopt_long,
-- getpwnam) is an argument: the records World, Sqlite, Device and Inputs, the interface Area with
-- its laws, lists of calls or options. Effects outside the memory are recorded in order. Logging is
-- left out. A string_view into a map's key is the key's text, and IsConsistent says that the key is
-- there; an iterator end() that is dereferenced is `none`. Integers are ℕ where the code keeps them
-- from being negative; parse_int has an outcome for a value that does not fit 31 bits, and -1 is
-- `negsuc 0`.
-- A mapped file is its bytes and zeros up to the end of its last page; a read past that is the case
-- `crashes` of Parse. A set of pids is a function into Bool, and `overrun` records an index past its
-- 32768 bits. What /proc answers is the record Env, a new one at every event. An off_t does not
-- overflow; a size_t and a uint32_t wrap. The real file system is a finite tree, in which a link to a
-- directory shows what open_dir finds through it; a path of the module tree is its names from the
-- last one up.
--
-- Fuel: `write` of a chunk stream has one unit more than bytes, as each round takes a byte;
-- `resize` one more than the size asked for, as each round adds one at least; `split`, `patch` and
-- `replace_all` one more than the text is long; `env_vars` and `parse_impl` of init likewise. The
-- theorems on these functions show that the fuel is enough. The searches of Boot move on by a byte
-- at least in each round, but for check_fmt_lg, where running out is the case `hangs` of Parse.
--
-- Not modelled: native/src/core/deny/logcat.cpp; mounting Magisk for a process (do_mount_magisk);
-- the setup of inotify and the signal masks; the module directories' upgrade and removal; the poll
-- loop; compression, which is glue around libraries; zygisk; the mounting and rc files of init;
-- sepolicy, which works on a submodule's data; everything in Rust, Kotlin or Java; the vendored xz
-- decoder.
pub mod Common
pub mod OrderedMap
pub mod Deny
pub mod ThreadPool
pub mod Base
pub mod Boot
pub mod Db
pub mod Format
pub mod Daemon
pub mod Props
pub mod Su
pub mod Nodes
pub mod Init
pub mod Monitor
pub mod Unmount
