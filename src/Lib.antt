-- ===== src/Lib.antt =====
-- pglite-ios: the native host of the PGlite WebAssembly module, as a model with its proofs.
--
-- The program boots PostgreSQL, compiled to WebAssembly and then to C, inside an application.
-- native/shim/wasi_shim.c gives the module its 36 imports, WASI preview1 over POSIX: a table of
-- descriptors, files and directories below two preopened directories, clocks and polling.
-- native/bridge/pglite_bridge.c owns the instance: it boots it, writes each request into the
-- module's memory, ticks the module until the reply has a ReadyForQuery, and shows the reply.
--
-- Wasi models the shim. `Wasi.State.Shim` is `struct w2c_wasi__snapshot__preview1`; a handler is a
-- command on it that may return a WASI code early, and what it has written stays written. The
-- operating system is a field of the state, a function from the history of calls and the call to
-- the answer, so a theorem holds for each behaviour of it. `Wasi.Memory` is the guest's memory as a
-- size and a function from addresses to bytes. The other modules are named for the parts of the C
-- file: Errno, FdTable, Init, Args, Clocks, Iovec, Files, Stats, Readdir, Paths, Poll. The modules
-- below them hold proofs: State.Steps and State.Stores say what one command does, Readdir.Records
-- and Readdir.Listing describe the listing that `fd_readdir` writes, Iovec.RoundTrip and
-- Iovec.Table what buffers hold after a read, Paths.Cases the ways in which `path_open` may end,
-- Paths.Flags what it asks of `openat`. `Wasi.Requests` is the dispatch to the 36 handlers, and
-- `serve` a run of the guest as the sequence of its imports; Requests.Stable and Requests.Calls are
-- the induction over it. `Wasi.Ledger` counts how often a descriptor was opened and closed in the
-- history of calls; below it, Sound is the invariant that the books are right, Leads the triples
-- for `wasi_shim_init`, Acts what the code of a guest can do, and Balanced the whole life of a
-- shim.
--
-- Bridge models the bridge. `Bridge.Db.Db` is `pgl_db`, over a `Shim`; the generated module is a
-- parameter, `Guest`, which answers each export by a value, a trap or an exit, and a new shim.
-- Frames has the frame walk, Frames.Walk its rounds, Buffer the reply buffer, Pump `drain` and
-- `exchange`, Auth and Exec the messages and the text form of replies, Open `pgl_open` and
-- `pgl_close`. A function that returns NULL or -1 ends in `stop`. Below them, Db.Gives and
-- Pump.Answers say what a guest does that answers, Pump.Sources and Pump.Spills where the bytes of
-- a round come from, Pump.Replies, Pump.Exchanges and Exec.Replies follow its answer to the caller;
-- Db.Keeps and the Stable modules carry a predicate through every function of the bridge, and
-- Open.Books, Open.Leaves and Open.Balanced apply them to the books on descriptors.
--
-- Tools models native/tools/mkdata.c, which boots, asks and closes one database.
--
-- Integers are natural numbers with the wrap of their C type written out; the host is
-- little-endian. C strings are byte lists without their NUL. The frame walks run on fuel equal to
-- the length of the buffer, of which each round takes at least five bytes, but for a frame of
-- length word 2 ^ 32 - 1, where the sum of 1 and the word wraps to 0: the walk then never ends,
-- which is `none`, and `pump` and `authenticate` end in `out_of_fuel`. The doubling of a capacity
-- runs on 65 rounds, beyond which a `size_t` has wrapped to 0: that takes a need above 2 ^ 63, and
-- is counted as a failed allocation. The pump's fuel is a parameter, and two rounds are enough for
-- a guest that answers after one tick.
--
-- Not modelled: debug traces, the wasm2c runtime (a copy of another project's code), the Swift
-- package over the bridge, the smoke test, the scripts and the patches of the module.
pub mod Common
pub mod Wasi
pub mod Bridge
pub mod Tools
