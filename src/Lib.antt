-- ===== src/Lib.antt =====
-- parity-backup protects an array of data disks against the loss of one of them. The planner
-- (planer.cpp) groups the files of all disks into slices, of about the same size on each disk. A
-- sync (backup.cpp) reads the files of a slice side by side (asyncio.cpp), computes the exclusive
-- or of their bytes and writes it, after a header, to the parity disk. A restore reads the parity
-- and the files of the other disks in the window of the file that is lost, and computes its bytes.
-- Threads take slices from a queue (jobqueue.cpp over TinyQueue of utils.cpp).
--
-- Base holds what the parts share: tests, lists, arrays as functions of the index, counted loops and
-- integers. Bits has the laws of exclusive or.
-- Slice: the records SLICE, SLICE_DISK, SLICE_FILE and HASH_POS of backup.h, and cancelGen and
-- cancelRequest of backup.cpp. Slice/Hash: allocHashArray, storeHash and findHash4seq.
-- Parity: computeParity of backup.cpp, a loop over the columns of the buffers; Parity/Column, Laws and
-- Recover have its lemmas and Parity/Restore its properties.
-- Queue: TinyQueue. Queue/Job: JobQueue of jobqueue.cpp, each call cut where it waits on the condition
-- variable. Queue/Shared: any number of threads as a step relation, where a thread that waits may
-- be woken at any time. What setState and push do without the mutex are steps of their own; the queue is
-- in any state and filled at the start, as the program makes it over the jobs it has chosen.
-- In Plan, the statistics of the slice that the planner fills, and selectNextDisk. Plan/Insert: insert2slice.
-- Then Plan/Hole: fillHole, initSliceFiles and addFile2slice. Plan/Skew: sidChanged. Plan/Start: startSlice.
-- The file Plan/Loop has the loop of createSlices over newfiles, slpos and slhead, with its transactions. The other files under Plan are proofs.
-- The table newfiles is, for each disk, the list of its rows in the order of seq, and each SQL
-- statement is a function of that list. log_fatal, which ends the program, gives no result.
-- fillHole runs on fuel, one for each turn of its outer loop; the loop of createSlices on one for each
-- turn: three more than there are disks, for each file that is left, and two, are enough.
-- Aio: the window, newTargetFile and fitTransferOption of asyncio.cpp. Aio/Next: getNextFile. Aio/Round:
-- the request of startAIO and the completion of a request in wait4buffers. Aio/Save: saveWorkFile. Aio/Files: the
-- files that openNextFile opens and finishCurrentFile closes. Aio/Wait: startAIO, cancelAIO and the pass of
-- wait4buffers over the disks. Aio/Rounds: its rounds, and fillInputBuffers. What the system answers is an argument,
-- one answer for each disk and round. The rounds and the attempts to open a target are counted by fuel; a run
-- that is cut off has an outcome of its own. The other files under Aio are proofs.
-- Header: writeHeader in its three modes; the rows of its statement are an argument, and writeFD is that of Fd.
-- Header/Lines: split, decodeHeaderLine and decodeEOHline, over atol in Text/Atol. Header/Eoh, Sizes, Written and Guards are proofs.
-- Prefix: prefix2path, path2prefix, disk2prefix and removeLastNewline.
-- Text/Numbers: what printf writes for numbers and their paddings. Text/Sizes: formatFileSize. Text/Paths: splitPath,
-- fileBasename and addPathSeparator.
-- Text: string functions of utils.cpp, on lists of characters without the final NUL. replaceStr runs on
-- fuel, one more than the length of its buffer. Text/Shell and Text/Names have the properties.
-- Fd: readFD and writeFD of utils.cpp; the answers of the system are a list, one for each call.
-- Patterns: pathMatchPattern of backup.cpp.
-- Examples applies the theorems to concrete inputs.
--
-- The digest of a hash, the file information of the system, the pattern match of a restore and `errno` are
-- arguments. aio_return gives no more than was asked for. Sizes in the planner are below 2^46, where the
-- doubles that the code rounds are exact enough; other numbers are as the code has them, without overflow, but for
-- the size of a request, which wraps when it is negative.
-- The buffer of writeHeader is a list without a bound: a write past its end (a finding) is outside the model.
-- Where the source reads a variable that it has not set, getNextFile takes the value as an argument; insert2slice
-- with no row selected uses 0 where the source would use such a value, and addPathSeparator takes an empty path as
-- one without a slash, where the source reads the byte before it.
--
-- Not modelled: prepareForPlan and refreshState, which fill the tables from saved slices, and the loading of
-- file lists; loadSliceHeader beyond its lines; the configuration; the drivers of sync and restore; the ACLs and
-- mounts of linux.cpp; the wrapper of SQLite; the logger; and the copies of other projects' libraries (argparse,
-- xxhash, rapidhash).
pub mod Base
pub mod Bits
pub mod Slice
pub mod Parity
pub mod Queue
pub mod Plan
pub mod Aio
pub mod Text
pub mod Fd
pub mod Patterns
pub mod Header
pub mod Prefix
pub mod Examples
