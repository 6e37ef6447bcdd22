-- ===== src/Fs/Blocks/Tests.antt =====
-- The theorem about the blocks where the block of the root directory is taken.
use jack_os.Base.{update}
use jack_os.Fs.{Fs}
use jack_os.Fs.Tests.{blank}

abbrev fs : Fs
fs = record blank { memory = update (λ a. 0) 50000 1 }
