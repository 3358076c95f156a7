-- ===== src/Channel/Types.antt =====
-- task.h's `struct Alt`, `struct Altarray` and `struct Channel`, and the memory they live in.
--
-- An `Alt` is at an address, and `a[i]` is at `a + i`. Memory at an address is the number that its
-- bytes make, the lowest first, so that the first `n` bytes are the number modulo `256 ^ n`. The
-- buffer of a channel is a list of such blocks, one for each `elemsize` bytes.
use libtask.Base.{◌/◌, ◌*◌, ℕ, ◌+◌, ◌-◌, ◌%◌, ◌^◌, List, [], update}
use libtask.Tasklist.{Ptr}
use libtask.Sched.{Sys}

abbrev pub Elem : Type 0
Elem = ℕ

-- The first `n` bytes.
abbrev pub low : ℕ → Elem → Elem
low n x = x % 256 ^ n

-- The first `n` bytes of `x`, with those of `old` behind them.
abbrev pub merge : ℕ → Elem → Elem → Elem
merge n x old = (old / 256 ^ n) * 256 ^ n + x % 256 ^ n

-- The operations of an `Alt`.
abbrev pub chanend : ℕ
chanend = 0

abbrev pub chansnd : ℕ
chansnd = 1

abbrev pub chanrcv : ℕ
chanrcv = 2

abbrev pub channop : ℕ
channop = 3

abbrev pub channoblk : ℕ
channoblk = 4

-- `c` and `v` are the addresses of a channel and of the caller's element.
pub record Alt : Type 0 where
  pub c : Ptr
  pub v : Ptr
  pub op : ℕ
  pub task : Ptr
  pub xalt : Ptr

-- `a` has `m` entries, of which the first `n` are used.
pub record Altarray : Type 0 where
  pub a : List Ptr
  pub n : ℕ
  pub m : ℕ

pub record Channel : Type 0 where
  pub bufsize : ℕ
  pub elemsize : ℕ
  pub buf : List Elem
  pub nbuf : ℕ
  pub off : ℕ
  pub asend : Altarray
  pub arecv : Altarray

-- `alts` and `chans` are the structures by their addresses, `mem` the memory outside channels.
pub record World : Type 0 where
  pub sys : Sys
  pub alts : Ptr → Alt
  pub chans : Ptr → Channel
  pub mem : Ptr → Elem

-- Addition of `unsigned int`.
abbrev pub add_uint : ℕ → ℕ → ℕ
add_uint x y = (x + y) % 2 ^ 32

-- `--x` on an `unsigned int`.
abbrev pub dec_uint : ℕ → ℕ
dec_uint x = (x + 2 ^ 32 - 1) % 2 ^ 32

abbrev pub empty_array : Altarray
empty_array = record { a = []; n = 0; m = 0 }

-- The fields that `chancreate` sets. `malloc` does not clear the buffer: `junk` is what it holds.
unfoldable pub chancreate : ℕ → ℕ → List Elem → Channel
chancreate elemsize bufsize junk = record {
  bufsize = bufsize;
  elemsize = elemsize;
  buf = junk;
  nbuf = 0;
  off = 0;
  asend = empty_array;
  arecv = empty_array;
}

abbrev pub alt_at : World → Ptr → Alt
alt_at w a = w.alts a

abbrev pub chan_of : World → Ptr → Channel
chan_of w a = w.chans (w.alts a).c

abbrev pub put_alt : Ptr → Alt → World → World
put_alt a x w = record w { alts = update w.alts a x }

abbrev pub put_chan : Ptr → Channel → World → World
put_chan c x w = record w { chans = update w.chans c x }
