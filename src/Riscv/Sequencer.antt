-- ===== src/Riscv/Sequencer.antt =====
-- RISCV_SingleCycle/testbench/sequencer.cpp: the queue of commands and its split into hex files.
pub mod Bytes
pub mod Phases
pub mod Drain
use verilog.Common.{
  ℕ, zero, suc, ◌+◌, ◌*◌, List, [], ◌∷◌, Bool, true, false, Option, none, some, truth, as_int, ◌==◌,
  if◌then◌else◌, ◌>>◌, ◌&◌, length, push_back, to_long,
}

pub record Sequencer : Type 0 where
  pub sqr_fifo : List ℕ
  pub split_num : ℕ
  pub cmd_count : ℕ

-- A line of a hex file is the list of its bytes, a file the list of its lines.
abbrev pub HexFile : Type 0
HexFile = List (List ℕ)

-- The queue's first element; `none` is a call of `front` on an empty queue, which is undefined.
abbrev pub front : List ℕ → Option ℕ
front [] = none
front (x ∷ q) = some x

unfoldable pub push_seq : ℕ → Sequencer → Sequencer
push_seq val s = record s {
  sqr_fifo = push_back s.sqr_fifo val;
  split_num = if truth val then s.split_num else s.split_num + 1;
}

unfoldable pub split : Sequencer → Sequencer
unfolding push_seq
split s = push_seq 0 s

unfoldable pub reset : Sequencer → Sequencer
reset s = record s { sqr_fifo = [] }

unfoldable pub post_test : Sequencer → Sequencer
post_test s = record s { split_num = 0 }

unfoldable pub size : Sequencer → ℕ
size s = length s.sqr_fifo

-- The bytes of `put_bytes`: the loop `for (i = word_len; i > 0; i--)`.
unfoldable pub bytes_of : ℕ → ℕ → List ℕ
bytes_of zero input_val = []
bytes_of (suc i) input_val = (input_val >> (i * 8) & 0xFF) ∷ bytes_of i input_val

-- `put_bytes` appends one line to the file.
unfoldable pub put_bytes : HexFile → ℕ → ℕ → HexFile
unfolding bytes_of
put_bytes file input_val word_len = push_back file (bytes_of word_len input_val)

-- `val & 0x3 == 3 ? 4 : 2`: in C++ `==` binds tighter than `&`.
unfoldable pub word_len : ℕ → ℕ
word_len val = if truth (val & as_int (0x3 == 3)) then 4 else 2

-- The loop of `main`, with the file written so far and the counter. An `int` passed on as
-- `unsigned long` is sign extended.
unfoldable pub main_loop : List ℕ → HexFile → ℕ → Option (List ℕ × HexFile × ℕ)
unfolding put_bytes word_len
main_loop [] file count = some ([], file, count)
main_loop (val ∷ q) file count = elim (truth val) [
  | true ↦ main_loop q (put_bytes file (to_long val) (word_len val)) (count + 1)
  | false ↦ elim (front q) [
    | none ↦ none
    | some next ↦ elim (truth next) [
      | true ↦ some (q, file, count)
      | false ↦ main_loop q file count
    ]
  ]
]

-- The new file replaces the old one, and ends in a zero command.
abbrev finish : Sequencer → Option (List ℕ × HexFile × ℕ) → Option (Sequencer × HexFile)
finish s none = none
finish s (some (q, file, count)) =
    some (record s { sqr_fifo = q; cmd_count = count }, put_bytes file 0 4)

unfoldable pub main : Sequencer → Option (Sequencer × HexFile)
unfolding main_loop put_bytes
main s = finish s (main_loop s.sqr_fifo [] 0)
