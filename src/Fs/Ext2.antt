-- ===== src/Fs/Ext2.antt =====
-- fs/ext2: the blocks of an inode. A device is the 32-bit words at its byte addresses, and the status
-- of a read and of a write at each; 0 is success. `uint32_t` and `aoff_t` have 32 bits.
pub mod Blocks
pub mod Walk
pub mod Update
pub mod Lost
use posnk.Base.{ℕ, ◌+◌, ◌-◌, ◌*◌, ◌/◌, ◌%◌, ◌^◌, ◌==◌, ltb, leb, ◌&&◌, if◌then◌else◌, add32}

-- Of `ext2_device_t` the size of the blocks; the device behind it.
pub record Device : Type 0 where
  pub block_size_enc : ℕ
  pub word : ℕ → ℕ
  pub read_status : ℕ → ℕ
  pub write_status : ℕ → ℕ

-- The fields of `ext2_inode_t` that place its blocks.
pub record Inode : Type 0 where
  pub blocks : ℕ
  pub block : ℕ → ℕ

abbrev pub mul32 : ℕ → ℕ → ℕ
mul32 a b = (a * b) % 2 ^ 32

-- `(block_ptr << (10 + block_size_enc)) + in_block`, which wraps around.
abbrev pub block_addr : Device → (block_ptr in_block : ℕ) → ℕ
block_addr d block_ptr in_block = add32 (mul32 block_ptr (2 ^ (10 + d.block_size_enc))) in_block

-- A word read with ext2_read_block, and the status.
unfoldable pub read_word : Device → (block_ptr in_block : ℕ) → ℕ × ℕ
read_word d block_ptr in_block =
    let a = block_addr d block_ptr in_block in (d.read_status a, d.word a)

-- A word written with ext2_write_block; a write that fails changes nothing.
unfoldable pub write_word : (block_ptr in_block value : ℕ) → Device → ℕ × Device
write_word block_ptr in_block value d =
    let a = block_addr d block_ptr in_block in
    (
      d.write_status a,
      if d.write_status a == 0
          then record d { word = λ b. if b == a then value else d.word b }
          else d,
    )

-- `1024 << block_size_enc`.
abbrev pub block_size : Device → ℕ
block_size d = mul32 1024 (2 ^ d.block_size_enc)

-- The whole block is written with zeros.
unfoldable pub zero_block : ℕ → Device → ℕ × Device
zero_block block_ptr d =
    let a = block_addr d block_ptr 0 in
    (
      d.write_status a,
      if d.write_status a == 0
          then record d { word = λ b. if leb a b && ltb b (a + block_size d) then 0 else d.word b }
          else d,
    )

unfoldable pub ext2_divup : ℕ → ℕ → ℕ
ext2_divup a b = if a % b == 0 then a / b else add32 (a / b) 1
