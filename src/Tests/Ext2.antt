-- ===== src/Tests/Ext2.antt =====
-- Tests of fs/ext2/inoblk.c.
use posnk.Base.{inr, ◌≡◌, refl, ◌==◌, if◌then◌else◌, arith}
use posnk.Fs.Ext2.{Device, Inode, mul32, read_word}
use posnk.Fs.Ext2.Blocks.{Alloc, Volume, ext2_decode_block_id, ext2_set_block_id}
use posnk.Fs.Ext2.Walk.{ext2_decode_block_id_lem}
use posnk.Fs.Ext2.Update.{ext2_set_block_id-decode}
use posnk.Fs.Ext2.Lost.{ext2_set_block_id_lost}

-- Blocks of 1 KiB. Block 7 leads to block 9, and entry 5 of block 9 to block 21.
abbrev disk : Device
disk = record {
  block_size_enc = 0;
  word = λ a. if a == 7168 then 9 else if a == 9236 then 21 else 0;
  read_status = λ a. 0;
  write_status = λ a. 0;
}

abbrev file : Inode
file = record { blocks = 6; block = λ k. if k == 12 then 8 else if k == 13 then 7 else 0 }

abbrev volume : Volume
volume = record { device = disk; inode = file }

-- Always the same free block.
abbrev give : Alloc
give d = (0, 30, d)

ext2_decode_block_id_lem_example : ext2_decode_block_id disk file 273 ≡ (0, 21)
unfolding posnk.Fs.Ext2.Walk.walk read_word
ext2_decode_block_id_lem_example =
    ext2_decode_block_id_lem disk file 273 (omega arith) (omega arith)

ext2_set_block_id-decode_example :
    let (status, v') = ext2_set_block_id give 40 55 volume in
    (status ≡ 0) × (ext2_decode_block_id v'.device v'.inode 40 ≡ (0, 55))
ext2_set_block_id-decode_example =
    ext2_set_block_id-decode give 40 55 volume (omega arith) (omega arith)
      (inr λ e. absurd (omega (arith, e))) (λ a. refl) (λ a. refl)

-- Entry 1 of block 7 is 0.
ext2_set_block_id_lost_example :
    let (status, v') = ext2_set_block_id give 530 55 volume in
    (status ≡ 0) × ((read_word v'.device 0 24).1 ≡ 55)
unfolding read_word
ext2_set_block_id_lost_example =
    ext2_set_block_id_lost give 530 55 30 volume disk (omega arith) (omega arith) (omega arith)
      (λ e. absurd (omega (arith, e))) (λ a. refl) refl refl (λ a. refl)
