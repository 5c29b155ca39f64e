-- ===== src/Fs/Ext2/Lost.antt =====
-- fs/ext2/inoblk.c: ext2_set_block_id where an entry of a block of ids is 0.
use posnk.Base.{
  ℕ, ◌+◌, ◌-◌, ◌*◌, ◌/◌, ◌%◌, ◌^◌, ◌≤◌, ◌<◌, ◌≡◌, ◌≢◌, refl, ◌∙◌, true, leb, add32, sub32, arith,
  ==_refl,
}
use native.Mathlib.Nat.{mod-lt}
use posnk.Fs.Ext2.{Device, mul32, block_addr, read_word, zero_block}
use posnk.Fs.Ext2.Blocks.{
  indirect_count, s_indir_s, d_indir_s, Alloc, Volume, ext2_allocate_indirect_block, goes_on,
  descend, set_triple, set_double, set_block, ext2_set_block_id,
}
use posnk.Fs.Ext2.Walk.{d_start, not_triple, left_double, ids_small}
use posnk.Fs.Ext2.Update.{
  stored, write_word-stored, updated, set_single-updated, root-there, set_block-stages,
}

module _ (alloc : Alloc) (n : ℕ) (pos : 0 < n) (small : n ≤ 2 ^ 14) (square : n * n ≤ 2 ^ 28) where
  -- The volume with a new block of ids that holds only zeros.
  abbrev allocated : (id : ℕ) → Device → Volume → Volume
  allocated id d v = record {
    device = (zero_block id d).1;
    inode = record v.inode { blocks = add32 v.inode.blocks (mul32 2 (2 ^ d.block_size_enc)) };
  }

  zero_block-succeeds :
      (id : ℕ) (d : Device)
      → ((a : ℕ) → d.write_status a ≡ 0)
      → ((zero_block id d).0 ≡ 0) × ((a : ℕ) → (zero_block id d).1.write_status a ≡ 0)
  unfolding zero_block
  zero_block-succeeds id d w = (w (block_addr d id 0), λ a. rw (w (block_addr d id 0)) (w a))

  ext2_allocate_indirect_block-succeeds :
      (id : ℕ) (d : Device) (v : Volume)
      → alloc v.device ≡ (0, id, d)
      → ((a : ℕ) → d.write_status a ≡ 0)
      → ext2_allocate_indirect_block alloc v ≡ (0, id, allocated id d v)
  unfolding ext2_allocate_indirect_block
  ext2_allocate_indirect_block-succeeds id d v given w =
      rw (given, (zero_block-succeeds id d w).0) refl

  -- Where an entry of a block of ids is 0, the function goes on with block 0.
  descend-lost :
      (block off b id : ℕ) (v : Volume) (d : Device)
      → ((a : ℕ) → v.device.read_status a ≡ 0)
      → (read_word v.device block (mul32 off 4)).1 ≡ 0
      → alloc v.device ≡ (0, id, d)
      → ((a : ℕ) → d.write_status a ≡ 0)
      → (v' : Volume) × (descend alloc block off b v ≡ goes_on 0 b v')
        × ((a : ℕ) → v'.device.write_status a ≡ 0)
  unfolding descend read_word
  descend-lost block off b id v d r entry given w =
      let v' = allocated id d v in
      let w' : (a : ℕ) → v'.device.write_status a ≡ 0 = (zero_block-succeeds id d w).1 in
      let v'' : Volume = record v' { device = stored id (mul32 off 4) 0 v'.device } in
      let run : descend alloc block off b v ≡ goes_on 0 b v'' =
        rw
          (
            r (block_addr v.device block (mul32 off 4)),
            entry,
            ext2_allocate_indirect_block-succeeds id d v given w,
            write_word-stored id (mul32 off 4) 0 v'.device w',
          )
          refl in
      (v'', run, w')

  set_triple-table :
      (k : ℕ) (v : Volume)
      → 12 + n ≤ k
      → k < 12 + n + n * n
      → v.inode.block 13 ≢ 0
      → set_triple alloc n k v ≡ goes_on (v.inode.block 13) k v
  unfolding set_triple
  set_triple-table k v le lt there =
      let t = not_triple v.device v.inode n pos small square k lt in
      let t' : leb (d_indir_s n) k ≡ true =
        rw (d_start v.device v.inode n pos small square) (ground arith) in
      rw (t, t') (root-there alloc 13 k v there)

  set_double-descend :
      (block k : ℕ) (v : Volume)
      → 12 + n ≤ k
      → k < 2 ^ 32
      → set_double alloc n block k v
        ≡ descend alloc block ((k - (12 + n)) / n) (12 + (k - (12 + n)) % n) v
  unfolding set_double
  set_double-descend block k v le lt =
      let start = d_start v.device v.inode n pos small square in
      let t' : leb (d_indir_s n) k ≡ true = rw start (ground arith) in
      let off : sub32 k (d_indir_s n) ≡ k - (12 + n) = rw start (omega (arith, small)) in
      rw (t', off, left_double v.device v.inode n pos small square k le lt) refl

  updated-entry :
      (value block x : ℕ) (v : Volume)
      → 12 + x < 2 ^ 32
      → (read_word (updated value block (12 + x) v).device block (mul32 x 4)).1 ≡ value
  unfolding read_word
  updated-entry value block x v lt =
      let indirect : leb s_indir_s (12 + x) ≡ true = ground arith in
      let off : sub32 (12 + x) s_indir_s ≡ x = omega arith in
      rw (indirect, off, ==_refl (block_addr v.device block (mul32 x 4))) refl

  set_block-lost :
      (k value id : ℕ) (v : Volume) (d : Device)
      → 12 + n ≤ k
      → k < 12 + n + n * n
      → v.inode.block 13 ≢ 0
      → ((a : ℕ) → v.device.read_status a ≡ 0)
      → (read_word v.device (v.inode.block 13) (mul32 ((k - (12 + n)) / n) 4)).1 ≡ 0
      → alloc v.device ≡ (0, id, d)
      → ((a : ℕ) → d.write_status a ≡ 0)
      → let (status, v') = set_block alloc n k value v in
        (status ≡ 0) × ((read_word v'.device 0 (mul32 ((k - (12 + n)) % n) 4)).1 ≡ value)
  set_block-lost k value id v d le lt there r entry given w =
      let r' = k - (12 + n) in
      let below : k < 2 ^ 32 = omega (arith, lt, small, square) in
      let (v', run, w') =
        descend-lost (v.inode.block 13) (r' / n) (12 + r' % n) id v d r entry given w in
      let all : set_block alloc n k value v ≡ (0, updated value 0 (12 + r' % n) v') =
        set_block-stages alloc n k value (v.inode.block 13) 0 k (12 + r' % n) v v v'
          (set_triple-table k v le lt there)
          (set_double-descend (v.inode.block 13) k v le below ∙ run)
        ∙ set_single-updated value 0 (12 + r' % n) v' w' in
      rw all (refl, updated-entry value 0 (r' % n) v' (omega (arith, mod-lt r' pos, small)))

-- The entry for a block behind the double indirect block is 0, and a new block of ids is allocated for it:
-- then ext2_set_block_id succeeds, but it has written the number into block 0 of the device, at the
-- offset that it has in the new block. This is on a device whose reads and writes succeed, with blocks
-- of at most 64 KiB.
pub ext2_set_block_id_lost :
    (alloc : Alloc) (k value id : ℕ) (v : Volume) (d : Device)
    → let n = indirect_count v.device in
      v.device.block_size_enc ≤ 6
      → 12 + n ≤ k
      → k < 12 + n + n * n
      → v.inode.block 13 ≢ 0
      → ((a : ℕ) → v.device.read_status a ≡ 0)
      → (read_word v.device (v.inode.block 13) (mul32 ((k - (12 + n)) / n) 4)).1 ≡ 0
      → alloc v.device ≡ (0, id, d)
      → ((a : ℕ) → d.write_status a ≡ 0)
      → let (status, v') = ext2_set_block_id alloc k value v in
        (status ≡ 0) × ((read_word v'.device 0 (mul32 ((k - (12 + n)) % n) 4)).1 ≡ value)
ext2_set_block_id_lost alloc k value id v d enc =
    let (pos, small, square) = ids_small v.device.block_size_enc enc in
    set_block-lost alloc (indirect_count v.device) pos small square k value id v d
