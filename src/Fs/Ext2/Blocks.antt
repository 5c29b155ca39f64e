-- ===== src/Fs/Ext2/Blocks.antt =====
-- fs/ext2/inoblk.c: ext2_decode_block_id and ext2_set_block_id. `n` is the local variable
-- `indirect_count`, the number of block ids in a block. A stage of a function returns early (`inl`), or
-- goes on with its local variables `indirect_id` and `block_id`.
use posnk.Base.{ℕ, ◌/◌, ◌^◌, ◌==◌, not, ◌||◌, leb, if◌then◌else◌, add32, sub32, ◌⊎◌, inl, inr}
use posnk.Fs.Ext2.{Device, Inode, mul32, read_word, write_word, zero_block}

-- `256 << block_size_enc`.
abbrev pub indirect_count : Device → ℕ
indirect_count d = mul32 256 (2 ^ d.block_size_enc)

-- `d_indir_l`, `s_indir_s`, `d_indir_s` and `t_indir_s`.
abbrev pub d_indir_l : ℕ → ℕ
d_indir_l n = mul32 n n

abbrev pub s_indir_s : ℕ
s_indir_s = 12

abbrev pub d_indir_s : ℕ → ℕ
d_indir_s n = add32 s_indir_s n

abbrev pub t_indir_s : ℕ → ℕ
t_indir_s n = add32 (d_indir_s n) (d_indir_l n)

-- An entry of a block of ids that is 0, or cannot be read, ends the search with block 0.
unfoldable pub follow : Device → (indirect_id off block_id : ℕ) → (ℕ × ℕ) ⊎ (ℕ × ℕ)
follow d indirect_id off block_id =
    let (status, rd) = read_word d indirect_id (mul32 off 4) in
    if not (status == 0) || rd == 0 then inl (status, 0) else inr (rd, block_id)

unfoldable pub decode_triple : ℕ → Device → Inode → ℕ → (ℕ × ℕ) ⊎ (ℕ × ℕ)
unfolding follow
decode_triple n d inode block_id =
    if leb (t_indir_s n) block_id
    then (let off = sub32 block_id (t_indir_s n) / d_indir_l n in
        if inode.block 14 == 0
        then inl (0, 0)
        else follow d (inode.block 14) off
            (sub32 block_id (add32 (mul32 off (d_indir_l n)) (d_indir_l n))))
    else if leb (d_indir_s n) block_id
    then (if inode.block 13 == 0 then inl (0, 0) else inr (inode.block 13, block_id))
    else inr (0, block_id)

unfoldable pub decode_double : ℕ → Device → Inode → ℕ × ℕ → (ℕ × ℕ) ⊎ (ℕ × ℕ)
unfolding follow
decode_double n d inode (indirect_id, block_id) =
    if leb (d_indir_s n) block_id
    then (let off = sub32 block_id (d_indir_s n) / n in
        follow d indirect_id off (sub32 block_id (add32 n (mul32 off n))))
    else if leb s_indir_s block_id
    then (if inode.block 12 == 0 then inl (0, 0) else inr (inode.block 12, block_id))
    else inr (indirect_id, block_id)

unfoldable pub decode_single : Device → Inode → ℕ × ℕ → ℕ × ℕ
decode_single d inode (indirect_id, block_id) =
    if leb s_indir_s block_id
    then (let (status, rd) = read_word d indirect_id (mul32 (sub32 block_id s_indir_s) 4) in
        if not (status == 0) || rd == 0 then (status, 0) else (0, rd))
    else (0, inode.block block_id)

-- The status, and the block of the device; 0 where the file has a hole.
unfoldable pub decode : ℕ → Device → Inode → ℕ → ℕ × ℕ
decode n d inode block_id = elim (decode_triple n d inode block_id) [
  | inl r ↦ r
  | inr s ↦ elim (decode_double n d inode s) [ inl r ↦ r | inr s' ↦ decode_single d inode s' ]
]

abbrev pub ext2_decode_block_id : Device → Inode → ℕ → ℕ × ℕ
ext2_decode_block_id d inode block_id = decode (indirect_count d) d inode block_id

-- ext2_alloc_block: the status, the block and the device.
abbrev pub Alloc : Type 0
Alloc = Device → ℕ × ℕ × Device

-- What the functions that write change: the device and the inode.
pub record Volume : Type 0 where
  pub device : Device
  pub inode : Inode

-- The status, the block, and the volume.
unfoldable pub ext2_allocate_indirect_block : Alloc → Volume → ℕ × ℕ × Volume
ext2_allocate_indirect_block alloc v =
    let (status, id, d) = alloc v.device in
    if not (status == 0)
    then (status, 0, record v { device = d })
    else let (status', d') = zero_block id d in
      let v' : Volume = record {
        device = d';
        inode = record v.inode { blocks = add32 v.inode.blocks (mul32 2 (2 ^ d.block_size_enc)) };
      } in
      if not (status' == 0) then (status', 0, v') else (0, id, v')

-- A stage that has returned early has a status; else it has `indirect_id` and `block_id`.
pub data Stage : Type 0 where
  ended : (status : ℕ) → Volume → Stage
  goes_on : (indirect_id block_id : ℕ) → Volume → Stage

-- The first block of ids, which is allocated where there is none.
unfoldable pub root : Alloc → (slot block_id : ℕ) → Volume → Stage
root alloc slot block_id v =
    if not (v.inode.block slot == 0)
    then goes_on (v.inode.block slot) block_id v
    else let (status, id, v') = ext2_allocate_indirect_block alloc v in
      if not (status == 0)
      then ended status v'
      else goes_on id block_id (record v' {
        inode = record v'.inode { block = λ k. if k == slot then id else v'.inode.block k };
      })

-- The next block of ids. Where there is none, one is allocated; its entry is written into the new block
-- itself, and the function goes on with block 0, which is what it has read.
unfoldable pub descend : Alloc → (indirect_id off block_id : ℕ) → Volume → Stage
descend alloc indirect_id off block_id v =
    let (status, rd) = read_word v.device indirect_id (mul32 off 4) in
    if not (status == 0)
    then ended status v
    else if not (rd == 0)
    then goes_on rd block_id v
    else let (status', id, v') = ext2_allocate_indirect_block alloc v in
      if not (status' == 0)
      then ended status' v'
      else let (status'', d) = write_word id (mul32 off 4) rd v'.device in
        let v'' = record v' { device = d } in
        if not (status'' == 0) then ended status'' v'' else goes_on rd block_id v''

unfoldable pub set_triple : Alloc → ℕ → ℕ → Volume → Stage
set_triple alloc n block_id v =
    if leb (t_indir_s n) block_id
    then (let off = sub32 block_id (t_indir_s n) / d_indir_l n in
        elim (root alloc 14 block_id v) [
          | ended status v' ↦ ended status v'
          | goes_on id b v' ↦
              descend alloc id off (sub32 b (add32 (mul32 off (d_indir_l n)) (d_indir_l n))) v'
        ])
    else if leb (d_indir_s n) block_id
    then root alloc 13 block_id v
    else goes_on 0 block_id v

unfoldable pub set_double : Alloc → ℕ → (indirect_id block_id : ℕ) → Volume → Stage
set_double alloc n indirect_id block_id v =
    if leb (d_indir_s n) block_id
    then (let off = sub32 block_id (d_indir_s n) / n in
        descend alloc indirect_id off (sub32 block_id (add32 n (mul32 off n))) v)
    else if leb s_indir_s block_id
    then root alloc 12 block_id v
    else goes_on indirect_id block_id v

unfoldable pub set_single : (value indirect_id block_id : ℕ) → Volume → ℕ × Volume
set_single value indirect_id block_id v =
    if leb s_indir_s block_id
    then (let (status, d) =
          write_word indirect_id (mul32 (sub32 block_id s_indir_s) 4) value v.device in
        (status, record v { device = d }))
    else (
      0,
      record v {
        inode = record v.inode { block = λ k. if k == block_id then value else v.inode.block k };
      },
    )

unfoldable pub set_block : Alloc → ℕ → (block_id value : ℕ) → Volume → ℕ × Volume
set_block alloc n block_id value v = elim (set_triple alloc n block_id v) [
  | ended status v' ↦ (status, v')
  | goes_on id b v' ↦ elim (set_double alloc n id b v') [
    | ended status v'' ↦ (status, v'')
    | goes_on id' b' v'' ↦ set_single value id' b' v''
  ]
]

abbrev pub ext2_set_block_id : Alloc → (block_id value : ℕ) → Volume → ℕ × Volume
ext2_set_block_id alloc block_id value v =
    set_block alloc (indirect_count v.device) block_id value v
