-- ===== src/Fs/Ext2/Update.antt =====
-- fs/ext2/inoblk.c: ext2_set_block_id against ext2_decode_block_id.
use posnk.Base.{
  ℕ, ◌+◌, ◌*◌, ◌^◌, ◌≤◌, ◌<◌, ◌≡◌, ◌≢◌, refl, sym, ◌∙◌, false, ◌==◌, leb, if◌then◌else◌, sub32, ◌⊎◌,
  inl, inr, arith, Bool-cases, ==→eq, ne→==, ==_refl,
}
use posnk.Fs.Ext2.{Device, Inode, mul32, block_addr, read_word, write_word}
use posnk.Fs.Ext2.Blocks.{
  indirect_count, s_indir_s, decode_single, decode, ext2_decode_block_id, Alloc, Volume, goes_on,
  root, set_triple, set_double, set_single, set_block, ext2_set_block_id,
}
use posnk.Fs.Ext2.Walk.{
  not_triple, not_double, triple_low, double_direct, double_single, decode-rest, rest, ids_small,
}

-- The device with one word written.
abbrev pub stored : (block off value : ℕ) → Device → Device
stored block off value d = record d {
  word = λ b. if b == block_addr d block off then value else d.word b;
}

pub write_word-stored :
    (block off value : ℕ) (d : Device)
    → ((a : ℕ) → d.write_status a ≡ 0)
    → write_word block off value d ≡ (0, stored block off value d)
unfolding write_word
write_word-stored block off value d w = rw (w (block_addr d block off)) refl

-- A word that has been written is read.
read_word-stored :
    (block off value : ℕ) (d : Device)
    → ((a : ℕ) → d.read_status a ≡ 0)
    → read_word (stored block off value d) block off ≡ (0, value)
unfolding read_word
read_word-stored block off value d r =
    rw (r (block_addr d block off), ==_refl (block_addr d block off)) refl

-- What the last stage of the one leaves, and what the last stage of the other finds there.
abbrev pub updated : (value id b : ℕ) → Volume → Volume
updated value id b v =
    if leb s_indir_s b
    then record v { device = stored id (mul32 (sub32 b s_indir_s) 4) value v.device }
    else record v {
      inode = record v.inode { block = λ k. if k == b then value else v.inode.block k };
    }

pub set_single-updated :
    (value id b : ℕ) (v : Volume)
    → ((a : ℕ) → v.device.write_status a ≡ 0)
    → set_single value id b v ≡ (0, updated value id b v)
unfolding set_single
set_single-updated value id b v w = elim (Bool-cases (leb s_indir_s b)) [
  | inl indirect ↦
      rw (indirect, write_word-stored id (mul32 (sub32 b s_indir_s) 4) value v.device w) refl
  | inr direct ↦ rw direct refl
]

abbrev found : ℕ → ℕ × ℕ
found x = if x == 0 then (0, 0) else (0, x)

hole_or : (x : ℕ) → found x ≡ (0, x)
hole_or x = elim (Bool-cases (x == 0)) [
  | inl hole ↦ rw (hole, ==→eq x 0 hole) refl
  | inr there ↦ rw there refl
]

decode_single-updated :
    (value id b : ℕ) (v : Volume)
    → ((a : ℕ) → v.device.read_status a ≡ 0)
    → decode_single (updated value id b v).device (updated value id b v).inode (id, b) ≡ (0, value)
unfolding decode_single
decode_single-updated value id b v r = elim (Bool-cases (leb s_indir_s b)) [
  | inl indirect ↦
      rw (indirect, read_word-stored id (mul32 (sub32 b s_indir_s) 4) value v.device r)
        (hole_or value)
  | inr direct ↦ rw (direct, ==_refl b) refl
]

-- A first block of ids that is there is taken.
pub root-there :
    (alloc : Alloc) (slot b : ℕ) (v : Volume)
    → v.inode.block slot ≢ 0
    → root alloc slot b v ≡ goes_on (v.inode.block slot) b v
unfolding root
root-there alloc slot b v there = rw (ne→== (v.inode.block slot) 0 there) refl

pub set_block-stages :
    (alloc : Alloc) (n k value id id' b b' : ℕ) (v v' v'' : Volume)
    → set_triple alloc n k v ≡ goes_on id b v'
    → set_double alloc n id b v' ≡ goes_on id' b' v''
    → set_block alloc n k value v ≡ set_single value id' b' v''
unfolding set_block
set_block-stages alloc n k value id id' b b' v v' v'' t d = rw (set_block, t, d) refl

-- A block that is not direct is behind a single indirect block that is there.
behind : (block k : ℕ) → 12 ≤ k → (k < 12) ⊎ (block ≢ 0) → block ≢ 0
behind block k le (inl lt) = absurd (omega (arith, le, lt))
behind block k le (inr ne) = ne

module _ (alloc : Alloc) (n : ℕ) (pos : 0 < n) (small : n ≤ 2 ^ 14) (square : n * n ≤ 2 ^ 28) where
  set_triple-low : (k : ℕ) (v : Volume) → k < 12 + n → set_triple alloc n k v ≡ goes_on 0 k v
  unfolding set_triple
  set_triple-low k v lt =
      let t = not_triple v.device v.inode n pos small square k (omega (arith, lt)) in
      let t' = not_double v.device v.inode n pos small square k lt in rw (t, t') refl

  -- The number of a block that has its place in the inode, or in its first block of ids.
  set_double-low :
      (k : ℕ) (v : Volume)
      → k < 12 + n
      → (k < 12) ⊎ (v.inode.block 12 ≢ 0)
      → set_double alloc n 0 k v ≡ goes_on (if leb s_indir_s k then v.inode.block 12 else 0) k v
  unfolding set_double
  set_double-low k v lt there =
      let t' = not_double v.device v.inode n pos small square k lt in
      elim (Bool-cases (leb s_indir_s k)) [
        | inl indirect ↦
            rw (t', indirect)
              (root-there alloc 12 k v (behind (v.inode.block 12) k (ground arith) there))
        | inr direct ↦ rw (t', direct) refl
      ]

  decode-low :
      (d : Device) (inode : Inode) (k : ℕ)
      → k < 12 + n
      → (k < 12) ⊎ (inode.block 12 ≢ 0)
      → decode n d inode k
        ≡ decode_single d inode ((if leb s_indir_s k then inode.block 12 else 0), k)
  decode-low d inode k lt there =
      decode-rest d inode n pos small square k (inr (0, k))
        (triple_low d inode n pos small square k lt)
      ∙ elim (Bool-cases (leb s_indir_s k)) [
        | inl indirect ↦
            let le : 12 ≤ k = ground arith in
            rw
              (
                rest,
                double_single d inode n pos small square 0 k le lt,
                ne→== (inode.block 12) 0 (behind (inode.block 12) k le there),
                indirect,
              )
              refl
        | inr direct ↦
            let lt' : k < 12 = ground arith in
            rw (rest, double_direct d inode n pos small square 0 k lt', direct) refl
      ]

  -- The entry that leads to the block is not the one that is written.
  updated-table :
      (value id k : ℕ) (v : Volume) → (updated value id k v).inode.block 12 ≡ v.inode.block 12
  updated-table value id k v = elim (Bool-cases (leb s_indir_s k)) [
    | inl indirect ↦ rw indirect refl
    | inr direct ↦ let other : (12 == k) ≡ false = ground arith in rw (direct, other) refl
  ]

  updated-size :
      (value id k : ℕ) (v : Volume)
      → (updated value id k v).device.block_size_enc ≡ v.device.block_size_enc
  updated-size value id k v = elim (Bool-cases (leb s_indir_s k)) [
    | inl indirect ↦ rw indirect refl
    | inr direct ↦ rw direct refl
  ]

  set_block-decode :
      (k value : ℕ) (v : Volume)
      → k < 12 + n
      → (k < 12) ⊎ (v.inode.block 12 ≢ 0)
      → ((a : ℕ) → v.device.read_status a ≡ 0)
      → ((a : ℕ) → v.device.write_status a ≡ 0)
      → let (status, v') = set_block alloc n k value v in
        (v'.device.block_size_enc ≡ v.device.block_size_enc)
        × (status ≡ 0)
        × (decode n v'.device v'.inode k ≡ (0, value))
  set_block-decode k value v lt there r w =
      let id = if leb s_indir_s k then v.inode.block 12 else 0 in
      let run : set_block alloc n k value v ≡ (0, updated value id k v) =
        set_block-stages alloc n k value 0 id k k v v v (set_triple-low k v lt)
          (set_double-low k v lt there)
        ∙ set_single-updated value id k v w in
      let same : (updated value id k v).inode.block 12 ≡ v.inode.block 12 =
        updated-table value id k v in
      let there' : (k < 12) ⊎ ((updated value id k v).inode.block 12 ≢ 0) = elim there [
        | inl direct ↦ inl direct
        | inr ne ↦ inr (λ e. ne (sym same ∙ e))
      ] in
      rw run (
        updated-size value id k v,
        refl,
        decode-low (updated value id k v).device (updated value id k v).inode k lt there'
            ∙ rw same (decode_single-updated value id k v r),
      )

-- The number of a direct block, or of a block behind a single indirect block that is there, is stored and
-- found again: on a device whose reads and writes succeed, with blocks of at most 64 KiB,
-- ext2_set_block_id succeeds and ext2_decode_block_id then gives the number that was stored.
pub ext2_set_block_id-decode :
    (alloc : Alloc) (k value : ℕ) (v : Volume)
    → v.device.block_size_enc ≤ 6
    → k < 12 + indirect_count v.device
    → (k < 12) ⊎ (v.inode.block 12 ≢ 0)
    → ((a : ℕ) → v.device.read_status a ≡ 0)
    → ((a : ℕ) → v.device.write_status a ≡ 0)
    → let (status, v') = ext2_set_block_id alloc k value v in
      (status ≡ 0) × (ext2_decode_block_id v'.device v'.inode k ≡ (0, value))
ext2_set_block_id-decode alloc k value v enc lt there r w =
    let (pos, small, square) = ids_small v.device.block_size_enc enc in
    let (size, done, found_again) =
      set_block-decode alloc (indirect_count v.device) pos small square k value v lt there r w in
    (done, rw size found_again)
