-- ===== src/Fs/Ext2/Walk.antt =====
-- fs/ext2/inoblk.c: ext2_decode_block_id against the layout of the format.
use posnk.Base.{
  ℕ, zero, suc, ◌+◌, ◌-◌, ◌*◌, ◌/◌, ◌%◌, ◌^◌, ◌≤◌, ◌<◌, ◌≡◌, ◌≢◌, refl, sym, ap, ap₂, ◌∙◌, true,
  false, ◌==◌, not, ltb, leb, if◌then◌else◌, add32, sub32, ◌⊎◌, inl, inr, List, [], ◌∷◌, arith,
  Bool-cases, ==→eq, ==→ne, ne→==,
}
use native.Mathlib.Decide.{dec_lt}
use native.Mathlib.Nat.{mod-lt, mul_comm, mod-eq_of_lt}
use native.Mathlib.Omega.{div_any}
use posnk.Fs.Ext2.{Device, Inode, mul32, read_word}
use posnk.Fs.Ext2.Blocks.{
  indirect_count, d_indir_l, s_indir_s, d_indir_s, t_indir_s, follow, decode_triple, decode_double,
  decode_single, decode, ext2_decode_block_id,
}

-- A chain of blocks of ids: in each the entry at an offset leads to the next one. Block 0 is a hole.
unfoldable pub walk : Device → (block : ℕ) → List ℕ → ℕ × ℕ
walk d block [] = (0, block)
walk d block (off ∷ offs) =
    let (status, next) = read_word d block (mul32 off 4) in
    let rest = walk d next offs in
    if block == 0 then (0, 0) else if not (status == 0) then (status, 0) else rest

-- The entry of the inode and the offsets for block `k` of a file, with `n` ids in a block.
abbrev pub place : (n k : ℕ) → ℕ × List ℕ
place n k =
    if ltb k 12
    then (k, [])
    else if ltb k (12 + n)
    then (12, (k - 12) ∷ [])
    else if ltb k (12 + n + n * n)
    then (13, ((k - (12 + n)) / n) ∷ ((k - (12 + n)) % n) ∷ [])
    else let r = k - (12 + n + n * n) in
      (14, (r / (n * n)) ∷ (r % (n * n) / n) ∷ (r % (n * n) % n) ∷ [])

walk-null : (d : Device) (offs : List ℕ) → walk d 0 offs ≡ (0, 0)
unfolding walk
walk-null d [] = refl
walk-null d (off ∷ offs) = refl

-- One step of the code is one step of the chain.
follow-walk :
    (d : Device) (id off b : ℕ) (offs : List ℕ)
    → id ≢ 0
    → ((s : ℕ) × (follow d id off b ≡ inl (s, 0)) × (walk d id (off ∷ offs) ≡ (s, 0)))
      ⊎ ((rd : ℕ) × (follow d id off b ≡ inr (rd, b))
          × (rd ≢ 0)
          × (walk d id (off ∷ offs) ≡ walk d rd offs))
unfolding follow walk
follow-walk d id off b offs there =
    let (status, rd) = read_word d id (mul32 off 4) in
    elim (Bool-cases (status == 0)) [
      | inr bad ↦ inl (status, rw bad, rw (ne→== id 0 there, bad))
      | inl good ↦ elim (Bool-cases (rd == 0)) [
        | inl hole ↦ inl (
          status,
          rw (good, hole),
          rw (ne→== id 0 there, good)
              (ap (λ x. walk d x offs) (==→eq rd 0 hole)
                ∙ walk-null d offs
                ∙ ap (λ s. (s, 0)) (sym (==→eq status 0 good))),
        )
        | inr next ↦ inr (rd, rw (good, next), ==→ne rd 0 next, rw (ne→== id 0 there, good))
      ]
    ]

module _ (d : Device) (inode : Inode) where
  single-walk :
      (id b : ℕ)
      → id ≢ 0
      → 12 ≤ b
      → b < 2 ^ 32
      → decode_single d inode (id, b) ≡ walk d id ((b - 12) ∷ [])
  unfolding decode_single walk
  single-walk id b there le lt =
      let indirect : leb s_indir_s b ≡ true = ground arith in
      let off : sub32 b s_indir_s ≡ b - 12 = omega arith in
      let (status, rd) = read_word d id (mul32 (b - 12) 4) in
      rw (indirect, off, ne→== id 0 there)
        (elim (Bool-cases (status == 0)) [
          | inr bad ↦ rw bad
          | inl good ↦ elim (Bool-cases (rd == 0)) [
            | inl hole ↦
                rw (good, hole)
                  (ap₂ (λ (x y : ℕ). (x, y)) (==→eq status 0 good) (sym (==→eq rd 0 hole)))
            | inr next ↦ rw (good, next)
          ]
        ])

  module _ (n : ℕ) (pos : 0 < n) (small : n ≤ 2 ^ 14) (square : n * n ≤ 2 ^ 28) where
    pub d_start : d_indir_s n ≡ 12 + n
    d_start = omega arith

    pub d_size : d_indir_l n ≡ n * n
    d_size = mod-eq_of_lt (omega (arith, square))

    pub t_start : t_indir_s n ≡ 12 + n + n * n
    t_start = rw (d_start, d_size) (mod-eq_of_lt (omega (arith, square, small)))

    -- The stages after the first.
    abbrev pub rest : ℕ × ℕ → ℕ × ℕ
    rest s = elim (decode_double n d inode s) [ inl r ↦ r | inr s' ↦ decode_single d inode s' ]

    -- What is left of a block's number behind the entries that are passed over.
    pub left_double :
        (b : ℕ)
        → 12 + n ≤ b
        → b < 2 ^ 32
        → sub32 b (add32 n (mul32 ((b - (12 + n)) / n) n)) ≡ 12 + (b - (12 + n)) % n
    left_double b le lt =
        let r = b - (12 + n) in
        let whole : n * (r / n) + r % n ≡ r = div_any r n in
        let product : mul32 (r / n) n ≡ r / n * n =
          mod-eq_of_lt (omega (arith, whole, mul_comm (r / n) n)) in
        rw product (omega (arith, whole, mul_comm (r / n) n))

    decode_double-follow :
        (id b : ℕ)
        → 12 + n ≤ b
        → b < 2 ^ 32
        → decode_double n d inode (id, b)
          ≡ follow d id ((b - (12 + n)) / n) (12 + (b - (12 + n)) % n)
    unfolding decode_double
    decode_double-follow id b le lt =
        let indirect : leb (d_indir_s n) b ≡ true = rw d_start (ground arith) in
        let off : sub32 b (d_indir_s n) ≡ b - (12 + n) = rw d_start (omega (arith, small)) in
        rw (indirect, off, left_double b le lt)

    double-walk :
        (id b : ℕ)
        → id ≢ 0
        → 12 + n ≤ b
        → b < 2 ^ 32
        → rest (id, b) ≡ walk d id (((b - (12 + n)) / n) ∷ ((b - (12 + n)) % n) ∷ [])
    double-walk id b there le lt =
        let r = b - (12 + n) in
        let below : 12 + r % n < 2 ^ 32 = omega (arith, mod-lt r pos, small) in
        let last : 12 + r % n - 12 ≡ r % n = omega arith in
        rw (rest, decode_double-follow id b le lt)
          (elim (follow-walk d id (r / n) (12 + r % n) ((r % n) ∷ []) there) [
            | inl (s, run, stop) ↦ rw (run, stop)
            | inr (rd, run, next, step) ↦
                rw (run, step)
                  (single-walk rd (12 + r % n) next (omega arith) below
                    ∙ ap (λ o. walk d rd (o ∷ [])) last)
          ])

    left_triple :
        (k : ℕ)
        → 12 + n + n * n ≤ k
        → k < 2 ^ 32
        → let r = k - (12 + n + n * n) in
          sub32 k (add32 (mul32 (r / (n * n)) (n * n)) (n * n)) ≡ 12 + n + r % (n * n)
    left_triple k le lt =
        let r = k - (12 + n + n * n) in
        let whole : n * n * (r / (n * n)) + r % (n * n) ≡ r = div_any r (n * n) in
        let product : mul32 (r / (n * n)) (n * n) ≡ r / (n * n) * (n * n) =
          mod-eq_of_lt (omega (arith, whole, mul_comm (r / (n * n)) (n * n))) in
        rw product (omega (arith, whole, mul_comm (r / (n * n)) (n * n)))

    pub not_triple : (k : ℕ) → k < 12 + n + n * n → leb (t_indir_s n) k ≡ false
    not_triple k lt = rw t_start (ground arith)

    pub not_double : (k : ℕ) → k < 12 + n → leb (d_indir_s n) k ≡ false
    not_double k lt = rw d_start (ground arith)

    -- What the first stage gives.
    pub triple_low : (k : ℕ) → k < 12 + n → decode_triple n d inode k ≡ inr (0, k)
    unfolding decode_triple
    triple_low k lt = rw (not_triple k (omega (arith, lt)), not_double k lt) refl

    triple_double :
        (k : ℕ)
        → 12 + n ≤ k
        → k < 12 + n + n * n
        → decode_triple n d inode k
          ≡ (if inode.block 13 == 0 then inl (0, 0) else inr (inode.block 13, k))
    unfolding decode_triple
    triple_double k le lt =
        let d2 : leb (d_indir_s n) k ≡ true = rw d_start (ground arith) in
        rw (not_triple k lt, d2) refl

    triple_triple :
        (k : ℕ)
        → 12 + n + n * n ≤ k
        → k < 2 ^ 32
        → let r = k - (12 + n + n * n) in
          decode_triple n d inode k ≡ (
            if inode.block 14 == 0
            then inl (0, 0)
            else follow d (inode.block 14) (r / (n * n)) (12 + n + r % (n * n)))
    unfolding decode_triple
    triple_triple k le lt =
        let t : leb (t_indir_s n) k ≡ true = rw t_start (ground arith) in
        let off : sub32 k (t_indir_s n) ≡ k - (12 + n + n * n) =
          rw t_start (omega (arith, small, square)) in
        rw (t, off, d_size, left_triple k le lt) refl

    -- What the second stage gives before the double indirect blocks.
    pub double_direct : (id k : ℕ) → k < 12 → decode_double n d inode (id, k) ≡ inr (id, k)
    unfolding decode_double
    double_direct id k lt =
        let d1 : leb s_indir_s k ≡ false = ground arith in
        rw (not_double k (omega (arith, lt)), d1) refl

    pub double_single :
        (id k : ℕ)
        → 12 ≤ k
        → k < 12 + n
        → decode_double n d inode (id, k)
          ≡ (if inode.block 12 == 0 then inl (0, 0) else inr (inode.block 12, k))
    unfolding decode_double
    double_single id k le lt =
        let d1 : leb s_indir_s k ≡ true = ground arith in rw (not_double k lt, d1) refl

    -- Both stages behind the first.
    pub decode-rest :
        (k : ℕ) (s : (ℕ × ℕ) ⊎ (ℕ × ℕ))
        → decode_triple n d inode k ≡ s
        → decode n d inode k ≡ elim s [ inl r ↦ r | inr s' ↦ rest s' ]
    unfolding decode
    decode-rest k s e = rw (decode, e) refl

    rest-single :
        (k id : ℕ) → 12 ≤ k → k < 12 + n → rest (id, k) ≡ walk d (inode.block 12) ((k - 12) ∷ [])
    rest-single k id le lt =
        rw (rest, double_single id k le lt)
          (elim (Bool-cases (inode.block 12 == 0)) [
            | inl hole ↦ rw (hole, ==→eq (inode.block 12) 0 hole, walk-null)
            | inr there ↦ rw there (
                single-walk (inode.block 12) k (==→ne (inode.block 12) 0 there) le
                  (omega (arith, lt, small)))
          ])

    decode-direct : (k : ℕ) → k < 12 → decode n d inode k ≡ (0, inode.block k)
    unfolding decode_single
    decode-direct k lt =
        let d1 : leb s_indir_s k ≡ false = ground arith in
        decode-rest k (inr (0, k)) (triple_low k (omega (arith, lt)))
        ∙ rw (rest, double_direct 0 k lt, d1) refl

    decode-double :
        (k : ℕ)
        → 12 + n ≤ k
        → k < 12 + n + n * n
        → decode n d inode k
          ≡ walk d (inode.block 13) (((k - (12 + n)) / n) ∷ ((k - (12 + n)) % n) ∷ [])
    decode-double k le lt =
        let below : k < 2 ^ 32 = omega (arith, lt, small, square) in
        decode-rest k _ (triple_double k le lt) ∙ elim (Bool-cases (inode.block 13 == 0)) [
          | inl hole ↦ rw (hole, ==→eq (inode.block 13) 0 hole, walk-null)
          | inr there ↦
              rw there (double-walk (inode.block 13) k (==→ne (inode.block 13) 0 there) le below)
        ]

    decode-triple :
        (k : ℕ)
        → 12 + n + n * n ≤ k
        → k < 2 ^ 32
        → let r = k - (12 + n + n * n) in
          decode n d inode k
          ≡ walk d (inode.block 14) ((r / (n * n)) ∷ (r % (n * n) / n) ∷ (r % (n * n) % n) ∷ [])
    decode-triple k le lt =
        let r = k - (12 + n + n * n) in
        let b = 12 + n + r % (n * n) in
        let below : b < 2 ^ 32 = omega (arith, div_any r (n * n)) in
        let again : b - (12 + n) ≡ r % (n * n) = omega arith in
        let offs = (r % (n * n) / n) ∷ (r % (n * n) % n) ∷ [] in
        decode-rest k _ (triple_triple k le lt) ∙ elim (Bool-cases (inode.block 14 == 0)) [
          | inl hole ↦ rw (hole, ==→eq (inode.block 14) 0 hole, walk-null)
          | inr there ↦
              rw there
                (elim (follow-walk d (inode.block 14) (r / (n * n)) b offs
                  (==→ne (inode.block 14) 0 there)) [
                    | inl (s, run, stop) ↦ rw (run, stop)
                    | inr (rd, run, next, step) ↦
                        rw (run, step)
                          (double-walk rd b next (omega arith) below
                            ∙ ap (λ (o : ℕ). walk d rd ((o / n) ∷ (o % n) ∷ [])) again)
                  ])
        ]

    -- The search finds the block that stands in its place.
    decode-walk :
        (k : ℕ) → k < 2 ^ 32 → decode n d inode k ≡ walk d (inode.block (place n k).0) (place n k).1
    unfolding walk
    decode-walk k lt = elim (dec_lt k 12) [
      | yes low ↦ let l1 : ltb k 12 ≡ true = ground arith in rw l1 (decode-direct k low)
      | no above ↦
          let l1 : ltb k 12 ≡ false = ground arith in
          rw l1 (elim (dec_lt k (12 + n)) [
            | yes low ↦
                let l2 : ltb k (12 + n) ≡ true = ground arith in
                rw l2 (
                  (decode-rest k (inr (0, k)) (triple_low k low))
                  ∙ (rest-single k 0 (omega (arith, above)) low))
            | no above' ↦
                let l2 : ltb k (12 + n) ≡ false = ground arith in
                rw l2 (elim (dec_lt k (12 + n + n * n)) [
                  | yes low ↦
                      let l3 : ltb k (12 + n + n * n) ≡ true = ground arith in
                      rw l3 (decode-double k (omega (arith, above')) low)
                  | no above'' ↦
                      let l3 : ltb k (12 + n + n * n) ≡ false = ground arith in
                      rw l3 (decode-triple k (omega (arith, above'')) lt)
                ])
          ])
    ]

-- With a block of 2 ^ enc KiB there are 256 * 2 ^ enc ids in it.
pub ids_small :
    (enc : ℕ) → enc ≤ 6 → let n = mul32 256 (2 ^ enc) in (0 < n) × (n ≤ 2 ^ 14) × (n * n ≤ 2 ^ 28)
ids_small zero le = (omega arith, omega arith, omega arith)
ids_small (suc zero) le = (omega arith, omega arith, omega arith)
ids_small (suc (suc zero)) le = (omega arith, omega arith, omega arith)
ids_small (suc (suc (suc zero))) le = (omega arith, omega arith, omega arith)
ids_small (suc (suc (suc (suc zero)))) le = (omega arith, omega arith, omega arith)
ids_small (suc (suc (suc (suc (suc zero))))) le = (omega arith, omega arith, omega arith)
ids_small (suc (suc (suc (suc (suc (suc zero)))))) le = (omega arith, omega arith, omega arith)
ids_small (suc (suc (suc (suc (suc (suc (suc enc))))))) le = absurd (omega (arith, le))

-- With blocks of at most 64 KiB, for every block number of 32 bits ext2_decode_block_id gives what the
-- format of ext2 says: the entry of the inode that the number belongs to, followed through as many
-- blocks of ids as that entry has levels, at the offsets that divide the number. A chain that comes to
-- block 0 is a hole with status 0, and a block that cannot be read ends it with its error and block 0.
pub ext2_decode_block_id_lem :
    (d : Device) (inode : Inode) (k : ℕ)
    → d.block_size_enc ≤ 6
    → k < 2 ^ 32
    → let (slot, offsets) = place (indirect_count d) k in
      ext2_decode_block_id d inode k ≡ walk d (inode.block slot) offsets
ext2_decode_block_id_lem d inode k enc lt =
    let (pos, small, square) = ids_small d.block_size_enc enc in
    decode-walk d inode (indirect_count d) pos small square k lt
