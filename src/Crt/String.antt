-- ===== src/Crt/String.antt =====
-- crt/string.c: memset, memcpy and memcpy_o, as they are built without CONFIG_FASTCRT. There is one
-- memory, and a pointer is an address in it.
pub mod Blocks
pub mod Copies
use posnk.Base.{ℕ, zero, suc, ◌+◌, ◌-◌, ◌*◌, ◌/◌, ◌%◌, ◌^◌, ◌==◌, ltb, leb, ◌&&◌, if◌then◌else◌}
use posnk.Base.Memory.{Memory}

abbrev pub store : ℕ → ℕ → Memory → Memory
store a v mem i = if i == a then v else mem i

-- `n` times `*p++ = val`.
unfoldable pub fill_bytes : ℕ → (p val : ℕ) → Memory → Memory
fill_bytes zero p val mem = mem
fill_bytes (suc n) p val mem = fill_bytes n (p + 1) val (store p val mem)

-- `n` times `*p++ = *s++`.
unfoldable pub copy_bytes : ℕ → (p s : ℕ) → Memory → Memory
copy_bytes zero p s mem = mem
copy_bytes (suc n) p s mem = copy_bytes n (p + 1) (s + 1) (store p (mem s) mem)

-- The four bytes of a word are written together.
abbrev pub store_word : ℕ → (ℕ → ℕ) → Memory → Memory
store_word p word mem i = if leb p i && ltb i (p + 4) then word (i - p) else mem i

-- `n` times `*pint++ = expval`, whose bytes are all `val`.
unfoldable pub fill_words : ℕ → (p val : ℕ) → Memory → Memory
fill_words zero p val mem = mem
fill_words (suc n) p val mem = fill_words n (p + 4) val (store_word p (λ _. val) mem)

-- `n` times `*dint++ = *sint++`.
unfoldable pub copy_words : ℕ → (p s : ℕ) → Memory → Memory
copy_words zero p s mem = mem
copy_words (suc n) p s mem = copy_words n (p + 4) (s + 4) (store_word p (λ k. mem (s + k)) mem)

-- `nmisa` of an address, the bytes up to the next word: 4 if it is aligned.
abbrev pub misalignment : ℕ → ℕ
misalignment a = 4 - a % 4

-- The bytes that the `switch` handles: it has no case for 4.
unfoldable pub head_size : (nmisa num : ℕ) → ℕ
head_size nmisa num = let n = if ltb num nmisa then num else nmisa in if n == 4 then 0 else n

unfoldable pub memset : (ptr value num : ℕ) → Memory → Memory
unfolding head_size fill_bytes fill_words
memset ptr value num mem =
    let val = value % 2 ^ 8 in
    let h = head_size (misalignment ptr) num in
    let nint = (num - h) / 4 in
    fill_bytes ((num - h) % 4) (ptr + h + 4 * nint) val
      (fill_words nint (ptr + h) val (fill_bytes h ptr val mem))

-- The words and the bytes behind them.
unfoldable pub copy_rest : (p source num : ℕ) → Memory → Memory
unfolding copy_bytes copy_words
copy_rest p source num mem =
    let nint = num / 4 in
    copy_bytes (num % 4) (p + 4 * nint) (source + 4 * nint) (copy_words nint p source mem)

-- After the head, `dint` goes on at `p` but `sint` starts at `source` again.
unfoldable pub memcpy : (destination source num : ℕ) → Memory → Memory
unfolding head_size copy_bytes copy_rest
memcpy destination source num mem =
    if misalignment destination == misalignment source
    then (let h = head_size (misalignment destination) num in
        copy_rest (destination + h) source (num - h) (copy_bytes h destination source mem))
    else copy_bytes num destination source mem

unfoldable pub memcpy_o : (dst_ptr src_ptr count buf : ℕ) → Memory → Memory
unfolding memcpy
memcpy_o dst_ptr src_ptr count buf mem = memcpy dst_ptr buf count (memcpy buf src_ptr count mem)
