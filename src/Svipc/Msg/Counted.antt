-- ===== src/Svipc/Msg/Counted.antt =====
-- The counters of a message queue against the messages that it holds.
use posnk.Base.{
  All, All-append, ℕ, ◌+◌, ◌%◌, ◌^◌, ◌<◌, ◌≡◌, some, ap, List, [], ◌∷◌, ◌++◌, arith, ◌&&◌, ◌==◌,
  inl, inr, Bool-cases, Option-cases, length, length-append,
}
use posnk.Svipc.Table.{find}
use posnk.Svipc.Table.Laws.{All-find, All-update, All-remove, find-remove}
use posnk.Svipc.Msg.{
  Message, Queue, Queues, msg_recv_iterator, modify, msg_do_delete, msg_release, unref,
  msg_get_by_id,
}
use posnk.Svipc.Msg.Receive.{Request, take_message}
use posnk.Svipc.Msg.Send.{Posting, put_message, message}

-- The bytes that the messages take.
abbrev pub total : List Message → ℕ
total [] = 0
total (m ∷ ms) = m.msize + total ms

-- Both counters are right modulo 2^32, and sizes and semaphores are 32-bit values.
pub record IsCounted (q : Queue) : Type 0 where
  pub number : q.msg_qnum ≡ length q.msgs % 2 ^ 32
  pub bytes : q.used_bytes ≡ total q.msgs % 2 ^ 32
  pub sizes : All (λ m. m.msize < 2 ^ 32) q.msgs
  pub swaitsem : q.swaitsem < 2 ^ 32
  pub rwaitsem : q.rwaitsem < 2 ^ 32

total-append : (xs ys : List Message) → total (xs ++ ys) ≡ total xs + total ys
total-append [] ys = omega arith
total-append (x ∷ xs) ys = omega (arith, total-append xs ys)

pub put_message-IsCounted : (r : Posting) (q : Queue) → IsCounted q → IsCounted (put_message r q)
unfolding put_message
put_message-IsCounted r q c = record {
  number = omega (arith, c.number, length-append q.msgs (message r ∷ []));
  bytes = omega (arith, c.bytes, total-append q.msgs (message r ∷ []));
  sizes = All-append _ q.msgs (message r ∷ []) c.sizes (omega arith);
  swaitsem = c.swaitsem;
  rwaitsem = omega arith;
}

pub take_message-IsCounted :
    (r : Request) (msg : Message) (q : Queue)
    → find (msg_recv_iterator r.msgtyp) q.msgs ≡ some msg
    → IsCounted q
    → IsCounted (take_message r msg q)
unfolding take_message
take_message-IsCounted r msg q h c =
    let (before, after, split, miss, hit, rest) =
      find-remove (msg_recv_iterator r.msgtyp) q.msgs h in
    let small = All-find (msg_recv_iterator r.msgtyp) (λ m. m.msize < 2 ^ 32) q.msgs c.sizes h in
    record {
      number = omega (
        arith,
        c.number,
        ap (λ ms. length ms) split,
        ap (λ ms. length ms) rest,
        length-append before (msg ∷ after),
        length-append before after,
      );
      bytes = omega (
        arith,
        c.bytes,
        small,
        ap (λ ms. total ms) split,
        ap (λ ms. total ms) rest,
        total-append before (msg ∷ after),
        total-append before after,
      );
      sizes = All-remove (msg_recv_iterator r.msgtyp) (λ m. m.msize < 2 ^ 32) q.msgs c.sizes;
      swaitsem = omega arith;
      rwaitsem = c.rwaitsem;
    }

abbrev pub AllCounted : Queues → Type 0
AllCounted t = All IsCounted t.msg_list

pub modify-AllCounted :
    (id : ℕ) (f : Queue → Queue) (t : Queues)
    → AllCounted t
    → ((q : Queue) → msg_get_by_id id t ≡ some q → IsCounted q → IsCounted (f q))
    → AllCounted (modify id f t)
unfolding modify msg_get_by_id
modify-AllCounted id f t a keep = All-update _ IsCounted f t.msg_list a keep

pub msg_do_delete-AllCounted :
    (id : ℕ) (t : Queues) → AllCounted t → AllCounted (msg_do_delete id t)
unfolding msg_do_delete
msg_do_delete-AllCounted id t a = All-remove _ IsCounted t.msg_list a

pub msg_release-AllCounted : (id : ℕ) (t : Queues) → AllCounted t → AllCounted (msg_release id t)
unfolding msg_release
msg_release-AllCounted id t a =
    let a' = modify-AllCounted id unref t a λ q e c. record {
      number = c.number;
      bytes = c.bytes;
      sizes = c.sizes;
      swaitsem = c.swaitsem;
      rwaitsem = c.rwaitsem;
    } in
    elim (Option-cases (msg_get_by_id id (modify id unref t))) [
      | inl e ↦ rw (e, msg_release) a'
      | inr (q, e) ↦ elim (Bool-cases (q.del && q.refs == 0)) [
        | inl last ↦ rw (e, msg_release, last) (msg_do_delete-AllCounted id (modify id unref t) a')
        | inr held ↦ rw (e, msg_release, held) a'
      ]
    ]
