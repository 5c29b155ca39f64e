-- ===== src/Svipc/Msg/Waiting.antt =====
-- Senders and receivers that wait: how a blocking call on a message queue can end.
use posnk.Base.{
  ℕ, ◌+◌, ◌*◌, ◌^◌, ◌≡◌, refl, ap, sym, ◌∙◌, some, List, arith, inl, inr, length, add32,
  Option-cases,
}
use posnk.Kernel.Outcome.{Turn}
use posnk.Kernel.Synch.Wait.{patience, IsWaitable}
use posnk.Svipc.Table.{find-update, update_self, update-none}
use posnk.Svipc.Table.Laws.{find-true, All-find}
use posnk.Svipc.Msg.{
  Queue, Queues, msg_get_by_id, modify, rwait_sem, swait_sem, msg_id_search_iterator, unref,
}
use posnk.Svipc.Msg.Counted.{IsCounted, AllCounted, modify-AllCounted}

-- A write through a pointer to a queue that is there.
pub msg_get_by_id-modify :
    (id : ℕ) (f : Queue → Queue) (t : Queues) {q : Queue}
    → msg_get_by_id id t ≡ some q
    → (f q).id ≡ q.id
    → msg_get_by_id id (modify id f t) ≡ some (f q)
unfolding msg_get_by_id modify
msg_get_by_id-modify id f t {q} h same =
    find-update (msg_id_search_iterator id) f t.msg_list h
      (rw same (find-true (msg_id_search_iterator id) t.msg_list h))

-- Every queue has its counters right, and the one that the call waits on is there.
pub record IsWaited (id : ℕ) (t : Queues) : Type 0 where
  pub counted : AllCounted t
  pub present : (q : Queue) × (msg_get_by_id id t ≡ some q)

module _ (id : ℕ) where
  waited-IsCounted : (t : Queues) (i : IsWaited id t) → IsCounted i.present.0
  unfolding msg_get_by_id
  waited-IsCounted t i = All-find _ IsCounted t.msg_list i.counted i.present.1

  pub modify-IsWaited :
      (f : Queue → Queue) (t : Queues)
      → IsWaited id t
      → ((q : Queue) → (f q).id ≡ q.id)
      → ((q : Queue) → msg_get_by_id id t ≡ some q → IsCounted q → IsCounted (f q))
      → IsWaited id (modify id f t)
  modify-IsWaited f t i same keep = record {
    counted = modify-AllCounted id f t i.counted keep;
    present = (f i.present.0, msg_get_by_id-modify id f t i.present.1 (same i.present.0));
  }

  pub rwait_sem_value :
      (t : Queues) {q : Queue} → msg_get_by_id id t ≡ some q → (rwait_sem id).value t ≡ q.rwaitsem
  rwait_sem_value t e = rw (e, rwait_sem)

  rwait_sem-put_self : (t : Queues) → (rwait_sem id).put ((rwait_sem id).value t) t ≡ t
  unfolding modify msg_get_by_id
  rwait_sem-put_self t = elim (Option-cases (msg_get_by_id id t)) [
    | inl e ↦ ap (λ l. record t { msg_list = l }) (update-none _ _ t.msg_list e)
    | inr (q, e) ↦
        ap (λ l. record t { msg_list = l })
          (update_self _ _ t.msg_list e (ap (λ v. record q { rwaitsem = v }) (rwait_sem_value t e)))
  ]

  pub rwait_sem-IsWaitable : IsWaitable (rwait_sem id) (IsWaited id)
  rwait_sem-IsWaitable = record {
    put_self = rwait_sem-put_self;
    value-put = λ v t i.
        rwait_sem_value (modify id (λ q. record q { rwaitsem = v }) t)
          (msg_get_by_id-modify id (λ q. record q { rwaitsem = v }) t i.present.1 refl);
    bounded = λ t i. rw (rwait_sem_value t i.present.1) (waited-IsCounted t i).rwaitsem;
    taken = λ t i.
        modify-IsWaited _ t i (λ q. refl)
          λ q e c. record {
            number = c.number;
            bytes = c.bytes;
            sizes = c.sizes;
            swaitsem = c.swaitsem;
            rwaitsem = omega (arith, rwait_sem_value t e, c.rwaitsem);
          };
  }

  pub swait_sem_value :
      (t : Queues) {q : Queue} → msg_get_by_id id t ≡ some q → (swait_sem id).value t ≡ q.swaitsem
  swait_sem_value t e = rw (e, swait_sem)

  swait_sem-put_self : (t : Queues) → (swait_sem id).put ((swait_sem id).value t) t ≡ t
  unfolding modify msg_get_by_id
  swait_sem-put_self t = elim (Option-cases (msg_get_by_id id t)) [
    | inl e ↦ ap (λ l. record t { msg_list = l }) (update-none _ _ t.msg_list e)
    | inr (q, e) ↦
        ap (λ l. record t { msg_list = l })
          (update_self _ _ t.msg_list e (ap (λ v. record q { swaitsem = v }) (swait_sem_value t e)))
  ]

  pub swait_sem-IsWaitable : IsWaitable (swait_sem id) (IsWaited id)
  swait_sem-IsWaitable = record {
    put_self = swait_sem-put_self;
    value-put = λ v t i.
        swait_sem_value (modify id (λ q. record q { swaitsem = v }) t)
          (msg_get_by_id-modify id (λ q. record q { swaitsem = v }) t i.present.1 refl);
    bounded = λ t i. rw (swait_sem_value t i.present.1) (waited-IsCounted t i).swaitsem;
    taken = λ t i.
        modify-IsWaited _ t i (λ q. refl)
          λ q e c. record {
            number = c.number;
            bytes = c.bytes;
            sizes = c.sizes;
            rwaitsem = c.rwaitsem;
            swaitsem = omega (arith, swait_sem_value t e, c.swaitsem);
          };
  }

  pub unref-IsCounted : (q : Queue) → IsCounted q → IsCounted (unref q)
  unref-IsCounted q c = record {
    number = c.number;
    bytes = c.bytes;
    sizes = c.sizes;
    swaitsem = c.swaitsem;
    rwaitsem = c.rwaitsem;
  }

  pub add_ref-IsWaited :
      (t : Queues)
      → IsWaited id t
      → IsWaited id (modify id (λ q. record q { refs = add32 q.refs 1 }) t)
  add_ref-IsWaited t i =
      modify-IsWaited _ t i (λ q. refl)
        λ q e c. record {
          number = c.number;
          bytes = c.bytes;
          sizes = c.sizes;
          swaitsem = c.swaitsem;
          rwaitsem = c.rwaitsem;
        }

  pub add_ref-rpatience :
      (t : Queues) (ts : List (Turn Queues))
      → IsWaited id t
      → patience (rwait_sem id) (modify id (λ q. record q { refs = add32 q.refs 1 }) t) ts
        ≡ patience (rwait_sem id) t ts
  add_ref-rpatience t ts i =
      let (q, e) = i.present in
      ap (λ (v : ℕ). v + length ts * 2 ^ 32)
        (rwait_sem_value _
            (msg_get_by_id-modify id (λ q. record q { refs = add32 q.refs 1 }) t e refl)
          ∙ sym (rwait_sem_value t e))

  pub add_ref-spatience :
      (t : Queues) (ts : List (Turn Queues))
      → IsWaited id t
      → patience (swait_sem id) (modify id (λ q. record q { refs = add32 q.refs 1 }) t) ts
        ≡ patience (swait_sem id) t ts
  add_ref-spatience t ts i =
      let (q, e) = i.present in
      ap (λ (v : ℕ). v + length ts * 2 ^ 32)
        (swait_sem_value _
            (msg_get_by_id-modify id (λ q. record q { refs = add32 q.refs 1 }) t e refl)
          ∙ sym (swait_sem_value t e))
