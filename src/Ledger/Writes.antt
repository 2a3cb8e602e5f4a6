-- ===== src/Ledger/Writes.antt =====
-- The invariant and what the handlers write to the storage.
use cw_streamswap.Base.{nat_key, pair_key, ℕ, ◌+◌, ◌≤◌, ◌≡◌, some, arith}
use cw_streamswap.Dict.{Dict, may_load, save, remove}
use cw_streamswap.Dict.Laws.{may_load-save}
use cw_streamswap.Dict.Sums.{
  All, All-map, weight_at, total-save, total-remove, save-All, remove-All, may_load-All,
}
use cw_streamswap.State.{Stream, Position, Storage, unwrap_or}
use cw_streamswap.Handler.{save_stream, save_position}
use cw_streamswap.Ledger.{shares_in, Streams, InStep, IsBacked}

-- A stream's index does not fall, so positions stay in step.
streams-InStep :
    (streams : Streams) (id : ℕ) (s t : Stream) (positions : Dict (ℕ × ℕ) Position)
    → may_load streams id ≡ some s
    → s.dist_index ≤ t.dist_index
    → All (InStep streams) positions
    → All (InStep (save streams id t)) positions
streams-InStep streams id s t positions l h =
    All-map (InStep streams) (InStep (save streams id t)) positions
      (λ key p i. ground (arith, may_load-save streams id key.0 t))

-- A handler has saved the stream and one of its positions.
pub write-IsBacked :
    (store : Storage) (id addr : ℕ) (s t : Stream) (q : Position)
    → IsBacked store
    → may_load store.streams id ≡ some s
    → s.dist_index ≤ t.dist_index
    → q.owner ≡ addr
    → q.index ≤ t.dist_index
    → s.shares + q.shares ≤ t.shares + weight_at (shares_in id) store.positions (id, addr)
    → IsBacked (save_position (save_stream store id t) id addr q)
write-IsBacked store id addr s t q v l rises owned step shares = record {
  backed = λ j. ground (
    arith,
    may_load-save store.streams id j t,
    v.backed j,
    total-save (shares_in j) store.positions (id, addr) q,
  );
  in_step =
      save-All (InStep (save store.streams id t)) store.positions (id, addr) q
        (owned, rw (may_load-save store.streams id id t) (ground arith))
        (streams-InStep store.streams id s t store.positions l rises v.in_step);
  fresh = λ j h. ground (arith, may_load-save store.streams id j t, v.fresh j);
}

-- A handler has saved the stream alone.
pub save_stream-IsBacked :
    (store : Storage) (id : ℕ) (s t : Stream)
    → IsBacked store
    → may_load store.streams id ≡ some s
    → s.dist_index ≤ t.dist_index
    → s.shares ≤ t.shares
    → IsBacked (save_stream store id t)
save_stream-IsBacked store id s t v l rises shares = record {
  backed = λ j. ground (arith, may_load-save store.streams id j t, v.backed j);
  in_step = streams-InStep store.streams id s t store.positions l rises v.in_step;
  fresh = λ j h. ground (arith, may_load-save store.streams id j t, v.fresh j);
}

-- A handler has rewritten a position, with its shares and index.
pub save_position-IsBacked :
    (store : Storage) (id addr : ℕ) (p q : Position)
    → IsBacked store
    → may_load store.positions (id, addr) ≡ some p
    → q.owner ≡ p.owner
    → q.index ≡ p.index
    → q.shares ≡ p.shares
    → IsBacked (save_position store id addr q)
save_position-IsBacked store id addr p q v l owned step shares = record {
  backed = λ j. ground (arith, v.backed j, total-save (shares_in j) store.positions (id, addr) q);
  in_step =
      save-All (InStep store.streams) store.positions (id, addr) q
        (ground
          (arith, may_load-All (InStep store.streams) store.positions (id, addr) p v.in_step l))
        v.in_step;
  fresh = v.fresh;
}

-- A handler has removed a position, and taken its shares off the stream.
pub remove-IsBacked :
    (store : Storage) (id addr : ℕ) (s t : Stream) (p : Position)
    → IsBacked store
    → may_load store.streams id ≡ some s
    → may_load store.positions (id, addr) ≡ some p
    → s.dist_index ≤ t.dist_index
    → s.shares ≤ t.shares + p.shares
    → IsBacked (record (save_stream store id t) { positions = remove store.positions (id, addr) })
remove-IsBacked store id addr s t p v l lp rises shares = record {
  backed = λ j. ground (
    arith,
    may_load-save store.streams id j t,
    v.backed j,
    total-remove (shares_in j) store.positions (id, addr),
  );
  in_step =
      remove-All (InStep (save store.streams id t)) store.positions (id, addr)
        (streams-InStep store.streams id s t store.positions l rises v.in_step);
  fresh = λ j h. ground (arith, may_load-save store.streams id j t, v.fresh j);
}

-- A handler has removed a position, and left the stream.
pub forget-IsBacked :
    (store : Storage) (id addr : ℕ)
    → IsBacked store
    → IsBacked (record store { positions = remove store.positions (id, addr) })
forget-IsBacked store id addr v = record {
  backed = λ j. omega (arith, v.backed j, total-remove (shares_in j) store.positions (id, addr));
  in_step = remove-All (InStep store.streams) store.positions (id, addr) v.in_step;
  fresh = v.fresh;
}

-- The stream with the next id is new: it has no position yet.
pub create-IsBacked :
    (store : Storage) (t : Stream) (id : ℕ)
    → IsBacked store
    → id ≡ unwrap_or store.stream_id_counter 0 + 1
    → IsBacked (record (save_stream store id t) { stream_id_counter = some id })
create-IsBacked store t id v e = record {
  backed = λ j. ground (arith, may_load-save store.streams id j t, v.backed j, v.fresh id);
  in_step =
      All-map (InStep store.streams) (InStep (save store.streams id t)) store.positions
        (λ key p i. ground (arith, may_load-save store.streams id key.0 t, v.fresh id)) v.in_step;
  fresh = λ j h. ground (arith, may_load-save store.streams id j t, v.fresh j);
}
